-- ===== src/TransactionEngine/State.antt =====
-- The states of a transaction engine (src/engine/transaction_engine.hpp): within a transaction,
-- where its users see blocks of their own, and between two transactions.
use extpp.Prelude.{
  ℕ, suc, ◌+◌, ◌^◌, ◌≤◌, ◌<◌, ◌≡◌, ◌∙◌, refl, sym, ap, Bool, true, false, List, [], ◌∷◌, Option,
  none, some, ◌==◌, length, arith, Bool-cases, inl, inr,
}
use extpp.Journal.{Journal}
use extpp.Journal.History.{Transaction}
use extpp.Journal.State.{Idle}
use extpp.Journal.Reading.{current}
use extpp.Engine.{Bytes, Engine}
use extpp.Engine.Blocks.{Block, find, contains, remove, contains-remove, Distinct, remove-Distinct}
use extpp.Engine.Valid.{At, Holds, pinned_of}
use extpp.Engine.Evict.{Stays}
use extpp.Engine.Discard.{NonePinned}
use extpp.TransactionEngine.{TransactionEngine, Store, io, with_store}
use extpp.TransactionEngine.Device.{Disk, Shows, device, on_disk, base, Agree, InRange}

pub remove_absent : (i : ℕ) (ks : List ℕ) → contains i ks ≡ false → remove i ks ≡ ks
unfolding contains remove
remove_absent i [] out = refl
remove_absent i (k ∷ ks) out = ground (arith, remove_absent i ks)

pub length-remove-Distinct :
    (i : ℕ) (ks : List ℕ)
    → contains i ks ≡ true
    → Distinct ks
    → suc (length (remove i ks)) ≡ length ks
unfolding contains remove
length-remove-Distinct i [] inside d = ground arith
length-remove-Distinct i (k ∷ ks) inside d = elim (Bool-cases (k == i)) [
  | inl here ↦
      let same : k ≡ i = ground (arith, here) in
      rw here (ap suc (ap length (remove_absent i ks (ap (λ j. contains j ks) (sym same) ∙ d.0))))
  | inr other ↦ rw other (ap suc (length-remove-Distinct i ks (rw other at inside) d.1))
]

pub Stays-pinned : (o o' : Option Block) → Stays o o' → pinned_of o' ≡ pinned_of o
Stays-pinned o o' (inl same) = ap pinned_of same
Stays-pinned o o' (inr (gone, free)) = ap pinned_of gone ∙ sym free

module _ (malloc_block : Bytes) where
  -- The blocks that are pinned.
  pub record Pins (e : Engine io malloc_block) (ps : List ℕ) (size : ℕ) : Type 0 where
    pub same : (i : ℕ) → pinned_of (find i e.blocks) ≡ contains i ps
    pub distinct : Distinct ps
    pub inside : (i : ℕ) → contains i ps ≡ true → i < size

  module _ (disk : Disk) (ts : List Transaction) where
    -- Within a transaction that began after the history `ts`; its users see `v`.
    pub record Active (e : TransactionEngine malloc_block) (v : ℕ → Bytes) : Type 0 where
      pub stored : ℕ → Bytes
      pub seen : ℕ → Bytes
      pub holds : Holds (device disk ts) malloc_block e.base stored seen
      pub shown : Agree seen v
      pub pinned : List ℕ
      pub pins : Pins e.base pinned e.size
      pub counted : length pinned ≡ e.pinned_blocks
      pub small : e.size + 1 < 2 ^ 64
      pub beyond : (i : ℕ) → InRange i → e.size ≤ i → v i ≡ on_disk disk i
      pub before : (i : ℕ) → e.size ≤ i → current ts i ≡ none

    -- Between two transactions: nothing is dirty or pinned, and what is in memory is what the last
    -- commit left.
    pub record Quiet (e : TransactionEngine malloc_block) : Type 0 where
      pub stored : ℕ → Bytes
      pub holds :
          Holds
            (device disk ts)
            malloc_block
            (with_store malloc_block (record e.base.state { started = true }) e.base)
            stored
            stored
      pub shown : Agree stored (base disk ts)
      pub journal_idle : Idle disk.block_size ts e.base.state.log
      pub stopped : e.base.state.started ≡ false
      pub clean : e.base.dirty ≡ []
      pub free : NonePinned (device disk ts) malloc_block e.base
      pub unpinned : e.pinned_blocks ≡ 0
      pub small : e.size + 1 < 2 ^ 64
      pub beyond : (i : ℕ) → e.size ≤ i → current ts i ≡ none

  module _ (e e' : Engine io malloc_block) (i : ℕ) (ps : List ℕ) (size : ℕ) (pins : Pins e ps size)
      (others : (j : ℕ) → (i == j) ≡ false → Stays (find j e.blocks) (find j e'.blocks)) where
    others_same : (j : ℕ) → (i == j) ≡ false → pinned_of (find j e'.blocks) ≡ contains j ps
    others_same j other = Stays-pinned _ _ (others j other) ∙ pins.same j

    pub Pins-pin :
        pinned_of (find i e.blocks) ≡ false
        → pinned_of (find i e'.blocks) ≡ true
        → i < size
        → Pins e' (i ∷ ps) size
    unfolding contains
    Pins-pin was now inside = record {
      same = λ j. elim (Bool-cases (i == j)) [
        | inl here ↦
            let same : i ≡ j = ground (arith, here) in
            rw here (ap (λ k. pinned_of (find k e'.blocks)) (sym same) ∙ now)
        | inr other ↦ rw other (others_same j other)
      ];
      distinct = (sym (pins.same i) ∙ was, pins.distinct);
      inside = λ j h. elim (Bool-cases (i == j)) [
        | inl here ↦ ground (arith, here, inside)
        | inr other ↦ pins.inside j (rw other at h)
      ];
    }

    pub Pins-keep : pinned_of (find i e'.blocks) ≡ pinned_of (find i e.blocks) → Pins e' ps size
    Pins-keep kept = record {
      same = λ j. elim (Bool-cases (i == j)) [
        | inl here ↦
            let same : i ≡ j = ground (arith, here) in
            ap (λ k. pinned_of (find k e'.blocks)) (sym same)
            ∙ kept
            ∙ pins.same i
            ∙ ap (λ k. contains k ps) same
        | inr other ↦ others_same j other
      ];
      distinct = pins.distinct;
      inside = pins.inside;
    }

    pub Pins-unpin : pinned_of (find i e'.blocks) ≡ false → Pins e' (remove i ps) size
    Pins-unpin now = record {
      same = λ j. elim (Bool-cases (i == j)) [
        | inl here ↦
            let same : i ≡ j = ground (arith, here) in
            ap (λ k. pinned_of (find k e'.blocks)) (sym same)
            ∙ now
            ∙ sym (contains-remove i j ps ∙ rw here refl)
        | inr other ↦ others_same j other ∙ sym (contains-remove i j ps ∙ rw other refl)
      ];
      distinct = remove-Distinct i ps pins.distinct;
      inside = λ j h. pins.inside j (ground (arith, contains-remove i j ps, h));
    }

pub NonePinned-empty : (ps : List ℕ) → length ps ≡ 0 → (i : ℕ) → contains i ps ≡ false
unfolding contains
NonePinned-empty [] h i = refl
NonePinned-empty (k ∷ ks) h i = absurd (omega (arith, h))

module _ (malloc_block : Bytes) (disk : Disk) where
  -- Where nothing is counted, nothing is pinned.
  pub Active-NonePinned :
      (ts : List Transaction) (e : TransactionEngine malloc_block) (v : ℕ → Bytes)
      → Active malloc_block disk ts e v
      → e.pinned_blocks ≡ 0
      → NonePinned (device disk ts) malloc_block e.base
  Active-NonePinned ts e v a zero_pinned i b found =
      ap pinned_of (sym found)
      ∙ a.pins.same i
      ∙ NonePinned-empty a.pinned (a.counted ∙ zero_pinned) i

  -- The users see the same, for indices that may be used.
  pub Active-ext :
      (ts : List Transaction) (e : TransactionEngine malloc_block) (v w : ℕ → Bytes)
      → (a : Active malloc_block disk ts e v) → Agree v w
      → (a' : Active malloc_block disk ts e w) × (a'.pinned ≡ a.pinned)
  Active-ext ts e v w a same = (
    record {
      stored = a.stored;
      seen = a.seen;
      holds = a.holds;
      shown = λ i r. a.shown i r ∙ same i r;
      pinned = a.pinned;
      pins = a.pins;
      counted = a.counted;
      small = a.small;
      beyond = λ i r out. sym (same i r) ∙ a.beyond i r out;
      before = a.before;
    },
    refl,
  )

  pub At-rebased :
      (n : ℕ) (Usable : Type 0) (o : Option Block) (cached dirty : Bool) (x y : Bytes)
      → At n Usable o cached dirty x x
      → ((b : Block) → o ≡ some b → Usable → x ≡ y)
      → At n Usable o cached dirty y y
  At-rebased n Usable none cached dirty x y a same = (a.0, a.1, refl)
  At-rebased n Usable (some b) cached dirty x y a same =
      let e : x ≡ y = same b refl a.3 in (a.0, sym e ∙ a.1, a.2, a.3, λ h. sym e ∙ a.1)

  -- The store of an engine is replaced by one that shows the same for what is in memory.
  pub Holds-rebased :
      (ts ts' : List Transaction) (e : Engine io malloc_block) (f f' : ℕ → Bytes) (d : Store)
      → Holds (device disk ts) malloc_block e f f
      → ((i : ℕ) (b : Block) → find i e.blocks ≡ some b → InRange i → f i ≡ f' i)
      → Shows disk ts' d f'
      → Holds (device disk ts') malloc_block (with_store malloc_block d e) f' f'
  Holds-rebased ts ts' e f f' d h same shows = record {
    shows = shows;
    writable = h.writable;
    sized = h.sized;
    unset = h.unset;
    distinct = h.distinct;
    at = λ i. At-rebased disk.block_size (InRange i) _ _ _ (f i) (f' i) (h.at i) (same i);
  }

  -- Between two transactions, with a journal that has the history.
  pub settled-Quiet :
      (ts ts' : List Transaction) (b : Engine io malloc_block) (size : ℕ) (f f' : ℕ → Bytes)
      (j : Journal)
      → Holds (device disk ts) malloc_block b f f
      → ((i : ℕ) (c : Block) → find i b.blocks ≡ some c → InRange i → f i ≡ f' i)
      → Idle disk.block_size ts' j
      → Agree f' (base disk ts')
      → b.dirty ≡ []
      → NonePinned (device disk ts) malloc_block b
      → size + 1 < 2 ^ 64
      → ((i : ℕ) → size ≤ i → current ts' i ≡ none)
      → Quiet malloc_block disk ts' (record {
        base = with_store malloc_block (record b.state { log = j; started = false }) b;
        pinned_blocks = 0;
        size = size;
      })
  settled-Quiet ts ts' b size f f' j h same idle agree clean free small beyond =
      let s = h.shows.attached in
      record {
        stored = f';
        holds =
            Holds-rebased ts ts' b f f' (record b.state { log = j; started = true }) h same
              (record {
                attached = record {
                  same_db = s.same_db;
                  same_blocks = s.same_blocks;
                  same_size = s.same_size;
                  same_log = s.same_log;
                };
                started = refl;
                phase = inl (idle, agree);
              });
        shown = agree;
        journal_idle = idle;
        stopped = refl;
        clean = clean;
        free = free;
        unpinned = refl;
        small = small;
        beyond = beyond;
      }
