-- ===== src/TransactionEngine/Within.antt =====
-- What users do within a transaction (begin, pin, unpin and grow of
-- src/engine/transaction_engine.ipp, and the writes through a block's handle).
use extpp.Prelude.{
  ℕ, suc, ◌+◌, ◌-◌, ◌^◌, ◌<◌, ◌≡◌, ◌∙◌, refl, sym, ap, true, false, List, [], ◌∷◌, Option, none,
  some, ok, ltb, ◌==◌, length, arith, Bool-cases, inl, inr,
}
use extpp.Journal.History.{Transaction}
use extpp.Engine.{Bytes}
use extpp.Engine.Blocks.{Block, find, contains, remove}
use extpp.Engine.Valid.{pinned_of, update}
use extpp.Engine.Pin.{held, pin-Holds, unpin-Holds}
use extpp.Engine.Change.{write_block-Holds}
use extpp.TransactionEngine.{TransactionEngine, with_store, begin, pin, unpin, write_block, grow}
use extpp.TransactionEngine.Device.{Disk, device, on_disk, base, Agree, or_else}
use extpp.TransactionEngine.State.{
  Active, Quiet, Pins-pin, Pins-keep, Pins-unpin, length-remove-Distinct,
}

pub NonePinned-pinned_of :
    (o : Option Block) → ((b : Block) → o ≡ some b → b.pinned ≡ false) → pinned_of o ≡ false
NonePinned-pinned_of none h = refl
NonePinned-pinned_of (some b) h = h b refl

pub update-Agree :
    (f g : ℕ → Bytes) (i : ℕ) (block : Bytes)
    → Agree f g
    → Agree (update f i block) (update g i block)
update-Agree f g i block same j h = elim (Bool-cases (i == j)) [
  | inl here ↦ rw here refl
  | inr other ↦ rw other (same j h)
]

module _ (malloc_block : Bytes) (disk : Disk) (ts : List Transaction) where
  -- A transaction that begins shows every block as the last commit left it.
  pub begin-Active :
      (e : TransactionEngine malloc_block)
      → Quiet malloc_block disk ts e
      → (e' : TransactionEngine malloc_block) × (begin malloc_block e ≡ ok e')
        × (a : Active malloc_block disk ts e' (base disk ts)) × (a.pinned ≡ [])
        × (e'.size ≡ e.size)
        × (e'.pinned_blocks ≡ 0)
  unfolding begin contains
  begin-Active e q = (
    record e { base = with_store malloc_block (record e.base.state { started = true }) e.base },
    ground (arith, q.unpinned, q.stopped),
    record {
      stored = q.stored;
      seen = q.stored;
      holds = q.holds;
      shown = q.shown;
      pinned = [];
      pins = record {
        same = λ i. NonePinned-pinned_of _ (q.free i);
        distinct = tt;
        inside = λ i h. ground (arith, h);
      };
      counted = sym q.unpinned;
      small = q.small;
      beyond = λ i h out. ap (λ o. or_else o (on_disk disk i)) (q.beyond i out);
      before = q.beyond;
    },
    refl,
    refl,
    q.unpinned,
  )

  -- Pinning a block below the database's size, that is not pinned, gives what its users see there.
  pub pin-Active :
      (e : TransactionEngine malloc_block) (v : ℕ → Bytes) (i : ℕ)
      → (a : Active malloc_block disk ts e v) → i < e.size
      → pinned_of (find i e.base.blocks) ≡ false
      → (e' : TransactionEngine malloc_block) × (pin malloc_block i true e ≡ ok e')
        × (a' : Active malloc_block disk ts e' v) × (a'.pinned ≡ i ∷ a.pinned)
        × (find i e'.base.blocks ≡ some (held i (v i)))
        × (e'.size ≡ e.size)
        × (e'.pinned_blocks ≡ suc e.pinned_blocks)
  unfolding pin
  pin-Active e v i a inside free =
      let small = a.small in
      let (b, f', done, holds, found, still) =
        pin-Holds (device disk ts) malloc_block e.base a.stored a.seen i a.holds (omega arith)
          free in
      let there : find i b.blocks ≡ some (held i (v i)) =
        found ∙ ap (λ (x : Bytes). some (held i x)) (a.shown i (omega arith)) in
      (
        record e { base = b; pinned_blocks = e.pinned_blocks + 1 },
        ground (arith, a.holds.shows.started, inside, done),
        record {
          stored = f';
          seen = a.seen;
          holds = holds;
          shown = a.shown;
          pinned = i ∷ a.pinned;
          pins =
              Pins-pin malloc_block e.base b i a.pinned e.size a.pins still free
                (ap pinned_of there) inside;
          counted = omega (arith, a.counted);
          small = small;
          beyond = a.beyond;
          before = a.before;
        },
        refl,
        there,
        refl,
        omega arith,
      )

  -- Releasing a block changes nothing that the users see.
  pub unpin-Active :
      (e : TransactionEngine malloc_block) (v : ℕ → Bytes) (i : ℕ) (b : Block)
      → (a : Active malloc_block disk ts e v) → find i e.base.blocks ≡ some b
      → b.pinned ≡ true
      → (e' : TransactionEngine malloc_block) × (unpin malloc_block i e ≡ ok e')
        × (a' : Active malloc_block disk ts e' v) × (a'.pinned ≡ remove i a.pinned)
        × (find i e'.base.blocks ≡ some (record b { pinned = false }))
        × (suc e'.pinned_blocks ≡ e.pinned_blocks)
        × (e'.size ≡ e.size)
  unfolding unpin
  unpin-Active e v i b a found busy =
      let (e₁, done, holds, there, still) =
        unpin-Holds (device disk ts) malloc_block e.base a.stored a.seen i b a.holds found busy in
      let pinned : contains i a.pinned ≡ true = sym (a.pins.same i) ∙ ap pinned_of found ∙ busy in
      let fewer = length-remove-Distinct i a.pinned pinned a.pins.distinct in
      (
        record e { base = e₁; pinned_blocks = e.pinned_blocks - 1 },
        (let some_pinned : ltb 0 e.pinned_blocks ≡ true = ground (arith, a.counted, fewer) in
            ground (arith, some_pinned, done)),
        record {
          stored = a.stored;
          seen = a.seen;
          holds = holds;
          shown = a.shown;
          pinned = remove i a.pinned;
          pins =
              Pins-unpin malloc_block e.base e₁ i a.pinned e.size a.pins still (ap pinned_of there);
          counted = omega (arith, a.counted, fewer);
          small = a.small;
          beyond = a.beyond;
          before = a.before;
        },
        refl,
        there,
        omega (arith, a.counted, fewer),
        refl,
      )

  -- What is written through the handle of a pinned block is what the users see there; the database
  -- file and the other blocks are as they were.
  pub write_block-Active :
      (e : TransactionEngine malloc_block) (v : ℕ → Bytes) (i : ℕ) (b : Block) (bytes : Bytes)
      → (a : Active malloc_block disk ts e v) → find i e.base.blocks ≡ some b
      → b.pinned ≡ true
      → length bytes ≡ disk.block_size
      → (e' : TransactionEngine malloc_block) × (write_block malloc_block i bytes e ≡ ok e')
        × (a' : Active malloc_block disk ts e' (update v i bytes)) × (a'.pinned ≡ a.pinned)
        × (find i e'.base.blocks ≡ some (record b { bytes = bytes }))
        × (e'.size ≡ e.size)
        × (e'.pinned_blocks ≡ e.pinned_blocks)
  unfolding write_block
  write_block-Active e v i b bytes a found busy sized =
      let (e₁, done, holds, there, still) =
        write_block-Holds (device disk ts) malloc_block e.base a.stored a.seen i b bytes a.holds
          found busy sized in
      let inside = a.pins.inside i (sym (a.pins.same i) ∙ ap pinned_of found ∙ busy) in
      (
        record e { base = e₁ },
        ground (arith, done),
        record {
          stored = a.stored;
          seen = update a.seen i bytes;
          holds = holds;
          shown = update-Agree a.seen v i bytes a.shown;
          pinned = a.pinned;
          pins =
              Pins-keep malloc_block e.base e₁ i a.pinned e.size a.pins still
                (ap pinned_of there ∙ sym (ap pinned_of found));
          counted = a.counted;
          small = a.small;
          beyond = λ j h out.
              let apart : (i == j) ≡ false = ground (arith, inside, out) in
              rw apart (a.beyond j h out);
          before = a.before;
        },
        refl,
        there,
        refl,
        refl,
      )

  -- A database that grows has more blocks to pin; no block changes.
  pub grow-Active :
      (e : TransactionEngine malloc_block) (v : ℕ → Bytes) (n : ℕ)
      → (a : Active malloc_block disk ts e v) → e.size + n + 1 < 2 ^ 64
      → (e' : TransactionEngine malloc_block) × (grow malloc_block n e ≡ ok e')
        × (a' : Active malloc_block disk ts e' v) × (a'.pinned ≡ a.pinned)
        × (e'.size ≡ e.size + n)
        × (e'.base ≡ e.base)
        × (e'.pinned_blocks ≡ e.pinned_blocks)
  unfolding grow
  grow-Active e v n a fits = (
    record e { size = e.size + n },
    ground (arith, a.holds.shows.started, fits),
    record {
      stored = a.stored;
      seen = a.seen;
      holds = a.holds;
      shown = a.shown;
      pinned = a.pinned;
      pins = record {
        same = a.pins.same;
        distinct = a.pins.distinct;
        inside = λ i h. omega (arith, a.pins.inside i h);
      };
      counted = a.counted;
      small = fits;
      beyond = λ i h out. a.beyond i h (omega (arith, out));
      before = λ i out. a.before i (omega (arith, out));
    },
    refl,
    refl,
    refl,
    refl,
  )
