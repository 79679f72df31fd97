-- ===== src/TransactionEngine/Commit.antt =====
-- The commit of src/engine/transaction_engine.ipp: what the users have seen is what the journal's
-- history stands for from then on.
use extpp.Prelude.{
  ℕ, Bool, ◌≤◌, ◌≡◌, ◌∙◌, ◌⊎◌, refl, sym, ap, true, false, List, [], ◌∷◌, ◌++◌, Option, none, ok,
  ltb, arith, Bool-cases, inl, inr,
}
use extpp.Journal.{Journal}
use extpp.Journal.History.{Transaction, Write, lookup, after, contents, encode_journal}
use extpp.Journal.Reading.{current}
use extpp.Journal.Ending.{commit-Idle}
use extpp.Engine.{Bytes}
use extpp.Engine.Blocks.{find}
use extpp.Engine.Evict.{Holds-ext}
use extpp.Engine.Flush.{flush_all-Holds}
use extpp.Engine.Discard.{NonePinned}
use extpp.TransactionEngine.{TransactionEngine, with_store, commit_journal, commit}
use extpp.TransactionEngine.Changed.{changed, flush_all-changed}
use extpp.TransactionEngine.Device.{
  Disk, device, on_disk, base, written, Agree, InRange, pending_or_else,
}
use extpp.TransactionEngine.State.{Active, Quiet, Active-NonePinned, settled-Quiet}

contents-append :
    (ts us : List Transaction) (f : ℕ → Option Bytes)
    → contents (ts ++ us) f ≡ contents us (contents ts f)
unfolding contents
contents-append [] us f = refl
contents-append (t ∷ ts) us f = contents-append ts us (after t f)

pub current-snoc :
    (ts : List Transaction) (t : Transaction) → current (ts ++ t ∷ []) ≡ after t (current ts)
unfolding contents
current-snoc ts t = contents-append ts (t ∷ []) (λ i. none)

-- The history after a commit: with one more transaction, that is in the file, where a block has been
-- changed, and else as it was.
abbrev pub Recorded : ℕ → List Transaction → List Transaction → ℕ → Bool → Journal → Type 0
Recorded block_size ts ts' size was_changed j =
    ((was_changed ≡ false) × (ts' ≡ ts))
    ⊎ ((was_changed ≡ true)
        × (ws : List Write) × (ts' ≡ ts ++ record { writes = ws; size = size } ∷ [])
        × (j.tail.file.bytes ≡ encode_journal block_size ts'))

module _ (malloc_block : Bytes) (disk : Disk) (ts : List Transaction) where
  committed_base :
      (ws : List Write) (size : ℕ) (f : ℕ → Bytes)
      → Agree f (written disk ts ws)
      → ((i : ℕ) → InRange i → size ≤ i → f i ≡ on_disk disk i)
      → Agree f (base disk (ts ++ record { writes = ws; size = size } ∷ []))
  unfolding after
  committed_base ws size f same beyond i h =
      let t : Transaction = record { writes = ws; size = size } in
      rw (current-snoc ts t) (elim (Bool-cases (ltb i size)) [
        | inl inside ↦
            rw inside (same i h ∙ sym (pending_or_else disk ts (lookup i ws) (current ts i) _))
        | inr out ↦ rw out (beyond i h (ground (arith, out)))
      ])

  committed_beyond :
      (ws : List Write) (size i : ℕ)
      → size ≤ i
      → current (ts ++ record { writes = ws; size = size } ∷ []) i ≡ none
  unfolding after
  committed_beyond ws size i out =
      let t : Transaction = record { writes = ws; size = size } in
      let not_inside : ltb i size ≡ false = ground (arith, out) in
      rw (current-snoc ts t, not_inside) refl

  -- A commit with nothing pinned ends the transaction: what the users saw is what the history then
  -- stands for, and the database keeps its size. Where the transaction has changed a block, the
  -- history has one more transaction, with that size, and the journal's file holds all of it; else
  -- the history is as it was.
  pub commit-Quiet :
      (e : TransactionEngine malloc_block) (v : ℕ → Bytes)
      → Active malloc_block disk ts e v
      → e.pinned_blocks ≡ 0
      → (e' : TransactionEngine malloc_block) × (ts' : List Transaction) × (commit malloc_block e
          ≡ ok e')
        × Quiet malloc_block disk ts' e'
        × Agree (base disk ts') v
        × (e'.size ≡ e.size)
        × Recorded disk.block_size ts ts' e.size (changed malloc_block e.base) e'.base.state.log
  unfolding commit commit_journal
  commit-Quiet e v a unpinned =
      let (b, f, flushed, h, same, clean, kept) =
        flush_all-Holds (device disk ts) malloc_block e.base a.stored a.seen a.holds in
      let free : NonePinned (device disk ts) malloc_block b = λ i c found.
        Active-NonePinned malloc_block disk ts e v a unpinned i c
          (ap (find i) (sym kept) ∙ found) in
      let open_j = flush_all-changed malloc_block e.base b flushed in
      let shown : Agree f v = λ i r. same i ∙ a.shown i r in
      let settled = Holds-ext (device disk ts) malloc_block b f a.seen f (λ i. sym (same i)) h in
      elim h.shows.phase [
        | inl (idle, agree) ↦ (
          record {
            base = with_store malloc_block (record b.state { started = false }) b;
            pinned_blocks = 0;
            size = e.size;
          },
          ts,
          ground (arith, a.holds.shows.started, unpinned, flushed, idle.idle),
          settled-Quiet malloc_block disk ts ts b e.size f f b.state.log settled
              (λ i c found r. refl) idle agree clean free a.small a.before,
          (λ i r. sym (agree i r) ∙ shown i r),
          refl,
          inl (sym open_j ∙ idle.idle, refl),
        )
        | inr (ws, running, agree) ↦
            let (j, done, idle, filed) = commit-Idle b.state.log e.size running a.small in
            let agree' =
              committed_base ws e.size f agree (λ i r out. shown i r ∙ a.beyond i r out) in
            (
              record {
                base = with_store malloc_block (record b.state { log = j; started = false }) b;
                pinned_blocks = 0;
                size = e.size;
              },
              ts ++ record { writes = ws; size = e.size } ∷ [],
              ground (arith, a.holds.shows.started, unpinned, flushed, running.running, done),
              settled-Quiet malloc_block disk ts _ b e.size f f j settled (λ i c found r. refl) idle
                  agree' clean free a.small (committed_beyond ws e.size),
              (λ i r. sym (agree' i r) ∙ shown i r),
              refl,
              inr (sym open_j ∙ running.running, ws, refl, filed),
            )
      ]
