-- ===== src/TransactionEngine/Inside.antt =====
-- The calls of the transaction engine (src/engine/transaction_engine.ipp) within a transaction, against
-- the abstract database.
use extpp.Prelude.{
  ℕ, ◌+◌, ◌^◌, ◌≡◌, ◌∙◌, refl, sym, ap, Bool, true, false, if◌then◌else◌, ltb, ◌==◌, List, ◌∷◌,
  Option, none, some, ok, length, arith, Bool-cases, inl, inr,
}
use extpp.Journal.{Journal}
use extpp.Journal.History.{Transaction}
use extpp.Engine
use extpp.Engine.{Bytes, Engine}
use extpp.Engine.Blocks.{Block, find, contains, remove}
use extpp.Engine.Valid.{pinned_of}
use extpp.TransactionEngine.{TransactionEngine, io, commit, rollback, pin, unpin, write_block}
use extpp.TransactionEngine.Written.{last_size, last_size-snoc}
use extpp.TransactionEngine.Changed.{changed, pin-changed, unpin-changed, write_block-changed}
use extpp.TransactionEngine.Within.{pin-Active, unpin-Active, write_block-Active, grow-Active}
use extpp.TransactionEngine.Commit.{commit-Quiet, Recorded}
use extpp.TransactionEngine.Rollback.{rollback-Quiet}
use extpp.TransactionEngine.Refusals.{
  Active-refuses, pinned-refuses, begin-refused, begin-pinned, pin-refused, grow-refused,
  write_block-refused, unpin-refused,
}
use extpp.TransactionEngine.Session.{
  Command, begun, committed, rolled_back, checkpointed, pinned, unpinned, wrote, grew, outside,
  inside, next, refusal, execute, Allowed, Represents, Answers,
}

-- A block that is pinned.
pinned-found :
    (o : Option Block) → pinned_of o ≡ true → (b : Block) × (o ≡ some b) × (b.pinned ≡ true)
pinned-found none h = absurd (ground (arith, h))
pinned-found (some b) h = (b, refl, h)

module _ (malloc_block : Bytes) where
  abbrev E : Type 0
  E = TransactionEngine malloc_block

  engine_pin :
      (e e' : E) (i : ℕ)
      → pin malloc_block i true e ≡ ok e'
      → Engine.pin io malloc_block i true e.base ≡ ok e'.base
  unfolding pin
  engine_pin e e' i h = ground (arith, h)

  engine_unpin :
      (e e' : E) (i : ℕ)
      → unpin malloc_block i e ≡ ok e'
      → Engine.unpin io malloc_block i e.base ≡ ok e'.base
  unfolding unpin
  engine_unpin e e' i h = ground (arith, h)

  engine_write_block :
      (e e' : E) (i : ℕ) (bytes : Bytes)
      → write_block malloc_block i bytes e ≡ ok e'
      → Engine.write_block io malloc_block i bytes e.base ≡ ok e'.base
  unfolding write_block
  engine_write_block e e' i bytes h = ground (arith, h)

  Recorded-last_size :
      (block_size n m r : ℕ) (w was_changed : Bool) (ts ts' : List Transaction) (j : Journal)
      → Recorded block_size ts ts' m was_changed j
      → was_changed ≡ w
      → last_size ts n ≡ r
      → last_size ts' n ≡ (if w then m else r)
  Recorded-last_size block_size n m r w was_changed ts ts' j (inl (unchanged, same)) was recorded =
      let clean : w ≡ false = sym was ∙ unchanged in
      rw clean (ap (λ us. last_size us n) same ∙ recorded)
  Recorded-last_size block_size n m r w was_changed ts ts' j (inr (written, ws, more, filed)) was
        recorded =
      let is_dirty : w ≡ true = sym was ∙ written in
      rw is_dirty (ap (λ us. last_size us n) more ∙ last_size-snoc ts _ n)

  committed-Answers :
      (e : E) (c : ℕ → Bytes) (r : ℕ) (v : ℕ → Bytes) (m : ℕ) (w : Bool) (ps : List ℕ)
      → Represents malloc_block e (inside c r v m w ps)
      → e.pinned_blocks ≡ 0
      → Answers malloc_block (commit malloc_block e) none (outside v (if w then m else r) m)
  committed-Answers e c r v m w ps (disk, ts, a, same, recorded, sized, was, held) no_pins =
      let (e', ts', done, q, seen, size, more) = commit-Quiet malloc_block disk ts e v a no_pins in
      let last =
        Recorded-last_size disk.block_size disk.db_blocks e.size r w _ ts ts' e'.base.state.log more
          was recorded in
      (e', done, (disk, ts', q, seen, last ∙ ap (λ n. if w then n else r) sized, size ∙ sized))

  rolled_back-Answers :
      (e : E) (c : ℕ → Bytes) (r : ℕ) (v : ℕ → Bytes) (m : ℕ) (w : Bool) (ps : List ℕ)
      → Represents malloc_block e (inside c r v m w ps)
      → e.pinned_blocks ≡ 0
      → Answers malloc_block (rollback malloc_block e) none (outside c r r)
  rolled_back-Answers e c r v m w ps (disk, ts, a, same, recorded, sized, was, held) no_pins =
      let (e', done, q, size) = rollback-Quiet malloc_block disk ts e v a no_pins in
      (e', done, (disk, ts, q, same, recorded, size ∙ recorded))

  pub inside-Answers :
      (command : Command) (e : E) (c : ℕ → Bytes) (r : ℕ) (v : ℕ → Bytes) (m : ℕ) (w : Bool)
      (ps : List ℕ)
      → Represents malloc_block e (inside c r v m w ps)
      → Allowed malloc_block command e
      → Answers malloc_block
          (execute malloc_block command e)
          (refusal command (inside c r v m w ps))
          (next command (inside c r v m w ps))
  unfolding execute next refusal
  inside-Answers begun e c r v m w ps (disk, ts, a, same, recorded, sized, was, held) allowed =
      let count : e.pinned_blocks ≡ length ps = sym a.counted ∙ ap length held in
      elim (Bool-cases (length ps == 0)) [
        | inl empty ↦
            rw empty (begin-refused malloc_block disk ts e v a (ground (arith, count, empty)))
        | inr busy ↦ rw busy (begin-pinned malloc_block disk ts e (ground (arith, count, busy)))
      ]
  inside-Answers committed e c r v m w ps (disk, ts, a, same, recorded, sized, was, held) allowed =
      let count : e.pinned_blocks ≡ length ps = sym a.counted ∙ ap length held in
      elim (Bool-cases (length ps == 0)) [
        | inl empty ↦ rw empty (
            committed-Answers e c r v m w ps (disk, ts, a, same, recorded, sized, was, held)
              (ground (arith, count, empty)))
        | inr busy ↦
            rw busy ((pinned-refuses malloc_block disk ts e v a (ground (arith, count, busy))).0)
      ]
  inside-Answers rolled_back e c r v m w ps (disk, ts, a, same, recorded, sized, was, held)
        allowed =
      let count : e.pinned_blocks ≡ length ps = sym a.counted ∙ ap length held in
      elim (Bool-cases (length ps == 0)) [
        | inl empty ↦ rw empty (
            rolled_back-Answers e c r v m w ps (disk, ts, a, same, recorded, sized, was, held)
              (ground (arith, count, empty)))
        | inr busy ↦
            rw busy ((pinned-refuses malloc_block disk ts e v a (ground (arith, count, busy))).1)
      ]
  inside-Answers checkpointed e c r v m w ps (disk, ts, a, same, recorded, sized, was, held)
        allowed =
      (Active-refuses malloc_block disk ts e v e.size true a (omega arith)).0
  inside-Answers (pinned i) e c r v m w ps (disk, ts, a, same, recorded, sized, was, held) allowed =
      elim (Bool-cases (ltb i m)) [
        | inr out ↦
            rw out
              ((Active-refuses malloc_block disk ts e v i true a (ground (arith, out, sized))).1)
        | inl low ↦ elim (Bool-cases (contains i ps)) [
          | inl there ↦
              rw (low, there)
                (pin-refused malloc_block disk ts e v i a (ground (arith, low, sized))
                  (a.pins.same i ∙ ap (contains i) held ∙ there))
          | inr free ↦
              let (e', done, a', more, found, size, count) =
                pin-Active malloc_block disk ts e v i a (ground (arith, low, sized))
                  (a.pins.same i ∙ ap (contains i) held ∙ free) in
              rw (low, free)
                (
                  e',
                  done,
                  (
                    disk,
                    ts,
                    a',
                    same,
                    recorded,
                    size ∙ sized,
                    pin-changed malloc_block e.base e'.base i (engine_pin e e' i done) ∙ was,
                    more ∙ ap (λ (l : List ℕ). i ∷ l) held,
                  ),
                )
        ]
      ]
  inside-Answers (unpinned i) e c r v m w ps (disk, ts, a, same, recorded, sized, was, held)
        allowed =
      elim (Bool-cases (contains i ps)) [
        | inr free ↦
            rw free (unpin-refused malloc_block e i (a.pins.same i ∙ ap (contains i) held ∙ free))
        | inl there ↦
            let (b, found, busy) =
              pinned-found (find i e.base.blocks) (a.pins.same i ∙ ap (contains i) held ∙ there) in
            let (e', done, a', fewer, now, count, size) =
              unpin-Active malloc_block disk ts e v i b a found busy in
            rw there (
              e',
              done,
              (
                disk,
                ts,
                a',
                same,
                recorded,
                size ∙ sized,
                unpin-changed malloc_block e.base e'.base i (engine_unpin e e' i done) ∙ was,
                fewer ∙ ap (remove i) held,
              ),
            )
      ]
  inside-Answers (wrote i bytes) e c r v m w ps (disk, ts, a, same, recorded, sized, was, held)
        allowed =
      elim (Bool-cases (contains i ps)) [
        | inr free ↦ rw free (
            write_block-refused malloc_block e i bytes
              (a.pins.same i ∙ ap (contains i) held ∙ free))
        | inl there ↦
            let (b, found, busy) =
              pinned-found (find i e.base.blocks) (a.pins.same i ∙ ap (contains i) held ∙ there) in
            let (e', done, a', as_many, now, size, count) =
              write_block-Active malloc_block disk ts e v i b bytes a found busy
                (allowed ∙ a.holds.shows.attached.same_size) in
            rw there (
              e',
              done,
              (
                disk,
                ts,
                a',
                same,
                recorded,
                size ∙ sized,
                write_block-changed malloc_block e.base e'.base i bytes
                    (engine_write_block e e' i bytes done),
                as_many ∙ held,
              ),
            )
      ]
  inside-Answers (grew n) e c r v m w ps (disk, ts, a, same, recorded, sized, was, held) allowed =
      elim (Bool-cases (ltb (m + n) (2 ^ 64))) [
        | inr high ↦
            rw high (grow-refused malloc_block disk ts e v n a (ground (arith, high, sized)))
        | inl low ↦
            let (e', done, a', as_many, size, kept, count) =
              grow-Active malloc_block disk ts e v n a (ground (arith, low, sized, allowed)) in
            rw low (
              e',
              done,
              (
                disk,
                ts,
                a',
                same,
                recorded,
                size ∙ ap (λ k. k + n) sized,
                ap (changed malloc_block) kept ∙ was,
                as_many ∙ held,
              ),
            )
      ]
