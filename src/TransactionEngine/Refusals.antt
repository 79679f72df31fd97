-- ===== src/TransactionEngine/Refusals.antt =====
-- The calls that src/engine/transaction_engine.ipp refuses by an exception.
use extpp.Prelude.{
  ℕ, ◌+◌, ◌^◌, ◌≤◌, ◌<◌, ◌≡◌, Bool, true, false, List, err, assertion, bad_operation, bad_argument,
  overflow_error, arith, Option-cases, inl, inr,
}
use extpp.Journal.History.{Transaction}
use extpp.Math.{checked_add_u64}
use extpp.Engine
use extpp.Engine.{Bytes, Engine}
use extpp.Engine.Blocks.{find}
use extpp.Engine.Valid.{pinned_of}
use extpp.Engine.Pin.{pin_twice}
use extpp.TransactionEngine.{
  TransactionEngine, io, begin, commit, rollback, checkpoint, pin, unpin, write_block, grow,
}
use extpp.TransactionEngine.Device.{Disk, device}
use extpp.TransactionEngine.State.{Active, Quiet}

module _ (malloc_block : Bytes) (disk : Disk) (ts : List Transaction) where
  -- Between two transactions, no block can be pinned, and nothing can be committed, rolled back or
  -- made larger.
  pub Quiet-refuses :
      (e : TransactionEngine malloc_block) (i n : ℕ) (initialize : Bool)
      → Quiet malloc_block disk ts e
      → (commit malloc_block e ≡ err bad_operation)
        × (rollback malloc_block e ≡ err bad_operation)
        × (pin malloc_block i initialize e ≡ err bad_operation)
        × (grow malloc_block n e ≡ err bad_operation)
  unfolding commit rollback pin grow
  Quiet-refuses e i n initialize q = (
    ground (arith, q.stopped),
    ground (arith, q.stopped),
    ground (arith, q.stopped),
    ground (arith, q.stopped),
  )

  -- Within a transaction there is no checkpoint, and no block can be pinned behind the end.
  pub Active-refuses :
      (e : TransactionEngine malloc_block) (v : ℕ → Bytes) (i : ℕ) (initialize : Bool)
      → Active malloc_block disk ts e v
      → e.size ≤ i
      → (checkpoint malloc_block e ≡ err bad_operation)
        × (pin malloc_block i initialize e ≡ err bad_argument)
  unfolding checkpoint pin
  Active-refuses e v i initialize a out =
      let started = a.holds.shows.started in (ground (arith, started), ground (arith, started, out))

  -- While a block is pinned, there is no commit and no rollback.
  pub pinned-refuses :
      (e : TransactionEngine malloc_block) (v : ℕ → Bytes)
      → Active malloc_block disk ts e v
      → 0 < e.pinned_blocks
      → (commit malloc_block e ≡ err bad_operation) × (rollback malloc_block e ≡ err bad_operation)
  unfolding commit rollback
  pinned-refuses e v a some_pinned =
      let started = a.holds.shows.started in
      (ground (arith, started, some_pinned), ground (arith, started, some_pinned))

  -- A transaction does not begin in another one.
  pub begin-refused :
      (e : TransactionEngine malloc_block) (v : ℕ → Bytes)
      → Active malloc_block disk ts e v
      → e.pinned_blocks ≡ 0
      → begin malloc_block e ≡ err bad_operation
  unfolding begin
  begin-refused e v a unpinned = ground (arith, a.holds.shows.started, unpinned)

  pub begin-pinned :
      (e : TransactionEngine malloc_block)
      → 0 < e.pinned_blocks
      → begin malloc_block e ≡ err assertion
  unfolding begin
  begin-pinned e some_pinned = ground (arith, some_pinned)

  pub pin-refused :
      (e : TransactionEngine malloc_block) (v : ℕ → Bytes) (i : ℕ)
      → Active malloc_block disk ts e v
      → i < e.size
      → pinned_of (find i e.base.blocks) ≡ true
      → pin malloc_block i true e ≡ err bad_argument
  unfolding pin
  pin-refused e v i a inside busy = ground (
    arith,
    a.holds.shows.started,
    inside,
    pin_twice (device disk ts) malloc_block e.base i true busy,
  )

  pub grow-refused :
      (e : TransactionEngine malloc_block) (v : ℕ → Bytes) (n : ℕ)
      → Active malloc_block disk ts e v
      → 2 ^ 64 ≤ e.size + n
      → grow malloc_block n e ≡ err overflow_error
  unfolding grow checked_add_u64
  grow-refused e v n a high = ground (arith, a.holds.shows.started, high)

module _ (malloc_block : Bytes) where
  -- A call through a handle of a block that is not pinned fails an assertion.
  engine_write_block_refused :
      (b : Engine io malloc_block) (i : ℕ) (bytes : Bytes)
      → pinned_of (find i b.blocks) ≡ false
      → Engine.write_block io malloc_block i bytes b ≡ err assertion
  unfolding Engine.write_block package.extpp.Engine.dirty Engine.block_at
  engine_write_block_refused b i bytes free = elim (Option-cases (find i b.blocks)) [
    | inl absent ↦ ground (arith, absent)
    | inr (c, found) ↦ let idle : c.pinned ≡ false = rw found at free in ground (arith, found, idle)
  ]

  engine_unpin_refused :
      (b : Engine io malloc_block) (i : ℕ)
      → pinned_of (find i b.blocks) ≡ false
      → Engine.unpin io malloc_block i b ≡ err assertion
  unfolding Engine.unpin Engine.block_at
  engine_unpin_refused b i free = elim (Option-cases (find i b.blocks)) [
    | inl absent ↦ ground (arith, absent)
    | inr (c, found) ↦ let idle : c.pinned ≡ false = rw found at free in ground (arith, found, idle)
  ]

  pub write_block-refused :
      (e : TransactionEngine malloc_block) (i : ℕ) (bytes : Bytes)
      → pinned_of (find i e.base.blocks) ≡ false
      → write_block malloc_block i bytes e ≡ err assertion
  unfolding write_block
  write_block-refused e i bytes free =
      ground (arith, engine_write_block_refused e.base i bytes free)

  pub unpin-refused :
      (e : TransactionEngine malloc_block) (i : ℕ)
      → pinned_of (find i e.base.blocks) ≡ false
      → unpin malloc_block i e ≡ err assertion
  unfolding unpin
  unpin-refused e i free = ground (arith, engine_unpin_refused e.base i free)
