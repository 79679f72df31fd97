-- ===== src/TransactionEngine/Session.antt =====
-- The calls of src/engine/transaction_engine.ipp in any order, against an abstract database: its
-- committed blocks and its sizes and, within a transaction, what its users see and have pinned.
use extpp.Prelude.{
  ℕ, ◌+◌, ◌-◌, ◌*◌, ◌^◌, ◌≤◌, ◌<◌, ◌≡◌, ◌≢◌, ◌⊎◌, Bool, true, false, if◌then◌else◌, ltb, ◌==◌, List,
  [], ◌∷◌, Option, none, some, Result, ok, err, Error, assertion, bad_argument, bad_operation,
  overflow_error, length,
}
use extpp.Journal.History.{Transaction}
use extpp.Engine.{Bytes}
use extpp.Engine.Blocks.{contains, remove}
use extpp.Engine.Valid.{update}
use extpp.TransactionEngine.{
  TransactionEngine, begin, commit, rollback, checkpoint, pin, unpin, write_block, grow,
}
use extpp.TransactionEngine.Device.{Disk, base, Agree}
use extpp.TransactionEngine.State.{Active, Quiet}
use extpp.TransactionEngine.Changed.{changed}
use extpp.TransactionEngine.Written.{last_size}

-- A call; `wrote` is one through the handle of a pinned block.
pub data Command : Type 0 where
  begun : Command
  committed : Command
  rolled_back : Command
  checkpointed : Command
  pinned : ℕ → Command
  unpinned : ℕ → Command
  wrote : ℕ → Bytes → Command
  grew : ℕ → Command

-- Between two transactions: the blocks, the size that was recorded last, and the size. These two
-- differ after a transaction that has only made the database larger. Within a transaction, behind
-- the blocks and the recorded size that a rollback goes back to: the blocks that its users see, the
-- size, whether a block has been changed, and the blocks that are pinned.
pub data Database : Type 0 where
  outside : (ℕ → Bytes) → ℕ → ℕ → Database
  inside : (ℕ → Bytes) → ℕ → (ℕ → Bytes) → ℕ → Bool → List ℕ → Database

unfoldable pub next : Command → Database → Database
next begun (outside c r m) = inside c r c m false []
next committed (inside c r v m w ps) = outside v (if w then m else r) m
next rolled_back (inside c r v m w ps) = outside c r r
next (pinned i) (inside c r v m w ps) = inside c r v m w (i ∷ ps)
next (unpinned i) (inside c r v m w ps) = inside c r v m w (remove i ps)
next (wrote i bytes) (inside c r v m w ps) = inside c r (update v i bytes) m true ps
next (grew n) (inside c r v m w ps) = inside c r v (m + n) w ps
next command d = d

-- The exception that a call ends with, if any.
unfoldable pub refusal : Command → Database → Option Error
refusal begun (outside c r m) = none
refusal committed (outside c r m) = some bad_operation
refusal rolled_back (outside c r m) = some bad_operation
refusal checkpointed (outside c r m) = none
refusal (pinned i) (outside c r m) = some bad_operation
refusal (unpinned i) (outside c r m) = some assertion
refusal (wrote i bytes) (outside c r m) = some assertion
refusal (grew n) (outside c r m) = some bad_operation
refusal begun (inside c r v m w ps) = if length ps == 0 then some bad_operation else some assertion
refusal committed (inside c r v m w ps) = if length ps == 0 then none else some bad_operation
refusal rolled_back (inside c r v m w ps) = if length ps == 0 then none else some bad_operation
refusal checkpointed (inside c r v m w ps) = some bad_operation
refusal (pinned i) (inside c r v m w ps) =
    if ltb i m then (if contains i ps then some bad_argument else none) else some bad_argument
refusal (unpinned i) (inside c r v m w ps) = if contains i ps then none else some assertion
refusal (wrote i bytes) (inside c r v m w ps) = if contains i ps then none else some assertion
refusal (grew n) (inside c r v m w ps) = if ltb (m + n) (2 ^ 64) then none else some overflow_error

module _ (malloc_block : Bytes) where
  unfoldable pub execute :
      Command → TransactionEngine malloc_block → Result (TransactionEngine malloc_block)
  execute begun e = begin malloc_block e
  execute committed e = commit malloc_block e
  execute rolled_back e = rollback malloc_block e
  execute checkpointed e = checkpoint malloc_block e
  execute (pinned i) e = pin malloc_block i true e
  execute (unpinned i) e = unpin malloc_block i e
  execute (wrote i bytes) e = write_block malloc_block i bytes e
  execute (grew n) e = grow malloc_block n e

  -- What callers see to: a block that is written has the block size, and the size does not become
  -- 2 ^ 64 - 1, which is no block's index. At a checkpoint the database file can be written and has
  -- whole blocks, no more than the database, the database fits 64 bits, and the journal has recorded
  -- the database's size or none.
  abbrev pub Allowed : Command → TransactionEngine malloc_block → Type 0
  Allowed begun e = Unit {0}
  Allowed committed e = Unit {0}
  Allowed rolled_back e = Unit {0}
  Allowed checkpointed e =
      (e.base.state.db.read_only ≡ false)
      × (length e.base.state.db.bytes ≡ e.base.state.db_blocks * e.base.state.block_size)
      × (e.base.state.db_blocks ≤ e.size)
      × (e.size * e.base.state.block_size + 1 < 2 ^ 64)
      × ((e.base.state.log.database_size ≡ none) ⊎ (e.base.state.log.database_size ≡ some e.size))
  Allowed (pinned i) e = Unit {0}
  Allowed (unpinned i) e = Unit {0}
  Allowed (wrote i bytes) e = length bytes ≡ e.base.state.block_size
  Allowed (grew n) e = e.size + n ≢ 2 ^ 64 - 1

  -- The engine stands for the abstract database.
  abbrev pub Represents : TransactionEngine malloc_block → Database → Type 0
  Represents e (outside c r m) =
      (disk : Disk) × (ts : List Transaction) × Quiet malloc_block disk ts e
      × Agree (base disk ts) c
      × (last_size ts disk.db_blocks ≡ r)
      × (e.size ≡ m)
  Represents e (inside c r v m w ps) =
      (disk : Disk) × (ts : List Transaction) × (a : Active malloc_block disk ts e v) × Agree
        (base disk ts) c
      × (last_size ts disk.db_blocks ≡ r)
      × (e.size ≡ m)
      × (changed malloc_block e.base ≡ w)
      × (a.pinned ≡ ps)

  -- The result of a call: the exception, or an engine that stands for the database.
  abbrev pub Answers : Result (TransactionEngine malloc_block) → Option Error → Database → Type 0
  Answers r (some thrown) d = r ≡ err thrown
  Answers r none d = (e : TransactionEngine malloc_block) × (r ≡ ok e) × Represents e d
