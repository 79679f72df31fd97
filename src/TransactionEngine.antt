-- ===== src/TransactionEngine.antt =====
-- The transaction engine (src/engine/transaction_engine.hpp, src/engine/transaction_engine.ipp): a
-- block engine that never changes the database file within a transaction. What it reads and writes
-- through the block engine goes to the journal first.
pub mod Device
pub mod State
pub mod Changed
pub mod Within
pub mod Commit
pub mod Written
pub mod Rollback
pub mod Checkpoint
pub mod Open
pub mod Session
pub mod Refusals
pub mod Outside
pub mod Inside
pub mod Answers
pub mod Refinement
mod Tests
use extpp.Prelude.{
  ℕ, zero, suc, ◌+◌, ◌-◌, ◌*◌, ◌/◌, ◌%◌, ◌^◌, ◌≡◌, Bool, true, false, not, ◌&&◌, ◌||◌, List, [],
  ◌∷◌, Option, none, some, Result, ok, err, bad_argument, bad_operation, corruption_error,
  overflow_error, guard, assert, ◌>>=◌, ◌>>◌, if◌then◌else◌, ltb, ◌==◌, replicate,
}
use extpp.Math.{log2, is_pow2, checked_add_u64}
use extpp.MemoryFile
use extpp.MemoryFile.{MemoryFile}
use extpp.Journal
use extpp.Journal.{Journal, has_committed_changes, iterate_uncommitted, valid_index}
use extpp.Journal.Restore.{journal}
use extpp.Engine
use extpp.Engine.{Bytes, Io, Engine, flush_all, discard_dirty, discard, open_engine}

-- What do_read and do_write work on; `db_blocks` is m_dbfile_size, and `started` says that a
-- transaction runs.
pub record Store : Type 0 where
  pub db : MemoryFile
  pub log : Journal
  pub started : Bool
  pub db_blocks : ℕ
  pub block_size : ℕ
  pub block_size_log : ℕ

unfoldable pub read_database : Store → ℕ → Result Bytes
read_database d index =
    if ltb index d.db_blocks
    then MemoryFile.read d.db (index * 2 ^ d.block_size_log % 2 ^ 64) d.block_size
    else ok (replicate d.block_size 0)

unfoldable pub do_read : Store → ℕ → Result Bytes
unfolding read_database
do_read d index = do
  assert d.started
  found ← Journal.read index d.log
  elim found [ some bytes ↦ ok bytes | none ↦ read_database d index ]

unfoldable pub do_write : Store → ℕ → Bytes → Result Store
do_write d index bytes = do
  assert d.started
  begun ← if not d.log.in_transaction then Journal.begin d.log else ok d.log
  written ← Journal.write index bytes begun
  ok (record d { log = written })

abbrev pub io : Io
io = record { State = Store; do_read = do_read; do_write = do_write }

abbrev pub value_or : Option ℕ → ℕ → ℕ
value_or none n = n
value_or (some m) n = m

abbrev pub is_size : Option ℕ → ℕ → Bool
is_size none n = false
is_size (some m) n = m == n

module _ (malloc_block : Bytes) where
  pub record TransactionEngine : Type 0 where
    pub base : Engine io malloc_block
    pub pinned_blocks : ℕ
    pub size : ℕ

  abbrev pub store : TransactionEngine → Store
  store e = e.base.state

  abbrev pub with_store : Store → Engine io malloc_block → Engine io malloc_block
  with_store d b = record b { state = d }

  unfoldable pub begin : TransactionEngine → Result TransactionEngine
  begin e = do
    assert (e.pinned_blocks == 0)
    guard (not e.base.state.started) bad_operation
    ok (record e { base = with_store (record e.base.state { started = true }) e.base })

  -- The journal's transaction, where a block has been written to it.
  unfoldable pub commit_journal : ℕ → Journal → Result Journal
  commit_journal size j = if j.in_transaction then Journal.commit size j else ok j

  unfoldable pub commit : TransactionEngine → Result TransactionEngine
  commit e = do
    guard e.base.state.started bad_operation
    guard (e.pinned_blocks == 0) bad_operation
    b ← flush_all io malloc_block e.base
    j ← commit_journal e.size b.state.log
    ok (record e { base = with_store (record b.state { log = j; started = false }) b })

  -- The callback of iterate_uncommitted.
  unfoldable pub discard_written : List ℕ → Engine io malloc_block → Result (Engine io malloc_block)
  discard_written [] b = ok b
  discard_written (index ∷ rest) b = do
    assert (valid_index index)
    b' ← discard io malloc_block index b
    discard_written rest b'

  unfoldable pub abort_journal : Engine io malloc_block → Result (Engine io malloc_block)
  unfolding discard_written
  abort_journal b =
      if b.state.log.in_transaction
      then (do
        indices ← iterate_uncommitted b.state.log
        b' ← discard_written indices b
        j ← Journal.abort b'.state.log
        ok (with_store (record b'.state { log = j }) b'))
      else ok b

  unfoldable pub rollback : TransactionEngine → Result TransactionEngine
  rollback e = do
    guard e.base.state.started bad_operation
    guard (e.pinned_blocks == 0) bad_operation
    b ← discard_dirty io malloc_block e.base
    b' ← abort_journal b
    ok (record e {
      base = with_store (record b'.state { started = false }) b';
      size = value_or b'.state.log.database_size b'.state.db_blocks;
    })

  -- The journal's blocks go to the database file, which then has all blocks.
  unfoldable pub checkpoint_store : ℕ → Store → Result Store
  checkpoint_store size d = do
    assert (not d.log.in_transaction)
    assert (is_size d.log.database_size size)
    (j, db, changed) ← Journal.checkpoint d.log d.db
    ok (record d { log = j; db = db; db_blocks = size })

  unfoldable pub copy_changes : TransactionEngine → Result TransactionEngine
  unfolding checkpoint_store
  copy_changes e = do
    d ← checkpoint_store e.size e.base.state
    ok (record e { base = with_store d e.base })

  unfoldable pub checkpoint : TransactionEngine → Result TransactionEngine
  unfolding copy_changes
  checkpoint e = do
    guard (not e.base.state.started) bad_operation
    guard (not e.base.state.db.read_only) bad_operation
    guard (not e.base.state.log.tail.file.read_only) bad_operation
    if has_committed_changes e.base.state.log then copy_changes e else ok e

  unfoldable pub pin : ℕ → Bool → TransactionEngine → Result TransactionEngine
  pin index initialize e = do
    guard e.base.state.started bad_operation
    guard (ltb index e.size) bad_argument
    b ← Engine.pin io malloc_block index initialize e.base
    ok (record e { base = b; pinned_blocks = e.pinned_blocks + 1 })

  unfoldable pub unpin : ℕ → TransactionEngine → Result TransactionEngine
  unpin index e = do
    assert (ltb 0 e.pinned_blocks)
    b ← Engine.unpin io malloc_block index e.base
    ok (record e { base = b; pinned_blocks = e.pinned_blocks - 1 })

  -- A write through the handle of a pinned block.
  unfoldable pub write_block : ℕ → Bytes → TransactionEngine → Result TransactionEngine
  write_block index bytes e = do
    b ← Engine.write_block io malloc_block index bytes e.base
    ok (record e { base = b })

  unfoldable pub grow : ℕ → TransactionEngine → Result TransactionEngine
  unfolding checked_add_u64
  grow n e = do
    guard e.base.state.started bad_operation
    size ← checked_add_u64 e.size n
    ok (record e { size = size })

  abbrev default_journal_buffer_bytes : ℕ
  default_journal_buffer_bytes = 4 * 1024 * 1024

  -- The constructor.
  unfoldable pub open_transaction_engine :
      MemoryFile → MemoryFile → ℕ → ℕ → Result TransactionEngine
  open_transaction_engine db journal_file block_size cache_blocks = do
    assert (is_pow2 block_size)
    j ← journal journal_file block_size default_journal_buffer_bytes
    let size_bytes = MemoryFile.file_size db
    let db_blocks = size_bytes / block_size
    b ← open_engine io malloc_block block_size cache_blocks journal_file.read_only (record {
      db = db;
      log = j;
      started = false;
      db_blocks = db_blocks;
      block_size = block_size;
      block_size_log = log2 block_size;
    })
    guard ((size_bytes % block_size == 0) || has_committed_changes j) corruption_error
    ok (record { base = b; pinned_blocks = 0; size = value_or j.database_size db_blocks })
