-- ===== src/Journal.antt =====
-- The journal of the transaction engine (src/engine/journal.hpp, src/engine/journal.ipp): a redo
-- log that maps blocks to places in the log file. Here are the state and the operations of an
-- open journal; the constructor's scan of an old log is in Journal/Restore.antt.
pub mod Positions
pub mod Tail
pub mod Records
pub mod Restore
pub mod History
pub mod Index
pub mod State
pub mod Transactions
pub mod Ending
pub mod Reading
pub mod Entries
pub mod Checkpoint
mod Tests
use extpp.Prelude.{
  ℕ, ◌+◌, ◌-◌, ◌*◌, ◌%◌, ◌^◌, ◌≡◌, Bool, true, false, not, ◌&&◌, ◌||◌, Option, none, some, List, [],
  ◌∷◌, Result, ok, err, assert, guard, assertion, overflow_error, ◌>>=◌, ◌>>◌, if◌then◌else◌, ltb,
  leb, ◌==◌, length, map,
}
use extpp.MemoryFile
use extpp.MemoryFile.{MemoryFile}
use Positions.{find, insert_or_assign, erase_from, merge, rank}
use Tail.{append_to_buffer, flush_buffer, read_internal, write_internal, to_u32}
use Records.{record_begin, log_header_size, serialize_header, serialize_commit, serialize_write}

pub record Journal : Type 0 where
  pub tail : Tail.Tail
  pub block_size : ℕ
  pub sync_on_commit : Bool
  pub database_size : Option ℕ
  pub block_positions : Positions.Positions
  pub in_transaction : Bool
  pub transaction_begin : ℕ
  pub uncommitted : Positions.Positions

abbrev pub is_some {ℓ} : {A : Type ℓ} → Option A → Bool
is_some none = false
is_some (some a) = true

abbrev pub is_empty {ℓ} : {A : Type ℓ} → List A → Bool
is_empty [] = true
is_empty (x ∷ xs) = false

unfoldable pub has_committed_changes : Journal → Bool
has_committed_changes j = is_some j.database_size

-- `m_logfd->file_size() + m_buffer_used == m_log_size`
unfoldable pub log_size_invariant : Tail.Tail → Bool
unfolding MemoryFile.file_size
log_size_invariant t = MemoryFile.file_size t.file + t.buffer_used == t.log_size

-- `block_index::valid`
unfoldable pub valid_index : ℕ → Bool
valid_index i = not (i == 2 ^ 64 - 1)

unfoldable pub begin : Journal → Result Journal
begin j = do
  assert (not j.in_transaction)
  assert (is_empty j.uncommitted)
  assert (not j.tail.read_only)
  assert (log_size_invariant j.tail)
  t ← append_to_buffer j.tail (serialize_header record_begin)
  ok (record j { tail = t; in_transaction = true; transaction_begin = j.tail.log_size })

-- What commit does to the index, and a commit record on restoring.
unfoldable pub commit_positions : ℕ → Journal → Journal
commit_positions database_size j = record j {
  block_positions = erase_from database_size (merge j.uncommitted j.block_positions);
  database_size = some database_size;
}

abbrev pub sync_file : Bool → Tail.Tail → Tail.Tail
sync_file true t = record t { file = MemoryFile.sync t.file }
sync_file false t = t

unfoldable pub reset_transaction : Journal → Journal
reset_transaction j = record j { in_transaction = false; transaction_begin = 0; uncommitted = [] }

unfoldable pub commit : ℕ → Journal → Result Journal
commit database_size j = do
  assert j.in_transaction
  assert (not j.tail.read_only)
  t ← append_to_buffer j.tail (serialize_commit database_size)
  t' ← flush_buffer t
  let t'' = sync_file j.sync_on_commit t'
  assert (log_size_invariant t'')
  ok (reset_transaction (commit_positions database_size (record j { tail = t'' })))

-- The last part of the log is cut off, in the file or in the buffer.
unfoldable pub abort_tail : ℕ → Tail.Tail → Result Tail.Tail
abort_tail start t =
    if ltb start t.buffer_offset
    then ok (record t {
      file = MemoryFile.truncate t.file start;
      log_size = start;
      buffer_offset = start;
      buffer_used = 0;
    })
    else (do
      let t' = record t { log_size = start; buffer_used = to_u32 (start - t.buffer_offset) }
      assert (log_size_invariant t')
      ok t')

unfoldable pub abort : Journal → Result Journal
abort j = do
  assert j.in_transaction
  assert (not j.tail.read_only)
  t ← abort_tail j.transaction_begin j.tail
  ok (reset_transaction (record j { tail = t }))

-- A block that is new in the transaction: its record, then its bytes.
unfoldable pub append_block : ℕ → List ℕ → Journal → Result Journal
append_block index block j = do
  t ← append_to_buffer j.tail (serialize_write index)
  t' ← append_to_buffer t block
  ok (record j {
    tail = t';
    uncommitted = insert_or_assign index (t'.log_size - j.block_size) j.uncommitted;
  })

-- `block` holds the `m_database_block_size` bytes at `data`.
unfoldable pub write : ℕ → List ℕ → Journal → Result Journal
write index block j = do
  assert (not j.tail.read_only)
  assert j.in_transaction
  assert (valid_index index)
  elim (find index j.uncommitted) [
    | some pos ↦ (do t ← write_internal j.tail pos block; ok (record j { tail = t }))
    | none ↦ append_block index block j
  ]

unfoldable pub read_at : Journal → Option ℕ → Result (Option (List ℕ))
read_at j none = ok none
read_at j (some pos) = do block ← read_internal j.tail pos j.block_size; ok (some block)

-- `none` stands for the answer false: the block is not in the journal.
unfoldable pub read : ℕ → Journal → Result (Option (List ℕ))
read index j = do
  assert (valid_index index)
  let pending : Option ℕ = if j.in_transaction then find index j.uncommitted else none
  elim pending [ some pos ↦ read_at j (some pos) | none ↦ read_at j (find index j.block_positions) ]

-- The indices that the callback of iterate_uncommitted is given, in order.
unfoldable pub iterate_uncommitted : Journal → Result (List ℕ)
iterate_uncommitted j = do assert j.in_transaction; ok (map (λ entry. entry.0) j.uncommitted)

unfoldable pub checked_mul_u64 : ℕ → ℕ → Result ℕ
checked_mul_u64 a b = if ltb (a * b) (2 ^ 64) then ok (a * b) else err overflow_error

-- The loop of `checkpoint` over the committed blocks.
unfoldable pub copy_blocks : Journal → ℕ → Positions.Positions → MemoryFile → Result MemoryFile
unfolding rank
copy_blocks j blocks [] db = ok db
copy_blocks j blocks ((index, offset_in_log) ∷ rest) db = do
  assert (valid_index index)
  assert (ltb (rank index) (rank blocks))
  offset_in_db ← checked_mul_u64 index j.block_size
  block ← read_internal j.tail offset_in_log j.block_size
  db' ← MemoryFile.write db offset_in_db block
  copy_blocks j blocks rest db'

unfoldable pub empty_log : Journal → Journal
empty_log j = record j {
  tail = record j.tail {
    file = MemoryFile.sync (MemoryFile.truncate j.tail.file log_header_size);
    log_size = log_header_size;
    buffer_offset = log_header_size;
    buffer_used = 0;
  };
  block_positions = [];
  database_size = none;
}

unfoldable pub checkpoint_blocks : Journal → ℕ → MemoryFile → Result (Journal × MemoryFile × Bool)
unfolding checked_mul_u64
checkpoint_blocks j blocks db = do
  let synced = record j { tail = record j.tail { file = MemoryFile.sync j.tail.file } }
  bytes ← checked_mul_u64 blocks j.block_size
  let resize : Bool = not (MemoryFile.file_size db == bytes)
  let db' = if resize then MemoryFile.truncate db bytes else db
  db'' ← copy_blocks synced blocks j.block_positions db'
  let changed : Bool = resize || not (is_empty j.block_positions)
  ok (empty_log synced, MemoryFile.sync db'', changed)

-- The journal, the database file and whether that was changed.
unfoldable pub checkpoint : Journal → MemoryFile → Result (Journal × MemoryFile × Bool)
unfolding checkpoint_blocks
checkpoint j db = do
  assert (not j.in_transaction)
  elim j.database_size [ none ↦ ok (j, db, false) | some blocks ↦ checkpoint_blocks j blocks db ]
