-- ===== src/Journal/Restore.antt =====
-- Opening a journal (the constructor, restore and restore_transaction of src/engine/journal.ipp):
-- the log file is scanned from its header on, and every committed transaction is replayed.
pub mod Scan
pub mod Replay
pub mod Recovery
pub mod Opening
use extpp.Prelude.{
  ℕ, zero, suc, ◌+◌, ◌-◌, ◌≡◌, Bool, true, false, not, ◌&&◌, Option, none, some, List, [], ◌∷◌,
  Result, ok, err, assert, guard, out_of_fuel, corruption_error, ◌>>=◌, ◌>>◌, if◌then◌else◌, ltb,
  leb, ◌==◌, length, take, drop, replicate,
}
use extpp.Serialization.{deserialize_u32}
use extpp.MemoryFile
use extpp.MemoryFile.{MemoryFile}
use extpp.Journal.Positions.{insert_or_assign}
use extpp.Journal.Tail.{Tail}
use extpp.Journal.Records.{
  record_begin, record_abort, record_commit, record_write, header_size, commit_size, write_size,
  log_magic, log_version, log_header_size, serialize_log_header, record_type, record_value,
}
use extpp.Journal.{Journal, commit_positions, reset_transaction, is_empty}

-- One round of the loop in restore_transaction: on to an offset, or a return with an offset or
-- with a failure.
pub data Round : Type 0 where
  continue : Journal → ℕ → Round
  finish : Journal → Option ℕ → Round

-- A record within a transaction, by its type; `available` bytes are left from `offset` on.
unfoldable pub scan_record : ℕ → ℕ → ℕ → Journal → Result Round
scan_record type available offset j =
    if type == record_write
    then if ltb available (write_size + j.block_size) then ok (finish j none) else (do
      bytes ← MemoryFile.read j.tail.file offset write_size
      assert (record_type bytes == record_write)
      let block = offset + write_size
      ok (
          continue
            (record j { uncommitted = insert_or_assign (record_value bytes) block j.uncommitted })
            (block + j.block_size)))
    else if type == record_commit
    then if ltb available commit_size then ok (finish j none) else (do
      bytes ← MemoryFile.read j.tail.file offset commit_size
      assert (record_type bytes == record_commit)
      ok (finish (commit_positions (record_value bytes) j) (some (offset + commit_size))))
    else if type == record_abort
    then ok (finish j (some (offset + header_size)))
    else ok (finish j none)

unfoldable pub scan_round : ℕ → ℕ → Journal → Result Round
scan_round offset size j = if ltb (size - offset) header_size then ok (finish j none) else (do
  header ← MemoryFile.read j.tail.file offset header_size
  if not j.in_transaction
      then if not (record_type header == record_begin)
        then ok (finish j none)
        else ok (
            continue (record j { in_transaction = true; transaction_begin = offset })
              (offset + header_size))
      else scan_record (record_type header) (size - offset) offset j)

-- The loop; every round that goes on moves forward by a byte at least.
unfoldable pub scan : ℕ → ℕ → ℕ → Journal → Result (Journal × Option ℕ)
scan zero offset size j = err out_of_fuel
scan (suc fuel) offset size j = elim (scan_round offset size j) [
  | err e ↦ err e
  | ok (continue j' offset') ↦ scan fuel offset' size j'
  | ok (finish j' result) ↦ ok (j', result)
]

-- The deferred reset on return.
unfoldable pub reset_if_running : Journal → Journal
reset_if_running j = if j.in_transaction then reset_transaction j else j

unfoldable pub restore_transaction : ℕ → ℕ → Journal → Result (Journal × Option ℕ)
unfolding reset_if_running
restore_transaction offset size j = do
  assert (not j.in_transaction)
  assert (j.transaction_begin == 0)
  assert (is_empty j.uncommitted)
  (j', result) ← scan (size - offset + 2) offset size j
  ok (reset_if_running j', result)

-- `while (offset < log_size)`: the transactions one by one, up to the first that is incomplete.
unfoldable pub restore_loop : ℕ → ℕ → ℕ → Journal → Result (Journal × ℕ)
restore_loop zero offset size j = err out_of_fuel
restore_loop (suc fuel) offset size j =
    if ltb offset size
    then (do
      (j', result) ← restore_transaction offset size j
      elim result [ none ↦ ok (j', offset) | some next ↦ restore_loop fuel next size j' ])
    else ok (j, offset)

unfoldable pub bytes_eq : List ℕ → List ℕ → Bool
bytes_eq [] [] = true
bytes_eq [] (b ∷ bs) = false
bytes_eq (a ∷ as') [] = false
bytes_eq (a ∷ as') (b ∷ bs) = a == b && bytes_eq as' bs

unfoldable pub check_header : ℕ → List ℕ → Result (Unit {0})
unfolding bytes_eq
check_header block_size header = do
  guard (bytes_eq (take 20 header) log_magic) corruption_error
  guard (deserialize_u32 (take 4 (drop 20 header)) == log_version) corruption_error
  guard (deserialize_u32 (take 4 (drop 24 header)) == block_size) corruption_error

-- An empty file gets its header, unless it is read-only.
unfoldable pub initialize : Journal → Result Journal
initialize j = if j.tail.read_only then ok j else (do
  f ← MemoryFile.write j.tail.file 0 (serialize_log_header j.block_size)
  ok (record j {
    tail = record j.tail {
      file = MemoryFile.sync f;
      log_size = log_header_size;
      buffer_offset = log_header_size;
    };
  }))

-- The end of the scan becomes the end of the log; what lies behind it is cut off.
unfoldable pub position_at : ℕ → Journal → Journal
position_at offset j = record j {
  tail = record j.tail {
    file =
        if j.tail.read_only
        then j.tail.file
        else MemoryFile.sync (MemoryFile.truncate j.tail.file offset);
    log_size = offset;
    buffer_offset = offset;
  };
}

unfoldable pub restore_existing : ℕ → Journal → Result Journal
unfolding position_at
restore_existing size j = do
  guard (not (ltb size log_header_size)) corruption_error
  header ← MemoryFile.read j.tail.file 0 log_header_size
  check_header j.block_size header
  (j', offset) ← restore_loop (size - log_header_size + 1) log_header_size size j
  ok (position_at offset j')

unfoldable pub restore : Journal → Result Journal
unfolding initialize restore_existing check_header MemoryFile.file_size
restore j =
    let size = MemoryFile.file_size j.tail.file in
    if size == 0 then initialize j else restore_existing size j

-- The members before `restore` runs.
unfoldable pub fresh : MemoryFile → ℕ → ℕ → Journal
fresh file block_size buffer_size = record {
  tail = record {
    file = file;
    read_only = file.read_only;
    log_size = 0;
    buffer_offset = 0;
    buffer_used = 0;
    buffer = replicate buffer_size 0;
  };
  block_size = block_size;
  sync_on_commit = true;
  database_size = none;
  block_positions = [];
  in_transaction = false;
  transaction_begin = 0;
  uncommitted = [];
}

-- The constructor.
unfoldable pub journal : MemoryFile → ℕ → ℕ → Result Journal
unfolding fresh restore
journal file block_size buffer_size = do
  assert (ltb 0 buffer_size)
  restore (fresh file block_size buffer_size)
