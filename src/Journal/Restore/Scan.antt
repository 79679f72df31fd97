-- ===== src/Journal/Restore/Scan.antt =====
-- One record at a time: what the loop in restore_transaction (src/engine/journal.ipp) does at a
-- log that holds encoded transactions.
use extpp.Prelude.{
  ℕ, ◌+◌, ◌-◌, ◌^◌, ◌<◌, ◌≡◌, refl, sym, ap, ◌∙◌, true, List, [], ◌∷◌, ◌++◌, none, some, ok, length,
  slice, arith, length-append, append_assoc, slice-middle,
}
use extpp.MemoryFile
use extpp.Serialization.{serialize_u64, deserialize_u64-serialize_u64}
use extpp.Journal.{Journal, commit_positions}
use extpp.Journal.Positions.{Positions, insert_or_assign}
use extpp.Journal.Records.{
  record_commit, record_write, commit_size, write_size, serialize_write, serialize_commit,
  record_type, record_value, length-serialize_write, length-serialize_commit,
}
use extpp.Journal.History.{encode_write, length-encode_write}
use extpp.Journal.Restore.{continue, finish, scan_record, scan_round}

-- The journal while a transaction is scanned that began at `start`.
abbrev pub inside : Journal → ℕ → Positions → Journal
inside j start m = record j { in_transaction = true; transaction_begin = start; uncommitted = m }

pub read-piece :
    (f : MemoryFile.MemoryFile) (offset n : ℕ) (before piece rest : List ℕ)
    → f.bytes ≡ before ++ (piece ++ rest)
    → offset ≡ length before
    → n ≡ length piece
    → 0 < n
    → MemoryFile.read f offset n ≡ ok piece
read-piece f offset n before piece rest e at size pos =
    MemoryFile.read-slice f offset n pos
      (omega (arith, ap length e, length-append before (piece ++ rest), length-append piece rest))
    ∙ ap (λ xs. ok (slice xs offset n)) e
    ∙ ap ok (slice-middle offset n before piece rest at size)

record_value-write : (i : ℕ) → i < 2 ^ 64 → record_value (serialize_write i) ≡ i
unfolding record_value serialize_write
record_value-write i h = deserialize_u64-serialize_u64 i h

record_value-commit : (n : ℕ) → n < 2 ^ 64 → record_value (serialize_commit n) ≡ n
unfolding record_value serialize_commit
record_value-commit n h = deserialize_u64-serialize_u64 n h

module _ (j : Journal) (start : ℕ) where
  file_length :
      (before rest : List ℕ)
      → j.tail.file.bytes ≡ before ++ rest
      → length j.tail.file.bytes - length before ≡ length rest
  file_length before rest e = omega (arith, ap length e, length-append before rest)

  -- A write record is passed over, and its block noted.
  pub scan_write :
      (before rest : List ℕ) (i : ℕ) (block : List ℕ) (m : Positions)
      → j.tail.file.bytes ≡ before ++ (encode_write (i, block) ++ rest)
      → length block ≡ j.block_size
      → i + 1 < 2 ^ 64
      → scan_round (length before) (length j.tail.file.bytes) (inside j start m)
        ≡ ok (
            continue
              (inside j start (insert_or_assign i (length before + write_size) m))
              (length before + write_size + j.block_size))
  unfolding scan_round scan_record record_type
  scan_write before rest i block m e sized h =
      let available = file_length before (encode_write (i, block) ++ rest) e in
      let size = length-append (encode_write (i, block)) rest in
      let head =
        read-piece j.tail.file (length before) 1 before (record_write ∷ [])
          (serialize_u64 i ++ (block ++ rest))
          (e
            ∙ ap (◌++◌ before) (
                unfold encode_write serialize_write in append_assoc (serialize_write i) block rest))
          refl refl (omega arith) in
      let body =
        read-piece j.tail.file (length before) 9 before (serialize_write i) (block ++ rest)
          (e
            ∙ ap (◌++◌ before) (unfold encode_write in append_assoc (serialize_write i) block rest))
          refl (sym (length-serialize_write i)) (omega arith) in
      let type : record_type (serialize_write i) ≡ record_write = unfold serialize_write in refl in
      let value = record_value-write i (omega arith) in
      ground (arith, head, body, type, value, length-encode_write i block)

  -- A commit record ends the transaction.
  pub scan_commit :
      (before rest : List ℕ) (n : ℕ) (m : Positions)
      → j.tail.file.bytes ≡ before ++ (serialize_commit n ++ rest)
      → n < 2 ^ 64
      → scan_round (length before) (length j.tail.file.bytes) (inside j start m)
        ≡ ok (finish (commit_positions n (inside j start m)) (some (length before + commit_size)))
  unfolding scan_round scan_record record_type
  scan_commit before rest n m e h =
      let available = file_length before (serialize_commit n ++ rest) e in
      let size = length-append (serialize_commit n) rest in
      let head =
        read-piece j.tail.file (length before) 1 before (record_commit ∷ [])
          (serialize_u64 n ++ rest) (e ∙ (unfold serialize_commit in refl)) refl refl
          (omega arith) in
      let body =
        read-piece j.tail.file (length before) 9 before (serialize_commit n) rest e refl
          (sym (length-serialize_commit n)) (omega arith) in
      let type : record_type (serialize_commit n) ≡ record_commit =
        unfold serialize_commit in refl in
      let value = record_value-commit n h in
      ground (arith, head, body, type, value, length-serialize_commit n)

  -- Where the log ends within a record the scan stops.
  pub scan_cut_write :
      (before rest : List ℕ) (m : Positions)
      → j.tail.file.bytes ≡ before ++ (record_write ∷ rest)
      → length rest + 1 < write_size + j.block_size
      → scan_round (length before) (length j.tail.file.bytes) (inside j start m)
        ≡ ok (finish (inside j start m) none)
  unfolding scan_round scan_record record_type
  scan_cut_write before rest m e short =
      let available = file_length before (record_write ∷ rest) e in
      let head =
        read-piece j.tail.file (length before) 1 before (record_write ∷ []) rest e refl refl
          (omega arith) in
      ground (arith, head)

  pub scan_cut_commit :
      (before rest : List ℕ) (m : Positions)
      → j.tail.file.bytes ≡ before ++ (record_commit ∷ rest)
      → length rest + 1 < commit_size
      → scan_round (length before) (length j.tail.file.bytes) (inside j start m)
        ≡ ok (finish (inside j start m) none)
  unfolding scan_round scan_record record_type
  scan_cut_commit before rest m e short =
      let available = file_length before (record_commit ∷ rest) e in
      let head =
        read-piece j.tail.file (length before) 1 before (record_commit ∷ []) rest e refl refl
          (omega arith) in
      ground (arith, head)

  pub scan_cut_end :
      (before : List ℕ) (m : Positions)
      → j.tail.file.bytes ≡ before
      → scan_round (length before) (length j.tail.file.bytes) (inside j start m)
        ≡ ok (finish (inside j start m) none)
  unfolding scan_round
  scan_cut_end before m e = let size = ap length e in ground arith
