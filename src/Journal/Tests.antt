-- ===== src/Journal/Tests.antt =====
-- The theorems on the journal at concrete inputs: blocks of two bytes, a buffer of three.
use extpp.Prelude.{
  subst, sym, Bool, ◌*◌, false, ◌<◌, ℕ, ◌≤◌, ◌≡◌, refl, ap, length-append, false, List, [], ◌∷◌,
  ◌++◌, none, some, ok, err, corruption_error, length, take, slice, arith,
}
use extpp.MemoryFile
use extpp.MemoryFile.{MemoryFile}
use extpp.Journal.{checkpoint, Journal, write, commit, abort, read}
use extpp.Journal.Records.{record_begin, serialize_log_header}
use extpp.Journal.Tail
use extpp.Journal.Tail.{log, append_to_buffer, read_internal, write_internal}
use extpp.Journal.Tail.Append.{Appended, append_to_buffer-Appended}
use extpp.Journal.Tail.Access.{
  Overwritten, length-log, read_internal-slice, write_internal-Overwritten,
}
use extpp.Journal.History.{
  replay, apply, Write, Transaction, HistoryFits, encode_log, encode_write, encode_writes,
  length-encode_write, encode_journal, lookup, put,
}
use extpp.Journal.State.{Idle, Running, length-encode_journal}
use extpp.Journal.Transactions.{begin-Running, write-Running}
use extpp.Journal.Ending.{commit-Idle, abort-Idle}
use extpp.Journal.Reading.{current, read-current, read-pending}
use extpp.Journal.Checkpoint.{block_at}
use extpp.Journal.Checkpoint.Emptied.{checkpoint-current}
use extpp.Journal.Restore.{journal}
use extpp.Journal.Restore.Recovery.{complete}
use extpp.Journal.Restore.Opening.{journal-complete, journal-empty, journal-other_block_size}

abbrev empty_file : MemoryFile
empty_file = record { bytes = []; read_only = false }

abbrev block_a : List ℕ
block_a = 7 ∷ 8 ∷ []

abbrev block_b : List ℕ
block_b = 5 ∷ 6 ∷ []

abbrev Opened : List Transaction → Type 0
Opened ts = (j : Journal) × Idle 2 ts j

abbrev Started : List Transaction → List Write → Type 0
Started ts ws = (j : Journal) × Running 2 ts ws j

abbrev opened : Opened []
opened =
    let r = journal-empty empty_file 2 3 refl (omega arith) (omega arith) (omega arith) refl in
    (r.0, r.2)

abbrev started : Started [] []
started = let r = begin-Running opened.0 opened.1 in (r.0, r.2)

abbrev written : Started [] (put 1 block_a [])
written = let r = write-Running started.0 1 block_a started.1 refl (omega arith) in (r.0, r.2)

abbrev one : Transaction
one = record { writes = put 1 block_a []; size = 2 }

abbrev committed : Opened (one ∷ [])
committed = let r = commit-Idle written.0 2 written.1 (omega arith) in (r.0, r.2)

write-Running_example :
    (j : Journal) × (write 1 block_b written.0 ≡ ok j)
    × Running 2 [] (put 1 block_b (put 1 block_a [])) j
write-Running_example = write-Running written.0 1 block_b written.1 refl (omega arith)

commit-Idle_example :
    (j : Journal) × (commit 2 written.0 ≡ ok j)
    × Idle 2 (one ∷ []) j
    × (j.tail.file.bytes ≡ encode_journal 2 (one ∷ []))
commit-Idle_example = commit-Idle written.0 2 written.1 (omega arith)

abort-Idle_example :
    (j : Journal) × (abort written.0 ≡ ok j)
    × Idle 2 [] j
    × (j.block_positions ≡ written.0.block_positions)
    × (j.database_size ≡ written.0.database_size)
abort-Idle_example = abort-Idle written.0 written.1

read-current_example : read 1 committed.0 ≡ ok (current (one ∷ []) 1)
read-current_example = read-current 2 (one ∷ []) committed.0 1 committed.1 (omega arith)

read-pending_example :
    read 1 written.0
    ≡ ok (elim (lookup 1 (put 1 block_a [])) [ some block ↦ some block | none ↦ current [] 1 ])
read-pending_example = read-pending 2 [] (put 1 block_a []) written.0 1 written.1 (omega arith)

written_size : 40 ≤ written.0.tail.log_size
unfolding put encode_writes
written_size = omega (
  arith,
  length-log written.0.tail written.1.holds.valid,
  ap length written.1.stored,
  length-append (encode_journal 2 []) (record_begin ∷ (encode_write (1, block_a) ++ [])),
  length-encode_journal 2 [],
  length-append (encode_write (1, block_a)) [],
  length-encode_write 1 block_a,
)

abbrev torn_file : MemoryFile
torn_file = record {
  bytes = serialize_log_header 2 ++ take 23 (encode_log (one ∷ one ∷ []));
  read_only = false;
}

two-HistoryFits : HistoryFits 2 (one ∷ one ∷ [])
unfolding put lookup
two-HistoryFits = (
  record { writes = (refl, omega arith, refl, tt); size = omega arith },
  (record { writes = (refl, omega arith, refl, tt); size = omega arith }, tt),
)

journal-complete_example :
    (j : Journal) × (journal torn_file 2 3 ≡ ok j)
    × Idle 2 (complete 23 (one ∷ one ∷ [])) j
    × (j.tail.file.bytes ≡ encode_journal 2 (complete 23 (one ∷ one ∷ [])))
journal-complete_example =
    journal-complete torn_file 2 3 refl (omega arith) (omega arith) (omega arith) 23
      (one ∷ one ∷ []) refl two-HistoryFits

journal-empty_example :
    (j : Journal) × (journal empty_file 2 3 ≡ ok j)
    × Idle 2 [] j
    × (j.tail.file.bytes ≡ encode_journal 2 [])
journal-empty_example =
    journal-empty empty_file 2 3 refl (omega arith) (omega arith) (omega arith) refl

journal-other_block_size_example : journal torn_file 4 3 ≡ err corruption_error
journal-other_block_size_example =
    journal-other_block_size torn_file 4 3 2 _ refl (omega arith) (omega arith) (omega arith)

append_to_buffer-Appended_example :
    (t : Tail.Tail) × (append_to_buffer opened.0.tail block_a ≡ ok t)
    × Appended opened.0.tail block_a t
append_to_buffer-Appended_example =
    append_to_buffer-Appended opened.0.tail block_a opened.1.holds.valid

read_internal-slice_example :
    read_internal written.0.tail 35 4 ≡ ok (slice (log written.0.tail) 35 4)
read_internal-slice_example =
    read_internal-slice written.0.tail 35 4 written.1.holds.valid (omega arith)
      (omega (arith, written_size))

write_internal-Overwritten_example :
    (t : Tail.Tail) × (write_internal written.0.tail 35 block_b ≡ ok t)
    × Overwritten written.0.tail 35 block_b t
write_internal-Overwritten_example =
    write_internal-Overwritten written.0.tail 35 block_b written.1.holds.valid (omega arith)
      (omega (arith, written_size))

committed_size : committed.0.database_size ≡ some 2
unfolding replay apply
committed_size = committed.1.holds.size

abbrev database : MemoryFile
database = record { bytes = 1 ∷ 2 ∷ []; read_only = false }

checkpoint-current_example :
    (j : Journal) × (db : MemoryFile) × (changed : Bool) × (checkpoint committed.0 database
      ≡ ok (j, db, changed))
    × Idle committed.0.block_size [] j
    × (length db.bytes ≡ 2 * committed.0.block_size)
    × ((i : ℕ)
        → i < 2
        → block_at committed.0.block_size db i ≡ elim (current (one ∷ []) i) [
          | some block ↦ block
          | none ↦
              block_at committed.0.block_size
                (MemoryFile.truncate database (2 * committed.0.block_size))
                i
        ])
    × (changed ≡ false → db.bytes ≡ database.bytes)
checkpoint-current_example =
    checkpoint-current (one ∷ []) committed.0 2 database
      (subst (λ b. Idle b (one ∷ []) committed.0) (sym committed.1.holds.block_size_set)
        committed.1)
      committed_size (omega (arith, committed.1.holds.block_size_set))
      (omega (arith, committed.1.holds.block_size_set)) refl
