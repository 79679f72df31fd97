-- ===== src/TransactionEngine/Tests.antt =====
-- A database of two blocks of two bytes, and the theorems on the transaction engine applied to it.
use extpp.Prelude.{
  ℕ, suc, ◌*◌, ◌≤◌, ◌≡◌, ◌∙◌, refl, sym, ap, true, false, List, [], ◌∷◌, ◌++◌, some, ok, err,
  bad_operation, bad_argument, subst, length-append, length, take, arith,
}
use extpp.Math.{is_pow2}
use extpp.MemoryFile.{MemoryFile}
use extpp.Journal.Records.{serialize_log_header}
use extpp.Journal.History.{
  Transaction, HistoryFits, encode_log, encode_journal, replay, apply, encode, lookup,
  length-encode, encode_writes, encode_write, length-encode_write,
}
use extpp.Journal.Restore.Recovery.{complete}
use extpp.Engine.{Bytes}
use extpp.Engine.Blocks.{find, contains}
use extpp.Engine.Valid.{update, pinned_of}
use extpp.Engine.Pin.{held}
use extpp.TransactionEngine.{
  TransactionEngine, open_transaction_engine, commit, rollback, checkpoint, pin, value_or,
}
use extpp.TransactionEngine.Device.{Disk, Agree, base}
use extpp.TransactionEngine.State.{Active, Quiet, NonePinned-empty}
use extpp.TransactionEngine.Within.{begin-Active, pin-Active, unpin-Active, write_block-Active}
use extpp.TransactionEngine.Commit.{commit-Quiet, Recorded}
use extpp.TransactionEngine.Rollback.{rollback-Quiet}
use extpp.TransactionEngine.Checkpoint.{checkpoint-Quiet}
use extpp.TransactionEngine.Changed.{changed}
use extpp.TransactionEngine.Written.{last_size}
use extpp.TransactionEngine.Answers.{execute-Answers}
use extpp.TransactionEngine.Open.{IsDatabase, opened_disk, open-Quiet}
use extpp.TransactionEngine.Session.{
  Command, begun, committed, pinned, wrote, unpinned, Database, outside, inside, next, refusal,
  execute, Represents,
}
use extpp.TransactionEngine.Refinement.{
  Run, called, finished, all, writes, wrote_any, size_after, Run-all, Run-atomic, ending,
}

abbrev zeros : Bytes
zeros = 0 ∷ 0 ∷ []

abbrev database : MemoryFile
database = record { bytes = 1 ∷ 2 ∷ 3 ∷ 4 ∷ []; read_only = false }

database-IsDatabase : IsDatabase database 2
unfolding is_pow2
database-IsDatabase = record {
  power = refl;
  narrow = omega arith;
  whole = refl;
  small = omega arith;
}

abbrev disk : Disk
disk = opened_disk database 2 database-IsDatabase

abbrev journal_file : ℕ → List Transaction → MemoryFile
journal_file n ts = record {
  bytes = serialize_log_header 2 ++ take n (encode_log ts);
  read_only = false;
}

abbrev Opened : Type 0
Opened = (e : TransactionEngine zeros) × Quiet zeros disk [] e × (e.size ≡ 2)

opened : Opened
unfolding complete replay
opened =
    let (e, done, q, filed, size) =
      open-Quiet zeros database (journal_file 0 []) 2 4 database-IsDatabase 0 [] refl refl tt
        refl in
    (e, q, size ∙ ap (λ o. value_or o 2) q.journal_idle.holds.size)

-- An engine within a transaction after a call, with a number of blocks and of pinned ones.
abbrev Begun : Command → TransactionEngine zeros → (ℕ → Bytes) → ℕ → ℕ → Type 0
Begun command before v size count =
    (e : TransactionEngine zeros) × (execute zeros command before ≡ ok e)
    × Active zeros disk [] e v
    × (e.size ≡ size)
    × (e.pinned_blocks ≡ count)

started : Begun begun opened.0 (base disk []) 2 0
unfolding execute
started =
    let (e, done, a, as_many, size, none_pinned) = begin-Active zeros disk [] opened.0 opened.1 in
    (e, done, a, size ∙ opened.2, none_pinned)

nothing_pinned : pinned_of (find 0 started.0.base.blocks) ≡ false
nothing_pinned =
    let a = started.2 in a.pins.same 0 ∙ NonePinned-empty a.pinned (a.counted ∙ started.4) 0

-- Block 0 as the database file has it.
abbrev first_block : Bytes
first_block = base disk [] 0

pin-Active_example :
    (e : TransactionEngine zeros) × (pin zeros 0 true started.0 ≡ ok e)
    × (a : Active zeros disk [] e (base disk [])) × (a.pinned ≡ 0 ∷ started.2.pinned)
    × (find 0 e.base.blocks ≡ some (held 0 first_block))
    × (e.size ≡ started.0.size)
    × (e.pinned_blocks ≡ suc started.0.pinned_blocks)
pin-Active_example =
    pin-Active zeros disk [] started.0 (base disk []) 0 started.2 (omega (arith, started.3))
      nothing_pinned

one_pinned :
    (b : Begun (pinned 0) started.0 (base disk []) 2 1) × (find 0 b.0.base.blocks
      ≡ some (held 0 first_block))
unfolding execute
one_pinned =
    let (e, done, a, more, found, size, count) =
      pin-Active zeros disk [] started.0 (base disk []) 0 started.2 (omega (arith, started.3))
        nothing_pinned in
    ((e, done, a, size ∙ started.3, count ∙ ap suc started.4), found)

abbrev rewritten : ℕ → Bytes
rewritten = update (base disk []) 0 (7 ∷ 8 ∷ [])

one_written :
    (b : Begun (wrote 0 (7 ∷ 8 ∷ [])) one_pinned.0.0 rewritten 2 1) × (find 0 b.0.base.blocks
      ≡ some (held 0 (7 ∷ 8 ∷ [])))
unfolding execute
one_written =
    let (e, done, a, as_many, found, size, count) =
      write_block-Active zeros disk [] one_pinned.0.0 (base disk []) 0 (held 0 first_block)
        (7 ∷ 8 ∷ []) one_pinned.0.2 one_pinned.1 refl refl in
    ((e, done, a, size ∙ one_pinned.0.3, count ∙ one_pinned.0.4), found)

released : Begun (unpinned 0) one_written.0.0 rewritten 2 0
unfolding execute
released =
    let (e, done, a, others, found, fewer, size) =
      unpin-Active zeros disk [] one_written.0.0 rewritten 0 (held 0 (7 ∷ 8 ∷ [])) one_written.0.2
        one_written.1 refl in
    (e, done, a, size ∙ one_written.0.3, omega (arith, fewer, one_written.0.4))

commit-Quiet_example :
    (e : TransactionEngine zeros) × (ts : List Transaction) × (commit zeros released.0 ≡ ok e)
    × Quiet zeros disk ts e
    × Agree (base disk ts) rewritten
    × (e.size ≡ released.0.size)
    × Recorded 2 [] ts released.0.size (changed zeros released.0.base) e.base.state.log
commit-Quiet_example = commit-Quiet zeros disk [] released.0 rewritten released.2 released.4

rollback-Quiet_example :
    (e : TransactionEngine zeros) × (rollback zeros released.0 ≡ ok e)
    × Quiet zeros disk [] e
    × (e.size ≡ last_size [] 2)
rollback-Quiet_example = rollback-Quiet zeros disk [] released.0 rewritten released.2 released.4

opened-Represents : Represents zeros opened.0 (outside (base disk []) 2 2)
unfolding last_size
opened-Represents = (disk, [], opened.1, (λ i r. refl), refl, opened.2)

-- The abstract database within a transaction that has not written.
abbrev unwritten : List ℕ → Database
unwritten ps = inside (base disk []) 2 (base disk []) 2 false ps

entered :
    (e : TransactionEngine zeros) × (execute zeros begun opened.0 ≡ ok e)
    × Represents zeros e (unwritten [])
unfolding next refusal
entered = execute-Answers zeros begun opened.0 (outside (base disk []) 2 2) opened-Represents tt

holding :
    (e : TransactionEngine zeros) × (execute zeros (pinned 0) entered.0 ≡ ok e)
    × Represents zeros e (unwritten (0 ∷ []))
unfolding next refusal contains
holding = execute-Answers zeros (pinned 0) entered.0 (unwritten []) entered.2 tt

-- What is refused then: a commit, and pinning the block again or one behind the end.
holding-refuses :
    (execute zeros committed holding.0 ≡ err bad_operation)
    × (execute zeros (pinned 0) holding.0 ≡ err bad_argument)
    × (execute zeros (pinned 2) holding.0 ≡ err bad_argument)
unfolding next refusal contains
holding-refuses = (
  execute-Answers zeros committed holding.0 (unwritten (0 ∷ [])) holding.2 tt,
  execute-Answers zeros (pinned 0) holding.0 (unwritten (0 ∷ [])) holding.2 tt,
  execute-Answers zeros (pinned 2) holding.0 (unwritten (0 ∷ [])) holding.2 tt,
)

abbrev body : List Command
body = pinned 0 ∷ wrote 0 (7 ∷ 8 ∷ []) ∷ unpinned 0 ∷ []

committing : (e : TransactionEngine zeros) × (execute zeros committed released.0 ≡ ok e)
unfolding execute
committing =
    let (e, ts, done, q, same, size, recorded) =
      commit-Quiet zeros disk [] released.0 rewritten released.2 released.4 in
    (e, done)

session : Run zeros opened.0 (begun ∷ (body ++ committed ∷ [])) committing.0
session = called started.0 tt started.1 (
    called one_pinned.0.0 tt one_pinned.0.1 (
      called one_written.0.0 (sym one_pinned.0.2.holds.shows.attached.same_size) one_written.0.1
        (called released.0 tt released.1 (called committing.0 tt committing.1 finished))))

Run-all_example :
    Represents zeros committing.0
      (all (begun ∷ (body ++ committed ∷ [])) (outside (base disk []) 2 2))
Run-all_example =
    Run-all zeros opened.0 committing.0 (begun ∷ (body ++ committed ∷ []))
      (outside (base disk []) 2 2) session opened-Represents

Run-atomic_example : Represents zeros committing.0 (outside (writes body (base disk [])) 2 2)
unfolding ending wrote_any size_after
Run-atomic_example =
    Run-atomic zeros opened.0 committing.0 body true (base disk []) 2 2 opened-Represents tt session

abbrev one : Transaction
one = record { writes = (1, 7 ∷ 8 ∷ []) ∷ []; size = 2 }

one-HistoryFits : HistoryFits 2 (one ∷ [])
unfolding lookup
one-HistoryFits = (record { writes = (refl, omega arith, refl, tt); size = omega arith }, tt)

open-Quiet_example :
    (e : TransactionEngine zeros) × (open_transaction_engine zeros database
        (journal_file 100 (one ∷ []))
        2
        4
      ≡ ok e)
    × Quiet zeros disk (complete 100 (one ∷ [])) e
    × (e.base.state.log.tail.file.bytes ≡ encode_journal 2 (complete 100 (one ∷ [])))
    × (e.size ≡ value_or e.base.state.log.database_size 2)
open-Quiet_example =
    open-Quiet zeros database (journal_file 100 (one ∷ [])) 2 4 database-IsDatabase 100 (one ∷ [])
      refl refl one-HistoryFits refl

complete-one : complete 100 (one ∷ []) ≡ one ∷ []
unfolding complete encode_writes
complete-one =
    let size : length (encode one) ≤ 100 = omega (
      arith,
      length-encode one,
      length-append (encode_write (1, 7 ∷ 8 ∷ [])) [],
      length-encode_write 1 (7 ∷ 8 ∷ []),
    ) in
    ground (arith, size)

-- An engine with a commit in its journal.
reopened :
    (e : TransactionEngine zeros) × Quiet zeros disk (one ∷ []) e
    × (e.size ≡ value_or e.base.state.log.database_size 2)
reopened =
    let (e, done, q, filed, size) =
      open-Quiet zeros database (journal_file 100 (one ∷ [])) 2 4 database-IsDatabase 100 (one ∷ [])
        refl refl one-HistoryFits refl in
    (e, subst (λ ts. Quiet zeros disk ts e) complete-one q, size)

reopened_size : (reopened.0.base.state.log.database_size ≡ some 2) × (reopened.0.size ≡ 2)
unfolding replay apply
reopened_size =
    let sized : reopened.0.base.state.log.database_size ≡ some 2 =
      reopened.1.journal_idle.holds.size in
    (sized, reopened.2 ∙ ap (λ o. value_or o 2) sized)

-- What a checkpoint of that engine needs.
reopened_files :
    (reopened.0.base.state.db.read_only ≡ false)
    × (reopened.0.base.state.log.tail.file.read_only ≡ false)
reopened_files = (
  ap (λ (f : MemoryFile). f.read_only) reopened.1.holds.shows.attached.same_db,
  reopened.1.journal_idle.holds.valid.file_writable,
)

checkpoint-Quiet_example :
    (e : TransactionEngine zeros) × (disk' : Disk) × (checkpoint zeros reopened.0 ≡ ok e)
    × Quiet zeros disk' [] e
    × ((i : ℕ) → base disk' [] i ≡ base disk (one ∷ []) i)
    × (length disk'.db.bytes ≡ disk'.db_blocks * disk'.block_size)
    × (disk'.db_blocks ≡ reopened.0.size)
    × (e.size ≡ reopened.0.size)
checkpoint-Quiet_example =
    checkpoint-Quiet zeros disk (one ∷ []) reopened.0 reopened.1
      (reopened_size.0 ∙ ap (λ (n : ℕ). some n) (sym reopened_size.1)) reopened_files.0
      reopened_files.1 refl (omega (arith, reopened_size.1)) (omega (arith, reopened_size.1))
