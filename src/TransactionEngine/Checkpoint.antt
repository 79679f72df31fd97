-- ===== src/TransactionEngine/Checkpoint.antt =====
-- The checkpoint of src/engine/transaction_engine.ipp: the blocks move from the journal to the
-- database file, and its users see no difference.
use extpp.Prelude.{
  ℕ, ◌+◌, ◌*◌, ◌^◌, ◌≤◌, ◌<◌, ◌≡◌, ◌∙◌, refl, sym, ap, subst, Bool, false, List, [], none, some, ok,
  ltb, length, arith, Bool-cases, Option-cases, inl, inr,
}
use extpp.MemoryFile
use extpp.MemoryFile.Blocks.{truncate-block}
use extpp.MemoryFile.{MemoryFile}
use extpp.Journal
use extpp.Journal.{Journal, has_committed_changes}
use extpp.Journal.History.{Transaction, contents}
use extpp.Journal.State.{Idle}
use extpp.Journal.Reading.{current}
use extpp.Journal.Checkpoint.{block_at}
use extpp.Journal.Checkpoint.Emptied.{checkpoint-current}
use extpp.Engine.{Bytes}
use extpp.TransactionEngine.{
  TransactionEngine, Store, with_store, checkpoint_store, copy_changes, checkpoint,
}
use extpp.TransactionEngine.Device.{Disk, on_disk, base, InRange}
use extpp.TransactionEngine.State.{Quiet, At-rebased}

truncated-block :
    (disk : Disk) (size i : ℕ)
    → length disk.db.bytes ≡ disk.db_blocks * disk.block_size
    → disk.db_blocks ≤ size
    → i < size
    → block_at disk.block_size (MemoryFile.truncate disk.db (size * disk.block_size)) i
      ≡ on_disk disk i
truncated-block disk size i whole bigger inside =
    truncate-block disk.db disk.block_size disk.db_blocks size i whole bigger inside

-- The disk after a checkpoint.
abbrev pub rewritten :
    (disk : Disk) (db : MemoryFile) (size : ℕ)
    → length db.bytes ≡ size * disk.block_size
    → size * disk.block_size + 1 < 2 ^ 64
    → Disk
rewritten disk db size whole small = record {
  block_size = disk.block_size;
  block_size_log = disk.block_size_log;
  db = db;
  db_blocks = size;
  pos = disk.pos;
  shift = disk.shift;
  whole = omega (arith, whole);
  narrow = omega (arith, whole, small);
}

module _ (disk : Disk) (ts : List Transaction) (db : MemoryFile) (size : ℕ)
    (whole : length db.bytes ≡ size * disk.block_size) (small : size * disk.block_size + 1 < 2 ^ 64)
    (was_whole : length disk.db.bytes ≡ disk.db_blocks * disk.block_size)
    (bigger : disk.db_blocks ≤ size) (beyond : (i : ℕ) → size ≤ i → current ts i ≡ none)
    (moved : (i : ℕ)
      → i < size
      → block_at disk.block_size db i ≡ elim (current ts i) [
        | some block ↦ block
        | none ↦ block_at disk.block_size (MemoryFile.truncate disk.db (size * disk.block_size)) i
      ]) where
  -- Every block reads as it did, from the file alone.
  rewritten-base : (i : ℕ) → base (rewritten disk db size whole small) [] i ≡ base disk ts i
  unfolding contents
  rewritten-base i = elim (Bool-cases (ltb i size)) [
    | inl inside ↦ elim (Option-cases (current ts i)) [
      | inl absent ↦
          rw (inside, absent)
            (moved i (ground (arith, inside))
              ∙ rw absent (truncated-block disk size i was_whole bigger (ground (arith, inside))))
      | inr (block, found) ↦ rw (inside, found) (moved i (ground (arith, inside)) ∙ rw found refl)
    ]
    | inr out ↦
        let not_old : ltb i disk.db_blocks ≡ false = ground (arith, out, bigger) in
        rw (out, beyond i (ground (arith, out)), not_old) refl
  ]

-- What the journal's checkpoint gives.
abbrev Moved : ℕ → List Transaction → Journal → MemoryFile → ℕ → Type 0
Moved block_size ts j db size =
    (j' : Journal) × (db' : MemoryFile) × (changed : Bool) × (Journal.checkpoint j db
      ≡ ok (j', db', changed))
    × Idle block_size [] j'
    × (length db'.bytes ≡ size * block_size)
    × ((i : ℕ)
        → i < size
        → block_at block_size db' i ≡ elim (current ts i) [
          | some block ↦ block
          | none ↦ block_at block_size (MemoryFile.truncate db (size * block_size)) i
        ])

checkpoint-Moved :
    (block_size : ℕ) (ts : List Transaction) (j : Journal) (db : MemoryFile) (size : ℕ)
    → j.block_size ≡ block_size
    → Idle block_size ts j
    → j.database_size ≡ some size
    → 0 < block_size
    → size * block_size < 2 ^ 64
    → db.read_only ≡ false
    → Moved block_size ts j db size
checkpoint-Moved block_size ts j db size same idle sized pos small free =
    subst (λ n. Moved n ts j db size) same
      (let e = sym same in
        let (j', db', changed, done, idle', whole, blocks, kept) =
          checkpoint-current ts j size db (subst (λ n. Idle n ts j) e idle) sized
            (subst (λ n. 0 < n) e pos) (subst (λ n. size * n < 2 ^ 64) e small) free in
        (j', db', changed, done, idle', whole, blocks))

module _ (malloc_block : Bytes) (disk : Disk) (ts : List Transaction) where
  -- A checkpoint between two transactions empties the journal; the database file alone then stands for
  -- every block as it read before, has as many blocks as the database, and the database keeps its size.
  -- It is one where the size that the journal has recorded last is that of the database, both files can
  -- be written, the database file has whole blocks, no more than the database, and the database fits
  -- 64 bits.
  pub checkpoint-Quiet :
      (e : TransactionEngine malloc_block)
      → Quiet malloc_block disk ts e
      → e.base.state.log.database_size ≡ some e.size
      → e.base.state.db.read_only ≡ false
      → e.base.state.log.tail.file.read_only ≡ false
      → length disk.db.bytes ≡ disk.db_blocks * disk.block_size
      → disk.db_blocks ≤ e.size
      → e.size * disk.block_size + 1 < 2 ^ 64
      → (e' : TransactionEngine malloc_block) × (disk' : Disk) × (checkpoint malloc_block e ≡ ok e')
        × Quiet malloc_block disk' [] e'
        × ((i : ℕ) → base disk' [] i ≡ base disk ts i)
        × (length disk'.db.bytes ≡ disk'.db_blocks * disk'.block_size)
        × (disk'.db_blocks ≡ e.size)
        × (e'.size ≡ e.size)
  unfolding checkpoint copy_changes checkpoint_store has_committed_changes contents
  checkpoint-Quiet e q sized db_free log_free was_whole bigger small =
      let s = q.holds.shows.attached in
      let (j', db', changed, done, idle, whole, moved) =
        checkpoint-Moved disk.block_size ts e.base.state.log disk.db e.size
          q.journal_idle.holds.block_size_set q.journal_idle sized disk.pos (omega (arith, small))
          (ap (λ (f : MemoryFile). f.read_only) (sym s.same_db) ∙ db_free) in
      let disk' : Disk = rewritten disk db' e.size whole small in
      let same : (i : ℕ) → base disk' [] i ≡ base disk ts i =
        rewritten-base disk ts db' e.size whole small was_whole bigger q.beyond moved in
      let done' : Journal.checkpoint e.base.state.log e.base.state.db ≡ ok (j', db', changed) =
        ap (Journal.checkpoint e.base.state.log) s.same_db ∙ done in
      let d : Store = record e.base.state { log = j'; db = db'; db_blocks = e.size } in
      (
        record e { base = with_store malloc_block d e.base },
        disk',
        ground (arith, q.stopped, db_free, log_free, sized, q.journal_idle.idle, done'),
        record {
          stored = base disk' [];
          holds = record {
            shows = record {
              attached = record {
                same_db = refl;
                same_blocks = refl;
                same_size = s.same_size;
                same_log = s.same_log;
              };
              started = refl;
              phase = inl (idle, λ i r. refl);
            };
            writable = q.holds.writable;
            sized = q.holds.sized;
            unset = q.holds.unset;
            distinct = q.holds.distinct;
            at = λ i.
                At-rebased malloc_block disk disk.block_size (InRange i) _ _ _ (q.stored i) _
                  (q.holds.at i) (λ b found r. q.shown i r ∙ sym (same i));
          };
          shown = λ i r. refl;
          journal_idle = idle;
          stopped = q.stopped;
          clean = q.clean;
          free = q.free;
          unpinned = q.unpinned;
          small = q.small;
          beyond = λ i out. refl;
        },
        same,
        whole,
        refl,
        refl,
      )
