-- ===== src/Journal/Checkpoint/Emptied.antt =====
-- The whole checkpoint (checkpoint of src/engine/journal.ipp): the database file and the journal
-- that it leaves.
use extpp.Prelude.{
  ℕ, suc, ◌+◌, ◌-◌, ◌*◌, ◌^◌, ◌<◌, ◌≤◌, ◌≡◌, refl, sym, ap, ◌∙◌, true, false, Bool, not, ◌||◌, List,
  [], ◌∷◌, ◌++◌, Option, none, some, ok, length, take, arith, ltb, ◌==◌, if◌then◌else◌, Bool-cases,
  inl, inr, length-append,
}
use extpp.Prelude
use extpp.MemoryFile
use extpp.MemoryFile.{MemoryFile}
use extpp.Journal.{Journal, checkpoint, copy_blocks, empty_log, is_empty}
use extpp.Journal.Positions.{Positions, find}
use extpp.Journal.Records.{log_header_size, serialize_log_header}
use extpp.Journal.Tail.{log}
use extpp.Journal.History.{Transaction, encode_log, encode_journal, replay}
use extpp.Journal.State.{Idle, no_blocks, length-serialize_log_header}
use extpp.Journal.Entries.{
  SizeFits, replay-SizeFits, Entries, Below, replay-Below, Below-some, Below-IsKey, Entries-find,
  Entries-and,
}
use extpp.Journal.Reading.{Stored, current, index_of-Agrees}
use extpp.Journal.Checkpoint.{block_at, copied, IsCopyable, copy_blocks-Copied}

SizeFits-some : {n : ℕ} (size : Option ℕ) → size ≡ some n → SizeFits size → n + 1 < 2 ^ 64
SizeFits-some none e h = cc
SizeFits-some (some m) e h = ground arith

-- Cutting or extending a file to the size that it has changes nothing.
pub truncate-same : (f : MemoryFile) (n : ℕ) → length f.bytes ≡ n → MemoryFile.truncate f n ≡ f
unfolding MemoryFile.truncate
truncate-same f n e =
    let none_added : n - length f.bytes ≡ 0 = omega arith in
    rw (none_added, Prelude.take-all n f.bytes (omega arith), Prelude.append-nil)

pub length-truncate : (f : MemoryFile) (n : ℕ) → length (MemoryFile.truncate f n).bytes ≡ n
unfolding MemoryFile.truncate
length-truncate f n = omega (
  arith,
  length-append (take n f.bytes) (Prelude.replicate (n - length f.bytes) 0),
  Prelude.length-take n f.bytes,
  Prelude.length-replicate {A = ℕ} (n - length f.bytes) 0,
)

Stored-within :
    (block_size : ℕ) (bytes : List ℕ) (p : ℕ) (b : Option (List ℕ))
    → Stored block_size bytes (some p) b
    → p + block_size ≤ length bytes
Stored-within block_size bytes p none h = absurd h
Stored-within block_size bytes p (some block) h = h.0

-- An entry of the index reads as the block that is current there.
Stored-copied :
    (block_size : ℕ) (bytes : List ℕ) (db : MemoryFile) (p : Option ℕ) (b : Option (List ℕ)) (i : ℕ)
    → Stored block_size bytes p b
    → copied block_size bytes db p i
      ≡ elim b [ some block ↦ block | none ↦ block_at block_size db i ]
Stored-copied block_size bytes db none none i h = refl
Stored-copied block_size bytes db none (some b) i h = absurd h
Stored-copied block_size bytes db (some p) none i h = absurd h
Stored-copied block_size bytes db (some p) (some b) i h = h.1

module _ (block_size : ℕ) (ts : List Transaction) (j : Journal) (i : Idle block_size ts j) where
  -- The log is cut back to its header.
  empty_log-Idle : Idle block_size [] (empty_log j)
  unfolding empty_log MemoryFile.sync MemoryFile.truncate encode_journal encode_log replay
  empty_log-Idle =
      let v = i.holds.valid in
      let h = length-serialize_log_header block_size in
      let long = i.holds.header_on_disk in
      let header = serialize_log_header block_size in
      let none_added : log_header_size - length j.tail.file.bytes ≡ 0 = omega arith in
      let cut : take log_header_size j.tail.file.bytes ≡ header =
        sym (
          Prelude.take-append_le log_header_size j.tail.file.bytes
            (take j.tail.buffer_used j.tail.buffer) (omega arith))
        ∙ ap (take log_header_size) i.stored
        ∙ Prelude.take-append_le log_header_size header (encode_log ts) (omega arith)
        ∙ Prelude.take-all log_header_size header (omega arith) in
      let bytes : take log_header_size j.tail.file.bytes
            ++ Prelude.replicate (log_header_size - length j.tail.file.bytes) 0
          ≡ header =
        rw (none_added, cut) (Prelude.append-nil header) in
      record {
        holds = record {
          valid = record {
            writable = v.writable;
            file_writable = v.file_writable;
            file_end = ap length bytes ∙ h;
            size = omega arith;
            used = omega arith;
            space = v.space;
            narrow = v.narrow;
          };
          block_size_set = i.holds.block_size_set;
          narrow = i.holds.narrow;
          positions = refl;
          size = refl;
          fits = tt;
          header_on_disk = omega arith;
        };
        stored = ap (λ xs. xs ++ []) bytes;
        idle = i.idle;
        no_begin = i.no_begin;
        none_pending = i.none_pending;
      }

  module _ (blocks : ℕ) (size : j.database_size ≡ some blocks) where
    below : Below (some blocks) j.block_positions
    below = Below-some j.database_size blocks j.block_positions size (
        rw (i.holds.positions, i.holds.size)
          (replay-Below block_size log_header_size ts no_blocks i.holds.fits refl))

    agrees :
        (k : ℕ)
        → k + 1 < 2 ^ 64
        → Stored j.block_size (log j.tail) (find k j.block_positions) (current ts k)
    agrees k h =
        rw (i.holds.block_size_set, i.stored, i.holds.positions)
          ((index_of-Agrees block_size ts i.holds.fits).0 k h)

    copyable : Entries (IsCopyable j.block_size blocks (log j.tail)) j.block_positions
    copyable =
        Entries-and (λ k p. (k + 1 < 2 ^ 64) × (k < blocks)) _ j.block_positions below
          (Entries-find 0 (λ k p. p + j.block_size ≤ length (log j.tail)) j.block_positions
            (rw i.holds.positions (index_of-Agrees block_size ts i.holds.fits).1)
            (Below-IsKey (some blocks) j.block_positions below)
            (λ k p h e.
              Stored-within j.block_size (log j.tail) p (current ts k) (rw e at (agrees k h))))

    size_fits : blocks + 1 < 2 ^ 64
    size_fits =
        SizeFits-some j.database_size size (
          rw i.holds.size (replay-SizeFits block_size log_header_size ts no_blocks i.holds.fits tt))

resized : MemoryFile → ℕ → MemoryFile
resized db n = if not (MemoryFile.file_size db == n) then MemoryFile.truncate db n else db

resized_lem : (db : MemoryFile) (n : ℕ) → resized db n ≡ MemoryFile.truncate db n
unfolding resized MemoryFile.file_size
resized_lem db n = elim (Bool-cases (length db.bytes == n)) [
  | inl same ↦ rw same (sym (truncate-same db n ((Prelude.==_iff _ n).0 same)))
  | inr other ↦ rw other
]

ok-injective : {f g : MemoryFile} → ◌≡◌ {A = Prelude.Result MemoryFile} (ok f) (ok g) → f ≡ g
ok-injective h = cc

truncate-writable :
    (f : MemoryFile) (n : ℕ) → f.read_only ≡ false → (MemoryFile.truncate f n).read_only ≡ false
unfolding MemoryFile.truncate
truncate-writable f n h = h

checkpoint_lem :
    (j : Journal) (blocks : ℕ) (db db' : MemoryFile)
    → j.in_transaction ≡ false
    → j.database_size ≡ some blocks
    → blocks * j.block_size < 2 ^ 64
    → copy_blocks j blocks j.block_positions (MemoryFile.truncate db (blocks * j.block_size))
      ≡ ok db'
    → checkpoint j db
      ≡ ok (
        empty_log j,
        db',
        not (MemoryFile.file_size db == blocks * j.block_size) || not (is_empty j.block_positions),
      )
unfolding checkpoint MemoryFile.sync resized
checkpoint_lem j blocks db db' idle size room done =
    let fit : ltb (blocks * j.block_size) (2 ^ 64) ≡ true = Prelude.lt→ltb _ _ room in
    let same = resized_lem db (blocks * j.block_size) in ground (arith, fit, same, done)

unchanged_lem :
    (j : Journal) (blocks n : ℕ) (m : Positions) (db db' : MemoryFile)
    → copy_blocks j blocks m (MemoryFile.truncate db n) ≡ ok db'
    → (not (MemoryFile.file_size db == n) || not (is_empty m)) ≡ false
    → db'.bytes ≡ db.bytes
unfolding MemoryFile.file_size copy_blocks
unchanged_lem j blocks n [] db db' done h =
    let same : length db.bytes ≡ n = ground arith in
    ap (λ f. f.bytes) (ok-injective (sym done) ∙ truncate-same db n same)
unchanged_lem j blocks n (e ∷ m) db db' done h = absurd (ground arith)

-- A journal with committed changes, at a checkpoint into a file that can be written: the file has
-- the size of the last commit and holds the current version of every block that the journal has,
-- and its own for the others; the journal is empty. Where the checkpoint reports no change, the
-- file is as it was.
pub checkpoint-current :
    (ts : List Transaction) (j : Journal) (blocks : ℕ) (db : MemoryFile)
    → Idle j.block_size ts j
    → j.database_size ≡ some blocks
    → 0 < j.block_size
    → blocks * j.block_size < 2 ^ 64
    → db.read_only ≡ false
    → (j' : Journal) × (db' : MemoryFile) × (changed : Bool) × (checkpoint j db
        ≡ ok (j', db', changed))
      × Idle j.block_size [] j'
      × (length db'.bytes ≡ blocks * j.block_size)
      × ((i : ℕ)
          → i < blocks
          → block_at j.block_size db' i ≡ elim (current ts i) [
            | some block ↦ block
            | none ↦ block_at j.block_size (MemoryFile.truncate db (blocks * j.block_size)) i
          ])
      × (changed ≡ false → db'.bytes ≡ db.bytes)
checkpoint-current ts j blocks db i size pos room free =
    let bs = j.block_size in
    let n : ℕ = blocks * bs in
    let target = MemoryFile.truncate db n in
    let target_size = length-truncate db n in
    let small = size_fits bs ts j i blocks size in
    let sorted = (index_of-Agrees bs ts i.holds.fits).1 in
    let (db', copied_all, c) =
      copy_blocks-Copied j blocks i.holds.valid pos i.holds.narrow small room 0 j.block_positions
        target (rw i.holds.positions sorted) (copyable bs ts j i blocks size)
        (truncate-writable db n free) (omega arith) in
    (
      empty_log j,
      db',
      not (MemoryFile.file_size db == n) || not (is_empty j.block_positions),
      checkpoint_lem j blocks db db' i.idle size room copied_all,
      empty_log-Idle bs ts j i,
      c.size ∙ target_size,
      λ k h.
          c.blocks_put k h
          ∙ Stored-copied bs (log j.tail) target (find k j.block_positions) (current ts k) k
              (agrees bs ts j i blocks size k (omega arith)),
      λ h. unchanged_lem j blocks n j.block_positions db db' copied_all h,
    )
