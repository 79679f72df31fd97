-- ===== src/Journal/Checkpoint.antt =====
-- The checkpoint of the journal (checkpoint of src/engine/journal.ipp): the current version of each
-- block is copied into the database file, and the log is emptied.
pub mod Emptied
use native.Mathlib.Nat.{mul-le-mul_right}
use extpp.Prelude.{
  ℕ, zero, suc, ◌+◌, ◌-◌, ◌*◌, ◌^◌, ◌<◌, ◌≤◌, ◌≡◌, ◌≢◌, refl, sym, ap, ◌∙◌, true, false, Bool, not,
  ◌||◌, List, [], ◌∷◌, ◌++◌, Option, none, some, ok, Result, length, take, replicate, slice, splice,
  arith, ltb, ◌==◌, if◌then◌else◌, Bool-cases, inl, inr, length-append, length-splice,
  slice-splice_self, slice-splice_before, slice-splice_after,
}
use extpp.Prelude
use extpp.MemoryFile
use extpp.MemoryFile.{MemoryFile}
use extpp.Journal.{
  Journal, checkpoint, checkpoint_blocks, copy_blocks, checked_mul_u64, valid_index, empty_log,
  is_empty,
}
use extpp.Journal.Positions.{Positions, Rising, rank, find, Rising-find}
use extpp.Journal.Records.{log_header_size, serialize_log_header}
use extpp.Journal.Tail
use extpp.Journal.Tail.{log}
use extpp.Journal.Tail.Access.{read_internal-slice, length-log}
use extpp.Journal.History.{Transaction, encode_log, encode_journal, replay}
use extpp.Journal.Index.{rank_eq, rank_lt}
use extpp.Journal.State.{
  Holds, Idle, index_of, no_blocks, length-serialize_log_header, length-encode_journal,
}
use extpp.Journal.Entries.{
  Entries, IsKey, Below, replay-Below, Below-some, Below-IsKey, Entries-find, Entries-and,
}
use extpp.Journal.Reading.{Stored, Agrees, current, index_of-Agrees}

-- The blocks of the database file.
abbrev pub block_at : ℕ → MemoryFile → ℕ → List ℕ
block_at block_size db i = slice db.bytes (i * block_size) block_size

blocks_apart : (i k n : ℕ) → i < k → i * n + n ≤ k * n
blocks_apart i k n h = grind (arith, mul-le-mul_right)

-- What a block reads as after the copy.
abbrev pub copied : ℕ → List ℕ → MemoryFile → Option ℕ → ℕ → List ℕ
copied block_size bytes db none i = block_at block_size db i
copied block_size bytes db (some p) i = slice bytes p block_size

-- One block written into the file.
written : ℕ → ℕ → MemoryFile → List ℕ → MemoryFile
written block_size k db block = record db { bytes = splice db.bytes (k * block_size) block }

module _ (block_size blocks k : ℕ) (db : MemoryFile) (block : List ℕ)
    (sized : length block ≡ block_size) (inside : k < blocks)
    (room : blocks * block_size ≤ length db.bytes) where
  fits : k * block_size + length block ≤ length db.bytes
  fits = omega (arith, blocks_apart k blocks block_size inside)

  length-written : length (written block_size k db block).bytes ≡ length db.bytes
  unfolding written
  length-written = length-splice db.bytes block (k * block_size) fits

  block_at-written :
      (i : ℕ)
      → i < blocks
      → block_at block_size (written block_size k db block) i
        ≡ (if k == i then block else block_at block_size db i)
  unfolding written
  block_at-written i h = elim (Prelude.trichotomy k i) [
    | inl below ↦ rw (Prelude.==_lt k i below) (
        slice-splice_after db.bytes block (k * block_size) (i * block_size) block_size
          (omega (arith, blocks_apart k i block_size below)) (omega (arith, fits)))
    | inr (inl same) ↦
        rw (← same, Prelude.==_self k)
          (slice-splice_self db.bytes block (k * block_size) block_size (sym sized)
            (omega (arith, fits)))
    | inr (inr above) ↦ rw (Prelude.==_gt k i above) (
        slice-splice_before db.bytes block (k * block_size) (i * block_size) block_size
          (blocks_apart i k block_size above) (omega (arith, fits)))
  ]

-- A file after the copy of the entries `m`, whose places lie in `bytes`.
pub record Copied (block_size blocks : ℕ) (bytes : List ℕ) (m : Positions) (db db' : MemoryFile)
    : Type 0 where
  pub writable : db'.read_only ≡ false
  pub size : length db'.bytes ≡ length db.bytes
  pub blocks_put :
      (i : ℕ) → i < blocks → block_at block_size db' i ≡ copied block_size bytes db (find i m) i

abbrev pub IsCopyable : ℕ → ℕ → List ℕ → ℕ → ℕ → Type 0
IsCopyable block_size blocks bytes k p =
    ((k + 1 < 2 ^ 64) × (k < blocks)) × (p + block_size ≤ length bytes)

copied-none :
    (block_size : ℕ) (bytes : List ℕ) (db db' : MemoryFile) (q : Option ℕ) (i : ℕ)
    → block_at block_size db' i ≡ block_at block_size db i
    → copied block_size bytes db' q i ≡ copied block_size bytes db q i
copied-none block_size bytes db db' none i e = e
copied-none block_size bytes db db' (some p) i e = refl

-- The first entry is copied, and the others are not touched by that.
copied-written :
    (block_size blocks k p r i : ℕ) (m : Positions) (db : MemoryFile) (bytes : List ℕ)
    → blocks + 1 < 2 ^ 64
    → IsCopyable block_size blocks bytes k p
    → blocks * block_size ≤ length db.bytes
    → Rising r ((k, p) ∷ m)
    → i < blocks
    → copied block_size bytes (written block_size k db (slice bytes p block_size)) (find i m) i
      ≡ copied block_size bytes db (find i ((k, p) ∷ m)) i
copied-written block_size blocks k p r i m db bytes small h room rising inside =
    let sized = Prelude.length-slice bytes p block_size h.1 in
    let now =
      block_at-written block_size blocks k db (slice bytes p block_size) sized h.0.1 room i
        inside in
    let same_rank = rank_eq i k (omega arith) (omega arith) in
    elim (Bool-cases (k == i)) [
      | inl same ↦
          let e : k ≡ i = ground arith in
          let gone : find i m ≡ none =
            Rising-find (rank k + 1) i m (omega (arith, ap rank e)) rising.1 in
          let here : find i ((k, p) ∷ m) ≡ some p = unfold find in ground (arith, ap rank e) in
          rw (gone, here) (now ∙ rw same)
      | inr other ↦
          let there : find i ((k, p) ∷ m) ≡ find i m =
            unfold find in ground (arith, rank_eq i k, other) in
          rw there (
            copied-none block_size bytes db (written block_size k db (slice bytes p block_size))
              (find i m) i (now ∙ rw other))
    ]

module _ (j : Journal) (blocks : ℕ) (valid : Tail.IsValid j.tail) (pos : 0 < j.block_size)
    (narrow : j.block_size < 2 ^ 32) (small : blocks + 1 < 2 ^ 64)
    (room : blocks * j.block_size < 2 ^ 64) where
  copy_step :
      (k p : ℕ) (rest : Positions) (db : MemoryFile)
      → IsCopyable j.block_size blocks (log j.tail) k p
      → db.read_only ≡ false
      → blocks * j.block_size ≤ length db.bytes
      → copy_blocks j blocks ((k, p) ∷ rest) db
        ≡ copy_blocks j blocks rest (written j.block_size k db (slice (log j.tail) p j.block_size))
  unfolding copy_blocks checked_mul_u64 valid_index written
  copy_step k p rest db h free fit =
      let block = slice (log j.tail) p j.block_size in
      let sized = Prelude.length-slice (log j.tail) p j.block_size h.1 in
      let read_block =
        read_internal-slice j.tail p j.block_size valid narrow
          (omega (arith, length-log j.tail valid)) in
      let apart = blocks_apart k blocks j.block_size h.0.1 in
      let put =
        MemoryFile.write-splice db (k * j.block_size) block free (omega arith) (omega arith) in
      let key : (k == 2 ^ 64 - 1) ≡ false = ground arith in
      let inside : ltb (rank k) (rank blocks) ≡ true =
        rank_lt k blocks h.0.0 small ∙ Prelude.lt→ltb k blocks h.0.1 in
      let fit_u64 : ltb (k * j.block_size) (2 ^ 64) ≡ true = Prelude.lt→ltb _ _ (omega arith) in
      ground (arith, key, inside, fit_u64, read_block, put)

  pub copy_blocks-Copied :
      (r : ℕ) (m : Positions) (db : MemoryFile)
      → Rising r m
      → Entries (IsCopyable j.block_size blocks (log j.tail)) m
      → db.read_only ≡ false
      → blocks * j.block_size ≤ length db.bytes
      → (db' : MemoryFile) × (copy_blocks j blocks m db ≡ ok db')
        × Copied j.block_size blocks (log j.tail) m db db'
  copy_blocks-Copied r [] db rising all free fit = (
    db,
    unfold copy_blocks in refl,
    record { writable = free; size = refl; blocks_put = λ i h. unfold find in refl },
  )
  copy_blocks-Copied r ((k, p) ∷ m) db rising all free fit =
      let block = slice (log j.tail) p j.block_size in
      let sized = Prelude.length-slice (log j.tail) p j.block_size all.0.1 in
      let db1 = written j.block_size k db block in
      let size = length-written j.block_size blocks k db block sized all.0.0.1 fit in
      let (db', done, c) =
        copy_blocks-Copied (rank k + 1) m db1 rising.1 all.1 (unfold written in free)
          (omega (arith, size)) in
      (
        db',
        copy_step k p m db all.0 free fit ∙ done,
        record {
          writable = c.writable;
          size = c.size ∙ size;
          blocks_put = λ i h.
              c.blocks_put i h
              ∙ copied-written j.block_size blocks k p r i m db (log j.tail) small all.0 fit rising
                  h;
        },
      )
