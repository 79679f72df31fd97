-- ===== src/FileEngine/Growth.antt =====
-- A file engine whose file grows, and what its file has after a flush (grow and the constructor of
-- src/engine/file_engine.ipp).
use native.Mathlib.Nat.{mul-le-mul_right, mul-div_cancel}
use extpp.Prelude.{
  ℕ, ◌+◌, ◌*◌, ◌/◌, ◌^◌, ◌≤◌, ◌<◌, ◌≡◌, ◌∙◌, refl, ap, Bool, true, false, Option, none, some, ok,
  if◌then◌else◌, ltb, length, slice, replicate, arith, Bool-cases, inl, inr,
}
use extpp.Math.{checked_add_u64}
use extpp.MemoryFile
use extpp.MemoryFile.{MemoryFile}
use extpp.MemoryFile.Blocks.{truncate-block, length-truncate_grown}
use extpp.Journal.{checked_mul_u64}
use extpp.Engine.{Bytes, Engine, flush_all}
use extpp.Engine.Blocks.{Block}
use extpp.Engine.Valid.{At, Holds}
use extpp.Engine.Flush.{flush_all-Holds}
use extpp.FileEngine.{Store, io, size, grow}
use extpp.FileEngine.Device.{Layout, Shows, device}

-- The blocks of a file that has grown: zeros behind its old end.
abbrev pub grown : ℕ → ℕ → (ℕ → Bytes) → ℕ → Bytes
grown block_size blocks f i = if ltb i blocks then f i else replicate block_size 0

truncate_writable :
    (file : MemoryFile) (n : ℕ)
    → file.read_only ≡ false
    → (MemoryFile.truncate file n).read_only ≡ false
unfolding MemoryFile.truncate
truncate_writable file n free = free

-- The size that the engine reports.
size_lem :
    (layout : Layout) (blocks : ℕ) (d : Store) (f : ℕ → Bytes)
    → Shows layout blocks d f
    → size d ≡ blocks
unfolding size MemoryFile.file_size
size_lem layout blocks d f s =
    (λ k. s.whole k / 2 ^ s.same_log k)
    ∙ ap (λ n. blocks * layout.block_size / n) layout.shift
    ∙ mul-div_cancel blocks layout.pos

module _ (malloc_block : Bytes) (layout : Layout) (blocks : ℕ) where
  At-grown :
      (n m : ℕ) (i : ℕ) (o : Option Block) (cached dirty : Bool) (x y : Bytes)
      → blocks ≤ m
      → At n (i < blocks) o cached dirty x y
      → At n
          (i < m)
          o
          cached
          dirty
          (if ltb i blocks then x else replicate n 0)
          (if ltb i blocks then y else replicate n 0)
  At-grown n m i none cached dirty x y more a =
      (a.0, a.1, ap (λ (b : Bytes). if ltb i blocks then b else replicate n 0) a.2)
  At-grown n m i (some b) cached dirty x y more a =
      let inside : ltb i blocks ≡ true = ground (arith, a.3) in
      (a.0, rw inside a.1, a.2, omega (arith, a.3, more), λ h. rw inside (a.4 h))

  kept-grown :
      (d : Store) (f : ℕ → Bytes) (i : ℕ)
      → Shows layout blocks d f
      → (if ltb i blocks
          then slice d.file.bytes (i * layout.block_size) layout.block_size
          else replicate layout.block_size 0)
        ≡ grown layout.block_size blocks f i
  kept-grown d f i s = elim (Bool-cases (ltb i blocks)) [
    | inl old ↦ rw old (s.same i (ground (arith, old)))
    | inr new ↦ rw new refl
  ]

  sum-fits :
      (n : ℕ)
      → (blocks + n) * layout.block_size < 2 ^ 64
      → checked_add_u64 blocks n ≡ ok (blocks + n)
  unfolding checked_add_u64
  sum-fits n small =
      let one : (blocks + n) * 1 ≤ (blocks + n) * layout.block_size = grind (arith, layout.pos) in
      let low : blocks + n < 2 ^ 64 = omega (arith, one, small) in ground (arith, low)

  product-fits :
      (m : ℕ)
      → m * layout.block_size < 2 ^ 64
      → checked_mul_u64 m layout.block_size ≡ ok (m * layout.block_size)
  unfolding checked_mul_u64
  product-fits m small = ground (arith, small)

  -- A file engine that grows keeps its blocks, those in memory included, and has zeros behind them.
  pub grow-Holds :
      (e : Engine io malloc_block) (f g : ℕ → Bytes) (n : ℕ)
      → Holds (device layout blocks) malloc_block e f g
      → (blocks + n) * layout.block_size < 2 ^ 64
      → (e' : Engine io malloc_block) × (grow malloc_block n e ≡ ok e')
        × Holds
            (device layout (blocks + n))
            malloc_block
            e'
            (grown layout.block_size blocks f)
            (grown layout.block_size blocks g)
        × (size e'.state ≡ blocks + n)
  unfolding grow
  grow-Holds e f g n h small =
      let bs = layout.block_size in
      let s = h.shows in
      let more : blocks ≤ blocks + n = omega arith in
      let wide : blocks * bs ≤ (blocks + n) * bs = mul-le-mul_right bs more in
      let file : MemoryFile = MemoryFile.truncate e.state.file ((blocks + n) * bs) in
      let d : Store = record e.state { file = file } in
      let added =
        ap (λ k. checked_add_u64 k n) (size_lem layout blocks e.state f s) ∙ sum-fits n small in
      let times =
        ap (λ k. checked_mul_u64 (blocks + n) k) s.same_size ∙ product-fits (blocks + n) small in
      let shows : Shows layout (blocks + n) d (grown bs blocks f) = record {
        same_size = s.same_size;
        same_log = s.same_log;
        writable = truncate_writable e.state.file ((blocks + n) * bs) s.writable;
        whole =
            length-truncate_grown e.state.file ((blocks + n) * bs) (omega (arith, s.whole, wide));
        narrow = small;
        same = λ i inside.
            truncate-block e.state.file bs blocks (blocks + n) i s.whole more inside
            ∙ kept-grown e.state f i s;
      } in
      (
        record e { state = d },
        ground (arith, added, times),
        record {
          shows = shows;
          writable = h.writable;
          sized = h.sized;
          unset = h.unset;
          distinct = h.distinct;
          at = λ i. At-grown bs (blocks + n) i _ _ _ (f i) (g i) more (h.at i);
        },
        size_lem layout (blocks + n) d (grown bs blocks f) shows,
      )

  -- After a flush, every block of the file is what the users see.
  pub flush-stored :
      (e : Engine io malloc_block) (f g : ℕ → Bytes)
      → Holds (device layout blocks) malloc_block e f g
      → (e' : Engine io malloc_block) × (flush_all io malloc_block e ≡ ok e')
        × ((i : ℕ)
            → i < blocks
            → slice e'.state.file.bytes (i * layout.block_size) layout.block_size ≡ g i)
        × (length e'.state.file.bytes ≡ blocks * layout.block_size)
  flush-stored e f g h =
      let (e', f', done, h', same, clean, kept) =
        flush_all-Holds (device layout blocks) malloc_block e f g h in
      (e', done, λ i inside. h'.shows.same i inside ∙ same i, h'.shows.whole)
