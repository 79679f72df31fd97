-- ===== src/MemoryFile/Blocks.antt =====
-- A file of blocks of one size, as the engines use it (class memory_file of src/vfs.cpp).
use native.Mathlib.Nat.{mul-le-mul_right}
use extpp.Prelude.{
  ℕ, zero, suc, ◌+◌, ◌-◌, ◌*◌, ◌≤◌, ◌<◌, ◌≡◌, ◌∙◌, refl, sym, ap, false, List, [], ◌∷◌, ◌++◌, ok,
  ltb, ◌==◌, length, take, replicate, slice, splice, arith, Bool-cases, inl, inr, if◌then◌else◌,
  length-append, length-take, take-all, length-replicate, slice-append_left, slice-append_right,
  slice-splice_self, slice-splice_before, slice-splice_after, length-splice,
}
use extpp.Prelude
use extpp.MemoryFile.{MemoryFile, truncate}

take-replicate : (n m a : ℕ) → n ≤ m → take n (replicate m a) ≡ replicate n a
take-replicate zero m a h = refl
take-replicate (suc n) zero a h = absurd (omega (arith, h))
take-replicate (suc n) (suc m) a h = ap (λ xs. a ∷ xs) (take-replicate n m a (omega (arith, h)))

slice-replicate : (i n m a : ℕ) → i + n ≤ m → slice (replicate m a) i n ≡ replicate n a
unfolding slice
slice-replicate zero n m a h = take-replicate n m a (omega (arith, h))
slice-replicate (suc i) n zero a h = absurd (omega (arith, h))
slice-replicate (suc i) n (suc m) a h = slice-replicate i n m a (omega (arith, h))

pub block-inside : (size i n : ℕ) → i < n → i * size + size ≤ n * size
block-inside size i n h = grind (arith, mul-le-mul_right)

-- A file that grows has zeros behind its old end.
pub truncate-block :
    (file : MemoryFile) (size old_blocks blocks i : ℕ)
    → length file.bytes ≡ old_blocks * size
    → old_blocks ≤ blocks
    → i < blocks
    → slice (truncate file (blocks * size)).bytes (i * size) size
      ≡ (if ltb i old_blocks then slice file.bytes (i * size) size else replicate size 0)
unfolding truncate
truncate-block file size old_blocks blocks i whole bigger inside =
    let wide : old_blocks * size ≤ blocks * size = mul-le-mul_right size bigger in
    let uncut : take (blocks * size) file.bytes ≡ file.bytes =
      take-all _ _ (omega (arith, whole, wide)) in
    let here : i * size + size ≤ blocks * size = block-inside size i blocks inside in
    elim (Bool-cases (ltb i old_blocks)) [
      | inl old ↦
          let fits : i * size + size ≤ old_blocks * size =
            block-inside size i old_blocks (ground (arith, old)) in
          rw (old, uncut)
            (slice-append_left file.bytes _ (i * size) size (omega (arith, whole, fits)))
      | inr new ↦
          let behind : old_blocks * size ≤ i * size = mul-le-mul_right size (ground (arith, new)) in
          rw (new, uncut)
            (slice-append_right file.bytes _ (i * size) (i * size - length file.bytes) size
                (omega (arith, whole, behind))
              ∙ slice-replicate _ size _ 0 (omega (arith, whole, behind, here)))
    ]

pub length-truncate_grown :
    (file : MemoryFile) (size : ℕ)
    → length file.bytes ≤ size
    → length (truncate file size).bytes ≡ size
unfolding truncate
length-truncate_grown file size longer = omega (
  arith,
  length-append (take size file.bytes) (replicate (size - length file.bytes) 0),
  ap (λ (xs : List ℕ). length xs) (take-all size file.bytes longer),
  length-replicate {A = ℕ} (size - length file.bytes) 0,
)

-- A block that is written, and the others.
pub splice-block :
    (bytes block : List ℕ) (size blocks k i : ℕ)
    → length block ≡ size
    → blocks * size ≤ length bytes
    → k < blocks
    → i < blocks
    → slice (splice bytes (k * size) block) (i * size) size
      ≡ (if k == i then block else slice bytes (i * size) size)
splice-block bytes block size blocks k i sized room k_inside i_inside =
    let fits = block-inside size k blocks k_inside in
    elim (Prelude.trichotomy k i) [
      | inl below ↦ rw (Prelude.==_lt k i below) (
          slice-splice_after bytes block (k * size) (i * size) size
            (omega (arith, block-inside size k i below, sized)) (omega (arith, fits, sized, room)))
      | inr (inl same) ↦
          rw (← same, Prelude.==_self k)
            (slice-splice_self bytes block (k * size) size (sym sized) (omega (arith, fits, room)))
      | inr (inr above) ↦ rw (Prelude.==_gt k i above) (
          slice-splice_before bytes block (k * size) (i * size) size (block-inside size i k above)
            (omega (arith, fits, sized, room)))
    ]
