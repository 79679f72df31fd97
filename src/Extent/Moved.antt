-- ===== src/Extent/Moved.antt =====
-- What moving a range keeps (allocator::reallocate, extent_impl::resize).
use extpp.Prelude.{ℕ, ◌+◌, ◌≡◌, ◌≢◌, ◌<◌, ◌⊎◌, inl, inr, ok, ◌==◌, arith, Bool-cases}
use extpp.Allocator.{invalid}
use extpp.Extent.{RangeAllocator, Slots, allocate, free, reallocate}

-- A range lies somewhere, or is empty and lies nowhere.
abbrev pub Placed : ℕ → ℕ → Type 0
Placed start size = ((start ≡ invalid) × (size ≡ 0)) ⊎ ((start ≢ invalid) × (0 < size))

module _ (alloc : RangeAllocator) where
  -- What a move promises: a valid place, and the blocks that are in both ranges.
  pub record Moved (blocks blocks' : ℕ → Slots) (i i' size new_size : ℕ) : Type 0 where
    pub there : i' ≢ invalid
    pub kept : (k : ℕ) → k < size → k < new_size → blocks' (i' + k) ≡ blocks (i + k)

  pub reallocate-Moved :
      (a a' : alloc.State) (blocks blocks' : ℕ → Slots) (i i' size new_size : ℕ)
      → Placed i size
      → 0 < new_size
      → reallocate alloc a blocks i size new_size ≡ ok (i', blocks', a')
      → Moved blocks blocks' i i' size new_size
  unfolding reallocate allocate free
  reallocate-Moved a a' blocks blocks' i i' size new_size placed some moved = elim placed [
    | inl nowhere ↦ record {
      there = ground (arith, nowhere.0, nowhere.1);
      kept = λ k h h'. absurd (omega (arith, nowhere.1, h));
    }
    | inr somewhere ↦ elim (Bool-cases (size == new_size)) [
      | inl same ↦ record {
        there = ground (arith, somewhere.0, somewhere.1);
        kept = λ k h h'. ground (arith, somewhere.0, somewhere.1);
      }
      | inr other ↦ record {
        there = ground (arith, somewhere.0, somewhere.1);
        kept = λ k h h'.
            ground (
              arith,
              somewhere.0,
              somewhere.1,
              alloc.kept a a' blocks blocks' i i' size new_size k,
            );
      }
    ]
  ]
