-- ===== src/Extent.antt =====
-- Ranges of consecutive blocks (src/container/extent.cpp), and the range operations of allocators
-- (include/prequel/container/allocator.hpp) over the virtual functions that an allocator has. A
-- block is a function from a slot to the value that lies there: the arrays that use extents read
-- and write whole slots.
pub mod Moved
use extpp.Prelude.{
  ℕ, ◌+◌, ◌≡◌, ◌<◌, Bool, not, Result, ok, err, bad_argument, assertion, guard, assert, ◌>>=◌, ◌>>◌,
  if◌then◌else◌, ltb, ◌==◌, List,
}
use extpp.Allocator.{invalid}

abbrev pub Slots : Type 0
Slots = ℕ → List ℕ

abbrev pub valid : ℕ → Bool
valid i = not (i == invalid)

-- The virtual functions. Moving a range keeps the blocks that are in the old one and in the new one.
pub record RangeAllocator : Type 1 where
  pub State : Type 0
  pub do_allocate : State → ℕ → Result (ℕ × State)
  pub do_reallocate : State → (ℕ → Slots) → ℕ → ℕ → ℕ → Result (ℕ × (ℕ → Slots) × State)
  pub do_free : State → ℕ → ℕ → Result State
  pub kept :
      (a a' : State) (blocks blocks' : ℕ → Slots) (i i' size new_size k : ℕ)
      → do_reallocate a blocks i size new_size ≡ ok (i', blocks', a')
      → k < size
      → k < new_size
      → blocks' (i' + k) ≡ blocks (i + k)

module _ (alloc : RangeAllocator) where
  open alloc use {State, do_allocate, do_reallocate, do_free}

  unfoldable pub allocate : State → ℕ → Result (ℕ × State)
  allocate a size = do
    guard (not (size == 0)) bad_argument
    (i, a') ← do_allocate a size
    assert (valid i)
    ok (i, a')

  unfoldable pub free : State → ℕ → ℕ → Result State
  free a i size = if not (valid i) then ok a else if size == 0 then ok a else do_free a i size

  -- Where the range is to move, its blocks move with it.
  unfoldable pub reallocate : State → (ℕ → Slots) → ℕ → ℕ → ℕ → Result (ℕ × (ℕ → Slots) × State)
  unfolding allocate free
  reallocate a blocks i size new_size =
      if not (valid i)
      then (do guard (size == 0) bad_argument; (i', a') ← allocate a new_size; ok (i', blocks, a'))
      else if size == 0
      then err bad_argument
      else if size == new_size
      then ok (i, blocks, a)
      else if new_size == 0
      then (do a' ← free a i size; ok (invalid, blocks, a'))
      else (do
        (i', blocks', a') ← do_reallocate a blocks i size new_size
        assert (valid i')
        ok (i', blocks', a'))

  -- The anchor, the engine's blocks and the allocator's state.
  pub record Extent : Type 0 where
    pub start : ℕ
    pub size : ℕ
    pub blocks : ℕ → Slots
    pub space : State

  -- The address of a block; `block_index::operator+` asks for a valid start.
  unfoldable pub get : Extent → ℕ → Result ℕ
  get e index = do
    guard (ltb index e.size) bad_argument
    assert (valid e.start)
    ok (e.start + index)

  unfoldable pub clear : Extent → Result Extent
  unfolding free
  clear e = if e.size == 0 then ok e else (do
    space ← free e.space e.start e.size
    ok (record e { start = invalid; size = 0; space = space }))

  unfoldable pub resize : ℕ → Extent → Result Extent
  resize new_size e = if new_size == e.size then ok e else (do
    (start, blocks, space) ← reallocate e.space e.blocks e.start e.size new_size
    ok (record { start = start; size = new_size; blocks = blocks; space = space }))
