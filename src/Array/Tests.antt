-- ===== src/Array/Tests.antt =====
-- A concrete allocator of ranges, an array of three values over it, and the theorems applied to it.
use extpp.Prelude.{
  some, bad_argument, ℕ, ◌+◌, ◌-◌, ◌≡◌, ◌<◌, ◌≤◌, ◌⊎◌, refl, sym, ◌∙◌, ap, true, ◌&&◌, Result, ok,
  err, inr, if◌then◌else◌, ltb, leb, ◌==◌, [], ◌∷◌, arith,
}
use extpp.Extent.{RangeAllocator, Slots, reallocate, allocate}
use extpp.Array.{Array, linear, get, set, push_back, reserve, resize, capacity, new_size}
use extpp.Array.Valid.{IsValid, Written, set-get}
use extpp.Array.Push.{push_back-get}
use extpp.Array.Size.{reserve-get}
use extpp.Array.Resize.{resize-get}
use extpp.Math.{ceil_div}

-- Ranges are handed out one behind the other.
abbrev move : (ℕ → Slots) → ℕ → ℕ → ℕ → ℕ → Slots
move blocks i i' size k = if leb i' k && ltb k (i' + size) then blocks (i + (k - i')) else blocks k

move_at :
    (blocks : ℕ → Slots) (i i' size k : ℕ)
    → k < size
    → move blocks i i' size (i' + k) ≡ blocks (i + k)
move_at blocks i i' size k inside =
    let below : leb i' (i' + k) ≡ true = ground arith in
    let above : ltb (i' + k) (i' + size) ≡ true = ground arith in
    let back : i' + k - i' ≡ k = omega arith in rw (below, above, back) refl

abbrev block_of : Result (ℕ × (ℕ → Slots) × ℕ) → ℕ → Slots
block_of (err e) k = λ s. []
block_of (ok p) k = p.1 (p.0 + k)

move-kept :
    (a a' : ℕ) (blocks blocks' : ℕ → Slots) (i i' size new_size k : ℕ)
    → ◌≡◌ {A = Result (ℕ × (ℕ → Slots) × ℕ)}
        (ok (a, move blocks i a size, a + new_size))
        (ok (i', blocks', a'))
    → k < size
    → k < new_size
    → blocks' (i' + k) ≡ blocks (i + k)
move-kept a a' blocks blocks' i i' size new_size k moved inside inside' =
    sym (ap (λ r. block_of r k) moved) ∙ move_at blocks i a size k inside

abbrev ranges : RangeAllocator
ranges = record {
  State = ℕ;
  do_allocate = λ a n. ok (a, a + n);
  do_reallocate = λ a blocks i size n. ok (a, move blocks i a size, a + n);
  do_free = λ a i n. ok a;
  kept = move-kept;
}

-- Three values of one byte, two to a block, in blocks 5 and 6; the next value begins a block.
abbrev stored : ℕ → Slots
stored k s = (if k == 5 then 10 + s else 20 + s) ∷ []

abbrev of_size : ℕ → Array ranges
of_size n = record {
  extent = record { start = 5; size = 2; blocks = stored; space = 7 };
  size = n;
  value_size = 1;
  block_capacity = 2;
  growth = linear 1;
}

of_size-IsValid : (n : ℕ) → n ≤ 4 → IsValid ranges (of_size n)
of_size-IsValid n small = record {
  room = omega arith;
  fits = omega arith;
  placed = inr (omega arith, omega arith);
}

set-get_example :
    ((3 ≤ 2) × (set ranges 2 (99 ∷ []) (of_size 3) ≡ err bad_argument))
    ⊎ ((2 < 3) × Written ranges (of_size 3) 2 (99 ∷ []) (set ranges 2 (99 ∷ []) (of_size 3)))
set-get_example = set-get ranges (of_size 3) 2 (99 ∷ []) (of_size-IsValid 3 (omega arith))

push_back-get_example :
    (a' : Array ranges) × (push_back ranges (99 ∷ []) (of_size 4) ≡ ok a')
    × IsValid ranges a'
    × (a'.size ≡ 5)
    × ((i : ℕ) → get ranges i a' ≡ (if i == 4 then ok (99 ∷ []) else get ranges i (of_size 4)))
unfolding new_size ceil_div reallocate allocate
push_back-get_example =
    push_back-get ranges (99 ∷ []) (of_size 4) 7 (move stored 5 7 2) 10
      (of_size-IsValid 4 (omega arith)) (omega arith, omega arith) refl

reserve-get_example :
    (a' : Array ranges) × (reserve ranges 7 (of_size 3) ≡ ok a')
    × IsValid ranges a'
    × (7 ≤ capacity ranges a')
    × (a'.size ≡ 3)
    × (a'.block_capacity ≡ 2)
    × ((i : ℕ) → get ranges i a' ≡ get ranges i (of_size 3))
unfolding new_size ceil_div reallocate allocate
reserve-get_example =
    reserve-get ranges 7 (of_size 3) 7 (move stored 5 7 2) 11 (of_size-IsValid 3 (omega arith))
      (omega arith) (omega arith, omega arith) refl

resize-get_example :
    (a' : Array ranges) × (resize ranges 7 (some (99 ∷ [])) (of_size 3) ≡ ok a')
    × IsValid ranges a'
    × ((i : ℕ)
        → get ranges i a' ≡ (
            if ltb i 7
            then if ltb i 3 then get ranges i (of_size 3) else ok (99 ∷ [])
            else err bad_argument))
unfolding new_size ceil_div reallocate allocate
resize-get_example =
    resize-get ranges 7 (some (99 ∷ [])) (of_size 3) 7 (move stored 5 7 2) 11
      (of_size-IsValid 3 (omega arith)) (omega arith) (omega arith, omega arith) refl
