-- ===== src/Array/Size.antt =====
-- Operations on the size of an array (src/container/array.cpp): pop_back, reserve and reset.
use extpp.Prelude.{
  ℕ, zero, suc, ◌+◌, ◌-◌, ◌*◌, ◌^◌, ◌≡◌, ◌<◌, ◌≤◌, refl, ◌∙◌, true, false, Result, ok, err,
  bad_argument, bad_operation, inl, inr, if◌then◌else◌, ltb, leb, ◌==◌, arith, Bool-cases,
}
use extpp.Math.{ceil_div, ceil_div-enough}
use native.Mathlib.Nat.{mul-le-mul_right}
use extpp.Extent.{RangeAllocator, Slots, reallocate}
use extpp.Array.{Array, new_size, get, reserve, pop_back, blocks, capacity}
use extpp.Array.Valid.{IsValid, value_of, get-value_of}
use extpp.Array.Push.{Sizes, new_size-enough, grown, grown-get, resize_extent-grown}

module _ (alloc : RangeAllocator) where
  abbrev pub shorter : Array alloc → ℕ → Array alloc
  shorter a n = record a { size = n }

  -- With fewer values, those that are left are as they were, and the others are refused.
  pub shorter-get :
      (a : Array alloc) (n : ℕ)
      → IsValid alloc a
      → n ≤ a.size
      → IsValid alloc (shorter a n)
        × ((i : ℕ)
            → get alloc i (shorter a n) ≡ (if ltb i n then get alloc i a else err bad_argument))
  shorter-get a n v less =
      let v' : IsValid alloc (shorter a n) = record {
        room = v.room;
        fits = omega (arith, v.fits);
        placed = v.placed;
      } in
      (
        v',
        λ i. get-value_of alloc (shorter a n) i v' ∙ (elim (Bool-cases (ltb i n)) [
          | inl inside ↦
              let before : ltb i a.size ≡ true = ground (arith, less) in
              let there : get alloc i a ≡ ok (value_of alloc a i) =
                get-value_of alloc a i v ∙ rw before refl in
              rw (inside, there) refl
          | inr outside ↦ rw outside refl
        ]),
      )

  -- What removing the last value is to give, by the number of values.
  abbrev pub Popped : Array alloc → Result (Array alloc) → ℕ → Type 0
  Popped a r zero = r ≡ err bad_operation
  Popped a r (suc n) =
      (a' : Array alloc) × (r ≡ ok a')
      × IsValid alloc a'
      × ((i : ℕ) → get alloc i a' ≡ (if ltb i n then get alloc i a else err bad_argument))

  popped : (a : Array alloc) (n : ℕ) → IsValid alloc a → a.size ≡ n → Popped a (pop_back alloc a) n
  unfolding pop_back
  popped a zero v none = rw none refl
  popped a (suc n) v some =
      let rest = shorter-get a n v (omega (arith, some)) in
      let less : a.size - 1 ≡ n = omega (arith, some) in
      let used : (a.size == 0) ≡ false = ground (arith, some) in
      (shorter a n, rw (used, less) refl, rest.0, rest.1)

  -- Removing the last value leaves the others as they were, and refuses on an empty array.
  pub pop_back-Popped : (a : Array alloc) → IsValid alloc a → Popped a (pop_back alloc a) a.size
  pop_back-Popped a v = popped a a.size v refl

  -- Reserving room for `n` values leaves a valid array with that room, its size and all that is
  -- read, where the allocator has a range of the size that the growth strategy asks for and the
  -- sizes fit 64 bits.
  pub reserve-get :
      (n : ℕ) (a : Array alloc) (start : ℕ) (blocks : ℕ → Slots) (space : alloc.State)
      → IsValid alloc a
      → n + a.block_capacity ≤ 2 ^ 64
      → Sizes a.growth (ceil_div n a.block_capacity)
      → reallocate alloc a.extent.space a.extent.blocks a.extent.start a.extent.size
          (new_size a.growth (ceil_div n a.block_capacity))
        ≡ ok (start, blocks, space)
      → (a' : Array alloc) × (reserve alloc n a ≡ ok a')
        × IsValid alloc a'
        × (n ≤ capacity alloc a')
        × (a'.size ≡ a.size)
        × (a'.block_capacity ≡ a.block_capacity)
        × ((i : ℕ) → get alloc i a' ≡ get alloc i a)
  unfolding reserve
  reserve-get n a start blocks space v small sizes moved =
      let c = a.block_capacity in
      let needed = ceil_div n c in
      let enough : n ≤ needed * c = ceil_div-enough n c v.room small in
      elim (Bool-cases (ltb a.extent.size needed)) [
        | inr there ↦
            let wide : needed * c ≤ a.extent.size * c = mul-le-mul_right c (ground arith) in
            let ok_there : leb n (a.extent.size * c) ≡ true = ground (arith, wide, enough) in
            (a, rw (there, ok_there) refl, v, omega (arith, wide, enough), refl, refl, λ i. refl)
        | inl missing ↦
            let size = new_size a.growth needed in
            let large : needed ≤ size = new_size-enough a.growth needed (ground arith) sizes in
            let more : a.extent.size < size = ground (arith, large) in
            let wide : needed * c ≤ size * c = mul-le-mul_right c large in
            let ok_there : leb n (size * c) ≡ true = ground (arith, wide, enough) in
            let rest = grown-get alloc a start blocks space size v more moved in
            (
              grown alloc a start blocks space size,
              rw
                  (
                    missing,
                    resize_extent-grown alloc a start blocks space needed more moved,
                    ok_there,
                  )
                  refl,
              rest.0,
              omega (arith, wide, enough),
              refl,
              refl,
              rest.1,
            )
      ]
