-- ===== src/Array/Resize.antt =====
-- Resizing an array (raw_array_impl::resize of src/container/array.cpp).
use native.Mathlib.Nat.{lt_of_mul-lt-mul_right, div-add-mod, mod-lt, mul-le-mul_right}
use extpp.Prelude.{
  ℕ, zero, suc, ◌+◌, ◌-◌, ◌*◌, ◌/◌, ◌%◌, ◌^◌, ◌≡◌, ◌<◌, ◌≤◌, refl, ap, subst, ◌∙◌, true, false, ok,
  err, bad_argument, min, Option, if◌then◌else◌, ltb, ◌==◌, arith, Bool-cases, inl, inr,
}
use extpp.Math.{ceil_div}
use extpp.Extent.{RangeAllocator, Slots, reallocate}
use extpp.Array.{Value, Array, fill, set_block, new_size, get, resize, reserve, new_value}
use extpp.Array.Valid.{IsValid, value_of, get-value_of}
use extpp.Array.Push.{Sizes}
use extpp.Array.Size.{reserve-get, shorter, shorter-get}
use extpp.Array.Fill.{
  with_blocks, Filled, with_blocks-IsValid, block-address, after_round, round-Filled, Filled-Filled,
}

module _ (alloc : RangeAllocator) where
  -- The next round starts at a block, where the last one has ended unless it was the last.
  next_round :
      (a : Array alloc) (blocks : ℕ → Slots) (b o r : ℕ) (v : Value)
      → o < a.block_capacity
      → Filled alloc a blocks
          (a.block_capacity * (b + 1) + 0)
          (suc r - min (suc r) (a.block_capacity - o))
          v
      → Filled alloc a blocks
          (a.block_capacity * b + o + min (suc r) (a.block_capacity - o))
          (suc r - min (suc r) (a.block_capacity - o))
          v
  next_round a blocks b o r v slot f = record {
    before = λ i h. f.before i (omega arith);
    here = λ i h h'. f.here i (omega arith) (omega arith);
  }

  fill-Filled :
      (rounds remaining b o : ℕ) (v : Value) (a : Array alloc)
      → IsValid alloc a
      → o < a.block_capacity
      → remaining ≤ rounds
      → a.block_capacity * b + o + remaining ≤ a.extent.size * a.block_capacity
      → (blocks : ℕ → Slots) × (fill alloc rounds remaining b o v a
          ≡ ok (with_blocks alloc a blocks))
        × Filled alloc a blocks (a.block_capacity * b + o) remaining v
  unfolding fill
  fill-Filled rounds zero b o v a valid slot enough fits = (
    a.extent.blocks,
    refl,
    record { before = λ i h. refl; here = λ i h h'. absurd (omega arith) },
  )
  fill-Filled zero (suc r) b o v a valid slot enough fits = absurd (omega arith)
  fill-Filled (suc rounds) (suc r) b o v a valid slot enough fits =
      let c = a.block_capacity in
      let count = min (suc r) (c - o) in
      let inside : b < a.extent.size = lt_of_mul-lt-mul_right c (omega arith) in
      let wide : (b + 1) * c ≤ a.extent.size * c = mul-le-mul_right c (omega arith) in
      let blocks₁ = after_round alloc a b o count v in
      let a₁ = with_blocks alloc a blocks₁ in
      let rest =
        fill-Filled rounds (suc r - count) (b + 1) 0 v a₁
          (with_blocks-IsValid alloc a blocks₁ valid) valid.room (omega arith)
          (omega (arith, wide)) in
      let first = round-Filled alloc a b o count v valid slot (omega arith) in
      let next = next_round a₁ rest.0 b o r v slot rest.2 in
      let all : count + (suc r - count) ≡ suc r = omega arith in
      (
        rest.0,
        rw (block-address alloc a b valid inside, set_block) rest.1,
        subst (λ n. Filled alloc a rest.0 (c * b + o) n v) all
            (Filled-Filled alloc a blocks₁ rest.0 (c * b + o) count (suc r - count) v first next),
      )

  -- The array that the loop leaves, with its size.
  written_array-get :
      (n : ℕ) (v : Value) (a : Array alloc) (blocks : ℕ → Slots)
      → IsValid alloc a
      → a.size < n
      → n ≤ a.extent.size * a.block_capacity
      → Filled alloc a blocks a.size (n - a.size) v
      → IsValid alloc (shorter alloc (with_blocks alloc a blocks) n)
        × ((i : ℕ)
            → get alloc i (shorter alloc (with_blocks alloc a blocks) n) ≡ (
                if ltb i n then if ltb i a.size then get alloc i a else ok v else err bad_argument))
  written_array-get n v a blocks valid more room filled =
      let a' = shorter alloc (with_blocks alloc a blocks) n in
      let valid' : IsValid alloc a' = record {
        room = valid.room;
        fits = room;
        placed = valid.placed;
      } in
      (
        valid',
        λ i. get-value_of alloc a' i valid' ∙ (elim (Bool-cases (ltb i n)) [
          | inr outside ↦ rw outside refl
          | inl inside ↦ rw inside (elim (Bool-cases (ltb i a.size)) [
            | inl old ↦
                let there : get alloc i a ≡ ok (value_of alloc a i) =
                  get-value_of alloc a i valid ∙ rw old refl in
                rw (old, there) (ap (λ x. ok x) (filled.before i (ground arith)))
            | inr new ↦
                rw new (ap (λ x. ok x) (filled.here i (ground arith) (ground (arith, more))))
          ])
        ]),
      )

  -- Where the array grows.
  resize-grows :
      (n : ℕ) (value : Option Value) (a a₁ : Array alloc)
      → IsValid alloc a
      → a.size < n
      → reserve alloc n a ≡ ok a₁
      → IsValid alloc a₁
      → n ≤ a₁.extent.size * a₁.block_capacity
      → a₁.size ≡ a.size
      → a₁.block_capacity ≡ a.block_capacity
      → ((i : ℕ) → get alloc i a₁ ≡ get alloc i a)
      → (a' : Array alloc) × (resize alloc n value a ≡ ok a')
        × IsValid alloc a'
        × ((i : ℕ)
            → get alloc i a' ≡ (
                if ltb i n
                then if ltb i a.size then get alloc i a else ok (new_value value a.value_size)
                else err bad_argument))
  unfolding resize
  resize-grows n value a a₁ valid more reserved valid₁ room same_size same_capacity same =
      let c = a.block_capacity in
      let v = new_value value a.value_size in
      let place : a₁.block_capacity * (a.size / c) + a.size % c ≡ a.size =
        ap (λ k. k * (a.size / c) + a.size % c) same_capacity ∙ div-add-mod a.size c in
      let slot : a.size % c < a₁.block_capacity =
        omega (arith, mod-lt a.size valid.room, same_capacity) in
      let loop =
        fill-Filled (n - a.size) (n - a.size) (a.size / c) (a.size % c) v a₁ valid₁ slot
          (omega arith) (omega (arith, place, room)) in
      let filled : Filled alloc a₁ loop.0 a₁.size (n - a₁.size) v = record {
        before = λ i h. loop.2.before i (omega (arith, h, place, same_size));
        here = λ i h h'.
            loop.2.here i (omega (arith, h, place, same_size))
              (omega (arith, h', place, same_size, more));
      } in
      let other : (n == a.size) ≡ false = ground (arith, more) in
      let longer : ltb n a.size ≡ false = ground (arith, more) in
      let end =
        written_array-get n v a₁ loop.0 valid₁ (omega (arith, more, same_size)) room filled in
      (
        shorter alloc (with_blocks alloc a₁ loop.0) n,
        rw (other, longer, reserved, loop.1) refl,
        end.0,
        λ i. end.1 i ∙ rw (same i, same_size) refl,
      )

  -- Where it does not, the allocator is not asked.
  resize-shrinks :
      (n : ℕ) (value : Option Value) (a : Array alloc)
      → IsValid alloc a
      → n ≤ a.size
      → (a' : Array alloc) × (resize alloc n value a ≡ ok a')
        × IsValid alloc a'
        × ((i : ℕ)
            → get alloc i a' ≡ (
                if ltb i n
                then if ltb i a.size then get alloc i a else ok (new_value value a.value_size)
                else err bad_argument))
  unfolding resize
  resize-shrinks n value a valid less =
      let kept = shorter-get alloc a n valid less in
      let is_shorter : resize alloc n value a ≡ ok (shorter alloc a n) =
        elim (Bool-cases (n == a.size)) [
          | inl same ↦
              let e : a.size ≡ n = ground arith in rw same (ap (λ m. ok (record a { size = m })) e)
          | inr other ↦
              let fewer : ltb n a.size ≡ true = ground (arith, less) in rw (other, fewer) refl
        ] in
      let below : (i : ℕ)
          → (if ltb i n then get alloc i a else err bad_argument) ≡ (
              if ltb i n
              then if ltb i a.size then get alloc i a else ok (new_value value a.value_size)
              else err bad_argument) =
        λ i. elim (Bool-cases (ltb i n)) [
          | inl inside ↦
              let old : ltb i a.size ≡ true = ground (arith, less) in rw (inside, old) refl
          | inr outside ↦ rw outside refl
        ] in
      (shorter alloc a n, is_shorter, kept.0, λ i. kept.1 i ∙ below i)

  -- Resizing leaves a valid array, keeps the values below both sizes, gives the new places the
  -- value, or zeros, and refuses indices from `n` on, where the allocator has a range of the size
  -- that the growth strategy asks for and the sizes fit 64 bits.
  pub resize-get :
      (n : ℕ) (value : Option Value) (a : Array alloc) (start : ℕ) (blocks : ℕ → Slots)
      (space : alloc.State)
      → IsValid alloc a
      → n + a.block_capacity ≤ 2 ^ 64
      → Sizes a.growth (ceil_div n a.block_capacity)
      → reallocate alloc a.extent.space a.extent.blocks a.extent.start a.extent.size
          (new_size a.growth (ceil_div n a.block_capacity))
        ≡ ok (start, blocks, space)
      → (a' : Array alloc) × (resize alloc n value a ≡ ok a')
        × IsValid alloc a'
        × ((i : ℕ)
            → get alloc i a' ≡ (
                if ltb i n
                then if ltb i a.size then get alloc i a else ok (new_value value a.value_size)
                else err bad_argument))
  unfolding resize
  resize-get n value a start blocks space valid small sizes moved =
      elim (Bool-cases (ltb a.size n)) [
        | inl more ↦
            let r = reserve-get alloc n a start blocks space valid small sizes moved in
            resize-grows n value a r.0 valid (ground arith) r.1 r.2 r.3 r.4 r.5 r.6
        | inr less ↦ resize-shrinks n value a valid (ground arith)
      ]
