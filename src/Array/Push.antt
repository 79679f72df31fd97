-- ===== src/Array/Push.antt =====
-- Appending a value to an array (raw_array_impl::push_back of src/container/array.cpp), with the
-- growth of its extent.
use native.Mathlib.Nat.{div-add-mod, div-lt_iff_lt-mul, div-le_of_le-mul, mul-le-mul_right}
use extpp.Prelude.{
  ℕ, zero, suc, ◌+◌, ◌-◌, ◌*◌, ◌/◌, ◌%◌, ◌^◌, ◌≡◌, ◌≢◌, ◌<◌, ◌≤◌, ◌⊎◌, inl, inr, refl, sym, ap, ◌∙◌,
  Bool, true, false, not, ◌&&◌, Result, ok, err, bad_argument, guard, if◌then◌else◌, ltb, leb, ◌==◌,
  List, arith, Bool-cases, replicate,
}
use extpp.Prelude
use extpp.Math.{round_towards_pow2-enough, ceil_div-enough}
use extpp.Extent.{RangeAllocator, Slots, reallocate, resize}
use extpp.Extent.Moved.{reallocate-Moved}
use extpp.Array.{
  Value, Array, Growth, linear, exponential, new_size, get, put, set_block, writable, resize_extent,
  push_back, blocks,
}
use extpp.Array.Valid.{IsValid, value_of, address, get-value_of, put-at, put-other}

-- The sizes for which no 64-bit number wraps around.
abbrev pub Sizes : Growth → ℕ → Type 0
Sizes (linear chunk_size) minimum = (0 < chunk_size) × (minimum + chunk_size ≤ 2 ^ 64)
Sizes exponential minimum = minimum ≤ 2 ^ 63

pub new_size-enough :
    (g : Growth) (minimum : ℕ) → 0 < minimum → Sizes g minimum → minimum ≤ new_size g minimum
unfolding new_size
new_size-enough (linear c) minimum some fits = ceil_div-enough minimum c fits.0 fits.1
new_size-enough exponential minimum some fits = round_towards_pow2-enough minimum some fits

-- Values before the start of a block lie in blocks before it.
before_block : (c i n : ℕ) → i < n → n % c ≡ 0 → i / c ≢ n / c
before_block c i n h start same =
    let place = div-add-mod n c in
    let here = div-add-mod i c in
    let equal : c * (i / c) ≡ c * (n / c) = ap (λ k. c * k) same in
    omega (arith, place, here, equal)

module _ (alloc : RangeAllocator) where
  -- The array with the value behind the others, where there is room for it.
  abbrev appended : Value → Array alloc → Array alloc
  appended value a =
      let i = a.extent.start + a.size / a.block_capacity in
      let offset = a.size % a.block_capacity in
      record (set_block alloc i (put offset 1 value (writable alloc a i offset)) a) {
        size = a.size + 1;
      }

  appended-get :
      (value : Value) (a : Array alloc)
      → IsValid alloc a
      → a.size < a.extent.size * a.block_capacity
      → IsValid alloc (appended value a)
        × ((i : ℕ)
            → get alloc i (appended value a) ≡ (if i == a.size then ok value else get alloc i a))
  unfolding set_block writable
  appended-get value a v free =
      let c = a.block_capacity in
      let n = a.size in
      let old = a.extent.blocks (a.extent.start + n / c) in
      let block = writable alloc a (a.extent.start + n / c) (n % c) in
      let v' : IsValid alloc (appended value a) = record {
        room = v.room;
        fits = omega (arith, free);
        placed = v.placed;
      } in
      let held : (i : ℕ) → i < n → i / c ≡ n / c → block ≡ old = λ i h same.
        elim (Bool-cases (n % c == 0)) [
          | inl start ↦ absurd (before_block c i n h ((Prelude.==_iff (n % c) 0).0 start) same)
          | inr within ↦ rw within refl
        ] in
      (
        v',
        λ i. get-value_of alloc (appended value a) i v' ∙ (elim (Bool-cases (i == n)) [
          | inl same ↦
              let e : i ≡ n = (Prelude.==_iff i n).0 same in
              let below : ltb n (n + 1) ≡ true = ground arith in
              rw (same, e, below)
                (ap (λ x. ok x) (put-at c n a.extent.start value block a.extent.blocks))
          | inr other ↦ rw other (elim (Bool-cases (ltb i n)) [
            | inl inside ↦
                let below : ltb i (n + 1) ≡ true = ground arith in
                rw below (
                  ap (λ x. ok x)
                    (put-other c i n a.extent.start value block a.extent.blocks (ground arith)
                      (held i (ground arith)))
                  ∙ sym (get-value_of alloc a i v ∙ rw inside refl))
            | inr outside ↦
                let above : ltb i (n + 1) ≡ false = ground arith in
                rw above (sym (get-value_of alloc a i v ∙ rw outside refl))
          ])
        ]),
      )

  -- The extent has moved and grown.
  abbrev pub grown : Array alloc → ℕ → (ℕ → Slots) → alloc.State → ℕ → Array alloc
  grown a start blocks space size = record a {
    extent = record { start = start; size = size; blocks = blocks; space = space };
  }

  pub grown-get :
      (a : Array alloc) (start : ℕ) (blocks : ℕ → Slots) (space : alloc.State) (size : ℕ)
      → IsValid alloc a
      → a.extent.size < size
      → reallocate alloc a.extent.space a.extent.blocks a.extent.start a.extent.size size
        ≡ ok (start, blocks, space)
      → IsValid alloc (grown a start blocks space size)
        × ((i : ℕ) → get alloc i (grown a start blocks space size) ≡ get alloc i a)
  grown-get a start blocks space size v more moved =
      let c = a.block_capacity in
      let m =
        reallocate-Moved alloc a.extent.space space a.extent.blocks blocks a.extent.start start
          a.extent.size size v.placed (omega arith) moved in
      let wider : a.extent.size * c ≤ size * c = mul-le-mul_right c (omega arith) in
      let a' = grown a start blocks space size in
      let v' : IsValid alloc a' = record {
        room = v.room;
        fits = omega (arith, v.fits, wider);
        placed = inr (m.there, omega (arith, more));
      } in
      (
        v',
        λ i. get-value_of alloc a' i v' ∙ (elim (Bool-cases (ltb i a.size)) [
          | inl inside ↦
              let in_block : i / c < a.extent.size =
                (div-lt_iff_lt-mul v.room).1 (ground (arith, v.fits)) in
              let kept : blocks (start + i / c) (i % c) ≡ value_of alloc a i =
                ap (λ b. b (i % c)) (m.kept (i / c) in_block (omega arith)) in
              let there : get alloc i a ≡ ok (value_of alloc a i) =
                get-value_of alloc a i v ∙ rw inside refl in
              rw (inside, there) (ap (λ x. ok x) kept)
          | inr outside ↦ rw outside (sym (get-value_of alloc a i v ∙ rw outside refl))
        ]),
      )

  pub resize_extent-grown :
      (a : Array alloc) (start : ℕ) (blocks : ℕ → Slots) (space : alloc.State) (minimum : ℕ)
      → a.extent.size < new_size a.growth minimum
      → reallocate alloc a.extent.space a.extent.blocks a.extent.start a.extent.size
          (new_size a.growth minimum)
        ≡ ok (start, blocks, space)
      → resize_extent alloc minimum false a
        ≡ ok (grown a start blocks space (new_size a.growth minimum))
  unfolding resize_extent resize
  resize_extent-grown a start blocks space minimum more moved =
      let differ : (new_size a.growth minimum == a.extent.size) ≡ false = ground (arith, more) in
      rw (differ, moved) refl

  -- Where the last block has room, the value is written into it.
  push_back-fits :
      (value : Value) (a : Array alloc)
      → IsValid alloc a
      → a.size / a.block_capacity < a.extent.size
      → push_back alloc value a ≡ ok (appended value a)
  unfolding push_back
  push_back-fits value a v room =
      let c = a.block_capacity in
      let free : a.size < a.extent.size * c = (div-lt_iff_lt-mul v.room).0 room in
      let no_growth : (a.size / c == a.extent.size) ≡ false = ground arith in
      let enough : leb (a.size + 1) (a.extent.size * c) ≡ true = ground arith in
      rw (no_growth, address alloc a a.size v free, set_block, enough) refl

  -- Appending a value keeps the others and puts the value behind them, where the allocator has a
  -- range of the size that the growth strategy asks for, and that size fits 64 bits.
  pub push_back-get :
      (value : Value) (a : Array alloc) (start : ℕ) (blocks : ℕ → Slots) (space : alloc.State)
      → IsValid alloc a
      → Sizes a.growth (a.extent.size + 1)
      → reallocate alloc a.extent.space a.extent.blocks a.extent.start a.extent.size
          (new_size a.growth (a.extent.size + 1))
        ≡ ok (start, blocks, space)
      → (a' : Array alloc) × (push_back alloc value a ≡ ok a')
        × IsValid alloc a'
        × (a'.size ≡ a.size + 1)
        × ((i : ℕ) → get alloc i a' ≡ (if i == a.size then ok value else get alloc i a))
  unfolding push_back
  push_back-get value a start blocks space v sizes moved =
      let c = a.block_capacity in
      let blocks_needed : a.size / c ≤ a.extent.size = div-le_of_le-mul c (omega (arith, v.fits)) in
      elim (Bool-cases (a.size / c == a.extent.size)) [
        | inr room ↦
            let inside : a.size / c < a.extent.size = ground arith in
            let rest = appended-get value a v ((div-lt_iff_lt-mul v.room).0 inside) in
            (appended value a, push_back-fits value a v inside, rest.0, refl, rest.1)
        | inl full ↦
            let size = new_size a.growth (a.extent.size + 1) in
            let more : a.extent.size + 1 ≤ size =
              new_size-enough a.growth (a.extent.size + 1) (omega arith) sizes in
            let a₁ = grown a start blocks space size in
            let more' = grown-get a start blocks space size v (omega (arith, more)) moved in
            let inside : a.size / c < size = ground (arith, more) in
            let rest = appended-get value a₁ more'.0 ((div-lt_iff_lt-mul v.room).0 inside) in
            let free : a.size < size * c = (div-lt_iff_lt-mul v.room).0 inside in
            let resized =
              resize_extent-grown a start blocks space (a.extent.size + 1) (omega (arith, more))
                moved in
            let enough : leb (a.size + 1) (size * c) ≡ true = ground (arith, free) in
            (
              appended value a₁,
              rw (full, resized, address alloc a₁ a.size more'.0 free, set_block, enough) refl,
              rest.0,
              refl,
              λ i. rest.1 i ∙ ap (λ r. if i == a.size then ok value else r) (more'.1 i),
            )
      ]
