-- ===== src/Array/Fill.antt =====
-- The loop of raw_array_impl::resize (src/container/array.cpp), which writes the new values block by
-- block.
use native.Mathlib.Nat.{div-add-mod, div-lt_iff_lt-mul, mul-le-mul_right, div-eq_of_lt-le}
use extpp.Prelude.{
  ℕ, ◌+◌, ◌-◌, ◌*◌, ◌/◌, ◌%◌, ◌≡◌, ◌≢◌, ◌<◌, ◌≤◌, ◌⊎◌, refl, sym, ap, ◌∙◌, true, false, ok, ltb,
  leb, ◌==◌, arith, Bool-cases, inl, inr,
}
use extpp.Extent.{RangeAllocator, Extent, Slots}
use extpp.Extent
use extpp.Array.{Value, Array, put, update, writable}
use extpp.Array.Valid.{IsValid, value_of, address}

-- The place of the value at `i`, by its block and slot, against those of another block.
module _ (c b o i : ℕ) (room : 0 < c) (slot : o ≤ c) where
  later : c * b + o ≤ i → i < c * b + c → (i / c ≡ b) × (o ≤ i % c) × (i % c ≡ i - c * b)
  later h h' =
      let same : i / c ≡ b = div-eq_of_lt-le {k = b} c (omega arith) (omega arith) in
      let place : c * b + i % c ≡ i = ap (λ k. c * k + i % c) (sym same) ∙ div-add-mod i c in
      (same, omega (arith, place), omega (arith, place))

  earlier : i < c * b + o → (i / c < b) ⊎ ((i / c ≡ b) × (i % c < o))
  earlier h = elim (Bool-cases (ltb (i / c) b)) [
    | inl before ↦ inl (ground arith)
    | inr same ↦
        let below : i / c < b + 1 = (div-lt_iff_lt-mul room).1 (omega arith) in
        let here : i / c ≡ b = ground arith in
        let place : c * b + i % c ≡ i = ap (λ k. c * k + i % c) (sym here) ∙ div-add-mod i c in
        inr (here, omega (arith, place))
  ]

module _ (c b o count i start : ℕ) (v : Value) (block : Slots) (blocks : ℕ → Slots) (room : 0 < c)
    (slot : o < c) where
  abbrev written : ℕ → Slots
  written = update blocks (start + b) (put o count v block)

  -- What lies before the first slot that is written stays.
  written-before :
      (o ≢ 0 → block ≡ blocks (start + b))
      → i < c * b + o
      → written (start + i / c) (i % c) ≡ blocks (start + i / c) (i % c)
  unfolding put
  written-before held h = elim (earlier c b o i room (omega arith) h) [
    | inl before ↦ let other : (start + b == start + i / c) ≡ false = ground arith in rw other refl
    | inr same ↦
        let here : (start + b == start + i / c) ≡ true = ground (arith, same.0) in
        let out : leb o (i % c) ≡ false = ground (arith, same.1) in
        rw (here, out, held (omega (arith, same.1)))
          (ap (λ k. blocks (start + k) (i % c)) (sym same.0))
  ]

  written-here :
      c * b + o ≤ i → i < c * b + o + count → o + count ≤ c → written (start + i / c) (i % c) ≡ v
  unfolding put
  written-here h h' fits =
      let place = later c b o i room (omega arith) h (omega arith) in
      let here : (start + b == start + i / c) ≡ true = ground (arith, place.0) in
      let low : leb o (i % c) ≡ true = ground (arith, place.1) in
      let high : ltb (i % c) (o + count) ≡ true = ground (arith, place.2) in
      rw (here, low, high) refl

module _ (alloc : RangeAllocator) where
  abbrev pub with_blocks : Array alloc → (ℕ → Slots) → Array alloc
  with_blocks a blocks = record a { extent = record a.extent { blocks = blocks } }

  -- The values from `first` on, `count` of them, are `v`, and those before are as they were.
  pub record Filled (a : Array alloc) (blocks : ℕ → Slots) (first count : ℕ) (v : Value)
      : Type 0 where
    pub before : (i : ℕ) → i < first → value_of alloc (with_blocks a blocks) i ≡ value_of alloc a i
    pub here : (i : ℕ) → first ≤ i → i < first + count → value_of alloc (with_blocks a blocks) i ≡ v

  pub with_blocks-IsValid :
      (a : Array alloc) (blocks : ℕ → Slots)
      → IsValid alloc a
      → IsValid alloc (with_blocks a blocks)
  with_blocks-IsValid a blocks valid = record {
    room = valid.room;
    fits = valid.fits;
    placed = valid.placed;
  }

  pub block-address :
      (a : Array alloc) (b : ℕ)
      → IsValid alloc a
      → b < a.extent.size
      → Extent.get alloc a.extent b ≡ ok (a.extent.start + b)
  block-address a b valid inside =
      let c = a.block_capacity in
      let room = valid.room in
      let wide : (b + 1) * c ≤ a.extent.size * c = mul-le-mul_right c (omega arith) in
      let place = later c b 0 (c * b) valid.room (omega arith) (omega arith) (omega arith) in
      ap (Extent.get alloc a.extent) (sym place.0)
      ∙ address alloc a (c * b) valid (omega (arith, wide, room))
      ∙ ap (λ k. ok (a.extent.start + k)) place.0

  -- One round of the loop.
  abbrev pub after_round : Array alloc → ℕ → ℕ → ℕ → Value → ℕ → Slots
  after_round a b o count v =
      update a.extent.blocks (a.extent.start + b)
        (put o count v (writable alloc a (a.extent.start + b) o))

  writable-held :
      (a : Array alloc) (b o : ℕ)
      → o ≢ 0
      → writable alloc a (a.extent.start + b) o ≡ a.extent.blocks (a.extent.start + b)
  unfolding writable
  writable-held a b o h = let within : (o == 0) ≡ false = ground arith in rw (writable, within) refl

  pub round-Filled :
      (a : Array alloc) (b o count : ℕ) (v : Value)
      → IsValid alloc a
      → o < a.block_capacity
      → o + count ≤ a.block_capacity
      → Filled a (after_round a b o count v) (a.block_capacity * b + o) count v
  round-Filled a b o count v valid slot fits =
      let block = writable alloc a (a.extent.start + b) o in
      record {
        before = λ i h.
            written-before a.block_capacity b o count i a.extent.start v block a.extent.blocks
              valid.room slot (writable-held a b o) h;
        here = λ i h h'.
            written-here a.block_capacity b o count i a.extent.start v block a.extent.blocks
              valid.room slot h h' fits;
      }

  -- A round, and the rest of the loop behind it.
  pub Filled-Filled :
      (a : Array alloc) (blocks₁ blocks₂ : ℕ → Slots) (first count rest : ℕ) (v : Value)
      → Filled a blocks₁ first count v
      → Filled (with_blocks a blocks₁) blocks₂ (first + count) rest v
      → Filled a blocks₂ first (count + rest) v
  Filled-Filled a blocks₁ blocks₂ first count rest v one two = record {
    before = λ i h. two.before i (omega arith) ∙ one.before i h;
    here = λ i h h'. elim (Bool-cases (ltb i (first + count))) [
      | inl now ↦ two.before i (ground arith) ∙ one.here i h (ground arith)
      | inr later ↦ two.here i (ground arith) (omega arith)
    ];
  }
