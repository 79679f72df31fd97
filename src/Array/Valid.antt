-- ===== src/Array/Valid.antt =====
-- The invariant of an array (src/container/array.cpp), and what its slots hold: where a value lies,
-- and what reading and writing it does.
use native.Mathlib.Nat.{div-add-mod, div-lt_iff_lt-mul}
use extpp.Prelude.{
  ℕ, zero, suc, ◌+◌, ◌-◌, ◌*◌, ◌/◌, ◌%◌, ◌≡◌, ◌≢◌, ◌<◌, ◌≤◌, ◌⊎◌, inl, inr, refl, sym, ap, ◌∙◌,
  Bool, true, false, not, ◌&&◌, Result, ok, err, bad_argument, guard, if◌then◌else◌, ltb, leb, ◌==◌,
  List, arith, Bool-cases,
}
use extpp.Prelude
use extpp.Extent.{RangeAllocator, Extent, Slots}
use extpp.Extent.Moved.{Placed}
use extpp.Extent
use extpp.Array.{Value, Array, get, set, put, update, set_block, check_index}

-- Two indices of values that share block and slot are the same.
same_place : (c i j : ℕ) → i / c ≡ j / c → i % c ≡ j % c → i ≡ j
same_place c i j blocks slots = sym (div-add-mod i c) ∙ rw (blocks, slots) (div-add-mod j c)

put-here : (offset : ℕ) (value : Value) (block : Slots) → put offset 1 value block offset ≡ value
unfolding put
put-here offset value block =
    let below : leb offset offset ≡ true = ground arith in
    let above : ltb offset (offset + 1) ≡ true = ground arith in rw (below, above) refl

put-elsewhere :
    (offset s : ℕ) (value : Value) (block : Slots)
    → offset ≢ s
    → put offset 1 value block s ≡ block s
unfolding put
put-elsewhere offset s value block h =
    let test : (leb offset s && ltb s (offset + 1)) ≡ false = ground arith in rw test refl

-- The value at `j` is written, whatever its block held before.
pub put-at :
    (c j start : ℕ) (value : Value) (block : Slots) (blocks : ℕ → Slots)
    → update blocks (start + j / c) (put (j % c) 1 value block) (start + j / c) (j % c) ≡ value
put-at c j start value block blocks =
    rw (Prelude.==_self (start + j / c)) (put-here (j % c) value block)

-- Another value stays, where its block keeps what it held or is another block.
pub put-other :
    (c i j start : ℕ) (value : Value) (block : Slots) (blocks : ℕ → Slots)
    → i ≢ j
    → (i / c ≡ j / c → block ≡ blocks (start + j / c))
    → update blocks (start + j / c) (put (j % c) 1 value block) (start + i / c) (i % c)
      ≡ blocks (start + i / c) (i % c)
put-other c i j start value block blocks differ held =
    elim (Bool-cases (start + j / c == start + i / c)) [
      | inr other ↦ rw other refl
      | inl here ↦
          let same : i / c ≡ j / c = ground arith in
          let apart : j % c ≢ i % c = λ slots. differ (same_place c i j same (sym slots)) in
          rw here (
            put-elsewhere (j % c) (i % c) value block apart
            ∙ rw (held same) (ap (λ k. blocks (start + k) (i % c)) (sym same)))
    ]

module _ (alloc : RangeAllocator) where
  pub record IsValid (a : Array alloc) : Type 0 where
    pub room : 0 < a.block_capacity
    pub fits : a.size ≤ a.extent.size * a.block_capacity
    pub placed : Placed a.extent.start a.extent.size

  abbrev pub value_of : Array alloc → ℕ → Value
  value_of a i = a.extent.blocks (a.extent.start + i / a.block_capacity) (i % a.block_capacity)

  pub address :
      (a : Array alloc) (i : ℕ)
      → IsValid a
      → i < a.extent.size * a.block_capacity
      → Extent.get alloc a.extent (i / a.block_capacity)
        ≡ ok (a.extent.start + i / a.block_capacity)
  unfolding Extent.get
  address a i v h =
      let inside : i / a.block_capacity < a.extent.size = (div-lt_iff_lt-mul v.room).1 h in
      elim v.placed [
        | inl nowhere ↦ absurd (omega (arith, nowhere.1, inside))
        | inr somewhere ↦ ground (arith, somewhere.0)
      ]

  -- Reading gives the value at the index, and refuses an index behind the last value.
  pub get-value_of :
      (a : Array alloc) (i : ℕ)
      → IsValid a
      → get alloc i a ≡ (if ltb i a.size then ok (value_of a i) else err bad_argument)
  unfolding get check_index
  get-value_of a i v = elim (Bool-cases (ltb i a.size)) [
    | inl inside ↦ rw (inside, address a i v (ground (arith, v.fits))) refl
    | inr outside ↦ rw outside refl
  ]

  -- An array in which the value at an index has been set, and nothing else.
  abbrev pub Written : Array alloc → ℕ → Value → Result (Array alloc) → Type 0
  Written a j value r =
      (a' : Array alloc) × (r ≡ ok a')
      × IsValid a'
      × ((i : ℕ) → get alloc i a' ≡ (if i == j then ok value else get alloc i a))

  set_inside :
      (a : Array alloc) (j : ℕ) (value : Value)
      → IsValid a
      → j < a.size
      → Written a j value (set alloc j value a)
  unfolding set check_index set_block
  set_inside a j value v inside =
      let c = a.block_capacity in
      let i' = a.extent.start + j / c in
      let a' = set_block alloc i' (put (j % c) 1 value (a.extent.blocks i')) a in
      let v' : IsValid a' = record { room = v.room; fits = v.fits; placed = v.placed } in
      let there : ltb j a.size ≡ true = ground arith in
      (
        a',
        rw (there, address a j v (omega (arith, v.fits))) refl,
        v',
        λ i. get-value_of a' i v' ∙ (elim (Bool-cases (i == j)) [
          | inl same ↦
              let e : i ≡ j = (Prelude.==_iff i j).0 same in
              rw (same, e, there)
                (ap (λ x. ok x)
                  (put-at c j a.extent.start value (a.extent.blocks i') a.extent.blocks))
          | inr other ↦
              let differ : i ≢ j = ground arith in
              rw other (
                ap (λ x. if ltb i a.size then ok x else err bad_argument)
                  (put-other c i j a.extent.start value (a.extent.blocks i') a.extent.blocks differ
                    (λ same. refl))
                ∙ sym (get-value_of a i v))
        ]),
      )

  set_outside :
      (a : Array alloc) (j : ℕ) (value : Value)
      → ltb j a.size ≡ false
      → set alloc j value a ≡ err bad_argument
  unfolding set check_index
  set_outside a j value outside = rw outside refl

  -- Setting a value below the array's size changes what is read at its index, and nothing else, and
  -- the array stays valid; setting one at an index behind the last value is refused.
  pub set-get :
      (a : Array alloc) (j : ℕ) (value : Value)
      → IsValid a
      → ((a.size ≤ j) × (set alloc j value a ≡ err bad_argument))
        ⊎ ((j < a.size) × Written a j value (set alloc j value a))
  set-get a j value v = elim (Bool-cases (ltb j a.size)) [
    | inl inside ↦
        let low : j < a.size = ground (arith, inside) in inr (low, set_inside a j value v low)
    | inr outside ↦ inl (ground (arith, outside), set_outside a j value outside)
  ]
