-- ===== src/Stack/Pop/Outcome.antt =====
-- What a pop gives (raw_stack_impl::pop of src/container/stack.cpp).
use extpp.Prelude.{
  ℕ, zero, suc, ◌+◌, ◌-◌, ◌≤◌, ◌<◌, ◌≡◌, ◌≢◌, refl, sym, ap, ◌∙◌, Bool, true, false, List, [], ◌∷◌,
  ◌++◌, if◌then◌else◌, ◌==◌, length, set, replicate, arith, Bool-cases, inl, inr, length-replicate,
  length-append, ok, err, Result, ◌⊎◌, leb, Error, bad_operation, not, guard,
}
use extpp.Prelude
use extpp.Allocator.{Allocator}
use extpp.Stack.{Value, Stack, pop}
use extpp.Stack.Chain.{contents, node_items, length-items}
use extpp.Stack.Valid.{IsValid}
use extpp.Stack.Push.{Gives}
use extpp.Stack.Pop.{rest}
use extpp.Stack.Pop.Kept.{pop-single, pop-topmost, pop-second}
use extpp.Stack.Pop.Dropped.{pop-last_two, pop-second_last}

module _ (alloc : Allocator) where
  -- What a pop from a stack that holds the values is to give.
  abbrev pub Popped : Result (Stack alloc) → List Value → Type 0
  Popped r [] = r ≡ err bad_operation
  Popped r (x ∷ xs) = Gives alloc r xs

  Popped-rest :
      (r : Result (Stack alloc)) (xs : List Value)
      → 0 < length xs
      → Gives alloc r (rest xs)
      → Popped r xs
  Popped-rest r [] some_there g = absurd (omega (arith, some_there))
  Popped-rest r (x ∷ xs) some_there g = g

  pop-second_empties :
      (s : Stack alloc) (k l : ℕ) (ks : List ℕ)
      → IsValid alloc s (k ∷ l ∷ ks)
      → (s.blocks k).size ≡ 0
      → (s.blocks l).size ≡ 1
      → 0 < s.size
      → Gives alloc (pop alloc s) (rest (contents s.blocks (k ∷ l ∷ ks)))
  pop-second_empties s k l [] = pop-last_two alloc s k l
  pop-second_empties s k l (p ∷ ks) = pop-second_last alloc s k l p ks

  pop-several :
      (s : Stack alloc) (k l : ℕ) (ks : List ℕ)
      → IsValid alloc s (k ∷ l ∷ ks)
      → 0 < s.size
      → Gives alloc (pop alloc s) (rest (contents s.blocks (k ∷ l ∷ ks)))
  pop-several s k l ks v used = elim (Bool-cases ((s.blocks k).size == 0)) [
    | inr some_there ↦ pop-topmost alloc s k l ks v (ground arith)
    | inl none_there ↦
        let none : (s.blocks k).size ≡ 0 = (Prelude.==_iff (s.blocks k).size 0).0 none_there in
        elim (Bool-cases ((s.blocks l).size == 1)) [
          | inr more ↦ pop-second alloc s k l ks v none (ground (arith, v.shape.0)) used
          | inl last ↦
              pop-second_empties s k l ks v none ((Prelude.==_iff (s.blocks l).size 1).0 last) used
        ]
  ]

  -- Popping from a valid stack takes the topmost value and leaves a valid stack with the others; a
  -- stack without values refuses with `bad_operation`.
  pub pop-Popped :
      (s : Stack alloc) (ks : List ℕ)
      → IsValid alloc s ks
      → Popped (pop alloc s) (contents s.blocks ks)
  unfolding pop contents
  pop-Popped s [] v = rw v.total refl
  pop-Popped s (k ∷ []) v =
      Popped-rest (pop alloc s) (contents s.blocks (k ∷ []))
        (omega (
          arith,
          v.shape,
          length-append (node_items (s.blocks k)) [],
          length-items (s.blocks k).slots (s.blocks k).size,
        ))
        (pop-single alloc s k v)
  pop-Popped s (k ∷ l ∷ ks) v =
      let o = s.blocks l in
      let used : 0 < length (contents s.blocks (k ∷ l ∷ ks)) = omega (
        arith,
        v.shape.0,
        length-append (node_items (s.blocks k)) (node_items o ++ contents s.blocks ks),
        length-append (node_items o) (contents s.blocks ks),
        length-items o.slots o.size,
      ) in
      Popped-rest (pop alloc s) (contents s.blocks (k ∷ l ∷ ks)) used
        (pop-several s k l ks v (omega (arith, v.total, used)))
