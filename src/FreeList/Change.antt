-- ===== src/FreeList/Change.antt =====
-- Blocks that go to a free list and come from it (push and pop of src/detail/free_list.cpp).
use extpp.Prelude.{
  ℕ, zero, suc, ◌+◌, ◌-◌, ◌≤◌, ◌<◌, ◌≡◌, ◌≢◌, ◌∙◌, refl, sym, ap, subst, Bool, true, false, not,
  List, [], ◌∷◌, ◌++◌, Option, none, some, Result, ok, err, bad_operation, if◌then◌else◌, ◌==◌,
  arith, Bool-cases, inl, inr,
}
use extpp.Prelude
use extpp.Engine.Blocks.{contains, Distinct}
use extpp.Allocator.{invalid}
use extpp.FreeList.{
  FreeList, Node, push, pop, push_front, push_into, push_node, pop_from, pop_node, set_size, init,
}
use extpp.FreeList.Chain.{
  Chain, finished, linked, last_first, last_first-push, set_node, Chain-apart,
  Distinct-append_right,
}

module _ (capacity : ℕ) where
  -- A node that is changed in place, at the head of the list.
  linked-set :
      (blocks : ℕ → Node) (h : ℕ) (n : Node) (rest xs : List ℕ)
      → n.size ≤ capacity
      → Chain capacity blocks n.next rest
      → contains h rest ≡ false
      → xs ≡ last_first n.values n.size ++ h ∷ rest
      → Chain capacity (set_node blocks h n) (some h) xs
  linked-set blocks h n rest xs small chain out e =
      let here : set_node blocks h n h ≡ n = rw (Prelude.==_self h) refl in
      let chain' = Chain-apart capacity blocks h n n.next rest chain out in
      linked h rest (subst (λ (m : Node). m.size ≤ capacity) (sym here) small)
        (subst (λ (m : Node). Chain capacity (set_node blocks h n) m.next rest) (sym here) chain')
        (subst (λ (m : Node). xs ≡ last_first m.values m.size ++ h ∷ rest) (sym here) e)

  push_front-Chain :
      (blocks : ℕ → Node) (head : Option ℕ) (b : ℕ) (xs : List ℕ)
      → Chain capacity blocks head xs
      → contains b xs ≡ false
      → Chain capacity (set_node blocks b (record init { next = head })) (some b) (b ∷ xs)
  unfolding last_first
  push_front-Chain blocks head b xs chain out =
      linked-set blocks b (record init { next = head }) xs (b ∷ xs) (omega arith) chain out refl

  -- The head of a list of distinct indices is not in its rest.
  head_apart : (h : ℕ) (vs rest : List ℕ) → Distinct (vs ++ h ∷ rest) → contains h rest ≡ false
  head_apart h vs rest d = (Distinct-append_right vs (h ∷ rest) d).0

  abbrev pub Pushed : ℕ → FreeList → List ℕ → Type 0
  Pushed b s xs =
      (s' : FreeList) × (push capacity b s ≡ ok s') × Chain capacity s'.blocks s'.head (b ∷ xs)

  push_at :
      (blocks : ℕ → Node) (head : Option ℕ) (b : ℕ) (xs : List ℕ)
      → Chain capacity blocks head xs
      → Distinct xs
      → contains b xs ≡ false
      → b ≢ invalid
      → Pushed b (record { head = head; blocks = blocks }) xs
  unfolding push push_front push_into push_node set_size
  push_at blocks head b xs finished d out valid = (
    record { head = some b; blocks = set_node blocks b (record init { next = none }) },
    ground (arith, valid),
    push_front-Chain blocks none b [] finished out,
  )
  push_at blocks head b xs (linked h rest small chain e) d out valid =
      let front = push_front-Chain blocks (some h) b xs (linked h rest small chain e) out in
      elim (Bool-cases ((blocks h).size == capacity)) [
        | inl full ↦ (
          record { head = some b; blocks = set_node blocks b (record init { next = some h }) },
          ground (arith, full, valid),
          front,
        )
        | inr room ↦
            let size : ℕ = (blocks h).size in
            let values : ℕ → ℕ = λ i. if size == i then b else (blocks h).values i in
            let n : Node = record { next = (blocks h).next; size = size + 1; values = values } in
            let less : size < capacity = ground (arith, small, room) in
            let items : b ∷ xs ≡ last_first values (size + 1) ++ h ∷ rest =
              ap (λ ys. b ∷ ys) e
              ∙ sym (ap (λ ys. ys ++ h ∷ rest) (last_first-push (blocks h).values size b)) in
            (
              record { head = some h; blocks = set_node blocks h n },
              ground (arith, room, less),
              linked-set blocks h n rest (b ∷ xs) (omega (arith, less)) chain
                  (head_apart h _ rest (subst Distinct e d)) items,
            )
      ]

  -- A free list of distinct blocks takes a block that it does not hold, whose index is not the invalid
  -- one, and holds it in front of the others.
  pub push-Chain :
      (s : FreeList) (b : ℕ) (xs : List ℕ)
      → Chain capacity s.blocks s.head xs
      → Distinct xs
      → contains b xs ≡ false
      → b ≢ invalid
      → (s' : FreeList) × (push capacity b s ≡ ok s') × Chain capacity s'.blocks s'.head (b ∷ xs)
  push-Chain s b xs chain d out valid = push_at s.blocks s.head b xs chain d out valid

  -- The first index is given out, and the others are left; an empty list refuses.
  abbrev pub Taken : FreeList → List ℕ → Type 0
  Taken s [] = pop capacity s ≡ err bad_operation
  Taken s (x ∷ xs) =
      (s' : FreeList) × (pop capacity s ≡ ok (x, s')) × Chain capacity s'.blocks s'.head xs

  pop_some :
      (blocks : ℕ → Node) (h size : ℕ) (rest : List ℕ)
      → (blocks h).size ≡ size
      → size ≤ capacity
      → Chain capacity blocks (blocks h).next rest
      → Distinct (last_first (blocks h).values size ++ h ∷ rest)
      → Taken
          (record { head = some h; blocks = blocks })
          (last_first (blocks h).values size ++ h ∷ rest)
  unfolding pop pop_from pop_node set_size last_first
  pop_some blocks h zero rest sized small chain d =
      (record { head = (blocks h).next; blocks = blocks }, ground (arith, sized), chain)
  pop_some blocks h (suc size) rest sized small chain d =
      let n : Node = record (blocks h) { size = (blocks h).size - 1 } in
      let left : (blocks h).size - 1 ≡ size = omega (arith, sized) in
      let low : (blocks h).size - 1 ≤ capacity = omega (arith, sized, small) in
      let taken : (blocks h).values ((blocks h).size - 1) ≡ (blocks h).values size =
        ap (blocks h).values left in
      (
        record { head = some h; blocks = set_node blocks h n },
        ground (arith, sized, small, low, taken),
        linked-set blocks h n rest _ low chain (head_apart h _ rest d.1)
            (ap (λ k. last_first (blocks h).values k ++ h ∷ rest) (sym left)),
      )

  pop_at :
      (blocks : ℕ → Node) (head : Option ℕ) (xs : List ℕ)
      → Chain capacity blocks head xs
      → Distinct xs
      → Taken (record { head = head; blocks = blocks }) xs
  unfolding pop
  pop_at blocks head xs finished d = refl
  pop_at blocks head xs (linked h rest small chain e) d =
      subst (Taken (record { head = some h; blocks = blocks })) (sym e)
        (pop_some blocks h _ rest refl small chain (subst Distinct e d))

  -- A free list of distinct blocks gives out its first block and holds the others; an empty one
  -- refuses with `bad_operation`.
  pub pop-Taken :
      (s : FreeList) (xs : List ℕ) → Chain capacity s.blocks s.head xs → Distinct xs → Taken s xs
  pop-Taken s xs chain d = pop_at s.blocks s.head xs chain d
