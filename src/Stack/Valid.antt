-- ===== src/Stack/Valid.antt =====
-- The invariant of a stack (validate and check_buffer_invariants of src/container/stack.cpp).
use extpp.Prelude.{
  ℕ, zero, suc, ◌+◌, ◌-◌, ◌≤◌, ◌<◌, ◌≡◌, ◌≢◌, refl, sym, ap, ◌∙◌, Bool, true, false, List, [], ◌∷◌,
  ◌++◌, Option, none, some, ok, err, bad_operation, if◌then◌else◌, ◌==◌, length, get_elem?, set,
  arith, length-append, Bool-cases, inl, inr, assert,
}
use extpp.Prelude
use extpp.Allocator.{Allocator}
use extpp.Stack.{
  Value, Node, Stack, top, check_buffer_invariants, empty_node, top_buffered, top_of_node,
}
use extpp.Stack.Chain.{
  contents, Each, Chain, NodeFits, Shape, buffer_of, node_items, length-items, items,
  get_elem?-value_at,
}

module _ (alloc : Allocator) where
  -- The nodes `ks`, topmost first, are those of the stack.
  pub record IsValid (s : Stack alloc) (ks : List ℕ) : Type 0 where
    pub chain : Chain s.blocks s.top_node ks
    pub fits : Each (λ k. NodeFits s.capacity (s.blocks k)) ks
    pub shape : Shape s.capacity s.blocks ks
    pub count : s.nodes ≡ length ks
    pub total : s.size ≡ length (contents s.blocks ks)
    pub buffered : s.buffer ≡ buffer_of ks
    pub owned : Each (λ k. alloc.used s.space k ≡ true) ks
    pub room : 0 < s.capacity

  -- The invariants that a debug build checks hold in every valid state.
  pub check_buffer_invariants-ok :
      (s : Stack alloc) (ks : List ℕ) → IsValid s ks → check_buffer_invariants alloc s ≡ ok tt
  unfolding check_buffer_invariants empty_node contents
  check_buffer_invariants-ok s [] v = ground arith
  check_buffer_invariants-ok s (k ∷ []) v =
      let total = length-append (node_items (s.blocks k)) [] in
      let size = length-items (s.blocks k).slots (s.blocks k).size in ground arith
  check_buffer_invariants-ok s (k ∷ l ∷ ks) v =
      let total =
        length-append (node_items (s.blocks k)) (node_items (s.blocks l) ++ contents s.blocks ks) in
      let total' = length-append (node_items (s.blocks l)) (contents s.blocks ks) in
      let size = length-items (s.blocks l).slots (s.blocks l).size in
      let linked : (s.blocks k).prev ≡ l = v.chain.3.0 in ground arith

  -- What a stack that holds `xs` answers.
  abbrev pub answer : List Value → Prelude.Result Value
  answer [] = err bad_operation
  answer (x ∷ xs) = ok x

  top_slots :
      (prev size : ℕ) (slots : List Value) (rest : List Value)
      → size ≤ length slots
      → 0 < size
      → top_of_node (record { prev = prev; size = size; slots = slots })
        ≡ answer (items slots size ++ rest)
  unfolding top_of_node
  top_slots prev zero slots rest h pos = absurd (omega arith)
  top_slots prev (suc m) slots rest h pos =
      let back : suc m - 1 ≡ m = omega arith in
      ground (arith, get_elem?-value_at slots m (omega arith), back)

  top_of_node-answer :
      (n : Node) (rest : List Value)
      → n.size ≤ length n.slots
      → 0 < n.size
      → top_of_node n ≡ answer (node_items n ++ rest)
  top_of_node-answer n rest h pos = top_slots n.prev n.size n.slots rest h pos

  -- The topmost value of a valid stack is the one that was pushed last; an empty stack has none.
  pub top-answer :
      (s : Stack alloc) (ks : List ℕ) → IsValid s ks → top alloc s ≡ answer (contents s.blocks ks)
  unfolding top top_buffered empty_node contents
  top-answer s [] v = ground arith
  top-answer s (k ∷ []) v =
      let checked = check_buffer_invariants-ok s (k ∷ []) v in
      let n = s.blocks k in
      let total = length-append (node_items n) [] in
      let size = length-items n.slots n.size in
      let used : (s.size == 0) ≡ false = ground arith in
      let answered =
        top_of_node-answer n [] (omega (arith, v.fits.0.slots, v.fits.0.size)) v.shape in
      ground (arith, checked, used, answered)
  top-answer s (k ∷ l ∷ ks) v =
      let checked = check_buffer_invariants-ok s (k ∷ l ∷ ks) v in
      let n = s.blocks k in
      let o = s.blocks l in
      let rest = contents s.blocks ks in
      let total = length-append (node_items n) (node_items o ++ rest) in
      let total' = length-append (node_items o) rest in
      let size = length-items o.slots o.size in
      let used : (s.size == 0) ≡ false = ground arith in
      elim (Bool-cases (n.size == 0)) [
        | inl none_there ↦
            let answered =
              top_of_node-answer o rest (omega (arith, v.fits.1.0.slots, v.fits.1.0.size))
                v.shape.0 in
            let gone : node_items n ≡ [] =
              ap (items n.slots) ((Prelude.==_iff n.size 0).0 none_there) in
            let all : node_items n ++ (node_items o ++ rest) ≡ node_items o ++ rest =
              ap (λ xs. xs ++ (node_items o ++ rest)) gone in
            ground (arith, checked, used, answered, none_there, all)
        | inr some_there ↦
            let answered =
              top_of_node-answer n (node_items o ++ rest)
                (omega (arith, v.fits.0.slots, v.fits.0.size)) (ground arith) in
            ground (arith, checked, used, answered, some_there)
      ]
