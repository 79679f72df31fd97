-- ===== src/Stack/Whole.antt =====
-- Operations on all nodes of a valid stack (src/container/stack.cpp): reset, validate, and opening
-- the stack again from what its anchor says.
use extpp.Prelude.{
  ℕ, zero, suc, ◌+◌, ◌-◌, ◌≤◌, ◌<◌, ◌≡◌, ◌≢◌, refl, sym, ap, ◌∙◌, Bool, true, false, List, [], ◌∷◌,
  ◌++◌, ◌||◌, if◌then◌else◌, ◌==◌, length, set, replicate, arith, Bool-cases, inl, inr,
  length-append, ok, err, Result, ◌⊎◌, leb, not, guard,
}
use extpp.Prelude
use extpp.Allocator.{Allocator, invalid}
use extpp.Stack.{
  Node, Stack, free_nodes, reset, count_nodes, validate, fill_buffer, open_stack, compute_capacity,
  empty_node,
}
use extpp.Stack.Chain
use extpp.Stack.Chain.{contents, Each, NodeFits, IsFull, Shape, buffer_of, node_items, length-items}
use extpp.Stack.Valid.{IsValid}
use extpp.Stack.Pop.{free_node-ok, Each-freed}

pair : {a b c d : ℕ} → a ≡ c → b ≡ d → ◌≡◌ {A = ℕ × ℕ} (a, b) (c, d)
pair p q i = (p i, q i)

Each-sym : (k : ℕ) (ks : List ℕ) → Each (λ l. k ≢ l) ks → Each (λ l. l ≢ k) ks
Each-sym k [] apart = tt
Each-sym k (l ∷ ks) apart = (λ same. apart.0 (sym same), Each-sym k ks apart.1)

-- The constructor keeps at hand what the operations keep at hand.
fill_buffer-buffer_of :
    (blocks : ℕ → Node) (i : ℕ) (ks : List ℕ)
    → Chain.Chain blocks i ks
    → fill_buffer blocks i ≡ buffer_of ks
unfolding fill_buffer
fill_buffer-buffer_of blocks i [] c = rw c refl
fill_buffer-buffer_of blocks i (k ∷ []) c =
    let is_valid : (k == invalid) ≡ false = ground (arith, c.1) in rw (c.0, is_valid, c.3) refl
fill_buffer-buffer_of blocks i (k ∷ l ∷ ks) c =
    let is_valid : (k == invalid) ≡ false = ground (arith, c.1) in
    let below : (l == invalid) ≡ false = ground (arith, c.3.1) in
    rw (c.0, is_valid, c.3.0, below) refl

module _ (alloc : Allocator) where
  other :
      (a : alloc.State) (k j : ℕ)
      → k ≢ j
      → (if k == j then false else alloc.used a j) ≡ alloc.used a j
  other a k j apart = let differ : (k == j) ≡ false = ground arith in rw differ refl

  -- The loop of `reset` gives back every node, and no other block.
  free_nodes-ok :
      (ks : List ℕ) (s : Stack alloc) (i : ℕ)
      → Chain.Chain s.blocks i ks
      → s.nodes ≡ length ks
      → Each (λ k. alloc.used s.space k ≡ true) ks
      → (space : alloc.State) × (free_nodes alloc (length ks) i s
          ≡ ok (record s { space = space; nodes = 0 }))
        × Each (λ k. alloc.used space k ≡ false) ks
        × ((j : ℕ) → Each (λ k. k ≢ j) ks → alloc.used space j ≡ alloc.used s.space j)
  unfolding free_nodes
  free_nodes-ok [] s i c count owned =
      (s.space, rw c (ap (λ n. ok (record s { nodes = n })) count), tt, λ j apart. refl)
  free_nodes-ok (k ∷ ks) s i c count owned =
      let (space, freed) = alloc.free-ok s.space k owned.0 in
      let s' : Stack alloc = record s { space = space; nodes = s.nodes - 1 } in
      let rest =
        free_nodes-ok ks s' (s.blocks k).prev c.3 (omega (arith, count))
          (Each-freed alloc s.space space k ks freed c.2 owned.1) in
      let is_valid : (k == invalid) ≡ false = ground (arith, c.1) in
      let self : alloc.used rest.0 k ≡ false =
        rest.3 k (Each-sym k ks c.2)
        ∙ alloc.used-free s.space space k k freed
        ∙ rw (Prelude.==_self k) refl in
      (
        rest.0,
        rw (c.0, is_valid, free_node-ok alloc s k space (omega (arith, count)) freed) rest.1,
        (self, rest.2),
        λ j apart.
            rest.3 j apart.1 ∙ alloc.used-free s.space space k j freed ∙ other s.space k j apart.0,
      )

  -- Resetting a valid stack makes it empty, gives back all of its blocks, and touches no other.
  pub reset-empty :
      (s : Stack alloc) (ks : List ℕ)
      → IsValid alloc s ks
      → (s' : Stack alloc) × (reset alloc s ≡ ok s')
        × IsValid alloc s' []
        × Each (λ k. alloc.used s'.space k ≡ false) ks
        × ((j : ℕ) → Each (λ k. k ≢ j) ks → alloc.used s'.space j ≡ alloc.used s.space j)
  unfolding reset contents
  reset-empty s ks v =
      let loop = free_nodes-ok ks s s.top_node v.chain v.count v.owned in
      let s' : Stack alloc = record s {
        space = loop.0;
        buffer = [];
        top_node = invalid;
        size = 0;
        nodes = 0;
      } in
      let valid : IsValid alloc s' [] = record {
        chain = refl;
        fits = tt;
        shape = tt;
        count = refl;
        total = refl;
        buffered = refl;
        owned = tt;
        room = v.room;
      } in
      let done : free_nodes alloc s.nodes s.top_node s
          ≡ ok (record s { space = loop.0; nodes = 0 }) =
        ap (λ n. free_nodes alloc n s.top_node s) v.count ∙ loop.1 in
      (s', rw done refl, valid, loop.2, loop.3)

  -- The first node may be empty, the others are not.
  abbrev Filled : ℕ → (ℕ → Node) → List ℕ → Type 0
  Filled top blocks ks = Each (λ k. (k ≡ top) ⊎ (0 < (blocks k).size)) ks

  count_nodes-ok :
      (ks : List ℕ) (s : Stack alloc) (i values nodes : ℕ)
      → Chain.Chain s.blocks i ks
      → Each (λ k. NodeFits s.capacity (s.blocks k)) ks
      → Filled s.top_node s.blocks ks
      → count_nodes alloc (length ks) s i values nodes
        ≡ ok (values + length (contents s.blocks ks), nodes + length ks)
  unfolding count_nodes contents empty_node
  count_nodes-ok [] s i values nodes c fits filled =
      rw c (ap (λ p. ok p) (pair (omega arith) (omega arith)))
  count_nodes-ok (k ∷ ks) s i values nodes c fits filled =
      let n = s.blocks k in
      let is_valid : (k == invalid) ≡ false = ground (arith, c.1) in
      let small : leb n.size s.capacity ≡ true = ground (arith, fits.0.size) in
      let test : ((k == s.top_node) || not (n.size == 0)) ≡ true = elim filled.0 [
        | inl top ↦ ground (arith, top)
        | inr some_there ↦ ground (arith, some_there)
      ] in
      let counted = length-append (node_items n) (contents s.blocks ks) in
      rw (c.0, is_valid, small, test)
        (count_nodes-ok ks s n.prev (values + n.size) (nodes + 1) c.3 fits.1 filled.1
          ∙ ap (λ p. ok p)
              (pair (omega (arith, counted, length-items n.slots n.size)) (omega arith)))

  Filled-full :
      (s : Stack alloc) (ks : List ℕ)
      → 0 < s.capacity
      → Each (IsFull s.capacity s.blocks) ks
      → Filled s.top_node s.blocks ks
  Filled-full s [] room full = tt
  Filled-full s (k ∷ ks) room full = (inr (omega (arith, full.0)), Filled-full s ks room full.1)

  IsValid-Filled :
      (s : Stack alloc) (ks : List ℕ) → IsValid alloc s ks → Filled s.top_node s.blocks ks
  IsValid-Filled s [] v = tt
  IsValid-Filled s (k ∷ []) v = (inl (sym v.chain.0), tt)
  IsValid-Filled s (k ∷ l ∷ ks) v =
      (inl (sym v.chain.0), (inr v.shape.0, Filled-full s ks v.room v.shape.2))

  ends_agree :
      (s : Stack alloc) (ks : List ℕ) → IsValid alloc s ks → (s.size == 0) ≡ (s.top_node == invalid)
  unfolding contents
  ends_agree s [] v = rw (v.total, v.chain) refl
  ends_agree s (k ∷ []) v =
      let n = s.blocks k in
      ground (
        arith,
        v.shape,
        v.total,
        length-append (node_items n) [],
        length-items n.slots n.size,
        v.chain.0,
        v.chain.1,
      )
  ends_agree s (k ∷ l ∷ ks) v =
      let n = s.blocks k in
      let o = s.blocks l in
      ground (
        arith,
        v.shape.0,
        v.total,
        v.chain.0,
        v.chain.1,
        length-append (node_items n) (node_items o ++ contents s.blocks ks),
        length-append (node_items o) (contents s.blocks ks),
        length-items o.slots o.size,
      )

  -- A valid stack passes its own validation, in as many rounds as it has nodes.
  pub validate-ok :
      (s : Stack alloc) (ks : List ℕ) → IsValid alloc s ks → validate alloc s.nodes s ≡ ok tt
  unfolding validate
  validate-ok s ks v =
      let counted = count_nodes-ok ks s s.top_node 0 0 v.chain v.fits (IsValid-Filled s ks v) in
      let here : count_nodes alloc s.nodes s s.top_node 0 0 ≡ ok (s.size, s.nodes) =
        ap (λ n. count_nodes alloc n s s.top_node 0 0) v.count
        ∙ counted
        ∙ ap (λ p. ok p) (pair (omega (arith, v.total)) (omega (arith, v.count))) in
      let agree = ends_agree s ks v in
      elim (Bool-cases (s.size == 0)) [
        | inl none ↦
            let no_top : (s.top_node == invalid) ≡ true = sym agree ∙ none in
            rw (none, no_top, here, Prelude.==_self s.size, Prelude.==_self s.nodes) refl
        | inr some ↦
            let top : (s.top_node == invalid) ≡ false = sym agree ∙ some in
            rw (some, top, here, Prelude.==_self s.size, Prelude.==_self s.nodes) refl
      ]

  -- Opening the stack again, from the anchor and the blocks that a valid stack has left, gives back
  -- the state that it had, the nodes at hand included.
  pub open_stack-reopens :
      (s : Stack alloc) (ks : List ℕ) (block_size : ℕ)
      → IsValid alloc s ks
      → s.capacity ≡ compute_capacity block_size s.value_size
      → open_stack alloc block_size s.value_size s.top_node s.size s.nodes s.blocks s.space ≡ ok s
  unfolding open_stack
  open_stack-reopens s ks block_size v same =
      let some_room : (s.capacity == 0) ≡ false = ground (arith, v.room) in
      let buffered : fill_buffer s.blocks s.top_node ≡ s.buffer =
        fill_buffer-buffer_of s.blocks s.top_node ks v.chain ∙ sym v.buffered in
      rw (sym same, some_room) (ap (λ b. ok (record s { buffer = b })) buffered)
