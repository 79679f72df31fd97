-- ===== src/Stack/Change.antt =====
-- What a change of one node keeps of a valid stack (push and pop of src/container/stack.cpp): the
-- changed node has the link that it had, or is a new one on top of the others.
use extpp.Prelude.{
  ℕ, zero, suc, ◌+◌, ◌-◌, ◌≤◌, ◌<◌, ◌≡◌, ◌≢◌, refl, sym, ap, ◌∙◌, Bool, true, false, List, [], ◌∷◌,
  ◌++◌, if◌then◌else◌, ◌==◌, length, set, replicate, arith, Bool-cases, inl, inr, length-replicate,
  length-append, ok,
}
use extpp.Prelude
use extpp.Allocator.{Allocator}
use extpp.Stack.{Node, Stack, update}
use extpp.Stack.Chain
use extpp.Stack.Chain.{
  contents, Each, NodeFits, IsFull, Shape, buffer_of, node_items, items, contents-update,
  Full-update, Fits-update, Chain-update, update_self, length-items,
}
use extpp.Stack.Valid.{IsValid}

module _ (blocks : ℕ → Node) (k : ℕ) (n : Node) where
  prev-update : (l : ℕ) → n.prev ≡ (blocks k).prev → (update blocks k n l).prev ≡ (blocks l).prev
  prev-update l kept = elim (Bool-cases (k == l)) [
    | inl here ↦ rw here (kept ∙ ap (λ j. (blocks j).prev) ((Prelude.==_iff k l).0 here))
    | inr other ↦ rw other
  ]

  -- A node that keeps its link leaves the chain as it is.
  Chain-relink :
      (i : ℕ) (ks : List ℕ)
      → n.prev ≡ (blocks k).prev
      → Chain.Chain blocks i ks
      → Chain.Chain (update blocks k n) i ks
  Chain-relink i [] kept c = c
  Chain-relink i (l ∷ ks) kept c =
      (c.0, c.1, c.2, rw (prev-update l kept) (Chain-relink (blocks l).prev ks kept c.3))

  Fits-change :
      (capacity : ℕ) (ks : List ℕ)
      → NodeFits capacity n
      → Each (λ l. NodeFits capacity (blocks l)) ks
      → Each (λ l. NodeFits capacity (update blocks k n l)) ks
  Fits-change capacity [] fits all = tt
  Fits-change capacity (l ∷ ks) fits all =
      let here : NodeFits capacity (update blocks k n l) = elim (Bool-cases (k == l)) [
        | inl same ↦ rw same fits
        | inr other ↦ rw other all.0
      ] in
      (here, Fits-change capacity ks fits all.1)

  update-update_at : (m : Node) (l : ℕ) → update (update blocks k n) k m l ≡ update blocks k m l
  update-update_at m l = elim (Bool-cases (k == l)) [ inl same ↦ rw same | inr other ↦ rw other ]

  pub update-update : (m : Node) → update (update blocks k n) k m ≡ update blocks k m
  update-update m i l = update-update_at m l i

module _ (alloc : Allocator) where
  -- A node's values change, and the stack's size with them.
  pub set_node-IsValid :
      (s : Stack alloc) (ks : List ℕ) (k size : ℕ) (n : Node)
      → IsValid alloc s ks
      → n.prev ≡ (s.blocks k).prev
      → NodeFits s.capacity n
      → Shape s.capacity (update s.blocks k n) ks
      → size ≡ length (contents (update s.blocks k n) ks)
      → IsValid alloc (record s { blocks = update s.blocks k n; size = size }) ks
  set_node-IsValid s ks k size n v kept fits shape total = record {
    chain = Chain-relink s.blocks k n s.top_node ks kept v.chain;
    fits = Fits-change s.blocks k n s.capacity ks fits v.fits;
    shape = shape;
    count = v.count;
    total = total;
    buffered = v.buffered;
    owned = v.owned;
    room = v.room;
  }

  pub Each-fresh :
      (a : alloc.State) (i : ℕ) (ks : List ℕ)
      → alloc.used a i ≡ false
      → Each (λ k. alloc.used a k ≡ true) ks
      → Each (λ k. i ≢ k) ks
  Each-fresh a i [] fresh all = tt
  Each-fresh a i (k ∷ ks) fresh all = (
    λ same.
        absurd (let used : alloc.used a i ≡ true = ap (alloc.used a) same ∙ all.0 in ground arith),
    Each-fresh a i ks fresh all.1,
  )

  Each-allocated :
      (a a' : alloc.State) (i : ℕ) (ks : List ℕ)
      → alloc.allocate a 1 ≡ ok (i, a')
      → Each (λ k. alloc.used a k ≡ true) ks
      → Each (λ k. alloc.used a' k ≡ true) ks
  Each-allocated a a' i [] allocated all = tt
  Each-allocated a a' i (k ∷ ks) allocated all =
      let here : alloc.used a' k ≡ true =
        alloc.used-allocate a a' i k allocated
        ∙ (elim (Bool-cases (i == k)) [ inl same ↦ rw same | inr other ↦ rw other all.0 ]) in
      (here, Each-allocated a a' i ks allocated all.1)

  Shape-grown :
      (capacity : ℕ) (blocks : ℕ → Node) (i : ℕ) (n : Node) (ks : List ℕ)
      → 0 < capacity
      → n.size ≡ 1
      → Each (λ k. i ≢ k) ks
      → Each (IsFull capacity blocks) ks
      → Shape capacity (update blocks i n) (i ∷ ks)
  Shape-grown capacity blocks i n [] room one apart full =
      rw (update_self blocks i n) (omega (arith, one))
  Shape-grown capacity blocks i n (k ∷ ks) room one apart full =
      let same = Chain.update_other blocks i n k apart.0 in
      (
        rw same (omega (arith, full.0)),
        inr (rw same full.0),
        Full-update blocks i n capacity ks apart.1 full.1,
      )

  -- A new node with one value, on top of nodes that all are full.
  pub grown :
      (s : Stack alloc) (ks : List ℕ) (space : alloc.State) (i prev : ℕ) (n : Node)
      → IsValid alloc s ks
      → alloc.allocate s.space 1 ≡ ok (i, space)
      → Chain.Chain s.blocks n.prev ks
      → Each (IsFull s.capacity s.blocks) ks
      → n.size ≡ 1
      → NodeFits s.capacity n
      → IsValid alloc
          (record s {
            top_node = i;
            size = s.size + 1;
            nodes = s.nodes + 1;
            buffer = buffer_of (i ∷ ks);
            blocks = update s.blocks i n;
            space = space;
          })
          (i ∷ ks)
  unfolding contents
  grown s ks space i prev n v allocated linked full one fits =
      let apart =
        Each-fresh s.space i ks (alloc.allocate-fresh s.space space i allocated) v.owned in
      let total_grown : s.size + 1
          ≡ length (node_items (update s.blocks i n i) ++ contents (update s.blocks i n) ks) =
        rw (update_self s.blocks i n, contents-update s.blocks i n ks apart)
          (omega (
            arith,
            v.total,
            length-append (node_items n) (contents s.blocks ks),
            length-items n.slots n.size,
          )) in
      record {
        chain = (
          refl,
          alloc.allocate-valid s.space space i allocated,
          apart,
          rw (update_self s.blocks i n) (Chain-update s.blocks i n n.prev ks apart linked),
        );
        fits = (
          rw (update_self s.blocks i n) fits,
          Fits-update s.blocks i n s.capacity ks apart v.fits,
        );
        shape = Shape-grown s.capacity s.blocks i n ks v.room one apart full;
        count = omega (arith, v.count);
        total = total_grown;
        buffered = refl;
        owned = (
          alloc.used-allocate s.space space i i allocated ∙ rw (Prelude.==_self i),
          Each-allocated s.space space i ks allocated v.owned,
        );
        room = v.room;
      }
