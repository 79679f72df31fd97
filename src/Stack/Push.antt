-- ===== src/Stack/Push.antt =====
-- Pushing a value (raw_stack_impl::push of src/container/stack.cpp): what a node, and the stack,
-- hold when one has been filled. Room has the steps of the call, Outcome what it gives.
pub mod Room
pub mod Outcome
use extpp.Prelude.{
  ℕ, zero, suc, ◌+◌, ◌-◌, ◌≤◌, ◌<◌, ◌≡◌, ◌≢◌, refl, sym, ap, ◌∙◌, Bool, true, false, List, [], ◌∷◌,
  ◌++◌, if◌then◌else◌, ◌==◌, length, set, replicate, arith, Bool-cases, inl, inr, length-replicate,
  length-append, ok, err, Result, ◌⊎◌, leb, Error,
}
use extpp.Prelude
use extpp.Allocator.{Allocator, invalid}
use extpp.Stack.{
  Value, Node, Stack, update, push, push_node, init_node, make_room, push_buffered, push_value,
  append_node, set_node, create_node, full, check_buffer_invariants,
}
use extpp.Stack
use extpp.Stack.Chain
use extpp.Stack.Chain.{
  contents, Each, NodeFits, IsFull, Shape, buffer_of, node_items, items, items-push, length-set,
  length-items, contents-update, update_self, update_other, Full-update,
}
use extpp.Stack.Valid.{IsValid, check_buffer_invariants-ok}
use extpp.Stack.Change.{set_node-IsValid, grown, update-update, Each-fresh}

-- A node with one value more.
abbrev pub with_value : Node → Value → Node
with_value n v = record n { slots = set n.slots n.size v; size = n.size + 1 }

module _ (capacity : ℕ) (n : Node) (v : Value) (fits : NodeFits capacity n)
    (room : n.size < capacity) where
  pub push_node-with_value : push_node capacity v n ≡ ok (with_value n v)
  unfolding push_node
  push_node-with_value = ground arith

  pub with_value-Fits : NodeFits capacity (with_value n v)
  with_value-Fits = record {
    slots = length-set n.slots n.size v ∙ fits.slots;
    size = omega (arith, room);
  }

  pub node_items-with_value : node_items (with_value n v) ≡ v ∷ node_items n
  node_items-with_value =
      let next : n.size + 1 ≡ suc n.size = omega arith in
      ap (items (set n.slots n.size v)) next
      ∙ items-push n.slots n.size v (omega (arith, fits.slots, room))

-- A fresh node behind `prev`, and one with a value in it.
abbrev pub no_values : ℕ → ℕ → ℕ → Node
no_values value_size capacity prev = record {
  prev = prev;
  size = 0;
  slots = replicate capacity (replicate value_size 0);
}

abbrev pub first_node : ℕ → ℕ → ℕ → Value → Node
first_node value_size capacity prev v = with_value (no_values value_size capacity prev) v

module _ (alloc : Allocator) where
  -- The stack `s'` is valid and holds `xs`.
  pub record Holds (s' : Stack alloc) (ks : List ℕ) (xs : List Value) : Type 0 where
    pub valid : IsValid alloc s' ks
    pub values : contents s'.blocks ks ≡ xs

  -- The call gives a valid stack that holds `xs`.
  abbrev pub Gives : Result (Stack alloc) → List Value → Type 0
  Gives r xs = (s' : Stack alloc) × (r ≡ ok s') × ((ks : List ℕ) × Holds s' ks xs)

  -- A value for the topmost node.
  pub fill_first :
      (s : Stack alloc) (k : ℕ) (ks : List ℕ) (v : Value)
      → IsValid alloc s (k ∷ ks)
      → (s.blocks k).size < s.capacity
      → Shape s.capacity (update s.blocks k (with_value (s.blocks k) v)) (k ∷ ks)
      → Holds
          (record s { blocks = update s.blocks k (with_value (s.blocks k) v); size = s.size + 1 })
          (k ∷ ks)
          (v ∷ contents s.blocks (k ∷ ks))
  unfolding contents
  fill_first s k ks v valid room shape =
      let n = s.blocks k in
      let values : contents (update s.blocks k (with_value n v)) (k ∷ ks)
          ≡ v ∷ contents s.blocks (k ∷ ks) =
        rw (
          update_self s.blocks k (with_value n v),
          contents-update s.blocks k (with_value n v) ks valid.chain.2,
          node_items-with_value s.capacity n v valid.fits.0 room,
        ) in
      record {
        valid =
            set_node-IsValid alloc s (k ∷ ks) k (s.size + 1) (with_value n v) valid refl
              (with_value-Fits s.capacity n v valid.fits.0 room) shape
              (omega (arith, valid.total, ap length values));
        values = values;
      }

  -- A value for the second node, where the topmost is empty.
  pub fill_second :
      (s : Stack alloc) (k l : ℕ) (ks : List ℕ) (v : Value)
      → IsValid alloc s (k ∷ l ∷ ks)
      → (s.blocks k).size ≡ 0
      → (s.blocks l).size < s.capacity
      → Holds
          (record s { blocks = update s.blocks l (with_value (s.blocks l) v); size = s.size + 1 })
          (k ∷ l ∷ ks)
          (v ∷ contents s.blocks (k ∷ l ∷ ks))
  unfolding contents
  fill_second s k l ks v valid none_there room =
      let o = s.blocks l in
      let new = with_value o v in
      let apart : l ≢ k = λ same. valid.chain.2.0 (sym same) in
      let kept : update s.blocks l new k ≡ s.blocks k = update_other s.blocks l new k apart in
      let self : update s.blocks l new l ≡ new = update_self s.blocks l new in
      let none_kept : node_items (update s.blocks l new k) ≡ [] =
        ap node_items kept ∙ ap (items (s.blocks k).slots) none_there in
      let values : contents (update s.blocks l new) (k ∷ l ∷ ks)
          ≡ v ∷ contents s.blocks (k ∷ l ∷ ks) =
        rw
          (
            none_kept,
            self,
            contents-update s.blocks l new ks valid.chain.3.2,
            node_items-with_value s.capacity o v valid.fits.1.0 room,
            none_there,
          )
          refl in
      let more : 0 < (update s.blocks l new l).size = rw self (omega arith) in
      record {
        valid =
            set_node-IsValid alloc s (k ∷ l ∷ ks) l (s.size + 1) new valid refl
              (with_value-Fits s.capacity o v valid.fits.1.0 room)
              (
                more,
                inl (ap (λ n. n.size) kept ∙ none_there),
                Full-update s.blocks l new s.capacity ks valid.chain.3.2 valid.shape.2,
              )
              (omega (arith, valid.total, ap length values));
        values = values;
      }

  -- Where all nodes are full, a new one takes the value.
  pub push_grown :
      (s : Stack alloc) (ks : List ℕ) (space : alloc.State) (i prev : ℕ) (v : Value)
      → IsValid alloc s ks
      → alloc.allocate s.space 1 ≡ ok (i, space)
      → Chain.Chain s.blocks prev ks
      → Each (IsFull s.capacity s.blocks) ks
      → Holds
          (record s {
            top_node = i;
            size = s.size + 1;
            nodes = s.nodes + 1;
            buffer = buffer_of (i ∷ ks);
            blocks = update s.blocks i (first_node s.value_size s.capacity prev v);
            space = space;
          })
          (i ∷ ks)
          (v ∷ contents s.blocks ks)
  unfolding contents
  push_grown s ks space i prev v valid allocated linked all_full =
      let empty : Node = record {
        prev = prev;
        size = 0;
        slots = replicate s.capacity (replicate s.value_size 0);
      } in
      let new = first_node s.value_size s.capacity prev v in
      let fits : NodeFits s.capacity empty = record {
        slots = length-replicate s.capacity (replicate s.value_size 0);
        size = omega arith;
      } in
      let all =
        grown alloc s ks space i prev new valid allocated linked all_full refl
          (with_value-Fits s.capacity empty v fits valid.room) in
      record {
        valid = all;
        values =
            rw (update_self s.blocks i new, contents-update s.blocks i new ks all.chain.2)
              (ap (λ xs. xs ++ contents s.blocks ks)
                (node_items-with_value s.capacity empty v fits valid.room));
      }
