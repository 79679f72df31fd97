-- ===== src/Stack/Push/Room.antt =====
-- The steps of a push: make_room and push_value (src/container/stack.cpp).
use extpp.Prelude.{
  ℕ, ◌+◌, ◌<◌, ◌≡◌, ◌≢◌, refl, ap, ◌∙◌, true, List, [], ◌∷◌, ◌==◌, replicate, arith,
  length-replicate, ok, err, Result, Error,
}
use extpp.Allocator.{Allocator, invalid}
use extpp.Stack.{
  Value, Node, Stack, update, push, init_node, make_room, push_buffered, push_value, append_node,
  set_node, create_node, full,
}
use extpp.Stack.Chain
use extpp.Stack.Chain.{
  contents, Each, NodeFits, IsFull, Shape, buffer_of, node_items, items, items-push, length-set,
  length-items, contents-update, update_self, update_other, Full-update,
}
use extpp.Stack.Valid.{IsValid, check_buffer_invariants-ok}
use extpp.Stack.Change.{update-update}
use extpp.Stack.Push.{Gives, with_value, no_values, first_node, push_node-with_value, push_grown}

module _ (alloc : Allocator) where
  -- The state in which `i` is the topmost node and has no value yet.
  abbrev pub appended : Stack alloc → ℕ → ℕ → alloc.State → List ℕ → Stack alloc
  appended s i prev space buffer = record s {
    top_node = i;
    nodes = s.nodes + 1;
    buffer = buffer;
    space = space;
    blocks = update s.blocks i (no_values s.value_size s.capacity prev);
  }

  -- The node that make_room has put behind `prev`, before the value is written.
  pub append_node-ok :
      (s : Stack alloc) (prev i : ℕ) (space : alloc.State)
      → alloc.allocate s.space 1 ≡ ok (i, space)
      → append_node alloc prev s
        ≡ ok (
          i,
          record s {
            top_node = i;
            nodes = s.nodes + 1;
            blocks = update s.blocks i (record {
              prev = prev;
              size = 0;
              slots = replicate s.capacity (replicate s.value_size 0);
            });
            space = space;
          },
        )
  unfolding append_node create_node set_node init_node
  append_node-ok s prev i space allocated =
      let start : Node = record {
        prev = invalid;
        size = 0;
        slots = replicate s.capacity (replicate s.value_size 0);
      } in
      let mid = update s.blocks i start in
      let linked : update mid i (record (mid i) { prev = prev })
          ≡ update s.blocks i (record start { prev = prev }) =
        update-update s.blocks i start (record (mid i) { prev = prev })
        ∙ ap (λ n. update s.blocks i (record n { prev = prev })) (update_self s.blocks i start) in
      rw allocated (
        ap (λ b. ok (i, record s { top_node = i; nodes = s.nodes + 1; blocks = b; space = space }))
          linked)

  pub append_node-err :
      (s : Stack alloc) (prev : ℕ) (e : Error)
      → alloc.allocate s.space 1 ≡ err e
      → append_node alloc prev s ≡ err e
  unfolding append_node create_node
  append_node-err s prev e refused = rw refused refl

  -- What the call does once there is room, where it is a new node that has it.
  pub push_value-grown :
      (s : Stack alloc) (i prev : ℕ) (space : alloc.State) (buffer : List ℕ) (v : Value)
      → 0 < s.capacity
      → push_buffered alloc (appended s i prev space buffer) buffer ≡ ok i
      → push_value alloc v (appended s i prev space buffer)
        ≡ ok (record s {
          top_node = i;
          size = s.size + 1;
          nodes = s.nodes + 1;
          buffer = buffer;
          space = space;
          blocks = update s.blocks i (first_node s.value_size s.capacity prev v);
        })
  unfolding push_value set_node
  push_value-grown s i prev space buffer v room there =
      let empty : Node = record {
        prev = prev;
        size = 0;
        slots = replicate s.capacity (replicate s.value_size 0);
      } in
      let fits : NodeFits s.capacity empty = record {
        slots = length-replicate s.capacity (replicate s.value_size 0);
        size = omega arith;
      } in
      let pushed = push_node-with_value s.capacity empty v fits room in
      rw (there, update_self s.blocks i empty, pushed)
        (ap
          (λ b. ok (record s {
            top_node = i;
            size = s.size + 1;
            nodes = s.nodes + 1;
            buffer = buffer;
            space = space;
            blocks = b;
          }))
          (update-update s.blocks i empty (with_value empty v)))

  pub checked :
      (s : Stack alloc) (ks : List ℕ) (v : Value) (s' : Stack alloc) (r : Result (Stack alloc))
      → IsValid alloc s ks
      → make_room alloc s (buffer_of ks) ≡ ok s'
      → push_value alloc v s' ≡ r
      → push alloc v s ≡ r
  unfolding push
  checked s ks v s' r valid room pushed =
      let at_hand : make_room alloc s s.buffer ≡ ok s' =
        ap (make_room alloc s) valid.buffered ∙ room in
      rw (check_buffer_invariants-ok alloc s ks valid, at_hand) pushed

  -- Nothing is allocated.
  pub in_place :
      (s : Stack alloc) (ks : List ℕ) (v : Value) (k : ℕ)
      → IsValid alloc s ks
      → make_room alloc s (buffer_of ks) ≡ ok s
      → push_buffered alloc s (buffer_of ks) ≡ ok k
      → NodeFits s.capacity (s.blocks k)
      → (s.blocks k).size < s.capacity
      → push alloc v s
        ≡ ok
            (record s { blocks = update s.blocks k (with_value (s.blocks k) v); size = s.size + 1 })
  unfolding push_value set_node
  in_place s ks v k valid room there fits free =
      let at_hand : push_buffered alloc s s.buffer ≡ ok k =
        ap (push_buffered alloc s) valid.buffered ∙ there in
      checked s ks v s
        (ok
          (record s { blocks = update s.blocks k (with_value (s.blocks k) v); size = s.size + 1 }))
        valid room (rw (at_hand, push_node-with_value s.capacity (s.blocks k) v fits free) refl)

  -- The last node at hand is full: the new one is linked to it.
  pub by_growing :
      (s : Stack alloc) (ks : List ℕ) (v : Value) (i prev : ℕ) (space : alloc.State)
      → IsValid alloc s ks
      → alloc.allocate s.space 1 ≡ ok (i, space)
      → Chain.Chain s.blocks prev ks
      → Each (IsFull s.capacity s.blocks) ks
      → make_room alloc s (buffer_of ks) ≡ ok (appended s i prev space (buffer_of (i ∷ ks)))
      → push_buffered alloc (appended s i prev space (buffer_of (i ∷ ks))) (buffer_of (i ∷ ks))
        ≡ ok i
      → Gives alloc (push alloc v s) (v ∷ contents s.blocks ks)
  by_growing s ks v i prev space valid allocated linked all_full room there =
      let grown_state : Stack alloc = record s {
        top_node = i;
        size = s.size + 1;
        nodes = s.nodes + 1;
        buffer = buffer_of (i ∷ ks);
        space = space;
        blocks = update s.blocks i (first_node s.value_size s.capacity prev v);
      } in
      let fresh : Stack alloc = appended s i prev space (buffer_of (i ∷ ks)) in
      (
        grown_state,
        checked s ks v fresh (ok grown_state) valid room
            (push_value-grown s i prev space (buffer_of (i ∷ ks)) v valid.room there),
        (i ∷ ks, push_grown alloc s ks space i prev v valid allocated linked all_full),
      )

  -- The value goes to the new node where the one before it is full.
  pub behind :
      (s : Stack alloc) (k i : ℕ) (n : Node) (nodes : ℕ) (space : alloc.State)
      → i ≢ k
      → ((s.blocks k).size == s.capacity) ≡ true
      → push_buffered alloc
          (record s {
            top_node = i;
            nodes = nodes;
            buffer = k ∷ i ∷ [];
            space = space;
            blocks = update s.blocks i n;
          })
          (k ∷ i ∷ [])
        ≡ ok i
  unfolding push_buffered full
  behind s k i n nodes space apart is_full = rw (update_other s.blocks i n k apart, is_full) refl
