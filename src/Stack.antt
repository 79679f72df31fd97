-- ===== src/Stack.antt =====
-- The stack of fixed-size values (src/container/stack.cpp): a linked list of nodes, one to a block,
-- of which the topmost two are kept at hand. A node's values lie one behind the other in its
-- block; `slots` has them in that order. The anchor's fields are members of the state, and the
-- engine's blocks are the function `blocks`.
pub mod Chain
pub mod Valid
pub mod Change
pub mod Push
pub mod Pop
pub mod Whole
pub mod Tests
use extpp.Prelude.{
  ℕ, zero, suc, ◌+◌, ◌-◌, ◌/◌, ◌≡◌, Bool, true, false, not, ◌&&◌, ◌||◌, List, [], ◌∷◌, ◌++◌, Option,
  none, some, Result, ok, err, bad_argument, bad_operation, assertion, corruption_error,
  out_of_fuel, guard, assert, ◌>>=◌, ◌>>◌, if◌then◌else◌, ltb, leb, ◌==◌, length, replicate,
  get_elem?, set,
}
use extpp.Allocator.{Allocator, invalid}

abbrev pub Value : Type 0
Value = List ℕ

-- raw_stack_node: its header, and the values behind it.
pub record Node : Type 0 where
  pub prev : ℕ
  pub size : ℕ
  pub slots : List Value

-- `serialized_size<header>()`: a block index and a u32.
abbrev pub header_size : ℕ
header_size = 12

unfoldable pub compute_capacity : ℕ → ℕ → ℕ
compute_capacity block_size value_size =
    if leb block_size header_size then 0 else (block_size - header_size) / value_size

abbrev pub valid : ℕ → Bool
valid i = not (i == invalid)

abbrev pub update : (ℕ → Node) → ℕ → Node → ℕ → Node
update blocks i n k = if i == k then n else blocks k

-- A block of zeros, with a fresh header.
unfoldable pub init_node : ℕ → ℕ → Node
init_node value_size capacity = record {
  prev = invalid;
  size = 0;
  slots = replicate capacity (replicate value_size 0);
}

unfoldable pub full : ℕ → Node → Bool
full capacity n = n.size == capacity

unfoldable pub empty_node : Node → Bool
empty_node n = n.size == 0

unfoldable pub push_node : ℕ → Value → Node → Result Node
unfolding full
push_node capacity value n = do
  assert (not (full capacity n))
  assert (leb (n.size + 1) capacity)
  ok (record n { slots = set n.slots n.size value; size = n.size + 1 })

unfoldable pub pop_node : ℕ → Node → Result Node
unfolding empty_node
pop_node capacity n = do
  assert (not (empty_node n))
  assert (leb (n.size - 1) capacity)
  ok (record n { size = n.size - 1 })

unfoldable pub get_node : Node → ℕ → Result Value
get_node n i = do
  assert (ltb i n.size)
  elim (get_elem? n.slots i) [ none ↦ err assertion | some v ↦ ok v ]

unfoldable pub top_of_node : Node → Result Value
unfolding empty_node get_node
top_of_node n = do assert (not (empty_node n)); get_node n (n.size - 1)

-- The nodes that the constructor keeps at hand.
unfoldable pub fill_buffer : (ℕ → Node) → ℕ → List ℕ
fill_buffer blocks i =
    if valid i then if valid (blocks i).prev then (blocks i).prev ∷ i ∷ [] else i ∷ [] else []

module _ (alloc : Allocator) where
  open alloc use {State, allocate, free}

  -- `top_node`, `size` and `nodes` are the anchor; `buffer` is m_buf, front first.
  pub record Stack : Type 0 where
    pub top_node : ℕ
    pub size : ℕ
    pub nodes : ℕ
    pub value_size : ℕ
    pub capacity : ℕ
    pub buffer : List ℕ
    pub blocks : ℕ → Node
    pub space : State

  unfoldable pub set_node : ℕ → Node → Stack → Stack
  set_node i n s = record s { blocks = update s.blocks i n }

  -- The last two checks of check_buffer_invariants, by what is in the buffer.
  unfoldable pub check_one : Stack → List ℕ → Result (Unit {0})
  check_one s [] = err assertion
  check_one s (i ∷ rest) = do assert (i == s.top_node); assert (length rest == 0)

  unfoldable pub check_two : Stack → List ℕ → Result (Unit {0})
  unfolding empty_node
  check_two s (i ∷ k ∷ []) = do
    assert (k == s.top_node)
    assert (i == (s.blocks k).prev)
    assert (not (empty_node (s.blocks i)))
  check_two s _ = err assertion

  unfoldable pub check_buffer_invariants : Stack → Result (Unit {0})
  unfolding check_one check_two
  check_buffer_invariants s =
      if s.size == 0
      then assert (length s.buffer == 0)
      else if s.nodes == 1
      then check_one s s.buffer
      else check_two s s.buffer

  -- The node that holds the topmost value.
  unfoldable pub top_buffered : Stack → List ℕ → Result ℕ
  unfolding empty_node
  top_buffered s [] = err assertion
  top_buffered s (i ∷ []) = ok i
  top_buffered s (i ∷ k ∷ _) = ok (if not (empty_node (s.blocks k)) then k else i)

  unfoldable pub top : Stack → Result Value
  top s = do
    guard (not (s.size == 0)) bad_operation
    check_buffer_invariants s
    i ← top_buffered s s.buffer
    top_of_node (s.blocks i)

  unfoldable pub create_node : Stack → Result (ℕ × Stack)
  unfolding init_node
  create_node s = do
    (i, space) ← allocate s.space 1
    let s' = set_node i (init_node s.value_size s.capacity) (record s { space = space })
    ok (i, record s' { nodes = s.nodes + 1 })

  unfoldable pub free_node : ℕ → Stack → Result Stack
  free_node i s = do
    assert (ltb 0 s.nodes)
    space ← free s.space i 1
    ok (record s { space = space; nodes = s.nodes - 1 })

  unfoldable pub append_node : ℕ → Stack → Result (ℕ × Stack)
  unfolding create_node set_node
  append_node prev s = do
    (i, s') ← create_node s
    let s'' = set_node i (record (s'.blocks i) { prev = prev }) s'
    ok (i, record s'' { top_node = i })

  -- Room for one more value: the buffer's last node is full, or there is none.
  unfoldable pub make_room : Stack → List ℕ → Result Stack
  unfolding full
  make_room s [] = do (i, s') ← append_node invalid s; ok (record s' { buffer = i ∷ [] })
  make_room s (i ∷ []) =
      if full s.capacity (s.blocks i)
      then (do (new, s') ← append_node i s; ok (record s' { buffer = i ∷ new ∷ [] }))
      else ok s
  make_room s (i ∷ k ∷ rest) =
      if full s.capacity (s.blocks k)
      then (do (new, s') ← append_node k s; ok (record s' { buffer = k ∷ new ∷ [] }))
      else ok s

  -- The first node of the buffer that is not full, or the last.
  unfoldable pub push_buffered : Stack → List ℕ → Result ℕ
  unfolding full
  push_buffered s [] = err assertion
  push_buffered s (i ∷ []) = ok i
  push_buffered s (i ∷ k ∷ rest) = ok (if not (full s.capacity (s.blocks i)) then i else k)

  unfoldable pub push_value : Value → Stack → Result Stack
  push_value value s = do
    i ← push_buffered s s.buffer
    n ← push_node s.capacity value (s.blocks i)
    ok (record (set_node i n s) { size = s.size + 1 })

  unfoldable pub push : Value → Stack → Result Stack
  push value s = do check_buffer_invariants s; s' ← make_room s s.buffer; push_value value s'

  -- The first node has become empty: the second is given back, and the one before is loaded.
  unfoldable pub drop_second : ℕ → List ℕ → Stack → Result Stack
  drop_second first [] s = ok s
  drop_second first (second ∷ rest) s = do
    s' ← free_node second s
    ok (record s' { buffer = first ∷ []; top_node = first })

  unfoldable pub load_previous : ℕ → Stack → Result Stack
  load_previous first s =
      if valid (s.blocks first).prev
      then ok (record s { buffer = (s.blocks first).prev ∷ s.buffer })
      else (do s' ← free_node first s; ok (record s' { buffer = []; top_node = invalid }))

  unfoldable pub pop_first : ℕ → List ℕ → Stack → Result Stack
  unfolding set_node drop_second load_previous empty_node
  pop_first first rest s = do
    assert (not (empty_node (s.blocks first)))
    n ← pop_node s.capacity (s.blocks first)
    let s' = record (set_node first n s) { size = s.size - 1 }
    if empty_node n then drop_second first rest s' >>= load_previous first else ok s'

  unfoldable pub pop_buffered : Stack → List ℕ → Result Stack
  unfolding pop_first set_node empty_node
  pop_buffered s [] = err assertion
  pop_buffered s (first ∷ []) = pop_first first [] s
  pop_buffered s (first ∷ second ∷ rest) =
      if not (empty_node (s.blocks second))
      then (do
        n ← pop_node s.capacity (s.blocks second)
        ok (record (set_node second n s) { size = s.size - 1 }))
      else pop_first first (second ∷ rest) s

  unfoldable pub pop : Stack → Result Stack
  pop s = do
    guard (not (s.size == 0)) bad_operation
    check_buffer_invariants s
    pop_buffered s s.buffer

  -- The loop of `reset`; `s.nodes` rounds are enough.
  unfoldable pub free_nodes : ℕ → ℕ → Stack → Result Stack
  free_nodes zero i s = if valid i then err out_of_fuel else ok s
  free_nodes (suc rounds) i s =
      if valid i then (do s' ← free_node i s; free_nodes rounds (s.blocks i).prev s') else ok s

  unfoldable pub reset : Stack → Result Stack
  unfolding free_nodes
  reset s = do
    s' ← free_nodes s.nodes s.top_node s
    ok (record s' { buffer = []; top_node = invalid; size = 0; nodes = 0 })

  -- The loop of `validate`, with the values and the nodes counted so far; `rounds` bounds it.
  unfoldable pub count_nodes : ℕ → Stack → ℕ → ℕ → ℕ → Result (ℕ × ℕ)
  unfolding empty_node
  count_nodes zero s i values nodes = if valid i then err out_of_fuel else ok (values, nodes)
  count_nodes (suc rounds) s i values nodes =
      if valid i
      then (do
        guard (leb (s.blocks i).size s.capacity) corruption_error
        guard ((i == s.top_node) || not (empty_node (s.blocks i))) corruption_error
        count_nodes rounds s (s.blocks i).prev (values + (s.blocks i).size) (nodes + 1))
      else ok (values, nodes)

  unfoldable pub validate : ℕ → Stack → Result (Unit {0})
  unfolding count_nodes
  validate rounds s = do
    guard (not ((s.size == 0) && valid s.top_node)) corruption_error
    guard ((s.size == 0) || valid s.top_node) corruption_error
    (values, nodes) ← count_nodes rounds s s.top_node 0 0
    guard (values == s.size) corruption_error
    guard (nodes == s.nodes) corruption_error

  -- The constructor, from the anchor's fields.
  unfoldable pub open_stack : ℕ → ℕ → ℕ → ℕ → ℕ → (ℕ → Node) → State → Result Stack
  unfolding compute_capacity fill_buffer
  open_stack block_size value_size anchor_top anchor_size anchor_nodes stored space = do
    let node_capacity = compute_capacity block_size value_size
    guard (not (node_capacity == 0)) bad_argument
    ok (record {
      top_node = anchor_top;
      size = anchor_size;
      nodes = anchor_nodes;
      value_size = value_size;
      capacity = node_capacity;
      buffer = fill_buffer stored anchor_top;
      blocks = stored;
      space = space;
    })
