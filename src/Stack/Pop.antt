-- ===== src/Stack/Pop.antt =====
-- Popping a value (raw_stack_impl::pop of src/container/stack.cpp) from a valid stack.
pub mod Kept
pub mod Dropped
pub mod Outcome
use extpp.Prelude.{
  ℕ, zero, suc, ◌+◌, ◌-◌, ◌≤◌, ◌<◌, ◌≡◌, ◌≢◌, refl, sym, ap, ◌∙◌, Bool, true, false, List, [], ◌∷◌,
  ◌++◌, if◌then◌else◌, ◌==◌, length, set, replicate, arith, Bool-cases, inl, inr, length-replicate,
  length-append, ok, err, Result, ◌⊎◌, leb, Error, bad_operation, not, guard,
}
use extpp.Prelude
use extpp.Allocator.{Allocator, invalid}
use extpp.Stack.{
  Value, Node, Stack, update, pop, pop_node, pop_first, pop_buffered, drop_second, load_previous,
  free_node, set_node, empty_node, check_buffer_invariants, valid,
}
use extpp.Stack
use extpp.Stack.Chain
use extpp.Stack.Chain.{
  contents, Each, NodeFits, IsFull, Shape, buffer_of, node_items, items, length-items,
  contents-update, update_self, update_other, Full-update, Fits-update, Chain-update,
}
use extpp.Stack.Valid.{IsValid, check_buffer_invariants-ok}
use extpp.Stack.Change.{set_node-IsValid}
use extpp.Stack.Push.{Gives, Holds}

-- A node with one value less.
abbrev pub less_one : Node → Node
less_one n = record n { size = n.size - 1 }

abbrev pub rest : List Value → List Value
rest [] = []
rest (x ∷ xs) = xs

module _ (capacity : ℕ) (n : Node) (fits : NodeFits capacity n) (some_there : 0 < n.size) where
  pub pop_node-less_one : pop_node capacity n ≡ ok (less_one n)
  unfolding pop_node empty_node
  pop_node-less_one = ground (arith, fits.size)

  pub less_one-Fits : NodeFits capacity (less_one n)
  less_one-Fits = record { slots = fits.slots; size = omega (arith, fits.size) }

  pub node_items-less_one :
      (xs : List Value) → node_items (less_one n) ++ xs ≡ rest (node_items n ++ xs)
  node_items-less_one xs =
      let next : n.size ≡ suc (n.size - 1) = omega arith in
      sym (ap (λ m. rest (items n.slots m ++ xs)) next)

pub length-rest : (xs : List Value) → length (rest xs) ≡ length xs - 1
length-rest [] = refl
length-rest (x ∷ xs) = omega arith

module _ (alloc : Allocator) where
  pub Each-freed :
      (a a' : alloc.State) (i : ℕ) (ks : List ℕ)
      → alloc.free a i 1 ≡ ok a'
      → Each (λ k. i ≢ k) ks
      → Each (λ k. alloc.used a k ≡ true) ks
      → Each (λ k. alloc.used a' k ≡ true) ks
  Each-freed a a' i [] freed apart all = tt
  Each-freed a a' i (k ∷ ks) freed apart all =
      let other : (i == k) ≡ false = ground arith in
      (alloc.used-free a a' i k freed ∙ rw other all.0, Each-freed a a' i ks freed apart.1 all.1)

  pub free_node-ok :
      (s : Stack alloc) (i : ℕ) (space : alloc.State)
      → 0 < s.nodes
      → alloc.free s.space i 1 ≡ ok space
      → free_node alloc i s ≡ ok (record s { space = space; nodes = s.nodes - 1 })
  unfolding free_node
  free_node-ok s i space some_there freed =
      let there : Prelude.ltb 0 s.nodes ≡ true = ground arith in rw (there, freed) refl

  -- From the state in which the first node at hand has one value less.
  pub checked :
      (s : Stack alloc) (ks : List ℕ) (r : Result (Stack alloc))
      → IsValid alloc s ks
      → 0 < s.size
      → pop_buffered alloc s (buffer_of ks) ≡ r
      → pop alloc s ≡ r
  unfolding pop
  checked s ks r v some_there popped =
      let at_hand : pop_buffered alloc s s.buffer ≡ r =
        ap (pop_buffered alloc s) v.buffered ∙ popped in
      let used : (s.size == 0) ≡ false = ground arith in
      rw (used, check_buffer_invariants-ok alloc s ks v) at_hand

  abbrev pub less_at : Stack alloc → ℕ → Stack alloc
  less_at s k = record s { blocks = update s.blocks k (less_one (s.blocks k)); size = s.size - 1 }

  -- The topmost node has a value to give.
  pub less_first :
      (s : Stack alloc) (k : ℕ) (ks : List ℕ)
      → IsValid alloc s (k ∷ ks)
      → 0 < (s.blocks k).size
      → Shape s.capacity (update s.blocks k (less_one (s.blocks k))) (k ∷ ks)
      → Holds alloc (less_at s k) (k ∷ ks) (rest (contents s.blocks (k ∷ ks)))
  unfolding contents
  less_first s k ks v some_there shape =
      let n = s.blocks k in
      let values : contents (update s.blocks k (less_one n)) (k ∷ ks)
          ≡ rest (contents s.blocks (k ∷ ks)) =
        rw
          (
            update_self s.blocks k (less_one n),
            contents-update s.blocks k (less_one n) ks v.chain.2,
          )
          (node_items-less_one s.capacity n v.fits.0 some_there (contents s.blocks ks)) in
      record {
        valid =
            set_node-IsValid alloc s (k ∷ ks) k (s.size - 1) (less_one n) v refl
              (less_one-Fits s.capacity n v.fits.0 some_there) shape
              (omega (arith, v.total, ap length values, length-rest (contents s.blocks (k ∷ ks))));
        values = values;
      }

  -- The topmost node is empty: the second one gives the value.
  pub contents-less_second :
      (s : Stack alloc) (k l : ℕ) (ks : List ℕ)
      → IsValid alloc s (k ∷ l ∷ ks)
      → (s.blocks k).size ≡ 0
      → contents (less_at s l).blocks (l ∷ ks) ≡ rest (contents s.blocks (k ∷ l ∷ ks))
  unfolding contents
  contents-less_second s k l ks v none_there =
      let o = s.blocks l in
      rw
        (
          update_self s.blocks l (less_one o),
          contents-update s.blocks l (less_one o) ks v.chain.3.2,
          none_there,
        )
        (node_items-less_one s.capacity o v.fits.1.0 v.shape.0 (contents s.blocks ks))

  pub pop_first-stays :
      (s : Stack alloc) (k : ℕ) (behind : List ℕ)
      → NodeFits s.capacity (s.blocks k)
      → 1 < (s.blocks k).size
      → pop_first alloc k behind s ≡ ok (less_at s k)
  unfolding pop_first empty_node set_node
  pop_first-stays s k behind fits more =
      let some_there : ((s.blocks k).size == 0) ≡ false = ground arith in
      let still : ((s.blocks k).size - 1 == 0) ≡ false = ground arith in
      rw (some_there, pop_node-less_one s.capacity (s.blocks k) fits (omega arith), still) refl

  pub pop_first-empties :
      (s s' : Stack alloc) (k : ℕ) (behind : List ℕ) (r : Result (Stack alloc))
      → NodeFits s.capacity (s.blocks k)
      → (s.blocks k).size ≡ 1
      → drop_second alloc k behind (less_at s k) ≡ ok s'
      → load_previous alloc k s' ≡ r
      → pop_first alloc k behind s ≡ r
  unfolding pop_first empty_node set_node
  pop_first-empties s s' k behind r fits one dropped loaded =
      let some_there : ((s.blocks k).size == 0) ≡ false = ground arith in
      let empty : ((s.blocks k).size - 1 == 0) ≡ true = ground arith in
      rw (some_there, pop_node-less_one s.capacity (s.blocks k) fits (omega arith), empty, dropped)
        loaded
