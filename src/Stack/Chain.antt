-- ===== src/Stack/Chain.antt =====
-- The nodes of a stack (src/container/stack.cpp) as the chain that their headers link, from the
-- topmost on, and the values that it holds.
use extpp.Prelude.{
  ℕ, zero, suc, ◌+◌, ◌-◌, ◌≤◌, ◌<◌, ◌≡◌, ◌≢◌, refl, sym, ap, ◌∙◌, Bool, true, false, List, [], ◌∷◌,
  ◌++◌, Option, none, some, if◌then◌else◌, ◌==◌, length, get_elem?, set, arith, ◌⊎◌, length-append,
}
use extpp.Prelude
use extpp.Allocator.{invalid}
use extpp.Stack.{Value, Node, update}

-- The value at a slot; no node is read behind its slots.
abbrev pub value_at : List Value → ℕ → Value
value_at [] i = []
value_at (v ∷ slots) zero = v
value_at (v ∷ slots) (suc i) = value_at slots i

-- The first `n` values of a node, the last one first.
abbrev pub items : List Value → ℕ → List Value
items slots zero = []
items slots (suc n) = value_at slots n ∷ items slots n

abbrev pub node_items : Node → List Value
node_items n = items n.slots n.size

unfoldable pub contents : (ℕ → Node) → List ℕ → List Value
contents blocks [] = []
contents blocks (k ∷ ks) = node_items (blocks k) ++ contents blocks ks

abbrev pub Each : (ℕ → Type 0) → List ℕ → Type 0
Each P [] = Unit {0}
Each P (k ∷ ks) = P k × Each P ks

-- The nodes `ks` are linked from `i` on, and are all different.
abbrev pub Chain : (ℕ → Node) → ℕ → List ℕ → Type 0
Chain blocks i [] = i ≡ invalid
Chain blocks i (k ∷ ks) =
    (i ≡ k) × (k ≢ invalid) × Each (λ l. k ≢ l) ks × Chain blocks (blocks k).prev ks

pub record NodeFits (capacity : ℕ) (n : Node) : Type 0 where
  pub slots : length n.slots ≡ capacity
  pub size : n.size ≤ capacity

abbrev pub IsFull : ℕ → (ℕ → Node) → ℕ → Type 0
IsFull capacity blocks k = (blocks k).size ≡ capacity

-- Below the topmost two nodes all are full; the second holds a value, and is full if the first
-- holds one.
abbrev pub Shape : ℕ → (ℕ → Node) → List ℕ → Type 0
Shape capacity blocks [] = Unit {0}
Shape capacity blocks (k ∷ []) = 0 < (blocks k).size
Shape capacity blocks (k ∷ l ∷ ks) =
    (0 < (blocks l).size)
    × (((blocks k).size ≡ 0) ⊎ ((blocks l).size ≡ capacity))
    × Each (IsFull capacity blocks) ks

-- The nodes that are kept at hand.
abbrev pub buffer_of : List ℕ → List ℕ
buffer_of [] = []
buffer_of (k ∷ []) = k ∷ []
buffer_of (k ∷ l ∷ ks) = l ∷ k ∷ []

module _ (blocks : ℕ → Node) (k : ℕ) (n : Node) where
  pub contents-update :
      (ks : List ℕ) → Each (λ l. k ≢ l) ks → contents (update blocks k n) ks ≡ contents blocks ks
  unfolding contents
  contents-update [] apart = refl
  contents-update (l ∷ ks) apart =
      let other : (k == l) ≡ false = ground arith in rw (other, contents-update ks apart.1)

  pub Chain-update :
      (i : ℕ) (ks : List ℕ)
      → Each (λ l. k ≢ l) ks
      → Chain blocks i ks
      → Chain (update blocks k n) i ks
  Chain-update i [] apart c = c
  Chain-update i (l ∷ ks) apart c =
      let other : (k == l) ≡ false = ground arith in
      (c.0, c.1, c.2, rw other (Chain-update (blocks l).prev ks apart.1 c.3))

  pub Fits-update :
      (capacity : ℕ) (ks : List ℕ)
      → Each (λ l. k ≢ l) ks
      → Each (λ l. NodeFits capacity (blocks l)) ks
      → Each (λ l. NodeFits capacity (update blocks k n l)) ks
  Fits-update capacity [] apart all = tt
  Fits-update capacity (l ∷ ks) apart all =
      let other : (k == l) ≡ false = ground arith in
      (rw other all.0, Fits-update capacity ks apart.1 all.1)

  pub Full-update :
      (capacity : ℕ) (ks : List ℕ)
      → Each (λ l. k ≢ l) ks
      → Each (IsFull capacity blocks) ks
      → Each (IsFull capacity (update blocks k n)) ks
  Full-update capacity [] apart all = tt
  Full-update capacity (l ∷ ks) apart all =
      let other : (k == l) ≡ false = ground arith in
      (rw other all.0, Full-update capacity ks apart.1 all.1)

  pub update_self : update blocks k n k ≡ n
  update_self = rw (Prelude.==_self k)

  pub update_other : (l : ℕ) → k ≢ l → update blocks k n l ≡ blocks l
  update_other l h = let other : (k == l) ≡ false = ground arith in rw other

pub length-items : (slots : List Value) (n : ℕ) → length (items slots n) ≡ n
length-items slots zero = refl
length-items slots (suc n) = ap suc (length-items slots n)

pub length-set : (slots : List Value) (i : ℕ) (v : Value) → length (set slots i v) ≡ length slots
length-set [] i v = refl
length-set (x ∷ slots) zero v = refl
length-set (x ∷ slots) (suc i) v = ap suc (length-set slots i v)

value_at-set :
    (slots : List Value) (i k : ℕ) (v : Value)
    → i < length slots
    → value_at (set slots i v) k ≡ (if i == k then v else value_at slots k)
value_at-set [] i k v h = absurd (omega arith)
value_at-set (x ∷ slots) zero zero v h = refl
value_at-set (x ∷ slots) zero (suc k) v h = ground arith
value_at-set (x ∷ slots) (suc i) zero v h = ground arith
value_at-set (x ∷ slots) (suc i) (suc k) v h = ground (arith, value_at-set slots i k v)

items-set :
    (slots : List Value) (i n : ℕ) (v : Value)
    → i < length slots
    → n ≤ i
    → items (set slots i v) n ≡ items slots n
items-set slots i zero v h k = refl
items-set slots i (suc n) v h k =
    let other : (i == n) ≡ false = ground arith in
    let here : value_at (set slots i v) n ≡ value_at slots n =
      value_at-set slots i n v h ∙ rw other in
    ap (◌∷◌ (value_at (set slots i v) n)) (items-set slots i n v h (omega arith))
    ∙ ap (λ w. w ∷ items slots n) here

-- A value put behind the others is the first.
pub items-push :
    (slots : List Value) (n : ℕ) (v : Value)
    → n < length slots
    → items (set slots n v) (suc n) ≡ v ∷ items slots n
items-push slots n v h =
    let here : value_at (set slots n v) n ≡ v =
      value_at-set slots n n v h ∙ rw (Prelude.==_self n) in
    ap (◌∷◌ (value_at (set slots n v) n)) (items-set slots n n v h (omega arith))
    ∙ ap (λ w. w ∷ items slots n) here

pub get_elem?-value_at :
    (slots : List Value) (i : ℕ) → i < length slots → get_elem? slots i ≡ some (value_at slots i)
get_elem?-value_at [] i h = absurd (omega arith)
get_elem?-value_at (x ∷ slots) zero h = refl
get_elem?-value_at (x ∷ slots) (suc i) h = get_elem?-value_at slots i (omega arith)
