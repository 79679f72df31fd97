-- ===== src/FreeList/Chain.antt =====
-- The indices that a free list holds, in the order in which they are given out
-- (src/detail/free_list.cpp): those in the first node, that node, and so on.
use extpp.Prelude.{
  ℕ, zero, suc, ◌+◌, ◌≤◌, ◌<◌, ◌≡◌, ◌∙◌, refl, sym, ap, subst, Bool, true, false, ◌||◌, List, [],
  ◌∷◌, ◌++◌, Option, none, some, if◌then◌else◌, ◌==◌, arith, Bool-cases, inl, inr,
}
use extpp.Prelude
use extpp.Engine.Blocks.{contains, Distinct}
use extpp.FreeList.{Node}

-- The values of a node, the last one first.
unfoldable pub last_first : (ℕ → ℕ) → ℕ → List ℕ
last_first f zero = []
last_first f (suc n) = f n ∷ last_first f n

pub data Chain (capacity : ℕ) (blocks : ℕ → Node) : Option ℕ → List ℕ → Type 0 where
  finished : Chain capacity blocks none []
  linked :
      {xs : List ℕ} (h : ℕ) (rest : List ℕ)
      → (blocks h).size ≤ capacity
      → Chain capacity blocks (blocks h).next rest
      → xs ≡ last_first (blocks h).values (blocks h).size ++ h ∷ rest
      → Chain capacity blocks (some h) xs

pub contains-append :
    (i : ℕ) (xs ys : List ℕ) → contains i (xs ++ ys) ≡ (contains i xs || contains i ys)
unfolding contains
contains-append i [] ys = refl
contains-append i (x ∷ xs) ys = ground (arith, contains-append i xs ys)

pub Distinct-append_right : (xs ys : List ℕ) → Distinct (xs ++ ys) → Distinct ys
Distinct-append_right [] ys d = d
Distinct-append_right (x ∷ xs) ys d = Distinct-append_right xs ys d.1

abbrev pub set_node : (ℕ → Node) → ℕ → Node → ℕ → Node
set_node blocks k n i = if k == i then n else blocks i

-- The block is not one of the nodes.
not_node :
    (k h : ℕ) (xs vs rest : List ℕ)
    → contains k xs ≡ false
    → xs ≡ vs ++ h ∷ rest
    → ((k == h) ≡ false) × (contains k rest ≡ false)
unfolding contains
not_node k h xs vs rest out e =
    let all : (contains k vs || contains k (h ∷ rest)) ≡ false =
      sym (contains-append k vs (h ∷ rest)) ∙ ap (contains k) (sym e) ∙ out in
    (ground (arith, all), ground (arith, all))

-- A change of a block that is not in the list.
pub Chain-apart :
    (capacity : ℕ) (blocks : ℕ → Node) (k : ℕ) (n : Node) (head : Option ℕ) (xs : List ℕ)
    → Chain capacity blocks head xs
    → contains k xs ≡ false
    → Chain capacity (set_node blocks k n) head xs
Chain-apart capacity blocks k n head xs finished out = finished
Chain-apart capacity blocks k n head xs (linked h rest small chain e) out =
    let (other, out') = not_node k h xs _ rest out e in
    let same : set_node blocks k n h ≡ blocks h = rw other refl in
    let chain' = Chain-apart capacity blocks k n (blocks h).next rest chain out' in
    linked h rest (subst (λ (m : Node). m.size ≤ capacity) (sym same) small)
      (subst (λ (m : Node). Chain capacity (set_node blocks k n) m.next rest) (sym same) chain')
      (subst (λ (m : Node). xs ≡ last_first m.values m.size ++ h ∷ rest) (sym same) e)

pub last_first-set :
    (f : ℕ → ℕ) (m v n : ℕ) → n ≤ m → last_first (λ i. if m == i then v else f i) n ≡ last_first f n
unfolding last_first
last_first-set f m v zero h = refl
last_first-set f m v (suc n) h =
    let other : (m == n) ≡ false = ground (arith, h) in
    rw (other, last_first-set f m v n (omega (arith, h))) refl

-- A value that is appended.
pub last_first-push :
    (f : ℕ → ℕ) (n v : ℕ) → last_first (λ i. if n == i then v else f i) (n + 1) ≡ v ∷ last_first f n
unfolding last_first
last_first-push f n v =
    let one_more : n + 1 ≡ suc n = omega arith in
    let here : (n == n) ≡ true = Prelude.==_self n in
    rw (one_more, here, last_first-set f n v n (omega arith)) refl
