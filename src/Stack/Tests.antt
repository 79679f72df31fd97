-- ===== src/Stack/Tests.antt =====
-- A concrete allocator, a stack of two nodes over it, and the theorems of the stack applied to it.
use extpp.Prelude.{
  ℕ, zero, suc, ◌+◌, ◌-◌, ◌≤◌, ◌<◌, ◌≡◌, ◌≢◌, refl, sym, ap, ◌∙◌, Bool, true, false, List, [], ◌∷◌,
  ◌++◌, ◌||◌, if◌then◌else◌, ◌==◌, ltb, length, arith, Bool-cases, inl, inr, ok, err, io_error,
  bad_operation, Result,
}
use extpp.Prelude
use extpp.Allocator.{Allocator, invalid}
use extpp.Stack.{Value, Node, Stack, push, pop, compute_capacity, reset, validate, open_stack}
use extpp.Stack.Chain.{contents, Each, NodeFits}
use extpp.Stack.Valid.{IsValid}
use extpp.Stack.Push.{Gives}
use extpp.Stack.Push.Outcome.{push-Gives, push-refused}
use extpp.Stack.Pop.Outcome.{Popped, pop-Popped}
use extpp.Stack.Whole.{reset-empty, validate-ok, open_stack-reopens}

-- Blocks are handed out behind the highest one in use, `limit` of them at most.
abbrev limit : ℕ
limit = 100

abbrev in_use : List ℕ → ℕ → Bool
in_use [] k = false
in_use (i ∷ a) k = (i == k) || in_use a k

abbrev highest : List ℕ → ℕ
highest [] = 0
highest (i ∷ a) = Prelude.max i (highest a)

abbrev remove : List ℕ → ℕ → List ℕ
remove [] i = []
remove (k ∷ a) i = if k == i then remove a i else k ∷ remove a i

abbrev take_block : List ℕ → ℕ → Result (ℕ × List ℕ)
take_block a n =
    if ltb (highest a) limit then ok (highest a + 1, (highest a + 1) ∷ a) else err io_error

abbrev give_block : List ℕ → ℕ → ℕ → Result (List ℕ)
give_block a i n = if in_use a i then ok (remove a i) else err io_error

in_use-highest : (a : List ℕ) (k : ℕ) → highest a < k → in_use a k ≡ false
in_use-highest [] k h = refl
in_use-highest (i ∷ a) k h = ground (arith, in_use-highest a k (omega arith))

in_use-remove :
    (a : List ℕ) (i k : ℕ) → in_use (remove a i) k ≡ (if i == k then false else in_use a k)
in_use-remove [] i k = ground arith
in_use-remove (j ∷ a) i k = ground (arith, in_use-remove a i k)

take_block-valid : (a a' : List ℕ) (i : ℕ) → take_block a 1 ≡ ok (i, a') → i ≢ invalid
take_block-valid a a' i h = ground arith

take_block-fresh : (a a' : List ℕ) (i : ℕ) → take_block a 1 ≡ ok (i, a') → in_use a i ≡ false
take_block-fresh a a' i h = ground (arith, in_use-highest a (highest a + 1) (omega arith))

in_use-take_block :
    (a a' : List ℕ) (i k : ℕ)
    → take_block a 1 ≡ ok (i, a')
    → in_use a' k ≡ (if i == k then true else in_use a k)
in_use-take_block a a' i k h = ground arith

give_block-ok :
    (a : List ℕ) (i : ℕ) → in_use a i ≡ true → (a' : List ℕ) × (give_block a i 1 ≡ ok a')
give_block-ok a i h = (remove a i, rw h refl)

in_use-give_block :
    (a a' : List ℕ) (i k : ℕ)
    → give_block a i 1 ≡ ok a'
    → in_use a' k ≡ (if i == k then false else in_use a k)
in_use-give_block a a' i k h = ground (arith, in_use-remove a i k)

abbrev blocks_of_file : Allocator
blocks_of_file = record {
  State = List ℕ;
  used = in_use;
  allocate = take_block;
  free = give_block;
  allocate-valid = take_block-valid;
  allocate-fresh = take_block-fresh;
  used-allocate = in_use-take_block;
  free-ok = give_block-ok;
  used-free = in_use-give_block;
}

-- Two values of four bytes to a node; the lower node is full.
abbrev value : ℕ → Value
value n = n ∷ 0 ∷ 0 ∷ 0 ∷ []

abbrev nodes_of : ℕ → ℕ → Node
nodes_of above i =
    if i == 1
    then record { prev = invalid; size = 2; slots = value 11 ∷ value 12 ∷ [] }
    else record { prev = 1; size = above; slots = value 13 ∷ value 14 ∷ [] }

abbrev of_two : ℕ → ℕ → List ℕ → Stack blocks_of_file
of_two above total handed_out = record {
  top_node = 2;
  size = total;
  nodes = 2;
  value_size = 4;
  capacity = 2;
  buffer = 1 ∷ 2 ∷ [];
  blocks = nodes_of above;
  space = handed_out;
}

of_two-fits : (above : ℕ) → above ≤ 2 → Each (λ k. NodeFits 2 (nodes_of above k)) (2 ∷ 1 ∷ [])
of_two-fits above small =
    (record { slots = refl; size = small }, (record { slots = refl; size = omega arith }, tt))

abbrev taken : List ℕ
taken = 2 ∷ 1 ∷ []

-- One value above, and none.
abbrev with_three : Stack blocks_of_file
with_three = of_two 1 3 taken

with_three-IsValid : IsValid blocks_of_file with_three taken
unfolding contents
with_three-IsValid = record {
  chain = (refl, omega arith, (omega arith, tt), (refl, omega arith, tt, refl));
  fits = of_two-fits 1 (omega arith);
  shape = (omega arith, inr refl, tt);
  count = refl;
  total = refl;
  buffered = refl;
  owned = (refl, (refl, tt));
  room = omega arith;
}

full_above-IsValid :
    (handed_out : List ℕ)
    → in_use handed_out 2 ≡ true
    → in_use handed_out 1 ≡ true
    → IsValid blocks_of_file (of_two 2 4 handed_out) taken
unfolding contents
full_above-IsValid handed_out two one = record {
  chain = (refl, omega arith, (omega arith, tt), (refl, omega arith, tt, refl));
  fits = of_two-fits 2 (omega arith);
  shape = (omega arith, inr refl, tt);
  count = refl;
  total = refl;
  buffered = refl;
  owned = (two, (one, tt));
  room = omega arith;
}

none_above-IsValid : IsValid blocks_of_file (of_two 0 2 taken) taken
unfolding contents
none_above-IsValid = record {
  chain = (refl, omega arith, (omega arith, tt), (refl, omega arith, tt, refl));
  fits = of_two-fits 0 (omega arith);
  shape = (omega arith, inr refl, tt);
  count = refl;
  total = refl;
  buffered = refl;
  owned = (refl, (refl, tt));
  room = omega arith;
}

push-Gives_example :
    Gives blocks_of_file
      (push blocks_of_file (value 15) (of_two 2 4 taken))
      (value 15 ∷ value 14 ∷ value 13 ∷ value 12 ∷ value 11 ∷ [])
unfolding contents
push-Gives_example =
    push-Gives blocks_of_file (of_two 2 4 taken) taken (value 15) 3 (3 ∷ taken)
      (full_above-IsValid taken refl refl) refl

push-refused_example : push blocks_of_file (value 15) (of_two 2 4 (100 ∷ taken)) ≡ err io_error
push-refused_example =
    push-refused blocks_of_file (of_two 2 4 (100 ∷ taken)) taken (value 15) io_error
      (full_above-IsValid (100 ∷ taken) refl refl) (refl, (refl, tt)) refl

pop-Popped_example :
    Popped blocks_of_file (pop blocks_of_file (of_two 0 2 taken)) (value 12 ∷ value 11 ∷ [])
unfolding contents
pop-Popped_example = pop-Popped blocks_of_file (of_two 0 2 taken) taken none_above-IsValid

reset-empty_example :
    (s' : Stack blocks_of_file) × (reset blocks_of_file with_three ≡ ok s')
    × IsValid blocks_of_file s' []
    × Each (λ k. in_use s'.space k ≡ false) taken
    × ((j : ℕ) → Each (λ k. k ≢ j) taken → in_use s'.space j ≡ in_use taken j)
reset-empty_example = reset-empty blocks_of_file with_three taken with_three-IsValid

validate-ok_example : validate blocks_of_file 2 with_three ≡ ok tt
validate-ok_example = validate-ok blocks_of_file with_three taken with_three-IsValid

open_stack-reopens_example : open_stack blocks_of_file 20 4 2 3 2 (nodes_of 1) taken ≡ ok with_three
unfolding compute_capacity
open_stack-reopens_example =
    open_stack-reopens blocks_of_file with_three taken 20 with_three-IsValid refl
