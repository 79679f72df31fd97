-- ===== src/FreeList/Tests.antt =====
-- A free list of two blocks, and the theorems applied to it.
use extpp.Prelude.{ℕ, ◌≡◌, refl, [], ◌∷◌, none, some, ok, err, bad_argument, arith}
use extpp.Engine.Blocks.{contains, Distinct}
use extpp.Allocator.{invalid}
use extpp.FreeList.{FreeList, Node, push, push_front, pop, capacity}
use extpp.FreeList.Chain.{Chain, finished, linked, last_first}
use extpp.FreeList.Change.{push-Chain, pop-Taken}

-- Blocks of 20 bytes have room for one index.
capacity_test : capacity 20 ≡ 1
unfolding capacity
capacity_test = refl

abbrev nodes : ℕ → Node
nodes i = record { next = none; size = 1; values = λ k. 7 }

abbrev two_blocks : FreeList
two_blocks = record { head = some 5; blocks = nodes }

two_blocks-Chain : Chain 1 nodes (some 5) (7 ∷ 5 ∷ [])
unfolding last_first
two_blocks-Chain = linked 5 [] (omega arith) finished refl

two_blocks-Distinct : Distinct (7 ∷ 5 ∷ [])
unfolding contains
two_blocks-Distinct = (refl, (refl, tt))

push-Chain_example :
    (s : FreeList) × (push 1 9 two_blocks ≡ ok s) × Chain 1 s.blocks s.head (9 ∷ 7 ∷ 5 ∷ [])
push-Chain_example =
    push-Chain 1 two_blocks 9 (7 ∷ 5 ∷ []) two_blocks-Chain two_blocks-Distinct
      (unfold contains in refl) (omega arith)

-- A full head node, and the invalid index.
push-invalid : push 1 invalid two_blocks ≡ err bad_argument
unfolding push push_front
push-invalid = refl

pop-Taken_example :
    (s : FreeList) × (pop 1 two_blocks ≡ ok (7, s)) × Chain 1 s.blocks s.head (5 ∷ [])
pop-Taken_example = pop-Taken 1 two_blocks (7 ∷ 5 ∷ []) two_blocks-Chain two_blocks-Distinct
