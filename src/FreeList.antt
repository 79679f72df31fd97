-- ===== src/FreeList.antt =====
-- The free list of allocators (include/prequel/detail/free_list.hpp, src/detail/free_list.cpp): free
-- blocks that store the indices of other free blocks. `none` stands for the invalid index.
pub mod Chain
pub mod Change
mod Tests
use extpp.Prelude.{
  ℕ, zero, suc, ◌+◌, ◌-◌, ◌/◌, ◌*◌, Bool, true, false, not, Option, none, some, Result, ok, err,
  bad_operation, bad_argument, guard, assert, ◌>>=◌, ◌>>◌, if◌then◌else◌, ltb, leb, ◌==◌,
}
use extpp.Allocator.{invalid}

-- free_list_header, and the values behind it.
pub record Node : Type 0 where
  pub next : Option ℕ
  pub size : ℕ
  pub values : ℕ → ℕ

-- The size of the header is 12 bytes, that of a value 8.
unfoldable pub capacity : ℕ → ℕ
capacity block_size = if leb block_size 12 then 0 else (block_size - 12) / 8

-- A block that has been overwritten with zeros, and initialized.
abbrev pub init : Node
init = record { next = none; size = 0; values = λ i. 0 }

-- The anchor's head and the engine's blocks.
pub record FreeList : Type 0 where
  pub head : Option ℕ
  pub blocks : ℕ → Node

abbrev pub set_block : ℕ → Node → FreeList → FreeList
set_block k n s = record s { blocks = λ i. if k == i then n else s.blocks i }

-- The constructor, which gives the capacity of the nodes.
unfoldable pub open_free_list : ℕ → Option ℕ → (ℕ → Node) → Result (ℕ × FreeList)
unfolding capacity
open_free_list block_size head blocks = do
  assert (ltb 0 (capacity block_size))
  ok (capacity block_size, record { head = head; blocks = blocks })

unfoldable pub empty : FreeList → Bool
empty s = elim s.head [ none ↦ true | some head ↦ false ]

module _ (block_capacity : ℕ) where
  unfoldable pub set_size : ℕ → Node → Result Node
  set_size new_size n = do assert (leb new_size block_capacity); ok (record n { size = new_size })

  unfoldable pub push_node : ℕ → Node → Result Node
  unfolding set_size
  push_node block n = do
    assert (not (n.size == block_capacity))
    assert (leb n.size block_capacity)
    set_size (n.size + 1) (record n { values = λ i. if n.size == i then block else n.values i })

  unfoldable pub pop_node : Node → Result (ℕ × Node)
  unfolding set_size
  pop_node n = do
    assert (not (n.size == 0))
    assert (leb (n.size - 1) block_capacity)
    n' ← set_size (n.size - 1) n
    ok (n.values (n.size - 1), n')

  -- The block becomes the first node; `overwrite_zero` refuses the invalid index.
  unfoldable pub push_front : ℕ → FreeList → Result FreeList
  push_front block s = do
    guard (not (block == invalid)) bad_argument
    ok (record (set_block block (record init { next = s.head }) s) { head = some block })

  unfoldable pub push_into : ℕ → ℕ → FreeList → Result FreeList
  unfolding push_node
  push_into block head s = do n ← push_node block (s.blocks head); ok (set_block head n s)

  unfoldable pub push : ℕ → FreeList → Result FreeList
  unfolding push_front push_into
  push block s = elim s.head [
    | none ↦ push_front block s
    | some head ↦
        if (s.blocks head).size == block_capacity
        then push_front block s
        else push_into block head s
  ]

  unfoldable pub pop_from : ℕ → FreeList → Result (ℕ × FreeList)
  unfolding pop_node
  pop_from head s = do (result, n) ← pop_node (s.blocks head); ok (result, set_block head n s)

  unfoldable pub pop : FreeList → Result (ℕ × FreeList)
  unfolding pop_from
  pop s = elim s.head [
    | none ↦ err bad_operation
    | some head ↦
        if (s.blocks head).size == 0
        then ok (head, record s { head = (s.blocks head).next })
        else pop_from head s
  ]
