-- ===== src/Engine/Blocks.antt =====
-- The blocks that an engine has in memory (src/engine/block.hpp) and the sets that link them:
-- block_map, block_cache and block_dirty_set. A block is named by its index; the hooks of a block
-- allow it to be linked once, so that removing it removes what has its index.
use extpp.Prelude.{
  ℕ, zero, suc, ◌≡◌, ◌∙◌, refl, sym, ap, Bool, true, false, ◌||◌, List, [], ◌∷◌, Option, none, some,
  if◌then◌else◌, ltb, ◌==◌, arith, Bool-cases, inl, inr, length,
}
use extpp.Prelude

-- struct block: `cached` and `dirty` are its membership in the sets.
pub record Block : Type 0 where
  pub index : ℕ
  pub bytes : List ℕ
  pub pinned : Bool

-- block_map.
unfoldable pub find : ℕ → List Block → Option Block
find i [] = none
find i (b ∷ blocks) = if b.index == i then some b else find i blocks

unfoldable pub remove_block : ℕ → List Block → List Block
remove_block i [] = []
remove_block i (b ∷ blocks) =
    let rest = remove_block i blocks in if b.index == i then rest else b ∷ rest

-- A change of a block through a pointer to it.
unfoldable pub change : Block → List Block → List Block
change new [] = []
change new (b ∷ blocks) =
    let rest = change new blocks in if b.index == new.index then new ∷ rest else b ∷ rest

-- block_cache, most recently used first, and block_dirty_set, in the order of the indices.
unfoldable pub contains : ℕ → List ℕ → Bool
contains i [] = false
contains i (k ∷ ks) = (k == i) || contains i ks

unfoldable pub remove : ℕ → List ℕ → List ℕ
remove i [] = []
remove i (k ∷ ks) = let rest = remove i ks in if k == i then rest else k ∷ rest

unfoldable pub lru_candidate : List ℕ → Option ℕ
lru_candidate [] = none
lru_candidate (k ∷ []) = some k
lru_candidate (k ∷ l ∷ ks) = lru_candidate (l ∷ ks)

unfoldable pub add : ℕ → List ℕ → List ℕ
add i [] = i ∷ []
add i (k ∷ ks) = if ltb i k then i ∷ k ∷ ks else k ∷ add i ks

pub find-remove_block :
    (i j : ℕ) (blocks : List Block)
    → find j (remove_block i blocks) ≡ (if i == j then none else find j blocks)
unfolding find remove_block
find-remove_block i j [] = ground arith
find-remove_block i j (b ∷ blocks) = ground (arith, find-remove_block i j blocks)

find-change_other :
    (new : Block) (j : ℕ) (blocks : List Block)
    → (new.index == j) ≡ false
    → find j (change new blocks) ≡ find j blocks
unfolding find change
find-change_other new j [] h = refl
find-change_other new j (b ∷ blocks) h = ground (arith, find-change_other new j blocks h)

find-change_here :
    (new old : Block) (blocks : List Block)
    → find new.index blocks ≡ some old
    → find new.index (change new blocks) ≡ some new
unfolding find change
find-change_here new old [] h = ground arith
find-change_here new old (b ∷ blocks) h = elim (Bool-cases (b.index == new.index)) [
  | inl here ↦ rw (here, Prelude.==_self new.index) refl
  | inr other ↦ rw (other, other) (find-change_here new old blocks (rw other at h))
]

-- The block that is changed is there, and is named by its index.
pub find-change :
    (new old : Block) (j : ℕ) (blocks : List Block)
    → find new.index blocks ≡ some old
    → find j (change new blocks) ≡ (if new.index == j then some new else find j blocks)
find-change new old j blocks h = elim (Bool-cases (new.index == j)) [
  | inl here ↦
      let e : new.index ≡ j = (Prelude.==_iff new.index j).0 here in
      rw here (ap (λ k. find k (change new blocks)) (sym e) ∙ find-change_here new old blocks h)
  | inr other ↦ rw other (find-change_other new j blocks other)
]

abbrev index_of : Option Block → ℕ
index_of none = 0
index_of (some b) = b.index

pub find-index : (i : ℕ) (b : Block) (blocks : List Block) → find i blocks ≡ some b → b.index ≡ i
unfolding find
find-index i b [] h = ground arith
find-index i b (c ∷ blocks) h = elim (Bool-cases (c.index == i)) [
  | inl here ↦
      let same : some c ≡ some b = rw here at h in
      ap (λ o. index_of o) (sym same) ∙ (Prelude.==_iff c.index i).0 here
  | inr other ↦ find-index i b blocks (rw other at h)
]

pub length-change : (new : Block) (blocks : List Block) → length (change new blocks) ≡ length blocks
unfolding change
length-change new [] = refl
length-change new (b ∷ blocks) = ground (arith, length-change new blocks)

pub contains-remove :
    (i j : ℕ) (ks : List ℕ) → contains j (remove i ks) ≡ (if i == j then false else contains j ks)
unfolding contains remove
contains-remove i j [] = ground arith
contains-remove i j (k ∷ ks) = ground (arith, contains-remove i j ks)

pub contains-add : (i j : ℕ) (ks : List ℕ) → contains j (add i ks) ≡ (i == j) || contains j ks
unfolding contains add
contains-add i j [] = ground arith
contains-add i j (k ∷ ks) = ground (arith, contains-add i j ks)

pub contains-lru_candidate :
    (i : ℕ) (ks : List ℕ) → lru_candidate ks ≡ some i → contains i ks ≡ true
unfolding contains lru_candidate
contains-lru_candidate i [] h = ground arith
contains-lru_candidate i (k ∷ []) h = ground arith
contains-lru_candidate i (k ∷ l ∷ ks) h = ground (arith, contains-lru_candidate i (l ∷ ks) h)

-- A list in which no index stands twice.
abbrev pub Distinct : List ℕ → Type 0
Distinct [] = Unit {0}
Distinct (k ∷ ks) = (contains k ks ≡ false) × Distinct ks

pub remove-Distinct : (i : ℕ) (ks : List ℕ) → Distinct ks → Distinct (remove i ks)
unfolding remove
remove-Distinct i [] d = tt
remove-Distinct i (k ∷ ks) d = elim (Bool-cases (k == i)) [
  | inl here ↦ rw here (remove-Distinct i ks d.1)
  | inr other ↦ rw other (ground (arith, contains-remove i k ks, d.0), remove-Distinct i ks d.1)
]

pub add-Distinct : (i : ℕ) (ks : List ℕ) → contains i ks ≡ false → Distinct ks → Distinct (add i ks)
unfolding add contains
add-Distinct i [] out d = (refl, tt)
add-Distinct i (k ∷ ks) out d = elim (Bool-cases (ltb i k)) [
  | inl before ↦ rw before (out, d)
  | inr behind ↦
      let apart : (i == k) ≡ false = ground arith in
      rw behind (contains-add i k ks ∙ rw apart d.0, add-Distinct i ks (ground arith) d.1)
]
