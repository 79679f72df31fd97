-- ===== src/Journal/Positions.antt =====
-- std::map<block_index, u64> as the journal uses it (src/engine/journal.ipp, journal.hpp): an
-- association list in key order. Keys are compared by `block_index::operator<`
-- (include/prequel/block_index.hpp), which puts the invalid index, 2 ^ 64 - 1, first.
use extpp.Prelude.{
  ℕ, ◌+◌, ◌%◌, ◌^◌, ◌<◌, ◌≤◌, ◌≡◌, refl, List, [], ◌∷◌, Option, none, some, arith, ltb, ◌==◌,
  if◌then◌else◌,
}

-- `block_index::operator<` compares `value() + 1` in u64.
unfoldable pub rank : ℕ → ℕ
rank i = (i + 1) % 2 ^ 64

abbrev pub Positions : Type 0
Positions = List (ℕ × ℕ)

unfoldable pub find : ℕ → Positions → Option ℕ
find k [] = none
find k ((j, w) ∷ m) = if rank j == rank k then some w else find k m

-- `insert_or_assign`
unfoldable pub insert_or_assign : ℕ → ℕ → Positions → Positions
insert_or_assign k v [] = (k, v) ∷ []
insert_or_assign k v ((j, w) ∷ m) =
    if ltb (rank k) (rank j)
    then (k, v) ∷ (j, w) ∷ m
    else if ltb (rank j) (rank k)
    then (j, w) ∷ insert_or_assign k v m
    else (j, v) ∷ m

-- `erase(lower_bound(n), end())`
unfoldable pub erase_from : ℕ → Positions → Positions
erase_from n [] = []
erase_from n ((j, w) ∷ m) = if ltb (rank j) (rank n) then (j, w) ∷ erase_from n m else []

-- The loop that moves every entry of `from` into `to`.
unfoldable pub merge : Positions → Positions → Positions
merge [] to = to
merge ((k, v) ∷ from) to = merge from (insert_or_assign k v to)

-- Keys rise strictly, from `r` on.
abbrev pub Rising : ℕ → Positions → Type 0
Rising r [] = Unit {0}
Rising r ((j, w) ∷ m) = (r ≤ rank j) × Rising (rank j + 1) m

abbrev pub IsSorted : Positions → Type 0
IsSorted = Rising 0

pub find-insert_or_assign :
    (k j v : ℕ) (m : Positions)
    → find j (insert_or_assign k v m) ≡ (if rank k == rank j then some v else find j m)
unfolding find insert_or_assign
find-insert_or_assign k j v [] = refl
find-insert_or_assign k j v ((i, w) ∷ m) = ground (arith, find-insert_or_assign k j v m)

pub insert_or_assign-Rising :
    (r k v : ℕ) (m : Positions) → r ≤ rank k → Rising r m → Rising r (insert_or_assign k v m)
unfolding insert_or_assign
insert_or_assign-Rising r k v [] h s = (h, tt)
insert_or_assign-Rising r k v ((i, w) ∷ m) h s =
    ground (arith, insert_or_assign-Rising (rank i + 1) k v m)

pub Rising-find : (r k : ℕ) (m : Positions) → rank k < r → Rising r m → find k m ≡ none
unfolding find
Rising-find r k [] h s = refl
Rising-find r k ((i, w) ∷ m) h s = ground (arith, Rising-find (rank i + 1) k m)

-- What is erased is what does not lie before `n`.
pub find-erase_from :
    (r n k : ℕ) (m : Positions)
    → Rising r m
    → find k (erase_from n m) ≡ (if ltb (rank k) (rank n) then find k m else none)
unfolding find erase_from
find-erase_from r n k [] s = ground arith
find-erase_from r n k ((i, w) ∷ m) s =
    ground (arith, find-erase_from (rank i + 1) n k m, Rising-find (rank i + 1) k m)

pub erase_from-Rising : (r n : ℕ) (m : Positions) → Rising r m → Rising r (erase_from n m)
unfolding erase_from
erase_from-Rising r n [] s = tt
erase_from-Rising r n ((i, w) ∷ m) s = ground (arith, erase_from-Rising (rank i + 1) n m)

pub merge-IsSorted : (from to : Positions) → IsSorted to → IsSorted (merge from to)
unfolding merge
merge-IsSorted [] to s = s
merge-IsSorted ((k, v) ∷ from) to s =
    merge-IsSorted from (insert_or_assign k v to) (insert_or_assign-Rising 0 k v to (omega arith) s)

-- The entries that are moved win over those that were there.
pub find-merge :
    (r k : ℕ) (from to : Positions)
    → Rising r from
    → find k (merge from to) ≡ elim (find k from) [ none ↦ find k to | some p ↦ some p ]
unfolding find merge
find-merge r k [] to s = refl
find-merge r k ((i, w) ∷ from) to s = ground (
  arith,
  find-merge (rank i + 1) k from (insert_or_assign i w to),
  find-insert_or_assign i k w to,
  Rising-find (rank i + 1) k from,
)
