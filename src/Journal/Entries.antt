-- ===== src/Journal/Entries.antt =====
-- What every entry of the journal's index satisfies: its key is a block of the database, and its
-- place lies within the log.
use extpp.Prelude.{ℕ, ◌+◌, ◌^◌, ◌<◌, ◌≡◌, List, [], ◌∷◌, Option, none, some, arith, length}
use extpp.Journal.Positions.{
  Positions, Rising, rank, find, insert_or_assign, erase_from, merge, Rising-find,
}
use extpp.Journal.Records.{write_size}
use extpp.Journal.History.{
  Write, Transaction, WritesFit, HistoryFits, Index, encode, index_writes, apply, replay,
}

-- A statement of each entry.
abbrev pub Entries : (ℕ → ℕ → Type 0) → Positions → Type 0
Entries P [] = Unit {0}
Entries P ((k, p) ∷ m) = P k p × Entries P m

abbrev pub IsKey : ℕ → ℕ → Type 0
IsKey k p = k + 1 < 2 ^ 64

insert_or_assign-IsKey :
    (k v : ℕ) (m : Positions)
    → k + 1 < 2 ^ 64
    → Entries IsKey m
    → Entries IsKey (insert_or_assign k v m)
unfolding insert_or_assign
insert_or_assign-IsKey k v [] h all = (h, tt)
insert_or_assign-IsKey k v ((j, w) ∷ m) h all = ground (arith, insert_or_assign-IsKey k v m h)

merge-IsKey :
    (from to : Positions) → Entries IsKey from → Entries IsKey to → Entries IsKey (merge from to)
unfolding merge
merge-IsKey [] to h all = all
merge-IsKey ((k, v) ∷ from) to h all =
    merge-IsKey from (insert_or_assign k v to) h.1 (insert_or_assign-IsKey k v to h.0 all)

index_writes-IsKey :
    (block_size offset : ℕ) (ws : List Write) (m : Positions)
    → WritesFit block_size ws
    → Entries IsKey m
    → Entries IsKey (index_writes block_size offset ws m)
unfolding index_writes
index_writes-IsKey block_size offset [] m fit all = all
index_writes-IsKey block_size offset ((i, block) ∷ ws) m fit all =
    index_writes-IsKey block_size (offset + write_size + block_size) ws
      (insert_or_assign i (offset + write_size) m) fit.3
      (insert_or_assign-IsKey i (offset + write_size) m fit.1 all)

-- What the last commit says of the keys.
abbrev pub Below : Option ℕ → Positions → Type 0
Below none m = m ≡ []
Below (some n) m = Entries (λ k p. (k + 1 < 2 ^ 64) × (k < n)) m

erase_from-Below :
    (n : ℕ) (m : Positions) → n + 1 < 2 ^ 64 → Entries IsKey m → Below (some n) (erase_from n m)
unfolding erase_from rank
erase_from-Below n [] h all = tt
erase_from-Below n ((k, p) ∷ m) h all = ground (arith, erase_from-Below n m h all.1)

pub Below-IsKey : (size : Option ℕ) (m : Positions) → Below size m → Entries IsKey m
Below-IsKey none m h = rw h tt
Below-IsKey (some n) [] h = tt
Below-IsKey (some n) ((k, p) ∷ m) h = (h.0.0, Below-IsKey (some n) m h.1)

pub replay-Below :
    (block_size offset : ℕ) (ts : List Transaction) (x : Index)
    → HistoryFits block_size ts
    → Below x.size x.positions
    → Below (replay block_size offset ts x).size (replay block_size offset ts x).positions
unfolding replay apply
replay-Below block_size offset [] x fits below = below
replay-Below block_size offset (t ∷ ts) x fits below =
    replay-Below block_size (offset + length (encode t)) ts (apply block_size offset t x) fits.1 (
      erase_from-Below t.size _ fits.0.size (
        merge-IsKey _ x.positions
          (index_writes-IsKey block_size (offset + 1) t.writes [] fits.0.writes tt)
          (Below-IsKey x.size x.positions below)))

-- What is true of every entry that is found is true of every entry.
pub Entries-find :
    (r : ℕ) (P : ℕ → ℕ → Type 0) (m : Positions)
    → Rising r m
    → Entries IsKey m
    → ((k p : ℕ) → k + 1 < 2 ^ 64 → find k m ≡ some p → P k p)
    → Entries P m
unfolding find
Entries-find r P [] sorted keys found = tt
Entries-find r P ((i, v) ∷ m) sorted keys found = (
  found i v keys.0 (ground arith),
  Entries-find (rank i + 1) P m sorted.1 keys.1
      (λ k p h e. found k p h (ground (arith, e, Rising-find (rank i + 1) k m))),
)

pub Entries-and :
    (P Q : ℕ → ℕ → Type 0) (m : Positions)
    → Entries P m
    → Entries Q m
    → Entries (λ k p. P k p × Q k p) m
Entries-and P Q [] p q = tt
Entries-and P Q (e ∷ m) p q = ((p.0, q.0), Entries-and P Q m p.1 q.1)

pub Below-some :
    (size : Option ℕ) (n : ℕ) (m : Positions) → size ≡ some n → Below size m → Below (some n) m
Below-some size n m e h = rw e at h

abbrev pub SizeFits : Option ℕ → Type 0
SizeFits none = Unit {0}
SizeFits (some n) = n + 1 < 2 ^ 64

pub replay-SizeFits :
    (block_size offset : ℕ) (ts : List Transaction) (x : Index)
    → HistoryFits block_size ts
    → SizeFits x.size
    → SizeFits (replay block_size offset ts x).size
unfolding replay apply
replay-SizeFits block_size offset [] x fits h = h
replay-SizeFits block_size offset (t ∷ ts) x fits h =
    replay-SizeFits block_size (offset + length (encode t)) ts (apply block_size offset t x) fits.1
      fits.0.size
