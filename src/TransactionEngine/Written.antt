-- ===== src/TransactionEngine/Written.antt =====
-- What the journal (src/engine/journal.hpp) tells the transaction engine of its history: the blocks
-- that a transaction has written so far, and the size of the database.
use extpp.Prelude.{
  ℕ, ◌+◌, ◌*◌, ◌^◌, ◌≤◌, ◌<◌, ◌≡◌, ◌∙◌, refl, sym, true, false, List, [], ◌∷◌, ◌++◌, Option, none,
  some, ltb, length, arith, Option-cases, inl, inr,
}
use mathlib.Core.List.{map}
use extpp.Journal.{Journal}
use extpp.Journal.Positions.{Positions, find, insert_or_assign}
use extpp.Journal.Records.{write_size}
use extpp.Journal.Index.{place, place-lookup, find-index_writes, rank_eq}
use extpp.Journal.History.{
  Transaction, Write, WritesFit, HistoryFits, Index, lookup, after, contents, apply, replay,
  index_writes, encode,
}
use extpp.Journal.State.{Idle}
use extpp.Journal.Reading.{current}
use extpp.Engine.{Bytes}
use extpp.Engine.Blocks.{contains}
use extpp.TransactionEngine.{value_or}
use extpp.TransactionEngine.Device.{Disk, InRange}

-- The keys of an index are block indices that may be used.
abbrev pub AllInRange : List ℕ → Type 0
AllInRange [] = Unit {0}
AllInRange (k ∷ ks) = InRange k × AllInRange ks

abbrev pub keys : Positions → List ℕ
keys m = map (λ entry. entry.0) m

insert_or_assign-AllInRange :
    (k v : ℕ) (m : Positions)
    → InRange k
    → AllInRange (keys m)
    → AllInRange (keys (insert_or_assign k v m))
unfolding insert_or_assign map
insert_or_assign-AllInRange k v [] h all = (h, tt)
insert_or_assign-AllInRange k v ((j, w) ∷ m) h all =
    ground (arith, insert_or_assign-AllInRange k v m)

pub index_writes-AllInRange :
    (block_size offset : ℕ) (ws : List Write) (m : Positions)
    → WritesFit block_size ws
    → AllInRange (keys m)
    → AllInRange (keys (index_writes block_size offset ws m))
unfolding index_writes
index_writes-AllInRange block_size offset [] m fit all = all
index_writes-AllInRange block_size offset ((i, block) ∷ ws) m fit all =
    index_writes-AllInRange block_size (offset + write_size + block_size) ws _ fit.3
      (insert_or_assign-AllInRange i (offset + write_size) m fit.1 all)

find-keys :
    (i p : ℕ) (m : Positions)
    → InRange i
    → AllInRange (keys m)
    → find i m ≡ some p
    → contains i (keys m) ≡ true
unfolding find contains map
find-keys i p [] h all found = ground (arith, found)
find-keys i p ((j, w) ∷ m) h all found = ground (arith, find-keys i p m, rank_eq j i)

-- The callback is called for every block that the transaction has written.
pub lookup-keys :
    (block_size offset i : ℕ) (ws : List Write) (b : Bytes)
    → InRange i
    → WritesFit block_size ws
    → lookup i ws ≡ some b
    → contains i (keys (index_writes block_size offset ws [])) ≡ true
lookup-keys block_size offset i ws b h fit found =
    elim (Option-cases (place block_size offset i ws)) [
      | inl absent ↦ absurd (
          let e : none ≡ some b = sym (place-lookup block_size offset i ws absent) ∙ found in
          ground (arith, e))
      | inr (p, placed) ↦
          find-keys i p _ h (index_writes-AllInRange block_size offset ws [] fit (unfold map in tt))
            (find-index_writes block_size offset i ws [] h fit ∙ rw placed refl)
    ]

-- A history has no block behind the size of its last commit.
replay-beyond :
    (block_size offset : ℕ) (ts : List Transaction) (x : Index) (f : ℕ → Option Bytes) (n i : ℕ)
    → (value_or x.size n ≤ i → f i ≡ none)
    → value_or (replay block_size offset ts x).size n ≤ i
    → contents ts f i ≡ none
unfolding replay contents apply after
replay-beyond block_size offset [] x f n i h out = h out
replay-beyond block_size offset (t ∷ ts) x f n i h out =
    replay-beyond block_size (offset + length (encode t)) ts (apply block_size offset t x)
      (after t f) n i
      (λ beyond.
        let not_inside : ltb i t.size ≡ false = ground (arith, beyond) in rw not_inside refl)
      out

replay-small :
    (block_size offset : ℕ) (ts : List Transaction) (x : Index) (n : ℕ)
    → HistoryFits block_size ts
    → value_or x.size n + 1 < 2 ^ 64
    → value_or (replay block_size offset ts x).size n + 1 < 2 ^ 64
unfolding replay apply
replay-small block_size offset [] x n fits small = small
replay-small block_size offset (t ∷ ts) x n fits small =
    replay-small block_size (offset + length (encode t)) ts (apply block_size offset t x) n fits.1
      fits.0.size

-- The size that the last transaction of a history has recorded.
unfoldable pub last_size : List Transaction → ℕ → ℕ
last_size [] n = n
last_size (t ∷ ts) n = last_size ts t.size

pub last_size-snoc :
    (ts : List Transaction) (t : Transaction) (n : ℕ) → last_size (ts ++ t ∷ []) n ≡ t.size
unfolding last_size
last_size-snoc [] t n = refl
last_size-snoc (u ∷ ts) t n = last_size-snoc ts t u.size

replay-last_size :
    (block_size offset : ℕ) (ts : List Transaction) (x : Index) (n : ℕ)
    → value_or (replay block_size offset ts x).size n ≡ last_size ts (value_or x.size n)
unfolding replay apply last_size
replay-last_size block_size offset [] x n = refl
replay-last_size block_size offset (t ∷ ts) x n =
    replay-last_size block_size (offset + length (encode t)) ts (apply block_size offset t x) n

module _ (disk : Disk) (ts : List Transaction) (j : Journal)
    (idle : Idle disk.block_size ts j) where
  -- The size that a journal gives its database.
  pub size-beyond : (i : ℕ) → value_or j.database_size disk.db_blocks ≤ i → current ts i ≡ none
  size-beyond i out =
      replay-beyond disk.block_size _ ts _ (λ k. none) disk.db_blocks i (λ h. refl)
        (rw idle.holds.size at out)

  pub size-small : value_or j.database_size disk.db_blocks + 1 < 2 ^ 64
  size-small =
      let bound : disk.db_blocks * 1 ≤ disk.db_blocks * disk.block_size = grind (arith, disk.pos) in
      rw idle.holds.size (
        replay-small disk.block_size _ ts _ disk.db_blocks idle.holds.fits
          (omega (arith, disk.whole, disk.narrow, bound)))

  pub size-last_size : value_or j.database_size disk.db_blocks ≡ last_size ts disk.db_blocks
  size-last_size = rw idle.holds.size (replay-last_size disk.block_size _ ts _ disk.db_blocks)
