-- ===== src/Journal/History.antt =====
-- The log as a history of transactions: what the journal's file is meant to hold, independent of
-- buffers and offsets (the format described by the records of src/engine/journal.hpp), and the
-- index that it stands for.
use extpp.Prelude.{
  ℕ, ◌+◌, ◌^◌, ◌<◌, ◌≡◌, refl, ap, ◌∙◌, List, [], ◌∷◌, ◌++◌, Option, none, some, length, arith,
  length-append, append_assoc, if◌then◌else◌, ltb, ◌==◌,
}
use extpp.Journal.Positions.{Positions, insert_or_assign, erase_from, merge}
use extpp.Journal.Records.{
  record_begin, write_size, serialize_commit, serialize_write, serialize_log_header,
  length-serialize_write, length-serialize_commit,
}

-- A block index and the block's bytes.
abbrev pub Write : Type 0
Write = ℕ × List ℕ

pub record Transaction : Type 0 where
  pub writes : List Write
  pub size : ℕ

unfoldable pub encode_write : Write → List ℕ
encode_write (i, block) = serialize_write i ++ block

unfoldable pub encode_writes : List Write → List ℕ
encode_writes [] = []
encode_writes (w ∷ ws) = encode_write w ++ encode_writes ws

unfoldable pub encode_body : Transaction → List ℕ
encode_body t = encode_writes t.writes ++ serialize_commit t.size

unfoldable pub encode : Transaction → List ℕ
unfolding encode_body
encode t = record_begin ∷ encode_body t

unfoldable pub encode_log : List Transaction → List ℕ
encode_log [] = []
encode_log (t ∷ ts) = encode t ++ encode_log ts

-- Where the blocks of a transaction lie whose first record is at `offset`; the last write wins.
unfoldable pub index_writes : ℕ → ℕ → List Write → Positions → Positions
index_writes block_size offset [] m = m
index_writes block_size offset ((i, block) ∷ ws) m =
    index_writes block_size (offset + write_size + block_size) ws
      (insert_or_assign i (offset + write_size) m)

-- The index and the database size behind a history whose log starts at `offset`.
pub record Index : Type 0 where
  pub positions : Positions
  pub size : Option ℕ

unfoldable pub apply : ℕ → ℕ → Transaction → Index → Index
apply block_size offset t x = record {
  positions =
      erase_from t.size (merge (index_writes block_size (offset + 1) t.writes []) x.positions);
  size = some t.size;
}

unfoldable pub replay : ℕ → ℕ → List Transaction → Index → Index
replay block_size offset [] x = x
replay block_size offset (t ∷ ts) x =
    replay block_size (offset + length (encode t)) ts (apply block_size offset t x)

-- The block that a transaction writes at an index, if any.
unfoldable pub lookup : ℕ → List Write → Option (List ℕ)
lookup i [] = none
lookup i ((k, block) ∷ ws) = if k == i then some block else lookup i ws

-- A later version of a block replaces the one that the transaction has already written.
unfoldable pub put : ℕ → List ℕ → List Write → List Write
put i block [] = (i, block) ∷ []
put i block ((k, old) ∷ ws) = if k == i then (k, block) ∷ ws else (k, old) ∷ put i block ws

-- What the blocks read as after a history: a commit cuts the database to its size.
unfoldable pub after : Transaction → (ℕ → Option (List ℕ)) → ℕ → Option (List ℕ)
unfolding lookup
after t f i =
    if ltb i t.size
    then (elim (lookup i t.writes) [ some block ↦ some block | none ↦ f i ])
    else none

unfoldable pub contents : List Transaction → (ℕ → Option (List ℕ)) → ℕ → Option (List ℕ)
contents [] f = f
contents (t ∷ ts) f = contents ts (after t f)

-- The bytes of a log with that history.
unfoldable pub encode_journal : ℕ → List Transaction → List ℕ
encode_journal block_size ts = serialize_log_header block_size ++ encode_log ts

-- Every block has the database's block size, is written once, and its index is valid.
abbrev pub WritesFit : ℕ → List Write → Type 0
WritesFit block_size [] = Unit {0}
WritesFit block_size ((i, block) ∷ ws) =
    (length block ≡ block_size) × (i + 1 < 2 ^ 64) × (lookup i ws ≡ none) × WritesFit block_size ws

pub record TransactionFits (block_size : ℕ) (t : Transaction) : Type 0 where
  pub writes : WritesFit block_size t.writes
  pub size : t.size + 1 < 2 ^ 64

abbrev pub HistoryFits : ℕ → List Transaction → Type 0
HistoryFits block_size [] = Unit {0}
HistoryFits block_size (t ∷ ts) = TransactionFits block_size t × HistoryFits block_size ts

pub length-encode_write :
    (i : ℕ) (block : List ℕ) → length (encode_write (i, block)) ≡ 9 + length block
unfolding encode_write
length-encode_write i block =
    omega (arith, length-append (serialize_write i) block, length-serialize_write i)

pub length-encode : (t : Transaction) → length (encode t) ≡ 1 + length (encode_writes t.writes) + 9
unfolding encode
length-encode t = omega (
  arith,
  length-append (encode_writes t.writes) (serialize_commit t.size),
  length-serialize_commit t.size,
)

pub encode_writes-append :
    (ws vs : List Write) → encode_writes (ws ++ vs) ≡ encode_writes ws ++ encode_writes vs
unfolding encode_writes
encode_writes-append [] vs = refl
encode_writes-append (w ∷ ws) vs = rw (encode_writes-append ws vs, append_assoc)

pub encode_log-append :
    (ts us : List Transaction) → encode_log (ts ++ us) ≡ encode_log ts ++ encode_log us
unfolding encode_log
encode_log-append [] us = refl
encode_log-append (t ∷ ts) us = rw (encode_log-append ts us, append_assoc)

pub replay-append :
    (block_size offset : ℕ) (ts us : List Transaction) (x : Index)
    → replay block_size offset (ts ++ us) x
      ≡ replay block_size (offset + length (encode_log ts)) us (replay block_size offset ts x)
unfolding replay encode_log
replay-append block_size offset [] us x =
    let e : offset ≡ offset + 0 = omega arith in ap (λ o. replay block_size o us x) e
replay-append block_size offset (t ∷ ts) us x =
    let e : offset + length (encode t) + length (encode_log ts)
        ≡ offset + length (encode t ++ encode_log ts) =
      omega (arith, length-append (encode t) (encode_log ts)) in
    replay-append block_size (offset + length (encode t)) ts us (apply block_size offset t x)
    ∙ ap
        (λ o.
          replay block_size o us
            (replay block_size (offset + length (encode t)) ts (apply block_size offset t x)))
        e

pub HistoryFits-snoc :
    (block_size : ℕ) (ts : List Transaction) (t : Transaction)
    → HistoryFits block_size ts
    → TransactionFits block_size t
    → HistoryFits block_size (ts ++ t ∷ [])
HistoryFits-snoc block_size [] t h f = (f, tt)
HistoryFits-snoc block_size (u ∷ ts) t h f = (h.0, HistoryFits-snoc block_size ts t h.1 f)
