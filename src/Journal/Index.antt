-- ===== src/Journal/Index.antt =====
-- Where the blocks of a running transaction lie in the log (the index that `write` of
-- src/engine/journal.ipp keeps), and what lies there.
use extpp.Prelude.{
  ℕ, zero, suc, ◌+◌, ◌%◌, ◌^◌, ◌≤◌, ◌<◌, ◌≡◌, refl, sym, ap, ◌∙◌, Bool, true, false, List, [], ◌∷◌,
  ◌++◌, Option, none, some, length, slice, splice, arith, ◌==◌, if◌then◌else◌, length-append,
  append_assoc, append-nil, slice-middle, Bool-cases, inl, inr, ltb,
}
use extpp.Prelude
use extpp.Journal.Positions.{
  Positions, IsSorted, rank, find, insert_or_assign, find-insert_or_assign, insert_or_assign-Rising,
}
use extpp.Journal.Records.{write_size, serialize_write, length-serialize_write}
use extpp.Journal.History.{
  Write, encode_write, encode_writes, index_writes, lookup, put, WritesFit, length-encode_write,
}

pub rank_eq : (i k : ℕ) → i < 2 ^ 64 → k < 2 ^ 64 → (rank i == rank k) ≡ (i == k)
unfolding rank
rank_eq i k hi hk = ground arith

pub rank_lt : (i n : ℕ) → i + 1 < 2 ^ 64 → n + 1 < 2 ^ 64 → ltb (rank i) (rank n) ≡ ltb i n
unfolding rank
rank_lt i n hi hn = ground arith

-- The offset of the block at index `i`, if the writes from `offset` on hold it.
unfoldable pub place : ℕ → ℕ → ℕ → List Write → Option ℕ
place block_size offset i [] = none
place block_size offset i ((k, block) ∷ ws) =
    if k == i
    then some (offset + write_size)
    else place block_size (offset + write_size + block_size) i ws

pub place-eq-none :
    (block_size offset i : ℕ) (ws : List Write)
    → lookup i ws ≡ none
    → place block_size offset i ws ≡ none
unfolding place lookup
place-eq-none block_size offset i [] h = refl
place-eq-none block_size offset i ((k, block) ∷ ws) h =
    ground (arith, place-eq-none block_size (offset + write_size + block_size) i ws)

pub find-index_writes :
    (block_size offset i : ℕ) (ws : List Write) (m : Positions)
    → i + 1 < 2 ^ 64
    → WritesFit block_size ws
    → find i (index_writes block_size offset ws m)
      ≡ elim (place block_size offset i ws) [ none ↦ find i m | some p ↦ some p ]
unfolding index_writes place
find-index_writes block_size offset i [] m h fit = refl
find-index_writes block_size offset i ((k, block) ∷ ws) m h fit = ground (
  arith,
  find-index_writes block_size (offset + write_size + block_size) i ws
      (insert_or_assign k (offset + write_size) m),
  find-insert_or_assign k i (offset + write_size) m,
  rank_eq k i,
  place-eq-none block_size (offset + write_size + block_size) k ws,
)

pub index_writes-IsSorted :
    (block_size offset : ℕ) (ws : List Write) (m : Positions)
    → IsSorted m
    → IsSorted (index_writes block_size offset ws m)
unfolding index_writes
index_writes-IsSorted block_size offset [] m s = s
index_writes-IsSorted block_size offset ((k, block) ∷ ws) m s =
    index_writes-IsSorted block_size (offset + write_size + block_size) ws
      (insert_or_assign k (offset + write_size) m)
      (insert_or_assign-Rising 0 k (offset + write_size) m (omega arith) s)

-- What a place of a write in a log means.
pub record Placed (block_size i p : ℕ) (before : List ℕ) (ws : List Write) (block : List ℕ)
    : Type 0 where
  pub written : lookup i ws ≡ some block
  pub within : p + block_size ≤ length (before ++ encode_writes ws)
  pub content : slice (before ++ encode_writes ws) p block_size ≡ block
  pub rewrite :
      (new : List ℕ)
      → length new ≡ block_size
      → splice (before ++ encode_writes ws) p new ≡ before ++ encode_writes (put i new ws)

splice-middle {ℓ} :
    {A : Type ℓ} (i : ℕ) (xs ys zs new : List A)
    → i ≡ length xs
    → length new ≡ length ys
    → splice (xs ++ (ys ++ zs)) i new ≡ xs ++ (new ++ zs)
unfolding splice
splice-middle i xs ys zs new hi hn = rw (
  Prelude.take-append_ge i 0 xs (ys ++ zs) (omega arith),
  Prelude.drop-append_ge (i + length new) (length ys) xs (ys ++ zs) (omega arith),
  Prelude.drop-append_ge (length ys) 0 ys zs (omega arith),
  Prelude.append-nil,
)

place_here :
    (block_size p k : ℕ) (before : List ℕ) (block : List ℕ) (ws : List Write)
    → length block ≡ block_size
    → p ≡ length before + write_size
    → Placed block_size k p before ((k, block) ∷ ws) block
unfolding lookup encode_writes encode_write put
place_here block_size p k before block ws fit at =
    let head = before ++ serialize_write k in
    let size : p ≡ length head =
      omega (arith, length-append before (serialize_write k), length-serialize_write k) in
    let regroup : before ++ (serialize_write k ++ block ++ encode_writes ws)
        ≡ head ++ (block ++ encode_writes ws) =
      simp append_assoc in
    record {
      written = rw (Prelude.==_self k);
      within = rw regroup (
          omega (
            arith,
            length-append head (block ++ encode_writes ws),
            length-append block (encode_writes ws),
          ));
      content = rw regroup (slice-middle p block_size head block (encode_writes ws) size (sym fit));
      rewrite = λ new e.
          rw (regroup, Prelude.==_self k)
            (splice-middle p head block (encode_writes ws) new size (e ∙ sym fit)
              ∙ simp append_assoc);
    }

place_later :
    (block_size i p k : ℕ) (before : List ℕ) (old block : List ℕ) (ws : List Write)
    → (k == i) ≡ false
    → Placed block_size i p (before ++ encode_write (k, old)) ws block
    → Placed block_size i p before ((k, old) ∷ ws) block
unfolding lookup encode_writes put
place_later block_size i p k before old block ws other later = record {
  written = rw other later.written;
  within = rw (← append_assoc before (encode_write (k, old)) (encode_writes ws)) later.within;
  content = rw (← append_assoc before (encode_write (k, old)) (encode_writes ws)) later.content;
  rewrite = λ new e.
      rw (other, ← append_assoc before (encode_write (k, old)) (encode_writes ws))
        (later.rewrite new e
          ∙ append_assoc before (encode_write (k, old)) (encode_writes (put i new ws)));
}

-- A place that is found holds the block.
pub place-Placed :
    (block_size offset i p : ℕ) (before : List ℕ) (ws : List Write)
    → WritesFit block_size ws
    → offset ≡ length before
    → place block_size offset i ws ≡ some p
    → (block : List ℕ) × Placed block_size i p before ws block
unfolding place
place-Placed block_size offset i p before [] fit at h = cc
place-Placed block_size offset i p before ((k, old) ∷ ws) fit at h = elim (Bool-cases (k == i)) [
  | inl same ↦
      let e : k ≡ i = ground arith in
      let here : p ≡ length before + write_size = ground arith in
      (
        old,
        Prelude.subst (λ x. Placed block_size x p before ((k, old) ∷ ws) old) e
            (place_here block_size p k before old ws fit.0 here),
      )
  | inr other ↦
      let (block, later) =
        place-Placed block_size (offset + write_size + block_size) i p
          (before ++ encode_write (k, old)) ws fit.3
          (omega (arith, length-append before (encode_write (k, old)), length-encode_write k old))
          (rw other at h) in
      (block, place_later block_size i p k before old block ws other later)
]

pub lookup-put :
    (i k : ℕ) (block : List ℕ) (ws : List Write)
    → lookup k (put i block ws) ≡ (if k == i then some block else lookup k ws)
unfolding lookup put
lookup-put i k block [] = ground arith
lookup-put i k block ((j, old) ∷ ws) = ground (arith, lookup-put i k block ws)

pub put-WritesFit :
    (block_size i : ℕ) (block : List ℕ) (ws : List Write)
    → length block ≡ block_size
    → i + 1 < 2 ^ 64
    → WritesFit block_size ws
    → WritesFit block_size (put i block ws)
unfolding put
put-WritesFit block_size i block [] e h fit = unfold lookup in (e, h, refl, tt)
put-WritesFit block_size i block ((k, old) ∷ ws) e h fit =
    ground (arith, put-WritesFit block_size i block ws e h, lookup-put i k block ws)

-- A block that is overwritten stays where it is.
pub index_writes-put-some :
    (block_size offset i : ℕ) (new block : List ℕ) (ws : List Write) (m : Positions)
    → lookup i ws ≡ some block
    → index_writes block_size offset (put i new ws) m ≡ index_writes block_size offset ws m
unfolding index_writes put lookup
index_writes-put-some block_size offset i new block [] m h = cc
index_writes-put-some block_size offset i new block ((k, old) ∷ ws) m h = ground (
  arith,
  index_writes-put-some block_size (offset + write_size + block_size) i new block ws
      (insert_or_assign k (offset + write_size) m),
)

-- A new block lies behind all others.
pub index_writes-put-none :
    (block_size offset i : ℕ) (new : List ℕ) (ws : List Write) (m : Positions)
    → WritesFit block_size ws
    → lookup i ws ≡ none
    → index_writes block_size offset (put i new ws) m
      ≡ insert_or_assign i
          (offset + length (encode_writes ws) + write_size)
          (index_writes block_size offset ws m)
unfolding index_writes put lookup encode_writes
index_writes-put-none block_size offset i new [] m fit h =
    let e : offset + write_size ≡ offset + 0 + write_size = omega arith in
    ap (λ o. insert_or_assign i o m) e
index_writes-put-none block_size offset i new ((k, old) ∷ ws) m fit h =
    let e : offset + write_size + block_size + length (encode_writes ws) + write_size
        ≡ offset + length (encode_write (k, old) ++ encode_writes ws) + write_size =
      omega (
        arith,
        length-append (encode_write (k, old)) (encode_writes ws),
        length-encode_write k old,
      ) in
    ground (
      arith,
      e,
      index_writes-put-none block_size (offset + write_size + block_size) i new ws
          (insert_or_assign k (offset + write_size) m),
    )

pub encode_writes-put-none :
    (i : ℕ) (new : List ℕ) (ws : List Write)
    → lookup i ws ≡ none
    → encode_writes (put i new ws) ≡ encode_writes ws ++ encode_write (i, new)
unfolding encode_writes put lookup
encode_writes-put-none i new [] h = append-nil (encode_write (i, new))
encode_writes-put-none i new ((k, old) ∷ ws) h = elim (Bool-cases (k == i)) [
  | inl same ↦ absurd (ground arith)
  | inr other ↦
      rw (other, encode_writes-put-none i new ws (rw other at h))
        (sym (append_assoc (encode_write (k, old)) (encode_writes ws) (encode_write (i, new))))
]

-- Whether a block has a place is whether it is written.
pub place-lookup :
    (block_size offset i : ℕ) (ws : List Write)
    → place block_size offset i ws ≡ none
    → lookup i ws ≡ none
unfolding place lookup
place-lookup block_size offset i [] h = refl
place-lookup block_size offset i ((k, block) ∷ ws) h =
    ground (arith, place-lookup block_size (offset + write_size + block_size) i ws)
