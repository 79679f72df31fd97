-- ===== src/Journal/Restore/Replay.antt =====
-- Whole transactions (restore_transaction of src/engine/journal.ipp): one that is complete in the
-- log is replayed, one that is cut short leaves no trace.
use extpp.Prelude.{
  ℕ, zero, suc, ◌+◌, ◌-◌, ◌^◌, ◌≤◌, ◌<◌, ◌≡◌, refl, sym, ap, ◌∙◌, true, false, List, [], ◌∷◌, ◌++◌,
  Option, none, some, ok, length, take, drop, arith, ltb, ◌==◌, inl, inr, length-append,
  append_assoc, length-take, Bool-cases,
}
use extpp.Prelude
use extpp.Journal.{Journal, commit_positions, reset_transaction}
use extpp.Journal.Positions.{Positions, insert_or_assign}
use extpp.Journal.Records.{
  record_begin, commit_size, write_size, serialize_write, serialize_commit, record_type,
  length-serialize_commit,
}
use extpp.Journal.History.{
  Write, Transaction, TransactionFits, WritesFit, Index, encode, encode_body, encode_write,
  encode_writes, index_writes, apply, length-encode_write,
}
use extpp.Journal.Restore.{scan_round, scan, restore_transaction}
use extpp.Journal.Restore.Scan.{
  inside, scan_write, scan_commit, scan_cut_write, scan_cut_commit, scan_cut_end, read-piece,
}

module _ (j : Journal) (start : ℕ) where
  -- The body of a transaction that is complete in the log.
  scan_body :
      (fuel : ℕ) (before rest : List ℕ) (ws : List Write) (n : ℕ) (m : Positions)
      → length ws < fuel
      → j.tail.file.bytes ≡ before ++ (encode_writes ws ++ (serialize_commit n ++ rest))
      → WritesFit j.block_size ws
      → n + 1 < 2 ^ 64
      → scan fuel (length before) (length j.tail.file.bytes) (inside j start m)
        ≡ ok (
          commit_positions n (inside j start (index_writes j.block_size (length before) ws m)),
          some (length before + length (encode_writes ws) + commit_size),
        )
  unfolding scan encode_writes index_writes
  scan_body zero before rest ws n m enough e fit h = absurd (omega arith)
  scan_body (suc fuel) before rest [] n m enough e fit h =
      let at : length before + 0 + commit_size ≡ length before + commit_size = omega arith in
      rw (at, scan_commit j start before rest n m e (omega arith), scan)
  scan_body (suc fuel) before rest ((i, block) ∷ ws) n m enough e fit h =
      let more = encode_writes ws ++ (serialize_commit n ++ rest) in
      let step =
        scan_write j start before more i block m
          (e ∙ ap (◌++◌ before) (append_assoc (encode_write (i, block)) (encode_writes ws) _)) fit.0
          fit.1 in
      let before' = before ++ encode_write (i, block) in
      let size = length-append before (encode_write (i, block)) in
      let at : length before + write_size + j.block_size ≡ length before' =
        omega (arith, fit.0, length-encode_write i block) in
      let total : length before' + length (encode_writes ws) + commit_size
          ≡ length before + length (encode_write (i, block) ++ encode_writes ws) + commit_size =
        omega (arith, length-append (encode_write (i, block)) (encode_writes ws)) in
      rw (step, scan, at)
        (scan_body fuel before' rest ws n (insert_or_assign i (length before + write_size) m)
            (omega arith) (e ∙ simp append_assoc) fit.3 h
          ∙ rw total)

  -- The body of a transaction that the log holds only `k` bytes of.
  scan_cut_body :
      (fuel k : ℕ) (before : List ℕ) (ws : List Write) (n : ℕ) (m : Positions)
      → k < fuel
      → j.tail.file.bytes ≡ before ++ take k (encode_writes ws ++ serialize_commit n)
      → k < length (encode_writes ws ++ serialize_commit n)
      → WritesFit j.block_size ws
      → (m' : Positions) × (scan fuel (length before) (length j.tail.file.bytes) (inside j start m)
          ≡ ok (inside j start m', none))
  unfolding scan encode_writes
  scan_cut_body zero k before ws n m enough e short fit = absurd (omega arith)
  scan_cut_body (suc fuel) zero before ws n m enough e short fit =
      (m, rw (scan_cut_end j start before m (e ∙ Prelude.append-nil before), scan))
  scan_cut_body (suc fuel) (suc k) before [] n m enough e short fit = (
    m,
    rw (
      scan_cut_commit j start before (take k (drop 1 (serialize_commit n))) m
          (e ∙ (unfold serialize_commit in refl))
          (omega (arith, length-serialize_commit n, length-take k (drop 1 (serialize_commit n)))),
      scan,
    ),
  )
  scan_cut_body (suc fuel) (suc k) before ((i, block) ∷ ws) n m enough e short fit =
      let w = encode_write (i, block) in
      let more = encode_writes ws ++ serialize_commit n in
      let size = length-encode_write i block in
      let regroup : (w ++ encode_writes ws) ++ serialize_commit n ≡ w ++ more =
        append_assoc w (encode_writes ws) (serialize_commit n) in
      let total = ap length regroup ∙ length-append w more in
      elim (Bool-cases (ltb (suc k) (length w))) [
        | inl cut ↦
            let lt : suc k < length w = ground arith in
            let whole = (w ++ encode_writes ws) ++ serialize_commit n in
            (
              m,
              rw (
                scan_cut_write j start before (take k (drop 1 whole)) m
                    (e ∙ (unfold encode_write serialize_write in refl))
                    (omega (arith, fit.0, length-take k (drop 1 whole))),
                scan,
              ),
            )
        | inr whole ↦
            let ge : length w ≤ suc k = ground arith in
            let k' : ℕ = suc k - length w in
            let cut : take (suc k) ((w ++ encode_writes ws) ++ serialize_commit n)
                ≡ w ++ take k' more =
              ap (take (suc k)) regroup ∙ Prelude.take-append_ge (suc k) k' w more (omega arith) in
            let e' : j.tail.file.bytes ≡ before ++ (w ++ take k' more) = e ∙ ap (◌++◌ before) cut in
            let step = scan_write j start before (take k' more) i block m e' fit.0 fit.1 in
            let at : length before + write_size + j.block_size ≡ length (before ++ w) =
              omega (arith, fit.0, length-append before w) in
            let (m', rest) =
              scan_cut_body fuel k' (before ++ w) ws n
                (insert_or_assign i (length before + write_size) m) (omega arith)
                (e' ∙ sym (append_assoc before w (take k' more))) (omega arith) fit.3 in
            (m', rw (step, scan, at) rest)
      ]

-- The journal between transactions, with the index `x`.
abbrev pub with_index : Journal → Index → Journal
with_index j x = record j {
  block_positions = x.positions;
  database_size = x.size;
  in_transaction = false;
  transaction_begin = 0;
  uncommitted = [];
}

scan_begin :
    (j : Journal) (fuel : ℕ) (before rest : List ℕ) (x : Index)
    → j.tail.file.bytes ≡ before ++ record_begin ∷ rest
    → scan (suc fuel) (length before) (length j.tail.file.bytes) (with_index j x)
      ≡ scan fuel
          (length before + 1)
          (length j.tail.file.bytes)
          (inside (with_index j x) (length before) [])
unfolding scan scan_round record_type
scan_begin j fuel before rest x e =
    let size = ap length e ∙ length-append before (record_begin ∷ rest) in
    let head =
      read-piece j.tail.file (length before) 1 before (record_begin ∷ []) rest e refl refl
        (omega arith) in
    ground (arith, head)

length-writes-le : (ws : List Write) → length ws ≤ length (encode_writes ws)
unfolding encode_writes
length-writes-le [] = omega arith
length-writes-le ((i, block) ∷ ws) = omega (
  arith,
  length-writes-le ws,
  length-append (encode_write (i, block)) (encode_writes ws),
  length-encode_write i block,
)

-- A complete transaction in the log is replayed on the index.
pub restore_transaction-apply :
    (j : Journal) (before rest : List ℕ) (t : Transaction) (x : Index)
    → j.tail.file.bytes ≡ before ++ (encode t ++ rest)
    → TransactionFits j.block_size t
    → restore_transaction (length before) (length j.tail.file.bytes) (with_index j x)
      ≡ ok (
        with_index j (apply j.block_size (length before) t x),
        some (length before + length (encode t)),
      )
unfolding restore_transaction encode encode_body commit_positions reset_transaction apply
restore_transaction-apply j before rest t x e fit =
    let size = ap length e ∙ length-append before (encode t ++ rest) in
    let ws = t.writes in
    let body = encode_writes ws ++ (serialize_commit t.size ++ rest) in
    let regroup : encode t ++ rest ≡ record_begin ∷ body =
      ap (◌∷◌ record_begin) (append_assoc (encode_writes ws) (serialize_commit t.size) rest) in
    let before' = before ++ record_begin ∷ [] in
    let at : length before' ≡ length before + 1 = length-append before (record_begin ∷ []) in
    let total = length-append (encode_writes ws) (serialize_commit t.size) in
    let whole = length-append (encode t) rest in
    let fuel : ℕ = length j.tail.file.bytes - length before + 1 in
    let first = scan_begin j fuel before body x (e ∙ ap (◌++◌ before) regroup) in
    let second =
      scan_body (with_index j x) (length before) fuel before' rest ws t.size []
        (omega (arith, length-writes-le ws))
        (e ∙ ap (◌++◌ before) regroup ∙ sym (append_assoc before (record_begin ∷ []) body))
        fit.writes fit.size in
    let rounds : length j.tail.file.bytes - length before + 2 ≡ suc fuel = omega arith in
    let end : length before' + length (encode_writes ws) + commit_size
        ≡ length before + suc (length (encode_writes ws ++ serialize_commit t.size)) =
      omega (arith, length-serialize_commit t.size) in
    rw (rounds, restore_transaction, first, ← at, second, end)

-- A transaction of which the log holds only a part is left out.
pub restore_transaction-cut :
    (j : Journal) (k : ℕ) (before : List ℕ) (t : Transaction) (x : Index)
    → j.tail.file.bytes ≡ before ++ take (suc k) (encode t)
    → suc k < length (encode t)
    → TransactionFits j.block_size t
    → restore_transaction (length before) (length j.tail.file.bytes) (with_index j x)
      ≡ ok (with_index j x, none)
unfolding restore_transaction encode encode_body reset_transaction
restore_transaction-cut j k before t x e short fit =
    let ws = t.writes in
    let body = encode_writes ws ++ serialize_commit t.size in
    let before' = before ++ record_begin ∷ [] in
    let at : length before' ≡ length before + 1 = length-append before (record_begin ∷ []) in
    let size = ap length e ∙ length-append before (record_begin ∷ take k body) in
    let fuel : ℕ = length j.tail.file.bytes - length before + 1 in
    let rounds : length j.tail.file.bytes - length before + 2 ≡ suc fuel = omega arith in
    let first = scan_begin j fuel before (take k body) x e in
    let (m, second) =
      scan_cut_body (with_index j x) (length before) fuel k before' ws t.size []
        (omega (arith, length-take k body))
        (e ∙ sym (append_assoc before (record_begin ∷ []) (take k body))) (omega arith)
        fit.writes in
    rw (rounds, restore_transaction, first, ← at, second)
