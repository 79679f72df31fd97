-- ===== src/Journal/Restore/Recovery.antt =====
-- Opening a journal (the constructor and restore of src/engine/journal.ipp): on an empty file, and
-- on a log of which a crash may have cut off the end.
use extpp.Prelude.{
  ℕ, zero, suc, ◌+◌, ◌-◌, ◌^◌, ◌≤◌, ◌<◌, ◌≡◌, ◌≢◌, refl, sym, ap, ◌∙◌, true, false, List, [], ◌∷◌,
  ◌++◌, Option, none, some, ok, err, corruption_error, length, take, drop, arith, ltb, leb, ◌==◌,
  inl, inr, length-append, append_assoc, append-nil, length-take, length-replicate, Bool-cases,
  if◌then◌else◌,
}
use extpp.Prelude
use extpp.Serialization.{serialize_u32, deserialize_u32-serialize_u32}
use extpp.Journal.{Journal}
use extpp.Journal.Records.{log_version, serialize_log_header}
use extpp.Journal.History.{
  Transaction, TransactionFits, HistoryFits, Index, encode, encode_log, replay, apply,
  length-encode,
}
use extpp.Journal.Restore.{restore_loop, check_header}
use extpp.Journal.Restore.Replay.{with_index, restore_transaction-apply, restore_transaction-cut}

pub restore_loop-replay :
    (j : Journal) (fuel k : ℕ) (before : List ℕ) (ts : List Transaction) (t : Transaction)
    (x : Index)
    → length ts < fuel
    → j.tail.file.bytes ≡ before ++ (encode_log ts ++ take k (encode t))
    → k < length (encode t)
    → HistoryFits j.block_size ts
    → TransactionFits j.block_size t
    → restore_loop fuel (length before) (length j.tail.file.bytes) (with_index j x)
      ≡ ok (
        with_index j (replay j.block_size (length before) ts x),
        length before + length (encode_log ts),
      )
unfolding restore_loop encode_log replay
restore_loop-replay j zero k before ts t x enough e short fits fit = absurd (omega arith)
restore_loop-replay j (suc fuel) zero before [] t x enough e short fits fit =
    let size = ap length e ∙ length-append before [] in
    let end : ltb (length before) (length j.tail.file.bytes) ≡ false = ground arith in
    let at : length before + 0 ≡ length before = omega arith in rw (end, at)
restore_loop-replay j (suc fuel) (suc k) before [] t x enough e short fits fit =
    let size = ap length e ∙ length-append before (take (suc k) (encode t)) in
    let more : ltb (length before) (length j.tail.file.bytes) ≡ true =
      Prelude.lt→ltb _ _ (omega (arith, length-take (suc k) (encode t))) in
    let at : length before + 0 ≡ length before = omega arith in
    rw (more, restore_transaction-cut j k before t x e short fit, at)
restore_loop-replay j (suc fuel) k before (u ∷ ts) t x enough e short fits fit =
    let rest = encode_log ts ++ take k (encode t) in
    let e' = e ∙ ap (◌++◌ before) (append_assoc (encode u) (encode_log ts) (take k (encode t))) in
    let size = ap length e' ∙ length-append before (encode u ++ rest) in
    let more : ltb (length before) (length j.tail.file.bytes) ≡ true =
      Prelude.lt→ltb _ _ (omega (arith, length-append (encode u) rest, length-encode u)) in
    let at = length-append before (encode u) in
    let total : length before + length (encode u) + length (encode_log ts)
        ≡ length before + length (encode u ++ encode_log ts) =
      omega (arith, length-append (encode u) (encode_log ts)) in
    rw (more, restore_transaction-apply j before rest u x e' fits.0, restore_loop)
      (rw (at) at (
          restore_loop-replay j fuel k (before ++ encode u) ts t
            (apply j.block_size (length before) u x) (omega arith)
            (e' ∙ sym (append_assoc before (encode u) rest)) short fits.1 fit)
        ∙ ap
            (λ n. ok (
              with_index j (
                  replay j.block_size (length before + length (encode u)) ts
                    (apply j.block_size (length before) u x)),
              n,
            ))
            total)

-- A header is accepted exactly if it was written for the same block size.
pub check_header_lem :
    (block_size written : ℕ)
    → written < 2 ^ 32
    → check_header block_size (serialize_log_header written)
      ≡ (if written == block_size then ok tt else err corruption_error)
unfolding check_header serialize_log_header serialize_u32
check_header_lem block_size written h = ground (
  arith,
  deserialize_u32-serialize_u32 log_version (omega arith),
  deserialize_u32-serialize_u32 written h,
)

-- The transactions that lie whole within the first `n` bytes of a log.
unfoldable pub complete : ℕ → List Transaction → List Transaction
complete n [] = []
complete n (t ∷ ts) =
    if leb (length (encode t)) n then t ∷ complete (n - length (encode t)) ts else []

-- The first `n` bytes of a log are the whole transactions in it, and a part of one more.
pub record Cut (block_size n : ℕ) (ts : List Transaction) : Type 0 where
  pub next : Transaction
  pub part : ℕ
  pub bytes : take n (encode_log ts) ≡ encode_log (complete n ts) ++ take part (encode next)
  pub short : part < length (encode next)
  pub fits : HistoryFits block_size (complete n ts)
  pub next_fits : TransactionFits block_size next

empty_transaction : Transaction
empty_transaction = record { writes = []; size = 0 }

empty_transaction-TransactionFits : (block_size : ℕ) → TransactionFits block_size empty_transaction
unfolding empty_transaction
empty_transaction-TransactionFits block_size = record { writes = tt; size = omega arith }

pub take-Cut :
    (block_size n : ℕ) (ts : List Transaction) → HistoryFits block_size ts → Cut block_size n ts
unfolding complete encode_log
take-Cut block_size n [] fit = record {
  next = empty_transaction;
  part = 0;
  bytes = Prelude.take-nil n;
  short = omega (arith, length-encode empty_transaction);
  fits = tt;
  next_fits = empty_transaction-TransactionFits block_size;
}
take-Cut block_size n (t ∷ ts) fit = elim (Bool-cases (leb (length (encode t)) n)) [
  | inl whole ↦
      let le : length (encode t) ≤ n = ground arith in
      let c = take-Cut block_size (n - length (encode t)) ts fit.1 in
      record {
        next = c.next;
        part = c.part;
        bytes =
            Prelude.take-append_ge n (n - length (encode t)) (encode t) (encode_log ts)
              (omega arith)
            ∙ ap (◌++◌ (encode t)) c.bytes
            ∙ rw (whole, encode_log)
                (sym
                  (append_assoc (encode t) (encode_log (complete (n - length (encode t)) ts)) _));
        short = c.short;
        fits = rw whole (fit.0, c.fits);
        next_fits = c.next_fits;
      }
  | inr cut ↦
      let lt : n < length (encode t) = ground arith in
      record {
        next = t;
        part = n;
        bytes = rw cut (Prelude.take-append_le n (encode t) (encode_log ts) (omega arith));
        short = lt;
        fits = rw cut tt;
        next_fits = fit.0;
      }
]
