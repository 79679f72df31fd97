-- ===== src/Journal/Ending.antt =====
-- The end of a transaction of the journal (commit and abort of src/engine/journal.ipp).
use extpp.Prelude.{
  ℕ, suc, ◌+◌, ◌-◌, ◌%◌, ◌^◌, ◌≤◌, min, ◌<◌, ◌≡◌, refl, sym, ap, ◌∙◌, true, false, Bool, List, [],
  ◌∷◌, ◌++◌, Option, none, some, ok, length, take, drop, arith, ltb, ◌==◌, Bool-cases, inl, inr,
  length-append, append_assoc,
}
use extpp.Prelude
use extpp.MemoryFile
use extpp.Journal.{
  Journal, commit, abort, abort_tail, sync_file, commit_positions, reset_transaction,
}
use extpp.Journal.Positions.{erase_from, merge}
use extpp.Journal.Records.{record_begin, serialize_commit, log_header_size}
use extpp.Journal.Tail
use extpp.Journal.Tail.{Tail, log, to_u32}
use extpp.Journal.Tail.Append.{append_to_buffer-Appended, flush_buffer_lem}
use extpp.Journal.Tail.Access.{length-log}
use extpp.Journal.History.{
  Write, Transaction, encode, encode_body, encode_writes, encode_log, encode_journal,
  encode_log-append, apply, replay, replay-append, HistoryFits-snoc,
}
use extpp.Journal.State.{
  Idle, Running, index_of, no_blocks, log_size_invariant_lem, length-encode_journal,
}

sync_file_lem : (b : Bool) (t : Tail) → sync_file b t ≡ t
unfolding MemoryFile.sync
sync_file_lem true t = refl
sync_file_lem false t = refl

-- The log of a history with one more transaction.
pub encode_journal-snoc :
    (block_size : ℕ) (ts : List Transaction) (t : Transaction)
    → encode_journal block_size (ts ++ t ∷ []) ≡ encode_journal block_size ts ++ encode t
unfolding encode_journal
encode_journal-snoc block_size ts t = rw (encode_log-append ts (t ∷ [])) (
    unfold encode_log in
    rw (Prelude.append-nil (encode t)) (sym (append_assoc _ (encode_log ts) (encode t))))

-- The index behind one more transaction.
pub index_of-snoc :
    (block_size : ℕ) (ts : List Transaction) (t : Transaction)
    → index_of block_size (ts ++ t ∷ [])
      ≡ apply block_size (length (encode_journal block_size ts)) t (index_of block_size ts)
index_of-snoc block_size ts t =
    replay-append block_size log_header_size ts (t ∷ []) no_blocks
    ∙ (unfold replay in
        ap (λ o. apply block_size o t (index_of block_size ts))
          (sym (length-encode_journal block_size ts)))

module _ {block_size : ℕ} {ts : List Transaction} {ws : List Write} where
  -- A commit adds the transaction to the history, and all of the log is then in the file.
  pub commit-Idle :
      (j : Journal) (size : ℕ)
      → Running block_size ts ws j
      → size + 1 < 2 ^ 64
      → (j' : Journal) × (commit size j ≡ ok j')
        × Idle block_size (ts ++ record { writes = ws; size = size } ∷ []) j'
        × (j'.tail.file.bytes
            ≡ encode_journal block_size (ts ++ record { writes = ws; size = size } ∷ []))
  unfolding commit commit_positions reset_transaction encode encode_body
  commit-Idle j size r fits =
      let v = r.holds.valid in
      let t : Transaction = record { writes = ws; size = size } in
      let (u, appended, added) = append_to_buffer-Appended j.tail (serialize_commit size) v in
      let (w, flushed, same, emptied, filed) = flush_buffer_lem u added.valid in
      let bytes : log u ≡ encode_journal block_size (ts ++ t ∷ []) =
        added.bytes_added
        ∙ ap (λ xs. xs ++ serialize_commit size) r.stored
        ∙ append_assoc (encode_journal block_size ts) (record_begin ∷ encode_writes ws)
            (serialize_commit size)
        ∙ sym (encode_journal-snoc block_size ts t) in
      let index = index_of-snoc block_size ts t in
      (
        record j {
          tail = w;
          block_positions = erase_from size (merge j.uncommitted j.block_positions);
          database_size = some size;
          in_transaction = false;
          transaction_begin = 0;
          uncommitted = [];
        },
        ground (
          arith,
          appended,
          flushed,
          sync_file_lem j.sync_on_commit w,
          log_size_invariant_lem w same.valid,
        ),
        record {
          holds = record {
            valid = same.valid;
            block_size_set = r.holds.block_size_set;
            narrow = r.holds.narrow;
            positions =
                rw (r.pending, r.holds.positions)
                  (unfold apply in sym (ap (λ x. x.positions) index));
            size = unfold apply in sym (ap (λ x. x.size) index);
            fits =
                HistoryFits-snoc block_size ts t r.holds.fits
                  (record { writes = r.writes_fit; size = fits });
            header_on_disk = omega (arith, added.on_disk, same.on_disk, r.holds.header_on_disk);
          };
          stored = same.bytes_added ∙ Prelude.append-nil (log u) ∙ bytes;
          idle = refl;
          no_begin = refl;
          none_pending = refl;
        },
        filed ∙ bytes,
      )

-- The log without its last part, wherever that lies.
pub abort_tail_lem :
    (t : Tail) (xs ys : List ℕ)
    → Tail.IsValid t
    → log t ≡ xs ++ ys
    → (t' : Tail) × (abort_tail (length xs) t ≡ ok t')
      × Tail.IsValid t'
      × (log t' ≡ xs)
      × (min (length xs) t.buffer_offset ≤ t'.buffer_offset)
unfolding abort_tail MemoryFile.truncate to_u32
abort_tail_lem t xs ys v stored =
    let start : ℕ = length xs in
    let size = length-log t v in
    let total = ap length stored ∙ length-append xs ys in
    let kept : take start (log t) ≡ xs =
      ap (take start) stored
      ∙ Prelude.take-append_le start xs ys (omega arith)
      ∙ Prelude.take-all start xs (omega arith) in
    elim (Bool-cases (ltb start t.buffer_offset)) [
      | inl flushed ↦
          let inside : start < t.buffer_offset = ground arith in
          let front : take start t.file.bytes ≡ xs =
            sym (
              Prelude.take-append_le start t.file.bytes (take t.buffer_used t.buffer) (omega arith))
            ∙ kept in
          let none_added : start - length t.file.bytes ≡ 0 = omega arith in
          (
            record t {
              file = record t.file { bytes = xs };
              log_size = start;
              buffer_offset = start;
              buffer_used = 0;
            },
            rw (flushed, none_added, Prelude.append-nil, front),
            record {
              writable = v.writable;
              file_writable = v.file_writable;
              file_end = refl;
              size = omega arith;
              used = omega arith;
              space = v.space;
              narrow = v.narrow;
            },
            Prelude.append-nil xs,
            omega arith,
          )
      | inr buffered ↦
          let outside : t.buffer_offset ≤ start = ground arith in
          let small : (start - t.buffer_offset) % 2 ^ 32 ≡ start - t.buffer_offset = omega arith in
          let k : ℕ = start - t.buffer_offset in
          let front : t.file.bytes ++ take k t.buffer ≡ xs =
            ap (◌++◌ t.file.bytes) (sym (Prelude.take-take k t.buffer_used t.buffer (omega arith)))
            ∙ sym (
                Prelude.take-append_ge start k t.file.bytes (take t.buffer_used t.buffer)
                  (omega arith))
            ∙ kept in
          let t' : Tail = record t { log_size = start; buffer_used = k } in
          let valid : Tail.IsValid t' = record {
            writable = v.writable;
            file_writable = v.file_writable;
            file_end = v.file_end;
            size = omega arith;
            used = omega arith;
            space = v.space;
            narrow = v.narrow;
          } in
          (t', ground (arith, small, log_size_invariant_lem t' valid), valid, front, omega arith)
    ]

module _ {block_size : ℕ} {ts : List Transaction} {ws : List Write} where
  -- An abort leaves the log, its index and the state as they were before the transaction began.
  pub abort-Idle :
      (j : Journal)
      → Running block_size ts ws j
      → (j' : Journal) × (abort j ≡ ok j')
        × Idle block_size ts j'
        × (j'.block_positions ≡ j.block_positions)
        × (j'.database_size ≡ j.database_size)
  unfolding abort reset_transaction
  abort-Idle j r =
      let (t, cut, valid, kept, at) =
        abort_tail_lem j.tail (encode_journal block_size ts) (record_begin ∷ encode_writes ws)
          r.holds.valid r.stored in
      (
        record j { tail = t; in_transaction = false; transaction_begin = 0; uncommitted = [] },
        ground (arith, cut),
        record {
          holds = record {
            valid = valid;
            block_size_set = r.holds.block_size_set;
            narrow = r.holds.narrow;
            positions = r.holds.positions;
            size = r.holds.size;
            fits = r.holds.fits;
            header_on_disk =
                omega (arith, at, r.holds.header_on_disk, length-encode_journal block_size ts);
          };
          stored = kept;
          idle = refl;
          no_begin = refl;
          none_pending = refl;
        },
        refl,
        refl,
      )
