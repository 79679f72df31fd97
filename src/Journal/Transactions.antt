-- ===== src/Journal/Transactions.antt =====
-- The transactions of the journal (begin, write, commit and abort of src/engine/journal.ipp)
-- against the history in the log.
use extpp.Prelude.{
  ℕ, suc, ◌+◌, ◌-◌, ◌^◌, ◌≤◌, ◌<◌, ◌≡◌, refl, sym, ap, ◌∙◌, true, false, List, [], ◌∷◌, ◌++◌,
  Option, none, some, ok, length, take, drop, splice, arith, ltb, ◌==◌, Bool-cases, inl, inr,
  length-append, append_assoc,
}
use extpp.Prelude
use extpp.Journal.{Journal, begin, write, append_block, valid_index}
use extpp.Journal.Positions.{find, insert_or_assign}
use extpp.Journal.Records.{
  record_begin, write_size, serialize_header, serialize_write, length-serialize_write,
}
use extpp.Journal.Tail.{log}
use extpp.Journal.Tail.Append.{append_to_buffer-Appended}
use extpp.Journal.Tail.Access.{write_internal-Overwritten, length-log}
use extpp.Journal.History.{
  Write, Transaction, encode_write, encode_writes, encode_journal, index_writes, put,
}
use extpp.Journal.Index.{
  place, place-Placed, place-lookup, find-index_writes, index_writes-put-some,
  index_writes-put-none, encode_writes-put-none, put-WritesFit,
}
use extpp.Journal.State.{Idle, Running, log_size_invariant_lem}

module _ {block_size : ℕ} {ts : List Transaction} where
  -- A transaction can be begun between transactions, and has then written nothing.
  pub begin-Running :
      (j : Journal)
      → Idle block_size ts j
      → (j' : Journal) × (begin j ≡ ok j') × Running block_size ts [] j'
  unfolding begin serialize_header encode_writes
  begin-Running j i =
      let v = i.holds.valid in
      let (t, done, added) = append_to_buffer-Appended j.tail (record_begin ∷ []) v in
      (
        record j { tail = t; in_transaction = true; transaction_begin = j.tail.log_size },
        ground (arith, log_size_invariant_lem j.tail v, done),
        record {
          holds = record {
            valid = added.valid;
            block_size_set = i.holds.block_size_set;
            narrow = i.holds.narrow;
            positions = i.holds.positions;
            size = i.holds.size;
            fits = i.holds.fits;
            header_on_disk = omega (arith, added.on_disk, i.holds.header_on_disk);
          };
          stored = added.bytes_added ∙ ap (λ xs. xs ++ record_begin ∷ []) i.stored;
          running = refl;
          start = sym (length-log j.tail v) ∙ ap length i.stored;
          pending = unfold index_writes in i.none_pending;
          writes_fit = tt;
        },
      )

  module _ (j : Journal) (index : ℕ) (block : List ℕ) {ws : List Write}
      (r : Running block_size ts ws j) (sized : length block ≡ block_size)
      (in_range : index + 1 < 2 ^ 64) where
    before : List ℕ
    before = encode_journal block_size ts ++ record_begin ∷ []

    length-before : length before ≡ length (encode_journal block_size ts) + 1
    unfolding before
    length-before = length-append (encode_journal block_size ts) (record_begin ∷ [])

    stored-before : log j.tail ≡ before ++ encode_writes ws
    unfolding before
    stored-before =
        r.stored
        ∙ sym (append_assoc (encode_journal block_size ts) (record_begin ∷ []) (encode_writes ws))

    position :
        find index j.uncommitted
        ≡ elim (place block_size (length (encode_journal block_size ts) + 1) index ws) [
          | none ↦ none
          | some p ↦ some p
        ]
    position =
        ap (find index) r.pending
        ∙ (unfold find in find-index_writes block_size _ index ws [] in_range r.writes_fit)

    write_new :
        place block_size (length (encode_journal block_size ts) + 1) index ws ≡ none
        → (j' : Journal) × (write index block j ≡ ok j')
          × Running block_size ts (put index block ws) j'
    unfolding write append_block valid_index before encode_write
    write_new absent =
        let v = r.holds.valid in
        let missing = place-lookup block_size _ index ws absent in
        let (t, head_done, head) = append_to_buffer-Appended j.tail (serialize_write index) v in
        let (u, done, body) = append_to_buffer-Appended t block head.valid in
        let size = length-log j.tail v in
        let total = ap length stored-before in
        let at : u.log_size - block_size
            ≡ length (encode_journal block_size ts) + 1 + length (encode_writes ws) + write_size =
          omega (
            arith,
            length-append before (encode_writes ws),
            length-before,
            length-serialize_write index,
            head.grown,
            body.grown,
          ) in
        let found : find index j.uncommitted ≡ none = position ∙ rw absent in
        let valid : (index == 2 ^ 64 - 1) ≡ false = ground arith in
        (
          record j {
            tail = u;
            uncommitted = insert_or_assign index (u.log_size - j.block_size) j.uncommitted;
          },
          ground (arith, head_done, done, found, valid),
          record {
            holds = record {
              valid = body.valid;
              block_size_set = r.holds.block_size_set;
              narrow = r.holds.narrow;
              positions = r.holds.positions;
              size = r.holds.size;
              fits = r.holds.fits;
              header_on_disk = omega (arith, head.on_disk, body.on_disk, r.holds.header_on_disk);
            };
            stored =
                body.bytes_added
                ∙ ap (λ xs. xs ++ block)
                    (head.bytes_added ∙ ap (λ xs. xs ++ serialize_write index) r.stored)
                ∙ rw (encode_writes-put-none index block ws missing) (simp append_assoc);
            running = r.running;
            start = r.start;
            pending =
                rw (r.holds.block_size_set, at, r.pending)
                  (sym (index_writes-put-none block_size _ index block ws [] r.writes_fit missing));
            writes_fit = put-WritesFit block_size index block ws sized in_range r.writes_fit;
          },
        )

    write_again :
        (p : ℕ)
        → place block_size (length (encode_journal block_size ts) + 1) index ws ≡ some p
        → (j' : Journal) × (write index block j ≡ ok j')
          × Running block_size ts (put index block ws) j'
    unfolding write valid_index before
    write_again p h =
        let v = r.holds.valid in
        let (old, placed) =
          place-Placed block_size _ index p before ws r.writes_fit (sym length-before) h in
        let size = length-log j.tail v in
        let total = ap length stored-before in
        let (t, done, put_there) =
          write_internal-Overwritten j.tail p block v (omega arith)
            (omega (arith, placed.within)) in
        let found : find index j.uncommitted ≡ some p = position ∙ rw h in
        let valid : (index == 2 ^ 64 - 1) ≡ false = ground arith in
        (
          record j { tail = t },
          ground (arith, done, found, valid),
          record {
            holds = record {
              valid = put_there.valid;
              block_size_set = r.holds.block_size_set;
              narrow = r.holds.narrow;
              positions = r.holds.positions;
              size = r.holds.size;
              fits = r.holds.fits;
              header_on_disk = omega (arith, put_there.same_offset, r.holds.header_on_disk);
            };
            stored =
                put_there.bytes_put
                ∙ ap (λ xs. splice xs p block) stored-before
                ∙ placed.rewrite block sized
                ∙ append_assoc (encode_journal block_size ts) (record_begin ∷ [])
                    (encode_writes (put index block ws));
            running = r.running;
            start = r.start;
            pending =
                r.pending
                ∙ sym (index_writes-put-some block_size _ index block old ws [] placed.written);
            writes_fit = put-WritesFit block_size index block ws sized in_range r.writes_fit;
          },
        )

    -- Within a transaction a block of the right size can be written at any valid index: the log
    -- then holds the transaction with that block, in place of an earlier version if there is one.
    pub write-Running :
        (j' : Journal) × (write index block j ≡ ok j')
        × Running block_size ts (put index block ws) j'
    write-Running =
        elim (Prelude.Option-cases
          (place block_size (length (encode_journal block_size ts) + 1) index ws)) [
            | inl absent ↦ write_new absent
            | inr (p, h) ↦ write_again p h
          ]
