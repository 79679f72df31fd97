-- ===== src/Journal/Restore/Opening.antt =====
-- Opening a journal (the constructor and restore of src/engine/journal.ipp) against the history.
use extpp.Prelude.{
  ℕ, zero, suc, ◌+◌, ◌-◌, ◌^◌, ◌≤◌, ◌<◌, ◌≡◌, ◌≢◌, refl, sym, ap, ◌∙◌, true, false, List, [], ◌∷◌,
  ◌++◌, Option, none, some, ok, err, corruption_error, length, take, drop, arith, ltb, leb, ◌==◌,
  inl, inr, length-append, append_assoc, append-nil, length-take, length-replicate, Bool-cases,
  if◌then◌else◌,
}
use extpp.Prelude
use extpp.MemoryFile
use extpp.MemoryFile.{MemoryFile}
use extpp.Journal.{Journal}
use extpp.Journal.Records.{log_header_size, serialize_log_header}
use extpp.Journal.History.{
  Transaction, HistoryFits, encode, encode_log, encode_journal, replay, length-encode,
}
use extpp.Journal.State.{
  length-encode_journal, Idle, no_blocks, index_of, length-serialize_log_header,
}
use extpp.Journal.Restore.{restore_existing, restore, fresh, journal, initialize, position_at}
use extpp.Journal.Restore.Scan.{read-piece}
use extpp.Journal.Restore.Replay.{with_index}
use extpp.Journal.Restore.Recovery.{restore_loop-replay, check_header_lem, complete, take-Cut}

length-log-le : (ts : List Transaction) → length ts ≤ length (encode_log ts)
unfolding encode_log
length-log-le [] = omega arith
length-log-le (t ∷ ts) =
    omega (arith, length-log-le ts, length-append (encode t) (encode_log ts), length-encode t)

module _ (file : MemoryFile) (block_size buffer_size : ℕ) (writable : file.read_only ≡ false)
    (narrow : block_size < 2 ^ 32) (space : 0 < buffer_size) (small : buffer_size < 2 ^ 32) where
  -- What the constructor ends with on a log that holds `ts` and has been cut there.
  opened : List Transaction → Journal
  opened ts = record (with_index (fresh file block_size buffer_size) (index_of block_size ts)) {
    tail = record {
      file = record { bytes = encode_journal block_size ts; read_only = false };
      read_only = false;
      log_size = length (encode_journal block_size ts);
      buffer_offset = length (encode_journal block_size ts);
      buffer_used = 0;
      buffer = Prelude.replicate buffer_size 0;
    };
  }

  opened-Idle : (ts : List Transaction) → HistoryFits block_size ts → Idle block_size ts (opened ts)
  unfolding opened fresh
  opened-Idle ts fits =
      let size = length-replicate {A = ℕ} buffer_size 0 in
      record {
        holds = record {
          valid = record {
            writable = refl;
            file_writable = refl;
            file_end = refl;
            size = omega arith;
            used = omega arith;
            space = omega arith;
            narrow = omega arith;
          };
          block_size_set = refl;
          narrow = narrow;
          positions = refl;
          size = refl;
          fits = fits;
          header_on_disk = omega (arith, length-encode_journal block_size ts);
        };
        stored = append-nil (encode_journal block_size ts);
        idle = refl;
        no_begin = refl;
        none_pending = refl;
      }

  restore_existing-opened :
      (n : ℕ) (ts : List Transaction)
      → file.bytes ≡ serialize_log_header block_size ++ take n (encode_log ts)
      → HistoryFits block_size ts
      → restore_existing (length file.bytes) (fresh file block_size buffer_size)
        ≡ ok (opened (complete n ts))
  unfolding restore_existing fresh opened position_at MemoryFile.truncate MemoryFile.sync
      encode_journal
  restore_existing-opened n ts e fits =
      let header = serialize_log_header block_size in
      let c = take-Cut block_size n ts fits in
      let whole = complete n ts in
      let h = length-serialize_log_header block_size in
      let e' : file.bytes ≡ header ++ (encode_log whole ++ take c.part (encode c.next)) =
        e ∙ ap (◌++◌ header) c.bytes in
      let size = ap length e' ∙ length-append header _ in
      let body = length-append (encode_log whole) (take c.part (encode c.next)) in
      let read_header : MemoryFile.read file 0 log_header_size ≡ ok header =
        read-piece file 0 log_header_size [] header _ e' refl (sym h) (omega arith) in
      let accepted = check_header_lem block_size block_size narrow in
      let scanned = rw h at (
        restore_loop-replay (fresh file block_size buffer_size)
          (length file.bytes - log_header_size + 1) c.part header whole c.next no_blocks
          (omega (arith, length-log-le whole)) e' c.short c.fits c.next_fits) in
      let long : ltb (length file.bytes) log_header_size ≡ false = ground arith in
      let end : log_header_size + length (encode_log whole) ≡ length (header ++ encode_log whole) =
        omega (arith, length-append header (encode_log whole)) in
      let total = length-append header (encode_log whole) in
      let e'' = e' ∙ sym (append_assoc header (encode_log whole) (take c.part (encode c.next))) in
      let cut : take (length (header ++ encode_log whole)) file.bytes ≡ header ++ encode_log whole =
        ap (take (length (header ++ encode_log whole))) e''
        ∙ Prelude.take-append_le _ (header ++ encode_log whole) _ (omega arith)
        ∙ Prelude.take-all _ (header ++ encode_log whole) (omega arith) in
      let none_added : length (header ++ encode_log whole) - length file.bytes ≡ 0 = omega arith in
      let position : position_at (length (header ++ encode_log whole))
            (with_index (fresh file block_size buffer_size) (index_of block_size whole))
          ≡ opened whole =
        rw (writable, none_added, cut, append-nil) in
      ground (
        arith,
        read_header,
        accepted,
        Prelude.==_self block_size,
        scanned,
        long,
        ap
            (λ k.
              position_at k
                (with_index (fresh file block_size buffer_size) (index_of block_size whole)))
            end,
        position,
      )

  -- A log of which only the header and the first `n` bytes behind it are left, for any `n`, is
  -- opened with exactly the transactions that are whole in it; the rest is cut off.
  pub journal-complete :
      (n : ℕ) (ts : List Transaction)
      → file.bytes ≡ serialize_log_header block_size ++ take n (encode_log ts)
      → HistoryFits block_size ts
      → (j : Journal) × (journal file block_size buffer_size ≡ ok j)
        × Idle block_size (complete n ts) j
        × (j.tail.file.bytes ≡ encode_journal block_size (complete n ts))
  unfolding opened journal fresh restore MemoryFile.file_size
  journal-complete n ts e fits =
      let c = take-Cut block_size n ts fits in
      let size = ap length e ∙ length-append (serialize_log_header block_size) _ in
      let used : (length file.bytes == 0) ≡ false =
        ground (arith, length-serialize_log_header block_size) in
      (
        opened (complete n ts),
        rw (Prelude.lt→ltb 0 buffer_size space, used) (restore_existing-opened n ts e fits),
        opened-Idle (complete n ts) c.fits,
        refl,
      )

  -- An empty file becomes a journal with an empty history.
  pub journal-empty :
      file.bytes ≡ []
      → (j : Journal) × (journal file block_size buffer_size ≡ ok j)
        × Idle block_size [] j
        × (j.tail.file.bytes ≡ encode_journal block_size [])
  unfolding opened journal fresh restore initialize MemoryFile.file_size MemoryFile.sync replay
      encode_journal encode_log
  journal-empty e =
      let h = length-serialize_log_header block_size in
      let total = length-append (serialize_log_header block_size) [] in
      let size : (length file.bytes == 0) ≡ true = ground (arith, ap length e) in
      let written =
        MemoryFile.write-append file 0 (serialize_log_header block_size) writable (omega arith)
          (sym (ap length e)) in
      let bytes : file.bytes ++ serialize_log_header block_size
          ≡ serialize_log_header block_size ++ [] =
        ap (λ xs. xs ++ serialize_log_header block_size) e
        ∙ sym (append-nil (serialize_log_header block_size)) in
      let at : log_header_size ≡ length (serialize_log_header block_size ++ []) = omega arith in
      (opened [], ground (arith, written, bytes, at), opened-Idle [] tt, refl)

module _ (file : MemoryFile) (block_size buffer_size other : ℕ) (rest : List ℕ)
    (stored : file.bytes ≡ serialize_log_header other ++ rest) (narrow : other < 2 ^ 32)
    (differ : other ≢ block_size) where
  restore_existing-other :
      restore_existing (length file.bytes) (fresh file block_size buffer_size)
      ≡ err corruption_error
  unfolding restore_existing fresh
  restore_existing-other =
      let h = length-serialize_log_header other in
      let size = ap length stored ∙ length-append (serialize_log_header other) rest in
      let long : ltb (length file.bytes) log_header_size ≡ false = ground arith in
      let read_header : MemoryFile.read file 0 log_header_size ≡ ok (serialize_log_header other) =
        read-piece file 0 log_header_size [] (serialize_log_header other) rest stored refl (sym h)
          (omega arith) in
      let unlike : (other == block_size) ≡ false = ground arith in
      ground (arith, long, read_header, check_header_lem block_size other narrow, unlike)

  -- A journal that was written for another block size is refused.
  pub journal-other_block_size :
      0 < buffer_size → journal file block_size buffer_size ≡ err corruption_error
  unfolding journal fresh restore MemoryFile.file_size
  journal-other_block_size space =
      let size = ap length stored ∙ length-append (serialize_log_header other) rest in
      let used : (length file.bytes == 0) ≡ false =
        ground (arith, length-serialize_log_header other) in
      rw (Prelude.lt→ltb 0 buffer_size space, used) restore_existing-other
