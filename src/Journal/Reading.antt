-- ===== src/Journal/Reading.antt =====
-- What `read` of src/engine/journal.ipp gives: the version of a block that the history in the log
-- says is the current one.
use extpp.Prelude.{
  ℕ, suc, ◌+◌, ◌-◌, ◌^◌, ◌≤◌, ◌<◌, ◌≡◌, refl, sym, ap, ◌∙◌, true, false, List, [], ◌∷◌, ◌++◌,
  Option, none, some, ok, length, slice, arith, ltb, ◌==◌, if◌then◌else◌, inl, inr, length-append,
  append_assoc, slice-append_left,
}
use extpp.Prelude
use extpp.Journal.{Journal, read, read_at, valid_index}
use extpp.Journal.Positions.{
  Positions, IsSorted, find, merge, find-erase_from, find-merge, merge-IsSorted, erase_from-Rising,
}
use extpp.Journal.Records.{record_begin, serialize_commit, serialize_log_header, log_header_size}
use extpp.Journal.Tail
use extpp.Journal.Tail.{log}
use extpp.Journal.Tail.Access.{read_internal-slice, length-log}
use extpp.Journal.History.{
  Write, Transaction, TransactionFits, WritesFit, HistoryFits, Index, encode, encode_body,
  encode_writes, encode_log, encode_journal, index_writes, lookup, after, contents, apply, replay,
}
use extpp.Journal.Index.{
  place, place-Placed, place-lookup, find-index_writes, index_writes-IsSorted, rank_lt,
}
use extpp.Journal.State.{Idle, Running, no_blocks, length-serialize_log_header}

-- What an entry of the index says of the block that is meant.
abbrev pub Stored : ℕ → List ℕ → Option ℕ → Option (List ℕ) → Type 0
Stored block_size bytes none none = Unit {0}
Stored block_size bytes none (some block) = ⊥
Stored block_size bytes (some p) none = ⊥
Stored block_size bytes (some p) (some block) =
    (p + block_size ≤ length bytes) × (slice bytes p block_size ≡ block)

abbrev pub Agrees : ℕ → List ℕ → Positions → (ℕ → Option (List ℕ)) → Type 0
Agrees block_size bytes m f = (i : ℕ) → i + 1 < 2 ^ 64 → Stored block_size bytes (find i m) (f i)

Stored-append :
    (block_size : ℕ) (bytes more : List ℕ) (p : Option ℕ) (b : Option (List ℕ))
    → Stored block_size bytes p b
    → Stored block_size (bytes ++ more) p b
Stored-append block_size bytes more none none h = tt
Stored-append block_size bytes more none (some block) h = h
Stored-append block_size bytes more (some p) none h = h
Stored-append block_size bytes more (some p) (some block) h =
    (omega (arith, length-append bytes more), slice-append_left bytes more p block_size h.0 ∙ h.1)

-- The entries of one transaction, whose writes stand behind `before`.
index_writes-Stored :
    (block_size : ℕ) (before : List ℕ) (ws : List Write) (i : ℕ)
    → WritesFit block_size ws
    → i + 1 < 2 ^ 64
    → Stored block_size
        (before ++ encode_writes ws)
        (find i (index_writes block_size (length before) ws []))
        (lookup i ws)
unfolding find
index_writes-Stored block_size before ws i fit h =
    elim (Prelude.Option-cases (place block_size (length before) i ws)) [
      | inl absent ↦
          rw
            (
              find-index_writes block_size (length before) i ws [] h fit,
              absent,
              place-lookup block_size (length before) i ws absent,
            )
            tt
      | inr (p, at) ↦
          let (block, placed) = place-Placed block_size (length before) i p before ws fit refl at in
          rw (find-index_writes block_size (length before) i ws [] h fit, at, placed.written)
            (placed.within, placed.content)
    ]

choose-Stored :
    (block_size : ℕ) (bytes : List ℕ) (p q : Option ℕ) (b c : Option (List ℕ)) (keep : Prelude.Bool)
    → Stored block_size bytes p b
    → Stored block_size bytes q c
    → Stored block_size bytes
        (if keep then (elim p [ none ↦ q | some x ↦ some x ]) else none)
        (if keep then (elim b [ some x ↦ some x | none ↦ c ]) else none)
choose-Stored block_size bytes p q b c false h k = tt
choose-Stored block_size bytes none q none c true h k = k
choose-Stored block_size bytes none q (some b) c true h k = absurd h
choose-Stored block_size bytes (some p) q none c true h k = absurd h
choose-Stored block_size bytes (some p) q (some b) c true h k = h

-- One more transaction in the log.
apply-Agrees :
    (block_size : ℕ) (bytes : List ℕ) (t : Transaction) (x : Index) (f : ℕ → Option (List ℕ))
    → TransactionFits block_size t
    → IsSorted x.positions
    → Agrees block_size bytes x.positions f
    → Agrees block_size
        (bytes ++ encode t)
        (apply block_size (length bytes) t x).positions
        (after t f)
apply-Agrees block_size bytes t x f fit sorted agrees i h =
    let before = bytes ++ record_begin ∷ [] in
    let pending = index_writes block_size (length bytes + 1) t.writes [] in
    let regroup : (before ++ encode_writes t.writes) ++ serialize_commit t.size
        ≡ bytes ++ encode t =
      unfold encode encode_body in simp append_assoc in
    let size : length before ≡ length bytes + 1 = length-append bytes (record_begin ∷ []) in
    let new : Stored block_size (bytes ++ encode t) (find i pending) (lookup i t.writes) =
      rw (← size, ← regroup)
        (Stored-append block_size (before ++ encode_writes t.writes) (serialize_commit t.size) _ _
          (index_writes-Stored block_size before t.writes i fit.writes h)) in
    let rising = index_writes-IsSorted block_size (length bytes + 1) t.writes [] tt in
    let found : find i (apply block_size (length bytes) t x).positions ≡ (
        if ltb i t.size
        then (elim (find i pending) [ none ↦ find i x.positions | some p ↦ some p ])
        else none) =
      unfold apply in
      find-erase_from 0 t.size i (merge pending x.positions)
        (merge-IsSorted pending x.positions sorted)
      ∙ rw (rank_lt i t.size h fit.size, find-merge 0 i pending x.positions rising) in
    rw found (
      unfold after in
      choose-Stored block_size (bytes ++ encode t) (find i pending) (find i x.positions)
        (lookup i t.writes) (f i) (ltb i t.size) new
        (Stored-append block_size bytes (encode t) (find i x.positions) (f i) (agrees i h)))

apply-IsSorted :
    (block_size offset : ℕ) (t : Transaction) (x : Index)
    → IsSorted x.positions
    → IsSorted (apply block_size offset t x).positions
unfolding apply
apply-IsSorted block_size offset t x s =
    erase_from-Rising 0 t.size _ (merge-IsSorted _ x.positions s)

replay-Agrees :
    (block_size : ℕ) (bytes : List ℕ) (ts : List Transaction) (x : Index) (f : ℕ → Option (List ℕ))
    → HistoryFits block_size ts
    → IsSorted x.positions
    → Agrees block_size bytes x.positions f
    → Agrees block_size
        (bytes ++ encode_log ts)
        (replay block_size (length bytes) ts x).positions
        (contents ts f)
      × IsSorted (replay block_size (length bytes) ts x).positions
unfolding replay encode_log contents
replay-Agrees block_size bytes [] x f fit sorted agrees =
    (rw (Prelude.append-nil bytes) agrees, sorted)
replay-Agrees block_size bytes (t ∷ ts) x f fit sorted agrees =
    rw (length-append bytes (encode t), append_assoc bytes (encode t) (encode_log ts)) at
      (replay-Agrees block_size (bytes ++ encode t) ts (apply block_size (length bytes) t x)
        (after t f) fit.1 (apply-IsSorted block_size (length bytes) t x sorted)
        (apply-Agrees block_size bytes t x f fit.0 sorted agrees))

-- The blocks that a history leaves in an empty database.
abbrev pub current : List Transaction → ℕ → Option (List ℕ)
current ts = contents ts (λ _. none)

pub index_of-Agrees :
    (block_size : ℕ) (ts : List Transaction)
    → HistoryFits block_size ts
    → Agrees block_size
        (encode_journal block_size ts)
        (replay block_size log_header_size ts no_blocks).positions
        (current ts)
      × IsSorted (replay block_size log_header_size ts no_blocks).positions
unfolding encode_journal find
index_of-Agrees block_size ts fit = rw (length-serialize_log_header block_size) at (
    replay-Agrees block_size (serialize_log_header block_size) ts no_blocks (λ _. none) fit tt
      (λ i h. tt))

read_at_lem :
    (j : Journal) (p : Option ℕ) (b : Option (List ℕ))
    → Tail.IsValid j.tail
    → j.block_size < 2 ^ 32
    → Stored j.block_size (log j.tail) p b
    → read_at j p ≡ ok b
unfolding read_at
read_at_lem j none none v narrow h = refl
read_at_lem j none (some b) v narrow h = absurd h
read_at_lem j (some p) none v narrow h = absurd h
read_at_lem j (some p) (some b) v narrow h =
    let size = length-log j.tail v in
    rw (read_internal-slice j.tail p j.block_size v narrow (omega (arith, h.0)), h.1)

-- Between transactions a read gives the block that the history left at the index, or reports
-- that the journal has none.
pub read-current :
    (block_size : ℕ) (ts : List Transaction) (j : Journal) (index : ℕ)
    → Idle block_size ts j
    → index + 1 < 2 ^ 64
    → read index j ≡ ok (current ts index)
unfolding read valid_index
read-current block_size ts j index i h =
    let stored : Stored j.block_size (log j.tail) (find index j.block_positions)
        (current ts index) =
      rw (i.holds.block_size_set, i.stored, i.holds.positions)
        ((index_of-Agrees block_size ts i.holds.fits).0 index h) in
    let valid : (index == 2 ^ 64 - 1) ≡ false = ground arith in
    let answer =
      read_at_lem j (find index j.block_positions) (current ts index) i.holds.valid
        (omega (arith, i.holds.block_size_set, i.holds.narrow)) stored in
    ground (arith, valid, answer)

choose_read :
    (j : Journal) (index : ℕ) (b c : Option (List ℕ)) (p : Option ℕ)
    → j.in_transaction ≡ true
    → (index == 2 ^ 64 - 1) ≡ false
    → find index j.uncommitted ≡ p
    → Stored j.block_size (log j.tail) p b
    → read_at j p ≡ ok b
    → read_at j (find index j.block_positions) ≡ ok c
    → read index j ≡ ok (elim b [ some block ↦ some block | none ↦ c ])
unfolding read valid_index
choose_read j index none c none running valid e s mine old = ground (arith, e)
choose_read j index (some b) c none running valid e s mine old = absurd s
choose_read j index none c (some p) running valid e s mine old = absurd s
choose_read j index (some b) c (some p) running valid e s mine old = ground (arith, e)

-- Within a transaction a read gives the block that the transaction has written last at the index;
-- where it has written none, the block that the history left there.
pub read-pending :
    (block_size : ℕ) (ts : List Transaction) (ws : List Write) (j : Journal) (index : ℕ)
    → Running block_size ts ws j
    → index + 1 < 2 ^ 64
    → read index j
      ≡ ok (elim (lookup index ws) [ some block ↦ some block | none ↦ current ts index ])
read-pending block_size ts ws j index r h =
    let base = encode_journal block_size ts in
    let before = base ++ record_begin ∷ [] in
    let bytes : log j.tail ≡ before ++ encode_writes ws =
      r.stored ∙ sym (append_assoc base (record_begin ∷ []) (encode_writes ws)) in
    let at : length before ≡ length base + 1 = length-append base (record_begin ∷ []) in
    let pending : Stored j.block_size (log j.tail) (find index j.uncommitted) (lookup index ws) =
      rw (r.holds.block_size_set, bytes, r.pending, ← at)
        (index_writes-Stored block_size before ws index r.writes_fit h) in
    let old : Stored j.block_size (log j.tail) (find index j.block_positions) (current ts index) =
      rw (r.holds.block_size_set, r.stored, r.holds.positions)
        (Stored-append block_size base (record_begin ∷ encode_writes ws) _ _
          ((index_of-Agrees block_size ts r.holds.fits).0 index h)) in
    let narrow : j.block_size < 2 ^ 32 = omega (arith, r.holds.block_size_set, r.holds.narrow) in
    let valid : (index == 2 ^ 64 - 1) ≡ false = ground arith in
    let answer =
      read_at_lem j (find index j.block_positions) (current ts index) r.holds.valid narrow old in
    let mine =
      read_at_lem j (find index j.uncommitted) (lookup index ws) r.holds.valid narrow pending in
    choose_read j index (lookup index ws) (current ts index) (find index j.uncommitted) r.running
      valid refl pending mine answer
