-- ===== src/Journal/State.antt =====
-- The states of an open journal (src/engine/journal.hpp) against the history that its log holds:
-- between two transactions, and within one.
use extpp.Prelude.{
  ℕ, ◌+◌, ◌^◌, ◌<◌, ◌≡◌, ◌≤◌, true, false, List, [], ◌∷◌, ◌++◌, none, length, arith, length-append,
}
use extpp.Journal.{Journal, log_size_invariant}
use extpp.Journal.Records.{record_begin, log_header_size, serialize_log_header}
use extpp.Journal.Tail
use extpp.Journal.Tail.{Tail, log}
use extpp.Journal.History.{
  Write, Transaction, Index, encode_writes, encode_log, encode_journal, index_writes, replay,
  WritesFit, HistoryFits,
}
use extpp.Serialization.{length-to_big}
use extpp.MemoryFile
use extpp.Serialization

abbrev pub no_blocks : Index
no_blocks = record { positions = []; size = none }

-- The index of a log that holds the history.
abbrev pub index_of : ℕ → List Transaction → Index
index_of block_size ts = replay block_size log_header_size ts no_blocks

-- What holds in and between transactions.
pub record Holds (block_size : ℕ) (ts : List Transaction) (j : Journal) : Type 0 where
  pub valid : Tail.IsValid j.tail
  pub block_size_set : j.block_size ≡ block_size
  pub narrow : block_size < 2 ^ 32
  pub positions : j.block_positions ≡ (index_of block_size ts).positions
  pub size : j.database_size ≡ (index_of block_size ts).size
  pub fits : HistoryFits block_size ts
  pub header_on_disk : log_header_size ≤ j.tail.buffer_offset

-- Between transactions: the log is the history.
pub record Idle (block_size : ℕ) (ts : List Transaction) (j : Journal) : Type 0 where
  pub holds : Holds block_size ts j
  pub stored : log j.tail ≡ encode_journal block_size ts
  pub idle : j.in_transaction ≡ false
  pub no_begin : j.transaction_begin ≡ 0
  pub none_pending : j.uncommitted ≡ []

-- Within a transaction that has written `ws`: the log is the history, and the open transaction.
pub record Running (block_size : ℕ) (ts : List Transaction) (ws : List Write) (j : Journal)
    : Type 0 where
  pub holds : Holds block_size ts j
  pub stored : log j.tail ≡ encode_journal block_size ts ++ record_begin ∷ encode_writes ws
  pub running : j.in_transaction ≡ true
  pub start : j.transaction_begin ≡ length (encode_journal block_size ts)
  pub pending :
      j.uncommitted ≡ index_writes block_size (length (encode_journal block_size ts) + 1) ws []
  pub writes_fit : WritesFit block_size ws

pub log_size_invariant_lem : (t : Tail) → Tail.IsValid t → log_size_invariant t ≡ true
unfolding log_size_invariant MemoryFile.file_size
log_size_invariant_lem t v = ground arith

pub length-serialize_log_header :
    (block_size : ℕ) → length (serialize_log_header block_size) ≡ log_header_size
unfolding serialize_log_header Serialization.serialize_u32
length-serialize_log_header block_size = omega (
  arith,
  length-append (Serialization.serialize_u32 1) (Serialization.serialize_u32 block_size),
  length-to_big 4 1 [],
  length-to_big 4 block_size [],
)

pub length-encode_journal :
    (block_size : ℕ) (ts : List Transaction)
    → length (encode_journal block_size ts) ≡ log_header_size + length (encode_log ts)
unfolding encode_journal
length-encode_journal block_size ts = omega (
  arith,
  length-append (serialize_log_header block_size) (encode_log ts),
  length-serialize_log_header block_size,
)
