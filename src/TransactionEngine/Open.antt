-- ===== src/TransactionEngine/Open.antt =====
-- The constructor of src/engine/transaction_engine.ipp, on a journal that was cut off somewhere.
use native.Mathlib.Nat.{div-add-mod}
use extpp.Prelude.{
  ℕ, ◌+◌, ◌-◌, ◌*◌, ◌/◌, ◌%◌, ◌^◌, ◌<◌, ◌≡◌, refl, true, false, List, [], ◌++◌, ok, ltb, ◌==◌,
  length, take, arith, inl, if◌then◌else◌,
}
use extpp.Math.{is_pow2, log2}
use extpp.Math.Powers.{log2-pow, is_pow2-pos}
use extpp.MemoryFile.{MemoryFile, file_size}
use extpp.Journal.Records.{serialize_log_header}
use extpp.Journal.History.{Transaction, HistoryFits, encode_log, encode_journal}
use extpp.Journal.Restore.Recovery.{complete}
use extpp.Journal.Restore.Opening.{journal-complete}
use extpp.Engine.{Bytes, Engine, open_engine}
use extpp.Engine.Blocks.{find, contains}
use extpp.TransactionEngine.{TransactionEngine, Store, io, open_transaction_engine, value_or}
use extpp.TransactionEngine.Device.{Disk, base}
use extpp.TransactionEngine.State.{Quiet}
use extpp.TransactionEngine.Written.{size-beyond, size-small}

-- A database file of whole blocks.
pub record IsDatabase (db : MemoryFile) (block_size : ℕ) : Type 0 where
  pub power : is_pow2 block_size ≡ true
  pub narrow : block_size < 2 ^ 32
  pub whole : length db.bytes % block_size ≡ 0
  pub small : length db.bytes + 1 < 2 ^ 64

pub whole_blocks : (n m : ℕ) → 0 < m → n % m ≡ 0 → n / m * m ≡ n
whole_blocks n m pos whole = grind (arith, div-add-mod)

abbrev pub opened_disk : (db : MemoryFile) (block_size : ℕ) → IsDatabase db block_size → Disk
opened_disk db block_size d = record {
  block_size = block_size;
  block_size_log = log2 block_size;
  db = db;
  db_blocks = length db.bytes / block_size;
  pos = is_pow2-pos block_size d.power;
  shift = log2-pow block_size d.power (omega (arith, d.narrow));
  whole =
      omega
        (arith, whole_blocks (length db.bytes) block_size (is_pow2-pos block_size d.power) d.whole);
  narrow = d.small;
}

module _ (malloc_block : Bytes) (db file : MemoryFile) (block_size cache_blocks : ℕ)
    (d : IsDatabase db block_size) where
  -- An engine that is opened on a whole database file, and on a journal of which only the header and
  -- the first `n` bytes behind it are left, for any `n`, shows the transactions that are whole in the
  -- journal, on top of the database file.
  pub open-Quiet :
      (n : ℕ) (ts : List Transaction)
      → file.read_only ≡ false
      → file.bytes ≡ serialize_log_header block_size ++ take n (encode_log ts)
      → HistoryFits block_size ts
      → length malloc_block ≡ block_size
      → (e : TransactionEngine malloc_block) × (open_transaction_engine malloc_block db file
            block_size cache_blocks
          ≡ ok e)
        × Quiet malloc_block (opened_disk db block_size d) (complete n ts) e
        × (e.base.state.log.tail.file.bytes ≡ encode_journal block_size (complete n ts))
        × (e.size ≡ value_or e.base.state.log.database_size (length db.bytes / block_size))
  unfolding open_transaction_engine open_engine file_size find contains
  open-Quiet n ts writable held fits sized =
      let (j, restored, idle, filed) =
        journal-complete file block_size (4 * 1024 * 1024) writable d.narrow (omega arith)
          (omega arith) n ts held fits in
      let disk = opened_disk db block_size d in
      let whole : (length db.bytes % block_size == 0) ≡ true = ground (arith, d.whole) in
      let store : Store = record {
        db = db;
        log = j;
        started = false;
        db_blocks = length db.bytes / block_size;
        block_size = block_size;
        block_size_log = log2 block_size;
      } in
      let b : Engine io malloc_block = record {
        max_blocks = cache_blocks;
        max_pooled_blocks =
            if ltb ((cache_blocks + 8) % 2 ^ 64) cache_blocks then 2 ^ 64 - 1 else cache_blocks + 8;
        read_only = file.read_only;
        pool = [];
        blocks = [];
        cache = [];
        dirty = [];
        reads = 0;
        writes = 0;
        cache_hits = 0;
        state = store;
      } in
      (
        record {
          base = b;
          pinned_blocks = 0;
          size = value_or j.database_size (length db.bytes / block_size);
        },
        rw (d.power, restored, whole) refl,
        record {
          stored = base disk (complete n ts);
          holds = record {
            shows = record {
              attached = record {
                same_db = refl;
                same_blocks = refl;
                same_size = refl;
                same_log = refl;
              };
              started = refl;
              phase = inl (idle, λ i r. refl);
            };
            writable = writable;
            sized = tt;
            unset = sized;
            distinct = tt;
            at = λ i. (refl, refl, refl);
          };
          shown = λ i r. refl;
          journal_idle = idle;
          stopped = refl;
          clean = refl;
          free = λ i c found. absurd (ground (arith, found));
          unpinned = refl;
          small = size-small disk (complete n ts) j idle;
          beyond = size-beyond disk (complete n ts) j idle;
        },
        filed,
        refl,
      )
