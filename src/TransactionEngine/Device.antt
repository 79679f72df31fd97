-- ===== src/TransactionEngine/Device.antt =====
-- The journal and the database file as the device of a block engine: what do_read and do_write of
-- src/engine/transaction_engine.ipp give, by the history in the journal.
use native.Mathlib.Nat.{mul-le-mul_right, mod-eq_of_lt}
use extpp.Prelude.{
  ℕ, ◌+◌, ◌*◌, ◌%◌, ◌^◌, ◌≤◌, ◌<◌, ◌≡◌, ◌∙◌, ◌⊎◌, inl, inr, refl, sym, ap, true, false, List, [],
  ◌∷◌, Option, none, some, ok, if◌then◌else◌, ltb, ◌==◌, length, replicate, arith, Bool-cases,
  Option-cases, length-replicate, length-slice,
}
use extpp.MemoryFile.{MemoryFile, read-slice}
use extpp.Journal
use extpp.Journal.{Journal}
use extpp.Journal.History.{Transaction, Write, lookup, put, after, contents, HistoryFits, WritesFit}
use extpp.Journal.State.{Idle, Running}
use extpp.Journal.Index.{lookup-put}
use extpp.Journal.Reading.{current, read-current, read-pending}
use extpp.Journal.Checkpoint.{block_at}
use extpp.Journal.Transactions.{begin-Running, write-Running}
use extpp.Engine.{Bytes, Device}
use extpp.Engine.Valid.{update}
use extpp.TransactionEngine.{Store, do_read, do_write, read_database, io}

abbrev pub or_else : Option Bytes → Bytes → Bytes
or_else none old = old
or_else (some new) old = new

lookup-length :
    (block_size i : ℕ) (ws : List Write) (b : Bytes)
    → WritesFit block_size ws
    → lookup i ws ≡ some b
    → length b ≡ block_size
unfolding lookup
lookup-length block_size i [] b fits h = ground arith
lookup-length block_size i ((k, block) ∷ ws) b fits h = elim (Bool-cases (k == i)) [
  | inl here ↦
      let same : block ≡ b = ap (λ o. or_else o []) (rw here at h) in ap length (sym same) ∙ fits.0
  | inr other ↦ lookup-length block_size i ws b fits.3 (rw other at h)
]

module _ (block_size : ℕ) where
  Sized : (ℕ → Option Bytes) → Type 0
  Sized f = (i : ℕ) (b : Bytes) → f i ≡ some b → length b ≡ block_size

  after-Sized :
      (t : Transaction) (f : ℕ → Option Bytes)
      → WritesFit block_size t.writes
      → Sized f
      → Sized (after t f)
  unfolding Sized after
  after-Sized t f fits sized i b h = elim (Bool-cases (ltb i t.size)) [
    | inl inside ↦ elim (Option-cases (lookup i t.writes)) [
      | inl absent ↦ sized i b (rw (inside, absent) at h)
      | inr (new, found) ↦
          lookup-length block_size i t.writes b fits (found ∙ rw (inside, found) at h)
    ]
    | inr beyond ↦ absurd (let e : none ≡ some b = rw beyond at h in ground (arith, e))
  ]

  contents-Sized :
      (ts : List Transaction) (f : ℕ → Option Bytes)
      → HistoryFits block_size ts
      → Sized f
      → Sized (contents ts f)
  unfolding contents
  contents-Sized [] f fits sized = sized
  contents-Sized (t ∷ ts) f fits sized =
      contents-Sized ts (after t f) fits.1 (after-Sized t f fits.0.writes sized)

  current-length :
      (ts : List Transaction) (i : ℕ) (b : Bytes)
      → HistoryFits block_size ts
      → current ts i ≡ some b
      → length b ≡ block_size
  unfolding Sized
  current-length ts i b fits h =
      contents-Sized ts (λ j. none) fits (λ j c e. ground (arith, e)) i b h

-- The database file and the engine's parameters; `db_blocks` blocks are whole.
pub record Disk : Type 0 where
  pub block_size : ℕ
  pub block_size_log : ℕ
  pub db : MemoryFile
  pub db_blocks : ℕ
  pub pos : 0 < block_size
  pub shift : 2 ^ block_size_log ≡ block_size
  pub whole : db_blocks * block_size ≤ length db.bytes
  pub narrow : length db.bytes + 1 < 2 ^ 64

-- The block in the database file, zeros behind its end.
abbrev pub on_disk : Disk → ℕ → Bytes
on_disk disk i =
    if ltb i disk.db_blocks then block_at disk.block_size disk.db i else replicate disk.block_size 0

-- The block as the last commit left it.
abbrev pub base : Disk → List Transaction → ℕ → Bytes
base disk ts i = or_else (current ts i) (on_disk disk i)

-- The block within a transaction that has written `ws` to the journal.
abbrev pub written : Disk → List Transaction → List Write → ℕ → Bytes
written disk ts ws i = or_else (lookup i ws) (base disk ts i)

pub record Attached (disk : Disk) (d : Store) : Type 0 where
  pub same_db : d.db ≡ disk.db
  pub same_blocks : d.db_blocks ≡ disk.db_blocks
  pub same_size : d.block_size ≡ disk.block_size
  pub same_log : d.block_size_log ≡ disk.block_size_log

abbrev pub InRange : ℕ → Type 0
InRange i = i + 1 < 2 ^ 64

abbrev pub Agree : (ℕ → Bytes) → (ℕ → Bytes) → Type 0
Agree f g = (i : ℕ) → InRange i → f i ≡ g i

-- The journal is between two transactions, or in one.
abbrev pub Phase : Disk → List Transaction → Store → (ℕ → Bytes) → Type 0
Phase disk ts d f =
    (Idle disk.block_size ts d.log × Agree f (base disk ts))
    ⊎ ((ws : List Write) × Running disk.block_size ts ws d.log × Agree f (written disk ts ws))

pub record Shows (disk : Disk) (ts : List Transaction) (d : Store) (f : ℕ → Bytes) : Type 0 where
  pub attached : Attached disk d
  pub started : d.started ≡ true
  pub phase : Phase disk ts d f

module _ (disk : Disk) (ts : List Transaction) where
  pub block_inside : (i n : ℕ) → i < n → i * disk.block_size + disk.block_size ≤ n * disk.block_size
  block_inside i n h = grind (arith, mul-le-mul_right)

  on_disk-length : (i : ℕ) → length (on_disk disk i) ≡ disk.block_size
  on_disk-length i = elim (Bool-cases (ltb i disk.db_blocks)) [
    | inl inside ↦ rw inside (
        length-slice disk.db.bytes (i * disk.block_size) disk.block_size
          (omega (arith, disk.whole, block_inside i disk.db_blocks (ground (arith, inside)))))
    | inr beyond ↦ rw beyond (length-replicate disk.block_size 0)
  ]

  or_else-length :
      (o : Option Bytes) (b : Bytes)
      → ((c : Bytes) → o ≡ some c → length c ≡ disk.block_size)
      → length b ≡ disk.block_size
      → length (or_else o b) ≡ disk.block_size
  or_else-length none b new old = old
  or_else-length (some c) b new old = new c refl

  base-length : (i : ℕ) → HistoryFits disk.block_size ts → length (base disk ts i) ≡ disk.block_size
  base-length i fits =
      or_else-length (current ts i) _ (λ c h. current-length disk.block_size ts i c fits h)
        (on_disk-length i)

  pub Shows-length :
      (d : Store) (f : ℕ → Bytes) (i : ℕ)
      → Shows disk ts d f
      → InRange i
      → length (f i) ≡ disk.block_size
  Shows-length d f i s h = elim s.phase [
    | inl (idle, same) ↦ ap length (same i h) ∙ base-length i idle.holds.fits
    | inr (ws, running, same) ↦
        ap length (same i h)
        ∙ or_else-length (lookup i ws) _
            (λ c e. lookup-length disk.block_size i ws c running.writes_fit e)
            (base-length i running.holds.fits)
  ]

  read_database_lem :
      (d : Store) (i : ℕ) → Attached disk d → read_database d i ≡ ok (on_disk disk i)
  unfolding read_database
  read_database_lem d i a = elim (Bool-cases (ltb i disk.db_blocks)) [
    | inl inside ↦
        let fits = block_inside i disk.db_blocks (ground (arith, inside)) in
        let low : i * disk.block_size % 2 ^ 64 ≡ i * disk.block_size =
          mod-eq_of_lt (omega (arith, disk.whole, disk.narrow, disk.pos, fits)) in
        rw (a.same_db, a.same_blocks, a.same_size, a.same_log, disk.shift, inside, low)
          (read-slice disk.db (i * disk.block_size) disk.block_size disk.pos
            (omega (arith, disk.whole, fits)))
    | inr beyond ↦ rw (a.same_blocks, a.same_size, beyond) refl
  ]

  do_read_lem :
      (d : Store) (i : ℕ) (found : Option Bytes)
      → Attached disk d
      → d.started ≡ true
      → Journal.read i d.log ≡ ok found
      → do_read d i ≡ ok (or_else found (on_disk disk i))
  unfolding do_read
  do_read_lem d i none a started found = rw (started, found) (read_database_lem d i a)
  do_read_lem d i (some b) a started found = rw (started, found) refl

  pub pending_or_else :
      (o c : Option Bytes) (b : Bytes)
      → or_else (elim o [ some block ↦ some block | none ↦ c ]) b ≡ or_else o (or_else c b)
  pending_or_else none c b = refl
  pending_or_else (some block) c b = refl

  pub Shows-read :
      (d : Store) (f : ℕ → Bytes) (i : ℕ) → Shows disk ts d f → InRange i → do_read d i ≡ ok (f i)
  Shows-read d f i s h = elim s.phase [
    | inl (idle, same) ↦
        do_read_lem d i _ s.attached s.started (read-current disk.block_size ts d.log i idle h)
        ∙ ap (λ (b : Bytes). ok b) (sym (same i h))
    | inr (ws, running, same) ↦
        do_read_lem d i _ s.attached s.started
          (read-pending disk.block_size ts ws d.log i running h)
        ∙ ap (λ (b : Bytes). ok b) (pending_or_else (lookup i ws) (current ts i) _ ∙ sym (same i h))
  ]

  written-put :
      (f : ℕ → Bytes) (i : ℕ) (block : Bytes) (ws : List Write)
      → Agree f (written disk ts ws)
      → Agree (update f i block) (written disk ts (put i block ws))
  written-put f i block ws same k h = elim (Bool-cases (i == k)) [
    | inl here ↦
        let there : (k == i) ≡ true = ground (arith, here) in
        rw (here, lookup-put i k block ws, there) refl
    | inr other ↦
        let apart : (k == i) ≡ false = ground (arith, other) in
        rw (other, lookup-put i k block ws, apart) (same k h)
  ]

  Running-write :
      (d : Store) (f : ℕ → Bytes) (i : ℕ) (block : Bytes) (ws : List Write) (j : Journal)
      → Attached disk d
      → d.started ≡ true
      → InRange i
      → length block ≡ disk.block_size
      → Running disk.block_size ts ws j
      → Agree f (written disk ts ws)
      → (j' : Journal) × (Journal.write i block j ≡ ok j')
        × Shows disk ts (record d { log = j' }) (update f i block)
  Running-write d f i block ws j a started h size running same =
      let (j', done, running') = write-Running j i block running size h in
      (
        j',
        done,
        record {
          attached = record {
            same_db = a.same_db;
            same_blocks = a.same_blocks;
            same_size = a.same_size;
            same_log = a.same_log;
          };
          started = started;
          phase = inr (put i block ws, running', written-put f i block ws same);
        },
      )

  -- The first write begins the journal's transaction.
  pub Shows-write :
      (d : Store) (f : ℕ → Bytes) (i : ℕ) (block : Bytes)
      → Shows disk ts d f
      → InRange i
      → length block ≡ disk.block_size
      → (d' : Store) × (do_write d i block ≡ ok d') × Shows disk ts d' (update f i block)
  unfolding do_write
  Shows-write d f i block s h size = elim s.phase [
    | inl (idle, same) ↦
        let (j, begun, running) = begin-Running d.log idle in
        let (j', done, shows) =
          Running-write d f i block [] j s.attached s.started h size running
            (unfold lookup in same) in
        (record d { log = j' }, ground (arith, s.started, idle.idle, begun, done), shows)
    | inr (ws, running, same) ↦
        let (j', done, shows) =
          Running-write d f i block ws d.log s.attached s.started h size running same in
        (record d { log = j' }, ground (arith, s.started, running.running, done), shows)
  ]

  -- The device of the block engine, as the virtual functions give it.
  abbrev pub device : Device
  device = record {
    io = io;
    block_size = disk.block_size;
    Usable = InRange;
    Shows = Shows disk ts;
    read-ok = Shows-read;
    length-shown = Shows-length;
    write-ok = Shows-write;
  }
