-- ===== src/Engine.antt =====
-- The block engine (src/engine/engine_base.hpp, src/engine/engine_base.ipp) over the virtual
-- functions do_read and do_write of a device: blocks in memory, of which those that are not pinned
-- are in the cache, and those that have changed are written back before they leave the memory.
pub mod Blocks
pub mod Valid
pub mod Evict
pub mod Pin
pub mod Change
pub mod Overwrite
pub mod Flush
pub mod Discard
mod Tests
use extpp.Prelude.{
  ℕ, zero, suc, ◌+◌, ◌-◌, ◌%◌, ◌^◌, ◌≡◌, ◌<◌, Bool, true, false, not, ◌&&◌, List, [], ◌∷◌, ◌++◌,
  Option, none, some, Result, ok, err, assertion, bad_argument, io_error, out_of_fuel, guard,
  assert, ◌>>=◌, ◌>>◌, if◌then◌else◌, ltb, ◌==◌, length,
}
use extpp.Math.{is_pow2}
use Blocks.{Block, find, remove_block, change, contains, remove, lru_candidate, add}

abbrev pub Bytes : Type 0
Bytes = List ℕ

-- The virtual functions, on the state of the engine's derived class.
pub record Io : Type 1 where
  pub State : Type 0
  pub do_read : State → ℕ → Result Bytes
  pub do_write : State → ℕ → Bytes → Result State

-- What they promise: `Shows d f` says that the device works and holds the block `f i` at every
-- index that may be used.
pub record Device : Type 1 where
  pub io : Io
  pub block_size : ℕ
  pub Usable : ℕ → Type 0
  pub Shows : io.State → (ℕ → Bytes) → Type 0
  pub read-ok :
      (d : io.State) (f : ℕ → Bytes) (i : ℕ) → Shows d f → Usable i → io.do_read d i ≡ ok (f i)
  pub length-shown :
      (d : io.State) (f : ℕ → Bytes) (i : ℕ) → Shows d f → Usable i → length (f i) ≡ block_size
  pub write-ok :
      (d : io.State) (f : ℕ → Bytes) (i : ℕ) (block : Bytes)
      → Shows d f
      → Usable i
      → length block ≡ block_size
      → (d' : io.State) × (io.do_write d i block ≡ ok d')
        × Shows d' (λ j. if i == j then block else f j)

-- `malloc_block` stands for the bytes of a block that `malloc` has given.
module _ (io : Io) (malloc_block : Bytes) where
  open io use {State, do_read, do_write}

  -- `pool` has the buffers of the blocks in m_pool, and `cache` and `dirty` the blocks by index.
  pub record Engine : Type 0 where
    pub max_blocks : ℕ
    pub max_pooled_blocks : ℕ
    pub read_only : Bool
    pub pool : List Bytes
    pub blocks : List Block
    pub cache : List ℕ
    pub dirty : List ℕ
    pub reads : ℕ
    pub writes : ℕ
    pub cache_hits : ℕ
    pub state : State

  -- The block that a pointer leads to.
  unfoldable pub block_at : ℕ → Engine → Result Block
  block_at i e = elim (find i e.blocks) [ none ↦ err assertion | some b ↦ ok b ]

  unfoldable pub free_block : Bytes → Engine → Engine
  free_block bytes e =
      if ltb (length e.blocks + length e.pool) e.max_pooled_blocks
      then record e { pool = e.pool ++ bytes ∷ [] }
      else e

  -- The buffer of the new block, as it was left.
  unfoldable pub allocate_block : List Bytes → Bytes × List Bytes
  allocate_block [] = (malloc_block, [])
  allocate_block (bytes ∷ pool) = (bytes, pool)

  unfoldable pub flush_block : ℕ → Engine → Result Engine
  flush_block i e = do
    b ← block_at i e
    assert (contains i e.dirty)
    assert (not e.read_only)
    d ← do_write e.state i b.bytes
    ok (record e { state = d; dirty = remove i e.dirty; writes = e.writes + 1 })

  -- The block leaves the cache and the map.
  unfoldable pub drop_block : ℕ → Engine → Result Engine
  unfolding free_block
  drop_block i e = do
    b ← block_at i e
    ok (
        free_block b.bytes
          (record e { cache = remove i e.cache; blocks = remove_block i e.blocks }))

  unfoldable pub evict_block : ℕ → Engine → Result Engine
  evict_block i e = do
    assert (contains i e.cache)
    e' ← if contains i e.dirty then flush_block i e else ok e
    drop_block i e'

  -- The loop that pin runs before it loads a block; each round takes a block from the cache.
  unfoldable pub make_room : ℕ → Engine → Result Engine
  make_room zero e =
      if ltb e.max_blocks (length e.blocks)
      then elim (lru_candidate e.cache) [ none ↦ ok e | some i ↦ err out_of_fuel ]
      else ok e
  make_room (suc rounds) e =
      if ltb e.max_blocks (length e.blocks)
      then elim (lru_candidate e.cache) [
        | none ↦ ok e
        | some i ↦ evict_block i e >>= make_room rounds
      ]
      else ok e

  -- A block that is in memory is taken out of the cache.
  unfoldable pub pin_loaded : Block → Engine → Result Engine
  pin_loaded b e = do
    guard (not b.pinned) bad_argument
    assert (contains b.index e.cache)
    ok (record e {
      cache_hits = e.cache_hits + 1;
      cache = remove b.index e.cache;
      blocks = change (record b { pinned = true }) e.blocks;
    })

  -- The bytes of a block that is loaded; without `initialize` they are those of the old buffer.
  unfoldable pub load_bytes : Bool → ℕ → Bytes → Engine → Result (Bytes × Engine)
  load_bytes false i old e = ok (old, e)
  load_bytes true i old e = do
    bytes ← do_read e.state i
    ok (bytes, record e { reads = e.reads + 1 })

  unfoldable pub load_block : ℕ → Bool → Engine → Result Engine
  unfolding allocate_block load_bytes
  load_block i initialize e = do
    let (old, pool) = allocate_block e.pool
    (bytes, e') ← load_bytes initialize i old (record e { pool = pool })
    ok (record e' { blocks = record { index = i; bytes = bytes; pinned = true } ∷ e'.blocks })

  unfoldable pub pin : ℕ → Bool → Engine → Result Engine
  unfolding pin_loaded load_block
  pin i initialize e = elim (find i e.blocks) [
    | some b ↦ pin_loaded b e
    | none ↦ make_room (length e.cache) e >>= load_block i initialize
  ]

  unfoldable pub unpin : ℕ → Engine → Result Engine
  unpin i e = do
    b ← block_at i e
    assert b.pinned
    assert (not (contains i e.cache))
    ok (record e { blocks = change (record b { pinned = false }) e.blocks; cache = i ∷ e.cache })

  unfoldable pub dirty : ℕ → Engine → Result Engine
  dirty i e = do
    b ← block_at i e
    assert b.pinned
    guard (not e.read_only) io_error
    ok (if contains i e.dirty then e else record e { dirty = add i e.dirty })

  unfoldable pub flush : ℕ → Engine → Result Engine
  flush i e = do
    b ← block_at i e
    assert b.pinned
    if contains i e.dirty then flush_block i e else ok e

  -- The loop of `flush()` over the dirty blocks.
  unfoldable pub flush_blocks : List ℕ → Engine → Result Engine
  flush_blocks [] e = ok e
  flush_blocks (i ∷ is) e = do e' ← flush_block i e; flush_blocks is e'

  abbrev pub none_dirty : Engine → Result (Unit {0})
  none_dirty e = assert (length e.dirty == 0)

  unfoldable pub flush_all : Engine → Result Engine
  unfolding flush_blocks
  flush_all e = do e' ← flush_blocks e.dirty e; none_dirty e'; ok e'

  unfoldable pub discard_block : ℕ → Engine → Result Engine
  discard_block i e = do
    b ← block_at i e
    assert (not b.pinned)
    assert (contains i e.cache)
    drop_block i (record e { dirty = remove i e.dirty })

  unfoldable pub discard_blocks : List ℕ → Engine → Result Engine
  discard_blocks [] e = ok e
  discard_blocks (i ∷ is) e = do e' ← discard_block i e; discard_blocks is e'

  unfoldable pub discard_dirty : Engine → Result Engine
  unfolding discard_blocks
  discard_dirty e = do e' ← discard_blocks e.dirty e; none_dirty e'; ok e'

  unfoldable pub discard : ℕ → Engine → Result Engine
  discard i e = elim (find i e.blocks) [ none ↦ ok e | some b ↦ discard_block i e ]

  -- What a block handle does with the block that is pinned: it is marked before it is changed
  -- (block_handle::writable_data of include/prequel/engine.hpp).
  unfoldable pub write_block : ℕ → Bytes → Engine → Result Engine
  unfolding dirty
  write_block i bytes e = do
    e' ← dirty i e
    b ← block_at i e'
    ok (record e' { blocks = change (record b { bytes = bytes }) e'.blocks })

  -- engine::overwrite, where there is no handle for the block: the old bytes are not read.
  unfoldable pub overwrite : ℕ → Bytes → Engine → Result Engine
  unfolding pin dirty
  overwrite i bytes e = do
    e' ← pin i false e
    b ← block_at i e'
    dirty i (record e' { blocks = change (record b { bytes = bytes }) e'.blocks })

  -- The constructor.
  unfoldable pub open_engine : ℕ → ℕ → Bool → State → Result Engine
  open_engine block_size cache_blocks read_only state = do
    assert (is_pow2 block_size)
    ok (record {
      max_blocks = cache_blocks;
      max_pooled_blocks =
          if ltb ((cache_blocks + 8) % 2 ^ 64) cache_blocks then 2 ^ 64 - 1 else cache_blocks + 8;
      read_only = read_only;
      pool = [];
      blocks = [];
      cache = [];
      dirty = [];
      reads = 0;
      writes = 0;
      cache_hits = 0;
      state = state;
    })
