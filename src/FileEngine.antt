-- ===== src/FileEngine.antt =====
-- The file engine (src/engine/file_engine.hpp, src/engine/file_engine.ipp): a block engine that reads
-- and writes its blocks in one file.
pub mod Device
pub mod Growth
mod Tests
use extpp.Prelude.{ℕ, ◌+◌, ◌*◌, ◌/◌, ◌%◌, ◌^◌, ◌≡◌, List, Result, ok, ◌>>=◌}
use extpp.Math.{log2, checked_add_u64}
use extpp.MemoryFile
use extpp.MemoryFile.{MemoryFile}
use extpp.Journal.{checked_mul_u64}
use extpp.Engine.{Bytes, Io, Engine, open_engine}

-- What do_read and do_write work on.
pub record Store : Type 0 where
  pub file : MemoryFile
  pub block_size : ℕ
  pub block_size_log : ℕ

abbrev pub offset : Store → ℕ → ℕ
offset d index = index * 2 ^ d.block_size_log % 2 ^ 64

unfoldable pub do_read : Store → ℕ → Result Bytes
do_read d index = MemoryFile.read d.file (offset d index) d.block_size

unfoldable pub do_write : Store → ℕ → Bytes → Result Store
do_write d index bytes = do
  file ← MemoryFile.write d.file (offset d index) bytes
  ok (record d { file = file })

abbrev pub io : Io
io = record { State = Store; do_read = do_read; do_write = do_write }

unfoldable pub size : Store → ℕ
size d = MemoryFile.file_size d.file / 2 ^ d.block_size_log

module _ (malloc_block : Bytes) where
  unfoldable pub grow : ℕ → Engine io malloc_block → Result (Engine io malloc_block)
  grow n e = do
    new_blocks ← checked_add_u64 (size e.state) n
    new_bytes ← checked_mul_u64 new_blocks e.state.block_size
    ok (record e { state = record e.state { file = MemoryFile.truncate e.state.file new_bytes } })

  -- The constructor.
  unfoldable pub open_file_engine : MemoryFile → ℕ → ℕ → Result (Engine io malloc_block)
  open_file_engine file block_size cache_blocks =
      open_engine io malloc_block block_size cache_blocks file.read_only
        (record { file = file; block_size = block_size; block_size_log = log2 block_size })
