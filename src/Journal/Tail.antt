-- ===== src/Journal/Tail.antt =====
-- The journal's file management (src/engine/journal.hpp, "Journal file management", and the
-- functions read_internal, write_internal, append_to_buffer and flush_buffer of
-- src/engine/journal.ipp): the log file, and the buffer that holds the tail of the log in memory.
-- Offsets are lengths of a byte vector in memory and stay below 2 ^ 64.
pub mod Append
pub mod Access
use extpp.Prelude.{
  ℕ, zero, suc, ◌+◌, ◌-◌, ◌%◌, ◌^◌, ◌≤◌, ◌<◌, min, ◌≡◌, Bool, true, false, not, ◌&&◌, List, [], ◌∷◌,
  ◌++◌, Result, ok, err, out_of_fuel, assert, ◌>>=◌, ◌>>◌, if◌then◌else◌, ltb, leb, ◌==◌, length,
  take, drop, slice, splice,
}
use extpp.MemoryFile
use extpp.MemoryFile.{MemoryFile}

-- A `u32` holds the value modulo 2 ^ 32.
unfoldable pub to_u32 : ℕ → ℕ
to_u32 n = n % 2 ^ 32

pub record Tail : Type 0 where
  pub file : MemoryFile
  pub read_only : Bool
  pub log_size : ℕ
  pub buffer_offset : ℕ
  pub buffer_used : ℕ
  pub buffer : List ℕ

-- `range_in_bounds<u64>` (include/prequel/math.hpp)
unfoldable pub range_in_bounds : ℕ → ℕ → ℕ → Bool
range_in_bounds size offset n = leb offset size && leb n (size - offset)

unfoldable pub flush_buffer : Tail → Result Tail
flush_buffer t = do
  assert (not t.read_only)
  assert (leb t.buffer_used (length t.buffer))
  if ltb 0 t.buffer_used
      then (do
        f ← MemoryFile.write t.file t.buffer_offset (take t.buffer_used t.buffer)
        let t' = record t {
          file = f;
          buffer_offset = t.buffer_offset + t.buffer_used;
          buffer_used = 0;
        }
        assert (t'.buffer_offset == t'.log_size)
        ok t')
      else ok t

-- memcpy behind the used part of the buffer.
unfoldable pub copy_to_buffer : Tail → List ℕ → Tail
unfolding to_u32
copy_to_buffer t chunk = record t {
  buffer = splice t.buffer t.buffer_used chunk;
  buffer_used = to_u32 (t.buffer_used + length chunk);
  log_size = t.log_size + length chunk;
}

-- One round of the loop in append_to_buffer: the chunk that fits, flushing first if nothing does.
unfoldable pub append_round : Tail → List ℕ → Result (Tail × ℕ)
append_round t bytes = do
  t' ← if t.buffer_used == length t.buffer then flush_buffer t else ok t
  assert (ltb t'.buffer_used (length t'.buffer))
  let count = min (length t'.buffer - t'.buffer_used) (length bytes)
  let t'' = copy_to_buffer t' (take count bytes)
  assert (leb t''.buffer_used (length t''.buffer))
  ok (t'', count)

unfoldable pub append_loop : ℕ → Tail → List ℕ → Result Tail
append_loop zero t bytes = err out_of_fuel
append_loop (suc fuel) t [] = ok t
append_loop (suc fuel) t (b ∷ bytes) = do
  (t', count) ← append_round t (b ∷ bytes)
  append_loop fuel t' (drop count (b ∷ bytes))

-- Every round copies a byte at least, so the fuel is enough.
unfoldable pub append_to_buffer : Tail → List ℕ → Result Tail
unfolding append_loop
append_to_buffer t bytes = do assert (not t.read_only); append_loop (length bytes + 1) t bytes

-- How much of a range at `offset` lies in the file.
unfoldable pub file_part : Tail → ℕ → ℕ → ℕ
unfolding to_u32
file_part t offset size =
    if ltb t.buffer_offset (offset + to_u32 size)
    then to_u32 (t.buffer_offset - offset)
    else to_u32 size

unfoldable pub read_buffer : Tail → ℕ → ℕ → Result (List ℕ)
read_buffer t offset size =
    if ltb 0 size
    then (do
      assert (leb t.buffer_offset offset)
      assert (leb (offset - t.buffer_offset + size) t.buffer_used)
      ok (slice t.buffer (offset - t.buffer_offset) size))
    else ok []

unfoldable pub read_internal : Tail → ℕ → ℕ → Result (List ℕ)
unfolding range_in_bounds
read_internal t offset size = do
  assert (range_in_bounds t.log_size offset size)
  if size == 0
      then ok []
      else if ltb offset t.buffer_offset
      then (do
        let count = file_part t offset size
        front ← MemoryFile.read t.file offset count
        back ← read_buffer t (offset + count) (size - count)
        ok (front ++ back))
      else read_buffer t offset size

unfoldable pub write_buffer : Tail → ℕ → List ℕ → Result Tail
write_buffer t offset bytes =
    if ltb 0 (length bytes)
    then (do
      assert (leb t.buffer_offset offset)
      assert (leb (offset - t.buffer_offset + length bytes) t.buffer_used)
      ok (record t { buffer = splice t.buffer (offset - t.buffer_offset) bytes }))
    else ok t

unfoldable pub write_internal : Tail → ℕ → List ℕ → Result Tail
unfolding range_in_bounds
write_internal t offset bytes = do
  assert (not t.read_only)
  assert (range_in_bounds t.log_size offset (length bytes))
  if length bytes == 0
      then ok t
      else if ltb offset t.buffer_offset
      then (do
        let count = file_part t offset (length bytes)
        f ← MemoryFile.write t.file offset (take count bytes)
        write_buffer (record t { file = f }) (offset + count) (drop count bytes))
      else write_buffer t offset bytes

-- What the log stands for: the file, and the used part of the buffer behind it.
abbrev pub log : Tail → List ℕ
log t = t.file.bytes ++ take t.buffer_used t.buffer

-- The class invariant of the assertions, with what the constructor is given.
pub record IsValid (t : Tail) : Type 0 where
  pub writable : t.read_only ≡ false
  pub file_writable : t.file.read_only ≡ false
  pub file_end : length t.file.bytes ≡ t.buffer_offset
  pub size : t.log_size ≡ t.buffer_offset + t.buffer_used
  pub used : t.buffer_used ≤ length t.buffer
  pub space : 0 < length t.buffer
  pub narrow : length t.buffer < 2 ^ 32
