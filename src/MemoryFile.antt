-- ===== src/MemoryFile.antt =====
-- The in-memory file of src/vfs.cpp (class memory_file), the implementation of the interface
-- `file` (include/prequel/vfs.hpp) that the journal is modelled over. `sync` does nothing there.
-- `size_t` is 64 bits wide, so the size check of `truncate` never fails.
pub mod Blocks
use extpp.Prelude.{
  ℕ, ◌+◌, ◌-◌, ◌≤◌, ◌<◌, Bool, false, not, ◌&&◌, ◌≡◌, List, ◌++◌, Result, ok, io_error, guard,
  assert, ◌>>◌, if◌then◌else◌, ltb, leb, length, take, replicate, slice, splice, arith,
  length-replicate, splice-append_end, length-append, take-all, length-take,
}

-- class memory_file: `bytes` is m_data.
pub record MemoryFile : Type 0 where
  pub bytes : List ℕ
  pub read_only : Bool

unfoldable pub file_size : MemoryFile → ℕ
file_size f = length f.bytes

unfoldable pub range_check : MemoryFile → ℕ → ℕ → Result (Unit {0})
range_check f offset count =
    guard (ltb offset (length f.bytes) && leb count (length f.bytes - offset)) io_error

unfoldable pub read : MemoryFile → ℕ → ℕ → Result (List ℕ)
unfolding range_check
read f offset count = do
  assert (ltb 0 count)
  range_check f offset count
  ok (slice f.bytes offset count)

unfoldable pub truncate : MemoryFile → ℕ → MemoryFile
truncate f size = record f { bytes = take size f.bytes ++ replicate (size - length f.bytes) 0 }

-- The file grows first where the range reaches past its end.
unfoldable pub write : MemoryFile → ℕ → List ℕ → Result MemoryFile
unfolding truncate
write f offset buffer = do
  assert (ltb 0 (length buffer))
  guard (not f.read_only) io_error
  let grown = grow f
  assert (leb offset (length grown.bytes) && leb (length buffer) (length grown.bytes - offset))
  ok (record grown { bytes = splice grown.bytes offset buffer })
  where
    grow : MemoryFile → MemoryFile
    grow f =
        if leb offset (length f.bytes) && ltb (length f.bytes - offset) (length buffer)
        then truncate f (offset + length buffer)
        else f

pub read-slice :
    (f : MemoryFile) (offset count : ℕ)
    → 0 < count
    → offset + count ≤ length f.bytes
    → read f offset count ≡ ok (slice f.bytes offset count)
unfolding read range_check
read-slice f offset count pos fits = ground arith

-- A write at the end of the file appends.
pub write-append :
    (f : MemoryFile) (offset : ℕ) (buffer : List ℕ)
    → f.read_only ≡ false
    → 0 < length buffer
    → offset ≡ length f.bytes
    → write f offset buffer ≡ ok (record f { bytes = f.bytes ++ buffer })
unfolding write truncate
write-append f offset buffer writable pos atend =
    let size : length (
          take (offset + length buffer) f.bytes
          ++ replicate (offset + length buffer - length f.bytes) 0)
        ≡ offset + length buffer =
      omega (
        arith,
        length-append (take (offset + length buffer) f.bytes)
            (replicate (offset + length buffer - length f.bytes) 0),
        length-take (offset + length buffer) f.bytes,
        length-replicate {A = ℕ} (offset + length buffer - length f.bytes) 0,
      ) in
    let filled : splice
          (take (offset + length buffer) f.bytes
            ++ replicate (offset + length buffer - length f.bytes) 0)
          offset buffer
        ≡ f.bytes ++ buffer =
      rw (take-all (offset + length buffer) f.bytes (omega arith)) (
        splice-append_end f.bytes buffer (replicate (offset + length buffer - length f.bytes) 0)
          offset atend
          (omega (arith, length-replicate {A = ℕ} (offset + length buffer - length f.bytes) 0))) in
    ground arith

-- A write inside the file overwrites.
pub write-splice :
    (f : MemoryFile) (offset : ℕ) (buffer : List ℕ)
    → f.read_only ≡ false
    → 0 < length buffer
    → offset + length buffer ≤ length f.bytes
    → write f offset buffer ≡ ok (record f { bytes = splice f.bytes offset buffer })
unfolding write
write-splice f offset buffer writable pos fits = ground arith

-- `sync` of an in-memory file.
unfoldable pub sync : MemoryFile → MemoryFile
sync f = f
