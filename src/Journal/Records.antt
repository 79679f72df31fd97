-- ===== src/Journal/Records.antt =====
-- The bytes of the journal's records (log_header, record_header, commit_record and write_record of
-- src/engine/journal.hpp, magic_header of include/prequel/simple_file_format.hpp).
use extpp.Prelude.{ℕ, ◌≡◌, List, [], ◌∷◌, ◌++◌, length, drop, arith}
use extpp.Serialization.{serialize_u64, serialize_u32, deserialize_u64, length-serialize_u64}

abbrev pub record_begin : ℕ
record_begin = 1

abbrev pub record_abort : ℕ
record_abort = 2

abbrev pub record_commit : ℕ
record_commit = 3

abbrev pub record_write : ℕ
record_write = 4

-- The `serialized_size` of record_header, of commit_record and of write_record.
abbrev pub header_size : ℕ
header_size = 1

abbrev pub commit_size : ℕ
commit_size = 9

abbrev pub write_size : ℕ
write_size = 9

-- LOG_MAGIC, padded with zeros to `magic_header::max_size`.
abbrev pub log_magic : List ℕ
log_magic =
    b'P' ∷ b'R' ∷ b'E' ∷ b'Q' ∷ b'U' ∷ b'E' ∷ b'L' ∷ b'_' ∷ b'T' ∷ b'X' ∷ b'_' ∷ b'J' ∷ b'O' ∷ b'U'
    ∷ b'R' ∷ b'N' ∷ b'A' ∷ b'L' ∷ 0 ∷ 0 ∷ []

abbrev pub log_version : ℕ
log_version = 1

-- Bytes of the magic, the version and the block size.
abbrev pub log_header_size : ℕ
log_header_size = 28

unfoldable pub serialize_log_header : ℕ → List ℕ
unfolding serialize_u32
serialize_log_header block_size =
    log_magic ++ (serialize_u32 log_version ++ serialize_u32 block_size)

unfoldable pub serialize_header : ℕ → List ℕ
serialize_header type = type ∷ []

unfoldable pub serialize_commit : ℕ → List ℕ
serialize_commit database_size = record_commit ∷ serialize_u64 database_size

unfoldable pub serialize_write : ℕ → List ℕ
serialize_write index = record_write ∷ serialize_u64 index

-- The type of a record that was read: its first byte.
unfoldable pub record_type : List ℕ → ℕ
record_type [] = 0
record_type (b ∷ bytes) = b

-- The number behind the type, `database_size` of a commit_record and `index` of a write_record.
unfoldable pub record_value : List ℕ → ℕ
record_value bytes = deserialize_u64 (drop 1 bytes)

pub length-serialize_commit : (n : ℕ) → length (serialize_commit n) ≡ 9
unfolding serialize_commit
length-serialize_commit n = omega (arith, length-serialize_u64 n)

pub length-serialize_write : (n : ℕ) → length (serialize_write n) ≡ 9
unfolding serialize_write
length-serialize_write n = omega (arith, length-serialize_u64 n)
