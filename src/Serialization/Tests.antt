-- ===== src/Serialization/Tests.antt =====
-- Serialized integers, read back (include/prequel/serialization.hpp).
use extpp.Prelude.{◌≡◌, arith}
use extpp.Serialization.{serialize_u64, deserialize_u64, deserialize_u64-serialize_u64}

deserialize_u64-serialize_u64_example :
    deserialize_u64 (serialize_u64 72623859790382856) ≡ 72623859790382856
deserialize_u64-serialize_u64_example =
    deserialize_u64-serialize_u64 72623859790382856 (omega arith)
