-- ===== src/Serialization.antt =====
-- The big-endian serialization of unsigned integers (include/prequel/serialization.hpp,
-- big_endian_serializer and the instances for u16, u32 and u64).
pub mod Tests
use native.Mathlib.Nat.{pow-suc}
use extpp.Prelude.{
  ℕ, zero, suc, ◌+◌, ◌*◌, ◌/◌, ◌%◌, ◌^◌, ◌<◌, ◌≡◌, ◌∙◌, List, [], ◌∷◌, length, arith,
}

-- `n` bytes of the value `v`, most significant first, in front of `rest`.
unfoldable pub to_big : ℕ → ℕ → List ℕ → List ℕ
to_big zero v rest = rest
to_big (suc n) v rest = to_big n (v / 256) ((v % 256) ∷ rest)

-- The value of big-endian bytes behind the digits read so far.
unfoldable pub from_big : ℕ → List ℕ → ℕ
from_big acc [] = acc
from_big acc (b ∷ bs) = from_big (acc * 256 + b) bs

unfoldable pub serialize_u64 : ℕ → List ℕ
unfolding to_big
serialize_u64 v = to_big 8 v []

unfoldable pub deserialize_u64 : List ℕ → ℕ
unfolding from_big
deserialize_u64 bs = from_big 0 bs

unfoldable pub serialize_u32 : ℕ → List ℕ
unfolding to_big
serialize_u32 v = to_big 4 v []

unfoldable pub deserialize_u32 : List ℕ → ℕ
unfolding from_big
deserialize_u32 bs = from_big 0 bs

pub length-to_big : (n v : ℕ) (rest : List ℕ) → length (to_big n v rest) ≡ n + length rest
unfolding to_big
length-to_big zero v rest = omega arith
length-to_big (suc n) v rest = omega (arith, length-to_big n (v / 256) ((v % 256) ∷ rest))

pub from_big-to_big :
    (n v acc : ℕ) (rest : List ℕ)
    → v < 256 ^ n
    → from_big acc (to_big n v rest) ≡ from_big (acc * 256 ^ n + v) rest
unfolding to_big from_big
from_big-to_big zero v acc rest h = let e : acc ≡ acc * 256 ^ 0 + v = omega arith in rw (← e)
from_big-to_big (suc n) v acc rest h =
    let p = pow-suc 256 n in
    let below : v / 256 < 256 ^ n = omega arith in
    let e : (acc * 256 ^ n + v / 256) * 256 + v % 256 ≡ acc * 256 ^ suc n + v = omega (arith, q) in
    rw (from_big-to_big n (v / 256) acc ((v % 256) ∷ rest) below, from_big, e)
  where
    q : acc * 256 ^ suc n ≡ acc * 256 ^ n * 256
    q = rw (pow-suc 256 n) (omega arith)

-- Reading back what was written gives every 64-bit value.
pub deserialize_u64-serialize_u64 : (v : ℕ) → v < 2 ^ 64 → deserialize_u64 (serialize_u64 v) ≡ v
unfolding serialize_u64 deserialize_u64 from_big
deserialize_u64-serialize_u64 v h = from_big-to_big 8 v 0 [] h ∙ omega arith

-- Reading back what was written gives every 32-bit value.
pub deserialize_u32-serialize_u32 : (v : ℕ) → v < 2 ^ 32 → deserialize_u32 (serialize_u32 v) ≡ v
unfolding serialize_u32 deserialize_u32 from_big
deserialize_u32-serialize_u32 v h = from_big-to_big 4 v 0 [] h ∙ omega arith

pub length-serialize_u64 : (v : ℕ) → length (serialize_u64 v) ≡ 8
unfolding serialize_u64
length-serialize_u64 v = omega (arith, length-to_big 8 v [])
