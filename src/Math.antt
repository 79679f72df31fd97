-- ===== src/Math.antt =====
-- Arithmetic on 64-bit integers (include/prequel/math.hpp).
pub mod Powers
use native.Mathlib.Nat.{pow-suc, div-le_self, lt-div-mul-add}
use extpp.Prelude.{
  ℕ, zero, suc, ◌+◌, ◌-◌, ◌*◌, ◌/◌, ◌%◌, ◌^◌, ◌≤◌, ◌<◌, ◌≡◌, Bool, not, ◌&&◌, Result, ok, err,
  overflow_error, ltb, if◌then◌else◌, ◌==◌, arith,
}

-- The first `n` bits of `a | b` and of `a & b`.
unfoldable pub bit_or : ℕ → ℕ → ℕ → ℕ
bit_or zero a b = 0
bit_or (suc n) a b = bit_or n (a / 2) (b / 2) * 2 + (if a % 2 == 1 then 1 else b % 2)

unfoldable pub bit_and : ℕ → ℕ → ℕ → ℕ
bit_and zero a b = 0
bit_and (suc n) a b = bit_and n (a / 2) (b / 2) * 2 + (if a % 2 == 1 then b % 2 else 0)

-- A round of the loop, and the loop for `i` from 1 on, doubled up to 32.
unfoldable pub smear : ℕ → ℕ → ℕ
unfolding bit_or
smear i v = bit_or 64 v (v / 2 ^ i)

unfoldable pub round_towards_pow2 : ℕ → ℕ
round_towards_pow2 v =
    (smear 32 (smear 16 (smear 8 (smear 4 (smear 2 (smear 1 ((v + (2 ^ 64 - 1)) % 2 ^ 64)))))) + 1)
    % 2 ^ 64

unfoldable pub is_pow2 : ℕ → Bool
unfolding bit_and
is_pow2 v = not (v == 0) && (bit_and 64 v (v - 1) == 0)

unfoldable pub ceil_div : ℕ → ℕ → ℕ
ceil_div a b = (a + b + (2 ^ 64 - 1)) % 2 ^ 64 / b

-- The loop of log2: how often `v` can be halved before it is zero, in 63 rounds at most.
unfoldable pub count_halves : ℕ → ℕ → ℕ
count_halves zero v = 0
count_halves (suc rounds) v =
    let rest = count_halves rounds (v / 2) in if v / 2 == 0 then 0 else rest + 1

unfoldable pub log2 : ℕ → ℕ
unfolding count_halves
log2 v = count_halves 64 v

unfoldable pub checked_add_u64 : ℕ → ℕ → Result ℕ
checked_add_u64 a b = if ltb (a + b) (2 ^ 64) then ok (a + b) else err overflow_error

-- The bits of both are kept, and none is added above them.
bit_or-le : (n a b : ℕ) → a < 2 ^ n → a ≤ bit_or n a b
unfolding bit_or
bit_or-le zero a b h = omega arith
bit_or-le (suc n) a b h =
    let p = pow-suc 2 n in
    let half : a / 2 < 2 ^ n = omega arith in ground (arith, bit_or-le n (a / 2) (b / 2) half)

bit_or-below : (n k a b : ℕ) → a < 2 ^ k → b < 2 ^ k → bit_or n a b < 2 ^ k
unfolding bit_or
bit_or-below zero k a b h h' = omega arith
bit_or-below (suc n) zero a b h h' =
    let none : a ≡ 0 = omega arith in
    let none' : b ≡ 0 = omega arith in
    let rest = bit_or-below n 0 (a / 2) (b / 2) (omega arith) (omega arith) in ground arith
bit_or-below (suc n) (suc k) a b h h' =
    let p = pow-suc 2 k in
    let rest = bit_or-below n k (a / 2) (b / 2) (omega arith) (omega arith) in ground arith

smear-grows : (i x : ℕ) → x < 2 ^ 63 → (x ≤ smear i x) × (smear i x < 2 ^ 63)
unfolding smear
smear-grows i x h =
    let small = div-le_self x (2 ^ i) in
    (
      bit_or-le 64 x (x / 2 ^ i) (omega arith),
      bit_or-below 64 63 x (x / 2 ^ i) h (omega (arith, small)),
    )

pub round_towards_pow2-enough : (v : ℕ) → 0 < v → v ≤ 2 ^ 63 → v ≤ round_towards_pow2 v
unfolding round_towards_pow2
round_towards_pow2-enough v pos small =
    let start : (v + (2 ^ 64 - 1)) % 2 ^ 64 ≡ v - 1 = omega arith in
    let a = smear-grows 1 (v - 1) (omega arith) in
    let b = smear-grows 2 (smear 1 (v - 1)) a.1 in
    let c = smear-grows 4 (smear 2 (smear 1 (v - 1))) b.1 in
    let d = smear-grows 8 (smear 4 (smear 2 (smear 1 (v - 1)))) c.1 in
    let e = smear-grows 16 (smear 8 (smear 4 (smear 2 (smear 1 (v - 1))))) d.1 in
    let f = smear-grows 32 (smear 16 (smear 8 (smear 4 (smear 2 (smear 1 (v - 1)))))) e.1 in
    rw start (omega (arith, a, b, c, d, e, f))

pub ceil_div-enough : (a b : ℕ) → 0 < b → a + b ≤ 2 ^ 64 → a ≤ ceil_div a b * b
unfolding ceil_div
ceil_div-enough a b pos small =
    let start : (a + b + (2 ^ 64 - 1)) % 2 ^ 64 ≡ a + b - 1 = omega arith in
    let enough = lt-div-mul-add {a = a + b - 1} pos in rw start (omega (arith, enough))
