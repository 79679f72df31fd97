-- ===== src/Math/Powers.antt =====
-- Powers of two (is_pow2 and log2 of include/prequel/math.hpp).
use native.Mathlib.Nat.{pow-suc}
use extpp.Prelude.{
  ℕ, zero, suc, ◌+◌, ◌-◌, ◌*◌, ◌/◌, ◌%◌, ◌^◌, ◌≤◌, ◌<◌, ◌≡◌, ◌∙◌, refl, sym, ap, Bool, true, false,
  not, ◌&&◌, if◌then◌else◌, ◌==◌, arith, Bool-cases, inl, inr,
}
use extpp.Prelude
use extpp.Math.{bit_and, is_pow2, count_halves, log2}

bit_and_self : (n h : ℕ) → h < 2 ^ n → bit_and n h h ≡ h
unfolding bit_and
bit_and_self zero h small = omega (arith, small)
bit_and_self (suc n) h small =
    let p = pow-suc 2 n in
    let rest = bit_and_self n (h / 2) (omega (arith, small, p)) in ground (arith, rest)

-- Where no bit of `v` is a bit of `v - 1`, halving `v` leads to 1.
count_halves-pow :
    (n v : ℕ) → 0 < v → v < 2 ^ n → bit_and n v (v - 1) ≡ 0 → 2 ^ count_halves n v ≡ v
unfolding bit_and count_halves
count_halves-pow zero v pos small apart = omega (arith, pos, small)
count_halves-pow (suc n) v pos small apart =
    let p = pow-suc 2 n in
    let half : v / 2 < 2 ^ n = omega (arith, small, p) in
    elim (Bool-cases (v % 2 == 1)) [
      | inl odd ↦
          let is_odd : v % 2 ≡ 1 = ground (arith, odd) in
          let same : (v - 1) / 2 ≡ v / 2 = omega (arith, is_odd) in
          let kept = bit_and_self n (v / 2) half in
          let none : v / 2 ≡ 0 =
            ground (arith, kept, ap (λ m. bit_and n (v / 2) m) same, apart, odd) in
          let one : v ≡ 1 = omega (arith, none, is_odd) in rw one refl
      | inr even ↦
          let is_even : v % 2 ≡ 0 = ground (arith, even) in
          let less : (v - 1) / 2 ≡ v / 2 - 1 = omega (arith, is_even) in
          let some_half : 0 < v / 2 = omega (arith, is_even, pos) in
          let apart' : bit_and n (v / 2) (v / 2 - 1) ≡ 0 =
            ground (arith, ap (λ m. bit_and n (v / 2) m) less, apart, even) in
          let rest = count_halves-pow n (v / 2) some_half half apart' in
          let q = pow-suc 2 (count_halves n (v / 2)) in
          let not_none : (v / 2 == 0) ≡ false = ground (arith, some_half) in
          let next : count_halves n (v / 2) + 1 ≡ suc (count_halves n (v / 2)) = omega arith in
          rw (not_none, next) (omega (arith, q, rest, is_even))
    ]

split : (a b : Bool) → (a && b) ≡ true → (a ≡ true) × (b ≡ true)
split false b h = absurd (ground (arith, h))
split true b h = (refl, h)

-- A power of two is two to the power of its logarithm.
pub log2-pow : (v : ℕ) → is_pow2 v ≡ true → v < 2 ^ 64 → 2 ^ log2 v ≡ v
unfolding is_pow2 log2
log2-pow v power small =
    let (some_bit, apart) = split (not (v == 0)) (bit_and 64 v (v - 1) == 0) power in
    count_halves-pow 64 v (ground (arith, some_bit)) small
      ((Prelude.==_iff (bit_and 64 v (v - 1)) 0).0 apart)

pub is_pow2-pos : (v : ℕ) → is_pow2 v ≡ true → 0 < v
unfolding is_pow2
is_pow2-pos v power =
    let some_bit = (split (not (v == 0)) (bit_and 64 v (v - 1) == 0) power).0 in
    ground (arith, some_bit)
