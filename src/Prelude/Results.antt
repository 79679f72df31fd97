-- ===== src/Prelude/Results.antt =====
-- Results of fallible code. `assertion` is a failed PREQUEL_ASSERT or PREQUEL_CHECK; the other
-- errors are the exception classes of include/prequel/exception.hpp that the modelled code throws.
use mathlib.Core.Bool.{Bool, true, false}

pub data Error : Type 0 where
  assertion bad_argument bad_operation corruption_error unsupported bad_alloc : Error
  io_error overflow_error exhausted out_of_fuel : Error

-- What a member function ends with: an exception, or its value with the changed members.
pub data Result {ℓ} (T : Type ℓ) : Type ℓ where
  err : Error → Result T
  ok : T → Result T

-- `throw e` unless the condition holds.
abbrev pub guard : Bool → Error → Result (Unit {0})
guard false thrown = err thrown
guard true thrown = ok tt

-- PREQUEL_ASSERT, as in a debug build.
abbrev pub assert : Bool → Result (Unit {0})
assert condition = guard condition assertion

module _ {ℓ κ} {S : Type ℓ} {T : Type κ} where
  infixl 5 ◌>>=◌
  abbrev pub ◌>>=◌ : Result S → (S → Result T) → Result T
  err thrown >>= next = err thrown
  ok s >>= next = next s

infixl 5 ◌>>◌
abbrev pub ◌>>◌ {κ} : {T : Type κ} → Result (Unit {0}) → Result T → Result T
check >> rest = check >>= λ _. rest
