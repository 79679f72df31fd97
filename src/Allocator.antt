-- ===== src/Allocator.antt =====
-- The interface `allocator` (include/prequel/container/allocator.hpp) as the containers use it, for
-- single blocks, with what its documentation promises: a block that is handed out is valid and was
-- not in use; a block that is in use can be given back.
use extpp.Prelude.{ℕ, ◌≡◌, ◌≢◌, ◌-◌, ◌^◌, Bool, true, false, Result, ok, ◌==◌, if◌then◌else◌}

-- The invalid block index.
abbrev pub invalid : ℕ
invalid = 2 ^ 64 - 1

pub record Allocator : Type 1 where
  pub State : Type 0
  -- A block that was handed out and not given back.
  pub used : State → ℕ → Bool
  pub allocate : State → ℕ → Result (ℕ × State)
  pub free : State → ℕ → ℕ → Result State
  pub allocate-valid : (a a' : State) (i : ℕ) → allocate a 1 ≡ ok (i, a') → i ≢ invalid
  pub allocate-fresh : (a a' : State) (i : ℕ) → allocate a 1 ≡ ok (i, a') → used a i ≡ false
  pub used-allocate :
      (a a' : State) (i k : ℕ)
      → allocate a 1 ≡ ok (i, a')
      → used a' k ≡ (if i == k then true else used a k)
  pub free-ok : (a : State) (i : ℕ) → used a i ≡ true → (a' : State) × (free a i 1 ≡ ok a')
  pub used-free :
      (a a' : State) (i k : ℕ)
      → free a i 1 ≡ ok a'
      → used a' k ≡ (if i == k then false else used a k)
