-- ===== src/Prelude/Lists.antt =====
-- Lists measured, cut and overwritten by native numbers.
use Prim.Native.Nat.{ℕ, zero, suc, ◌+◌, ◌-◌, ◌≤◌, min}
use mathlib.Core.Path.{◌≡◌, ◌∙◌, refl, ap, sym}
use mathlib.Core.List.{List, [], ◌∷◌, ◌++◌, append-nil, append_assoc}
use mathlib.Core.Option.{Option, none, some}
use native.Mathlib.Omega.{arith}

module _ {ℓ} {A : Type ℓ} where
  abbrev pub length : List A → ℕ
  length [] = 0
  length (x ∷ xs) = suc (length xs)

  abbrev pub take : ℕ → List A → List A
  take zero xs = []
  take (suc n) [] = []
  take (suc n) (x ∷ xs) = x ∷ take n xs

  abbrev pub drop : ℕ → List A → List A
  drop zero xs = xs
  drop (suc n) [] = []
  drop (suc n) (x ∷ xs) = drop n xs

  abbrev pub replicate : ℕ → A → List A
  replicate zero a = []
  replicate (suc n) a = a ∷ replicate n a

  abbrev pub get_elem? : List A → ℕ → Option A
  get_elem? [] i = none
  get_elem? (x ∷ xs) zero = some x
  get_elem? (x ∷ xs) (suc i) = get_elem? xs i

  -- A write out of bounds changes nothing.
  abbrev pub set : List A → ℕ → A → List A
  set [] i v = []
  set (x ∷ xs) zero v = v ∷ xs
  set (x ∷ xs) (suc i) v = x ∷ set xs i v

  -- The `n` items from position `i` on.
  unfoldable pub slice : List A → ℕ → ℕ → List A
  slice xs i n = take n (drop i xs)

  -- `xs` with `ys` copied over it from position `i` on.
  unfoldable pub splice : List A → ℕ → List A → List A
  splice xs i ys = take i xs ++ (ys ++ drop (i + length ys) xs)

  pub length-append : (xs ys : List A) → length (xs ++ ys) ≡ length xs + length ys
  length-append [] ys = omega arith
  length-append (x ∷ xs) ys = omega (arith, length-append xs ys)

  pub length-take : (n : ℕ) (xs : List A) → length (take n xs) ≡ min n (length xs)
  length-take zero xs = omega arith
  length-take (suc n) [] = omega arith
  length-take (suc n) (x ∷ xs) = omega (arith, length-take n xs)

  pub length-drop : (n : ℕ) (xs : List A) → length (drop n xs) ≡ length xs - n
  length-drop zero xs = omega arith
  length-drop (suc n) [] = omega arith
  length-drop (suc n) (x ∷ xs) = omega (arith, length-drop n xs)

  pub length-replicate : (n : ℕ) (a : A) → length (replicate n a) ≡ n
  length-replicate zero a = refl
  length-replicate (suc n) a = ap suc (length-replicate n a)

  pub take-nil : (n : ℕ) → take n [] ≡ []
  take-nil zero = refl
  take-nil (suc n) = refl

  pub take-append-drop : (n : ℕ) (xs : List A) → take n xs ++ drop n xs ≡ xs
  take-append-drop zero xs = refl
  take-append-drop (suc n) [] = refl
  take-append-drop (suc n) (x ∷ xs) = rw (take-append-drop n xs)

  pub take-all : (n : ℕ) (xs : List A) → length xs ≤ n → take n xs ≡ xs
  take-all zero [] h = refl
  take-all zero (x ∷ xs) h = absurd (omega arith)
  take-all (suc n) [] h = refl
  take-all (suc n) (x ∷ xs) h = ap (◌∷◌ x) (take-all n xs (omega arith))

  pub drop-all : (n : ℕ) (xs : List A) → length xs ≤ n → drop n xs ≡ []
  drop-all zero [] h = refl
  drop-all zero (x ∷ xs) h = absurd (omega arith)
  drop-all (suc n) [] h = refl
  drop-all (suc n) (x ∷ xs) h = drop-all n xs (omega arith)

  pub take-append_le : (n : ℕ) (xs ys : List A) → n ≤ length xs → take n (xs ++ ys) ≡ take n xs
  take-append_le zero xs ys h = refl
  take-append_le (suc n) [] ys h = absurd (omega arith)
  take-append_le (suc n) (x ∷ xs) ys h = ap (◌∷◌ x) (take-append_le n xs ys (omega arith))

  pub drop-append_le :
      (n : ℕ) (xs ys : List A) → n ≤ length xs → drop n (xs ++ ys) ≡ drop n xs ++ ys
  drop-append_le zero xs ys h = refl
  drop-append_le (suc n) [] ys h = absurd (omega arith)
  drop-append_le (suc n) (x ∷ xs) ys h = drop-append_le n xs ys (omega arith)

  -- Past the end of `xs`, a cut of `xs ++ ys` is a cut of `ys`; the distance is a number of its own.
  pub take-append_ge :
      (n m : ℕ) (xs ys : List A) → n ≡ length xs + m → take n (xs ++ ys) ≡ xs ++ take m ys
  take-append_ge n m [] ys h = ap (λ k. take k ys) (omega arith)
  take-append_ge zero m (x ∷ xs) ys h = absurd (omega arith)
  take-append_ge (suc n) m (x ∷ xs) ys h = ap (◌∷◌ x) (take-append_ge n m xs ys (omega arith))

  pub drop-append_ge :
      (n m : ℕ) (xs ys : List A) → n ≡ length xs + m → drop n (xs ++ ys) ≡ drop m ys
  drop-append_ge n m [] ys h = ap (λ k. drop k ys) (omega arith)
  drop-append_ge zero m (x ∷ xs) ys h = absurd (omega arith)
  drop-append_ge (suc n) m (x ∷ xs) ys h = drop-append_ge n m xs ys (omega arith)

  pub drop-nil : (n : ℕ) → drop n [] ≡ []
  drop-nil zero = refl
  drop-nil (suc n) = refl

  pub drop-drop : (n m : ℕ) (xs : List A) → drop n (drop m xs) ≡ drop (m + n) xs
  drop-drop n zero xs = let e : n ≡ zero + n = omega arith in ap (λ k. drop k xs) e
  drop-drop n (suc m) [] = rw (drop-nil n, drop-nil (suc m + n))
  drop-drop n (suc m) (x ∷ xs) =
      let e : suc m + n ≡ suc (m + n) = omega arith in rw e (drop-drop n m xs)

  pub take-take : (n m : ℕ) (xs : List A) → n ≤ m → take n (take m xs) ≡ take n xs
  take-take zero m xs h = refl
  take-take (suc n) zero xs h = absurd (omega arith)
  take-take (suc n) (suc m) [] h = refl
  take-take (suc n) (suc m) (x ∷ xs) h = ap (◌∷◌ x) (take-take n m xs (omega arith))

  pub take-take_append : (n k : ℕ) (xs : List A) → take n xs ++ take k (drop n xs) ≡ take (n + k) xs
  take-take_append zero k xs = let e : k ≡ zero + k = omega arith in ap (λ m. take m xs) e
  take-take_append (suc n) k [] = rw (take-nil k, take-nil (suc n + k))
  take-take_append (suc n) k (x ∷ xs) =
      let e : suc n + k ≡ suc (n + k) = omega arith in rw e (ap (◌∷◌ x) (take-take_append n k xs))

  -- The piece in the middle of three.
  pub slice-middle :
      (i n : ℕ) (xs ys zs : List A)
      → i ≡ length xs
      → n ≡ length ys
      → slice (xs ++ (ys ++ zs)) i n ≡ ys
  unfolding slice
  slice-middle i n xs ys zs hi hn =
      rw (drop-append_ge i 0 xs (ys ++ zs) (omega arith), take-append_le n ys zs (omega arith))
        (take-all n ys (omega arith))

  pub length-slice : (xs : List A) (i n : ℕ) → i + n ≤ length xs → length (slice xs i n) ≡ n
  unfolding slice
  length-slice xs i n h = omega (arith, length-take n (drop i xs), length-drop i xs)

  pub length-splice :
      (xs ys : List A) (i : ℕ) → i + length ys ≤ length xs → length (splice xs i ys) ≡ length xs
  unfolding splice
  length-splice xs ys i h = omega (
    arith,
    length-append (take i xs) (ys ++ drop (i + length ys) xs),
    length-append ys (drop (i + length ys) xs),
    length-take i xs,
    length-drop (i + length ys) xs,
  )

  pub take-splice :
      (xs ys : List A) (i n : ℕ)
      → i ≤ length xs
      → n ≡ i + length ys
      → take n (splice xs i ys) ≡ take i xs ++ ys
  unfolding splice
  take-splice xs ys i n h e = rw (
    take-append_ge n (length ys) (take i xs) (ys ++ drop (i + length ys) xs)
        (omega (arith, length-take i xs)),
    take-append_le (length ys) ys (drop (i + length ys) xs) (omega arith),
    take-all (length ys) ys (omega arith),
  )

  pub splice-append_end :
      (xs ys zs : List A) (i : ℕ)
      → i ≡ length xs
      → length zs ≡ length ys
      → splice (xs ++ zs) i ys ≡ xs ++ ys
  unfolding splice
  splice-append_end xs ys zs i hi hz = rw (
    take-append_le i xs zs (omega arith),
    take-all i xs (omega arith),
    drop-append_ge (i + length ys) (length ys) xs zs (omega arith),
    drop-all (length ys) zs (omega arith),
    append-nil,
  )

  pub splice-append_left :
      (xs zs ys : List A) (i : ℕ)
      → i + length ys ≤ length xs
      → splice (xs ++ zs) i ys ≡ splice xs i ys ++ zs
  unfolding splice
  splice-append_left xs zs ys i h = rw (
    take-append_le i xs zs (omega arith),
    drop-append_le (i + length ys) xs zs (omega arith),
    append_assoc,
    append_assoc,
  )

  pub splice-append_right :
      (xs zs ys : List A) (i k : ℕ)
      → i ≡ length xs + k
      → splice (xs ++ zs) i ys ≡ xs ++ splice zs k ys
  unfolding splice
  splice-append_right xs zs ys i k h = rw (
    take-append_ge i k xs zs h,
    drop-append_ge (i + length ys) (k + length ys) xs zs (omega arith),
    append_assoc,
  )

  pub slice-append_left :
      (xs ys : List A) (i n : ℕ) → i + n ≤ length xs → slice (xs ++ ys) i n ≡ slice xs i n
  unfolding slice
  slice-append_left xs ys i n h = rw (
    drop-append_le i xs ys (omega arith),
    take-append_le n (drop i xs) ys (omega (arith, length-drop i xs)),
  )

  pub slice-append_right :
      (xs ys : List A) (i k n : ℕ) → i ≡ length xs + k → slice (xs ++ ys) i n ≡ slice ys k n
  unfolding slice
  slice-append_right xs ys i k n h = rw (drop-append_ge i k xs ys h)

  pub slice-take : (xs : List A) (m i n : ℕ) → i + n ≤ m → slice (take m xs) i n ≡ slice xs i n
  unfolding slice
  slice-take xs m zero n h = take-take n m xs (omega arith)
  slice-take [] zero (suc i) n h = refl
  slice-take [] (suc m) (suc i) n h = refl
  slice-take (x ∷ xs) zero (suc i) n h = absurd (omega arith)
  slice-take (x ∷ xs) (suc m) (suc i) n h = slice-take xs m i n (omega arith)

  -- Adjacent cuts join.
  pub slice-slice_append :
      (xs : List A) (i n k : ℕ) → slice xs i n ++ slice xs (i + n) k ≡ slice xs i (n + k)
  unfolding slice
  slice-slice_append xs i n k = rw (← drop-drop n i xs) (take-take_append n k (drop i xs))

  pub slice-splice_self :
      (xs ys : List A) (i n : ℕ) → n ≡ length ys → i ≤ length xs → slice (splice xs i ys) i n ≡ ys
  unfolding splice
  slice-splice_self xs ys i n e h =
      slice-middle i n (take i xs) ys (drop (i + length ys) xs) (omega (arith, length-take i xs)) e

  pub slice-splice_before :
      (xs ys : List A) (i j n : ℕ)
      → j + n ≤ i
      → i ≤ length xs
      → slice (splice xs i ys) j n ≡ slice xs j n
  unfolding splice
  slice-splice_before xs ys i j n below fits =
      slice-append_left (take i xs) _ j n (omega (arith, length-take i xs))
      ∙ slice-take xs i j n (omega arith)

  pub slice-splice_after :
      (xs ys : List A) (i j n : ℕ)
      → i + length ys ≤ j
      → i ≤ length xs
      → slice (splice xs i ys) j n ≡ slice xs j n
  unfolding splice slice
  slice-splice_after xs ys i j n above fits =
      slice-append_right (take i xs) _ j (length ys + (j - (i + length ys))) n
        (omega (arith, length-take i xs))
      ∙ slice-append_right ys _ _ (j - (i + length ys)) n refl
      ∙ rw (slice, drop-drop (j - (i + length ys)) (i + length ys) xs, back)
    where
      back : i + length ys + (j - (i + length ys)) ≡ j
      back = omega arith

  pub splice-nil : (xs : List A) (i : ℕ) → splice xs i [] ≡ xs
  unfolding splice
  splice-nil xs i = let e : i + 0 ≡ i = omega arith in rw e (take-append-drop i xs)

  splice_lem :
      (xs ys : List A) (i : ℕ) → splice xs i ys ≡ take i xs ++ (ys ++ drop (i + length ys) xs)
  unfolding splice
  splice_lem xs ys i = refl

  -- Two adjacent writes are one.
  pub splice-splice_append :
      (xs ys zs : List A) (i j : ℕ)
      → i ≤ length xs
      → j ≡ i + length ys
      → splice (splice xs i ys) j zs ≡ splice xs i (ys ++ zs)
  splice-splice_append xs ys zs i j fits e =
      let rest = drop (i + length ys) xs in
      ap (λ ws. splice ws j zs) (splice_lem xs ys i)
      ∙ splice-append_right (take i xs) (ys ++ rest) zs j (length ys)
          (omega (arith, length-take i xs))
      ∙ ap (◌++◌ (take i xs)) (splice-append_right ys rest zs (length ys) 0 (omega arith))
      ∙ joined
    where
      shift : i + length ys + (0 + length zs) ≡ i + length (ys ++ zs)
      shift = omega (arith, length-append ys zs)

      joined : take i xs ++ (ys ++ splice (drop (i + length ys) xs) 0 zs) ≡ splice xs i (ys ++ zs)
      joined =
          unfold splice in
          rw (drop-drop (0 + length zs) (i + length ys) xs, shift, append_assoc ys zs)

  pub take-splice_in :
      (xs ys : List A) (i n : ℕ)
      → i + length ys ≤ n
      → n ≤ length xs
      → take n (splice xs i ys) ≡ splice (take n xs) i ys
  take-splice_in xs ys i n h k =
      let e : splice xs i ys ≡ splice (take n xs) i ys ++ drop n xs =
        ap (λ ws. splice ws i ys) (sym (take-append-drop n xs))
        ∙ splice-append_left (take n xs) (drop n xs) ys i (omega (arith, length-take n xs)) in
      let size = length-splice (take n xs) ys i (omega (arith, length-take n xs)) in
      rw
        (
          e,
          take-append_le n (splice (take n xs) i ys) (drop n xs) (omega (arith, length-take n xs)),
        )
        (take-all n (splice (take n xs) i ys) (omega (arith, length-take n xs)))
