-- ===== src/Base/Lists.antt =====
-- Lists measured and cut by native numbers, under the library's names.
use Prim.Native.Nat.{ℕ, zero, suc, ◌+◌, ◌-◌, ◌≤◌, min}
use mathlib.Core.Path.{◌≡◌, refl, ap, sym, ◌∙◌}
use mathlib.Core.List.{List, [], ◌∷◌, ◌++◌}
use native.Mathlib.Omega.{arith}

module _ {ℓ} {A : Type ℓ} where
  abbrev pub length : List A → ℕ
  length [] = 0
  length (x ∷ xs) = suc (length xs)

  abbrev pub take : ℕ → List A → List A
  take zero xs = []
  take (suc n) [] = []
  take (suc n) (x ∷ xs) = x ∷ take n xs

  abbrev pub drop : ℕ → List A → List A
  drop zero xs = xs
  drop (suc n) [] = []
  drop (suc n) (x ∷ xs) = drop n xs

  pub length-append : (xs ys : List A) → length (xs ++ ys) ≡ length xs + length ys
  length-append [] ys = omega arith
  length-append (x ∷ xs) ys = omega (arith, length-append xs ys)

module _ {ℓ} {A : Type ℓ} where
  pub take-append-drop : (n : ℕ) (xs : List A) → take n xs ++ drop n xs ≡ xs
  take-append-drop zero xs = refl
  take-append-drop (suc n) [] = refl
  take-append-drop (suc n) (x ∷ xs) = rw (take-append-drop n xs)

  pub length-take : (n : ℕ) (xs : List A) → length (take n xs) ≡ min n (length xs)
  length-take zero xs = omega arith
  length-take (suc n) [] = omega arith
  length-take (suc n) (x ∷ xs) = omega (arith, length-take n xs)

  pub length-drop : (n : ℕ) (xs : List A) → length (drop n xs) ≡ length xs - n
  length-drop zero xs = omega arith
  length-drop (suc n) [] = omega arith
  length-drop (suc n) (x ∷ xs) = omega (arith, length-drop n xs)

  -- A cut at the length of the first part parts the two.
  pub take-length-append : (xs ys : List A) → take (length xs) (xs ++ ys) ≡ xs
  take-length-append [] ys = refl
  take-length-append (x ∷ xs) ys = ap (λ l. x ∷ l) (take-length-append xs ys)

  pub drop-length-append : (xs ys : List A) → drop (length xs) (xs ++ ys) ≡ ys
  drop-length-append [] ys = refl
  drop-length-append (x ∷ xs) ys = drop-length-append xs ys

  pub take_all : (n : ℕ) (xs : List A) → length xs ≤ n → take n xs ≡ xs
  take_all zero [] h = refl
  take_all zero (x ∷ xs) h = absurd (omega arith)
  take_all (suc n) [] h = refl
  take_all (suc n) (x ∷ xs) h = ap (λ l. x ∷ l) (take_all n xs (omega arith))

  pub drop_all : (n : ℕ) (xs : List A) → length xs ≤ n → drop n xs ≡ []
  drop_all zero [] h = refl
  drop_all zero (x ∷ xs) h = absurd (omega arith)
  drop_all (suc n) [] h = refl
  drop_all (suc n) (x ∷ xs) h = drop_all n xs (omega arith)

  pub take_nil : (n : ℕ) → take {A = A} n [] ≡ []
  take_nil zero = refl
  take_nil (suc n) = refl

  pub take_none : (n : ℕ) (xs : List A) → n ≡ 0 → take n xs ≡ []
  take_none zero xs e = refl
  take_none (suc n) xs e = absurd (omega arith)

  -- A cut of two parts cuts the second by what the first leaves.
  pub take-append :
      (n : ℕ) (xs ys : List A) → take n (xs ++ ys) ≡ take n xs ++ take (n - length xs) ys
  take-append zero [] ys = refl
  take-append (suc n) [] ys = ap (λ k. take k ys) {x = suc n} (omega arith)
  take-append zero (x ∷ xs) ys = sym (take_none (0 - suc (length xs)) ys (omega arith))
  take-append (suc n) (x ∷ xs) ys =
      ap (λ l. x ∷ l) (take-append n xs ys)
      ∙ ap (λ k. x ∷ (take n xs ++ take k ys)) {x = n - length xs} (omega arith)

  pub drop-append_ge :
      (n : ℕ) (xs ys : List A) → n ≤ length xs → drop n (xs ++ ys) ≡ drop n xs ++ ys
  drop-append_ge zero xs ys h = refl
  drop-append_ge (suc n) [] ys h = absurd (omega arith)
  drop-append_ge (suc n) (x ∷ xs) ys h = drop-append_ge n xs ys (omega arith)

  pub drop-nil : (n : ℕ) → drop {A = A} n [] ≡ []
  drop-nil zero = refl
  drop-nil (suc n) = refl

  -- Two cuts are one.
  pub drop-drop : (m n k : ℕ) (xs : List A) → k ≡ n + m → drop m (drop n xs) ≡ drop k xs
  drop-drop m zero k xs e = ap (λ j. drop j xs) (omega arith)
  drop-drop m (suc n) zero xs e = absurd (omega arith)
  drop-drop m (suc n) (suc k) [] e = drop-nil m
  drop-drop m (suc n) (suc k) (x ∷ xs) e = drop-drop m n k xs (omega arith)

  -- The last `k` items.
  unfoldable pub last_n : ℕ → List A → List A
  last_n k xs = drop (length xs - k) xs

module _ {ℓ} {A : Type ℓ} where
  pub length-last_n : (k : ℕ) (xs : List A) → length (last_n k xs) ≡ min k (length xs)
  unfolding last_n
  length-last_n k xs = omega (arith, length-drop (length xs - k) xs)

  pub drop_none : (n : ℕ) (xs : List A) → n ≡ 0 → drop n xs ≡ xs
  drop_none zero xs e = refl
  drop_none (suc n) xs e = absurd (omega arith)

  pub last_n_none : (k : ℕ) (xs : List A) → k ≡ 0 → last_n k xs ≡ []
  unfolding last_n
  last_n_none k xs e = drop_all (length xs - k) xs (omega arith)

  pub last_n_all : (k : ℕ) (xs : List A) → length xs ≤ k → last_n k xs ≡ xs
  unfolding last_n
  last_n_all k xs h = ap (λ j. drop j xs) {y = 0} (omega arith)

  -- Keeping the last items of a growing list needs no more than the items kept before.
  pub last_n-append : (k : ℕ) (xs ys : List A) → last_n k (last_n k xs ++ ys) ≡ last_n k (xs ++ ys)
  unfolding last_n
  last_n-append k xs ys =
      let a = length xs - k in
      rw (← drop-append_ge a xs ys (omega arith)) (
        drop-drop (length (drop a (xs ++ ys)) - k) a (length (xs ++ ys) - k) (xs ++ ys)
          (omega (arith, length-drop a (xs ++ ys), length-append xs ys)))

  pub last_n-append_short :
      (k : ℕ) (xs ys : List A)
      → length ys ≤ k
      → last_n k (xs ++ ys) ≡ last_n (k - length ys) xs ++ ys
  unfolding last_n
  last_n-append_short k xs ys h =
      ap (λ j. drop j (xs ++ ys)) {y = length xs - (k - length ys)}
        (omega (arith, length-append xs ys))
      ∙ drop-append_ge _ xs ys (omega arith)

  pub last_n_nil : (k : ℕ) → last_n {A = A} k [] ≡ []
  unfolding last_n
  last_n_nil k = drop-nil (0 - k)
