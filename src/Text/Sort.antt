-- ===== src/Text/Sort.antt =====
-- Sorting by a strict order: what `sort.Slice` and `sort.Strings` leave, where no two items are
-- equal in the order.
use mathlib.Core.Path.{subst}
use mathlib.Core.List.{Perm}
use mathlib.Core.List.Perm
use dbx_plugin_ninty_shell.Base.{
  All, length, suc, ap, Bool, true, false, List, [], ◌∷◌, ◌≡◌, refl, arith, if◌then◌else◌,
  Bool-cases, inl, inr, ℕ, ltb, ◌==◌, ◌||◌, ◌&&◌, ◌⊎◌,
}

-- The order of Go's strings.
unfoldable pub bytes_lt : List ℕ → List ℕ → Bool
bytes_lt [] [] = false
bytes_lt [] (d ∷ t) = true
bytes_lt (c ∷ s) [] = false
bytes_lt (c ∷ s) (d ∷ t) = ltb c d || (c == d && bytes_lt s t)

pub bytes_lt_asymm : (s t : List ℕ) → bytes_lt s t ≡ true → bytes_lt t s ≡ false
unfolding bytes_lt
bytes_lt_asymm [] [] h = refl
bytes_lt_asymm [] (d ∷ t) h = refl
bytes_lt_asymm (c ∷ s) [] h = ground arith
bytes_lt_asymm (c ∷ s) (d ∷ t) h = ground (arith, bytes_lt_asymm s t)

-- Two texts are equal where neither comes before the other.
pub bytes_lt_total : (s t : List ℕ) → bytes_lt t s ≡ false → (s ≡ t) ⊎ (bytes_lt s t ≡ true)
unfolding bytes_lt
bytes_lt_total [] [] h = inl refl
bytes_lt_total [] (d ∷ t) h = inr refl
bytes_lt_total (c ∷ s) [] h = ground arith
bytes_lt_total (c ∷ s) (d ∷ t) h = elim (Bool-cases (ltb c d)) [
  | inl e ↦ inr (ground (arith, e))
  | inr e ↦
      let same : c ≡ d = ground (arith, e, h) in
      elim (bytes_lt_total s t (ground (arith, e, h))) [
        | inl f ↦ inl (ground (arith, same, f))
        | inr f ↦ inr (ground (arith, same, f))
      ]
]

-- Texts in order, the first of them counting most.
abbrev pub AreBelow : List (List ℕ) → List (List ℕ) → Type 0
AreBelow [] ls = Unit
AreBelow (k ∷ ks) [] = ⊥
AreBelow (k ∷ ks) (l ∷ ls) = (bytes_lt k l ≡ true) ⊎ ((k ≡ l) × AreBelow ks ls)

module _ {A : Type 0} (R : A → A → Type 0) where
  -- Each item stands in the relation to the next one.
  abbrev pub IsOrdered : List A → Type 0
  IsOrdered [] = Unit
  IsOrdered (x ∷ []) = Unit
  IsOrdered (x ∷ y ∷ l) = R x y × IsOrdered (y ∷ l)

module _ {A : Type 0} (lt : A → A → Bool) where
  insert_sorted : A → List A → List A
  insert_sorted x [] = x ∷ []
  insert_sorted x (y ∷ ys) =
      let rest = y ∷ insert_sorted x ys in if lt y x then rest else x ∷ y ∷ ys

  unfoldable pub sort_by : List A → List A
  unfolding insert_sorted
  sort_by [] = []
  sort_by (x ∷ xs) = insert_sorted x (sort_by xs)

  -- No item comes before a smaller one next to it.
  abbrev pub IsSortedBy : List A → Type 0
  IsSortedBy [] = Unit
  IsSortedBy (x ∷ []) = Unit
  IsSortedBy (x ∷ y ∷ l) = (lt y x ≡ false) × IsSortedBy (y ∷ l)

  insert_sorted-perm : (x : A) (l : List A) → Perm (insert_sorted x l) (x ∷ l)
  unfolding insert_sorted
  insert_sorted-perm x [] = Perm.refl (x ∷ [])
  insert_sorted-perm x (y ∷ l) = elim (Bool-cases (lt y x)) [
    | inl e ↦ rw e (Perm.trans (Perm.cons y (insert_sorted-perm x l)) (Perm.swap x y l))
    | inr e ↦ rw e (Perm.refl (x ∷ y ∷ l))
  ]

  pub sort_by-perm : (l : List A) → Perm (sort_by l) l
  unfolding sort_by
  sort_by-perm [] = Perm.refl []
  sort_by-perm (x ∷ l) =
      Perm.trans (insert_sorted-perm x (sort_by l)) (Perm.cons x (sort_by-perm l))

  insert_sorted-All :
      (P : A → Type 0) (x : A) (l : List A) → P x → All P l → All P (insert_sorted x l)
  unfolding insert_sorted
  insert_sorted-All P x [] h hs = (h, tt)
  insert_sorted-All P x (y ∷ l) h (hy, hs) = elim (Bool-cases (lt y x)) [
    | inl e ↦ rw e (hy, insert_sorted-All P x l h hs)
    | inr e ↦ rw e (h, (hy, hs))
  ]

  -- Sorting keeps what holds of each item, and the length.
  pub sort_by-All : (P : A → Type 0) (l : List A) → All P l → All P (sort_by l)
  unfolding sort_by
  sort_by-All P [] h = tt
  sort_by-All P (x ∷ l) (h, hs) = insert_sorted-All P x (sort_by l) h (sort_by-All P l hs)

  length-insert_sorted : (x : A) (l : List A) → length (insert_sorted x l) ≡ suc (length l)
  unfolding insert_sorted
  length-insert_sorted x [] = refl
  length-insert_sorted x (y ∷ l) = elim (Bool-cases (lt y x)) [
    | inl e ↦ rw e (ap suc (length-insert_sorted x l))
    | inr e ↦ rw e refl
  ]

  pub length-sort_by : (l : List A) → length (sort_by l) ≡ length l
  unfolding sort_by
  length-sort_by [] = refl
  length-sort_by (x ∷ l) = rw (length-insert_sorted x (sort_by l)) (ap suc (length-sort_by l))

  insert_behind :
      (x y : A) (l : List A) → lt y x ≡ true → insert_sorted x (y ∷ l) ≡ y ∷ insert_sorted x l
  unfolding insert_sorted
  insert_behind x y l e = rw e refl

  module _ (asymm : (x y : A) → lt x y ≡ true → lt y x ≡ false) where
    insert_sorted-IsSortedBy : (x : A) (l : List A) → IsSortedBy l → IsSortedBy (insert_sorted x l)
    unfolding insert_sorted
    insert_sorted-IsSortedBy x [] h = tt
    insert_sorted-IsSortedBy x (y ∷ []) h = elim (Bool-cases (lt y x)) [
      | inl e ↦ rw e (asymm y x e, tt)
      | inr e ↦ rw e (e, tt)
    ]
    insert_sorted-IsSortedBy x (y ∷ z ∷ l) (h, hs) = elim (Bool-cases (lt y x)) [
      | inl e ↦ elim (Bool-cases (lt z x)) [
        | inl f ↦
            let rest = insert_sorted-IsSortedBy x (z ∷ l) hs in
            rw (e, f) (h, subst (λ k. IsSortedBy k) (insert_behind x z l f) rest)
        | inr f ↦ rw (e, f) (asymm y x e, (f, hs))
      ]
      | inr e ↦ rw e (e, (h, hs))
    ]

    pub sort_by-IsSortedBy : (l : List A) → IsSortedBy (sort_by l)
    unfolding sort_by
    sort_by-IsSortedBy [] = tt
    sort_by-IsSortedBy (x ∷ l) = insert_sorted-IsSortedBy x (sort_by l) (sort_by-IsSortedBy l)

  sorted-IsOrdered :
      (R : A → A → Type 0)
      → ((x y : A) → lt y x ≡ false → R x y)
      → (l : List A) → IsSortedBy l
      → IsOrdered R l
  sorted-IsOrdered R f [] h = tt
  sorted-IsOrdered R f (x ∷ []) h = tt
  sorted-IsOrdered R f (x ∷ y ∷ l) (h, hs) = (f x y h, sorted-IsOrdered R f (y ∷ l) hs)

  -- Sorting by a test orders by every relation that the test decides.
  pub sort_by-IsOrdered :
      (R : A → A → Type 0)
      → ((x y : A) → lt x y ≡ true → lt y x ≡ false)
      → ((x y : A) → lt y x ≡ false → R x y)
      → (l : List A) → IsOrdered R (sort_by l)
  sort_by-IsOrdered R asymm f l = sorted-IsOrdered R f (sort_by l) (sort_by-IsSortedBy asymm l)
