-- ===== src/Text/Search.antt =====
-- Where a text is found.
use dbx_plugin_ninty_shell.Base.{
  ℕ, ◌+◌, ◌≤◌, true, none, some, [], ◌∷◌, ◌++◌, ◌≡◌, refl, arith, length, take, drop, Lacks,
  Bool-cases, Option-cases, inl, inr,
}
use dbx_plugin_ninty_shell.Text.Defs.{Bytes, has_prefix, index, last_index, cut_prefix, trim_prefix}

pub has_prefix_self : (p s : Bytes) → has_prefix (p ++ s) p ≡ true
unfolding has_prefix
has_prefix_self [] [] = refl
has_prefix_self [] (c ∷ s) = refl
has_prefix_self (c ∷ p) s = ground (arith, has_prefix_self p s)

-- What follows a text does not take a prefix away.
pub has_prefix-append : (s t p : Bytes) → has_prefix s p ≡ true → has_prefix (s ++ t) p ≡ true
unfolding has_prefix
has_prefix-append [] [] [] h = refl
has_prefix-append [] (d ∷ t) [] h = refl
has_prefix-append (c ∷ s) t [] h = refl
has_prefix-append [] t (d ∷ p) h = ground arith
has_prefix-append (c ∷ s) t (d ∷ p) h = ground (arith, has_prefix-append s t p)

pub has_prefix_parts : (s p : Bytes) → has_prefix s p ≡ true → s ≡ p ++ drop (length p) s
unfolding has_prefix
has_prefix_parts [] [] h = refl
has_prefix_parts (c ∷ s) [] h = refl
has_prefix_parts [] (d ∷ p) h = ground arith
has_prefix_parts (c ∷ s) (d ∷ p) h = ground (arith, has_prefix_parts s p)

pub has_prefix-length : (s p : Bytes) → has_prefix s p ≡ true → length p ≤ length s
unfolding has_prefix
has_prefix-length s [] h = omega arith
has_prefix-length [] (d ∷ p) h = ground arith
has_prefix-length (c ∷ s) (d ∷ p) h = ground (arith, has_prefix-length s p)

-- A text that is long enough decides on its prefix alone.
pub has_prefix-append_long :
    (s t p : Bytes) → length p ≤ length s → has_prefix (s ++ t) p ≡ has_prefix s p
unfolding has_prefix
has_prefix-append_long [] [] [] h = refl
has_prefix-append_long [] (c ∷ t) [] h = refl
has_prefix-append_long (c ∷ s) t [] h = refl
has_prefix-append_long [] t (d ∷ p) h = absurd (omega arith)
has_prefix-append_long (c ∷ s) t (d ∷ p) h = ground (arith, has_prefix-append_long s t p)

index_nil : (t : Bytes) → index t [] ≡ some 0
unfolding index has_prefix
index_nil [] = refl
index_nil (c ∷ t) = refl

-- A found text splits the text that it was found in.
pub index_parts :
    (s p : Bytes) (i : ℕ) → index s p ≡ some i → s ≡ take i s ++ p ++ drop (length p) (drop i s)
unfolding index
index_parts [] p i h = elim (Bool-cases (has_prefix [] p)) [
  | inl e ↦ ground (arith, has_prefix_parts [] p e)
  | inr e ↦ ground arith
]
index_parts (c ∷ s) p i h = elim (Bool-cases (has_prefix (c ∷ s) p)) [
  | inl e ↦ ground (arith, has_prefix_parts (c ∷ s) p e)
  | inr e ↦ elim (Option-cases (index s p)) [
    | inl n ↦ ground arith
    | inr (j, f) ↦ ground (arith, index_parts s p j f)
  ]
]

pub index_bound : (s p : Bytes) (i : ℕ) → index s p ≡ some i → i + length p ≤ length s
unfolding index
index_bound [] [] i h = ground arith
index_bound [] (d ∷ p) i h = ground arith
index_bound (c ∷ s) p i h = elim (Bool-cases (has_prefix (c ∷ s) p)) [
  | inl e ↦ ground (arith, has_prefix-length (c ∷ s) p e)
  | inr e ↦ elim (Option-cases (index s p)) [
    | inl n ↦ ground arith
    | inr (j, f) ↦ ground (arith, index_bound s p j f)
  ]
]

-- A first occurrence stays the first one, whatever follows the text.
pub index-append : (s t p : Bytes) (i : ℕ) → index s p ≡ some i → index (s ++ t) p ≡ some i
unfolding index
index-append [] t [] i h = ground (arith, index_nil t)
index-append [] t (d ∷ p) i h = ground arith
index-append (c ∷ s) t p i h =
    let long = has_prefix-append_long (c ∷ s) t p (omega (arith, index_bound (c ∷ s) p i h)) in
    elim (Option-cases (index s p)) [
      | inl n ↦ ground arith
      | inr (j, f) ↦ ground (arith, index-append s t p j f)
    ]

-- A last occurrence stays the last one behind any other text.
pub last_index-append :
    (a s p : Bytes) (i : ℕ) → last_index s p ≡ some i → last_index (a ++ s) p ≡ some (length a + i)
unfolding last_index
last_index-append [] s p i h = ground arith
last_index-append (c ∷ a) s p i h = ground (arith, last_index-append a s p i h)

pub last_index-Lacks : (b : ℕ) (s : Bytes) → Lacks b s → last_index s (b ∷ []) ≡ none
unfolding last_index has_prefix
last_index-Lacks b [] h = refl
last_index-Lacks b (c ∷ s) (hc, hs) = ground (arith, last_index-Lacks b s hs)

last_index_front : (b : ℕ) (s : Bytes) → Lacks b s → last_index (b ∷ s) (b ∷ []) ≡ some 0
unfolding last_index has_prefix
last_index_front b s h = ground (arith, last_index-Lacks b s h)

-- The last occurrence of a byte that the rest of the text does not hold.
pub last_index_byte :
    (a : Bytes) (b : ℕ) (s : Bytes) → Lacks b s → last_index (a ++ b ∷ s) (b ∷ []) ≡ some (length a)
last_index_byte a b s h =
    ground (arith, last_index-append a (b ∷ s) (b ∷ []) 0 (last_index_front b s h))

cut_prefix_parts :
    (s p : Bytes) → has_prefix s p ≡ true → (r : Bytes) × (cut_prefix s p ≡ some r) × (p ++ r ≡ s)
unfolding has_prefix cut_prefix
cut_prefix_parts [] [] h = ([], refl, refl)
cut_prefix_parts (c ∷ s) [] h = (c ∷ s, refl, refl)
cut_prefix_parts [] (d ∷ p) h = absurd (ground (arith, h))
cut_prefix_parts (c ∷ s) (d ∷ p) h =
    let (r, cut, parts) = cut_prefix_parts s p (ground (arith, h)) in
    (r, ground (arith, h, cut), ground (arith, h, parts))

-- A prefix that is there comes off and goes back on.
pub trim_prefix_back : (s p : Bytes) → has_prefix s p ≡ true → p ++ trim_prefix s p ≡ s
unfolding trim_prefix
trim_prefix_back s p h = let (r, cut, parts) = cut_prefix_parts s p h in rw (trim_prefix, cut) parts

pub has_prefix_refl : (s : Bytes) → has_prefix s s ≡ true
unfolding has_prefix
has_prefix_refl [] = refl
has_prefix_refl (c ∷ s) = ground (arith, has_prefix_refl s)

-- A text in front of both sides.
pub has_prefix-front : (d s p : Bytes) → has_prefix s p ≡ true → has_prefix (d ++ s) (d ++ p) ≡ true
unfolding has_prefix
has_prefix-front [] s p h = h
has_prefix-front (c ∷ d) s p h = ground (arith, has_prefix-front d s p h)
