-- ===== src/Text/Cut.antt =====
-- strings.Cut, Split and SplitN at a byte, and strconv.Atoi.
use mathlib.Core.Option
use dbx_plugin_ninty_shell.Base.{
  ℕ, zero, suc, ◌+◌, ◌-◌, ◌*◌, ◌^◌, ◌||◌, Option, none, some, List, [], ◌∷◌, ◌++◌, ◌≡◌, refl, arith,
  ltb, leb, ◌==◌, if◌then◌else◌, ℤ, pos, neg_ℕ, Lacks,
}
use dbx_plugin_ninty_shell.Text.Defs.{Bytes, codes}

-- strings.Cut at a separator of one byte
unfoldable pub cut_byte : ℕ → Bytes → Option (Bytes × Bytes)
cut_byte b [] = none
cut_byte b (c ∷ s) =
    let rest = Option.map (λ (p : Bytes × Bytes). (c ∷ p.0, p.1)) (cut_byte b s) in
    if c == b then some ([], s) else rest

pub cut_byte_at : (b : ℕ) (s t : Bytes) → Lacks b s → cut_byte b (s ++ b ∷ t) ≡ some (s, t)
unfolding cut_byte
cut_byte_at b [] t h = ground arith
cut_byte_at b (c ∷ s) t (hc, hs) = ground (arith, cut_byte_at b s t hs)

pub cut_byte-Lacks : (b : ℕ) (s : Bytes) → Lacks b s → cut_byte b s ≡ none
unfolding cut_byte
cut_byte-Lacks b [] h = refl
cut_byte-Lacks b (c ∷ s) (hc, hs) = ground (arith, cut_byte-Lacks b s hs)

pub cut_byte_parts :
    (b : ℕ) (s x y : Bytes) → cut_byte b s ≡ some (x, y) → (s ≡ x ++ b ∷ y) × Lacks b x
unfolding cut_byte
cut_byte_parts b [] x y h = cc
cut_byte_parts b (c ∷ s) [] y h = (ground arith, tt)
cut_byte_parts b (c ∷ s) (d ∷ x) y h =
    let inner : cut_byte b s ≡ some (x, y) = ground arith in
    let (e, lacks) = cut_byte_parts b s x y inner in (ground arith, (ground arith, lacks))

-- strings.SplitN at a separator of one byte, with a positive count
unfoldable pub split_n : ℕ → ℕ → Bytes → List Bytes
unfolding cut_byte
split_n zero b s = []
split_n (suc zero) b s = s ∷ []
split_n (suc (suc n)) b s = elim (cut_byte b s) [
  | none ↦ s ∷ []
  | some (x, y) ↦ x ∷ split_n (suc n) b y
]

cons_head : ℕ → List Bytes → List Bytes
cons_head c [] = (c ∷ []) ∷ []
cons_head c (p ∷ ps) = (c ∷ p) ∷ ps

-- strings.Split at a separator of one byte
unfoldable pub split : ℕ → Bytes → List Bytes
unfolding cons_head
split b [] = [] ∷ []
split b (c ∷ s) = let parts = split b s in if c == b then [] ∷ parts else cons_head c parts

-- Decimal digits, with no bound; `none` if the text is empty or holds another byte.
unfoldable pub digits_from : ℕ → Bytes → Option ℕ
digits_from n [] = some n
digits_from n (c ∷ s) =
    if ltb c b'0' || ltb b'9' c then none else digits_from (n * 10 + (c - b'0')) s

unfoldable pub digits : Bytes → Option ℕ
unfolding digits_from
digits [] = none
digits (c ∷ s) = digits_from 0 (c ∷ s)

-- strconv.Atoi for a 64-bit int: an optional sign, digits, and a range error outside int64.
unfoldable pub atoi : Bytes → Option ℤ
unfolding digits
atoi [] = none
atoi (c ∷ s) =
    if c == b'-'
    then (elim (digits s) [
      | none ↦ none
      | some n ↦ if leb n (2 ^ 63) then some (neg_ℕ n) else none
    ])
    else elim (digits (if c == b'+' then s else c ∷ s)) [
      | none ↦ none
      | some n ↦ if ltb n (2 ^ 63) then some (pos n) else none
    ]

atoi_test : atoi (codes "-42") ≡ some (neg_ℕ 42)
unfolding atoi
atoi_test = refl

split_n_test : split_n 3 32 (codes "a b c d") ≡ codes "a" ∷ codes "b" ∷ codes "c d" ∷ []
unfolding split_n
split_n_test = refl
