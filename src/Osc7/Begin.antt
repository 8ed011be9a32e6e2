-- ===== src/Osc7/Begin.antt =====
-- Where a report begins and ends in a terminal's output, for the scanner of backend/localpty.go.
use dbx_plugin_ninty_shell.Base.{
  ℕ, zero, suc, ◌+◌, ◌≤◌, ◌<◌, none, some, [], ◌∷◌, ◌++◌, ◌≡◌, refl, ap, sym, ◌∙◌, arith, length,
  drop, append_assoc, Lacks, Option-cases, inl, inr, Bool-cases,
}
use dbx_plugin_ninty_shell.Text.{Bytes, index, has_prefix, index_bound, index-append}
use dbx_plugin_ninty_shell.Osc7.{osc_start, find_end}

pub find_end-append :
    (uri rest : Bytes)
    → Lacks 7 uri
    → Lacks 27 uri
    → find_end (uri ++ 7 ∷ rest) ≡ some (length uri, 1)
unfolding find_end
find_end-append [] rest _ _ = refl
find_end-append (c ∷ uri) rest (b, bs) (e, es) = ground (arith, find_end-append uri rest bs es)

pub find_end-Lacks : (s : Bytes) → Lacks 7 s → Lacks 27 s → find_end s ≡ none
unfolding find_end
find_end-Lacks [] _ _ = refl
find_end-Lacks (c ∷ s) (b, bs) (e, es) = ground (arith, find_end-Lacks s bs es)

pub index_at_start : (s : Bytes) → index (osc_start ++ s) osc_start ≡ some 0
unfolding index has_prefix
index_at_start [] = refl
index_at_start (c ∷ s) = refl

-- The report behind the text is the first one that begins.
abbrev pub BeginsFirst : Bytes → Type 0
BeginsFirst before = index (before ++ osc_start) osc_start ≡ some (length before)

pub first_index :
    (before rest : Bytes)
    → BeginsFirst before
    → index (before ++ (osc_start ++ rest)) osc_start ≡ some (length before)
first_index before rest h =
    ap (λ t. index t osc_start) (sym (append_assoc before osc_start rest))
    ∙ index-append (before ++ osc_start) rest osc_start (length before) h

pub first_drop :
    (k : ℕ) (before : Bytes) → k ≤ length before → BeginsFirst before → BeginsFirst (drop k before)
unfolding index
first_drop zero before room h = h
first_drop (suc k) [] room h = absurd (omega (arith, room))
first_drop (suc k) (c ∷ before) room h =
    let rest = before ++ osc_start in
    let later : BeginsFirst before = elim (Bool-cases (has_prefix (c ∷ rest) osc_start)) [
      | inl e ↦ absurd (ground (arith, e, h))
      | inr e ↦ elim (Option-cases (index rest osc_start)) [
        | inl f ↦ absurd (ground (arith, e, f, h))
        | inr (i, f) ↦ ground (arith, e, f, h)
      ]
    ] in
    first_drop k before (omega (arith, room)) later

-- Less than the report's beginning holds none.
pub none_before :
    (a s before rest : Bytes)
    → a ++ s ≡ before ++ (osc_start ++ rest)
    → BeginsFirst before
    → length a < length before + 4
    → index a osc_start ≡ none
none_before a s before rest e h short = elim (Option-cases (index a osc_start)) [
  | inl n ↦ n
  | inr (i, f) ↦
      let whole = index-append a s osc_start i f in
      let same : some i ≡ some (length before) =
        sym whole ∙ ap (λ t. index t osc_start) e ∙ first_index before rest h in
      absurd (ground (arith, same, index_bound a osc_start i f, short))
]

-- A text that is longer than the front of another one begins with it.
pub behind_front :
    (a s front rest : Bytes)
    → a ++ s ≡ front ++ rest
    → length front ≤ length a
    → (a ≡ front ++ drop (length front) a) × (drop (length front) a ++ s ≡ rest)
behind_front a s [] rest e room = (refl, e)
behind_front [] s (c ∷ front) rest e room = absurd (omega (arith, room))
behind_front (d ∷ a) s (c ∷ front) rest e room =
    let (same, left) = behind_front a s front rest (ground arith) (omega (arith, room)) in
    let first : d ≡ c = ground arith in (rw (first, sym same) refl, left)

pub Lacks-front : (b : ℕ) (s t : Bytes) → Lacks b (s ++ t) → Lacks b s
Lacks-front b [] t h = tt
Lacks-front b (c ∷ s) t (hc, h) = (hc, Lacks-front b s t h)
