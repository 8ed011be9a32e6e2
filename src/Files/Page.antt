-- ===== src/Files/Page.antt =====
-- The pages of a listing: `fsLimit`, `fsCursor` and the cutting in `fsList` of backend/fsprovider.go.
-- An int is its 64 bits, negative from 2 ^ 63 on.
use dbx_plugin_ninty_shell.Base.{
  ℕ, zero, suc, ◌+◌, ◌*◌, ◌-◌, ◌/◌, ◌%◌, ◌^◌, ◌<◌, ◌≤◌, Bool, true, false, not, ◌&&◌, Option, none,
  some, List, [], ◌∷◌, ◌++◌, ◌≡◌, refl, arith, ltb, leb, if◌then◌else◌, length, take, drop,
  Bool-cases, append_assoc, append-nil, inl, inr, length-drop, length-take, drop-drop, drop_all,
  take-append-drop, ap,
}
use dbx_plugin_ninty_shell.Text.{Bytes, codes, trim_prefix, cut_prefix}
use dbx_plugin_ninty_shell.Text.Decimal.{decimal, decimal_digits}
use dbx_plugin_ninty_shell.Request.{Json, Number, get, as_string, as_number, is_positive}

abbrev pub sftp_list_limit : ℕ
sftp_list_limit = 500

unfoldable pub is_negative : ℕ → Bool
is_negative n = leb (2 ^ 63) n

-- int(v) of a positive float64; one that no int holds gives what the platform gives.
unfoldable pub int_of : ℕ → Number → ℕ
int_of platform v = if ltb v.whole (2 ^ 63) then v.whole else platform

limit_of : ℕ → Number → ℕ
unfolding int_of is_negative
limit_of platform v =
    let n = int_of platform v in
    if not (is_positive v)
    then 100
    else if not (is_negative n) && ltb sftp_list_limit n
    then sftp_list_limit
    else n

unfoldable pub fs_limit : ℕ → Json → ℕ
unfolding limit_of
fs_limit platform values = elim (as_number (get (codes "limit") values)) [
  | none ↦ 100
  | some v ↦ limit_of platform v
]

cursor_loop : ℕ → Bytes → ℕ
cursor_loop skip [] = skip
cursor_loop skip (c ∷ s) =
    let rest = cursor_loop ((skip * 10 + (c - b'0')) % 2 ^ 64) s in
    if leb b'0' c && leb c b'9' then rest else 0

-- the cursor's text to the number of entries to skip
unfoldable pub cursor_skip : Bytes → ℕ
unfolding cursor_loop
cursor_skip cursor = cursor_loop 0 (trim_prefix cursor (codes "skip:"))

unfoldable pub fs_cursor : Json → ℕ
unfolding cursor_skip
fs_cursor values = cursor_skip (as_string (get (codes "cursor") values))

unfoldable pub next_cursor : ℕ → Bytes
next_cursor n = codes "skip:" ++ decimal n

module _ {A : Type 0} where
  -- The entries of a page, and whether more follow; `none` is a slice out of range.
  unfoldable pub cut_page : ℕ → ℕ → List A → Option (List A × Bool)
  unfolding is_negative
  cut_page limit skip es =
      let rest = drop skip es in
      if is_negative skip
      then none
      else if leb (length es) skip
      then some ([], false)
      else if not (is_negative limit) && leb (length rest) limit
      then some (rest, false)
      else if is_negative limit
      then none
      else some (take limit rest, true)

  after_page : Option (List A × Bool) → (ℕ → Option (List A)) → Option (List A)
  after_page none next = none
  after_page (some (out, false)) next = some out
  after_page (some (out, true)) next = elim (next (length out)) [
    | none ↦ none
    | some es ↦ some (out ++ es)
  ]

  -- A client that asks for page after page, following the cursors.
  unfoldable pub follow : ℕ → ℕ → List A → Bytes → Option (List A)
  unfolding after_page cut_page cursor_skip next_cursor
  follow zero limit es cursor = none
  follow (suc fuel) limit es cursor =
      let skip = cursor_skip cursor in
      after_page (cut_page limit skip es) (λ n. follow fuel limit es (next_cursor (skip + n)))

read_digits :
    (fuel n : ℕ) (t : Bytes)
    → n < fuel
    → n < 2 ^ 64
    → cursor_loop 0 (decimal_digits fuel n ++ t) ≡ cursor_loop n t
unfolding cursor_loop decimal_digits
read_digits zero n t h small = absurd (omega arith)
read_digits (suc fuel) n t h small = elim (Bool-cases (ltb n 10)) [
  | inl e ↦ rw e (ground arith)
  | inr e ↦
      let big : 10 ≤ n = ground arith in
      let rest = read_digits fuel (n / 10) ((b'0' + n % 10) ∷ t) (omega arith) (omega arith) in
      rw (e, append_assoc, rest) (ground arith)
]

-- The cursor that a page names is read back as the number of entries that it stands behind.
pub cursor_round_trip : (n : ℕ) → n < 2 ^ 64 → cursor_skip (next_cursor n) ≡ n
unfolding cursor_skip next_cursor decimal trim_prefix cut_prefix
cursor_round_trip n h =
    let read = read_digits (suc n) n [] (omega arith) h in rw (← append-nil (decimal n)) read

module _ {A : Type 0} (limit skip : ℕ) (es : List A) where
  cut_page_end : skip < 2 ^ 63 → length es ≤ skip → cut_page limit skip es ≡ some ([], false)
  unfolding cut_page is_negative
  cut_page_end small h = ground arith

  cut_page_last :
      skip < 2 ^ 63
      → skip < length es
      → limit < 2 ^ 63
      → length (drop skip es) ≤ limit
      → cut_page limit skip es ≡ some (drop skip es, false)
  unfolding cut_page is_negative
  cut_page_last small h small' h' = ground arith

  cut_page_more :
      skip < 2 ^ 63
      → limit < 2 ^ 63
      → limit < length (drop skip es)
      → skip < length es
      → cut_page limit skip es ≡ some (take limit (drop skip es), true)
  unfolding cut_page is_negative
  cut_page_more small small' h h' = ground arith

follow_rest :
    {A : Type 0} (fuel limit : ℕ) (es : List A) (skip : ℕ)
    → 1 ≤ limit
    → limit < 2 ^ 63
    → length es < 2 ^ 63
    → skip ≤ length es
    → length es - skip < fuel
    → follow fuel limit es (next_cursor skip) ≡ some (drop skip es)
unfolding follow after_page
follow_rest zero limit es skip pos small few inside h = absurd (omega arith)
follow_rest (suc fuel) limit es skip pos small few inside h =
    rw (cursor_round_trip skip (omega arith)) (elim (Bool-cases (leb (length es) skip)) [
      | inl e ↦
          rw (cut_page_end limit skip es (omega arith) (ground arith))
            (rw (drop_all skip es (ground arith)) refl)
      | inr e ↦ elim (Bool-cases (leb (length (drop skip es)) limit)) [
        | inl f ↦
            rw (cut_page_last limit skip es (omega arith) (ground arith) small (ground arith)) refl
        | inr f ↦
            rw (cut_page_more limit skip es (omega arith) small (ground arith) (ground arith)) (
              let more : limit < length (drop skip es) = ground arith in
              let left : length (drop skip es) ≡ length es - skip = length-drop skip es in
              let moved : skip + length (take limit (drop skip es)) ≡ skip + limit =
                omega (arith, length-take limit (drop skip es)) in
              let later =
                follow_rest fuel limit es (skip + limit) pos small few (omega arith)
                  (omega arith) in
              rw (moved, later, ← drop-drop limit skip (skip + limit) es refl)
                (ap some (take-append-drop limit (drop skip es))))
      ]
    ])

-- A client that starts without a cursor and follows the cursors of the pages gets every entry once, in
-- order, after at most one page for each entry and one more, if the limit is at least 1 and it and the
-- number of entries are below 2^63.
pub pages_cover :
    {A : Type 0} (limit : ℕ) (es : List A)
    → 1 ≤ limit
    → limit < 2 ^ 63
    → length es < 2 ^ 63
    → follow (suc (length es)) limit es [] ≡ some es
unfolding follow cursor_skip next_cursor decimal trim_prefix cut_prefix
pages_cover limit es pos small few =
    follow_rest (suc (length es)) limit es 0 pos small few (omega arith) (omega arith)
