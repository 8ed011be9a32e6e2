-- ===== src/Completion/Collect.antt =====
-- The two loops of completion: entries up to a limit, and names without repetitions up to a limit.
use dbx_plugin_ninty_shell.Base.{
  ℕ, suc, ◌+◌, ◌≤◌, ◌<◌, Bool, true, false, not, ◌||◌, Option, none, some, List, [], ◌∷◌, ◌++◌, ◌≡◌,
  refl, arith, leb, length, length-append, All, All-append, Bool-cases, Option-cases, inl, inr,
}
use dbx_plugin_ninty_shell.Text.{Bytes, is_empty, has_prefix}
use dbx_plugin_ninty_shell.Text.Equal.{bytes_eq, bytes_eq_comm}

module _ {A : Type 0} (most : ℕ) (keep : A → Option Bytes) where
  -- The number is how many entries are collected already; the loop stops at the limit.
  unfoldable pub collect : ℕ → List A → List Bytes
  collect n [] = []
  collect n (x ∷ xs) = elim (keep x) [
    | none ↦ collect n xs
    | some c ↦ c ∷ (elim (leb most (suc n)) [ true ↦ [] | false ↦ collect (suc n) xs ])
  ]

  length-collect : (n : ℕ) (xs : List A) → n < most → n + length (collect n xs) ≤ most
  unfolding collect
  length-collect n [] h = omega (arith, h)
  length-collect n (x ∷ xs) h = elim (Option-cases (keep x)) [
    | inl e ↦ rw (length, collect, e) (length-collect n xs h)
    | inr (c, e) ↦ elim (Bool-cases (leb most (suc n))) [
      | inl f ↦ rw (length, collect, e, f) (omega (arith, h))
      | inr f ↦
          let room : suc n < most = ground (arith, f) in
          rw (length, collect, e, f) (omega (arith, length-collect (suc n) xs room))
    ]
  ]

  pub collect_bound : (xs : List A) → 0 < most → length (collect 0 xs) ≤ most
  collect_bound xs h = omega (arith, length-collect 0 xs h)

  pub collect-All :
      (P : Bytes → Type 0)
      → ((x : A) (c : Bytes) → keep x ≡ some c → P c)
      → (n : ℕ) (xs : List A) → All P (collect n xs)
  unfolding collect
  collect-All P each n [] = tt
  collect-All P each n (x ∷ xs) = elim (Option-cases (keep x)) [
    | inl e ↦ rw (All, collect, e) (collect-All P each n xs)
    | inr (c, e) ↦ elim (Bool-cases (leb most (suc n))) [
      | inl f ↦ rw (All, collect, e, f) (each x c e, tt)
      | inr f ↦ rw (All, collect, e, f) (each x c e, collect-All P each (suc n) xs)
    ]
  ]

unfoldable pub in_list : Bytes → List Bytes → Bool
in_list name [] = false
in_list name (n ∷ ns) = bytes_eq n name || in_list name ns

module _ (token : Bytes) where
  -- The test of `add`: what was added is what was seen.
  unfoldable pub skips : Bytes → List Bytes → Bool
  unfolding in_list
  skips name out = is_empty name || not (has_prefix name token) || in_list name out

  unfoldable pub add_names : ℕ → List Bytes → List Bytes → List Bytes
  unfolding skips
  add_names most [] out = out
  add_names most (name ∷ names) out = elim (skips name out) [
    | true ↦ add_names most names out
    | false ↦ elim (leb most (length (out ++ name ∷ []))) [
      | true ↦ out ++ name ∷ []
      | false ↦ add_names most names (out ++ name ∷ [])
    ]
  ]

-- No text stands twice.
abbrev pub AllDistinct : List Bytes → Type 0
AllDistinct [] = Unit
AllDistinct (n ∷ ns) = (in_list n ns ≡ false) × AllDistinct ns

in_list-snoc :
    (n : Bytes) (ns : List Bytes) (last : Bytes)
    → in_list n ns ≡ false
    → bytes_eq last n ≡ false
    → in_list n (ns ++ last ∷ []) ≡ false
unfolding in_list
in_list-snoc n [] last h e = ground (arith, e)
in_list-snoc n (m ∷ ms) last h e = ground (arith, h, e, in_list-snoc n ms last)

distinct_snoc :
    (ns : List Bytes) (last : Bytes)
    → AllDistinct ns
    → in_list last ns ≡ false
    → AllDistinct (ns ++ last ∷ [])
unfolding in_list
distinct_snoc [] last h e = (refl, tt)
distinct_snoc (n ∷ ns) last (h, hs) e =
    let apart : bytes_eq last n ≡ false = ground (arith, e, bytes_eq_comm last n) in
    let rest : in_list last ns ≡ false = ground (arith, e) in
    (in_list-snoc n ns last h apart, distinct_snoc ns last hs rest)

module _ (most : ℕ) (token : Bytes) where
  -- A name that may be offered for what was typed.
  abbrev pub IsOffer : Bytes → Type 0
  IsOffer name = (is_empty name ≡ false) × (has_prefix name token ≡ true)

  -- At most so many names, none twice, each an offer.
  abbrev pub IsMenu : List Bytes → Type 0
  IsMenu out = (length out ≤ most) × AllDistinct out × All IsOffer out

  snoc-IsMenu :
      (out : List Bytes) (name : Bytes)
      → length out < most
      → IsMenu out
      → skips token name out ≡ false
      → IsMenu (out ++ name ∷ [])
  unfolding skips
  snoc-IsMenu out name room (l, d, offers) e =
      let new : in_list name out ≡ false = ground (arith, e) in
      let filled : is_empty name ≡ false = ground (arith, e) in
      let fits : has_prefix name token ≡ true = ground (arith, e) in
      (
        omega (arith, room, length-append out (name ∷ [])),
        distinct_snoc out name d new,
        All-append IsOffer out (name ∷ []) offers ((filled, fits), tt),
      )

  pub add_names-IsMenu :
      (names out : List Bytes)
      → length out < most
      → IsMenu out
      → IsMenu (add_names token most names out)
  unfolding add_names
  add_names-IsMenu [] out room h = h
  add_names-IsMenu (name ∷ names) out room h = elim (Bool-cases (skips token name out)) [
    | inl e ↦ rw (add_names, e) (add_names-IsMenu names out room h)
    | inr e ↦
        let longer = snoc-IsMenu out name room h e in
        elim (Bool-cases (leb most (length (out ++ name ∷ [])))) [
          | inl f ↦ rw (add_names, e, f) longer
          | inr f ↦
              let more : length (out ++ name ∷ []) < most = ground (arith, f) in
              rw (add_names, e, f) (add_names-IsMenu names (out ++ name ∷ []) more longer)
        ]
  ]
