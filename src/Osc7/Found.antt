-- ===== src/Osc7/Found.antt =====
-- A report in a terminal's output, whatever stands around it and however it is cut.
use mathlib.Core.Path.{subst}
use dbx_plugin_ninty_shell.Base.{
  ℕ, suc, ◌+◌, ◌-◌, ◌≤◌, ◌<◌, none, some, false, [], ◌∷◌, ◌++◌, ◌≡◌, refl, ap, sym, ◌∙◌, arith, ltb,
  length, take, drop, length-append, drop-append_ge, drop-length-append, drop_none, leb,
  append_assoc, Lacks, inl, inr, take-length-append, Bool-cases,
}
use dbx_plugin_ninty_shell.Text.{Bytes, index, has_prefix}
use dbx_plugin_ninty_shell.Osc7.{osc_start, find_end, keep_last, feed_loop, feed}
use dbx_plugin_ninty_shell.Osc7.Begin.{
  find_end-append, find_end-Lacks, first_index, first_drop, none_before, behind_front, Lacks-front,
  BeginsFirst,
}

module _ (uri after : Bytes) (bel : Lacks 7 uri) (esc : Lacks 27 uri) where
  -- The output that is to come in one piece.
  abbrev pub whole : Bytes
  whole = osc_start ++ (uri ++ 7 ∷ after)

  -- What is left of the payload, where its end is not read yet.
  payload_part :
      (a s : Bytes)
      → a ++ s ≡ uri ++ 7 ∷ after
      → length after < length s
      → (length a ≤ length uri) × Lacks 7 a × Lacks 27 a
  payload_part a s e more =
      let size : length a + length s ≡ length uri + suc (length after) =
        omega (arith, length-append a s, length-append uri (7 ∷ after), ap length e) in
      let room : length a ≤ length uri = omega (arith, size, more) in
      let (same, left) = behind_front uri (7 ∷ after) a s (sym e) room in
      (
        room,
        Lacks-front 7 a (drop (length a) uri) (subst (Lacks 7) same bel),
        Lacks-front 27 a (drop (length a) uri) (subst (Lacks 27) same esc),
      )

  drop_past : (n : ℕ) (p r : Bytes) → drop (length p + n) (p ++ r) ≡ drop n r
  drop_past n [] r = ap (λ k. drop k r) {x = 0 + n} (omega arith)
  drop_past n (c ∷ p) r =
      ap (λ k. drop k (c ∷ (p ++ r))) {x = suc (length p) + n} {y = suc (length p + n)}
        (omega arith)
      ∙ drop_past n p r

  keep_last-drop : (a : Bytes) → keep_last 64 a ≡ drop (length a - 64) a
  unfolding keep_last
  keep_last-drop a = elim (Bool-cases (ltb 64 (length a))) [
    | inl e ↦ rw e refl
    | inr e ↦ rw e (sym (drop_none (length a - 64) a (ground (arith, e))))
  ]

  no_report :
      (n : ℕ) (t last : Bytes)
      → index t osc_start ≡ none
      → feed_loop (suc n) t last ≡ some (keep_last 64 t, last)
  unfolding feed_loop
  no_report n t last e = rw (feed_loop, e) refl

  -- A round that finds a report, and one that finds the beginning of one.
  closed_round :
      (n : ℕ) (t last rest : Bytes) (start end len : ℕ)
      → index t osc_start ≡ some start
      → drop (start + 4) t ≡ rest
      → find_end rest ≡ some (end, len)
      → feed_loop (suc n) t last ≡ feed_loop n (drop (end + len) rest) (take end rest)
  unfolding feed_loop
  closed_round n t last rest start end len first behind ends = ground (arith, first, behind, ends)

  open_round :
      (n : ℕ) (t last rest : Bytes) (start : ℕ)
      → index t osc_start ≡ some start
      → drop (start + 4) t ≡ rest
      → find_end rest ≡ none
      → ltb 8192 (length rest) ≡ false
      → feed_loop (suc n) t last ≡ some (drop start t, last)
  unfolding feed_loop
  open_round n t last rest start first behind ends short =
      ground (arith, first, behind, ends, short)

  -- The report is found, and only the end of what follows it is kept.
  whole_found :
      (n : ℕ) (before : Bytes)
      → BeginsFirst before
      → index after osc_start ≡ none
      → feed_loop (suc (suc n)) (before ++ whole) [] ≡ some (keep_last 64 after, uri)
  whole_found n before h last =
      closed_round (suc n) (before ++ whole) [] (uri ++ 7 ∷ after) (length before) (length uri) 1
        (first_index before (uri ++ 7 ∷ after) h) (drop_past 4 before whole)
        (find_end-append uri after bel esc)
      ∙ ap (λ t. feed_loop (suc n) t (take (length uri) (uri ++ 7 ∷ after)))
          (drop_past 1 uri (7 ∷ after))
      ∙ ap (λ t. feed_loop (suc n) after t) (take-length-append uri (7 ∷ after))
      ∙ no_report n after uri last

  -- What is kept of the output before the report's end, and the text in front of the report in it.
  abbrev pub IsKept : Bytes → Bytes → Bytes → Type 0
  IsKept p s before = (p ++ s ≡ before ++ whole) × BeginsFirst before

  early-IsKept :
      (a s before : Bytes)
      → a ++ s ≡ before ++ whole
      → BeginsFirst before
      → length a < length before + 4
      → IsKept (keep_last 64 a) s (drop (length a - 64) before)
  early-IsKept a s before e h short =
      let k = length a - 64 in
      let room : k ≤ length before = omega (arith, short) in
      (
        ap (λ t. t ++ s) (keep_last-drop a)
            ∙ sym (drop-append_ge k a s (omega arith))
            ∙ ap (λ t. drop k t) e
            ∙ drop-append_ge k before whole room,
        first_drop k before room h,
      )

  begun_round :
      (n : ℕ) (rest s before : Bytes)
      → rest ++ s ≡ uri ++ 7 ∷ after
      → BeginsFirst before
      → length after < length s
      → length uri ≤ 8192
      → feed_loop (suc n) ((before ++ osc_start) ++ rest) [] ≡ some (osc_start ++ rest, [])
  begun_round n rest s before e h more fits =
      let (room, no_bel, no_esc) = payload_part rest s e more in
      let short : ltb 8192 (length rest) ≡ false = ground (arith, room, fits) in
      ap (λ t. feed_loop (suc n) t []) (append_assoc before osc_start rest)
      ∙ open_round n (before ++ (osc_start ++ rest)) [] rest (length before)
          (first_index before rest h) (drop_past 4 before (osc_start ++ rest))
          (find_end-Lacks rest no_bel no_esc) short
      ∙ ap (λ t. some (t, [])) (drop-length-append before (osc_start ++ rest))

  -- Output that does not reach the report's end reports nothing, and what is needed of it is kept.
  feed_partial :
      (n : ℕ) (a s before : Bytes)
      → a ++ s ≡ before ++ whole
      → BeginsFirst before
      → length after < length s
      → length uri ≤ 8192
      → (p before' : Bytes) × (feed_loop (suc n) a [] ≡ some (p, [])) × IsKept p s before'
  feed_partial n a s before e h more fits = elim (Bool-cases (leb (length before + 4) (length a))) [
    | inl long ↦
        let joined : a ++ s ≡ (before ++ osc_start) ++ (uri ++ 7 ∷ after) =
          e ∙ sym (append_assoc before osc_start (uri ++ 7 ∷ after)) in
        let (same, left) =
          behind_front a s (before ++ osc_start) (uri ++ 7 ∷ after) joined
            (ground (arith, long, length-append before osc_start)) in
        let rest = drop (length (before ++ osc_start)) a in
        (
          osc_start ++ rest,
          [],
          ap (λ t. feed_loop (suc n) t []) same ∙ begun_round n rest s before left h more fits,
          (ap (λ t. osc_start ++ t) left, unfold index has_prefix in refl),
        )
    | inr short ↦
        let near : length a < length before + 4 = ground (arith, short) in
        (
          keep_last 64 a,
          drop (length a - 64) before,
          no_report n a [] (none_before a s before (uri ++ 7 ∷ after) e h near),
          early-IsKept a s before e h near,
        )
  ]

  pub feed_early :
      (pending chunk s before : Bytes)
      → (pending ++ chunk) ++ s ≡ before ++ whole
      → BeginsFirst before
      → length after < length s
      → length uri ≤ 8192
      → (p before' : Bytes) × (feed pending chunk ≡ some (p, [])) × IsKept p s before'
  unfolding feed
  feed_early pending chunk s before e h more fits =
      feed_partial (length (pending ++ chunk)) (pending ++ chunk) s before e h more fits

  -- The output that ends the report gives it, if no other one begins behind it.
  pub feed_last :
      (pending chunk before : Bytes)
      → pending ++ chunk ≡ before ++ whole
      → BeginsFirst before
      → index after osc_start ≡ none
      → feed pending chunk ≡ some (keep_last 64 after, uri)
  unfolding feed
  feed_last pending chunk before e h none_after =
      let more = length before + suc (suc (suc (length (uri ++ 7 ∷ after)))) in
      let size : length (before ++ whole) ≡ suc more = omega (arith, length-append before whole) in
      ap (λ t. feed_loop (suc (length t)) t []) e
      ∙ ap (λ n. feed_loop (suc n) (before ++ whole) []) size
      ∙ whole_found more before h none_after
