-- ===== src/Text/Trim.antt =====
-- What trimming leaves.
use dbx_plugin_ninty_shell.Base.{ℕ, Bool, true, false, [], ◌∷◌, ◌++◌, ◌≡◌, ◌≢◌, refl, arith, All}
use dbx_plugin_ninty_shell.Text.Defs.{Bytes, trim_right}

module _ (p : ℕ → Bool) where
  -- Bytes of the cutset at the end leave no trace.
  pub trim_right-append_cut :
      (s t : Bytes) → All (λ c. p c ≡ true) t → trim_right p (s ++ t) ≡ trim_right p s
  unfolding trim_right
  trim_right-append_cut [] [] h = refl
  trim_right-append_cut [] (c ∷ t) (hc, ht) = ground (arith, trim_right-append_cut [] t ht)
  trim_right-append_cut (c ∷ s) t h = ground (arith, trim_right-append_cut s t h)

  -- A text that holds no byte of the cutset stays.
  pub trim_right_clean : (s : Bytes) → All (λ c. p c ≡ false) s → trim_right p s ≡ s
  unfolding trim_right
  trim_right_clean [] h = refl
  trim_right_clean (c ∷ []) h = ground arith
  trim_right_clean (c ∷ d ∷ s) (hc, hs) = ground (arith, trim_right_clean (d ∷ s) hs)

  -- Nothing in front of what is kept is lost.
  pub trim_right-append_kept :
      (a s : Bytes) → s ≢ [] → trim_right p s ≡ s → trim_right p (a ++ s) ≡ a ++ s
  unfolding trim_right
  trim_right-append_kept [] s n h = h
  trim_right-append_kept (c ∷ []) s n h = ground arith
  trim_right-append_kept (c ∷ d ∷ a) s n h = ground (arith, trim_right-append_kept (d ∷ a) s n h)
