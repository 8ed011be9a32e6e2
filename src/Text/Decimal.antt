-- ===== src/Text/Decimal.antt =====
-- Numbers as fmt prints them by %d.
use dbx_plugin_ninty_shell.Base.{
  ℕ, zero, suc, ◌+◌, ◌/◌, ◌%◌, [], ◌∷◌, ◌++◌, ltb, if◌then◌else◌, ◌≡◌, refl,
}
use dbx_plugin_ninty_shell.Text.Defs.{Bytes, codes}

-- The fuel is at least the number of digits.
unfoldable pub decimal_digits : ℕ → ℕ → Bytes
decimal_digits zero n = []
decimal_digits (suc fuel) n =
    let rest = decimal_digits fuel (n / 10) in
    if ltb n 10 then (b'0' + n) ∷ [] else rest ++ (b'0' + n % 10) ∷ []

unfoldable pub decimal : ℕ → Bytes
unfolding decimal_digits
decimal n = decimal_digits (suc n) n

decimal_test : decimal 4096 ≡ codes "4096"
unfolding decimal
decimal_test = refl
