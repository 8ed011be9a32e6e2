-- ===== src/Package/Manifest.antt =====
-- The entry of the backend in a package's manifest.
use dbx_plugin_ninty_shell.Base.{
  ℕ, ◌+◌, Option, none, some, [], ◌∷◌, ◌++◌, ◌≡◌, ◌⊎◌, inl, inr, length, take, drop,
}
use dbx_plugin_ninty_shell.Text.{Bytes, codes}
use dbx_plugin_ninty_shell.Package.{executable_match, executable_entry, find_matches}

-- The path of the backend in its entry.
abbrev pub entry_path : Bytes → Bytes → Bytes
entry_path target name = target ++ (codes "/" ++ name)

-- What the last part of the match adds to the bytes in front of it.
add_front : Option ℕ → Option ℕ
add_front none = none
add_front (some k) = some (19 + k)

-- Refused, where there is no entry or several; or the one entry replaced, with an entry in its place that
-- ends where the replacement does.
pub data Rewritten (target name raw : Bytes) (r : Bytes ⊎ Bytes) : Type 0 where
  not_one :
      (e : Bytes) → r ≡ inl e → ¬ (length (find_matches 0 0 raw) ≡ 1) → Rewritten target name raw r
  one :
      (at n : ℕ)
      → find_matches 0 0 raw ≡ (at, n) ∷ []
      → r ≡ inr (take at raw ++ (executable_entry target name ++ drop (at + n) raw))
      → executable_match (executable_entry target name ++ drop (at + n) raw)
        ≡ some (length (executable_entry target name))
      → Rewritten target name raw r
