-- ===== src/Osc7/Path.antt =====
-- The directory of a report.
use dbx_plugin_ninty_shell.Base.{
  true, false, ◌⊎◌, inl, inr, [], ◌∷◌, ◌++◌, ◌≡◌, refl, arith, Bool-cases, ◌==◌, ==_iff, some,
  Lacks,
}
use dbx_plugin_ninty_shell.Text.{Bytes, codes, has_prefix, trim_space, trim_prefix, cut_prefix}
use dbx_plugin_ninty_shell.Osc7.{
  osc7_uri_to_path, path_unescape, with_drive, drop_host, decoded, drop_slash, backslashes,
}

-- The text begins with a drive: a byte, a colon and one more byte.
abbrev pub HasDrive : Bytes → Type 0
HasDrive (c ∷ d ∷ e ∷ s) = d ≡ b':'
HasDrive s = ⊥

with_drive-HasDrive : (s : Bytes) → (with_drive s ≡ []) ⊎ HasDrive (with_drive s)
unfolding with_drive
with_drive-HasDrive [] = inl refl
with_drive-HasDrive (c ∷ []) = inl refl
with_drive-HasDrive (c ∷ d ∷ []) = inl refl
with_drive-HasDrive (c ∷ d ∷ e ∷ s) = elim (Bool-cases (d == b':')) [
  | inl t ↦ rw t (inr ((==_iff d b':').0 t))
  | inr t ↦ rw t (inl refl)
]

-- A report gives no directory or an absolute one: with a leading slash, on Windows with a drive.
pub osc7_absolute :
    (uri : Bytes)
    → ((osc7_uri_to_path uri false ≡ [])
        ⊎ (has_prefix (osc7_uri_to_path uri false) (codes "/") ≡ true))
      × ((osc7_uri_to_path uri true ≡ []) ⊎ HasDrive (osc7_uri_to_path uri true))
unfolding osc7_uri_to_path
osc7_absolute uri = (
  ground arith,
  with_drive-HasDrive (
      drop_slash
        (backslashes (decoded (drop_host (trim_prefix (trim_space uri) (codes "file://")))))),
)

unescape_plain : (s : Bytes) → Lacks b'%' s → path_unescape s ≡ some s
unfolding path_unescape
unescape_plain [] h = refl
unescape_plain (c ∷ []) h = ground arith
unescape_plain (c ∷ d ∷ []) h = ground arith
unescape_plain (c ∷ d ∷ e ∷ s) (hc, h) = ground (arith, unescape_plain (d ∷ e ∷ s) h)

-- A remote directory that begins with a slash and holds no percent sign comes back as it is from the
-- report `file://<directory>` that the prompt prints, if no white space stands around the report.
pub osc7_round_trip :
    (dir : Bytes)
    → has_prefix dir (codes "/") ≡ true
    → Lacks b'%' dir
    → trim_space (codes "file://" ++ dir) ≡ codes "file://" ++ dir
    → osc7_uri_to_path (codes "file://" ++ dir) false ≡ dir
unfolding osc7_uri_to_path trim_prefix cut_prefix
osc7_round_trip dir slash plain trimmed = ground (arith, unescape_plain dir plain)
