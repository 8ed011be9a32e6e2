-- ===== src/Meta/Lines.antt =====
-- What the two local records say.
use dbx_plugin_ninty_shell.Base.{
  some, [], ◌∷◌, ◌++◌, ◌≡◌, ◌↔◌, refl, arith, Lacks, ℤ, true, Option-cases, inl, inr,
}
use dbx_plugin_ninty_shell.Text.{
  Bytes, is_line_end, trim_right, trim_space, split_n, cut_byte, cut_byte_at, cut_byte_parts, atoi,
}
use dbx_plugin_ninty_shell.Text.Equal.{bytes_eq, bytes_eq_iff}
use dbx_plugin_ninty_shell.Meta.{
  meta_tag, parse_meta_line, line_parts, with_code, parse_meta_file_value,
}

-- What the shell prints on the pipe, without the line end.
abbrev pub meta_line : Bytes → Bytes → Bytes
meta_line code cwd = meta_tag ++ b' ' ∷ (code ++ b' ' ∷ cwd)

with_code_inv :
    (code cwd dir : Bytes) (n : ℤ)
    → with_code (atoi code) cwd ≡ some (n, dir)
    → (atoi code ≡ some n) × (cwd ≡ dir)
unfolding with_code
with_code_inv code cwd dir n h = ground arith

split_meta :
    (code cwd : Bytes)
    → Lacks b' ' code
    → split_n 3 b' ' (meta_line code cwd) ≡ meta_tag ∷ code ∷ cwd ∷ []
unfolding split_n
split_meta code cwd h = ground (
  arith,
  cut_byte_at b' ' meta_tag (code ++ b' ' ∷ cwd) (omega arith),
  cut_byte_at b' ' code cwd h,
)

-- the converse, on any line
line_parts_inv :
    (line : Bytes) (n : ℤ) (cwd : Bytes)
    → line_parts (split_n 3 b' ' line) ≡ some (n, cwd)
    → (code : Bytes) × (line ≡ meta_line code cwd) × Lacks b' ' code × (atoi code ≡ some n)
unfolding split_n line_parts
line_parts_inv line n cwd h = elim (Option-cases (cut_byte b' ' line)) [
  | inl e ↦ absurd (ground arith)
  | inr ((tag, rest), e) ↦ elim (Option-cases (cut_byte b' ' rest)) [
    | inl f ↦ absurd (ground arith)
    | inr ((code, dir), f) ↦
        let facts : (bytes_eq tag meta_tag ≡ true) × (atoi code ≡ some n) × (dir ≡ cwd) =
          ground arith in
        let (le, _) = cut_byte_parts b' ' line tag rest e in
        let (re, lacks) = cut_byte_parts b' ' rest code dir f in
        let te = (bytes_eq_iff tag meta_tag).0 facts.0 in (code, cc, lacks, facts.1)
  ]
]

-- A line of the pipe gives a record exactly when, with its line ends cut off, it is the tag, a blank,
-- an integer with no blank in it, a blank and the directory; the directory may hold blanks.
pub parse_meta_line_iff :
    (raw : Bytes) (n : ℤ) (cwd : Bytes)
    → (parse_meta_line raw ≡ some (n, cwd)) ↔ (
        (code : Bytes) × (trim_right is_line_end raw ≡ meta_line code cwd)
        × Lacks b' ' code
        × (atoi code ≡ some n))
unfolding parse_meta_line bytes_eq
parse_meta_line_iff raw n cwd = (
  line_parts_inv (trim_right is_line_end raw) n cwd,
  λ (code, e, lacks, reads). rw (e, split_meta code cwd lacks, reads) refl,
)

-- The record of the Windows wrapper is read exactly when it is a code, a bar and a directory: the
-- code is what stands in front of the first bar, the directory may hold bars, and both lose the white
-- space around them.
pub parse_meta_file_value_iff :
    (raw : Bytes) (n : ℤ) (cwd : Bytes)
    → (parse_meta_file_value raw ≡ some (n, cwd)) ↔ (
        (code rest : Bytes) × (raw ≡ code ++ b'|' ∷ rest)
        × Lacks b'|' code
        × (atoi (trim_space code) ≡ some n)
        × (trim_space rest ≡ cwd))
unfolding parse_meta_file_value
parse_meta_file_value_iff raw n cwd =
    (sound, λ (code, rest, e, lacks, reads, dir). ground (arith, cut_byte_at b'|' code rest lacks))
  where
    sound :
        parse_meta_file_value raw ≡ some (n, cwd)
        → ((code rest : Bytes) × (raw ≡ code ++ b'|' ∷ rest)
            × Lacks b'|' code
            × (atoi (trim_space code) ≡ some n)
            × (trim_space rest ≡ cwd))
    sound h = elim (Option-cases (cut_byte b'|' raw)) [
      | inl e ↦ absurd (ground arith)
      | inr ((code, rest), e) ↦
          let facts : (atoi (trim_space code) ≡ some n) × (trim_space rest ≡ cwd) = ground arith in
          let (re, lacks) = cut_byte_parts b'|' raw code rest e in
          (code, rest, re, lacks, facts.0, facts.1)
    ]
