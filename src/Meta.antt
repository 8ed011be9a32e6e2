-- ===== src/Meta.antt =====
-- The records by which a command reports its exit code and working directory: `parseMetaLine`,
-- `parseMetaFileValue` and `parseRingMeta` of backend/main.go, and the script that prints them,
-- `buildRemoteScript` and `shellQuote` of backend/ssh.go.
pub mod Ring
pub mod Lines
pub mod Quote
mod Scenarios
use mathlib.Core.Option
use dbx_plugin_ninty_shell.Base.{
  ℕ, suc, ◌+◌, Bool, true, false, ◌&&◌, Option, none, some, List, [], ◌∷◌, ◌++◌, ◌==◌,
  if◌then◌else◌, length, drop, ℤ,
}
use dbx_plugin_ninty_shell.Text.{
  Bytes, codes, newline, is_empty, is_line_end, trim_right, trim_space, split_n, cut_byte, atoi,
  last_index,
}
use dbx_plugin_ninty_shell.Text.Equal.{bytes_eq}

abbrev pub meta_tag : Bytes
meta_tag = codes "__DBX_META__"

-- The triple `(exitCode, cwd, ok)`; `none` is `(0, "", false)`.
abbrev pub MetaRecord : Type 0
MetaRecord = ℤ × Bytes

with_code : Option ℤ → Bytes → Option MetaRecord
with_code none cwd = none
with_code (some code) cwd = some (code, cwd)

line_parts : List Bytes → Option MetaRecord
unfolding with_code
line_parts (tag ∷ code ∷ cwd ∷ rest) =
    if bytes_eq tag meta_tag then with_code (atoi code) cwd else none
line_parts _ = none

unfoldable pub parse_meta_line : Bytes → Option MetaRecord
unfolding line_parts
parse_meta_line raw = line_parts (split_n 3 b' ' (trim_right is_line_end raw))

unfoldable pub parse_meta_file_value : Bytes → Option MetaRecord
unfolding with_code
parse_meta_file_value raw = elim (cut_byte b'|' raw) [
  | none ↦ none
  | some (code_part, cwd_part) ↦ with_code (atoi (trim_space code_part)) (trim_space cwd_part)
]

-- The marker in front of the record of the session `sid`.
unfoldable pub ring_tag : Bytes → Bytes
ring_tag sid = meta_tag ++ (sid ++ codes "__ ")

-- `strings.LastIndex(trimmed, "\n") + 1`, which is 0 where there is no line feed
line_start : Bytes → ℕ
line_start s = elim (last_index s (newline ∷ [])) [ none ↦ 0 | some i ↦ suc i ]

ring_parts : List Bytes → Option MetaRecord
unfolding with_code
ring_parts (code ∷ cwd ∷ []) = with_code (atoi code) cwd
ring_parts _ = none

parse_tagged : Bytes → Bytes → Option MetaRecord
unfolding ring_parts line_start
parse_tagged tag trimmed = elim (last_index trimmed tag) [
  | none ↦ none
  | some idx ↦
      if line_start trimmed == idx
      then ring_parts (split_n 2 b' ' (drop (idx + length tag) trimmed))
      else none
]

unfoldable pub parse_ring_meta : Bytes → Bytes → Option MetaRecord
unfolding parse_tagged ring_tag
parse_ring_meta tail sid = parse_tagged (ring_tag sid) (trim_right is_line_end tail)

-- strings.ReplaceAll(value, "'", `'\''`)
escape_quotes : Bytes → Bytes
escape_quotes [] = []
escape_quotes (c ∷ s) = (if c == b'\'' then codes "'\\''" else c ∷ []) ++ escape_quotes s

unfoldable pub shell_quote : Bytes → Bytes
unfolding escape_quotes
shell_quote value = b'\'' ∷ (escape_quotes value ++ b'\'' ∷ [])

unfoldable pub build_remote_script : Bytes → Bytes → Bytes → Bytes
build_remote_script sid cwd command =
    let rc_var = codes "__dbx_rc_" ++ sid in
    (if is_empty cwd then [] else codes "cd " ++ (shell_quote cwd ++ codes " 2>/dev/null\n"))
    ++ (command
        ++ (codes "\n"
            ++ ((rc_var ++ codes "=$?\n")
                ++ (codes "printf '\\n"
                    ++ (meta_tag
                        ++ (sid
                            ++ (codes "__ %s %s\\n' \"$"
                                ++ (rc_var ++ codes "\" \"$(pwd)\"\n"))))))))
