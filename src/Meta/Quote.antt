-- ===== src/Meta/Quote.antt =====
-- Quoting for the remote shell.
use dbx_plugin_ninty_shell.Base.{
  ℕ, ◌||◌, Option, none, some, [], ◌∷◌, ◌++◌, ◌≡◌, ◌≢◌, refl, arith, append_assoc, ◌==◌,
  if◌then◌else◌, Bool-cases, inl, inr,
}
use dbx_plugin_ninty_shell.Text.{Bytes, codes, newline}
use dbx_plugin_ninty_shell.Meta.{escape_quotes, shell_quote, build_remote_script}

push : ℕ → Option (Bytes × Bytes) → Option (Bytes × Bytes)
push c none = none
push c (some (w, rest)) = some (c ∷ w, rest)

-- Where a shell stands in a word: outside quotes, between single quotes, behind a backslash.
pub data Mode : Type 0 where
  bare quoted escaped : Mode

-- An independent description of POSIX quoting: how a shell reads one word. Between quotes each byte
-- stands for itself; outside, a quote opens, a backslash keeps the next byte, and a blank, a line
-- feed, `;` or the end of the text ends the word. Other bytes outside quotes are not read (`none`),
-- and neither is a text that ends inside quotes or behind a backslash.
unfoldable pub read_word : Mode → Bytes → Option (Bytes × Bytes)
unfolding push
read_word bare [] = some ([], [])
read_word quoted [] = none
read_word escaped [] = none
read_word quoted (c ∷ s) =
    let closed = read_word bare s in
    let kept = push c (read_word quoted s) in if c == b'\'' then closed else kept
read_word escaped (c ∷ s) = push c (read_word bare s)
read_word bare (c ∷ s) =
    let opened = read_word quoted s in
    let kept = read_word escaped s in
    if c == b'\''
    then opened
    else if c == b'\\'
    then kept
    else if c == b' ' || c == newline || c == b';'
    then some ([], c ∷ s)
    else none

-- The text ends the word in front of it.
abbrev pub EndsWord : Bytes → Type 0
EndsWord rest = read_word bare rest ≡ some ([], rest)

read_word-escape :
    (value rest : Bytes)
    → EndsWord rest
    → read_word quoted (escape_quotes value ++ b'\'' ∷ rest) ≡ some (value, rest)
unfolding read_word escape_quotes
read_word-escape [] rest h = h
read_word-escape (c ∷ value) rest h = elim (Bool-cases (c == b'\'')) [
  | inl e ↦ rw e (rw (read_word-escape value rest h) (ground arith))
  | inr e ↦ rw e (rw e (rw (read_word-escape value rest h)))
]

-- A quoted value is read back as one word, whatever bytes it holds, and nothing of it is left over.
pub read_word-shell_quote :
    (value rest : Bytes)
    → EndsWord rest
    → read_word bare (shell_quote value ++ rest) ≡ some (value, rest)
unfolding shell_quote read_word
read_word-shell_quote value rest h = rw append_assoc (read_word-escape value rest h)

-- A session's directory that is not empty reaches the remote `cd` as one word, whatever bytes it holds;
-- behind that word stand the fixed text that ends the line, the command, and the line that prints the
-- marker.
pub build_remote_script_cd :
    (sid cwd command : Bytes)
    → cwd ≢ []
    → let tail =
        codes " 2>/dev/null\n"
        ++ (command
            ++ (codes "\n__dbx_rc_"
                ++ (sid
                    ++ (codes "=$?\nprintf '\\n__DBX_META__"
                        ++ (sid
                            ++ (codes "__ %s %s\\n' \"$__dbx_rc_"
                                ++ (sid ++ codes "\" \"$(pwd)\"\n"))))))) in
      (word : Bytes) × (build_remote_script sid cwd command ≡ codes "cd " ++ word)
      × (read_word bare word ≡ some (cwd, tail))
unfolding build_remote_script
build_remote_script_cd sid [] command h = absurd (h refl)
build_remote_script_cd sid (c ∷ cwd) command h = (
  shell_quote (c ∷ cwd) ++ _,
  simp append_assoc,
  read_word-shell_quote (c ∷ cwd) _ (unfold read_word in refl),
)
