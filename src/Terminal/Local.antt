-- ===== src/Terminal/Local.antt =====
-- The terminal of a local session: `localPTYArgv`, `powershellOsc7Init` and `localPTYEnv` of
-- backend/localpty.go, `startLocalPTY`, `writeBashOsc7Rc`, `writeZshOsc7Shim` and `Close` of
-- backend/localpty_unix.go. The answers of the operating system and of creack/pty are a parameter.
pub mod Cleanup
pub mod Environment
use dbx_plugin_ninty_shell.Base.{
  ℕ, Bool, true, false, not, ◌||◌, Option, none, some, List, [], ◌∷◌, ◌++◌, ◌⊎◌, inl, inr,
  if◌then◌else◌,
}
use dbx_plugin_ninty_shell.Text.{Bytes, codes, has_prefix}
use dbx_plugin_ninty_shell.Text.Equal.{bytes_eq}
use dbx_plugin_ninty_shell.Text.Words.{to_lower}
use dbx_plugin_ninty_shell.Session.{Session}
use dbx_plugin_ninty_shell.Local.{
  Machine, Platform, windows, darwin, linux, ShellStyle, posix_shell, powershell_shell, cmd_shell,
  shell_style_for,
}
use dbx_plugin_ninty_shell.Command.Local.{encode_power_shell_script}

abbrev powershell_osc7_init : Bytes
powershell_osc7_init =
    codes
      "[Console]::OutputEncoding = [System.Text.Encoding]::UTF8\n$OutputEncoding = [System.Text.Encoding]::UTF8\n$global:__dbxPrompt = $function:prompt\nfunction global:prompt {\n  [Console]::Write([char]27 + \"]7;file://\" + [uri]::EscapeDataString($PWD.Path) + [char]7)\n  if ($global:__dbxPrompt) { & $global:__dbxPrompt } else { \"PS $($PWD.Path)> \" }\n}"

-- utf16.Encode and base64 are parameters.
module _ (utf16 : Bytes → List ℕ) (base64 : Bytes → Bytes) where
  styled_argv : Bytes → ShellStyle → List Bytes
  styled_argv shell powershell_shell =
      shell
      ∷ codes "-NoLogo"
      ∷ codes "-NoExit"
      ∷ codes "-EncodedCommand"
      ∷ encode_power_shell_script utf16 base64 powershell_osc7_init
      ∷ []
  styled_argv shell cmd_shell = shell ∷ codes "/K" ∷ codes "chcp 65001 >nul" ∷ []
  styled_argv shell posix_shell = shell ∷ codes "-l" ∷ []

  unfoldable pub local_pty_argv : Machine → Bytes → List Bytes
  unfolding styled_argv
  local_pty_argv m shell = styled_argv shell (shell_style_for m m.platform shell)

abbrev pub is_terminal_type : Bytes → Bool
is_terminal_type entry = has_prefix entry (codes "TERM=") || has_prefix entry (codes "COLORTERM=")

unfoldable pub other_entries : List Bytes → List Bytes
other_entries [] = []
other_entries (entry ∷ env) =
    let rest = other_entries env in if is_terminal_type entry then rest else entry ∷ rest

supplemented : (List Bytes → List Bytes) → Platform → List Bytes → List Bytes
supplemented supplement windows env = supplement env
supplemented supplement darwin env = env
supplemented supplement linux env = env

-- What Windows adds is a parameter.
unfoldable pub local_pty_env : (List Bytes → List Bytes) → Machine → List Bytes
unfolding supplemented
local_pty_env supplement m =
    supplemented supplement m.platform
      (other_entries m.environ ++ codes "TERM=xterm-256color" ∷ codes "COLORTERM=truecolor" ∷ [])

abbrev osc7_posix : Bytes
osc7_posix = codes "printf '\\033]7;file://%s\\007' \"$PWD\""

abbrev pub bash_rc : Bytes
bash_rc =
    codes "[ -f \"$HOME/.bashrc\" ] && . \"$HOME/.bashrc\"\nPROMPT_COMMAND=\""
    ++ (osc7_posix ++ codes "${PROMPT_COMMAND:+; $PROMPT_COMMAND}\"\n")

abbrev zsh_env : Bytes
zsh_env = codes "[ -f \"$HOME/.zshenv\" ] && . \"$HOME/.zshenv\"\n"

abbrev zsh_shim : Bytes
zsh_shim =
    zsh_env
    ++ (codes "[ -f \"$HOME/.zshrc\" ] && . \"$HOME/.zshrc\"\n__dbx_osc7() { "
        ++ (osc7_posix ++ codes " }\nprecmd_functions+=(__dbx_osc7)\n"))

-- What the operating system answers to one start: the temporary file or directory, the errors of writing
-- to it, and the terminal for arguments and environment; writing has the name and the text.
pub record PtyHost : Type 0 where
  pub make_temp : Bytes ⊎ Bytes
  pub write_error : Bytes → Bytes → Option Bytes
  pub close_error : Option Bytes
  pub start : List Bytes → List Bytes → Bytes → Bytes ⊎ ℕ

-- What is made and removed of the files for the prompt.
pub data Injection : Type 0 where
  made removed : Bytes → Injection

-- The path, or none where the file could not be made, with what was done.
abbrev pub Written : Type 0
Written = Option Bytes × List Injection

first_error : Option Bytes → Option Bytes → Option Bytes
first_error (some e) other = some e
first_error none other = other

kept_unless : Bytes → Option Bytes → Written
kept_unless path none = (some path, made path ∷ [])
kept_unless path (some e) = (none, made path ∷ removed path ∷ [])

write_bash : PtyHost → Bytes ⊎ Bytes → Written
unfolding first_error kept_unless
write_bash h (inl e) = (none, [])
write_bash h (inr path) = kept_unless path (first_error (h.write_error path bash_rc) h.close_error)

-- The join of a directory and a name is the machine's.
write_zsh : Machine → PtyHost → Bytes ⊎ Bytes → Written
unfolding first_error kept_unless
write_zsh m h (inl e) = (none, [])
write_zsh m h (inr dir) = kept_unless dir (
    first_error (h.write_error (m.join dir (codes ".zshrc")) zsh_shim)
      (h.write_error (m.join dir (codes ".zshenv")) zsh_env))

-- The arguments, the environment, what the cleanup removes, and what was done.
pub record Prepared : Type 0 where
  pub argv : List Bytes
  pub env : List Bytes
  pub cleanup : Option Bytes
  pub did : List Injection

with_rc : List Bytes → List Bytes → Written → Prepared
with_rc argv env (none, did) = record { argv = argv; env = env; cleanup = none; did = did }
with_rc argv env (some rc, did) = record {
  argv = argv ++ codes "--rcfile" ∷ rc ∷ [];
  env = env;
  cleanup = some rc;
  did = did;
}

with_zdotdir : List Bytes → List Bytes → Written → Prepared
with_zdotdir argv env (none, did) = record { argv = argv; env = env; cleanup = none; did = did }
with_zdotdir argv env (some dir, did) = record {
  argv = argv;
  env = env ++ (codes "ZDOTDIR=" ++ dir) ∷ [];
  cleanup = some dir;
  did = did;
}

prepared : Machine → PtyHost → Bytes → List Bytes → List Bytes → Prepared
unfolding write_zsh write_bash with_rc with_zdotdir
prepared m h shell argv env =
    if bytes_eq (to_lower (m.base shell)) (codes "zsh")
    then with_zdotdir argv env (write_zsh m h h.make_temp)
    else if bytes_eq (to_lower (m.base shell)) (codes "bash")
    then with_rc argv env (write_bash h h.make_temp)
    else record { argv = argv; env = env; cleanup = none; did = [] }

-- The terminal, which is open until its first Close.
pub record LocalPty : Type 0 where
  pub file : ℕ
  pub cleanup : Option Bytes
  pub is_closed : Bool

cleaned : Option Bytes → List Injection
cleaned none = []
cleaned (some path) = removed path ∷ []

pty_started : Prepared → Bytes ⊎ ℕ → (Bytes ⊎ LocalPty) × List Injection
unfolding cleaned
pty_started p (inl e) = (inl e, p.did ++ cleaned p.cleanup)
pty_started p (inr file) =
    (inr (record { file = file; cleanup = p.cleanup; is_closed = false }), p.did)

start_prepared : PtyHost → Bytes → Prepared → (Bytes ⊎ LocalPty) × List Injection
unfolding pty_started
start_prepared h dir p = pty_started p (h.start p.argv p.env dir)

module _ (utf16 : Bytes → List ℕ) (base64 : Bytes → Bytes) (m : Machine) (h : PtyHost) where
  unfoldable pub start_local_pty : Bytes → Bytes → (Bytes ⊎ LocalPty) × List Injection
  unfolding start_prepared prepared
  start_local_pty shell dir =
      start_prepared h dir
        (prepared m h shell (local_pty_argv utf16 base64 m shell) (local_pty_env (λ env. env) m))

  -- The session of `openLocalPTY` up to its read loop, and the error.
  pty_opened :
      Session → (Bytes ⊎ LocalPty) × List Injection → Session × Option Bytes × List Injection
  pty_opened s (inl e, did) = (s, some e, did)
  pty_opened s (inr pty, did) = (record s { local_pty = some pty.file }, none, did)

  unfoldable pub open_local_pty : Session → Session × Option Bytes × List Injection
  unfolding pty_opened
  open_local_pty s = pty_opened s (start_local_pty s.shell_path s.cwd)

-- The signals and the closing of the file are the operating system's; they happen once.
unfoldable pub close_local_pty : LocalPty → LocalPty × List Injection
unfolding cleaned
close_local_pty pty =
    (record pty { is_closed = true }, if pty.is_closed then [] else cleaned pty.cleanup)
