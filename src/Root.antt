-- ===== src/Root.antt =====
-- Root escalation in backend/root.go: the settings, the search for a marker in a stream, the script
-- that runs a command as root between two markers, and what is read back of its output.
pub mod Marker
pub mod Output
pub mod Run
pub mod Settings
pub mod Sftp
pub mod Wait
mod Scenarios
use dbx_plugin_ninty_shell.Base.{
  ℕ, ◌+◌, ◌*◌, ◌-◌, ◌^◌, Bool, true, false, not, ◌&&◌, ◌||◌, Option, none, some, List, [], ◌∷◌,
  ◌++◌, ◌⊎◌, inl, inr, ltb, leb, if◌then◌else◌, length, take, drop, ℤ, pos, negsuc,
}
use dbx_plugin_ninty_shell.Text.{
  Bytes, codes, newline, is_empty, is_line_end, trim_left, trim_right, trim_space, trim_suffix,
  cut_prefix, index, split,
}
use dbx_plugin_ninty_shell.Text.Words.{fields}
use dbx_plugin_ninty_shell.Text.Equal.{bytes_eq}
use dbx_plugin_ninty_shell.Request.{Json, config_string, config_secret}
use dbx_plugin_ninty_shell.Session.{Session}
use dbx_plugin_ninty_shell.Meta.{shell_quote}

-- Whether root mode is on, with the password; or the error.
unfoldable pub root_settings : Json → Bytes ⊎ Bool × Bytes
root_settings values =
    let mode = config_string values (codes "root_login") in
    let password = config_secret values (codes "root_password") in
    if not (bytes_eq mode (codes "password"))
    then (if not (is_empty password)
        then inl
            (codes "Root login mode must be set to Password when a root password is configured")
        else inr (false, []))
    else if is_empty password
    then inl (codes "Root password is required when root login mode is Password")
    else inr (true, password)

unfoldable pub apply_settings : Session → Bytes ⊎ Bool × Bytes → Session × Option Bytes
apply_settings s (inl err) = (s, some err)
apply_settings s (inr (enabled, password)) = (
  record s {
    root_enabled = enabled;
    root_user = if enabled then codes "root" else [];
    root_password = if enabled then password else [];
    root_home = [];
    root_sftp_path = [];
  },
  none,
)

-- `configureRootEscalation`: the session behind it, and the error.
unfoldable pub configure_root_escalation : Session → Json → Session × Option Bytes
unfolding apply_settings
configure_root_escalation s values = apply_settings s (root_settings values)

-- A line of the probe's output; the first of each kind counts.
probe_value : Bytes → Bytes → Bytes → Bytes
probe_value tag line known = elim (cut_prefix line tag) [
  | none ↦ known
  | some value ↦ if is_empty known then trim_space value else known
]

probe_lines : List Bytes → Bytes × Bytes → Bytes × Bytes
unfolding probe_value
probe_lines [] found = found
probe_lines (l ∷ ls) (home, path) =
    let line = trim_space (trim_suffix l (codes "\r")) in
    let kept = probe_lines ls (home, path) in
    let read = probe_lines ls (
      probe_value (codes "__DBX_ROOT_HOME__") line home,
      probe_value (codes "__DBX_ROOT_SFTP__") line path,
    ) in
    if is_empty line then kept else read

unfoldable pub parse_root_probe : Bytes → Bytes × Bytes
unfolding probe_lines
parse_root_probe output = probe_lines (split newline output) ([], [])

unfoldable pub build_root_script : Bytes → Bytes → Bytes → Bytes
build_root_script command ready done =
    codes "printf '%s\\n' "
    ++ (shell_quote ready
        ++ (codes "\n"
            ++ (command
                ++ (codes "\n__dbx_root_rc=$?\nprintf '\\n%s %s\\n' "
                    ++ (shell_quote done
                        ++ codes " \"$__dbx_root_rc\"\nexit \"$__dbx_root_rc\"")))))

atoi_loop : ℕ → Bytes → Option ℕ
atoi_loop n [] = some n
atoi_loop n (c ∷ s) =
    let next = n * 10 + (c - b'0') in
    let rest = atoi_loop next s in
    if ltb c b'0' || ltb b'9' c then none else if ltb (2 ^ 30) next then none else rest

-- `strconvAtoi`
unfoldable pub root_atoi : Bytes → Option ℕ
unfolding atoi_loop
root_atoi value = if is_empty value then none else atoi_loop 0 value

-- The first field that is a number, or -1.
first_code : List Bytes → ℤ
unfolding root_atoi
first_code [] = negsuc 0
first_code (f ∷ fs) =
    let later = first_code fs in elim (root_atoi f) [ none ↦ later | some n ↦ pos n ]

pub trim_lines : Bytes → Bytes
trim_lines s = trim_right is_line_end (trim_left is_line_end s)

output_body : Bytes → Bytes → Option (Bytes × ℤ)
unfolding first_code trim_lines
output_body body done = elim (index body done) [
  | none ↦ none
  | some at ↦ some (trim_lines (take at body), first_code (fields (drop (at + length done) body)))
]

-- The command's output and exit code; `none` is `("", -1, false)`.
unfoldable pub parse_root_script_output : Bytes → Bytes → Bytes → Option (Bytes × ℤ)
unfolding output_body
parse_root_script_output output ready done = elim (index output ready) [
  | none ↦ none
  | some at ↦ output_body (drop (at + length ready) output) done
]
