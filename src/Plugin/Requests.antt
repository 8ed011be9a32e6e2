-- ===== src/Plugin/Requests.antt =====
-- Requests on the state of one session: `workingDir`, `cancelCommand`, `shellConfig` and `disconnect` of
-- backend/main.go in front of their lock sections, and the event of `emitExit`.
use dbx_plugin_ninty_shell.Base.{
  ℕ, Bool, true, false, not, ◌&&◌, Option, none, some, List, [], ◌⊎◌, inl, inr, if◌then◌else◌, ℤ,
  pos, negsuc, ◌+◌,
}
use dbx_plugin_ninty_shell.Text.{Bytes, codes, is_empty}
use dbx_plugin_ninty_shell.Request.{
  Json, bool, number, string, object, Fields, end, field, get, as_bool,
}
use dbx_plugin_ninty_shell.Session.{Session, Effect, is_ssh, cancel, shell_config}
use dbx_plugin_ninty_shell.Plugin.{Sessions, Rejection, session_for}

-- An answer, or the SDK's error.
abbrev pub Answer : Type 0
Answer = Rejection ⊎ Json

abbrev has_handle : Option ℕ → Bool
has_handle none = false
has_handle (some h) = true

-- The home directory of this machine is empty where it is unknown.
local_dir : Bytes → Session → Json
local_dir home s = object (
    field (codes "cwd") (string s.cwd) (
      field (codes "kind") (string (codes "local")) (
        field (codes "shell") (string s.shell_path) (
          field (codes "home") (string home)
            (field (codes "pty") (bool (has_handle s.local_pty)) end)))))

remote_dir : Session → Json
remote_dir s = object (
    field (codes "cwd") (string s.cwd) (
      field (codes "kind") (string (codes "ssh")) (
        field (codes "home") (string s.home)
          (field (codes "sid") (string s.sid) (field (codes "pty") (bool true) end)))))

dir_found : Bytes → Rejection ⊎ Session → Answer
unfolding local_dir remote_dir
dir_found home (inl r) = inl r
dir_found home (inr s) =
    if is_ssh s.kind && s.dead
    then inl (record {
      code = 32000;
      text = codes "SSH connection lost. Please reconnect from the connection list.";
    })
    else if is_ssh s.kind
    then inr (remote_dir s)
    else inr (local_dir home s)

unfoldable pub working_dir : Bytes → Sessions → Json → Answer
unfolding dir_found
working_dir home sessions values = dir_found home (session_for sessions values)

-- The session behind a request, with what is done outside and the answer.
abbrev pub Handled : Type 0
Handled = Option Session × List Effect × Answer

cancel_reply : Bool → Json
cancel_reply true = object (field (codes "cancelled") (bool true) end)
cancel_reply false = object (
    field (codes "cancelled") (bool false)
      (field (codes "message") (string (codes "No command is running")) end))

cancel_found : Rejection ⊎ Session → Handled
unfolding cancel_reply
cancel_found (inl r) = (none, [], inl r)
cancel_found (inr s) = let (s', es, hit) = cancel s in (some s', es, inr (cancel_reply hit))

-- Up to the goroutine with the timer, which is `cancel_again`.
unfoldable pub cancel_command : Sessions → Json → Handled
unfolding cancel_found
cancel_command sessions values = cancel_found (session_for sessions values)

abbrev success : Json
success = object (field (codes "success") (bool true) end)

config_found : Json → Rejection ⊎ Session → Handled
config_found values (inl r) = (none, [], inl r)
config_found values (inr s) =
    let (s', es) = shell_config (as_bool (get (codes "injectOsc7") values)) s in
    (some s', es, inr success)

unfoldable pub shell_config_request : Sessions → Json → Handled
unfolding config_found
shell_config_request sessions values = config_found values (session_for sessions values)

-- A whole number as JSON has it.
json_int : ℤ → Json
json_int (pos n) = number (record { negative = false; whole = n; fraction = false })
json_int (negsuc n) = number (record { negative = true; whole = n + 1; fraction = false })

-- A field that is left out where the flag is not set.
field_if : Bool → Bytes → Json → Fields → Fields
field_if true key v rest = field key v rest
field_if false key v rest = rest

-- The parameters of the shell/exit event, as `emitExit` hands them to the SDK, which encodes them.
unfoldable pub exit_event : Bytes → ℤ → Bytes → Bytes → Bool → Bool → Json
unfolding json_int field_if
exit_event id code cwd signal cancelled truncated = object (
    field (codes "connectionId") (string id) (
      field (codes "exitCode") (json_int code) (
        field (codes "cwd") (string cwd) (
          field_if (not (is_empty signal)) (codes "signal") (string signal) (
            field_if cancelled (codes "cancelled") (bool true)
              (field_if truncated (codes "truncated") (bool true) end))))))
