-- ===== src/Root/Scenarios.antt =====
-- Root escalation at concrete inputs.
use dbx_plugin_ninty_shell.Base.{ℕ, true, inr, ◌∷◌, some, [], ◌≡◌, refl, pos}
use dbx_plugin_ninty_shell.Text.{codes, index, has_prefix, split, trim_space, trim_suffix}
use dbx_plugin_ninty_shell.Root.{parse_root_probe}
use dbx_plugin_ninty_shell.Root.Run.Releases
use dbx_plugin_ninty_shell.Root.Run.Result
use dbx_plugin_ninty_shell.Channel.{Waited, exit_error}
use dbx_plugin_ninty_shell.Root.Sftp.Order
use dbx_plugin_ninty_shell.Root.Marker.{Found, read_until_output_marker}
use dbx_plugin_ninty_shell.Request.{Json, object, field, end, string}
use dbx_plugin_ninty_shell.Session.Fixtures.{new_session}
use dbx_plugin_ninty_shell.Session.{Session, ssh}
use dbx_plugin_ninty_shell.Text.{Bytes}

abbrev root_output : Waited
root_output = record {
  out = codes "Password: __R" ∷ codes "\r\nok\r\n__" ∷ codes "D 7\r\n" ∷ [];
  errors = codes "e" ∷ [];
  end = inr (exit_error (pos 7) (codes "exit 7"));
}

abbrev root_session : Session
root_session = record (new_session ssh) { root_enabled = true; root_user = codes "root" }

abbrev shown : ℕ → Bytes
shown n = codes "2s"

probe_test :
    parse_root_probe (codes "__DBX_ROOT_HOME__/root\r\n\n__DBX_ROOT_SFTP__/usr/lib/sftp-server\n")
    ≡ (codes "/root", codes "/usr/lib/sftp-server")
unfolding parse_root_probe split trim_space trim_suffix
probe_test = refl

abbrev root_request : Json
root_request = object (
    field (codes "config") (object (field (codes "root_login") (string (codes "password")) end)) (
      field (codes "secrets") (object (field (codes "root_password") (string (codes "pw")) end))
        end))

abbrev stream_found : Found
stream_found = record { prefix = codes "hi "; tail = codes "x"; unread = codes "yz" ∷ [] }

marker_test :
    read_until_output_marker (codes "##") [] (codes "hi #" ∷ codes "#x" ∷ codes "yz" ∷ [])
    ≡ some stream_found
unfolding read_until_output_marker index has_prefix
marker_test = refl
