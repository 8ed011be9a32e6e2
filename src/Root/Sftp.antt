-- ===== src/Root/Sftp.antt =====
-- The SFTP server that runs as root: `discoverRootSFTPPath` and `openRootSFTPClient` of
-- backend/root.go.
pub mod Order
use dbx_plugin_ninty_shell.Base.{
  ℕ, Option, none, some, List, [], ◌∷◌, ◌++◌, ◌⊎◌, inl, inr, if◌then◌else◌, pos,
}
use dbx_plugin_ninty_shell.Text.{Bytes, codes, is_empty, trim_space}
use dbx_plugin_ninty_shell.Meta.{shell_quote}
use dbx_plugin_ninty_shell.Session.{Session, Effect, mark_dead}
use dbx_plugin_ninty_shell.Docker.{
  CommandResult, failure_text, first_detail, decimal_int, is_zero, Failure,
}
use dbx_plugin_ninty_shell.Docker.Run.{Execution, Ran, run_ssh_command_with_timeout}
use dbx_plugin_ninty_shell.Root.{parse_root_probe}
use dbx_plugin_ninty_shell.Channel.{
  Channel, answer, run_apart, open_session, request_pty, stdin_pipe, stdout_pipe, start, await,
  write_input, new_client_pipe, close_session, Delivery,
}
use dbx_plugin_ninty_shell.Root.Wait.{wait_for_output_marker}

-- The client and its channel, or the error.
abbrev pub Opening : Type 0
Opening = Session × List Effect × (Bytes ⊎ ℕ × ℕ)

abbrev pub root_probe_command : Bytes
root_probe_command =
    codes
      "printf '%s\\n' \"__DBX_ROOT_HOME__$HOME\"\nif command -v sftp-server >/dev/null 2>&1; then\n\tprintf '%s\\n' \"__DBX_ROOT_SFTP__$(command -v sftp-server)\"\nelse\n\tfor __dbx_sftp_path in \\\n\t\t/usr/lib/openssh/sftp-server \\\n\t\t/usr/libexec/openssh/sftp-server \\\n\t\t/usr/lib/sftp-server \\\n\t\t/usr/lib/ssh/sftp-server \\\n\t\t/usr/libexec/sftp-server\n\tdo\n\t\tif [ -x \"$__dbx_sftp_path\" ]; then\n\t\t\tprintf '%s\\n' \"__DBX_ROOT_SFTP__$__dbx_sftp_path\"\n\t\t\tbreak\n\t\tfi\n\tdone\nfi"

cannot_locate : Bytes → Option Bytes
cannot_locate detail = some (codes "Cannot locate the external sftp-server: " ++ detail)

-- The session with the server's path.
found_server : Session → Bytes → Session × Option Bytes
found_server s path =
    if is_empty path
    then (
      s,
      some (
          codes
            "The external sftp-server executable was not found. Install the OpenSSH SFTP server or disable root login mode."),
    )
    else (
      record s {
        root_sftp_path = path;
        root_home = if is_empty s.root_home then codes "/root" else s.root_home;
      },
      none,
    )

probe_ended : Session → CommandResult → Option Failure → Session × Option Bytes
unfolding cannot_locate found_server
probe_ended s r (some e) = (s, cannot_locate (failure_text e))
probe_ended s r none =
    if is_zero r.exit_code then found_server s (parse_root_probe r.stdout).1 else (
      s,
      cannot_locate (
          first_detail r.stderr r.stdout
            (codes "probe exited with code " ++ decimal_int r.exit_code)),
    )

probe_result : Ran → Session × List Effect × Option Bytes
unfolding probe_ended
probe_result (r, s, closing) = let (s', err) = probe_ended s r r.err in (s', closing, err)

root_sftp_script : Bytes → Bytes → Bytes
root_sftp_script server path =
    codes "stty raw -echo 2>/dev/null || true\nprintf '%s' "
    ++ (shell_quote server ++ (codes "\nexec " ++ shell_quote path))

root_sftp_command : Bytes → Bytes → Bytes → Bytes
root_sftp_command auth user script =
    codes "stty icrnl -echo 2>/dev/null || true; printf '%s\\n' "
    ++ (shell_quote auth
        ++ (codes "; exec su - " ++ (shell_quote user ++ (codes " -c " ++ shell_quote script))))

-- An error with what was read in its place, if that is not blank.
with_output : Bytes → Bytes → Bytes → Bytes
with_output text err prefix =
    let detail = trim_space prefix in
    if is_empty detail
    then text ++ (codes ": " ++ err)
    else text ++ (codes ": " ++ (err ++ (codes "; remote output: " ++ detail)))

-- The session and what was done before the channel is opened, and its two markers.
module _ (s : Session) (done : List Effect) (auth server : Bytes) where
  give_up : ℕ → Bytes → Channel Opening
  give_up h text = close_session h (answer (s, done, inl text))

  made_client : ℕ → Bytes ⊎ ℕ → Channel Opening
  unfolding give_up
  made_client h (inl e) = give_up h (codes "root SFTP setup failed: " ++ e)
  made_client h (inr client) = answer (s, done, inr (client, h))

  server_ready : ℕ → Bytes × (Bytes ⊎ List Bytes) → Channel Opening
  unfolding give_up with_output made_client
  server_ready h (prefix, inl e) =
      give_up h (with_output (codes "root SFTP server did not become ready") e prefix)
  server_ready h (prefix, inr pending) = new_client_pipe h pending (made_client h)

  server_heard : ℕ → List Bytes → Delivery → Channel Opening
  unfolding server_ready
  server_heard h pending d = server_ready h (wait_for_output_marker server pending d)

  password_sent : ℕ → List Bytes → Option Bytes → Channel Opening
  unfolding give_up server_heard
  password_sent h pending (some e) = give_up h (codes "send root SFTP password: " ++ e)
  password_sent h pending none = await h (server_heard h pending)

  auth_ready : ℕ → Bytes × (Bytes ⊎ List Bytes) → Channel Opening
  unfolding give_up with_output password_sent
  auth_ready h (prefix, inl e) =
      give_up h (with_output (codes "root SFTP authentication did not start") e prefix)
  auth_ready h (prefix, inr pending) =
      write_input h (s.root_password ++ codes "\n") (password_sent h pending)

  auth_heard : ℕ → Delivery → Channel Opening
  unfolding auth_ready
  auth_heard h d = auth_ready h (wait_for_output_marker auth [] d)

  server_started : ℕ → Option Bytes → Channel Opening
  unfolding give_up auth_heard
  server_started h (some e) = give_up h (codes "start root SFTP server: " ++ e)
  server_started h none = await h (auth_heard h)

  has_stdout : ℕ → Option Bytes → Channel Opening
  unfolding give_up root_sftp_command root_sftp_script server_started
  has_stdout h (some e) = give_up h (codes "open root SFTP output: " ++ e)
  has_stdout h none =
      start h (root_sftp_command auth s.root_user (root_sftp_script server s.root_sftp_path))
        (server_started h)

  has_stdin : ℕ → Option Bytes → Channel Opening
  unfolding give_up has_stdout
  has_stdin h (some e) = give_up h (codes "open root SFTP input: " ++ e)
  has_stdin h none = stdout_pipe h (has_stdout h)

  has_pty : ℕ → Option Bytes → Channel Opening
  unfolding give_up has_stdin
  has_pty h (some e) = give_up h (codes "request root SFTP PTY: " ++ e)
  has_pty h none = stdin_pipe h (has_stdin h)

  has_channel : Bytes ⊎ ℕ → Channel Opening
  unfolding has_pty mark_dead
  has_channel (inl e) =
      let (s', closing) = mark_dead s in
      answer (s', done ++ closing, inl (codes "open root SFTP session: " ++ e))
  has_channel (inr h) = request_pty h (has_pty h)

has_path : Bytes → Bytes → Session × List Effect × Option Bytes → Channel Opening
unfolding has_channel
has_path auth server (s, done, some e) = answer (s, done, inl e)
has_path auth server (s, done, none) = open_session (has_channel s done auth server)

module _ (shown : ℕ → Bytes) where
  -- The probe has two seconds.
  unfoldable pub discover_root_sftp_path :
      Session → Execution → Session × List Effect × Option Bytes
  unfolding probe_result
  discover_root_sftp_path s x = probe_result (run_ssh_command_with_timeout shown s 2 x)

  -- Behind the probe.
  path_probed : Bytes → Bytes → Session → Execution → Channel Opening
  unfolding has_path discover_root_sftp_path
  path_probed auth server s x = has_path auth server (discover_root_sftp_path s x)

  with_path : Bytes → Bytes → Session → Channel Opening
  unfolding has_path path_probed
  with_path auth server s =
      if is_empty s.root_sftp_path
      then run_apart root_probe_command (path_probed auth server s)
      else has_path auth server (s, [], none)

  -- The two random numbers are arguments.
  unfoldable pub open_root_sftp_client : Bytes → Bytes → Session → Channel Opening
  unfolding with_path
  open_root_sftp_client a b s =
      with_path (codes "__DBX_ROOT_SFTP_AUTH__" ++ a) (codes "__DBX_ROOT_SFTP_READY__" ++ b) s
