-- ===== src/Root/Run.antt =====
-- One command that runs as root through su: `runRootCommand` and `rootFailureMessage` of
-- backend/root.go.
pub mod Releases
pub mod Result
use dbx_plugin_ninty_shell.Base.{
  ℕ, Bool, true, false, not, Option, none, some, List, [], ◌∷◌, ◌++◌, ◌⊎◌, inl, inr, if◌then◌else◌,
  ℤ, pos, negsuc,
}
use dbx_plugin_ninty_shell.Text.{Bytes, codes, is_empty}
use dbx_plugin_ninty_shell.Meta.{shell_quote}
use dbx_plugin_ninty_shell.Stream.{LimitedBuffer, new_buffer, buffer_write_all}
use dbx_plugin_ninty_shell.Session.{Session, Effect, is_ssh, mark_dead}
use dbx_plugin_ninty_shell.Docker.{CommandResult, broken, timed_out, first_detail, decimal_int}
use dbx_plugin_ninty_shell.Docker.Run.{
  Ran, run_ssh_command_with_timeout, docker_command_output_limit, docker_error_output_limit,
}
use dbx_plugin_ninty_shell.Root.{build_root_script, parse_root_script_output}
use dbx_plugin_ninty_shell.Channel.{
  Channel, answer, run_apart, open_session, request_pty, stdin_pipe, start, write_input,
  close_input, wait, close_session, WaitError, no_error, exit_error, other_error, Waited,
}

unfoldable pub root_failure_message : CommandResult → Bytes
root_failure_message r =
    codes "Root escalation failed: "
    ++ (first_detail r.stderr r.stdout (codes "su exited with code " ++ decimal_int r.exit_code)
        ++ codes
            ". Check the configured root password and make sure the SSH user is allowed to run su root.")

failed_root : Bytes → CommandResult
failed_root text = record { stdout = []; stderr = []; exit_code = pos 0; err = some (broken text) }

read_buffers : LimitedBuffer → LimitedBuffer → CommandResult
read_buffers out errors = record {
  stdout = out.buffer;
  stderr = errors.buffer;
  exit_code = pos 0;
  err = none;
}

-- The markers were not both there. No error of Wait is errRemoteCommandTimeout, which is made by this
-- package only.
unmarked : CommandResult → WaitError → CommandResult
unfolding root_failure_message
unmarked r no_error = record r { err = some (broken (root_failure_message r)) }
unmarked r (exit_error status e) =
    let failed = record r { exit_code = negsuc 0 } in
    record failed { err = some (broken (root_failure_message failed)) }
unmarked r (other_error e) =
    let failed = record r { exit_code = negsuc 0 } in
    record failed { err = some (broken (root_failure_message failed)) }

lost_run : Session → CommandResult → Bytes → Ran
unfolding mark_dead
lost_run s r e =
    let (s', closing) = mark_dead s in
    (record r { err = some (broken (codes "run root command: " ++ e)) }, s', closing)

-- The code between the markers, or where it is not there, that of Wait.
with_status : Session → CommandResult → Bytes → ℤ → WaitError → Ran
unfolding lost_run
with_status s r body code no_error = (record r { stdout = body; exit_code = code }, s, [])
with_status s r body (pos n) waited = (record r { stdout = body; exit_code = pos n }, s, [])
with_status s r body (negsuc n) (exit_error status e) =
    (record r { stdout = body; exit_code = status }, s, [])
with_status s r body (negsuc n) (other_error e) =
    lost_run s (record r { stdout = body; exit_code = negsuc n }) e

marked : Session → CommandResult → WaitError → Option (Bytes × ℤ) → Ran
unfolding unmarked with_status
marked s r waited none = (unmarked r waited, s, [])
marked s r waited (some (body, code)) = with_status s r body code waited

-- The two markers of this run.
module _ (s : Session) (ready done : Bytes) where
  root_buffers : LimitedBuffer → LimitedBuffer → Bytes ⊎ WaitError → Ran
  unfolding read_buffers marked
  root_buffers out errors (inl shown) = (
    record (read_buffers out errors) {
      err = some (
          timed_out (
            codes "root escalation command timed out after "
            ++ (shown ++ codes ": remote command timed out")));
    },
    s,
    [],
  )
  root_buffers out errors (inr waited) =
      let r = read_buffers out errors in
      if out.truncated
      then (record r { err = some (broken (codes "root command output exceeded 4 MB")) }, s, [])
      else marked s r waited (parse_root_script_output r.stdout ready done)

  unfoldable pub root_settled : Waited → Ran
  unfolding root_buffers
  root_settled w =
      root_buffers (buffer_write_all (new_buffer docker_command_output_limit) w.out)
        (buffer_write_all (new_buffer docker_error_output_limit) w.errors) w.end

  -- The deferred Close of the channel.
  finish_with : ℕ → Ran → Channel Ran
  finish_with h ran = close_session h (answer ran)

  root_refused : ℕ → Bytes → Channel Ran
  unfolding finish_with failed_root
  root_refused h text = finish_with h (failed_root text, s, [])

  -- At the timer the channel is closed twice, the second time by the deferred Close.
  root_closed : ℕ → Ran → Bytes ⊎ WaitError → Channel Ran
  unfolding finish_with
  root_closed h ran (inl shown) = close_session h (finish_with h ran)
  root_closed h ran (inr waited) = finish_with h ran

  root_waited : ℕ → Waited → Channel Ran
  unfolding root_closed root_settled
  root_waited h w = root_closed h (root_settled w) w.end

  root_sent : ℕ → Option Bytes → Channel Ran
  unfolding root_refused root_waited
  root_sent h (some e) = close_session h (root_refused h (codes "send root password: " ++ e))
  root_sent h none = close_input h (wait h (root_waited h))

  root_started : ℕ → Option Bytes → Channel Ran
  unfolding root_refused root_sent
  root_started h (some e) = root_refused h (codes "start root command: " ++ e)
  root_started h none = write_input h (s.root_password ++ codes "\n") (root_sent h)

  root_stdin : Bytes → ℕ → Option Bytes → Channel Ran
  unfolding root_refused root_started
  root_stdin command h (some e) = root_refused h (codes "open root input: " ++ e)
  root_stdin command h none =
      start h
        (codes "exec su - "
          ++ (shell_quote s.root_user
              ++ (codes " -c " ++ shell_quote (build_root_script command ready done))))
        (root_started h)

  root_pty : Bytes → ℕ → Option Bytes → Channel Ran
  unfolding root_refused root_stdin
  root_pty command h (some e) = root_refused h (codes "request root PTY: " ++ e)
  root_pty command h none = stdin_pipe h (root_stdin command h)

  root_channel : Bytes → Bytes ⊎ ℕ → Channel Ran
  unfolding failed_root root_pty mark_dead
  root_channel command (inl e) =
      let (s', closing) = mark_dead s in
      answer (failed_root (codes "open SSH session: " ++ e), s', closing)
  root_channel command (inr h) = request_pty h (root_pty command h)

  root_client : Bytes → Option ℕ → Channel Ran
  unfolding failed_root root_channel
  root_client command none = answer (failed_root (codes "SSH client is closed"), s, [])
  root_client command (some client) = open_session (root_channel command)

  root_alive : Bytes → Bool → Channel Ran
  unfolding failed_root root_client
  root_alive command true =
      answer (
        failed_root (codes "SSH connection lost. Please reconnect from the connection list."),
        s,
        [],
      )
  root_alive command false = root_client command s.ssh_client

  -- behind `if s.rootPassword == ""`
  root_with_password : Bytes → Bool → Channel Ran
  unfolding failed_root root_alive
  root_with_password command true =
      answer (failed_root (codes "root password is not configured"), s, [])
  root_with_password command false = root_alive command s.dead

module _ (shown : ℕ → Bytes) (s : Session) (command : Bytes) (limit : ℕ) (a b : Bytes) where
  -- Without root mode the command runs as for the Docker panel.
  root_mode : Bool → Channel Ran
  unfolding root_with_password
  root_mode false = run_apart command (λ x. answer (run_ssh_command_with_timeout shown s limit x))
  root_mode true =
      root_with_password s (codes "__DBX_ROOT_READY__" ++ a) (codes "__DBX_ROOT_DONE__" ++ b)
        command (is_empty s.root_password)

  unfoldable pub run_root_command : Channel Ran
  unfolding root_mode failed_root
  run_root_command =
      if not (is_ssh s.kind)
      then answer (failed_root (codes "root escalation requires an SSH connection"), s, [])
      else root_mode s.root_enabled
