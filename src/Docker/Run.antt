-- ===== src/Docker/Run.antt =====
-- How the Docker panel runs a command on the remote host: `runSSHCommandWithTimeout` of
-- backend/dockerapi.go. What golang.org/x/crypto/ssh reports is an `Execution`.
pub mod Password
pub mod Whole
use mathlib.Core.List.{flatten}
use dbx_plugin_ninty_shell.Base.{
  ℕ, ◌≤◌, ◌*◌, Bool, true, false, not, Option, none, some, List, [], ◌++◌, ◌≡◌, ◌⊎◌, inl, inr, refl,
  arith, if◌then◌else◌, ℤ, pos, length, ltb, take, take_all, Bool-cases,
}
use dbx_plugin_ninty_shell.Text.{Bytes, codes}
use dbx_plugin_ninty_shell.Stream.{LimitedBuffer, new_buffer, buffer_write_all}
use dbx_plugin_ninty_shell.Stream.Limited.{buffer_refines}
use dbx_plugin_ninty_shell.Session.{Session, Effect, is_ssh, mark_dead}
use dbx_plugin_ninty_shell.Docker.{timed_out, broken, CommandResult}

-- How the run ends: with exit code 0, with another status, at the timer, or with an error of the
-- transport.
pub data Ending : Type 0 where
  succeeded : Ending
  exited : ℤ → Ending
  timer_fired : Ending
  transport_failed : Bytes → Ending

-- The error of NewSession or its time-out, and else the chunks that the command wrote to its output
-- and its errors until the result is made.
pub record Execution : Type 0 where
  pub open_error : Option Bytes
  pub out : List Bytes
  pub errors : List Bytes
  pub ending : Ending

abbrev pub docker_command_output_limit : ℕ
docker_command_output_limit = 4 * 1024 * 1024

abbrev pub docker_error_output_limit : ℕ
docker_error_output_limit = 64 * 1024

-- A result, the session behind it, and what is closed.
abbrev pub Ran : Type 0
Ran = CommandResult × Session × List Effect

failed_run : Bytes → CommandResult
failed_run text = record { stdout = []; stderr = []; exit_code = pos 0; err = some (broken text) }

plain_run : LimitedBuffer → LimitedBuffer → CommandResult
plain_run out errors = record {
  stdout = out.buffer;
  stderr = errors.buffer;
  exit_code = pos 0;
  err = none;
}

lose : Session → CommandResult → Ran
unfolding mark_dead
lose s r = let (s', closing) = mark_dead s in (r, s', closing)

-- `if stdout.truncated`, in front of the other outcomes of a run that ended.
unless_cut : Session → LimitedBuffer → LimitedBuffer → Ran → Ran
unfolding plain_run
unless_cut s out errors ended =
    if out.truncated
    then (
      record (plain_run out errors) {
        err = some (broken (codes "remote command output exceeded 4 MB"));
      },
      s,
      [],
    )
    else ended

-- The duration in a message, as time.Duration prints a number of seconds.
module _ (shown : ℕ → Bytes) where
  settle : Session → ℕ → LimitedBuffer → LimitedBuffer → Ending → Ran
  unfolding plain_run lose unless_cut
  settle s limit out errors timer_fired = (
    record (plain_run out errors) {
      err = some (
          timed_out (
            codes "remote command timed out after "
            ++ (shown limit ++ codes ": remote command timed out")));
    },
    s,
    [],
  )
  settle s limit out errors succeeded = unless_cut s out errors (plain_run out errors, s, [])
  settle s limit out errors (exited status) =
      unless_cut s out errors (record (plain_run out errors) { exit_code = status }, s, [])
  settle s limit out errors (transport_failed e) = unless_cut s out errors (
      lose s
        (record (plain_run out errors) { err = some (broken (codes "run remote command: " ++ e)) }))

  run_open : Session → ℕ → Execution → Option Bytes → Ran
  unfolding settle lose failed_run
  run_open s limit x (some e) = lose s (failed_run (codes "open SSH session: " ++ e))
  run_open s limit x none =
      settle s limit (buffer_write_all (new_buffer docker_command_output_limit) x.out)
        (buffer_write_all (new_buffer docker_error_output_limit) x.errors) x.ending

  run_client : Session → ℕ → Execution → Option ℕ → Ran
  unfolding run_open failed_run
  run_client s limit x none = (failed_run (codes "SSH client is closed"), s, [])
  run_client s limit x (some client) = run_open s limit x x.open_error

  -- behind `if s.isDead()`
  run_alive : Session → ℕ → Execution → Bool → Ran
  unfolding run_client failed_run
  run_alive s limit x true =
      (failed_run (codes "SSH connection lost. Please reconnect from the connection list."), s, [])
  run_alive s limit x false = run_client s limit x s.ssh_client

  unfoldable pub run_ssh_command_with_timeout : Session → ℕ → Execution → Ran
  unfolding run_alive failed_run
  run_ssh_command_with_timeout s limit x =
      if not (is_ssh s.kind)
      then (failed_run (codes "command requires an SSH connection"), s, [])
      else run_alive s limit x s.dead
