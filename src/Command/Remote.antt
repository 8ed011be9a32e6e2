-- ===== src/Command/Remote.antt =====
-- A command on the remote host: `startSSHExec` of backend/ssh.go.
pub mod Order
use dbx_plugin_ninty_shell.Base.{
  ℕ, Bool, true, false, ◌||◌, Option, none, some, List, [], ◌∷◌, ◌++◌, ◌⊎◌, inl, inr, ℤ, pos,
  negsuc,
}
use dbx_plugin_ninty_shell.Text.{Bytes, codes}
use dbx_plugin_ninty_shell.Stream.{StreamWriter, new_writer, write_all, max_pty_output_bytes}
use dbx_plugin_ninty_shell.Meta.{build_remote_script, parse_ring_meta}
use dbx_plugin_ninty_shell.Session.{Session, Outcome, mark_dead}
use dbx_plugin_ninty_shell.Channel.{Channel, answer, open_session, start, close_session}
use dbx_plugin_ninty_shell.Command.{Started}

abbrev pub exec_ring_size : ℕ
exec_ring_size = 8192

module _ (s : Session) (command : Bytes) where
  -- The start failed or did not come back in time: the channel is closed and the connection given up.
  start_failed : ℕ → Bytes → Channel Started
  unfolding mark_dead
  start_failed h e =
      let (s', closing) = mark_dead s in
      close_session h (answer (s', closing, inl (codes "start remote command: " ++ e)))

  -- The run is told apart by its channel.
  started_on : ℕ → Option Bytes → Channel Started
  unfolding start_failed
  started_on h (some e) = start_failed h e
  started_on h none = answer (s, [], inr h)

  exec_channel : Bytes ⊎ ℕ → Channel Started
  unfolding mark_dead started_on
  exec_channel (inl e) =
      let (s', closing) = mark_dead s in answer (s', closing, inl (codes "open SSH session: " ++ e))
  exec_channel (inr h) = start h (build_remote_script s.sid s.cwd command) (started_on h)

  exec_client : Option ℕ → Channel Started
  unfolding exec_channel
  exec_client none = answer (s, [], inl (codes "SSH client is closed"))
  exec_client (some client) = open_session exec_channel

  exec_alive : Bool → Channel Started
  unfolding exec_client
  exec_alive true =
      answer (s, [], inl (codes "SSH connection lost. Please reconnect from the connection list."))
  exec_alive false = exec_client s.ssh_client

  unfoldable pub start_ssh_exec : Channel Started
  unfolding exec_alive
  start_ssh_exec = exec_alive s.dead

-- What session.Wait reports: nothing, an exit error, an end without a status, or another error.
pub data RemoteEnd : Type 0 where
  ended exit_missing failed : RemoteEnd
  exited : ℤ → RemoteEnd

-- What a command wrote until Wait came back.
pub record RemoteRun : Type 0 where
  pub out : List Bytes
  pub errors : List Bytes
  pub end : RemoteEnd

wait_status : RemoteEnd → ℤ
wait_status ended = pos 0
wait_status (exited status) = status
wait_status exit_missing = negsuc 0
wait_status failed = negsuc 0

abbrev pub wait_signal : RemoteEnd → Bytes
wait_signal ended = []
wait_signal (exited status) = []
wait_signal exit_missing = codes "killed"
wait_signal failed = []

abbrev pub has_failed : RemoteEnd → Bool
has_failed ended = false
has_failed (exited status) = true
has_failed exit_missing = true
has_failed failed = true

abbrev pub remote_stdout : RemoteRun → StreamWriter
remote_stdout r = write_all (new_writer max_pty_output_bytes exec_ring_size) r.out

abbrev pub remote_stderr : RemoteRun → StreamWriter
remote_stderr r = write_all (new_writer max_pty_output_bytes 0) r.errors

-- The first part of `wait`; the rest is `finish` of the session.
unfoldable pub remote_outcome : Bytes → RemoteRun → Outcome
unfolding wait_status
remote_outcome sid r = record {
  meta = parse_ring_meta (remote_stdout r).tail sid;
  status = wait_status r.end;
  signal = wait_signal r.end;
  wait_failed = has_failed r.end;
  cut = (remote_stdout r).truncated || (remote_stderr r).truncated;
}
