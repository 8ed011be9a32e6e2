-- ===== src/Channel.antt =====
-- A channel of golang.org/x/crypto/ssh: what backend/ssh.go and backend/root.go ask of one, in order.
-- github.com/pkg/sftp speaks over a channel, too.
pub mod Stages
use dbx_plugin_ninty_shell.Base.{ℕ, Option, List, ◌⊎◌, ℤ}
use dbx_plugin_ninty_shell.Text.{Bytes}
use dbx_plugin_ninty_shell.Docker.Run.{Execution}

-- How the reads end while the marker is missing: with an error, or at the timer, whose duration is
-- shown in the message.
pub data Silence : Type 0 where
  read_failed : Bytes → Silence
  timer_fired : Bytes → Silence

-- What reads return from here on, and how they end.
pub record Delivery : Type 0 where
  pub chunks : List Bytes
  pub silence : Silence

-- What session.Wait reports: nothing, an exit error with its status, or another error.
pub data WaitError : Type 0 where
  no_error : WaitError
  exit_error : ℤ → Bytes → WaitError
  other_error : Bytes → WaitError

-- What a command wrote until the result is made; no end stands for the timer with its duration.
pub record Waited : Type 0 where
  pub out : List Bytes
  pub errors : List Bytes
  pub end : Bytes ⊎ WaitError

-- A channel is a number; an error is its text. `run_apart` runs a command on a channel of its own, which
-- is closed behind it (`runSSHCommandWithTimeout`). `new_client_pipe` speaks on what was read behind the
-- marker and the rest of the output.
pub data Channel (A : Type 0) : Type 0 where
  answer : A → Channel A
  run_apart : Bytes → (Execution → Channel A) → Channel A
  open_session : (Bytes ⊎ ℕ → Channel A) → Channel A
  request_pty : ℕ → (Option Bytes → Channel A) → Channel A
  stdin_pipe : ℕ → (Option Bytes → Channel A) → Channel A
  stdout_pipe : ℕ → (Option Bytes → Channel A) → Channel A
  shell : ℕ → (Option Bytes → Channel A) → Channel A
  start : ℕ → Bytes → (Option Bytes → Channel A) → Channel A
  await : ℕ → (Delivery → Channel A) → Channel A
  write_input : ℕ → Bytes → (Option Bytes → Channel A) → Channel A
  close_input : ℕ → Channel A → Channel A
  wait : ℕ → (Waited → Channel A) → Channel A
  new_client_pipe : ℕ → List Bytes → (Bytes ⊎ ℕ → Channel A) → Channel A
  close_session : ℕ → Channel A → Channel A
