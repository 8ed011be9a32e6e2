-- ===== src/Session.antt =====
-- One connection's execution context: `shellSession` of backend/main.go, with the operations that
-- change it under its lock. A running command, a pseudo terminal and a client are numbers that tell
-- them apart; what an operation does to the outside is a list of effects. The parts of a handler
-- between two lock sections are functions of their own, so that other requests can come between.
pub mod Exec
pub mod Shutdown
pub mod Fixtures
mod Scenarios
use dbx_plugin_ninty_shell.Base.{
  ℕ, Bool, true, false, not, ◌&&◌, ◌||◌, Option, none, some, List, [], ◌∷◌, ◌++◌, if◌then◌else◌, ℤ,
  pos,
}
use dbx_plugin_ninty_shell.Text.{Bytes, codes, is_empty}
use dbx_plugin_ninty_shell.Text.Equal.{bytes_eq}

pub data Kind : Type 0 where
  local_shell ssh : Kind

pub record Session : Type 0 where
  pub id : Bytes
  pub kind : Kind
  pub shell_path : Bytes
  pub sid : Bytes
  pub home : Bytes
  pub ssh_client : Option ℕ
  pub sftp_conn : Option ℕ
  pub root_enabled : Bool
  pub root_user : Bytes
  pub root_password : Bytes
  pub root_home : Bytes
  pub root_sftp_path : Bytes
  pub root_sftp_conn : Option ℕ
  pub root_sftp_session : Option ℕ
  pub local_pty : Option ℕ
  pub pty_closed : Bool
  pub stopping : Bool
  pub inject_osc7 : Bool
  pub osc7_injected : Bool
  pub pty_session : Option ℕ
  pub pty_stdin : Option ℕ
  pub remote_loaded : Bool
  pub remote_commands : List Bytes
  pub remote_env_names : List Bytes
  pub remote_path_dirs : List Bytes
  pub dead : Bool
  pub cwd : Bytes
  pub busy : Bool
  pub cancelled : Bool
  pub cancel_fn : Option ℕ
  pub done : Option ℕ

-- What an operation does outside the session.
pub data Effect : Type 0 where
  close_client : ℕ → Effect
  cancel_run : ℕ → Effect
  close_pty : ℕ → Effect
  close_pty_session : ℕ → Effect
  close_sftp : ℕ → Effect
  close_root_sftp : ℕ → Effect
  close_root_session : ℕ → Effect
  start_osc7 : Effect
  emit_exit : ℤ → Bytes → Bytes → Bool → Bool → Effect
  emit_cwd : Bytes → Effect
  emit_pty_closed : Effect
  emit_fallback : Effect
  probe_silent : ℕ → Effect

-- The errors of the SDK that the operations return.
pub data Error : Type 0 where
  missing_connection empty_command not_connected lost still_running needs_interactive : Error

abbrev pub is_ssh : Kind → Bool
is_ssh ssh = true
is_ssh local_shell = false

-- `if handle != nil { close it }`
abbrev pub on_some : Option ℕ → (ℕ → Effect) → List Effect
on_some none f = []
on_some (some h) f = f h ∷ []

unfoldable pub mark_dead : Session → Session × List Effect
mark_dead s = (record s { dead = true }, if s.dead then [] else on_some s.ssh_client close_client)

-- The `if s.kind == "ssh"` part of `shutdown`.
shutdown_ssh : Session → Session × List Effect
unfolding mark_dead
shutdown_ssh s =
    let closed = record s {
      pty_session = none;
      pty_stdin = (elim s.pty_session [ none ↦ s.pty_stdin | some h ↦ none ]);
      sftp_conn = none;
      root_sftp_conn = none;
      root_sftp_session = none;
      root_password = [];
    } in
    let (s', closing) = mark_dead closed in
    (
      s',
      on_some s.pty_session close_pty_session
          ++ (on_some s.sftp_conn close_sftp
              ++ (on_some s.root_sftp_conn close_root_sftp
                  ++ (on_some s.root_sftp_session close_root_session ++ closing))),
    )

unfoldable pub shutdown : Session → Session × List Effect
unfolding shutdown_ssh
shutdown s =
    let stopped = record s { cancel_fn = none; stopping = true } in
    let (s', closing) = shutdown_ssh stopped in
    let first = on_some s.cancel_fn cancel_run ++ on_some s.local_pty close_pty in
    if is_ssh s.kind then (s', first ++ closing) else (stopped, first)

-- The first lock section of `execCommand`, with the test of the connection that stands right in front of
-- it; a connection that is lost between the two is found by the start of the command.
unfoldable pub exec_claim : Session → Session × Option Error
exec_claim s =
    if is_ssh s.kind && s.dead
    then (s, some lost)
    else if s.busy
    then (s, some still_running)
    else (record s { cancelled = false; busy = true }, none)

-- The start of the command failed: the slot is given back.
unfoldable pub exec_failed : Session → Session
exec_failed s = record s { busy = false }

-- The last lock section of `execCommand`.
unfoldable pub exec_started : ℕ → Session → Session
exec_started run s = record s { cancel_fn = some run; done = some run }

-- How a finished command is reported: `hasMeta` with its code and directory, the code of the process
-- where there is none, the signal, whether Wait failed, and whether a stream was cut.
pub record Outcome : Type 0 where
  pub meta : Option (ℤ × Bytes)
  pub status : ℤ
  pub signal : Bytes
  pub wait_failed : Bool
  pub cut : Bool

exit_code : Outcome → ℤ
exit_code o = elim o.meta [ none ↦ o.status | some (code, dir) ↦ code ]

new_cwd : Outcome → Bytes → Bytes
new_cwd o cwd = elim o.meta [ none ↦ cwd | some (code, dir) ↦ if is_empty dir then cwd else dir ]

-- The lock section of the `wait` functions, and the event behind it.
unfoldable pub finish : Outcome → Session → Session × List Effect
unfolding exit_code new_cwd
finish o s =
    let s' = record s { busy = false; cancel_fn = none; cwd = new_cwd o s.cwd } in
    (s', emit_exit (exit_code o) s'.cwd o.signal (s.cancelled && o.wait_failed) o.cut ∷ [])

-- The lock section of `cancelCommand`; the flag is the answer's `cancelled`.
unfoldable pub cancel : Session → Session × List Effect × Bool
cancel s = elim s.cancel_fn [
  | none ↦ (s, [], false)
  | some run ↦
      if s.busy then (record s { cancelled = true }, cancel_run run ∷ [], true) else (s, [], false)
]

-- The timer of `cancelCommand` fires before `done`: whatever is registered by then is cancelled.
unfoldable pub cancel_again : Session → List Effect
cancel_again s = on_some s.cancel_fn cancel_run

unfoldable pub shell_config : Bool → Session → Session × List Effect
shell_config inject s =
    let should = inject && is_ssh s.kind && not s.osc7_injected in
    (
      record s { inject_osc7 = inject; osc7_injected = s.osc7_injected || should },
      if should then start_osc7 ∷ [] else [],
    )

-- The tail of `emitOsc7Cwd`, for a report that names a directory.
unfoldable pub report_cwd : Bytes → Session → Session × List Effect
report_cwd dir s =
    if is_empty dir || bytes_eq dir s.cwd
    then (s, [])
    else (record s { cwd = dir }, emit_cwd dir ∷ [])

-- The end of a read loop: of a local terminal, and of a remote one, which keeps no flag.
unfoldable pub read_ended : Session → Session × List Effect
read_ended s =
    if s.stopping
    then (s, [])
    else (if is_ssh s.kind then s else record s { pty_closed = true }, emit_pty_closed ∷ [])

-- The session's part of `fallbackSession`; the flag says whether the connection is remembered.
unfoldable pub fall_back : Session → Session × List Effect × Bool
fall_back s = elim s.local_pty [
  | none ↦ (s, [], false)
  | some pty ↦ if s.stopping then (s, [], false) else (
    record s { local_pty = none; stopping = true },
    close_pty pty ∷ emit_fallback ∷ probe_silent pty ∷ [],
    true,
  )
]
