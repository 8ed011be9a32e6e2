-- ===== src/Docker/Run/Password.antt =====
-- What a remote command does not touch: the root password of the session.
use dbx_plugin_ninty_shell.Base.{
  ℕ, Bool, true, false, Option, none, some, ◌≡◌, refl, Bool-cases, inl, inr,
}
use dbx_plugin_ninty_shell.Text.{Bytes}
use dbx_plugin_ninty_shell.Stream.{LimitedBuffer, new_buffer, buffer_write_all}
use dbx_plugin_ninty_shell.Session.{Session, is_ssh, mark_dead}
use dbx_plugin_ninty_shell.Docker.Run.{
  Ending, succeeded, exited, timer_fired, transport_failed, Execution, docker_command_output_limit,
  docker_error_output_limit, unless_cut, lose, settle, run_open, run_client, run_alive,
  run_ssh_command_with_timeout,
}

module _ (shown : ℕ → Bytes) (s : Session) (limit : ℕ) where
  settle-password :
      (out errors : LimitedBuffer) (ending : Ending)
      → (settle shown s limit out errors ending).1.root_password ≡ s.root_password
  unfolding settle unless_cut lose mark_dead
  settle-password out errors timer_fired = refl
  settle-password out errors succeeded = elim (Bool-cases out.truncated) [
    | inl e ↦ rw e refl
    | inr e ↦ rw e refl
  ]
  settle-password out errors (exited status) = elim (Bool-cases out.truncated) [
    | inl e ↦ rw e refl
    | inr e ↦ rw e refl
  ]
  settle-password out errors (transport_failed err) = elim (Bool-cases out.truncated) [
    | inl e ↦ rw e refl
    | inr e ↦ rw e refl
  ]

  run_open-password :
      (x : Execution) (refusal : Option Bytes)
      → (run_open shown s limit x refusal).1.root_password ≡ s.root_password
  unfolding run_open lose mark_dead
  run_open-password x (some e) = refl
  run_open-password x none =
      settle-password (buffer_write_all (new_buffer docker_command_output_limit) x.out)
        (buffer_write_all (new_buffer docker_error_output_limit) x.errors) x.ending

  run_client-password :
      (x : Execution) (client : Option ℕ)
      → (run_client shown s limit x client).1.root_password ≡ s.root_password
  unfolding run_client
  run_client-password x none = refl
  run_client-password x (some client) = run_open-password x x.open_error

  run_alive-password :
      (x : Execution) (dead : Bool)
      → (run_alive shown s limit x dead).1.root_password ≡ s.root_password
  unfolding run_alive
  run_alive-password x true = refl
  run_alive-password x false = run_client-password x s.ssh_client

  pub run-password :
      (x : Execution)
      → (run_ssh_command_with_timeout shown s limit x).1.root_password ≡ s.root_password
  unfolding run_ssh_command_with_timeout
  run-password x = elim (Bool-cases (is_ssh s.kind)) [
    | inl e ↦ rw e (run_alive-password x s.dead)
    | inr e ↦ rw e refl
  ]
