-- ===== src/Command/Remote/Order.antt =====
-- The channel of a remote command.
use dbx_plugin_ninty_shell.Base.{ℕ, Bool, true, false, Option, none, some, [], ◌≡◌, refl, inl, inr}
use dbx_plugin_ninty_shell.Text.{Bytes}
use dbx_plugin_ninty_shell.Session.{Session, mark_dead}
use dbx_plugin_ninty_shell.Channel.{Channel}
use dbx_plugin_ninty_shell.Channel.Stages.{Stage, idle, closed, listening, trusted, Careful}
use dbx_plugin_ninty_shell.Command.{Started}
use dbx_plugin_ninty_shell.Command.Remote.{
  start_failed, started_on, exec_channel, exec_client, exec_alive, start_ssh_exec,
}

-- A failed start leaves no channel open, and where it had opened one, gives the connection up; a run is
-- the open channel, in the session as it was.
abbrev pub IsRun : Session → Stage → Started → Type 0
IsRun s idle (s', closing, inl e) = Unit
IsRun s idle (s', closing, inr run) = ⊥
IsRun s (closed g) (s', closing, inl e) = s'.dead ≡ true
IsRun s (closed g) (s', closing, inr run) = ⊥
IsRun s (trusted g heard) started = ⊥
IsRun s (listening g heard) (s', closing, inl e) = ⊥
IsRun s (listening g heard) (s', closing, inr run) = (run ≡ g) × (s' ≡ s)

abbrev pub Never : Bytes → Bytes → Type 0
Never heard bytes = ⊥

module _ (s : Session) (command : Bytes) where
  abbrev Safe : Stage → Channel Started → Type 0
  Safe = Careful (IsRun s) Never Never

  started_on-Safe : (h : ℕ) (r : Option Bytes) → Safe (listening h []) (started_on s command h r)
  unfolding Careful started_on start_failed mark_dead
  started_on-Safe h (some e) = (refl, refl)
  started_on-Safe h none = (refl, refl)

  exec_client-Safe : (client : Option ℕ) → Safe idle (exec_client s command client)
  unfolding Careful exec_client exec_channel
  exec_client-Safe none = tt
  exec_client-Safe (some client) = (refl, λ e. tt, λ h. (refl, started_on-Safe h))

  exec_alive-Safe : (dead : Bool) → Safe idle (exec_alive s command dead)
  unfolding Careful exec_alive
  exec_alive-Safe true = tt
  exec_alive-Safe false = exec_client-Safe s.ssh_client

  -- Whatever the host answers, the start of a remote command opens at most one channel and writes nothing
  -- to it; if it fails behind the opening, the channel is closed and the connection given up, else the run
  -- is the open channel and the session is as it was.
  pub start_ssh_exec-Careful : Careful (IsRun s) Never Never idle (start_ssh_exec s command)
  unfolding start_ssh_exec
  start_ssh_exec-Careful = exec_alive-Safe s.dead
