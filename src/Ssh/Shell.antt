-- ===== src/Ssh/Shell.antt =====
-- The interactive shell of an SSH session: `openPTYShell` of backend/ssh.go up to its read loop.
use dbx_plugin_ninty_shell.Base.{
  ℕ, Bool, true, false, Option, none, some, List, [], ◌++◌, ◌≡◌, refl, ◌⊎◌, inl, inr,
}
use dbx_plugin_ninty_shell.Text.{Bytes, codes}
use dbx_plugin_ninty_shell.Session.{Session, Effect, mark_dead}
use dbx_plugin_ninty_shell.Channel.{
  Channel, answer, open_session, request_pty, stdin_pipe, stdout_pipe, shell, close_session,
}
use dbx_plugin_ninty_shell.Channel.Stages.{Stage, idle, closed, listening, trusted, Careful}

-- The session behind it, what is closed, and the error.
abbrev pub Opening : Type 0
Opening = Session × List Effect × Option Bytes

module _ (s : Session) where
  shell_failed : ℕ → Bytes → Channel Opening
  shell_failed h text = close_session h (answer (s, [], some text))

  shell_started : ℕ → Option Bytes → Channel Opening
  unfolding shell_failed
  shell_started h (some e) = shell_failed h (codes "start remote shell: " ++ e)
  shell_started h none = answer (record s { pty_session = some h; pty_stdin = some h }, [], none)

  shell_stdout : ℕ → Option Bytes → Channel Opening
  unfolding shell_failed shell_started
  shell_stdout h (some e) = shell_failed h e
  shell_stdout h none = shell h (shell_started h)

  shell_stdin : ℕ → Option Bytes → Channel Opening
  unfolding shell_failed shell_stdout
  shell_stdin h (some e) = shell_failed h e
  shell_stdin h none = stdout_pipe h (shell_stdout h)

  shell_pty : ℕ → Option Bytes → Channel Opening
  unfolding shell_failed shell_stdin
  shell_pty h (some e) = shell_failed h (codes "request pty: " ++ e)
  shell_pty h none = stdin_pipe h (shell_stdin h)

  shell_channel : Bytes ⊎ ℕ → Channel Opening
  unfolding mark_dead shell_pty
  shell_channel (inl e) = let (s', closing) = mark_dead s in answer (s', closing, some e)
  shell_channel (inr h) = request_pty h (shell_pty h)

  shell_client : Option ℕ → Channel Opening
  unfolding shell_channel
  shell_client none = answer (s, [], some (codes "SSH client is closed"))
  shell_client (some client) = open_session shell_channel

  shell_alive : Bool → Channel Opening
  unfolding shell_client
  shell_alive true =
      answer (s, [], some (codes "SSH connection lost. Please reconnect from the connection list."))
  shell_alive false = shell_client s.ssh_client

  unfoldable pub open_pty_shell : Channel Opening
  unfolding shell_alive
  open_pty_shell = shell_alive s.dead

-- An error leaves no channel open; else the session holds the open channel, for its shutdown to close.
abbrev pub IsOwned : Stage → Opening → Type 0
IsOwned idle (s, closing, none) = ⊥
IsOwned idle (s, closing, some e) = Unit
IsOwned (closed g) (s, closing, none) = ⊥
IsOwned (closed g) (s, closing, some e) = Unit
IsOwned (trusted g heard) (s, closing, err) = ⊥
IsOwned (listening g heard) (s, closing, none) = (s.pty_session ≡ some g) × (s.pty_stdin ≡ some g)
IsOwned (listening g heard) (s, closing, some e) = ⊥

abbrev pub Never : Bytes → Bytes → Type 0
Never heard bytes = ⊥

module _ (s : Session) where
  abbrev Safe : Stage → Channel Opening → Type 0
  Safe = Careful IsOwned Never Never

  shell_started-Safe : (h : ℕ) (r : Option Bytes) → Safe (listening h []) (shell_started s h r)
  unfolding Careful shell_started shell_failed
  shell_started-Safe h (some e) = (refl, tt)
  shell_started-Safe h none = (refl, refl)

  shell_stdout-Safe : (h : ℕ) (r : Option Bytes) → Safe (listening h []) (shell_stdout s h r)
  unfolding Careful shell_stdout shell_failed
  shell_stdout-Safe h (some e) = (refl, tt)
  shell_stdout-Safe h none = (refl, shell_started-Safe h)

  shell_stdin-Safe : (h : ℕ) (r : Option Bytes) → Safe (listening h []) (shell_stdin s h r)
  unfolding Careful shell_stdin shell_failed
  shell_stdin-Safe h (some e) = (refl, tt)
  shell_stdin-Safe h none = (refl, shell_stdout-Safe h)

  shell_pty-Safe : (h : ℕ) (r : Option Bytes) → Safe (listening h []) (shell_pty s h r)
  unfolding Careful shell_pty shell_failed
  shell_pty-Safe h (some e) = (refl, tt)
  shell_pty-Safe h none = (refl, shell_stdin-Safe h)

  shell_client-Safe : (client : Option ℕ) → Safe idle (shell_client s client)
  unfolding Careful shell_client shell_channel
  shell_client-Safe none = tt
  shell_client-Safe (some client) = (refl, λ e. tt, λ h. (refl, shell_pty-Safe h))

  shell_alive-Safe : (dead : Bool) → Safe idle (shell_alive s dead)
  unfolding Careful shell_alive
  shell_alive-Safe true = tt
  shell_alive-Safe false = shell_client-Safe s.ssh_client

  -- Whatever the host answers, opening the interactive shell opens at most one channel, works on that one
  -- only and writes nothing to it; with an error it has closed the channel, else the session holds it, as
  -- its terminal and as the input of its terminal.
  pub open_pty_shell-Careful : Careful IsOwned Never Never idle (open_pty_shell s)
  unfolding open_pty_shell
  open_pty_shell-Careful = shell_alive-Safe s.dead
