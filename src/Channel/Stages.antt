-- ===== src/Channel/Stages.antt =====
-- What a channel has been used for, as a condition on every dialog with the host.
use dbx_plugin_ninty_shell.Base.{ℕ, Option, List, [], ◌∷◌, ◌++◌, ◌≡◌, ◌⊎◌, inl, inr}
use dbx_plugin_ninty_shell.Text.{Bytes}
use dbx_plugin_ninty_shell.Docker.Run.{Execution}
use dbx_plugin_ninty_shell.Channel.{
  Channel, answer, run_apart, open_session, request_pty, stdin_pipe, stdout_pipe, shell, start,
  await, write_input, close_input, wait, new_client_pipe, close_session, Delivery, Waited,
}

unfoldable pub concat : List Bytes → Bytes
concat [] = []
concat (c ∷ cs) = c ++ concat cs

-- No channel, an open channel with what was read from it, the same behind the password, and a closed
-- channel.
pub data Stage : Type 0 where
  idle : Stage
  closed : ℕ → Stage
  listening trusted : ℕ → Bytes → Stage

abbrev pub Holds : ℕ → Stage → Type 0
Holds h idle = ⊥
Holds h (closed g) = ⊥
Holds h (listening g heard) = h ≡ g
Holds h (trusted g heard) = h ≡ g

-- An open channel can be closed, and a closed one again.
abbrev pub Closes : ℕ → Stage → Type 0
Closes h idle = ⊥
Closes h (closed g) = h ≡ g
Closes h (listening g heard) = h ≡ g
Closes h (trusted g heard) = h ≡ g

abbrev pub hear : List Bytes → Stage → Stage
hear chunks idle = idle
hear chunks (closed g) = closed g
hear chunks (listening g heard) = listening g (heard ++ concat chunks)
hear chunks (trusted g heard) = trusted g (heard ++ concat chunks)

abbrev pub trust : Stage → Stage
trust idle = idle
trust (closed g) = closed g
trust (listening g heard) = trusted g heard
trust (trusted g heard) = trusted g heard

-- One input is written, and this is allowed for what was heard.
abbrev pub Writes : (Bytes → Bytes → Type 0) → Bytes → Stage → Type 0
Writes May bytes idle = ⊥
Writes May bytes (closed g) = ⊥
Writes May bytes (listening g heard) = May heard bytes
Writes May bytes (trusted g heard) = ⊥

-- The SFTP client starts behind the password only.
abbrev pub Pipes : (Bytes → Bytes → Type 0) → Bytes → Stage → Type 0
Pipes May bytes idle = ⊥
Pipes May bytes (closed g) = ⊥
Pipes May bytes (listening g heard) = ⊥
Pipes May bytes (trusted g heard) = May heard bytes

-- Whatever the host answers, the dialog runs commands apart before it opens a channel only, opens one
-- channel and works on it alone while it is open, writes and pipes as is allowed, and ends as is fine.
module _ {A : Type 0} (Fine : Stage → A → Type 0) (MayWrite MayPipe : Bytes → Bytes → Type 0) where
  unfoldable pub Careful : Stage → Channel A → Type 0
  Careful st (answer r) = Fine st r
  Careful st (run_apart command k) = (st ≡ idle) × ((x : Execution) → Careful idle (k x))
  Careful st (open_session k) =
      (st ≡ idle)
      × ((e : Bytes) → Careful idle (k (inl e)))
      × ((h : ℕ) → Careful (listening h []) (k (inr h)))
  Careful st (request_pty h k) = Holds h st × ((r : Option Bytes) → Careful st (k r))
  Careful st (stdin_pipe h k) = Holds h st × ((r : Option Bytes) → Careful st (k r))
  Careful st (stdout_pipe h k) = Holds h st × ((r : Option Bytes) → Careful st (k r))
  Careful st (shell h k) = Holds h st × ((r : Option Bytes) → Careful st (k r))
  Careful st (start h command k) = Holds h st × ((r : Option Bytes) → Careful st (k r))
  Careful st (await h k) = Holds h st × ((d : Delivery) → Careful (hear d.chunks st) (k d))
  Careful st (write_input h bytes k) =
      Holds h st × Writes MayWrite bytes st × ((r : Option Bytes) → Careful (trust st) (k r))
  Careful st (close_input h d) = Holds h st × Careful st d
  Careful st (wait h k) = Holds h st × ((w : Waited) → Careful st (k w))
  Careful st (new_client_pipe h read k) =
      Holds h st × Pipes MayPipe (concat read) st × ((r : Bytes ⊎ ℕ) → Careful st (k r))
  Careful st (close_session h d) = Closes h st × Careful (closed h) d
