-- ===== src/Terminal/Input.antt =====
-- What input and resizing do to the terminals.
use dbx_plugin_ninty_shell.Base.{ℕ, true, false, Option, some, List, [], ◌∷◌, ◌≡◌, ◌⊎◌, inl, inr}
use dbx_plugin_ninty_shell.Text.{Bytes, codes}
use dbx_plugin_ninty_shell.Request.{Json, string_field}
use dbx_plugin_ninty_shell.Session.{Session, is_ssh}
use dbx_plugin_ninty_shell.Plugin.{Sessions, session_for}
use dbx_plugin_ninty_shell.Terminal.{
  Act, write_remote, write_local, Reply, panicked, rejected, failed, succeeded, input_written,
}

-- The input is for a terminal of the session: of an SSH session that is not lost its remote one, of any
-- other its local one, which is not closed.
pub data IsOwn (s later : Session) (bytes : Bytes) (act : Act) : Type 0 where
  to_remote :
      (h : ℕ)
      → is_ssh s.kind ≡ true
      → s.dead ≡ false
      → later.pty_stdin ≡ some h
      → act ≡ write_remote h bytes
      → IsOwn s later bytes act
  to_local :
      (pty : ℕ)
      → is_ssh s.kind ≡ false
      → later.pty_closed ≡ false
      → later.local_pty ≡ some pty
      → act ≡ write_local pty bytes
      → IsOwn s later bytes act

abbrev pub HasSucceeded : Reply → Type 0
HasSucceeded panicked = ⊥
HasSucceeded (rejected r) = ⊥
HasSucceeded (failed err) = ⊥
HasSucceeded (succeeded message) = Unit

pub data InputOutcome (decode : Bytes → Option Bytes) (refusal : Option Bytes)
    (later : Session → Session) (sessions : Sessions) (values : Json) (done : Reply × List Act)
    : Type 0 where
  nothing_written :
      ¬ HasSucceeded done.0 → done.1 ≡ [] → InputOutcome decode refusal later sessions values done
  was_written :
      (s : Session) (bytes : Bytes) (act : Act)
      → session_for sessions values ≡ inr s
      → decode (string_field values (codes "data")) ≡ some bytes
      → IsOwn s (later s) bytes act
      → done ≡ (input_written refusal, act ∷ [])
      → InputOutcome decode refusal later sessions values done

-- A target is a terminal of the session, or no success.
data TargetOutcome (s later : Session) (target : Reply ⊎ (Bytes → Act)) : Type 0 where
  no_terminal : (r : Reply) → target ≡ inl r → ¬ HasSucceeded r → TargetOutcome s later target
  terminal :
      (act : Bytes → Act)
      → target ≡ inr act
      → ((bytes : Bytes) → IsOwn s later bytes (act bytes))
      → TargetOutcome s later target

module _ (decode : Bytes → Option Bytes) (refusal : Option Bytes) (later : Session → Session)
    (sessions : Sessions) (values : Json) where
  abbrev Outcome : Reply × List Act → Type 0
  Outcome = InputOutcome decode refusal later sessions values
