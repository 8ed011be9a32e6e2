-- ===== src/Session/Exec.antt =====
-- Commands of one session under interleaved requests: what the threads that share a session may do.
pub mod Agreement
pub mod Exclusion
use mathlib.Core.Path.{subst, subst₂}
use dbx_plugin_ninty_shell.Base.{
  ℕ, ◌≤◌, Bool, true, false, not, Option, none, some, List, [], ◌∷◌, ◌++◌, ◌≡◌, ◌↔◌, ◌&&◌, ◌⊎◌, inl,
  inr, refl, sym, arith, length, Option-cases,
}
use dbx_plugin_ninty_shell.Text.{Bytes}
use dbx_plugin_ninty_shell.Session.{
  Session, Effect, cancel_run, Error, Outcome, is_ssh, exec_claim, exec_failed, exec_started,
  finish, cancel, shutdown, mark_dead, shell_config, report_cwd, read_ended, fall_back,
}

-- How far an accepted command is: claimed, its process started, and registered and waited for.
pub data Phase : Type 0 where
  starting : Phase
  started : ℕ → Phase
  running : ℕ → Phase

-- A session and the commands that it has accepted and not finished.
pub record System : Type 0 where
  pub session : Session
  pub flight : List Phase

-- One step of any of the threads that share the session. A command is anywhere in the flight.
pub data Step (t u : System) : Type 0 where
  accept :
      (exec_claim t.session).1 ≡ none
      → u ≡ record { session = (exec_claim t.session).0; flight = starting ∷ t.flight }
      → Step t u
  reject :
      {e : Error}
      → (exec_claim t.session).1 ≡ some e
      → u ≡ record { session = (exec_claim t.session).0; flight = t.flight }
      → Step t u
  fail_start :
      (a b : List Phase)
      → t.flight ≡ a ++ starting ∷ b
      → u ≡ record { session = exec_failed t.session; flight = a ++ b }
      → Step t u
  spawn :
      (a b : List Phase) (r : ℕ)
      → t.flight ≡ a ++ starting ∷ b
      → u ≡ record { session = t.session; flight = a ++ started r ∷ b }
      → Step t u
  register :
      (a b : List Phase) (r : ℕ)
      → t.flight ≡ a ++ started r ∷ b
      → u ≡ record { session = exec_started r t.session; flight = a ++ running r ∷ b }
      → Step t u
  finished :
      (a b : List Phase) (r : ℕ) (o : Outcome)
      → t.flight ≡ a ++ running r ∷ b
      → u ≡ record { session = (finish o t.session).0; flight = a ++ b }
      → Step t u
  cancel_request : u ≡ record { session = (cancel t.session).0; flight = t.flight } → Step t u
  shut : u ≡ record { session = (shutdown t.session).0; flight = t.flight } → Step t u
  die : u ≡ record { session = (mark_dead t.session).0; flight = t.flight } → Step t u
  configure :
      (b : Bool)
      → u ≡ record { session = (shell_config b t.session).0; flight = t.flight }
      → Step t u
  follow :
      (d : Bytes)
      → u ≡ record { session = (report_cwd d t.session).0; flight = t.flight }
      → Step t u
  end_read : u ≡ record { session = (read_ended t.session).0; flight = t.flight } → Step t u
  give_up : u ≡ record { session = (fall_back t.session).0; flight = t.flight } → Step t u

pub data Reach (s : System) : System → Type 0 where
  here : Reach s s
  next : {t u : System} → Reach s t → Step t u → Reach s u

-- A session as it is made: no command claims it.
abbrev pub IsFresh : Session → Type 0
IsFresh s = (s.busy ≡ false) × (s.cancel_fn ≡ none)

abbrev pub fresh : Session → System
fresh s = record { session = s; flight = [] }
