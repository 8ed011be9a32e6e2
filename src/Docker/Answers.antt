-- ===== src/Docker/Answers.antt =====
-- What holds of every request of the Docker panel, whatever the remote host answers.
use dbx_plugin_ninty_shell.Base.{
  ℕ, Bool, true, false, not, ◌||◌, Option, none, some, ◌⊎◌, inl, inr, ◌≡◌, refl, Bool-cases,
}
use dbx_plugin_ninty_shell.Text.{Bytes}
use dbx_plugin_ninty_shell.Plugin.{Rejection}
use dbx_plugin_ninty_shell.Session.{Session}
use dbx_plugin_ninty_shell.Docker.{
  Failure, CommandResult, is_zero, docker_command_message, docker_error_message,
}
use dbx_plugin_ninty_shell.Docker.Ids.{IfRead}
use dbx_plugin_ninty_shell.Docker.Panel.{
  Talk, answer, ask, Answer, failed, on_session, if_ok, if_run, if_zero, unless_error, if_parsed,
}

-- The answer reports a failure.
abbrev pub IsFailure : Talk → Type 0
IsFailure t = (message : Bytes) × (t ≡ answer (failed message))

-- Each command satisfies the first predicate; a result that satisfies the second is answered by a
-- failure at once.
unfoldable pub AllAsks : (Bytes → Type 0) → (CommandResult → Bool) → Talk → Type 0
AllAsks P bad (answer a) = Unit
AllAsks P bad (ask command limit k) =
    P command
    × ((r : CommandResult) → (bad r ≡ false) ⊎ IsFailure (k r))
    × ((r : CommandResult) → AllAsks P bad (k r))

abbrev has_failed : Option Failure → Bool
has_failed none = false
has_failed (some e) = true

-- The command could not be run to its end.
abbrev pub is_broken : CommandResult → Bool
is_broken r = has_failed r.err

abbrev pub lacks_success : Option Failure → Bool → Bool
lacks_success e zero = has_failed e || not zero

-- It could not, or it ended with an exit code that is not 0.
abbrev pub is_unsuccessful : CommandResult → Bool
is_unsuccessful r = lacks_success r.err (is_zero r.exit_code)

module _ (P : Bytes → Type 0) (bad : CommandResult → Bool) where
  -- An answer asks for nothing.
  pub answer-AllAsks : (a : Answer) → AllAsks P bad (answer a)
  unfolding AllAsks
  answer-AllAsks a = tt

  pub if_parsed-AllAsks :
      {A : Type 0} (Q : A → Type 0) (next : A → Talk)
      → ((a : A) → Q a → AllAsks P bad (next a))
      → (r : Bytes ⊎ A) → IfRead Q r
      → AllAsks P bad (if_parsed next r)
  unfolding AllAsks if_parsed
  if_parsed-AllAsks Q next h (inl err) q = tt
  if_parsed-AllAsks Q next h (inr a) q = h a q

  pub if_parsed-any :
      {A : Type 0} (next : A → Talk)
      → ((a : A) → AllAsks P bad (next a))
      → (r : Bytes ⊎ A) → AllAsks P bad (if_parsed next r)
  unfolding AllAsks if_parsed
  if_parsed-any next h (inl err) = tt
  if_parsed-any next h (inr a) = h a

  unless_error-AllAsks :
      (operation : Bytes) (next : CommandResult → Talk) (r : CommandResult)
      → AllAsks P bad (next r)
      → (e : Option Failure) → AllAsks P bad (unless_error operation next r e)
  unfolding AllAsks unless_error
  unless_error-AllAsks operation next r h none = h
  unless_error-AllAsks operation next r h (some e) = tt

  pub if_run-AllAsks :
      (operation : Bytes) (next : CommandResult → Talk) (r : CommandResult)
      → AllAsks P bad (next r)
      → AllAsks P bad (if_run operation next r)
  unfolding if_run
  if_run-AllAsks operation next r h = unless_error-AllAsks operation next r h r.err

  pub if_zero-AllAsks :
      (next : CommandResult → Talk) (r : CommandResult)
      → AllAsks P bad (next r)
      → AllAsks P bad (if_zero next r)
  unfolding AllAsks if_zero
  if_zero-AllAsks next r h = elim (Bool-cases (is_zero r.exit_code)) [
    | inl z ↦ rw z h
    | inr z ↦ rw z tt
  ]

  pub if_ok-AllAsks :
      (operation : Bytes) (next : CommandResult → Talk) (r : CommandResult)
      → AllAsks P bad (next r)
      → AllAsks P bad (if_ok operation next r)
  unfolding if_ok
  if_ok-AllAsks operation next r h =
      if_run-AllAsks operation (if_zero next) r (if_zero-AllAsks next r h)

  pub on_session-AllAsks :
      (k : Session → Talk)
      → ((s : Session) → AllAsks P bad (k s))
      → (r : Rejection ⊎ Session) → AllAsks P bad (on_session k r)
  unfolding AllAsks on_session
  on_session-AllAsks k h (inl r) = tt
  on_session-AllAsks k h (inr s) = h s

-- A broken command is answered by a failure, and under `if_ok` one without success.
unless_error-fails :
    (operation : Bytes) (next : CommandResult → Talk) (r : CommandResult) (e : Option Failure)
    → (has_failed e ≡ false) ⊎ IsFailure (unless_error operation next r e)
unfolding unless_error
unless_error-fails operation next r none = inl refl
unless_error-fails operation next r (some e) = inr (docker_error_message e operation, refl)

if_run-fails :
    (operation : Bytes) (next : CommandResult → Talk) (r : CommandResult)
    → (is_broken r ≡ false) ⊎ IsFailure (if_run operation next r)
unfolding if_run
if_run-fails operation next r = unless_error-fails operation next r r.err

zero-fails :
    (operation : Bytes) (next : CommandResult → Talk) (r : CommandResult) (e : Option Failure)
    → (lacks_success e (is_zero r.exit_code) ≡ false)
      ⊎ IsFailure (unless_error operation (if_zero next) r e)
unfolding unless_error if_zero
zero-fails operation next r (some e) = inr (docker_error_message e operation, refl)
zero-fails operation next r none = elim (Bool-cases (is_zero r.exit_code)) [
  | inl z ↦ inl (rw z refl)
  | inr z ↦ inr (docker_command_message r, rw z refl)
]

if_ok-fails :
    (operation : Bytes) (next : CommandResult → Talk) (r : CommandResult)
    → (is_unsuccessful r ≡ false) ⊎ IsFailure (if_ok operation next r)
unfolding if_ok if_run
if_ok-fails operation next r = zero-fails operation next r r.err

-- A command whose result goes through `if_run` or `if_ok`.
module _ (P : Bytes → Type 0) where
  pub ask-if_run :
      (operation command : Bytes) (limit : ℕ) (ended : CommandResult → Talk)
      → P command
      → ((r : CommandResult) → AllAsks P is_broken (ended r))
      → AllAsks P is_broken (ask command limit (if_run operation ended))
  unfolding AllAsks
  ask-if_run operation command limit ended h each =
      (h, if_run-fails operation ended, λ r. if_run-AllAsks P is_broken operation ended r (each r))

  pub ask-if_ok :
      (operation command : Bytes) (limit : ℕ) (next : CommandResult → Talk)
      → P command
      → ((r : CommandResult) → AllAsks P is_unsuccessful (next r))
      → AllAsks P is_unsuccessful (ask command limit (if_ok operation next))
  unfolding AllAsks
  ask-if_ok operation command limit next h each = (
    h,
    if_ok-fails operation next,
    λ r. if_ok-AllAsks P is_unsuccessful operation next r (each r),
  )

  pub ask-if_ok-broken :
      (operation command : Bytes) (limit : ℕ) (next : CommandResult → Talk)
      → P command
      → ((r : CommandResult) → AllAsks P is_broken (next r))
      → AllAsks P is_broken (ask command limit (if_ok operation next))
  unfolding if_ok
  ask-if_ok-broken operation command limit next h each =
      ask-if_run operation command limit (if_zero next) h
        (λ r. if_zero-AllAsks P is_broken next r (each r))
