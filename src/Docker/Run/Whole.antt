-- ===== src/Docker/Run/Whole.antt =====
-- What the result of a remote command is worth, and what running it does to the session.
use mathlib.Core.List.{flatten}
use dbx_plugin_ninty_shell.Base.{
  ℕ, ◌≤◌, Bool, true, false, Option, none, some, [], ◌≡◌, ◌⊎◌, inl, inr, refl, arith, ℤ, pos,
  length, ltb, take, take_all, Bool-cases,
}
use dbx_plugin_ninty_shell.Text.{Bytes}
use dbx_plugin_ninty_shell.Stream.{LimitedBuffer, new_buffer, buffer_write_all}
use dbx_plugin_ninty_shell.Stream.Limited.{buffer_refines}
use dbx_plugin_ninty_shell.Session.{Session, is_ssh}
use dbx_plugin_ninty_shell.Docker.{CommandResult}
use dbx_plugin_ninty_shell.Docker.Run.{
  Ending, succeeded, exited, timer_fired, transport_failed, Execution, docker_command_output_limit,
  docker_error_output_limit, Ran, failed_run, plain_run, unless_cut, settle, run_open, run_client,
  run_alive, run_ssh_command_with_timeout,
}

-- The exit status that an ending reports; there is none at the timer or without the transport.
abbrev pub HasStatus : ℤ → Ending → Type 0
HasStatus code succeeded = code ≡ pos 0
HasStatus code (exited status) = code ≡ status
HasStatus code timer_fired = ⊥
HasStatus code (transport_failed e) = ⊥

-- If the result has no error, the command ended, all of its output is there, and the exit code is its
-- status.
abbrev IsWhole : ℕ → Bytes → Ending → CommandResult → Type 0
IsWhole most all ending r =
    r.err ≡ none → (r.stdout ≡ all) × (length all ≤ most) × HasStatus r.exit_code ending

-- The session is as it was, unless the connection was lost.
abbrev IsKept : Option Bytes → Ending → Session → Ran → Type 0
IsKept (some e) ending s ran = Unit
IsKept none (transport_failed e) s ran = Unit
IsKept none succeeded s ran = (ran.1 ≡ s) × (ran.2 ≡ [])
IsKept none (exited status) s ran = (ran.1 ≡ s) × (ran.2 ≡ [])
IsKept none timer_fired s ran = (ran.1 ≡ s) × (ran.2 ≡ [])

-- The SSH session could not be opened, or the transport failed.
abbrev pub IsLost : Option Bytes → Ending → Type 0
IsLost (some e) ending = Unit
IsLost none (transport_failed e) = Unit
IsLost none succeeded = ⊥
IsLost none (exited status) = ⊥
IsLost none timer_fired = ⊥

kept_or_IsLost :
    (s : Session) (ran : Ran) (o : Option Bytes) (ending : Ending)
    → IsKept o ending s ran
    → ((ran.1 ≡ s) × (ran.2 ≡ [])) ⊎ IsLost o ending
kept_or_IsLost s ran (some e) ending h = inr tt
kept_or_IsLost s ran none (transport_failed e) h = inr tt
kept_or_IsLost s ran none succeeded h = inl h
kept_or_IsLost s ran none (exited status) h = inl h
kept_or_IsLost s ran none timer_fired h = inl h

abbrev holding : ℕ → Bytes → LimitedBuffer
holding most all = record {
  buffer = take most all;
  limit = most;
  truncated = ltb most (length all);
}

unless_cut-IsWhole :
    (s : Session) (most : ℕ) (all : Bytes) (errors : LimitedBuffer) (ending : Ending) (ended : Ran)
    → (take most all ≡ all → length all ≤ most → IsWhole most all ending ended.0)
    → IsWhole most all ending (unless_cut s (holding most all) errors ended).0
unfolding unless_cut
unless_cut-IsWhole s most all errors ending ended whole =
    elim (Bool-cases (ltb most (length all))) [
      | inl e ↦ rw (unless_cut, e) (λ h. absurd (ground (arith, h)))
      | inr e ↦
          rw (unless_cut, e) (whole (take_all most all (ground (arith, e))) (ground (arith, e)))
    ]

unchanged-IsKept :
    (s : Session) (r : CommandResult) (o : Option Bytes) (ending : Ending)
    → IsKept o ending s (r, s, [])
unchanged-IsKept s r (some e) ending = tt
unchanged-IsKept s r none (transport_failed e) = tt
unchanged-IsKept s r none succeeded = (refl, refl)
unchanged-IsKept s r none (exited status) = (refl, refl)
unchanged-IsKept s r none timer_fired = (refl, refl)

unless_cut-IsKept :
    (s : Session) (out errors : LimitedBuffer) (r : CommandResult)
    → ((unless_cut s out errors (r, s, [])).1 ≡ s) × ((unless_cut s out errors (r, s, [])).2 ≡ [])
unfolding unless_cut
unless_cut-IsKept s out errors r = elim (Bool-cases out.truncated) [
  | inl e ↦ rw (unless_cut, e) (refl, refl)
  | inr e ↦ rw (unless_cut, e) (refl, refl)
]

module _ (shown : ℕ → Bytes) where
  settle-IsWhole :
      (s : Session) (limit most : ℕ) (all : Bytes) (errors : LimitedBuffer) (ending : Ending)
      → IsWhole most all ending (settle shown s limit (holding most all) errors ending).0
  unfolding settle plain_run
  settle-IsWhole s limit most all errors timer_fired = λ h. absurd (ground (arith, h))
  settle-IsWhole s limit most all errors succeeded =
      unless_cut-IsWhole s most all errors succeeded _ (λ e l h. (e, l, refl))
  settle-IsWhole s limit most all errors (exited status) =
      unless_cut-IsWhole s most all errors (exited status) _ (λ e l h. (e, l, refl))
  settle-IsWhole s limit most all errors (transport_failed e) =
      unless_cut-IsWhole s most all errors (transport_failed e) _
        (λ f l h. absurd (ground (arith, h)))

  settle-IsKept :
      (s : Session) (limit : ℕ) (out errors : LimitedBuffer) (ending : Ending)
      → IsKept none ending s (settle shown s limit out errors ending)
  unfolding settle
  settle-IsKept s limit out errors timer_fired = (refl, refl)
  settle-IsKept s limit out errors succeeded = unless_cut-IsKept s out errors _
  settle-IsKept s limit out errors (exited status) = unless_cut-IsKept s out errors _
  settle-IsKept s limit out errors (transport_failed e) = tt

  run_open_lem :
      (s : Session) (limit : ℕ) (x : Execution) (o : Option Bytes)
      → IsWhole docker_command_output_limit (flatten x.out) x.ending (run_open shown s limit x o).0
        × IsKept o x.ending s (run_open shown s limit x o)
  unfolding run_open
  run_open_lem s limit x (some e) = (λ h. absurd (ground (arith, h)), tt)
  run_open_lem s limit x none =
      let out = buffer_write_all (new_buffer docker_command_output_limit) x.out in
      let errors = buffer_write_all (new_buffer docker_error_output_limit) x.errors in
      (
        rw ((buffer_refines docker_command_output_limit x.out).0)
            (settle-IsWhole s limit docker_command_output_limit (flatten x.out) errors x.ending),
        settle-IsKept s limit out errors x.ending,
      )

  run_client_lem :
      (s : Session) (limit : ℕ) (x : Execution) (client : Option ℕ)
      → IsWhole docker_command_output_limit
          (flatten x.out)
          x.ending
          (run_client shown s limit x client).0
        × IsKept x.open_error x.ending s (run_client shown s limit x client)
  unfolding run_client failed_run
  run_client_lem s limit x none =
      (λ h. absurd (ground (arith, h)), unchanged-IsKept s _ x.open_error x.ending)
  run_client_lem s limit x (some client) = run_open_lem s limit x x.open_error

  run_alive_lem :
      (s : Session) (limit : ℕ) (x : Execution) (dead : Bool)
      → IsWhole docker_command_output_limit
          (flatten x.out)
          x.ending
          (run_alive shown s limit x dead).0
        × IsKept x.open_error x.ending s (run_alive shown s limit x dead)
  unfolding run_alive failed_run
  run_alive_lem s limit x true =
      (λ h. absurd (ground (arith, h)), unchanged-IsKept s _ x.open_error x.ending)
  run_alive_lem s limit x false = run_client_lem s limit x s.ssh_client

  run_lem :
      (s : Session) (limit : ℕ) (x : Execution)
      → IsWhole docker_command_output_limit
          (flatten x.out)
          x.ending
          (run_ssh_command_with_timeout shown s limit x).0
        × IsKept x.open_error x.ending s (run_ssh_command_with_timeout shown s limit x)
  unfolding run_ssh_command_with_timeout failed_run
  run_lem s limit x = elim (Bool-cases (is_ssh s.kind)) [
    | inl e ↦ rw (run_ssh_command_with_timeout, e) (run_alive_lem s limit x s.dead)
    | inr e ↦
        rw (run_ssh_command_with_timeout, e)
          (λ h. absurd (ground (arith, h)), unchanged-IsKept s _ x.open_error x.ending)
  ]

  -- A result without error holds the whole output of the command, which is at most 4 MB, and its exit
  -- status.
  pub run_whole :
      (s : Session) (limit : ℕ) (x : Execution)
      → (run_ssh_command_with_timeout shown s limit x).0.err ≡ none
      → ((run_ssh_command_with_timeout shown s limit x).0.stdout ≡ flatten x.out)
        × (length (flatten x.out) ≤ docker_command_output_limit)
        × HasStatus (run_ssh_command_with_timeout shown s limit x).0.exit_code x.ending
  run_whole s limit x h = (run_lem s limit x).0 h

  -- A remote command leaves the session as it was and closes nothing, unless the SSH session cannot be
  -- opened or the transport fails.
  pub run_keeps :
      (s : Session) (limit : ℕ) (x : Execution)
      → (((run_ssh_command_with_timeout shown s limit x).1 ≡ s)
          × ((run_ssh_command_with_timeout shown s limit x).2 ≡ []))
        ⊎ IsLost x.open_error x.ending
  run_keeps s limit x =
      kept_or_IsLost s (run_ssh_command_with_timeout shown s limit x) x.open_error x.ending
        ((run_lem s limit x).1)
