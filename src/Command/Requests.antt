-- ===== src/Command/Requests.antt =====
-- How a request to run a command ends.
use mathlib.Core.Path.{subst}
use dbx_plugin_ninty_shell.Base.{
  ℕ, false, ◌&&◌, Option, none, some, List, [], ◌++◌, ◌≡◌, refl, arith, ◌⊎◌, inl, inr, Bool-cases,
  ap, sym, ◌∙◌,
}
use dbx_plugin_ninty_shell.Text.{Bytes, codes, is_empty, trim_space}
use dbx_plugin_ninty_shell.Request.{Json, request_session_id, string_field}
use dbx_plugin_ninty_shell.Session.{
  Session, Effect, Error, is_ssh, exec_claim, exec_failed, exec_started,
}
use dbx_plugin_ninty_shell.Plugin.{Sessions, find_session}
use dbx_plugin_ninty_shell.Command.{
  Reply, refused, not_started, started, Started, exec_ended, exec_claimed, exec_found, exec_command,
}

-- Refused, with the session, if there is one, as it was and nothing closed; accepted and not started, with
-- the slot free again and the error of the start; or started, with the run to be cancelled and waited for.
pub data ExecOutcome (start : Session → Bytes → Started) (before : Session → Session)
    (sessions : Sessions) (values : Json) (r : Option Session × List Effect × Reply) : Type 0 where
  was_refused :
      (e : Error)
      → r.2 ≡ refused e
      → r.1 ≡ []
      → (r.0 ≡ none) ⊎ (r.0 ≡ find_session sessions (request_session_id values))
      → ExecOutcome start before sessions values r
  start_failed :
      (s free : Session) (text : Bytes)
      → find_session sessions (request_session_id values) ≡ some s
      → (exec_claim s).1 ≡ none
      → (start (before (exec_claim s).0) (string_field values (codes "command"))).2 ≡ inl text
      → r.2 ≡ not_started (codes "Failed to start command: " ++ text)
      → r.0 ≡ some free
      → free.busy ≡ false
      → ExecOutcome start before sessions values r
  was_started :
      (s running : Session) (run : ℕ)
      → find_session sessions (request_session_id values) ≡ some s
      → (exec_claim s).1 ≡ none
      → (start (before (exec_claim s).0) (string_field values (codes "command"))).2 ≡ inr run
      → r.2 ≡ started (request_session_id values)
      → r.0 ≡ some running
      → running.cancel_fn ≡ some run
      → running.done ≡ some run
      → ExecOutcome start before sessions values r

-- A refused claim leaves the session as it was.
claim_refused : (s : Session) (e : Error) → (exec_claim s).1 ≡ some e → (exec_claim s).0 ≡ s
unfolding exec_claim
claim_refused s e h = elim (Bool-cases (is_ssh s.kind && s.dead)) [
  | inl lost ↦ rw lost refl
  | inr alive ↦ ground (arith, alive, h)
]

module _ (start : Session → Bytes → Started) (before later : Session → Session)
    (sessions : Sessions) (values : Json) where
  abbrev id : Bytes
  id = request_session_id values

  abbrev command : Bytes
  command = string_field values (codes "command")

  abbrev Outcome : Option Session × List Effect × Reply → Type 0
  Outcome = ExecOutcome start before sessions values

  -- The answer with the session that is there.
  abbrev on_found : Session × List Effect × Reply → Option Session × List Effect × Reply
  on_found (s, closing, r) = (some s, closing, r)

  ended_outcome :
      (s : Session) (r : Started)
      → find_session sessions id ≡ some s
      → (exec_claim s).1 ≡ none
      → start (before (exec_claim s).0) command ≡ r
      → Outcome (on_found (exec_ended id later r))
  unfolding exec_ended exec_failed exec_started
  ended_outcome s (s', closing, inl text) found free e =
      start_failed s (exec_failed (later s')) text found free (ap (λ r. r.2) e) refl refl refl
  ended_outcome s (s', closing, inr run) found free e =
      was_started s (exec_started run (later s')) run found free (ap (λ r. r.2) e) refl refl refl
        refl

  claimed_outcome :
      (s : Session) (c : Option Error)
      → find_session sessions id ≡ some s
      → (exec_claim s).1 ≡ c
      → Outcome (on_found (exec_claimed start before later id command ((exec_claim s).0, c)))
  unfolding exec_claimed
  claimed_outcome s none found e = ended_outcome s _ found e refl
  claimed_outcome s (some refusal) found e =
      was_refused refusal refl refl (inr (ap some (claim_refused s refusal e) ∙ sym found))

  found_outcome :
      (o : Option Session)
      → find_session sessions id ≡ o
      → Outcome (exec_found start before later id command o)
  unfolding exec_found
  found_outcome none found = was_refused _ refl refl (inl refl)
  found_outcome (some s) found =
      subst (λ c. Outcome (on_found (exec_claimed start before later id command c))) refl
        (claimed_outcome s (exec_claim s).1 found refl)

  -- A request to run a command is refused, and leaves the session as it was; or the command is accepted, and
  -- then either its start fails, the session is free for the next one and the error is answered, or the
  -- run is registered in the session that the request names.
  pub exec_command_outcome : Outcome (exec_command start before later sessions values)
  unfolding exec_command
  exec_command_outcome = elim (Bool-cases (is_empty id)) [
    | inl e ↦ rw e (was_refused _ refl refl (inl refl))
    | inr e ↦ elim (Bool-cases (is_empty (trim_space command))) [
      | inl f ↦ rw (e, f) (was_refused _ refl refl (inl refl))
      | inr f ↦ rw (e, f) (found_outcome (find_session sessions id) refl)
    ]
  ]
