-- ===== src/Session/Exec/Agreement.antt =====
-- The busy flag and the cancel hook of a session agree with the commands in flight.
use mathlib.Core.Path.{subst, subst₂}
use dbx_plugin_ninty_shell.Base.{
  ℕ, Bool, true, false, none, some, List, [], ◌∷◌, ◌++◌, ◌≡◌, ◌⊎◌, inr, refl, arith,
}
use dbx_plugin_ninty_shell.Text.{Bytes}
use dbx_plugin_ninty_shell.Session.{
  Session, Error, Outcome, exec_claim, exec_failed, exec_started, finish, cancel, shutdown,
  mark_dead, shell_config, report_cwd, read_ended, fall_back,
}
use dbx_plugin_ninty_shell.Session.Exec.{
  Phase, starting, started, running, System, Step, accept, reject, fail_start, spawn, register,
  finished, cancel_request, shut, die, configure, follow, end_read, give_up,
}

-- The slot and the hooks agree with the flight.
abbrev pub Agrees : Session → List Phase → Type 0
Agrees s [] = (s.busy ≡ false) × (s.cancel_fn ≡ none)
Agrees s (starting ∷ []) = (s.busy ≡ true) × (s.cancel_fn ≡ none)
Agrees s (started r ∷ []) = (s.busy ≡ true) × (s.cancel_fn ≡ none)
Agrees s (running r ∷ []) =
    (s.busy ≡ true) × (s.done ≡ some r) × ((s.cancel_fn ≡ none) ⊎ (s.cancel_fn ≡ some r))
Agrees s (p ∷ q ∷ ps) = ⊥

alone : (s : Session) (a b : List Phase) (p : Phase) → Agrees s (a ++ p ∷ b) → (a ≡ []) × (b ≡ [])
alone s [] [] p h = (refl, refl)
alone s [] (q ∷ b) starting h = absurd h
alone s [] (q ∷ b) (started r) h = absurd h
alone s [] (q ∷ b) (running r) h = absurd h
alone s (x ∷ []) b p h = absurd h
alone s (x ∷ y ∷ a) b p h = absurd h

-- What keeps the slot and the hooks keeps the agreement.
module _ (s s' : Session) (busy : s'.busy ≡ s.busy) (done : s'.done ≡ s.done) where
  kept : (fl : List Phase) → s'.cancel_fn ≡ s.cancel_fn → Agrees s fl → Agrees s' fl
  kept [] e h = ground arith
  kept (starting ∷ []) e h = ground arith
  kept (started r ∷ []) e h = ground arith
  kept (running r ∷ []) e h = ground arith
  kept (p ∷ q ∷ ps) e h = h

  -- so does what drops the hook
  dropped : (fl : List Phase) → s'.cancel_fn ≡ none → Agrees s fl → Agrees s' fl
  dropped [] e h = ground arith
  dropped (starting ∷ []) e h = ground arith
  dropped (started r ∷ []) e h = ground arith
  dropped (running r ∷ []) e h = ground arith
  dropped (p ∷ q ∷ ps) e h = h

claim-Agrees :
    (s : Session) (fl : List Phase)
    → (exec_claim s).1 ≡ none
    → Agrees s fl
    → Agrees (exec_claim s).0 (starting ∷ fl)
unfolding exec_claim
claim-Agrees s [] e h = ground arith
claim-Agrees s (starting ∷ []) e h = ground arith
claim-Agrees s (started r ∷ []) e h = ground arith
claim-Agrees s (running r ∷ []) e h = ground arith
claim-Agrees s (p ∷ q ∷ ps) e h = h

claim_refused : (s : Session) {x : Error} → (exec_claim s).1 ≡ some x → (exec_claim s).0 ≡ s
unfolding exec_claim
claim_refused s e = ground arith

fail-Agrees : (s : Session) → Agrees s (starting ∷ []) → Agrees (exec_failed s) []
unfolding exec_failed
fail-Agrees s h = ground arith

register-Agrees :
    (s : Session) (r : ℕ) → Agrees s (started r ∷ []) → Agrees (exec_started r s) (running r ∷ [])
unfolding exec_started
register-Agrees s r h = (h.0, refl, inr refl)

finish-Agrees : (s : Session) (r : ℕ) (o : Outcome) → Agrees (finish o s).0 []
unfolding finish
finish-Agrees s r o = (refl, refl)

cancel_keeps :
    (s : Session)
    → ((cancel s).0.busy ≡ s.busy)
      × ((cancel s).0.done ≡ s.done)
      × ((cancel s).0.cancel_fn ≡ s.cancel_fn)
unfolding cancel
cancel_keeps s = ground arith

mark_dead_keeps :
    (s : Session)
    → ((mark_dead s).0.busy ≡ s.busy)
      × ((mark_dead s).0.done ≡ s.done)
      × ((mark_dead s).0.cancel_fn ≡ s.cancel_fn)
unfolding mark_dead
mark_dead_keeps s = (refl, refl, refl)

shutdown_drops :
    (s : Session)
    → ((shutdown s).0.busy ≡ s.busy)
      × ((shutdown s).0.done ≡ s.done)
      × ((shutdown s).0.cancel_fn ≡ none)
unfolding shutdown
shutdown_drops s = ground arith

config_keeps :
    (b : Bool) (s : Session)
    → ((shell_config b s).0.busy ≡ s.busy)
      × ((shell_config b s).0.done ≡ s.done)
      × ((shell_config b s).0.cancel_fn ≡ s.cancel_fn)
unfolding shell_config
config_keeps b s = (refl, refl, refl)

report_keeps :
    (d : Bytes) (s : Session)
    → ((report_cwd d s).0.busy ≡ s.busy)
      × ((report_cwd d s).0.done ≡ s.done)
      × ((report_cwd d s).0.cancel_fn ≡ s.cancel_fn)
unfolding report_cwd
report_keeps d s = ground arith

read_keeps :
    (s : Session)
    → ((read_ended s).0.busy ≡ s.busy)
      × ((read_ended s).0.done ≡ s.done)
      × ((read_ended s).0.cancel_fn ≡ s.cancel_fn)
unfolding read_ended
read_keeps s = ground arith

fall_back_keeps :
    (s : Session)
    → ((fall_back s).0.busy ≡ s.busy)
      × ((fall_back s).0.done ≡ s.done)
      × ((fall_back s).0.cancel_fn ≡ s.cancel_fn)
unfolding fall_back
fall_back_keeps s = ground arith

-- A command somewhere in the flight is all of it.
only :
    (P : List Phase → List Phase → Type 0) (s : Session) (fl a b : List Phase) (p : Phase)
    → fl ≡ a ++ p ∷ b
    → Agrees s fl
    → (Agrees s (p ∷ []) → P [] [])
    → P a b
only P s fl a b p e h f =
    let h' : Agrees s (a ++ p ∷ b) = subst (Agrees s) e h in
    let (ea, eb) = alone s a b p h' in
    rw (ea, eb) (f (subst₂ (λ a b. Agrees s (a ++ p ∷ b)) ea eb h'))

pub Step-Agrees : {t u : System} → Step t u → Agrees t.session t.flight → Agrees u.session u.flight
Step-Agrees {t} (accept ok e) h = rw e (claim-Agrees t.session t.flight ok h)
Step-Agrees {t} (reject refused e) h = rw (e, claim_refused t.session refused) h
Step-Agrees {t} (fail_start a b f e) h = rw e (
    only (λ a b. Agrees (exec_failed t.session) (a ++ b)) t.session t.flight a b starting f h
      (fail-Agrees t.session))
Step-Agrees {t} (spawn a b r f e) h = rw e (
    only (λ a b. Agrees t.session (a ++ started r ∷ b)) t.session t.flight a b starting f h
      (λ k. k))
Step-Agrees {t} (register a b r f e) h = rw e (
    only (λ a b. Agrees (exec_started r t.session) (a ++ running r ∷ b)) t.session t.flight a b
      (started r) f h (register-Agrees t.session r))
Step-Agrees {t} (finished a b r o f e) h = rw e (
    only (λ a b. Agrees (finish o t.session).0 (a ++ b)) t.session t.flight a b (running r) f h
      (λ _. finish-Agrees t.session r o))
Step-Agrees {t} (cancel_request e) h =
    let (k, l, m) = cancel_keeps t.session in
    rw e (kept t.session (cancel t.session).0 k l t.flight m h)
Step-Agrees {t} (shut e) h =
    let (k, l, m) = shutdown_drops t.session in
    rw e (dropped t.session (shutdown t.session).0 k l t.flight m h)
Step-Agrees {t} (die e) h =
    let (k, l, m) = mark_dead_keeps t.session in
    rw e (kept t.session (mark_dead t.session).0 k l t.flight m h)
Step-Agrees {t} (configure b e) h =
    let (k, l, m) = config_keeps b t.session in
    rw e (kept t.session (shell_config b t.session).0 k l t.flight m h)
Step-Agrees {t} (follow d e) h =
    let (k, l, m) = report_keeps d t.session in
    rw e (kept t.session (report_cwd d t.session).0 k l t.flight m h)
Step-Agrees {t} (end_read e) h =
    let (k, l, m) = read_keeps t.session in
    rw e (kept t.session (read_ended t.session).0 k l t.flight m h)
Step-Agrees {t} (give_up e) h =
    let (k, l, m) = fall_back_keeps t.session in
    rw e (kept t.session (fall_back t.session).0 k l t.flight m h)
