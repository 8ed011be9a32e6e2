-- ===== src/Session/Exec/Exclusion.antt =====
-- One command at a time, and cancellation of that command.
use dbx_plugin_ninty_shell.Base.{
  ℕ, ◌≤◌, true, false, none, List, [], ◌∷◌, ◌≡◌, ◌↔◌, ◌&&◌, inl, inr, arith, length, Option-cases,
}
use dbx_plugin_ninty_shell.Session.{Session, cancel_run, is_ssh, exec_claim, cancel}
use dbx_plugin_ninty_shell.Session.Exec.Agreement.{Agrees, Step-Agrees}
use dbx_plugin_ninty_shell.Session.Exec.{
  Phase, starting, started, running, System, Reach, here, next, IsFresh, fresh,
}

pub Reach-Agrees :
    {s : Session} {t : System} → IsFresh s → Reach (fresh s) t → Agrees t.session t.flight
Reach-Agrees f here = f
Reach-Agrees f (next r st) = Step-Agrees st (Reach-Agrees f r)

Agrees-one : (s : Session) (fl : List Phase) → Agrees s fl → length fl ≤ 1
Agrees-one s [] h = omega arith
Agrees-one s (p ∷ []) h = omega arith
Agrees-one s (p ∷ q ∷ ps) h = absurd h

Agrees-accepts :
    (s : Session) (fl : List Phase)
    → Agrees s fl
    → (is_ssh s.kind && s.dead) ≡ false
    → ((exec_claim s).1 ≡ none) ↔ (fl ≡ [])
unfolding exec_claim
Agrees-accepts s [] h l = ground arith
Agrees-accepts s (starting ∷ []) h l = ground arith
Agrees-accepts s (started r ∷ []) h l = ground arith
Agrees-accepts s (running r ∷ []) h l = ground arith
Agrees-accepts s (p ∷ q ∷ ps) h l = absurd h

-- However requests, process events and shutdowns interleave, a session has at most one command that
-- it has accepted and that is not finished; and unless its SSH connection is lost, it accepts a
-- command exactly when there is none.
pub one_command :
    {s : Session} {t : System}
    → IsFresh s
    → Reach (fresh s) t
    → (length t.flight ≤ 1)
      × ((is_ssh t.session.kind && t.session.dead) ≡ false
          → ((exec_claim t.session).1 ≡ none) ↔ (t.flight ≡ []))
one_command {t} f r = (
  Agrees-one t.session t.flight (Reach-Agrees f r),
  Agrees-accepts t.session t.flight (Reach-Agrees f r),
)

Agrees-cancels :
    (s : Session) (fl : List Phase) (r : ℕ)
    → Agrees s fl
    → (cancel s).1 ≡ cancel_run r ∷ []
    → fl ≡ running r ∷ []
unfolding cancel
Agrees-cancels s [] r h e = ground arith
Agrees-cancels s (starting ∷ []) r h e = ground arith
Agrees-cancels s (started q ∷ []) r h e = ground arith
Agrees-cancels s (running q ∷ []) r h e = ground arith
Agrees-cancels s (p ∷ q ∷ ps) r h e = absurd h

cancel_answer :
    (s : Session)
    → ((cancel s).2 ≡ true)
      ↔ ((r : ℕ) × ((cancel s).1 ≡ cancel_run r ∷ []) × ((cancel s).0.cancelled ≡ true))
unfolding cancel
cancel_answer s = (
  λ e. elim (Option-cases s.cancel_fn) [
    | inl none_there ↦ absurd (ground arith)
    | inr (r, there) ↦ (r, ground arith, ground arith)
  ],
  λ (r, e, marked). ground arith,
)

-- A cancel request answers true exactly when it cancels a command, which the session then marks as
-- cancelled; and the command that it cancels is the one that is running, never another.
pub cancel_hits_running :
    {s : Session} {t : System}
    → IsFresh s
    → Reach (fresh s) t
    → (((cancel t.session).2 ≡ true) ↔ (
        (r : ℕ) × ((cancel t.session).1 ≡ cancel_run r ∷ [])
        × ((cancel t.session).0.cancelled ≡ true)))
      × ((r : ℕ) → (cancel t.session).1 ≡ cancel_run r ∷ [] → t.flight ≡ running r ∷ [])
cancel_hits_running {t} f r =
    (cancel_answer t.session, λ q e. Agrees-cancels t.session t.flight q (Reach-Agrees f r) e)
