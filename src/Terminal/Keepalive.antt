-- ===== src/Terminal/Keepalive.antt =====
-- The keepalive loop of an SSH session.
use dbx_plugin_ninty_shell.Base.{
  ℕ, Bool, true, false, Option, none, some, List, [], ◌∷◌, ◌≡◌, refl, if◌then◌else◌,
}
use dbx_plugin_ninty_shell.Text.{Bytes}
use dbx_plugin_ninty_shell.Session.{Session, Effect, mark_dead}
use dbx_plugin_ninty_shell.Terminal.{tick_request, tick_client, tick_alive, keepalive_tick}

-- What other requests made of the session before a tick, and the error of its request.
pub record Tick : Type 0 where
  pub meanwhile : Session → Session
  pub refusal : Option Bytes

-- The flag is whether the loop still runs behind these ticks.
unfoldable pub keepalive_loop : List Tick → Session → Session × List Effect × Bool
keepalive_loop [] s = (s, [], true)
keepalive_loop (t ∷ ts) s =
    let (s', closing, goes_on) = keepalive_tick (t.meanwhile s) t.refusal in
    let later = keepalive_loop ts s' in if goes_on then later else (s', closing, false)

-- The loop runs and has closed nothing, or it has ended, and the connection is lost or has no client.
pub data LoopOutcome (r : Session × List Effect × Bool) : Type 0 where
  runs : r.2 ≡ true → r.1 ≡ [] → LoopOutcome r
  ended_lost : r.2 ≡ false → r.0.dead ≡ true → LoopOutcome r
  ended_closed : r.2 ≡ false → r.0.ssh_client ≡ none → LoopOutcome r

tick_request_outcome : (s : Session) (refusal : Option Bytes) → LoopOutcome (tick_request s refusal)
unfolding tick_request mark_dead
tick_request_outcome s none = runs refl refl
tick_request_outcome s (some err) = ended_lost refl refl

tick_client_outcome :
    (s : Session) (refusal : Option Bytes) (client : Option ℕ)
    → s.ssh_client ≡ client
    → LoopOutcome (tick_client s refusal client)
unfolding tick_client
tick_client_outcome s refusal none e = ended_closed refl e
tick_client_outcome s refusal (some client) e = tick_request_outcome s refusal

tick_alive_outcome :
    (s : Session) (refusal : Option Bytes) (dead : Bool)
    → s.dead ≡ dead
    → LoopOutcome (tick_alive s refusal dead)
unfolding tick_alive
tick_alive_outcome s refusal true e = ended_lost refl e
tick_alive_outcome s refusal false e = tick_client_outcome s refusal s.ssh_client refl

go_on_outcome :
    (r later : Session × List Effect × Bool)
    → LoopOutcome r
    → LoopOutcome later
    → LoopOutcome (if r.2 then later else (r.0, r.1, false))
go_on_outcome r later (runs on nothing) h = rw on h
go_on_outcome r later (ended_lost off lost) h = rw off (ended_lost refl lost)
go_on_outcome r later (ended_closed off none_left) h = rw off (ended_closed refl none_left)

-- Whatever other requests do meanwhile, the keepalive loop runs and closes nothing, until it ends with
-- the connection lost or without a client.
pub keepalive_outcome : (ts : List Tick) (s : Session) → LoopOutcome (keepalive_loop ts s)
unfolding keepalive_loop keepalive_tick
keepalive_outcome [] s = runs refl refl
keepalive_outcome (t ∷ ts) s =
    let r = keepalive_tick (t.meanwhile s) t.refusal in
    go_on_outcome r (keepalive_loop ts r.0)
      (tick_alive_outcome (t.meanwhile s) t.refusal (t.meanwhile s).dead refl)
      (keepalive_outcome ts r.0)
