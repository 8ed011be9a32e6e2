-- ===== src/Session/Scenarios.antt =====
-- A session at work.
use dbx_plugin_ninty_shell.Base.{ℕ, ◌≤◌, ◌&&◌, true, false, none, some, [], ◌∷◌, ◌≡◌, ◌↔◌, refl}
use dbx_plugin_ninty_shell.Session.{
  local_shell, ssh, Session, still_running, is_ssh, cancel_run, close_pty, on_some, exec_claim,
  exec_started, cancel, shutdown,
}
use dbx_plugin_ninty_shell.Session.Exec.{
  System, Reach, here, next, starting, started, running, accept, spawn, register, fresh,
}
use dbx_plugin_ninty_shell.Session.Exec.Exclusion
use dbx_plugin_ninty_shell.Session.Shutdown
use dbx_plugin_ninty_shell.Session.Shutdown.{ClosesAll}
use dbx_plugin_ninty_shell.Session.Fixtures.{new_session}

abbrev claimed : System
claimed = record { session = (exec_claim (new_session local_shell)).0; flight = starting ∷ [] }

abbrev spawned : System
spawned = record { session = claimed.session; flight = started 7 ∷ [] }

abbrev registered : System
registered = record { session = exec_started 7 claimed.session; flight = running 7 ∷ [] }

to_claimed : Reach (fresh (new_session local_shell)) claimed
unfolding exec_claim
to_claimed = next here (accept refl refl)

to_registered : Reach (fresh (new_session local_shell)) registered
unfolding exec_claim exec_started
to_registered =
    next {t = spawned} (next {t = claimed} {u = spawned} to_claimed (spawn [] [] 7 refl refl))
      (register [] [] 7 refl refl)

one_command_example :
    (1 ≤ 1)
    × ((is_ssh registered.session.kind && registered.session.dead) ≡ false
        → ((exec_claim registered.session).1 ≡ none) ↔ (registered.flight ≡ []))
one_command_example = Exclusion.one_command {t = registered} (refl, refl) to_registered

cancel_hits_running_example :
    (((cancel registered.session).2 ≡ true) ↔ (
      (r : ℕ) × ((cancel registered.session).1 ≡ cancel_run r ∷ [])
      × ((cancel registered.session).0.cancelled ≡ true)))
    × ((r : ℕ)
        → (cancel registered.session).1 ≡ cancel_run r ∷ []
        → registered.flight ≡ running r ∷ [])
cancel_hits_running_example =
    Exclusion.cancel_hits_running {t = registered} (refl, refl) to_registered

late_start_example :
    ((shutdown claimed.session).1 ≡ on_some claimed.session.local_pty close_pty)
    × ((exec_started 7 (shutdown claimed.session).0).cancel_fn ≡ some 7)
    × ((exec_started 7 (shutdown claimed.session).0).stopping ≡ true)
unfolding exec_claim
late_start_example = Shutdown.late_start {t = claimed} (refl, refl) to_claimed refl refl 7

second_refused : (exec_claim registered.session).1 ≡ some still_running
unfolding exec_claim exec_started
second_refused = refl

abbrev busy_session : Session
busy_session = record (new_session ssh) {
  sftp_conn = some 3;
  root_sftp_conn = some 4;
  root_sftp_session = some 5;
  busy = true;
  cancel_fn = some 6;
}

abbrev closed : Session
closed = (shutdown busy_session).0

shutdown_releases_example :
    ClosesAll busy_session (shutdown busy_session).1
    × (closed.cancel_fn ≡ none)
    × (closed.pty_session ≡ none)
    × (closed.sftp_conn ≡ none)
    × (closed.root_sftp_conn ≡ none)
    × (closed.root_sftp_session ≡ none)
    × (closed.root_password ≡ [])
    × (closed.dead ≡ true)
    × (shutdown closed ≡ (closed, on_some none close_pty))
shutdown_releases_example = Shutdown.shutdown_releases busy_session refl
