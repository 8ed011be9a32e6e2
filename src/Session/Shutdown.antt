-- ===== src/Session/Shutdown.antt =====
-- What a shutdown leaves behind.
use mathlib.Core.Path.{subst}
use dbx_plugin_ninty_shell.Base.{
  ℕ, true, false, none, some, [], ◌∷◌, ◌≡◌, refl, arith, append-nil, append_assoc, ap, sym, ◌∙◌,
  Option, List, ◌++◌, ◌⊎◌, inl, inr, Bool-cases, if◌then◌else◌,
}
use dbx_plugin_ninty_shell.Session.{
  Session, ssh, local_shell, close_pty, on_some, shutdown, Effect, cancel_run, close_pty_session,
  close_sftp, close_root_sftp, close_root_session, close_client, read_ended, fall_back,
  exec_started,
}
use dbx_plugin_ninty_shell.Session.Exec.{System, Reach, starting, IsFresh, fresh}
use dbx_plugin_ninty_shell.Session.Exec.Agreement.{Agrees}
use dbx_plugin_ninty_shell.Session.Exec.Exclusion.{Reach-Agrees}

-- If there is a handle, the effects hold its closing.
abbrev pub IsClosed : (ℕ → Effect) → Option ℕ → List Effect → Type 0
IsClosed close none es = Unit
IsClosed close (some h) es = (before after : List Effect) × (es ≡ before ++ close h ∷ after)

IsClosed-here :
    (close : ℕ → Effect) (o : Option ℕ) (es : List Effect)
    → IsClosed close o (on_some o close ++ es)
IsClosed-here close none es = tt
IsClosed-here close (some h) es = ([], es, refl)

IsClosed-behind :
    (close : ℕ → Effect) (o : Option ℕ) (front es : List Effect)
    → IsClosed close o es
    → IsClosed close o (front ++ es)
IsClosed-behind close none front es h = tt
IsClosed-behind close (some g) front es (before, after, e) = (
  front ++ before,
  after,
  ap (λ t. front ++ t) e ∙ sym (append_assoc front before (close g ∷ after)),
)

-- All that `shutdown` does to a remote session, in order.
abbrev remote_closing : Session → List Effect
remote_closing s =
    on_some s.cancel_fn cancel_run
    ++ (on_some s.local_pty close_pty
        ++ (on_some s.pty_session close_pty_session
            ++ (on_some s.sftp_conn close_sftp
                ++ (on_some s.root_sftp_conn close_root_sftp
                    ++ (on_some s.root_sftp_session close_root_session
                        ++ (if s.dead then [] else on_some s.ssh_client close_client))))))

shutdown_closing : (s : Session) → s.kind ≡ ssh → (shutdown s).1 ≡ remote_closing s
unfolding shutdown
shutdown_closing s e =
    ground (arith, e)
    ∙ append_assoc (on_some s.cancel_fn cancel_run) (on_some s.local_pty close_pty) _

client-IsClosed :
    (s : Session)
    → (s.dead ≡ true)
      ⊎ IsClosed close_client s.ssh_client
          (if s.dead then [] else on_some s.ssh_client close_client)
client-IsClosed s = elim (Bool-cases s.dead) [
  | inl e ↦ inl e
  | inr e ↦ inr (
      rw (e, sym (append-nil (on_some s.ssh_client close_client)))
        (IsClosed-here close_client s.ssh_client []))
]

-- The effects hold the cancelling of the running command, the closing of each terminal and SFTP channel
-- that the session holds, and that of its client unless it was dead.
abbrev pub ClosesAll : Session → List Effect → Type 0
ClosesAll s es =
    IsClosed cancel_run s.cancel_fn es
    × IsClosed close_pty s.local_pty es
    × IsClosed close_pty_session s.pty_session es
    × IsClosed close_sftp s.sftp_conn es
    × IsClosed close_root_sftp s.root_sftp_conn es
    × IsClosed close_root_session s.root_sftp_session es
    × ((s.dead ≡ true) ⊎ IsClosed close_client s.ssh_client es)

remote_closing-ClosesAll : (s : Session) → ClosesAll s (remote_closing s)
remote_closing-ClosesAll s =
    let run = on_some s.cancel_fn cancel_run in
    let pty = on_some s.local_pty close_pty in
    let term = on_some s.pty_session close_pty_session in
    let sftp = on_some s.sftp_conn close_sftp in
    let root = on_some s.root_sftp_conn close_root_sftp in
    let chan = on_some s.root_sftp_session close_root_session in
    let client = if s.dead then [] else on_some s.ssh_client close_client in
    (
      IsClosed-here cancel_run s.cancel_fn (pty ++ (term ++ (sftp ++ (root ++ (chan ++ client))))),
      IsClosed-behind close_pty s.local_pty run _
          (IsClosed-here close_pty s.local_pty (term ++ (sftp ++ (root ++ (chan ++ client))))),
      IsClosed-behind close_pty_session s.pty_session run _ (
          IsClosed-behind close_pty_session s.pty_session pty _
            (IsClosed-here close_pty_session s.pty_session (sftp ++ (root ++ (chan ++ client))))),
      IsClosed-behind close_sftp s.sftp_conn run _ (
          IsClosed-behind close_sftp s.sftp_conn pty _ (
            IsClosed-behind close_sftp s.sftp_conn term _
              (IsClosed-here close_sftp s.sftp_conn (root ++ (chan ++ client))))),
      IsClosed-behind close_root_sftp s.root_sftp_conn run _ (
          IsClosed-behind close_root_sftp s.root_sftp_conn pty _ (
            IsClosed-behind close_root_sftp s.root_sftp_conn term _ (
              IsClosed-behind close_root_sftp s.root_sftp_conn sftp _
                (IsClosed-here close_root_sftp s.root_sftp_conn (chan ++ client))))),
      IsClosed-behind close_root_session s.root_sftp_session run _ (
          IsClosed-behind close_root_session s.root_sftp_session pty _ (
            IsClosed-behind close_root_session s.root_sftp_session term _ (
              IsClosed-behind close_root_session s.root_sftp_session sftp _ (
                IsClosed-behind close_root_session s.root_sftp_session root _
                  (IsClosed-here close_root_session s.root_sftp_session client))))),
      elim (client-IsClosed s) [
        | inl e ↦ inl e
        | inr h ↦ inr (
            IsClosed-behind close_client s.ssh_client run _ (
              IsClosed-behind close_client s.ssh_client pty _ (
                IsClosed-behind close_client s.ssh_client term _ (
                  IsClosed-behind close_client s.ssh_client sftp _ (
                    IsClosed-behind close_client s.ssh_client root _
                      (IsClosed-behind close_client s.ssh_client chan _ h))))))
      ],
    )

shutdown_clears :
    (s : Session)
    → s.kind ≡ ssh
    → let t = (shutdown s).0 in
      (t.cancel_fn ≡ none)
      × (t.pty_session ≡ none)
      × (t.sftp_conn ≡ none)
      × (t.root_sftp_conn ≡ none)
      × (t.root_sftp_session ≡ none)
      × (t.root_password ≡ [])
      × (t.dead ≡ true)
      × (shutdown t ≡ (t, on_some s.local_pty close_pty))
unfolding shutdown
shutdown_clears s e = ground (arith, append-nil (on_some s.local_pty close_pty))

-- The shutdown of a remote session cancels the running command and closes every terminal and SFTP
-- channel that the session holds, and its client unless it was dead before. Behind it the session holds
-- no command and no remote channel, its root password is forgotten, it is dead, and a second shutdown
-- has nothing left to close but a local terminal.
pub shutdown_releases :
    (s : Session)
    → s.kind ≡ ssh
    → let (t, effects) = shutdown s in
      ClosesAll s effects
      × (t.cancel_fn ≡ none)
      × (t.pty_session ≡ none)
      × (t.sftp_conn ≡ none)
      × (t.root_sftp_conn ≡ none)
      × (t.root_sftp_session ≡ none)
      × (t.root_password ≡ [])
      × (t.dead ≡ true)
      × (shutdown t ≡ (t, on_some s.local_pty close_pty))
shutdown_releases s e =
    let (run, term, sftp, root, chan, word, dead, again) = shutdown_clears s e in
    let all =
      subst (λ es. ClosesAll s es) (sym (shutdown_closing s e)) (remote_closing-ClosesAll s) in
    (all, run, term, sftp, root, chan, word, dead, again)

-- Behind a shutdown the read loops end in silence and the watch of the silent terminal gives up: a
-- session that was replaced announces nothing under the connection's name.
pub stopped_silent :
    (s : Session)
    → let t = (shutdown s).0 in (read_ended t ≡ (t, [])) × (fall_back t ≡ (t, [], false))
unfolding shutdown read_ended fall_back
stopped_silent s = ground arith

-- A shutdown of a local session that comes while a command is being started cancels nothing, and
-- the command is registered behind it: its hook stands in a session that is already stopped.
pub late_start :
    {s : Session} {t : System}
    → IsFresh s
    → Reach (fresh s) t
    → t.session.kind ≡ local_shell
    → t.flight ≡ starting ∷ []
    → (r : ℕ)
    → ((shutdown t.session).1 ≡ on_some t.session.local_pty close_pty)
      × ((exec_started r (shutdown t.session).0).cancel_fn ≡ some r)
      × ((exec_started r (shutdown t.session).0).stopping ≡ true)
unfolding shutdown exec_started
late_start {t} f r k e q =
    let h : Agrees t.session (starting ∷ []) = subst (Agrees t.session) e (Reach-Agrees f r) in
    let idle : t.session.cancel_fn ≡ none = h.1 in (ground arith, refl, ground arith)

-- A shutdown keeps the session's identifier and marks it as stopping.
pub shutdown_stops : (s : Session) → ((shutdown s).0.id ≡ s.id) × ((shutdown s).0.stopping ≡ true)
unfolding shutdown
shutdown_stops s = (ground arith, ground arith)
