-- ===== src/Local/Connect.antt =====
-- `connect`, `connectLocal` and `testConnection` of backend/main.go. The SSH half of a connect is a
-- parameter, and so is whether a pseudo terminal opens.
use dbx_plugin_ninty_shell.Base.{
  ℕ, Bool, true, false, Option, none, some, ◌≡◌, ◌⊎◌, inl, inr, refl, arith, ap, ◌==◌,
  if◌then◌else◌,
}
use dbx_plugin_ninty_shell.Text.{Bytes, codes}
use dbx_plugin_ninty_shell.Text.Equal.{bytes_eq}
use dbx_plugin_ninty_shell.Request.{
  Json, request_connection_id, config_string, provider_id, provider_ssh,
}
use dbx_plugin_ninty_shell.Session.{Session}
use dbx_plugin_ninty_shell.Plugin.{Rejection, find_session}
use dbx_plugin_ninty_shell.Plugin.Table.{set_session, find-set_session, find-set_other}
use dbx_plugin_ninty_shell.Plugin.Registry.{
  World, local_session, known_bad, create, publish, connect_publish, put,
}
use dbx_plugin_ninty_shell.Local.{Machine, resolve_shell, resolve_working_dir, working_dir_lem}

pub data Reply : Type 0 where
  refused : Bytes → Reply
  shell_ready : Bytes → Bytes → Reply
  connected : Bytes → Bytes → Bool → Reply
  ssh_reply : Bytes → Reply

-- `knownBad`, and the handle that `openLocalPTY` gets.
unfoldable pub with_terminal : Bool → Option ℕ → Session → Option Session × Reply
with_terminal true pty s = (some s, connected s.shell_path s.cwd false)
with_terminal false none s = (some s, connected s.shell_path s.cwd false)
with_terminal false (some pty) s =
    (some (record s { local_pty = some pty }), connected s.shell_path s.cwd true)

unfoldable pub connect_resolved :
    Bool → Option ℕ → Bytes → Bytes ⊎ Bytes → Bytes ⊎ Bytes → Option Session × Reply
unfolding with_terminal
connect_resolved bad pty id (inl err) dir = (none, refused err)
connect_resolved bad pty id (inr shell) (inl err) = (none, refused err)
connect_resolved bad pty id (inr shell) (inr dir) =
    with_terminal bad pty (local_session id shell dir)

unfoldable pub connect_local : Machine → Bool → Option ℕ → Json → Bytes → Option Session × Reply
unfolding connect_resolved
connect_local m bad pty values id =
    connect_resolved bad pty id (resolve_shell m (config_string values (codes "shell_path")))
      (resolve_working_dir m (config_string values (codes "working_dir")))

unfoldable pub test_resolved : Bytes ⊎ Bytes → Bytes ⊎ Bytes → Reply
test_resolved (inl err) dir = refused err
test_resolved (inr shell) (inl err) = refused err
test_resolved (inr shell) (inr dir) = shell_ready shell dir

-- The local half of `testConnection`.
unfoldable pub test_local : Machine → Json → Reply
unfolding test_resolved
test_local m values =
    test_resolved (resolve_shell m (config_string values (codes "shell_path")))
      (resolve_working_dir m (config_string values (codes "working_dir")))

-- `if newSession != nil { … }`; the previous session's shutdown is due.
unfoldable pub register_made : World → Option Session × Reply → World × Reply
unfolding create publish
register_made w (none, reply) = (w, reply)
register_made w (some s, reply) = (publish w.made w.connecting (create s w), reply)

unfoldable pub connect :
    Machine
    → (Json → Bytes → Option Session × Reply)
    → Option ℕ
    → Json
    → World
    → World × (Rejection ⊎ Reply)
unfolding register_made connect_local
connect m connect_ssh pty values w = elim (request_connection_id values) [
  | none ↦ (w, inl record { code = 32602; text = codes "Missing connection id" })
  | some id ↦
      let made =
        if bytes_eq (provider_id values) provider_ssh
        then connect_ssh values id
        else connect_local m (known_bad id w.registry.fallbacks) pty values id in
      let (w', reply) = register_made w made in (w', inr reply)
]

-- How a local connect ends: refused, with the world as it was, or with a new session registered.
pub data Outcome (m : Machine) (values : Json) (id : Bytes) (w w' : World) (reply : Reply)
    : Type 0 where
  was_refused :
      (message : Bytes)
      → reply ≡ refused message
      → test_local m values ≡ refused message
      → w' ≡ w
      → Outcome m values id w w' reply
  was_connected :
      (shell dir : Bytes) (terminal : Bool)
      → reply ≡ connected shell dir terminal
      → test_local m values ≡ shell_ready shell dir
      → m.stat dir ≡ some true
      → find_session w'.registry.sessions id ≡ some w.made
      → (w'.heap w.made).id ≡ id
      → (w'.heap w.made).cwd ≡ dir
      → ((other : Bytes)
          → bytes_eq id other ≡ false
          → find_session w'.registry.sessions other ≡ find_session w.registry.sessions other)
      → Outcome m values id w w' reply

made_heap : (w : World) (s : Session) → put w.made s w.heap w.made ≡ s
unfolding put
made_heap w s = let same : w.made == w.made ≡ true = ground arith in rw (put, same) refl

registered_table :
    (w : World) (s : Session)
    → (publish w.made w.connecting (create s w)).registry.sessions
      ≡ set_session s.id w.made w.registry.sessions
unfolding publish create connect_publish
registered_table w s = ap (λ t. set_session t.id w.made w.registry.sessions) (made_heap w s)

registered_heap :
    (w : World) (s : Session) → (publish w.made w.connecting (create s w)).heap w.made ≡ s
unfolding publish create
registered_heap w s = made_heap w s

-- A session with this identifier and directory is registered.
connected_outcome :
    (m : Machine) (values : Json) (w : World) (s : Session) (shell : Bytes) (terminal : Bool)
    → test_local m values ≡ shell_ready shell s.cwd
    → m.stat s.cwd ≡ some true
    → Outcome m values s.id w
        (publish w.made w.connecting (create s w))
        (connected shell s.cwd terminal)
connected_outcome m values w s shell terminal tested there =
    was_connected shell s.cwd terminal refl tested there
      (rw (registered_table w s) (find-set_session s.id w.made w.registry.sessions))
      (ap (λ t. t.id) (registered_heap w s)) (ap (λ t. t.cwd) (registered_heap w s))
      (λ other e.
        rw (registered_table w s) (find-set_other other s.id w.made w.registry.sessions e))

terminal_outcome :
    (m : Machine) (values : Json) (id : Bytes) (w : World) (bad : Bool) (pty : Option ℕ)
    (shell dir : Bytes)
    → test_local m values ≡ shell_ready shell dir
    → m.stat dir ≡ some true
    → let (w', reply) = register_made w (with_terminal bad pty (local_session id shell dir)) in
      Outcome m values id w w' reply
unfolding register_made with_terminal local_session
terminal_outcome m values id w true pty shell dir t h =
    connected_outcome m values w _ shell false t h
terminal_outcome m values id w false none shell dir t h =
    connected_outcome m values w _ shell false t h
terminal_outcome m values id w false (some pty) shell dir t h =
    connected_outcome m values w _ shell true t h

resolved_outcome :
    (m : Machine) (values : Json) (id : Bytes) (w : World) (bad : Bool) (pty : Option ℕ)
    (shell dir : Bytes ⊎ Bytes)
    → test_local m values ≡ test_resolved shell dir
    → ((d : Bytes) → dir ≡ inr d → m.stat d ≡ some true)
    → let (w', reply) = register_made w (connect_resolved bad pty id shell dir) in
      Outcome m values id w w' reply
unfolding register_made connect_resolved test_resolved
resolved_outcome m values id w bad pty (inl err) dir t there = was_refused err refl t refl
resolved_outcome m values id w bad pty (inr shell) (inl err) t there = was_refused err refl t refl
resolved_outcome m values id w bad pty (inr shell) (inr dir) t there =
    terminal_outcome m values id w bad pty shell dir t (there dir refl)

connect_local_outcome :
    (m : Machine) (bad : Bool) (pty : Option ℕ) (values : Json) (id : Bytes) (w : World)
    → let (w', reply) = register_made w (connect_local m bad pty values id) in
      Outcome m values id w w' reply
unfolding connect_local test_local
connect_local_outcome m bad pty values id w =
    resolved_outcome m values id w bad pty _ _ refl
      (λ d e. working_dir_lem m (config_string values (codes "working_dir")) d e)

-- A connect that names its connection and no SSH provider either refuses with the message that the
-- connection test gives and leaves every map and session as it was, or registers a new session under its
-- identifier, in a directory that is there, reports the shell and directory that the connection test
-- reports, and leaves the sessions under other identifiers in place.
pub connect_outcome :
    (m : Machine) (connect_ssh : Json → Bytes → Option Session × Reply) (pty : Option ℕ)
    (values : Json) (id : Bytes) (w : World)
    → request_connection_id values ≡ some id
    → bytes_eq (provider_id values) provider_ssh ≡ false
    → (reply : Reply) × ((connect m connect_ssh pty values w).1 ≡ inr reply)
      × Outcome m values id w (connect m connect_ssh pty values w).0 reply
unfolding connect
connect_outcome m connect_ssh pty values id w e f =
    let made = connect_local m (known_bad id w.registry.fallbacks) pty values id in
    rw (connect, e, f)
      (
        (register_made w made).1,
        refl,
        connect_local_outcome m (known_bad id w.registry.fallbacks) pty values id w,
      )
