-- ===== src/Plugin/Registry.antt =====
-- The sessions of the plugin and what becomes of them, `plugin` of backend/main.go: connecting,
-- disconnecting and the memory of terminals that stayed silent, as interleaved lock sections. A session
-- object is a number, its address; the heap has what stands there.
pub mod Place
pub mod Kept
pub mod Once
use dbx_plugin_ninty_shell.Base.{
  ℕ, suc, ◌<◌, Bool, true, false, ◌||◌, ◌&&◌, not, Option, none, some, List, [], ◌∷◌, ◌++◌, ◌≡◌,
  ◌⊎◌, if◌then◌else◌, ◌==◌,
}
use dbx_plugin_ninty_shell.Text.{Bytes}
use dbx_plugin_ninty_shell.Text.Equal.{bytes_eq}
use dbx_plugin_ninty_shell.Session.{
  Session, Effect, local_shell, Outcome, exec_claim, exec_failed, exec_started, finish, cancel,
  shutdown, mark_dead, shell_config, report_cwd, read_ended, fall_back,
}
use dbx_plugin_ninty_shell.Plugin.{find_session}
use dbx_plugin_ninty_shell.Plugin.Table.{set_session, delete_session}

-- The two maps under the plugin's lock; `fallbacks` has the keys that are set.
pub record Registry : Type 0 where
  pub sessions : List (Bytes × ℕ)
  pub fallbacks : List Bytes

-- The lock section of `connect`, with the previous session.
unfoldable pub connect_publish : Bytes → ℕ → Registry → Registry × Option ℕ
unfolding set_session
connect_publish id a r =
    (record r { sessions = set_session id a r.sessions }, find_session r.sessions id)

-- The lock section of `disconnect`, with the session that was there.
unfoldable pub disconnect_take : Bytes → Registry → Registry × Option ℕ
unfolding delete_session
disconnect_take id r =
    (record r { sessions = delete_session id r.sessions }, find_session r.sessions id)

-- `p.fallbacks[s.id] = true`
unfoldable pub remember_fallback : Bytes → Registry → Registry
remember_fallback id r = record r { fallbacks = id ∷ r.fallbacks }

-- The registry behind `fallbackSession`, which returns early for most sessions.
unfoldable pub noted : Bool → Bytes → Registry → Registry
unfolding remember_fallback
noted false id r = r
noted true id r = remember_fallback id r

-- `p.fallbacks[connectionID]`
unfoldable pub known_bad : Bytes → List Bytes → Bool
known_bad id [] = false
known_bad id (key ∷ keys) = bytes_eq key id || known_bad id keys

-- The session that `connectLocal` makes.
unfoldable pub local_session : Bytes → Bytes → Bytes → Session
local_session id shell dir = record {
  id = id;
  kind = local_shell;
  shell_path = shell;
  sid = [];
  home = [];
  ssh_client = none;
  sftp_conn = none;
  root_enabled = false;
  root_user = [];
  root_password = [];
  root_home = [];
  root_sftp_path = [];
  root_sftp_conn = none;
  root_sftp_session = none;
  local_pty = none;
  pty_closed = false;
  stopping = false;
  inject_osc7 = false;
  osc7_injected = false;
  pty_session = none;
  pty_stdin = none;
  remote_loaded = false;
  remote_commands = [];
  remote_env_names = [];
  remote_path_dirs = [];
  dead = false;
  cwd = dir;
  busy = false;
  cancelled = false;
  cancel_fn = none;
  done = none;
}

-- What a thread does to one session.
pub data Work : Type 0 where
  claim fail_start cancel_it die end_read : Work
  start : ℕ → Work
  end_run : Outcome → Work
  configure : Bool → Work
  follow : Bytes → Work
  open_terminal : ℕ → Work

unfoldable pub do_work : Work → Session → Session
do_work claim s = (exec_claim s).0
do_work fail_start s = exec_failed s
do_work cancel_it s = (cancel s).0
do_work die s = (mark_dead s).0
do_work end_read s = (read_ended s).0
do_work (start run) s = exec_started run s
do_work (end_run o) s = (finish o s).0
do_work (configure inject) s = (shell_config inject s).0
do_work (follow dir) s = (report_cwd dir s).0
do_work (open_terminal pty) s = record s { local_pty = some pty }

-- `connecting` are the sessions that a `connect` has made and not yet published, `ending` those that a
-- `connect` or `disconnect` has taken out and not yet shut down.
pub record World : Type 0 where
  pub registry : Registry
  pub heap : ℕ → Session
  pub made : ℕ
  pub connecting : List ℕ
  pub ending : List ℕ

unfoldable pub put : ℕ → Session → (ℕ → Session) → ℕ → Session
put a s heap b = if b == a then s else heap b

-- `if previous != nil { previous.shutdown() }`, to be done
unfoldable pub due : Option ℕ → List ℕ → List ℕ
due none ending = ending
due (some a) ending = a ∷ ending

unfoldable pub create : Session → World → World
unfolding put
create s w = record w {
  heap = put w.made s w.heap;
  made = suc w.made;
  connecting = w.made ∷ w.connecting;
}

unfoldable pub publish : ℕ → List ℕ → World → World
unfolding connect_publish due
publish a connecting w =
    let (r, previous) = connect_publish (w.heap a).id a w.registry in
    record w { registry = r; connecting = connecting; ending = due previous w.ending }

unfoldable pub disconnect : Bytes → World → World
unfolding disconnect_take due
disconnect id w =
    let (r, current) = disconnect_take id w.registry in
    record w { registry = r; ending = due current w.ending }

unfoldable pub end_session : ℕ → List ℕ → World → World
unfolding put
end_session a ending w = record w { heap = put a (shutdown (w.heap a)).0 w.heap; ending = ending }

unfoldable pub work_on : ℕ → Work → World → World
unfolding put do_work
work_on a work w = record w { heap = put a (do_work work (w.heap a)) w.heap }

unfoldable pub fallback_session : ℕ → World → World
unfolding put noted
fallback_session a w =
    let (s, effects, remember) = fall_back (w.heap a) in
    record w { heap = put a s w.heap; registry = noted remember (w.heap a).id w.registry }

-- One lock section of any thread.
pub data Step (t u : World) : Type 0 where
  created : (s : Session) → u ≡ create s t → Step t u
  published :
      (xs : List ℕ) (a : ℕ) (ys : List ℕ)
      → t.connecting ≡ xs ++ a ∷ ys
      → u ≡ publish a (xs ++ ys) t
      → Step t u
  disconnected : (id : Bytes) → u ≡ disconnect id t → Step t u
  ended :
      (xs : List ℕ) (a : ℕ) (ys : List ℕ)
      → t.ending ≡ xs ++ a ∷ ys
      → u ≡ end_session a (xs ++ ys) t
      → Step t u
  worked : (a : ℕ) (work : Work) → a < t.made → u ≡ work_on a work t → Step t u
  fell_back : (a : ℕ) → a < t.made → u ≡ fallback_session a t → Step t u

pub data Reach (s : World) : World → Type 0 where
  here : Reach s s
  next : {t u : World} → Reach s t → Step t u → Reach s u

-- The plugin before the first request.
abbrev pub IsInitial : World → Type 0
IsInitial w = (w.made ≡ 0) × (w.registry.sessions ≡ []) × (w.connecting ≡ []) × (w.ending ≡ [])
