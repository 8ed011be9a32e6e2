-- ===== src/Local/Scenarios.antt =====
-- A local connection on a machine with one home directory.
use dbx_plugin_ninty_shell.Base.{true, false, none, some, [], ◌++◌, ◌≡◌, inr, refl}
use dbx_plugin_ninty_shell.Text.{codes, has_prefix}
use dbx_plugin_ninty_shell.Text.Equal.{bytes_eq}
use dbx_plugin_ninty_shell.Request.{
  Json, object, field, end, string, get, as_string, request_connection_id, provider_id,
  provider_ssh,
}
use dbx_plugin_ninty_shell.Plugin.Registry.{World, local_session}
use dbx_plugin_ninty_shell.Local.{Machine, linux}
use dbx_plugin_ninty_shell.Local.Connect
use dbx_plugin_ninty_shell.Local.Connect.{Reply, ssh_reply, connect, Outcome}

abbrev machine : Machine
machine = record {
  platform = linux;
  environ = [];
  user_home = inr (codes "/root");
  path_dirs = [];
  look_path = λ name. some name;
  read_dir = λ dir. none;
  stat = λ path. some true;
  absolute = λ path. inr path;
  base = λ path. path;
  join = λ a b. a ++ (codes "/" ++ b);
  is_abs = λ path. has_prefix path (codes "/");
}

abbrev request : Json
request =
    object (field (codes "connection") (object (field (codes "id") (string (codes "c1")) end)) end)

abbrev world : World
world = record {
  registry = record { sessions = []; fallbacks = [] };
  heap = λ a. local_session [] [] [];
  made = 0;
  connecting = [];
  ending = [];
}

request_named : request_connection_id request ≡ some (codes "c1")
unfolding request_connection_id get as_string bytes_eq
request_named = refl

request_local : bytes_eq (provider_id request) provider_ssh ≡ false
unfolding provider_id get as_string bytes_eq
request_local = refl

connect_outcome_example :
    (reply : Reply) × ((connect machine
        (λ values id. (none, ssh_reply []))
        (some 3)
        request
        world).1
      ≡ inr reply)
    × Outcome machine request
        (codes "c1")
        world
        (connect machine (λ values id. (none, ssh_reply [])) (some 3) request world).0
        reply
connect_outcome_example =
    Connect.connect_outcome machine (λ values id. (none, ssh_reply [])) (some 3) request
      (codes "c1") world request_named request_local
