-- ===== src/Completion/Scenarios.antt =====
-- Completion of concrete tokens.
use dbx_plugin_ninty_shell.Base.{true, false, none, some, [], ◌∷◌, ◌++◌, ◌≡◌, inr, refl}
use dbx_plugin_ninty_shell.Text.{codes, has_prefix, contains, index, trim_prefix, cut_prefix}
use dbx_plugin_ninty_shell.Text.Equal.{bytes_eq}
use dbx_plugin_ninty_shell.Local.{Machine, is_found, linux}
use dbx_plugin_ninty_shell.Plugin.{Sessions, session_for, find_session}
use dbx_plugin_ninty_shell.Request.{
  Json, object, field, end, string, get, as_string, as_bool, request_session_id,
}
use dbx_plugin_ninty_shell.Session.{ssh}
use dbx_plugin_ninty_shell.Session.Fixtures.{new_session}
use dbx_plugin_ninty_shell.Completion.{
  command_completions, remote_command_completions, max_command_items, is_env_token,
  remote_env_completions, remote_env_name, available,
}
use dbx_plugin_ninty_shell.Completion.Collect.{IsMenu, collect, add_names, in_list, skips}
use dbx_plugin_ninty_shell.Completion.Sources.{
  Remote, complete, remote_candidates, session_candidates, answer_candidates,
}
use dbx_plugin_ninty_shell.Completion.Bounds
use dbx_plugin_ninty_shell.Completion.Bounds.{AllContinue}
use dbx_plugin_ninty_shell.Completion.Continue

abbrev machine : Machine
machine = record {
  environ = codes "HOME=/root" ∷ [];
  platform = linux;
  user_home = inr (codes "/root");
  path_dirs = codes "/bin" ∷ [];
  look_path = λ name. some name;
  read_dir = λ dir. none;
  stat = λ path. none;
  absolute = λ path. inr path;
  base = λ path. path;
  join = λ a b. a ++ (codes "/" ++ b);
  is_abs = λ path. has_prefix path (codes "/");
}

abbrev remote : Remote
remote = record {
  has_client = true;
  read_dir = λ dir. none;
  is_dir = λ path. false;
  join = λ a b. a ++ (codes "/" ++ b);
}

command_menus_example :
    IsMenu max_command_items (codes "gi") (
      command_completions
        (λ name. is_found machine name)
        machine.read_dir
        machine.path_dirs
        (codes "gi"))
    × IsMenu max_command_items
        (codes "gi")
        (remote_command_completions (codes "gist" ∷ codes "git" ∷ []) (codes "gi"))
command_menus_example =
    Bounds.command_menus (λ name. is_found machine name) machine.read_dir machine.path_dirs
      (codes "gist" ∷ codes "git" ∷ []) (codes "gi")

everyday_first :
    remote_command_completions (codes "gist" ∷ codes "git" ∷ []) (codes "gi")
    ≡ codes "git" ∷ codes "gist" ∷ []
unfolding remote_command_completions available add_names skips in_list has_prefix bytes_eq
everyday_first = refl

abbrev sessions : Sessions
sessions =
    (codes "c1", record (new_session ssh) { remote_env_names = codes "HOME" ∷ codes "PATH" ∷ [] })
    ∷ []

abbrev request : Json
request = object (
    field (codes "connectionId") (string (codes "c1"))
      (field (codes "token") (string (codes "$P")) end))

path_offered : complete machine remote sessions request ≡ inr (codes "$PATH" ∷ [])
unfolding complete answer_candidates session_candidates remote_candidates is_env_token
    remote_env_completions remote_env_name collect session_for request_session_id find_session
    has_prefix contains index trim_prefix cut_prefix bytes_eq get as_string as_bool
path_offered = refl

complete_continues_example :
    AllContinue (as_string (get (codes "token") request)) (codes "$PATH" ∷ [])
complete_continues_example =
    Continue.complete_continues machine remote sessions request (codes "$PATH" ∷ []) path_offered
