-- ===== src/Completion/Sources.antt =====
-- The two sources of candidates: this machine (`completionsFor` and `pathCompletions` of backend/main.go) and
-- a remote host (`remotePathCompletions` of backend/ssh.go), and the handler `complete`.
use dbx_plugin_ninty_shell.Base.{
  Bool, not, ◌&&◌, ◌||◌, Option, none, some, List, [], ◌++◌, ◌⊎◌, inl, inr, if◌then◌else◌,
}
use dbx_plugin_ninty_shell.Text.{
  Bytes, codes, is_empty, has_prefix, contains, trim_prefix, trim_suffix,
}
use dbx_plugin_ninty_shell.Text.Equal.{bytes_eq}
use dbx_plugin_ninty_shell.Request.{Json, get, as_string, as_bool}
use dbx_plugin_ninty_shell.Session.{Session, is_ssh}
use dbx_plugin_ninty_shell.Files.{remote_home}
use dbx_plugin_ninty_shell.Local.{FileEntry, Machine, is_directory, is_found, expand_home}
use dbx_plugin_ninty_shell.Plugin.{Sessions, Rejection, session_for}
use dbx_plugin_ninty_shell.Completion.{
  is_env_token, env_completions, remote_env_completions, command_completions,
  remote_command_completions, token_parts, path_candidates,
}

-- What the remote host's SFTP server answers, without a client nothing, and path.Join.
pub record Remote : Type 0 where
  pub has_client : Bool
  pub read_dir : Bytes → Option (List FileEntry)
  pub is_dir : Bytes → Bool
  pub join : Bytes → Bytes → Bytes

local_base : Machine → Bytes → Bytes → Bytes
unfolding expand_home
local_base m cwd dir_part = elim (expand_home m dir_part) [
  | some home ↦ home
  | none ↦
      if is_empty dir_part then cwd else if m.is_abs dir_part then dir_part else m.join cwd dir_part
]

unfoldable pub path_completions : Machine → Bytes → Bytes → List Bytes
unfolding local_base
path_completions m token cwd =
    let base = local_base m cwd (token_parts token).0 in
    path_candidates (λ name. is_directory m (m.join base name)) (token_parts token)
      (m.read_dir base)

unfoldable pub completions_for : Machine → Bytes → Bool → Bool → Bytes → List Bytes
unfolding path_completions
completions_for m token command_position directory_only cwd =
    if not directory_only && is_env_token token
    then env_completions m.environ token
    else if command_position && not (contains token (codes "/"))
    then command_completions (λ name. is_found m name) m.read_dir m.path_dirs token
    else path_completions m token cwd

-- The directory that is read; the case of a lone tilde is `remotePathCompletions`'s own.
remote_base : Remote → Session → Bytes → Bytes
remote_base r s dir_part =
    if is_empty dir_part
    then s.cwd
    else if has_prefix dir_part (codes "~/")
    then remote_home s ++ trim_prefix dir_part (codes "~")
    else if has_prefix dir_part (codes "/")
    then dir_part
    else r.join s.cwd dir_part

-- `if base != "/" { … }`
no_slash : Bytes → Bytes
no_slash base = if bytes_eq base (codes "/") then base else trim_suffix base (codes "/")

unfoldable pub read_remote : Remote → Bytes → Bytes × Bytes → List Bytes
read_remote r base parts =
    path_candidates (λ name. r.is_dir (r.join base name)) parts (r.read_dir base)

unfoldable pub remote_path_completions : Remote → Session → Bytes → List Bytes
unfolding remote_base no_slash read_remote
remote_path_completions r s token =
    if not r.has_client || bytes_eq (token_parts token).0 (codes "~")
    then []
    else read_remote r (no_slash (remote_base r s (token_parts token).0)) (token_parts token)

-- The remote half of `complete`; the session has loaded what the host offers.
unfoldable pub remote_candidates : Remote → Session → Bytes → Bool → Bool → List Bytes
unfolding remote_path_completions
remote_candidates r s token command_position directory_only =
    if not directory_only && is_env_token token
    then remote_env_completions s.remote_env_names token
    else if command_position && not (contains token (codes "/"))
    then remote_command_completions s.remote_commands token
    else remote_path_completions r s token

unfoldable pub session_candidates : Machine → Remote → Json → Session → List Bytes
unfolding completions_for remote_candidates
session_candidates m r values s =
    let token = as_string (get (codes "token") values) in
    let command_position = as_bool (get (codes "commandPosition") values) in
    let directory_only = as_bool (get (codes "directoryOnly") values) in
    if is_ssh s.kind
    then remote_candidates r s token command_position directory_only
    else completions_for m token command_position directory_only s.cwd

unfoldable pub answer_candidates :
    Machine → Remote → Json → Rejection ⊎ Session → Rejection ⊎ List Bytes
unfolding session_candidates
answer_candidates m r values (inl e) = inl e
answer_candidates m r values (inr s) = inr (session_candidates m r values s)

unfoldable pub complete : Machine → Remote → Sessions → Json → Rejection ⊎ List Bytes
unfolding answer_candidates
complete m r sessions values = answer_candidates m r values (session_for sessions values)
