-- ===== src/Completion/Continue.antt =====
-- The candidates against the text that was typed.
use mathlib.Core.Path.{subst}
use dbx_plugin_ninty_shell.Base.{
  Bool, true, false, not, ◌&&◌, List, [], ◌≡◌, ◌⊎◌, inl, inr, arith, Bool-cases, none,
  if◌then◌else◌,
}
use dbx_plugin_ninty_shell.Text.{Bytes, codes, contains}
use dbx_plugin_ninty_shell.Local.{Machine, is_found}
use dbx_plugin_ninty_shell.Plugin.{Sessions, Rejection, session_for}
use dbx_plugin_ninty_shell.Request.{Json, get, as_string}
use dbx_plugin_ninty_shell.Session.{Session, is_ssh}
use dbx_plugin_ninty_shell.Completion.{is_env_token, token_parts}
use dbx_plugin_ninty_shell.Completion.Sources.{
  Remote, completions_for, path_completions, remote_candidates, remote_path_completions,
  read_remote, complete, session_candidates, answer_candidates,
}
use dbx_plugin_ninty_shell.Completion.Bounds.{
  AllContinue, parts_join, path_candidates_continue, remote_env_completions_continue,
  env_completions_continue, menu_continues, command_menus,
}

-- Every source of candidates continues what was typed.
local_continues :
    (m : Machine) (token : Bytes) (command_position directory_only : Bool) (cwd : Bytes)
    → AllContinue token (completions_for m token command_position directory_only cwd)
unfolding completions_for path_completions
local_continues m token command_position directory_only cwd =
    elim (Bool-cases (not directory_only && is_env_token token)) [
      | inl e ↦
          rw (completions_for, e) (env_completions_continue m.environ token (ground (arith, e)))
      | inr e ↦ elim (Bool-cases (command_position && not (contains token (codes "/")))) [
        | inl f ↦
            rw (completions_for, e, f)
              (menu_continues token _
                (command_menus (λ name. is_found m name) m.read_dir m.path_dirs [] token).0)
        | inr f ↦
            rw (completions_for, e, f)
              (subst (λ t. AllContinue t (path_completions m token cwd)) (parts_join token)
                (path_candidates_continue _ (token_parts token) _))
      ]
    ]

nothing_continues : (token : Bytes) → AllContinue token []
nothing_continues token = (omega arith, tt)

read_remote_continues :
    (r : Remote) (base token : Bytes) → AllContinue token (read_remote r base (token_parts token))
unfolding read_remote
read_remote_continues r base token =
    subst (λ t. AllContinue t (read_remote r base (token_parts token))) (parts_join token)
      (path_candidates_continue _ (token_parts token) (r.read_dir base))

unless_continues :
    (token : Bytes) (b : Bool) (out : List Bytes)
    → AllContinue token out
    → AllContinue token (if b then [] else out)
unless_continues token true out h = nothing_continues token
unless_continues token false out h = h

remote_paths_continue :
    (r : Remote) (s : Session) (token : Bytes)
    → AllContinue token (remote_path_completions r s token)
unfolding remote_path_completions
remote_paths_continue r s token = unless_continues token _ _ (read_remote_continues r _ token)

remote_continues :
    (r : Remote) (s : Session) (token : Bytes) (command_position directory_only : Bool)
    → AllContinue token (remote_candidates r s token command_position directory_only)
unfolding remote_candidates
remote_continues r s token command_position directory_only =
    elim (Bool-cases (not directory_only && is_env_token token)) [
      | inl e ↦
          rw (remote_candidates, e)
            (remote_env_completions_continue s.remote_env_names token (ground (arith, e)))
      | inr e ↦ elim (Bool-cases (command_position && not (contains token (codes "/")))) [
        | inl f ↦
            rw (remote_candidates, e, f)
              (menu_continues token _
                (command_menus (λ n. false) (λ d. none) [] s.remote_commands token).1)
        | inr f ↦ rw (remote_candidates, e, f) (remote_paths_continue r s token)
      ]
    ]

session_continues :
    (m : Machine) (r : Remote) (values : Json) (s : Session)
    → AllContinue (as_string (get (codes "token") values)) (session_candidates m r values s)
unfolding session_candidates
session_continues m r values s = elim (Bool-cases (is_ssh s.kind)) [
  | inl e ↦ rw e (remote_continues r s _ _ _)
  | inr e ↦ rw e (local_continues m _ _ _ s.cwd)
]

answered_continues :
    (m : Machine) (r : Remote) (values : Json) (found : Rejection ⊎ Session) (out : List Bytes)
    → answer_candidates m r values found ≡ inr out
    → AllContinue (as_string (get (codes "token") values)) out
unfolding answer_candidates
answered_continues m r values (inl e) out h = absurd (ground (arith, h))
answered_continues m r values (inr s) out h =
    let same : session_candidates m r values s ≡ out = ground (arith, h) in
    subst (AllContinue (as_string (get (codes "token") values))) same
      (session_continues m r values s)

-- Whatever this machine and the remote host answer, the candidates of a completion are at most 200, and each
-- begins with the text that was typed.
pub complete_continues :
    (m : Machine) (r : Remote) (sessions : Sessions) (values : Json) (out : List Bytes)
    → complete m r sessions values ≡ inr out
    → AllContinue (as_string (get (codes "token") values)) out
unfolding complete
complete_continues m r sessions values out h =
    answered_continues m r values (session_for sessions values) out h
