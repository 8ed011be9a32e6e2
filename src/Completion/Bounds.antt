-- ===== src/Completion/Bounds.antt =====
-- What the candidates have in common.
use mathlib.Core.Path.{subst}
use dbx_plugin_ninty_shell.Base.{
  zero, length-take, ℕ, suc, ◌≤◌, Bool, true, Option, none, some, List, [], ◌∷◌, ◌++◌, ◌≡◌, inl,
  inr, refl, arith, length, take, take-append-drop, All, Bool-cases, Option-cases,
}
use dbx_plugin_ninty_shell.Text.{
  Bytes, codes, has_prefix, trim_prefix, last_index, trim_prefix_back, has_prefix-front,
  has_prefix-append,
}
use dbx_plugin_ninty_shell.Text.Sort.{bytes_lt, sort_by, sort_by-All, length-sort_by}
use dbx_plugin_ninty_shell.Local.{FileEntry}
use dbx_plugin_ninty_shell.Completion.{
  is_env_token, env_completions, remote_env_completions, remote_env_name, env_name, variable_name,
  keep_all, command_completions, remote_command_completions, token_parts, path_candidates,
  path_candidate, max_completion_items, max_command_items,
}
use dbx_plugin_ninty_shell.Completion.Collect.{
  collect, collect_bound, collect-All, add_names-IsMenu, IsMenu, IsOffer,
}

-- At most 200 texts, each of which continues what was typed.
abbrev pub AllContinue : Bytes → List Bytes → Type 0
AllContinue token out =
    (length out ≤ max_completion_items) × All (λ c. has_prefix c token ≡ true) out

pub parts_join : (token : Bytes) → (token_parts token).0 ++ (token_parts token).1 ≡ token
unfolding token_parts
parts_join token = elim (Option-cases (last_index token (codes "/"))) [
  | inl e ↦ rw (token_parts, e) refl
  | inr (i, e) ↦ rw (token_parts, e) (take-append-drop (suc i) token)
]

env_token_back :
    (token : Bytes) → is_env_token token ≡ true → codes "$" ++ trim_prefix token (codes "$") ≡ token
unfolding is_env_token
env_token_back token h = trim_prefix_back token (codes "$") (ground (arith, h))

path_candidate_continues :
    (leads : Bytes → Bool) (dir prefix : Bytes) (e : FileEntry) (c : Bytes)
    → path_candidate leads dir prefix e ≡ some c
    → has_prefix c (dir ++ prefix) ≡ true
unfolding path_candidate
path_candidate_continues leads dir prefix e c h = elim (Bool-cases (has_prefix e.name prefix)) [
  | inl f ↦
      let plain = has_prefix-front dir e.name prefix f in
      let marked =
        has_prefix-front dir (e.name ++ codes "/") prefix
          (has_prefix-append e.name (codes "/") prefix f) in
      ground (arith, h, f, plain, marked)
  | inr f ↦ absurd (ground (arith, h, f))
]

sorted_continue :
    (token : Bytes) (out : List Bytes)
    → AllContinue token out
    → AllContinue token (sort_by bytes_lt out)
sorted_continue token out (l, h) = (
  omega (arith, l, length-sort_by bytes_lt out),
  sort_by-All bytes_lt (λ c. has_prefix c token ≡ true) out h,
)

pub path_candidates_continue :
    (leads : Bytes → Bool) (parts : Bytes × Bytes) (entries : Option (List FileEntry))
    → AllContinue (parts.0 ++ parts.1) (path_candidates leads parts entries)
unfolding path_candidates
path_candidates_continue leads parts none = (omega arith, tt)
path_candidates_continue leads (dir, prefix) (some entries) =
    sorted_continue (dir ++ prefix)
      (collect max_completion_items (path_candidate leads dir prefix) 0 entries)
      (
        collect_bound max_completion_items (path_candidate leads dir prefix) entries (omega arith),
        collect-All max_completion_items (path_candidate leads dir prefix)
            (λ c. has_prefix c (dir ++ prefix) ≡ true) (path_candidate_continues leads dir prefix) 0
            entries,
      )

remote_env_continues :
    (prefix name c : Bytes)
    → remote_env_name prefix name ≡ some c
    → has_prefix c (codes "$" ++ prefix) ≡ true
unfolding remote_env_name
remote_env_continues prefix name c h = elim (Bool-cases (has_prefix name prefix)) [
  | inl f ↦ let plain = has_prefix-front (codes "$") name prefix f in ground (arith, h, f, plain)
  | inr f ↦ absurd (ground (arith, h, f))
]

pub remote_env_completions_continue :
    (names : List Bytes) (token : Bytes)
    → is_env_token token ≡ true
    → AllContinue token (remote_env_completions names token)
unfolding remote_env_completions
remote_env_completions_continue names token h =
    let prefix = trim_prefix token (codes "$") in
    (
      collect_bound max_completion_items (remote_env_name prefix) names (omega arith),
      subst
          (λ t.
            All (λ c. has_prefix c t ≡ true)
              (collect max_completion_items (remote_env_name prefix) 0 names))
          (env_token_back token h)
          (collect-All max_completion_items (remote_env_name prefix) _ (remote_env_continues prefix)
            0 names),
    )

env_continues :
    (prefix entry c : Bytes)
    → env_name prefix entry ≡ some c
    → has_prefix c (codes "$" ++ prefix) ≡ true
unfolding env_name
env_continues prefix entry c h = elim (Bool-cases (has_prefix (variable_name entry) prefix)) [
  | inl f ↦
      let plain = has_prefix-front (codes "$") (variable_name entry) prefix f in
      ground (arith, h, f, plain)
  | inr f ↦ absurd (ground (arith, h, f))
]

keep_all-All :
    {A : Type 0} (keep : A → Option Bytes) (P : Bytes → Type 0)
    → ((x : A) (c : Bytes) → keep x ≡ some c → P c)
    → (xs : List A) → All P (keep_all keep xs)
unfolding keep_all
keep_all-All keep P each [] = tt
keep_all-All keep P each (x ∷ xs) = elim (Option-cases (keep x)) [
  | inl e ↦ rw (All, keep_all, e) (keep_all-All keep P each xs)
  | inr (c, e) ↦ rw (All, keep_all, e) (each x c e, keep_all-All keep P each xs)
]

take-All : {A : Type 0} (P : A → Type 0) (n : ℕ) (xs : List A) → All P xs → All P (take n xs)
take-All P zero xs h = tt
take-All P (suc n) [] h = tt
take-All P (suc n) (x ∷ xs) (h, hs) = (h, take-All P n xs hs)

pub env_completions_continue :
    (environ : List Bytes) (token : Bytes)
    → is_env_token token ≡ true
    → AllContinue token (env_completions environ token)
unfolding env_completions
env_completions_continue environ token h =
    let prefix = trim_prefix token (codes "$") in
    let sorted = sort_by bytes_lt (keep_all (env_name prefix) environ) in
    (
      omega (arith, length-take max_completion_items sorted),
      subst (λ t. All (λ c. has_prefix c t ≡ true) (take max_completion_items sorted))
          (env_token_back token h)
          (take-All _ max_completion_items sorted (
            sort_by-All bytes_lt _ (keep_all (env_name prefix) environ)
              (keep_all-All (env_name prefix) _ (env_continues prefix) environ))),
    )

offers_continue :
    (token : Bytes) (out : List Bytes)
    → All (IsOffer max_command_items token) out
    → All (λ c. has_prefix c token ≡ true) out
offers_continue token [] h = tt
offers_continue token (c ∷ cs) ((_, h), hs) = (h, offers_continue token cs hs)

-- A menu of command names continues what was typed.
pub menu_continues :
    (token : Bytes) (out : List Bytes) → IsMenu max_command_items token out → AllContinue token out
menu_continues token out (l, d, h) = (omega (arith, l), offers_continue token out h)

empty-IsMenu : (token : Bytes) → IsMenu max_command_items token []
empty-IsMenu token = (omega arith, tt, tt)

-- The command completions of this machine and of a remote host are at most 12 names, none twice, none
-- empty, each beginning with the token.
pub command_menus :
    (look_path : Bytes → Bool) (read_dir : Bytes → Option (List FileEntry))
    (path_dirs remote_commands : List Bytes) (token : Bytes)
    → IsMenu max_command_items token (command_completions look_path read_dir path_dirs token)
      × IsMenu max_command_items token (remote_command_completions remote_commands token)
unfolding command_completions remote_command_completions
command_menus look_path read_dir path_dirs remote_commands token = (
  add_names-IsMenu max_command_items token _ [] (omega arith) (empty-IsMenu token),
  add_names-IsMenu max_command_items token _ [] (omega arith) (empty-IsMenu token),
)
