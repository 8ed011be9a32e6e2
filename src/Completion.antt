-- ===== src/Completion.antt =====
-- Completion, backend/main.go and backend/ssh.go: the candidates for what was typed so far, on this machine
-- and on a remote one. The file system, the environment and path joining are parameters.
pub mod Collect
pub mod Sources
pub mod Load
pub mod Bounds
pub mod Continue
mod Scenarios
use dbx_plugin_ninty_shell.Base.{
  ℕ, suc, Bool, true, false, not, ◌&&◌, ◌||◌, Option, none, some, List, [], ◌∷◌, ◌++◌, leb, length,
  take, drop, if◌then◌else◌,
}
use dbx_plugin_ninty_shell.Text.{
  Bytes, codes, is_empty, has_prefix, contains, trim_prefix, trim_suffix, last_index, cut_byte,
}
use dbx_plugin_ninty_shell.Text.Equal.{bytes_eq}
use dbx_plugin_ninty_shell.Text.Sort.{bytes_lt, sort_by}
use dbx_plugin_ninty_shell.Local.{FileEntry}
use dbx_plugin_ninty_shell.Completion.Collect.{collect, in_list, add_names}

abbrev pub max_completion_items : ℕ
max_completion_items = 200

abbrev pub max_command_items : ℕ
max_command_items = 12

abbrev pub shell_builtins : List Bytes
shell_builtins =
    codes "cd"
    ∷ codes "echo"
    ∷ codes "printf"
    ∷ codes "pwd"
    ∷ codes "export"
    ∷ codes "unset"
    ∷ codes "alias"
    ∷ codes "unalias"
    ∷ codes "source"
    ∷ codes "set"
    ∷ codes "type"
    ∷ codes "true"
    ∷ codes "false"
    ∷ codes "test"
    ∷ codes "exit"
    ∷ codes "return"
    ∷ codes "readonly"
    ∷ codes "wait"
    ∷ codes "umask"
    ∷ codes "history"
    ∷ codes "fc"
    ∷ codes "getopts"
    ∷ codes "hash"
    ∷ []

abbrev pub common_commands : List Bytes
common_commands =
    codes "ls"
    ∷ codes "cd"
    ∷ codes "pwd"
    ∷ codes "cat"
    ∷ codes "echo"
    ∷ codes "mkdir"
    ∷ codes "rm"
    ∷ codes "cp"
    ∷ codes "mv"
    ∷ codes "touch"
    ∷ codes "grep"
    ∷ codes "find"
    ∷ codes "git"
    ∷ codes "curl"
    ∷ codes "ssh"
    ∷ codes "tar"
    ∷ codes "open"
    ∷ codes "brew"
    ∷ codes "python3"
    ∷ codes "node"
    ∷ codes "npm"
    ∷ codes "go"
    ∷ codes "docker"
    ∷ codes "ps"
    ∷ codes "top"
    ∷ codes "kill"
    ∷ codes "man"
    ∷ codes "which"
    ∷ codes "head"
    ∷ codes "tail"
    ∷ codes "less"
    ∷ codes "chmod"
    ∷ codes "chown"
    ∷ codes "nano"
    ∷ codes "vim"
    ∷ codes "diff"
    ∷ codes "sort"
    ∷ codes "uniq"
    ∷ codes "wc"
    ∷ codes "df"
    ∷ codes "du"
    ∷ codes "whoami"
    ∷ codes "date"
    ∷ codes "env"
    ∷ codes "history"
    ∷ codes "clear"
    ∷ codes "sudo"
    ∷ codes "wget"
    ∷ codes "zip"
    ∷ codes "unzip"
    ∷ []

-- `strings.HasPrefix(token, "$") && !strings.Contains(token, "/")`
unfoldable pub is_env_token : Bytes → Bool
is_env_token token = has_prefix token (codes "$") && not (contains token (codes "/"))

-- The name of NAME=value.
variable_name : Bytes → Bytes
variable_name entry = elim (cut_byte b'=' entry) [ none ↦ entry | some (name, value) ↦ name ]

env_name : Bytes → Bytes → Option Bytes
unfolding variable_name
env_name prefix entry =
    let name = variable_name entry in
    if not (is_empty name) && has_prefix name prefix then some (codes "$" ++ name) else none

-- The entries of a list that a function keeps, all of them.
keep_all : {A : Type 0} → (A → Option Bytes) → List A → List Bytes
keep_all f [] = []
keep_all f (x ∷ xs) = let rest = keep_all f xs in elim (f x) [ none ↦ rest | some c ↦ c ∷ rest ]

unfoldable pub env_completions : List Bytes → Bytes → List Bytes
unfolding env_name keep_all
env_completions environ token =
    take max_completion_items
      (sort_by bytes_lt (keep_all (env_name (trim_prefix token (codes "$"))) environ))

remote_env_name : Bytes → Bytes → Option Bytes
remote_env_name prefix name = if has_prefix name prefix then some (codes "$" ++ name) else none

unfoldable pub remote_env_completions : List Bytes → Bytes → List Bytes
unfolding remote_env_name
remote_env_completions names token =
    collect max_completion_items (remote_env_name (trim_prefix token (codes "$"))) 0 names

-- The everyday commands that exist.
available : (Bytes → Bool) → List Bytes → List Bytes
available exists [] = []
available exists (name ∷ names) =
    let rest = available exists names in
    if exists name || in_list name shell_builtins then name ∷ rest else rest

-- The files of one PATH directory that can be run.
runnable : List FileEntry → List Bytes
runnable [] = []
runnable (e ∷ es) =
    let rest = runnable es in if e.is_dir || not e.executable then rest else e.name ∷ rest

-- Those of every directory that can be read.
all_runnable : (Bytes → Option (List FileEntry)) → List Bytes → List Bytes
unfolding runnable
all_runnable read_dir [] = []
all_runnable read_dir (dir ∷ dirs) =
    let rest = all_runnable read_dir dirs in
    elim (read_dir dir) [ none ↦ rest | some entries ↦ runnable entries ++ rest ]

unfoldable pub command_completions :
    (Bytes → Bool) → (Bytes → Option (List FileEntry)) → List Bytes → Bytes → List Bytes
unfolding available all_runnable
command_completions look_path read_dir path_dirs token =
    add_names token max_command_items
      (available look_path common_commands ++ all_runnable read_dir (sort_by bytes_lt path_dirs)) []

unfoldable pub remote_command_completions : List Bytes → Bytes → List Bytes
unfolding available
remote_command_completions remote_commands token =
    add_names token max_command_items
      (available (λ name. in_list name remote_commands) common_commands ++ remote_commands) []

-- `dirPart` and `namePrefix`
unfoldable pub token_parts : Bytes → Bytes × Bytes
token_parts token = elim (last_index token (codes "/")) [
  | none ↦ ([], token)
  | some i ↦ (take (suc i) token, drop (suc i) token)
]

-- The candidate of an entry; `leads_to_dir` follows a symbolic link.
unfoldable pub path_candidate : (Bytes → Bool) → Bytes → Bytes → FileEntry → Option Bytes
path_candidate leads_to_dir dir_part name_prefix e =
    if not (has_prefix e.name name_prefix)
      || (has_prefix e.name (codes ".") && not (has_prefix name_prefix (codes ".")))
    then none
    else if e.is_dir || (e.is_symlink && leads_to_dir e.name)
    then some (dir_part ++ (e.name ++ codes "/"))
    else some (dir_part ++ e.name)

unfoldable pub path_candidates :
    (Bytes → Bool) → Bytes × Bytes → Option (List FileEntry) → List Bytes
unfolding path_candidate
path_candidates leads_to_dir parts none = []
path_candidates leads_to_dir (dir_part, name_prefix) (some entries) =
    sort_by bytes_lt
      (collect max_completion_items (path_candidate leads_to_dir dir_part name_prefix) 0 entries)
