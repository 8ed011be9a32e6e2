-- ===== src/Completion/Load.antt =====
-- What a remote host offers, asked for once: `ensureRemoteData` of backend/ssh.go.
use dbx_plugin_ninty_shell.Base.{
  Bool, true, false, not, ◌||◌, Option, none, some, List, [], ◌∷◌, ◌++◌, if◌then◌else◌, ◌==◌,
}
use dbx_plugin_ninty_shell.Text.{
  Bytes, codes, newline, carriage_return, is_empty, has_prefix, trim_prefix, trim_right, trim_space,
  split,
}
use dbx_plugin_ninty_shell.Text.Sort.{bytes_lt, sort_by}
use dbx_plugin_ninty_shell.Session.{Session, mark_dead}
use dbx_plugin_ninty_shell.Local.{FileEntry}
use dbx_plugin_ninty_shell.Completion.Collect.{in_list}

-- NewSession fails; the command fails, with a flag for errTimeout; or it prints.
pub data Fetched : Type 0 where
  not_opened : Fetched
  no_output : Bool → Fetched
  printed : Bytes → Fetched

abbrev path_mark : Bytes
path_mark = codes "__DBX_PATH__"

-- The directories of the first marked line, and the lines without it.
unfoldable pub take_path_line : List Bytes → Option (List Bytes) × List Bytes
take_path_line [] = (none, [])
take_path_line (l ∷ ls) =
    let line = trim_right (λ c. c == carriage_return) l in
    let rest = take_path_line ls in
    if has_prefix line path_mark
    then (some (split b':' (trim_prefix line path_mark)), ls)
    else (rest.0, l ∷ rest.1)

-- `envSet` and the names that it has, in their order.
unfoldable pub add_env_names : List Bytes → List Bytes → List Bytes
unfolding in_list
add_env_names [] names = names
add_env_names (l ∷ ls) names = elim (is_empty (trim_space l) || in_list (trim_space l) names) [
  | true ↦ add_env_names ls names
  | false ↦ add_env_names ls (names ++ trim_space l ∷ [])
]

-- `commandSet`, with one directory's files.
unfoldable pub add_commands : List FileEntry → List Bytes → List Bytes
unfolding in_list
add_commands [] names = names
add_commands (e ∷ es) names = elim (e.is_dir || in_list e.name names || not e.executable) [
  | true ↦ add_commands es names
  | false ↦ add_commands es (names ++ e.name ∷ [])
]

unfoldable pub all_commands :
    (Bytes → Option (List FileEntry)) → List Bytes → List Bytes → List Bytes
unfolding add_commands
all_commands read_dir [] names = names
all_commands read_dir (dir ∷ dirs) names = elim (read_dir dir) [
  | none ↦ all_commands read_dir dirs names
  | some entries ↦ all_commands read_dir dirs (add_commands entries names)
]

-- The commands, if there is an SFTP client to list the directories.
unfoldable pub with_commands : Option (Bytes → Option (List FileEntry)) → Session → Session
unfolding all_commands
with_commands none s = s
with_commands (some read_dir) s = record s {
  remote_commands = sort_by bytes_lt (all_commands read_dir s.remote_path_dirs s.remote_commands);
}

-- A session that is loaded the first time has neither directories nor names; lines without the mark
-- leave the directories as they are.
unfoldable pub with_names : Bytes → Session → Session
unfolding take_path_line add_env_names
with_names out s =
    let (dirs, lines) = take_path_line (split newline out) in
    record s {
      remote_path_dirs = (elim dirs [ none ↦ s.remote_path_dirs | some found ↦ found ]);
      remote_env_names = sort_by bytes_lt (add_env_names lines s.remote_env_names);
    }

unfoldable pub fetched : Option (Bytes → Option (List FileEntry)) → Fetched → Session → Session
unfolding mark_dead with_commands with_names
fetched sftp not_opened s = (mark_dead s).0
fetched sftp (no_output true) s = (mark_dead s).0
fetched sftp (no_output false) s = s
fetched sftp (printed out) s = with_commands sftp (with_names out s)

unfoldable pub has_client : Session → Bool
has_client s = elim s.ssh_client [ none ↦ false | some client ↦ true ]

unfoldable pub ensure_remote_data :
    Option (Bytes → Option (List FileEntry)) → Fetched → Session → Session
unfolding fetched has_client
ensure_remote_data sftp reply s =
    if s.remote_loaded
    then s
    else if s.dead || not (has_client s)
    then record s { remote_loaded = true }
    else fetched sftp reply (record s { remote_loaded = true })
