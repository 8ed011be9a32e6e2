-- ===== src/Files/Panel.antt =====
-- The requests of the file panel: `sftpList`, `sftpMkdir`, `sftpDelete` and `sftpRename` of
-- backend/sftpapi.go, behind `sessionFor` and `sftpClient`. The fuel is `removeRemoteTree`'s.
use dbx_plugin_ninty_shell.Base.{
  List, ℕ, Bool, Option, none, some, ◌++◌, ◌⊎◌, inl, inr, ◌||◌, ◌&&◌, if◌then◌else◌, map,
}
use dbx_plugin_ninty_shell.Text.{Bytes, codes}
use dbx_plugin_ninty_shell.Text.Sort.{sort_by}
use dbx_plugin_ninty_shell.Request.{Json, get, as_bool, string_field}
use dbx_plugin_ninty_shell.Plugin.{Sessions}
use dbx_plugin_ninty_shell.Files.{
  with_session, with_client, Info, mkdir_all, remove, remove_directory, posix_rename, Dialog,
  answer, read_dir, stat, act, PanelEntry, Reply, failed, done_path, listed, resolve_remote_path,
  entry_lt, separator, is_root,
}
use dbx_plugin_ninty_shell.Files.Remove.{remove_remote_tree}

-- `fail(text + err.Error())`, or the answer of success
unfoldable pub unless_failed : Bytes → Reply → Option Bytes → Dialog Reply
unless_failed text reply none = answer reply
unless_failed text reply (some err) = answer (failed (text ++ err))

unfoldable pub panel_entry : Bytes → Info → PanelEntry
unfolding separator
panel_entry path i = record {
  name = i.name;
  path = path ++ (separator path ++ i.name);
  is_dir = i.is_dir;
  size = if i.is_dir then 0 else i.size;
  modified = i.modified;
}

unfoldable pub panel_listing : Bytes → Bytes ⊎ List Info → Dialog Reply
unfolding panel_entry
panel_listing path (inl err) =
    answer (failed (codes "Cannot list " ++ (path ++ (codes ": " ++ err))))
panel_listing path (inr es) = answer (listed path (map (panel_entry path) (sort_by entry_lt es)))

unfoldable pub sftp_list : Sessions → Json → Dialog Reply
unfolding panel_listing
sftp_list sessions values = with_session sessions values (λ s. with_client (
    let path = resolve_remote_path s (string_field values (codes "path")) in
    read_dir path (panel_listing path)))

unfoldable pub sftp_mkdir : Sessions → Json → Dialog Reply
unfolding unless_failed
sftp_mkdir sessions values = with_session sessions values (λ s. with_client (
    let path = resolve_remote_path s (string_field values (codes "path")) in
    if is_root path
    then answer (failed (codes "Invalid directory name"))
    else act (mkdir_all path) (unless_failed (codes "Cannot create directory: ") (done_path path))))

-- The part of both delete requests behind the guard on the root; the texts are those of a failure to
-- remove a tree, a directory and a file.
unfoldable pub delete_found :
    ℕ → Bytes → Bool → (Bytes × Bytes × Bytes) → Reply → Info → Dialog Reply
unfolding unless_failed remove_remote_tree
delete_found fuel path recursive (tree_text, dir_text, file_text) reply info =
    if info.is_dir && recursive
    then remove_remote_tree fuel path (unless_failed tree_text reply)
    else if info.is_dir
    then act (remove_directory path) (unless_failed dir_text reply)
    else act (remove path) (unless_failed file_text reply)

unfoldable pub delete_stat :
    ℕ → Bytes → Bool → (Bytes × Bytes × Bytes) → Reply → Bytes ⊎ Info → Dialog Reply
unfolding delete_found
delete_stat fuel path recursive texts reply (inl err) =
    answer (failed (codes "Cannot stat " ++ (path ++ (codes ": " ++ err))))
delete_stat fuel path recursive texts reply (inr info) =
    delete_found fuel path recursive texts reply info

unfoldable pub delete_path : ℕ → Bytes → Bool → (Bytes × Bytes × Bytes) → Reply → Dialog Reply
unfolding delete_stat
delete_path fuel path recursive texts reply =
    if is_root path
    then answer (failed (codes "Refusing to delete the root path"))
    else stat path (delete_stat fuel path recursive texts reply)

abbrev pub sftp_delete_texts : Bytes × Bytes × Bytes
sftp_delete_texts = (
  codes "Cannot delete directory: ",
  codes "Cannot delete directory (use recursive for non-empty): ",
  codes "Cannot delete file: ",
)

unfoldable pub sftp_delete : ℕ → Sessions → Json → Dialog Reply
unfolding delete_path
sftp_delete fuel sessions values = with_session sessions values (λ s. with_client (
    let path = resolve_remote_path s (string_field values (codes "path")) in
    delete_path fuel path (as_bool (get (codes "recursive") values)) sftp_delete_texts
      (done_path path)))

unfoldable pub sftp_rename : Sessions → Json → Dialog Reply
unfolding unless_failed
sftp_rename sessions values = with_session sessions values (λ s. with_client (
    let from = resolve_remote_path s (string_field values (codes "from")) in
    let to = resolve_remote_path s (string_field values (codes "to")) in
    if is_root from || is_root to
    then answer (failed (codes "Invalid rename paths"))
    else act (posix_rename from to) (unless_failed (codes "Cannot rename: ") (done_path to))))
