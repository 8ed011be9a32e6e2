-- ===== src/Files/Provider.antt =====
-- The filesystem provider: `fsList`, `fsRead`, `fsWrite`, `fsCreateDirectory`, `fsDelete` and
-- `fsRename` of backend/fsprovider.go. The fuel is `removeRemoteTree`'s; base64 is a parameter.
use dbx_plugin_ninty_shell.Base.{
  ℕ, ◌+◌, ◌*◌, Bool, Option, none, some, List, [], ◌∷◌, ◌++◌, ◌⊎◌, inl, inr, ◌||◌, ◌&&◌, not,
  if◌then◌else◌, length, ltb,
}
use dbx_plugin_ninty_shell.Text.{Bytes, codes, has_prefix, trim_prefix}
use dbx_plugin_ninty_shell.Text.Decimal.{decimal}
use dbx_plugin_ninty_shell.Text.Sort.{sort_by}
use dbx_plugin_ninty_shell.Request.{Json, get, as_bool, as_number, string_field, is_positive}
use dbx_plugin_ninty_shell.Plugin.{Sessions}
use dbx_plugin_ninty_shell.Files.{
  with_target, with_client, Info, mkdir, posix_rename, Dialog, answer, read_dir, stat, act,
  open_file, stat_file, read_file, write_file, close_file, Flags, read_only, write_existing,
  write_create_trunc, write_create_exclusive, Entry, Reply, failed, panicked, rejected,
  done_message, page, contents, resolve_remote_path, entry_lt, separator, is_root, fs_scheme,
}
use dbx_plugin_ninty_shell.Files.Panel.{unless_failed, delete_path}
use dbx_plugin_ninty_shell.Files.Page.{fs_limit, fs_cursor, cut_page, next_cursor, int_of}

-- The kind of an entry; for a symbolic link what the server says of its target, a size for files only.
target_kind : Bytes ⊎ Info → Bytes
target_kind (inl err) = codes "symlink"
target_kind (inr info) = if info.is_dir then codes "directory" else codes "symlink"

fs_entry : Bytes → Info → Bytes → ℕ → Entry
unfolding separator
fs_entry remote i kind size = record {
  name = i.name;
  uri = fs_scheme ++ (remote ++ (separator remote ++ i.name));
  kind = kind;
  size = size;
  modified = i.modified;
}

-- The loop over the entries of a page.
unfoldable pub fs_entries : Bytes → List Info → (List Entry → Dialog Reply) → Dialog Reply
unfolding fs_entry target_kind
fs_entries remote [] k = k []
fs_entries remote (i ∷ is) k =
    let later = λ (e : Entry). fs_entries remote is (λ es. k (e ∷ es)) in
    if i.is_dir
    then later (fs_entry remote i (codes "directory") 0)
    else if i.is_symlink
    then stat (remote ++ (separator remote ++ i.name))
        (λ r. later (fs_entry remote i (target_kind r) 0))
    else later (fs_entry remote i (codes "file") i.size)

unfoldable pub fs_page : Bytes → ℕ → Option (List Info × Bool) → Dialog Reply
unfolding fs_entries
fs_page remote skip none = answer panicked
fs_page remote skip (some (is, truncated)) =
    fs_entries remote is
      (λ es. answer (page es (if truncated then next_cursor (skip + length es) else [])))

unfoldable pub fs_listing : ℕ → Json → Bytes → Bytes ⊎ List Info → Dialog Reply
unfolding fs_page
fs_listing platform values remote (inl err) =
    answer (failed (codes "Cannot list " ++ (remote ++ (codes ": " ++ err))))
fs_listing platform values remote (inr es) =
    fs_page remote (fs_cursor values)
      (cut_page (fs_limit platform values) (fs_cursor values) (sort_by entry_lt es))

-- `platform` is what int(v) gives for a limit that no int holds.
unfoldable pub fs_list : ℕ → Sessions → Json → Dialog Reply
unfolding fs_listing
fs_list platform sessions values =
    with_target sessions values (codes "uri")
      (λ s remote. with_client (read_dir remote (fs_listing platform values remote)))

unfoldable pub max_bytes : ℕ → Json → ℕ
max_bytes platform values = elim (as_number (get (codes "maxBytes") values)) [
  | none ↦ 4 * 1024 * 1024
  | some v ↦ if is_positive v then int_of platform v else 4 * 1024 * 1024
]

-- `defer file.Close()`: the answer is given when the file is closed.
unfoldable pub closing : ℕ → Reply → Dialog Reply
closing file reply = close_file file (λ r. answer reply)

unfoldable pub read_done : Bytes → ℕ → Info → Bytes ⊎ Bytes → Dialog Reply
unfolding closing
read_done remote file info (inl err) =
    closing file (failed (codes "Cannot read " ++ (remote ++ (codes ": " ++ err))))
read_done remote file info (inr bytes) =
    closing file (contents bytes (ltb (length bytes) info.size))

unfoldable pub read_stat : Bytes → ℕ → ℕ → Bytes ⊎ Info → Dialog Reply
unfolding closing read_done
read_stat remote limit file (inl err) =
    closing file (failed (codes "Cannot stat " ++ (remote ++ (codes ": " ++ err))))
read_stat remote limit file (inr info) =
    if info.is_dir
    then closing file (failed (codes "Cannot read a directory"))
    else read_file file limit (read_done remote file info)

unfoldable pub read_opened : Bytes → ℕ → Bytes ⊎ ℕ → Dialog Reply
unfolding read_stat
read_opened remote limit (inl err) =
    answer (failed (codes "Cannot open " ++ (remote ++ (codes ": " ++ err))))
read_opened remote limit (inr file) = stat_file file (read_stat remote limit file)

unfoldable pub fs_read : ℕ → Sessions → Json → Dialog Reply
unfolding read_opened max_bytes
fs_read platform sessions values = with_target sessions values (codes "uri") (λ s remote.
    with_client (open_file remote read_only (read_opened remote (max_bytes platform values))))

unfoldable pub write_flags : Bool → Bool → Flags
write_flags create overwrite =
    if create && overwrite
    then write_create_trunc
    else if create
    then write_create_exclusive
    else write_existing

unfoldable pub write_done : Bytes → Bytes → ℕ → Option Bytes → Dialog Reply
unfolding closing
write_done remote bytes file (some err) = closing file (failed (codes "Write failed: " ++ err))
write_done remote bytes file none =
    closing file
      (done_message (codes "Wrote " ++ (decimal (length bytes) ++ (codes " bytes to " ++ remote))))

unfoldable pub write_opened : Bytes → Bytes → Bytes ⊎ ℕ → Dialog Reply
unfolding write_done
write_opened remote bytes (inl err) =
    answer (failed (codes "Cannot open " ++ (remote ++ (codes ": " ++ err))))
write_opened remote bytes (inr file) = write_file file bytes (write_done remote bytes file)

unfoldable pub write_payload : Bytes → Json → Option Bytes → Dialog Reply
unfolding write_opened write_flags
write_payload remote values none = answer (failed (codes "Invalid write payload encoding"))
write_payload remote values (some bytes) =
    open_file remote
      (write_flags (as_bool (get (codes "create") values))
        (as_bool (get (codes "overwrite") values)))
      (write_opened remote bytes)

unfoldable pub fs_write : (Bytes → Option Bytes) → Sessions → Json → Dialog Reply
unfolding write_payload
fs_write decode sessions values = with_target sessions values (codes "uri") (λ s remote.
    with_client (write_payload remote values (decode (string_field values (codes "dataBase64")))))

unfoldable pub fs_create_directory : Sessions → Json → Dialog Reply
unfolding unless_failed
fs_create_directory sessions values = with_target sessions values (codes "uri") (λ s remote.
    with_client (
      if is_root remote
      then answer (failed (codes "Invalid directory path"))
      else act (mkdir remote) (
          unless_failed (codes "Cannot create directory: ")
            (done_message (codes "Created " ++ remote)))))

abbrev pub fs_delete_texts : Bytes × Bytes × Bytes
fs_delete_texts = (
  codes "Cannot delete directory: ",
  codes "Cannot delete directory: ",
  codes "Cannot delete file: ",
)

unfoldable pub fs_delete : ℕ → Sessions → Json → Dialog Reply
unfolding delete_path
fs_delete fuel sessions values = with_target sessions values (codes "uri") (λ s remote.
    with_client (
      delete_path fuel remote (as_bool (get (codes "recursive") values)) fs_delete_texts
        (done_message (codes "Deleted " ++ remote))))

-- `base` is path.Base of Go's path package.
unfoldable pub fs_rename : (Bytes → Bytes) → Sessions → Json → Dialog Reply
unfolding unless_failed
fs_rename base sessions values = with_target sessions values (codes "sourceUri") (λ s source.
    let uri = string_field values (codes "targetUri") in
    let target = resolve_remote_path s (trim_prefix uri fs_scheme) in
    if not (has_prefix uri fs_scheme)
    then answer (rejected 32602 (codes "URI scheme must be sftp://"))
    else if is_root source || is_root target
    then answer (failed (codes "Invalid rename paths"))
    else with_client (
        act (posix_rename source target) (
          unless_failed (codes "Cannot rename: ")
            (done_message (codes "Renamed to " ++ base target)))))
