-- ===== src/Files/Download.antt =====
-- `sftpDownload` of backend/sftpapi.go, which copies a remote file into a directory of this machine, and
-- the opening of an upload's file, `sftpUploadBegin` up to its registry.
pub mod Copying
use dbx_plugin_ninty_shell.Base.{
  ℕ, Bool, true, false, ◌||◌, Option, none, some, List, [], ◌∷◌, ◌++◌, ◌⊎◌, inl, inr, if◌then◌else◌,
}
use dbx_plugin_ninty_shell.Text.{Bytes, codes, is_empty, has_suffix, trim_space}
use dbx_plugin_ninty_shell.Request.{Json, get, as_bool, string_field}
use dbx_plugin_ninty_shell.Plugin.{Sessions, Rejection, session_for}
use dbx_plugin_ninty_shell.Session.{Session}
use dbx_plugin_ninty_shell.Local.{Machine, expand_home}
use dbx_plugin_ninty_shell.Files.{
  Info, Result, resolve_remote_path, Dialog, answer, connect, open_file, write_create_trunc,
}

-- The answer of a download.
pub data Reply : Type 0 where
  rejected : Rejection → Reply
  failed : Bytes → Reply
  cancelled : Reply
  downloaded : Bytes → ℕ → Reply

-- What a download asks of the server and of this machine, in order. A file is a number, an error its
-- text; `pick` is the chooser of directories, which may be cancelled, and `copy` is io.Copy with the
-- number of bytes.
pub data Transfer : Type 0 where
  reply : Reply → Transfer
  connect_server : (Result ℕ → Transfer) → Transfer
  open_remote : Bytes → (Result ℕ → Transfer) → Transfer
  stat_remote : ℕ → (Result Info → Transfer) → Transfer
  pick : (Option Bytes → Transfer) → Transfer
  make_directories : Bytes → (Option Bytes → Transfer) → Transfer
  create_local : Bytes → (Result ℕ → Transfer) → Transfer
  copy : ℕ → ℕ → (Result ℕ → Transfer) → Transfer
  close_local : ℕ → Transfer → Transfer
  close_remote : ℕ → Transfer → Transfer

-- `path == "" || strings.HasSuffix(path, "/")`
unfoldable pub is_no_file : Bytes → Bool
is_no_file path = is_empty path || has_suffix path (codes "/")

-- The deferred Close.
end_remote : ℕ → Reply → Transfer
end_remote remote r = close_remote remote (reply r)

end_both : ℕ → ℕ → Reply → Transfer
unfolding end_remote
end_both remote local r = close_local local (end_remote remote r)

module _ (m : Machine) (values : Json) where
  -- The directory that was asked for or picked, with the home directory for a tilde or for nothing.
  -- An unknown home directory is the empty text.
  unfoldable pub local_directory : Bytes → Bytes
  local_directory asked =
      let expanded : Bytes = elim (expand_home m asked) [ none ↦ asked | some dir ↦ dir ] in
      if is_empty (trim_space expanded)
      then m.join (elim m.user_home [ inl err ↦ [] | inr home ↦ home ]) (codes "Downloads")
      else expanded

  module _ (path : Bytes) (remote : ℕ) where
    copied : Bytes → ℕ → Result ℕ → Transfer
    unfolding end_both
    copied target local (inl e) = end_both remote local (failed (codes "Download failed: " ++ e))
    copied target local (inr size) = end_both remote local (downloaded target size)

    created : Bytes → Result ℕ → Transfer
    unfolding end_remote copied
    created target (inl e) = end_remote remote (failed (codes "Cannot create local file: " ++ e))
    created target (inr local) = copy remote local (copied target local)

    directory_made : Bytes → Option Bytes → Transfer
    unfolding end_remote created
    directory_made dir (some e) =
        end_remote remote (failed (codes "Cannot create local directory: " ++ e))
    directory_made dir none =
        create_local (m.join dir (m.base path)) (created (m.join dir (m.base path)))

    into_directory : Bytes → Transfer
    unfolding local_directory directory_made
    into_directory asked =
        make_directories (local_directory asked) (directory_made (local_directory asked))

    picked : Option Bytes → Transfer
    unfolding end_remote into_directory
    picked none = end_remote remote cancelled
    picked (some chosen) = into_directory chosen

    with_directory : Bool → Transfer
    unfolding picked into_directory
    with_directory true = pick picked
    with_directory false = into_directory (string_field values (codes "localDir"))

    not_directory : Bool → Transfer
    unfolding end_remote with_directory
    not_directory true = end_remote remote (failed (codes "Cannot download a directory"))
    not_directory false = with_directory (as_bool (get (codes "pickDir") values))

    remote_stat : Result Info → Transfer
    unfolding end_remote not_directory
    remote_stat (inl e) = end_remote remote (failed (codes "Cannot stat remote file: " ++ e))
    remote_stat (inr info) = not_directory info.is_dir

  remote_opened : Bytes → Result ℕ → Transfer
  unfolding remote_stat
  remote_opened path (inl e) = reply (failed (codes "Cannot open remote file: " ++ e))
  remote_opened path (inr remote) = stat_remote remote (remote_stat path remote)

  download_from : Bytes → Transfer
  unfolding remote_opened
  download_from path =
      if is_no_file path
      then reply (failed (codes "Invalid download path"))
      else open_remote path (remote_opened path)

  server_connected : Session → Result ℕ → Transfer
  unfolding download_from
  server_connected s (inl e) = reply (failed e)
  server_connected s (inr client) =
      download_from (resolve_remote_path s (string_field values (codes "path")))

  download_found : Rejection ⊎ Session → Transfer
  unfolding server_connected
  download_found (inl r) = reply (rejected r)
  download_found (inr s) = connect_server (server_connected s)

  unfoldable pub sftp_download : Sessions → Transfer
  unfolding download_found
  sftp_download sessions = download_found (session_for sessions values)

-- An answer without success, or the path and its file for the registry.
abbrev pub Begun : Type 0
Begun = Reply ⊎ Bytes × ℕ

upload_opened : Bytes → Result ℕ → Dialog Begun
upload_opened path (inl e) = answer (inl (failed (codes "Cannot open remote file: " ++ e)))
upload_opened path (inr file) = answer (inr (path, file))

upload_to : Bytes → Dialog Begun
unfolding upload_opened
upload_to path =
    if is_no_file path
    then answer (inl (failed (codes "Invalid upload path")))
    else open_file path write_create_trunc (upload_opened path)

upload_connected : Json → Session → Result ℕ → Dialog Begun
unfolding upload_to
upload_connected values s (inl e) = answer (inl (failed e))
upload_connected values s (inr client) =
    upload_to (resolve_remote_path s (string_field values (codes "path")))

upload_found : Json → Rejection ⊎ Session → Dialog Begun
unfolding upload_connected
upload_found values (inl r) = answer (inl (rejected r))
upload_found values (inr s) = connect (upload_connected values s)

unfoldable pub open_upload : Sessions → Json → Dialog Begun
unfolding upload_found
open_upload sessions values = upload_found values (session_for sessions values)
