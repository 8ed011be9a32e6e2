-- ===== src/Files.antt =====
-- Remote files: the file panel of backend/sftpapi.go and the filesystem provider of
-- backend/fsprovider.go. A handler is a dialog with the SFTP server: it asks, and goes on with
-- whatever the server answers, so a statement on all answers holds for every server.
pub mod Remove
pub mod Panel
pub mod Provider
pub mod Page
pub mod Order
pub mod Closing
pub mod Guard
pub mod Requests
pub mod Uploads
pub mod Registry
pub mod Delivery
pub mod Download
mod Scenarios
use dbx_plugin_ninty_shell.Base.{
  ℕ, Bool, true, false, Option, none, some, List, [], ◌∷◌, ◌++◌, ◌⊎◌, inl, inr, ◌||◌, ◌&&◌,
  if◌then◌else◌, not,
}
use dbx_plugin_ninty_shell.Text.{
  Bytes, codes, is_empty, has_prefix, has_suffix, trim_prefix, trim_space,
}
use dbx_plugin_ninty_shell.Text.Equal.{bytes_eq}
use dbx_plugin_ninty_shell.Text.Sort.{bytes_lt}
use dbx_plugin_ninty_shell.Request.{Json, request_session_id, string_field}
use dbx_plugin_ninty_shell.Plugin.{Sessions, Rejection, session_for, target_session, not_connected}
use dbx_plugin_ninty_shell.Session.{Session, Effect, is_ssh, mark_dead}

-- os.FileInfo as far as the handlers read it; `modified` is the time in RFC 3339.
pub record Info : Type 0 where
  pub name : Bytes
  pub is_dir : Bool
  pub is_symlink : Bool
  pub size : ℕ
  pub modified : Bytes

-- What changes the server's files by name.
pub data Act : Type 0 where
  mkdir_all mkdir remove remove_directory : Bytes → Act
  posix_rename : Bytes → Bytes → Act

-- The flags of OpenFile that are used, and those of Open.
pub data Flags : Type 0 where
  read_only write_existing write_create_trunc write_create_exclusive : Flags

-- An error as its text, or a value.
abbrev pub Result : Type 0 → Type 0
Result A = Bytes ⊎ A

-- `connect` is `current.sftpClient()`, and `too_deep` stands for a recursion that has used up its fuel.
pub data Dialog (A : Type 0) : Type 0 where
  answer : A → Dialog A
  too_deep : Dialog A
  connect : (Result ℕ → Dialog A) → Dialog A
  read_dir : Bytes → (Result (List Info) → Dialog A) → Dialog A
  stat : Bytes → (Result Info → Dialog A) → Dialog A
  act : Act → (Option Bytes → Dialog A) → Dialog A
  open_file : Bytes → Flags → (Result ℕ → Dialog A) → Dialog A
  stat_file : ℕ → (Result Info → Dialog A) → Dialog A
  read_file : ℕ → ℕ → (Result Bytes → Dialog A) → Dialog A
  write_file : ℕ → Bytes → (Option Bytes → Dialog A) → Dialog A
  close_file : ℕ → (Option Bytes → Dialog A) → Dialog A

-- sftpEntry and fsEntry
pub record PanelEntry : Type 0 where
  pub name : Bytes
  pub path : Bytes
  pub is_dir : Bool
  pub size : ℕ
  pub modified : Bytes

pub record Entry : Type 0 where
  pub name : Bytes
  pub uri : Bytes
  pub kind : Bytes
  pub size : ℕ
  pub modified : Bytes

-- Answers: an object with `success`, an SDK error, or none where the handler panics.
pub data Reply : Type 0 where
  panicked : Reply
  failed : Bytes → Reply
  rejected : ℕ → Bytes → Reply
  done_path : Bytes → Reply
  done_message : Bytes → Reply
  listed : Bytes → List PanelEntry → Reply
  page : List Entry → Bytes → Reply
  contents : Bytes → Bool → Reply

unfoldable pub remote_home : Session → Bytes
remote_home s = if is_empty s.home then codes "/" else s.home

unfoldable pub resolve_remote_path : Session → Bytes → Bytes
resolve_remote_path s path =
    let trimmed = trim_space path in
    if is_empty trimmed || bytes_eq trimmed (codes "~")
    then remote_home s
    else if has_prefix trimmed (codes "~/")
    then remote_home s ++ trim_prefix trimmed (codes "~")
    else trimmed

-- What comes of opening the SFTP connection: a handle, or an error and whether `errors.Is` takes it
-- for the time-out of this package.
pub data Opened : Type 0 where
  opened : ℕ → Opened
  refused : Bool → Bytes → Opened

-- `sftpClient`, with what it does outside; the text of `deadError` is a parameter.
unfoldable pub sftp_client : Bytes → Opened → Session → Session × List Effect × Result ℕ
sftp_client dead_error o s =
    if not (is_ssh s.kind)
    then (s, [], inl (codes "SFTP requires an SSH connection"))
    else (elim s.sftp_conn [
      | some c ↦ (s, [], inr c)
      | none ↦ if s.dead then (s, [], inl dead_error) else elim s.ssh_client [
        | none ↦ (s, [], inl (codes "SSH client is closed"))
        | some h ↦ elim o [
          | opened c ↦ (record s { sftp_conn = some c }, [], inr c)
          | refused time_out e ↦
              let (s', closing) = mark_dead s in
              (
                if time_out then s' else s,
                if time_out then closing else [],
                inl (codes "SFTP setup failed: " ++ e),
              )
        ]
      ]
    ])

-- The order of both listings: directories first, then by name.
unfoldable pub entry_lt : Info → Info → Bool
entry_lt a b =
    if (a.is_dir && b.is_dir) || (not a.is_dir && not b.is_dir)
    then bytes_lt a.name b.name
    else a.is_dir

-- The names of a directory's entries hang on its path by one slash.
unfoldable pub separator : Bytes → Bytes
separator path = if has_suffix path (codes "/") then [] else codes "/"

unfoldable pub is_root : Bytes → Bool
is_root path = is_empty path || bytes_eq path (codes "/")

-- The beginning of the handlers of the file panel.
unfoldable pub on_session : (Session → Dialog Reply) → Rejection ⊎ Session → Dialog Reply
on_session k (inl r) = answer (rejected r.code r.text)
on_session k (inr s) = k s

unfoldable pub with_session : Sessions → Json → (Session → Dialog Reply) → Dialog Reply
with_session sessions values k = on_session k (session_for sessions values)

unfoldable pub on_client : Dialog Reply → Result ℕ → Dialog Reply
on_client d (inl err) = answer (failed err)
on_client d (inr client) = d

unfoldable pub with_client : Dialog Reply → Dialog Reply
with_client d = connect (on_client d)

abbrev pub fs_scheme : Bytes
fs_scheme = codes "sftp://"

-- `fsTarget`: the session and the path that a URI names.
unfoldable pub fs_target : Sessions → Json → Bytes → Rejection ⊎ Session × Bytes
fs_target sessions values key = elim (target_session sessions (request_session_id values)) [
  | none ↦ inl not_connected
  | some s ↦
      let uri = string_field values key in
      if is_empty uri
      then inl (record { code = 32602; text = codes "Missing " ++ key })
      else if not (has_prefix uri fs_scheme)
      then inl (record { code = 32602; text = codes "URI scheme must be sftp://" })
      else inr (s, resolve_remote_path s (trim_prefix uri fs_scheme))
]

unfoldable pub on_target :
    (Session → Bytes → Dialog Reply) → Rejection ⊎ Session × Bytes → Dialog Reply
on_target k (inl r) = answer (rejected r.code r.text)
on_target k (inr (s, path)) = k s path

unfoldable pub with_target :
    Sessions → Json → Bytes → (Session → Bytes → Dialog Reply) → Dialog Reply
with_target sessions values key k = on_target k (fs_target sessions values key)
