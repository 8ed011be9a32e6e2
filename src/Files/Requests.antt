-- ===== src/Files/Requests.antt =====
-- The requests that change remote files, from the session's look-up on.
use dbx_plugin_ninty_shell.Base.{◌≡◌, arith, [], false, ◌≢◌, ℕ, Bool, ◌⊎◌, inl, inr, Bool-cases}
use dbx_plugin_ninty_shell.Text.{Bytes, codes, has_prefix, trim_prefix}
use dbx_plugin_ninty_shell.Text.Equal.{bytes_eq_iff}
use dbx_plugin_ninty_shell.Request.{Json, string_field}
use dbx_plugin_ninty_shell.Session.{Session}
use dbx_plugin_ninty_shell.Plugin.{Sessions, session_for, Rejection}
use dbx_plugin_ninty_shell.Files.{
  on_session, on_target, on_client, with_session, with_target, with_client, fs_target, Act,
  mkdir_all, mkdir, remove, remove_directory, posix_rename, Dialog, answer, too_deep, connect,
  read_dir, stat, act, open_file, stat_file, read_file, write_file, close_file, Reply, is_root,
  resolve_remote_path, fs_scheme,
}
use dbx_plugin_ninty_shell.Files.Guard.{
  AllActs, OffRoot, RemovesWithin, delete_within, unless_failed-AllActs,
}
use dbx_plugin_ninty_shell.Files.Panel.{
  sftp_delete_texts, delete_path, sftp_mkdir, sftp_delete, sftp_rename,
}
use dbx_plugin_ninty_shell.Files.Provider.{
  fs_delete_texts, fs_create_directory, fs_delete, fs_rename,
}

AllActs-map :
    {A : Type 0} {P Q : Act → Type 0}
    → ((a : Act) → P a → Q a)
    → (d : Dialog A) → AllActs P d
    → AllActs Q d
unfolding AllActs
AllActs-map f (answer r) h = tt
AllActs-map f too_deep h = tt
AllActs-map f (connect k) h = λ r. AllActs-map f (k r) (h r)
AllActs-map f (read_dir path k) h = λ r. AllActs-map f (k r) (h r)
AllActs-map f (stat path k) h = λ r. AllActs-map f (k r) (h r)
AllActs-map f (act a k) (pa, h) = (f a pa, λ r. AllActs-map f (k r) (h r))
AllActs-map f (open_file path flags k) h = λ r. AllActs-map f (k r) (h r)
AllActs-map f (stat_file file k) h = λ r. AllActs-map f (k r) (h r)
AllActs-map f (read_file file limit k) h = λ r. AllActs-map f (k r) (h r)
AllActs-map f (write_file file bytes k) h = λ r. AllActs-map f (k r) (h r)
AllActs-map f (close_file file k) h = λ r. AllActs-map f (k r) (h r)

within-OffRoot : (path : Bytes) (a : Act) → RemovesWithin path a → OffRoot a
within-OffRoot path (mkdir_all p) h = absurd h
within-OffRoot path (mkdir p) h = absurd h
within-OffRoot path (remove p) h = h.0
within-OffRoot path (remove_directory p) h = h.0
within-OffRoot path (posix_rename p q) h = absurd h

module _ (P : Act → Type 0) where
  on_client-AllActs : (d : Dialog Reply) → AllActs P d → (r : Bytes ⊎ ℕ) → AllActs P (on_client d r)
  unfolding AllActs on_client
  on_client-AllActs d h (inl err) = tt
  on_client-AllActs d h (inr client) = h

  with_client-AllActs : (d : Dialog Reply) → AllActs P d → AllActs P (with_client d)
  unfolding AllActs with_client
  with_client-AllActs d h = on_client-AllActs d h

  on_session-AllActs :
      (k : Session → Dialog Reply)
      → ((s : Session) → AllActs P (k s))
      → (r : Rejection ⊎ Session) → AllActs P (on_session k r)
  unfolding AllActs on_session
  on_session-AllActs k h (inl r) = tt
  on_session-AllActs k h (inr s) = h s

  on_target-AllActs :
      (k : Session → Bytes → Dialog Reply)
      → ((s : Session) (path : Bytes) → AllActs P (k s path))
      → (r : Rejection ⊎ Session × Bytes) → AllActs P (on_target k r)
  unfolding AllActs on_target
  on_target-AllActs k h (inl r) = tt
  on_target-AllActs k h (inr (s, path)) = h s path

mkdir-OffRoot : (sessions : Sessions) (values : Json) → AllActs OffRoot (sftp_mkdir sessions values)
unfolding sftp_mkdir with_session AllActs
mkdir-OffRoot sessions values =
    on_session-AllActs OffRoot _
      (λ s. with_client-AllActs OffRoot _ (
        let path = resolve_remote_path s (string_field values (codes "path")) in
        elim (Bool-cases (is_root path)) [
          | inl e ↦ rw e tt
          | inr e ↦ rw e (e, unless_failed-AllActs OffRoot (codes "Cannot create directory: ") _)
        ]))
      (session_for sessions values)

delete-OffRoot :
    (fuel : ℕ) (path : Bytes) (recursive : Bool) (texts : Bytes × Bytes × Bytes) (reply : Reply)
    → AllActs OffRoot (delete_path fuel path recursive texts reply)
delete-OffRoot fuel path recursive texts reply =
    AllActs-map (within-OffRoot path) _ (delete_within fuel path recursive texts reply)

rename-OffRoot :
    (sessions : Sessions) (values : Json) → AllActs OffRoot (sftp_rename sessions values)
unfolding sftp_rename with_session AllActs
rename-OffRoot sessions values =
    on_session-AllActs OffRoot _
      (λ s. with_client-AllActs OffRoot _ (
        let from = resolve_remote_path s (string_field values (codes "from")) in
        let to = resolve_remote_path s (string_field values (codes "to")) in
        elim (Bool-cases (is_root from)) [
          | inl e ↦ rw e tt
          | inr e ↦ elim (Bool-cases (is_root to)) [
            | inl f ↦ rw (e, f) tt
            | inr f ↦ rw (e, f) ((e, f), unless_failed-AllActs OffRoot (codes "Cannot rename: ") _)
          ]
        ]))
      (session_for sessions values)

create-OffRoot :
    (sessions : Sessions) (values : Json) → AllActs OffRoot (fs_create_directory sessions values)
unfolding fs_create_directory with_target AllActs
create-OffRoot sessions values =
    on_target-AllActs OffRoot _
      (λ s remote. with_client-AllActs OffRoot _ (elim (Bool-cases (is_root remote)) [
        | inl e ↦ rw e tt
        | inr e ↦ rw e (e, unless_failed-AllActs OffRoot (codes "Cannot create directory: ") _)
      ]))
      (fs_target sessions values (codes "uri"))

fs_rename-OffRoot :
    (base : Bytes → Bytes) (sessions : Sessions) (values : Json)
    → AllActs OffRoot (fs_rename base sessions values)
unfolding fs_rename with_target AllActs
fs_rename-OffRoot base sessions values =
    on_target-AllActs OffRoot _
      (λ s source.
        let uri = string_field values (codes "targetUri") in
        let target = resolve_remote_path s (trim_prefix uri fs_scheme) in
        elim (Bool-cases (has_prefix uri fs_scheme)) [
          | inl a ↦ elim (Bool-cases (is_root source)) [
            | inl e ↦ rw (a, e) tt
            | inr e ↦ elim (Bool-cases (is_root target)) [
              | inl f ↦ rw (a, e, f) tt
              | inr f ↦
                  rw (a, e, f)
                    (with_client-AllActs OffRoot _
                      ((e, f), unless_failed-AllActs OffRoot (codes "Cannot rename: ") _))
            ]
          ]
          | inr a ↦ rw a tt
        ])
      (fs_target sessions values (codes "sourceUri"))

sftp_delete-OffRoot :
    (fuel : ℕ) (sessions : Sessions) (values : Json)
    → AllActs OffRoot (sftp_delete fuel sessions values)
unfolding sftp_delete with_session
sftp_delete-OffRoot fuel sessions values =
    on_session-AllActs OffRoot _
      (λ s. with_client-AllActs OffRoot _ (delete-OffRoot fuel _ _ sftp_delete_texts _))
      (session_for sessions values)

fs_delete-OffRoot :
    (fuel : ℕ) (sessions : Sessions) (values : Json)
    → AllActs OffRoot (fs_delete fuel sessions values)
unfolding fs_delete with_target
fs_delete-OffRoot fuel sessions values =
    on_target-AllActs OffRoot _
      (λ s remote. with_client-AllActs OffRoot _ (delete-OffRoot fuel _ _ fs_delete_texts _))
      (fs_target sessions values (codes "uri"))

-- The change is of no path that is empty or "/".
abbrev pub SparesRoot : Act → Type 0
SparesRoot (mkdir_all p) = (p ≢ []) × (p ≢ codes "/")
SparesRoot (mkdir p) = (p ≢ []) × (p ≢ codes "/")
SparesRoot (remove p) = (p ≢ []) × (p ≢ codes "/")
SparesRoot (remove_directory p) = (p ≢ []) × (p ≢ codes "/")
SparesRoot (posix_rename p q) = ((p ≢ []) × (p ≢ codes "/")) × ((q ≢ []) × (q ≢ codes "/"))

is_root-other : (p : Bytes) → is_root p ≡ false → (p ≢ []) × (p ≢ codes "/")
unfolding is_root
is_root-other p h = (λ e. ground (arith, e), λ e. ground (arith, (bytes_eq_iff p (codes "/")).1 e))

OffRoot-SparesRoot : (a : Act) → OffRoot a → SparesRoot a
OffRoot-SparesRoot (mkdir_all p) h = is_root-other p h
OffRoot-SparesRoot (mkdir p) h = is_root-other p h
OffRoot-SparesRoot (remove p) h = is_root-other p h
OffRoot-SparesRoot (remove_directory p) h = is_root-other p h
OffRoot-SparesRoot (posix_rename p q) (hp, hq) = (is_root-other p hp, is_root-other q hq)

-- Whatever the request holds and whatever the server answers, none of the six requests that make a
-- directory, delete or rename, three of the file panel and three of the filesystem provider, asks for a
-- change of the empty path or of the path that is the one byte "/".
pub requests_off_root :
    (fuel : ℕ) (base : Bytes → Bytes) (sessions : Sessions) (values : Json)
    → AllActs SparesRoot (sftp_mkdir sessions values)
      × AllActs SparesRoot (sftp_delete fuel sessions values)
      × AllActs SparesRoot (sftp_rename sessions values)
      × AllActs SparesRoot (fs_create_directory sessions values)
      × AllActs SparesRoot (fs_delete fuel sessions values)
      × AllActs SparesRoot (fs_rename base sessions values)
requests_off_root fuel base sessions values = (
  AllActs-map OffRoot-SparesRoot _ (mkdir-OffRoot sessions values),
  AllActs-map OffRoot-SparesRoot _ (sftp_delete-OffRoot fuel sessions values),
  AllActs-map OffRoot-SparesRoot _ (rename-OffRoot sessions values),
  AllActs-map OffRoot-SparesRoot _ (create-OffRoot sessions values),
  AllActs-map OffRoot-SparesRoot _ (fs_delete-OffRoot fuel sessions values),
  AllActs-map OffRoot-SparesRoot _ (fs_rename-OffRoot base sessions values),
)
