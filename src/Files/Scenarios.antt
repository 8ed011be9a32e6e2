-- ===== src/Files/Scenarios.antt =====
-- Remote files at concrete inputs.
use dbx_plugin_ninty_shell.Base.{
  ℕ, false, true, none, some, List, [], ◌∷◌, ◌++◌, ◌≡◌, refl, arith, Option, inr, map, ◌%◌, ◌^◌,
  if◌then◌else◌,
}
use dbx_plugin_ninty_shell.Text.{Bytes, codes}
use dbx_plugin_ninty_shell.Text.Equal.{bytes_eq}
use dbx_plugin_ninty_shell.Request.{Json, object, field, end, string}
use dbx_plugin_ninty_shell.Plugin.{Sessions}
use dbx_plugin_ninty_shell.Files.{Info, Dialog, answer}
use dbx_plugin_ninty_shell.Files.Remove
use dbx_plugin_ninty_shell.Files.Remove.{
  depth, Tree, no_more, entry, Listing, removals, run, remove_remote_tree, entries,
}
use dbx_plugin_ninty_shell.Files.Page
use dbx_plugin_ninty_shell.Files.Page.{cursor_skip, next_cursor, follow}
use dbx_plugin_ninty_shell.Files.Order
use dbx_plugin_ninty_shell.Session.Fixtures.{new_session}
use dbx_plugin_ninty_shell.Session.{ssh}
use dbx_plugin_ninty_shell.Local.{Machine, linux}
use dbx_plugin_ninty_shell.Files.Download.Copying
use dbx_plugin_ninty_shell.Files.Closing
use dbx_plugin_ninty_shell.Files.Closing.{Releases, unopened}
use dbx_plugin_ninty_shell.Files.Guard
use dbx_plugin_ninty_shell.Files.Guard.{AllActs, OffRoot}
use dbx_plugin_ninty_shell.Files.Panel.{sftp_delete, sftp_mkdir, sftp_rename}
use dbx_plugin_ninty_shell.Files.Provider.{
  fs_read, fs_write, fs_create_directory, fs_delete, fs_rename,
}
use dbx_plugin_ninty_shell.Files.Requests
use dbx_plugin_ninty_shell.Files.Requests.{SparesRoot}
use dbx_plugin_ninty_shell.Files.Uploads.{
  upload_begin, upload_end, peek_upload, wrote, closed, finished,
}
use dbx_plugin_ninty_shell.Files.Delivery
use dbx_plugin_ninty_shell.Files.Delivery.{
  Request, begin_at, chunk_at, end_at, run_requests, chunks, total,
}

abbrev three : List ℕ
three = 7 ∷ 8 ∷ 9 ∷ []

pages_cover_example : follow 4 2 three [] ≡ some three
pages_cover_example = Page.pages_cover 2 three (omega arith) (omega arith) (omega arith)

abbrev a_tree : Tree
a_tree =
    entry (record { name = codes "d"; is_dir = true; is_symlink = false; size = 0; modified = [] })
      (entry
        (record { name = codes "f"; is_dir = false; is_symlink = false; size = 3; modified = [] })
        no_more no_more)
      no_more

-- "/t" holds "d", which holds the file "f".
abbrev a_listing : Listing
a_listing path =
    if bytes_eq path (codes "/t")
    then inr (entries a_tree)
    else inr (
        record { name = codes "f"; is_dir = false; is_symlink = false; size = 3; modified = [] }
        ∷ [])

abbrev answer_with : Option Bytes → Dialog (Option Bytes)
answer_with r = answer r

tree_removed_example : run a_listing (remove_remote_tree 2 (codes "/t") answer_with) ≡ (
  removals (codes "/t") a_tree ++ (run a_listing (answer_with none)).0,
  (run a_listing (answer_with none)).1,
)
unfolding bytes_eq depth entries
tree_removed_example =
    let deep : depth a_tree ≡ 2 = refl in
    Remove.tree_removed a_listing a_tree 2 (codes "/t") answer_with (omega (arith, deep)) refl
      (λ yes_dir. (refl, (λ no_dir. absurd (ground (arith, no_dir)), tt)), tt)

abbrev a_request : Json
a_request = object (
    field (codes "connectionId") (string (codes "c")) (
      field (codes "path") (string (codes "/"))
        (field (codes "uri") (string (codes "sftp:///t")) end)))

abbrev the_sessions : Sessions
the_sessions = (codes "c", new_session ssh) ∷ []

requests_off_root_example :
    AllActs SparesRoot (sftp_mkdir the_sessions a_request)
    × AllActs SparesRoot (sftp_delete 2 the_sessions a_request)
    × AllActs SparesRoot (sftp_rename the_sessions a_request)
    × AllActs SparesRoot (fs_create_directory the_sessions a_request)
    × AllActs SparesRoot (fs_delete 2 the_sessions a_request)
    × AllActs SparesRoot (fs_rename (λ p. p) the_sessions a_request)
requests_off_root_example = Requests.requests_off_root 2 (λ p. p) the_sessions a_request

abbrev some_requests : List Request
some_requests =
    chunk_at (codes "u") (some (1 ∷ 2 ∷ [])) none
    ∷ begin_at (codes "v") 8
    ∷ chunk_at (codes "v") none none
    ∷ chunk_at (codes "u") (some (3 ∷ [])) none
    ∷ []

upload_delivers_example :
    let (last, events) = run_requests (codes "u") some_requests (upload_begin (codes "u") 7 []).0 in
    (events ≡ map (wrote 7) (chunks (codes "u") some_requests))
    × ((upload_end (codes "u") none last).1 ≡ closed 7 ∷ [])
    × ((upload_end (codes "u") none last).2
        ≡ finished (total (chunks (codes "u") some_requests) % 2 ^ 64))
    × (peek_upload (codes "u") (upload_end (codes "u") none last).0 ≡ none)
unfolding bytes_eq
upload_delivers_example =
    Delivery.upload_delivers (codes "u") 7 some_requests [] refl (refl, (refl, tt))

abbrev two_entries : List Info
two_entries =
    record { name = codes "z"; is_dir = false; is_symlink = false; size = 3; modified = [] }
    ∷ record { name = codes "a"; is_dir = true; is_symlink = false; size = 0; modified = [] }
    ∷ []

provider-Releases_example :
    Releases unopened (fs_read 0 the_sessions a_request)
    × Releases unopened (fs_write (λ t. some t) the_sessions a_request)
provider-Releases_example = Closing.provider-Releases 0 (λ t. some t) the_sessions a_request

abbrev a_machine : Machine
a_machine = record {
  platform = linux;
  environ = [];
  user_home = inr (codes "/root");
  path_dirs = [];
  look_path = λ name. none;
  read_dir = λ dir. none;
  stat = λ path. none;
  absolute = λ path. inr path;
  base = λ path. path;
  join = λ a b. b;
  is_abs = λ path. true;
}
