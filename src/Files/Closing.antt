-- ===== src/Files/Closing.antt =====
-- Files that a request opens.
use dbx_plugin_ninty_shell.Base.{ℕ, Option, none, some, List, ◌⊎◌, inl, inr, ◌≡◌, refl, Bool-cases}
use dbx_plugin_ninty_shell.Text.{Bytes, codes}
use dbx_plugin_ninty_shell.Request.{Json, string_field}
use dbx_plugin_ninty_shell.Session.{Session}
use dbx_plugin_ninty_shell.Plugin.{Sessions, Rejection}
use dbx_plugin_ninty_shell.Files.{
  on_target, on_client, with_target, with_client, fs_target, Info, Dialog, answer, too_deep,
  connect, read_dir, stat, act, open_file, stat_file, read_file, write_file, close_file, Reply,
}
use dbx_plugin_ninty_shell.Files.Provider.{
  closing, read_done, read_stat, read_opened, max_bytes, fs_read, write_done, write_opened,
  write_payload, fs_write,
}

-- What became of the one file that a request may open.
pub data Use : Type 0 where
  unopened released : Use
  holding : ℕ → Use

-- A request may answer unless it holds a file.
abbrev pub Ends : Use → Type 0
Ends unopened = Unit
Ends released = Unit
Ends (holding file) = ⊥

-- Whatever the server answers, the dialog opens a file only if it has opened none before, works on the
-- file that it holds only, and ends with none.
unfoldable pub Releases : Use → Dialog Reply → Type 0
Releases u (answer r) = Ends u
Releases u too_deep = Ends u
Releases u (connect k) = (r : Bytes ⊎ ℕ) → Releases u (k r)
Releases u (read_dir path k) = (r : Bytes ⊎ List Info) → Releases u (k r)
Releases u (stat path k) = (r : Bytes ⊎ Info) → Releases u (k r)
Releases u (act a k) = (r : Option Bytes) → Releases u (k r)
Releases u (open_file path flags k) =
    (u ≡ unopened)
    × ((err : Bytes) → Releases released (k (inl err)))
    × ((file : ℕ) → Releases (holding file) (k (inr file)))
Releases u (stat_file file k) = (u ≡ holding file) × ((r : Bytes ⊎ Info) → Releases u (k r))
Releases u (read_file file limit k) = (u ≡ holding file) × ((r : Bytes ⊎ Bytes) → Releases u (k r))
Releases u (write_file file bytes k) = (u ≡ holding file) × ((r : Option Bytes) → Releases u (k r))
Releases u (close_file file k) = (u ≡ holding file) × ((r : Option Bytes) → Releases released (k r))

read_done-Releases :
    (remote : Bytes) (file : ℕ) (info : Info) (r : Bytes ⊎ Bytes)
    → Releases (holding file) (read_done remote file info r)
unfolding Releases read_done closing
read_done-Releases remote file info (inl err) = (refl, λ r. tt)
read_done-Releases remote file info (inr bytes) = (refl, λ r. tt)

read_stat-Releases :
    (remote : Bytes) (limit file : ℕ) (r : Bytes ⊎ Info)
    → Releases (holding file) (read_stat remote limit file r)
unfolding Releases read_stat closing
read_stat-Releases remote limit file (inl err) = (refl, λ r. tt)
read_stat-Releases remote limit file (inr info) = elim (Bool-cases info.is_dir) [
  | inl d ↦ rw d (refl, λ r. tt)
  | inr d ↦ rw d (refl, read_done-Releases remote file info)
]

write_done-Releases :
    (remote bytes : Bytes) (file : ℕ) (r : Option Bytes)
    → Releases (holding file) (write_done remote bytes file r)
unfolding Releases write_done closing
write_done-Releases remote bytes file none = (refl, λ r. tt)
write_done-Releases remote bytes file (some err) = (refl, λ r. tt)

write_payload-Releases :
    (remote : Bytes) (values : Json) (payload : Option Bytes)
    → Releases unopened (write_payload remote values payload)
unfolding Releases write_payload write_opened
write_payload-Releases remote values none = tt
write_payload-Releases remote values (some bytes) =
    (refl, λ err. tt, λ file. (refl, write_done-Releases remote bytes file))

client-Releases :
    (d : Dialog Reply) → Releases unopened d → (r : Bytes ⊎ ℕ) → Releases unopened (on_client d r)
unfolding Releases on_client
client-Releases d h (inl err) = tt
client-Releases d h (inr client) = h

target-Releases :
    (k : Session → Bytes → Dialog Reply)
    → ((s : Session) (path : Bytes) → Releases unopened (k s path))
    → (r : Rejection ⊎ Session × Bytes) → Releases unopened (on_target k r)
unfolding Releases on_target
target-Releases k h (inl reply) = tt
target-Releases k h (inr (s, path)) = h s path

-- Whatever the request holds and whatever the server answers, the provider's reads and writes open at
-- most one file over the whole request, work on that one only, and have closed it when they answer.
pub provider-Releases :
    (platform : ℕ) (decode : Bytes → Option Bytes) (sessions : Sessions) (values : Json)
    → Releases unopened (fs_read platform sessions values)
      × Releases unopened (fs_write decode sessions values)
unfolding Releases fs_read fs_write read_opened with_target with_client
provider-Releases platform decode sessions values = (
  target-Releases _
      (λ s remote. client-Releases _ (
        refl,
        λ err. tt,
        λ file. (refl, read_stat-Releases remote (max_bytes platform values) file),
      ))
      (fs_target sessions values (codes "uri")),
  target-Releases _
      (λ s remote.
        client-Releases _ (
          write_payload-Releases remote values (decode (string_field values (codes "dataBase64")))))
      (fs_target sessions values (codes "uri")),
)
