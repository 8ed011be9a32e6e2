-- ===== src/Files/Download/Copying.antt =====
-- The two files of a download, and where the local one is made.
use dbx_plugin_ninty_shell.Base.{ℕ, false, Option, none, some, [], ◌≡◌, inl, inr}
use dbx_plugin_ninty_shell.Text.{Bytes}
use dbx_plugin_ninty_shell.Session.{Session}
use dbx_plugin_ninty_shell.Local.{Machine}
use dbx_plugin_ninty_shell.Files.{Info, Result}
use dbx_plugin_ninty_shell.Files.Download.{
  Reply, rejected, failed, cancelled, downloaded, Transfer, reply, connect_server, open_remote,
  stat_remote, pick, make_directories, create_local, copy, close_local, close_remote, is_no_file,
  copied,
}

-- How far a download is: the remote file with its path, the local directory, and the local file with its
-- path; the last stage has closed a local file behind a whole copy or without one.
pub data Stage : Type 0 where
  idle : Stage
  reading : Bytes → ℕ → Stage
  placed : Bytes → ℕ → Bytes → Stage
  writing : Bytes → ℕ → Bytes → ℕ → Stage
  whole : Bytes → ℕ → Bytes → ℕ → ℕ → Stage
  left : Bytes → ℕ → Bytes → ℕ → Option ℕ → Stage
  over : Bytes → Option ℕ → Stage

-- The remote file is open.
abbrev pub HasRemote : ℕ → Stage → Type 0
HasRemote h idle = ⊥
HasRemote h (reading path g) = h ≡ g
HasRemote h (placed path g dir) = h ≡ g
HasRemote h (writing path g target l) = h ≡ g
HasRemote h (whole path g target l size) = h ≡ g
HasRemote h (left path g target l size) = h ≡ g
HasRemote h (over target size) = ⊥

-- The remote file is open, and no local file is.
abbrev pub EndsRemote : ℕ → Stage → Type 0
EndsRemote h (reading path g) = h ≡ g
EndsRemote h (placed path g dir) = h ≡ g
EndsRemote h (left path g target l size) = h ≡ g
EndsRemote h _ = ⊥

-- What is over with the remote file, and with the local one.
abbrev pub remote_closed : Stage → Stage
remote_closed (left path g target l size) = over target size
remote_closed _ = over [] none

-- A success names the local file that was made and the size of its whole copy; in every answer both files
-- are closed.
abbrev pub IsOver : Reply → Stage → Type 0
IsOver (downloaded target size) (over made copied) = (target ≡ made) × (copied ≡ some size)
IsOver (downloaded target size) _ = ⊥
IsOver (rejected r) idle = Unit
IsOver (rejected r) _ = ⊥
IsOver (failed text) idle = Unit
IsOver (failed text) (over made copied) = Unit
IsOver (failed text) _ = ⊥
IsOver cancelled (over made copied) = Unit
IsOver cancelled _ = ⊥

abbrev pub MayMake : Bytes → Stage → Type 0
MayMake dir (reading path g) = Unit
MayMake dir _ = ⊥

abbrev pub directory_at : Bytes → Stage → Stage
directory_at dir (reading path g) = placed path g dir
directory_at dir st = st

-- The local file is the base name of the remote path in the directory that was made.
abbrev pub MayCreate : Machine → Bytes → Stage → Type 0
MayCreate m target (placed path g dir) = target ≡ m.join dir (m.base path)
MayCreate m target _ = ⊥

abbrev pub file_at : Bytes → ℕ → Stage → Stage
file_at target l (placed path g dir) = writing path g target l
file_at target l st = st

abbrev pub MayCopy : ℕ → ℕ → Stage → Type 0
MayCopy h l (writing path g target k) = (h ≡ g) × (l ≡ k)
MayCopy h l _ = ⊥

abbrev pub copied_to : ℕ → Stage → Stage
copied_to size (writing path g target l) = whole path g target l size
copied_to size st = st

abbrev pub HasLocal : ℕ → Stage → Type 0
HasLocal h (writing path g target l) = h ≡ l
HasLocal h (whole path g target l size) = h ≡ l
HasLocal h _ = ⊥

abbrev pub local_closed : Stage → Stage
local_closed (writing path g target l) = left path g target l none
local_closed (whole path g target l size) = left path g target l (some size)
local_closed st = st

module _ (m : Machine) where
  -- Whatever the server and this machine answer, the transfer opens one remote file that is no directory
  -- by its name and makes one local file in the directory that it made, works on these only and ends with
  -- both closed.
  unfoldable pub Transfers : Stage → Transfer → Type 0
  Transfers st (reply r) = IsOver r st
  Transfers st (connect_server k) = (r : Result ℕ) → Transfers st (k r)
  Transfers st (open_remote path k) =
      (st ≡ idle)
      × (is_no_file path ≡ false)
      × ((e : Bytes) → Transfers idle (k (inl e)))
      × ((h : ℕ) → Transfers (reading path h) (k (inr h)))
  Transfers st (stat_remote h k) = HasRemote h st × ((r : Result Info) → Transfers st (k r))
  Transfers st (pick k) = (r : Option Bytes) → Transfers st (k r)
  Transfers st (make_directories dir k) =
      MayMake dir st
      × ((e : Bytes) → Transfers st (k (some e)))
      × Transfers (directory_at dir st) (k none)
  Transfers st (create_local target k) =
      MayCreate m target st
      × ((e : Bytes) → Transfers st (k (inl e)))
      × ((l : ℕ) → Transfers (file_at target l st) (k (inr l)))
  Transfers st (copy h l k) =
      MayCopy h l st
      × ((e : Bytes) → Transfers st (k (inl e)))
      × ((size : ℕ) → Transfers (copied_to size st) (k (inr size)))
  Transfers st (close_local l d) = HasLocal l st × Transfers (local_closed st) d
  Transfers st (close_remote h d) = EndsRemote h st × Transfers (remote_closed st) d
