-- ===== src/Osc7/Scenarios.antt =====
-- Reports on concrete output.
use dbx_plugin_ninty_shell.Base.{◌≤◌, true, false, some, [], ◌∷◌, ◌++◌, ◌≡◌, refl, length}
use dbx_plugin_ninty_shell.Text.{Bytes, codes, has_prefix, trim_prefix, index, trim_space}
use dbx_plugin_ninty_shell.Osc7.{feed, osc7_uri_to_path}
use dbx_plugin_ninty_shell.Osc7.Scan

abbrev first_half : Bytes
first_half = 27 ∷ 93 ∷ 55 ∷ 59 ∷ codes "file://h/us"

feed_total_example : (p l : Bytes) × (feed [] (codes "ls") ≡ some (p, l)) × (length p ≤ 8196)
feed_total_example = Scan.feed_total [] (codes "ls")

with_host :
    osc7_uri_to_path (codes "file://host/home/%C3%A9") false ≡ codes "/home/" ++ 0xc3 ∷ 0xa9 ∷ []
unfolding osc7_uri_to_path trim_space has_prefix trim_prefix index
with_host = refl

windows_drive : osc7_uri_to_path (codes "file:///C:/Users") true ≡ codes "C:\\Users"
unfolding osc7_uri_to_path trim_space has_prefix trim_prefix index
windows_drive = refl
