-- ===== src/Package/Scenarios.antt =====
-- A package for one target.
use dbx_plugin_ninty_shell.Base.{◌≡◌, refl, inr}
use dbx_plugin_ninty_shell.Text.{Bytes, codes, cut_prefix}
use dbx_plugin_ninty_shell.Package.{
  rewrite_manifest, find_matches, executable_match, executable_entry,
}
use dbx_plugin_ninty_shell.Package.Manifest

abbrev manifest : Bytes
manifest = codes "{\"executable\" : \"bin/x\"}"

rewrite_test :
    rewrite_manifest (codes "linux-x64") (codes "shell") manifest
    ≡ inr (codes "{\"executable\": \"bin/linux-x64/shell\"}")
unfolding rewrite_manifest find_matches executable_match cut_prefix executable_entry
rewrite_test = refl
