-- ===== src/Files/Order.antt =====
-- The order of the listings.
use dbx_plugin_ninty_shell.Base.{true, false, List, ◌≡◌, [], ◌∷◌, ◌⊎◌}
use dbx_plugin_ninty_shell.Text.Sort.{AreBelow}
use dbx_plugin_ninty_shell.Files.{Info}

-- A directory before what is none, else by name.
abbrev pub IsEntryBelow : Info → Info → Type 0
IsEntryBelow a b =
    ((a.is_dir ≡ true) × (b.is_dir ≡ false))
    ⊎ (a.is_dir ≡ b.is_dir) × AreBelow (a.name ∷ []) (b.name ∷ [])
