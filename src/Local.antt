-- ===== src/Local.antt =====
-- This machine: the shell and the directory of a local connection, and the style of a local command,
-- backend/main.go. The operating system and path/filepath are a parameter.

pub mod Connect
mod Scenarios
use mathlib.Core.Path.{subst}
use dbx_plugin_ninty_shell.Base.{
  Bool, true, false, ◌||◌, Option, none, some, List, ◌++◌, ◌⊎◌, inl, inr, drop, if◌then◌else◌, ◌≡◌,
  refl, arith, Bool-cases,
}
use dbx_plugin_ninty_shell.Text.{
  Bytes, codes, is_empty, has_prefix, contains, trim_space, trim_suffix,
}
use dbx_plugin_ninty_shell.Text.Equal.{bytes_eq}
use dbx_plugin_ninty_shell.Text.Words.{to_lower}

-- A file of a directory: its mode's type and, where Info gives it, whether anyone may execute it.
pub record FileEntry : Type 0 where
  pub name : Bytes
  pub is_dir : Bool
  pub is_symlink : Bool
  pub executable : Bool

-- runtime.GOOS; `linux` stands for every other one.
pub data Platform : Type 0 where
  windows darwin linux : Platform

-- What this machine answers: its environment, LookPath, its directories, Stat (whether it is a
-- directory) and the functions of path/filepath. An error is its text or `none`.
pub record Machine : Type 0 where
  pub platform : Platform
  pub environ : List Bytes
  pub user_home : Bytes ⊎ Bytes
  pub path_dirs : List Bytes
  pub look_path : Bytes → Option Bytes
  pub read_dir : Bytes → Option (List FileEntry)
  pub stat : Bytes → Option Bool
  pub absolute : Bytes → Bytes ⊎ Bytes
  pub base : Bytes → Bytes
  pub join : Bytes → Bytes → Bytes
  pub is_abs : Bytes → Bool

-- `err == nil && info.IsDir()`
unfoldable pub is_directory : Machine → Bytes → Bool
is_directory m path = elim (m.stat path) [ none ↦ false | some dir ↦ dir ]

unfoldable pub is_found : Machine → Bytes → Bool
is_found m name = elim (m.look_path name) [ none ↦ false | some path ↦ true ]

unfoldable pub default_shell_path : Platform → Bytes
default_shell_path windows = codes "powershell.exe"
default_shell_path darwin = codes "/bin/zsh"
default_shell_path linux = codes "/bin/bash"

-- The home directory, with what follows the tilde joined to it.
at_home : Bytes ⊎ Bytes → Option Bytes
at_home (inl err) = none
at_home (inr home) = some home

in_home : Machine → Bytes → Bytes ⊎ Bytes → Option Bytes
in_home m rest (inl err) = none
in_home m rest (inr home) = some (m.join home rest)

-- `none` is a path that is not expanded.
unfoldable pub expand_home : Machine → Bytes → Option Bytes
unfolding in_home at_home
expand_home m path =
    if bytes_eq path (codes "~")
    then at_home m.user_home
    else if has_prefix path (codes "~/")
    then in_home m (drop 2 path) m.user_home
    else none

-- The path, expanded where that is possible.
expanded : Machine → Bytes → Bytes
unfolding expand_home
expanded m path = elim (expand_home m path) [ none ↦ path | some home ↦ home ]

found_shell : Bytes → Option Bytes → Bytes ⊎ Bytes
found_shell name none = inl (codes "Shell not found or not executable: " ++ name)
found_shell name (some path) = inr path

unfoldable pub resolve_shell : Machine → Bytes → Bytes ⊎ Bytes
unfolding found_shell expanded default_shell_path
resolve_shell m path =
    let trimmed = trim_space path in
    let name = expanded m (if is_empty trimmed then default_shell_path m.platform else trimmed) in
    found_shell name (m.look_path name)

-- The directory is there.
checked_dir : Bytes → Option Bool → Bytes ⊎ Bytes
checked_dir path none = inl (codes "Working directory not accessible: " ++ path)
checked_dir path (some false) = inl (codes "Not a directory: " ++ path)
checked_dir path (some true) = inr path

absolute_dir : Machine → Bytes ⊎ Bytes → Bytes ⊎ Bytes
unfolding checked_dir
absolute_dir m (inl err) = inl (codes "Invalid working directory: " ++ err)
absolute_dir m (inr path) = checked_dir path (m.stat path)

home_dir : Machine → Bytes ⊎ Bytes → Bytes ⊎ Bytes
unfolding absolute_dir
home_dir m (inl err) = inl (codes "Cannot determine home directory: " ++ err)
home_dir m (inr home) = absolute_dir m (m.absolute home)

unfoldable pub resolve_working_dir : Machine → Bytes → Bytes ⊎ Bytes
unfolding expanded home_dir absolute_dir
resolve_working_dir m path =
    let trimmed = expanded m (trim_space path) in
    if is_empty trimmed then home_dir m m.user_home else absolute_dir m (m.absolute trimmed)

pub data ShellStyle : Type 0 where
  posix_shell powershell_shell cmd_shell : ShellStyle

windows_style : Bytes → ShellStyle
windows_style base =
    if contains base (codes "powershell") || bytes_eq base (codes "pwsh")
    then powershell_shell
    else if bytes_eq base (codes "cmd")
    then cmd_shell
    else posix_shell

unfoldable pub shell_style_for : Machine → Platform → Bytes → ShellStyle
unfolding windows_style
shell_style_for m windows shell_path =
    windows_style (trim_suffix (to_lower (m.base shell_path)) (codes ".exe"))
shell_style_for m darwin shell_path = posix_shell
shell_style_for m linux shell_path = posix_shell

-- The directory that is given was found to be one.
checked_dir_lem :
    (path : Bytes) (o : Option Bool) (dir : Bytes)
    → checked_dir path o ≡ inr dir
    → (path ≡ dir) × (o ≡ some true)
unfolding checked_dir
checked_dir_lem path none dir h = absurd (ground (arith, h))
checked_dir_lem path (some false) dir h = absurd (ground (arith, h))
checked_dir_lem path (some true) dir h = (ground (arith, h), refl)

absolute_dir_lem :
    (m : Machine) (r : Bytes ⊎ Bytes) (dir : Bytes)
    → absolute_dir m r ≡ inr dir
    → m.stat dir ≡ some true
unfolding absolute_dir
absolute_dir_lem m (inl err) dir h = absurd (ground (arith, h))
absolute_dir_lem m (inr path) dir h =
    let (same, there) = checked_dir_lem path (m.stat path) dir h in
    subst (λ p. m.stat p ≡ some true) same there

home_dir_lem :
    (m : Machine) (r : Bytes ⊎ Bytes) (dir : Bytes)
    → home_dir m r ≡ inr dir
    → m.stat dir ≡ some true
unfolding home_dir
home_dir_lem m (inl err) dir h = absurd (ground (arith, h))
home_dir_lem m (inr home) dir h = absolute_dir_lem m (m.absolute home) dir h

picked_dir_lem :
    (m : Machine) (b : Bool) (path dir : Bytes)
    → (if b then home_dir m m.user_home else absolute_dir m (m.absolute path)) ≡ inr dir
    → m.stat dir ≡ some true
picked_dir_lem m true path dir h = home_dir_lem m m.user_home dir h
picked_dir_lem m false path dir h = absolute_dir_lem m (m.absolute path) dir h

pub working_dir_lem :
    (m : Machine) (path dir : Bytes) → resolve_working_dir m path ≡ inr dir → m.stat dir ≡ some true
unfolding resolve_working_dir
working_dir_lem m path dir h =
    let trimmed = expanded m (trim_space path) in picked_dir_lem m (is_empty trimmed) trimmed dir h
