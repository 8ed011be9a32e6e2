-- ===== src/Command/Local/Cleanup.antt =====
-- The files and pipes of a local command.
use dbx_plugin_ninty_shell.Base.{
  ℕ, suc, ◌-◌, Option, none, some, List, [], ◌∷◌, ◌++◌, ◌≡◌, refl, ◌∙◌, ap, ◌⊎◌, inl, inr,
  if◌then◌else◌, Bool-cases,
}
use dbx_plugin_ninty_shell.Text.{Bytes, is_empty}
use dbx_plugin_ninty_shell.Text.Equal.{bytes_eq, bytes_eq_refl}
use dbx_plugin_ninty_shell.Session.{Session}
use dbx_plugin_ninty_shell.Local.{
  Machine, Platform, windows, darwin, linux, ShellStyle, posix_shell, powershell_shell, cmd_shell,
  shell_style_for,
}
use dbx_plugin_ninty_shell.Command.Local.{
  Host, Resource, temp_made, temp_removed, pipe_made, writer_closed, reader_closed, MetaSource,
  from_pipe, from_file, no_record, Spawned, spawned_file, spawned_pipe, spawned_plain, with_temp,
  with_pipe, posix_spawn, styled_spawn, start_command, retried, first_try, start_local_exec,
}

-- What is held: temporary files, and open ends of pipes.
pub record Held : Type 0 where
  pub files : List Bytes
  pub readers : ℕ
  pub writers : ℕ

abbrev pub nothing_held : Held
nothing_held = record { files = []; readers = 0; writers = 0 }

abbrev without : Bytes → List Bytes → List Bytes
without path [] = []
without path (p ∷ ps) = let rest = without path ps in if bytes_eq p path then ps else p ∷ rest

use_resource : Resource → Held → Held
use_resource (temp_made path) h = record h { files = path ∷ h.files }
use_resource (temp_removed path) h = record h { files = without path h.files }
use_resource pipe_made h = record h { readers = suc h.readers; writers = suc h.writers }
use_resource writer_closed h = record h { writers = h.writers - 1 }
use_resource reader_closed h = record h { readers = h.readers - 1 }

pub held : List Resource → Held → Held
unfolding use_resource
held [] h = h
held (r ∷ rs) h = held rs (use_resource r h)

held-append : (xs ys : List Resource) (h : Held) → held (xs ++ ys) h ≡ held ys (held xs h)
unfolding held
held-append [] ys h = refl
held-append (x ∷ xs) ys h = held-append xs ys (use_resource x h)

-- What a command that runs needs: the file or the reading end for its record. One that does not run needs
-- nothing.
abbrev pub needed : Bytes ⊎ ℕ × MetaSource → Held
needed (inl e) = nothing_held
needed (inr (pid, from_pipe)) = record { files = []; readers = 1; writers = 0 }
needed (inr (pid, from_file path)) = record { files = path ∷ []; readers = 0; writers = 0 }
needed (inr (pid, no_record)) = nothing_held

abbrev HoldsNeeded : Spawned → Type 0
HoldsNeeded r = held r.1 nothing_held ≡ needed r.0

module _ (utf16 : Bytes → List ℕ) (base64 : Bytes → Bytes) where
  file-HoldsNeeded : (path : Bytes) (r : Bytes ⊎ ℕ) → HoldsNeeded (spawned_file utf16 base64 path r)
  unfolding spawned_file held use_resource
  file-HoldsNeeded path (inl e) = rw (bytes_eq_refl path) refl
  file-HoldsNeeded path (inr pid) = refl

  pipe-HoldsNeeded : (r : Bytes ⊎ ℕ) → HoldsNeeded (spawned_pipe utf16 base64 r)
  unfolding spawned_pipe held use_resource
  pipe-HoldsNeeded (inl e) = refl
  pipe-HoldsNeeded (inr pid) = refl

  plain-HoldsNeeded : (r : Bytes ⊎ ℕ) → HoldsNeeded (spawned_plain utf16 base64 r)
  unfolding spawned_plain held use_resource
  plain-HoldsNeeded (inl e) = refl
  plain-HoldsNeeded (inr pid) = refl

  module _ (h : Host) (shell command dir : Bytes) where
    temp-HoldsNeeded :
        (r : Bytes ⊎ Bytes) → HoldsNeeded (with_temp utf16 base64 h shell command dir r)
    unfolding with_temp held
    temp-HoldsNeeded (inl e) = refl
    temp-HoldsNeeded (inr path) = file-HoldsNeeded path _

    piped-HoldsNeeded :
        (r : Option Bytes) → HoldsNeeded (with_pipe utf16 base64 h shell command dir r)
    unfolding with_pipe held
    piped-HoldsNeeded none = pipe-HoldsNeeded _
    piped-HoldsNeeded (some e) = refl

    posix-HoldsNeeded :
        (p : Platform) → HoldsNeeded (posix_spawn utf16 base64 p h shell command dir)
    unfolding posix_spawn
    posix-HoldsNeeded windows = plain-HoldsNeeded _
    posix-HoldsNeeded darwin = piped-HoldsNeeded h.pipe_error
    posix-HoldsNeeded linux = piped-HoldsNeeded h.pipe_error

    styled-HoldsNeeded :
        (style : ShellStyle) (p : Platform)
        → HoldsNeeded (styled_spawn utf16 base64 style p h shell command dir)
    unfolding styled_spawn
    styled-HoldsNeeded powershell_shell p = temp-HoldsNeeded h.create_temp
    styled-HoldsNeeded cmd_shell p = plain-HoldsNeeded _
    styled-HoldsNeeded posix_shell p = posix-HoldsNeeded p

  retried-HoldsNeeded :
      (m : Machine) (again : Host) (s : Session) (command e : Bytes) (home : Bytes ⊎ Bytes)
      → HoldsNeeded (retried utf16 base64 m again s command e home).1
  unfolding retried start_command held
  retried-HoldsNeeded m again s command e (inl no_home) = refl
  retried-HoldsNeeded m again s command e (inr home) =
      styled-HoldsNeeded again s.shell_path command home (shell_style_for m m.platform s.shell_path)
        m.platform

  first_try-HoldsNeeded :
      (m : Machine) (again : Host) (s : Session) (command : Bytes) (r : Spawned)
      → HoldsNeeded r
      → HoldsNeeded (first_try utf16 base64 m again s command r).1
  unfolding first_try
  first_try-HoldsNeeded m again s command (inr run, did) h = h
  first_try-HoldsNeeded m again s command (inl e, did) h = elim (Bool-cases (is_empty s.cwd)) [
    | inl none_given ↦ rw none_given h
    | inr given ↦
        let more = (retried utf16 base64 m again s command e m.user_home).1.1 in
        rw given (
          held-append did more nothing_held
          ∙ ap (held more) h
          ∙ retried-HoldsNeeded m again s command e m.user_home)
  ]

  -- Whatever the operating system answers to the one or two tries, a command that did not start leaves no
  -- temporary file and no end of a pipe; one that did holds the file or the reading end for its record
  -- and nothing else.
  pub start_local_exec_releases :
      (m : Machine) (h again : Host) (s : Session) (command : Bytes)
      → held (start_local_exec utf16 base64 m h again s command).1.1 nothing_held
        ≡ needed (start_local_exec utf16 base64 m h again s command).1.0
  unfolding start_local_exec start_command
  start_local_exec_releases m h again s command = first_try-HoldsNeeded m again s command _ (
      styled-HoldsNeeded h s.shell_path command s.cwd (shell_style_for m m.platform s.shell_path)
        m.platform)
