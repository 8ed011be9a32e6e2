-- ===== src/Command/Local.antt =====
-- A command on this machine: `startCommand`, `startLocalExec`, `powershellWrapper`,
-- `encodePowerShellScript`, `readMeta` and `readMetaFile` of backend/main.go, `exitStatus` and
-- `exitSignal` of backend/proc_unix.go and backend/proc_windows.go. What the operating system answers
-- is a parameter.
pub mod Cleanup
use dbx_plugin_ninty_shell.Base.{
  ℕ, ◌%◌, ◌/◌, ◌^◌, Bool, true, false, ◌||◌, Option, none, some, List, [], ◌∷◌, ◌++◌, ◌⊎◌, inl, inr,
  if◌then◌else◌, ◌==◌, ℤ, pos, negsuc, not,
}
use dbx_plugin_ninty_shell.Text.{Bytes, codes, newline, is_empty, trim_space, trim_prefix}
use dbx_plugin_ninty_shell.Meta.{MetaRecord, parse_meta_line, parse_meta_file_value}
use dbx_plugin_ninty_shell.Session.{Session, Outcome}
use dbx_plugin_ninty_shell.Local.{
  Machine, Platform, windows, darwin, linux, ShellStyle, posix_shell, powershell_shell, cmd_shell,
  shell_style_for,
}
use dbx_plugin_ninty_shell.Command.{Started}

abbrev pub meta_statement : Bytes
meta_statement = codes "printf '__DBX_META__ %s %s\\n' \"$?\" \"$(pwd)\" >&3\n"

-- strings.ReplaceAll(metaPath, "'", "''")
double_quotes : Bytes → Bytes
double_quotes [] = []
double_quotes (c ∷ s) = (if c == b'\'' then b'\'' ∷ b'\'' ∷ [] else c ∷ []) ++ double_quotes s

-- The lines with a line feed behind each.
in_lines : List Bytes → Bytes
in_lines [] = []
in_lines (l ∷ ls) = l ++ newline ∷ in_lines ls

unfoldable pub powershell_wrapper : Bytes → Bytes → Bytes
unfolding double_quotes in_lines
powershell_wrapper command meta_path = in_lines (
    codes "[Console]::OutputEncoding = [System.Text.Encoding]::UTF8"
    ∷ codes "$OutputEncoding = [System.Text.Encoding]::UTF8"
    ∷ codes "$ErrorActionPreference = 'Continue'"
    ∷ codes "$rc = 0"
    ∷ codes "try {"
    ∷ codes "& {"
    ∷ command
    ∷ codes "}"
    ∷ codes "if (-not $?) { $rc = 1 }"
    ∷ codes "if (($LASTEXITCODE -is [int]) -and ($LASTEXITCODE -ne 0)) { $rc = $LASTEXITCODE }"
    ∷ codes "} catch {"
    ∷ codes "$rc = 1"
    ∷ codes "Write-Error $_"
    ∷ codes "}"
    ∷ (codes "[System.IO.File]::WriteAllText('"
        ++ (double_quotes meta_path
            ++ codes
                "', \"$rc|\" + (Get-Location).Path, (New-Object System.Text.UTF8Encoding($false)))"))
    ∷ [])

-- byte(unit), byte(unit>>8)
unfoldable pub little_endian : List ℕ → Bytes
little_endian [] = []
little_endian (unit ∷ units) = unit % 2 ^ 8 ∷ unit / 2 ^ 8 % 2 ^ 8 ∷ little_endian units

-- What the operating system answers while one command starts; an error is its text, a process a number.
pub record Host : Type 0 where
  pub create_temp : Bytes ⊎ Bytes
  pub pipe_error : Option Bytes
  pub start : List Bytes → Bytes → Bytes ⊎ ℕ

-- What a start does with its resources, in order: the file or the two ends of the pipe.
pub data Resource : Type 0 where
  temp_made temp_removed : Bytes → Resource
  pipe_made writer_closed reader_closed : Resource

-- Where the record of the command will be.
pub data MetaSource : Type 0 where
  from_pipe : MetaSource
  from_file : Bytes → MetaSource
  no_record : MetaSource

-- The command is started, or the error, with what was done.
abbrev pub Spawned : Type 0
Spawned = (Bytes ⊎ ℕ × MetaSource) × List Resource

-- utf16.Encode and base64 are parameters.
module _ (utf16 : Bytes → List ℕ) (base64 : Bytes → Bytes) where
  unfoldable pub encode_power_shell_script : Bytes → Bytes
  encode_power_shell_script script = base64 (little_endian (utf16 script))

  spawned_file : Bytes → Bytes ⊎ ℕ → Spawned
  spawned_file path (inl e) = (inl e, temp_made path ∷ temp_removed path ∷ [])
  spawned_file path (inr pid) = (inr (pid, from_file path), temp_made path ∷ [])

  spawned_pipe : Bytes ⊎ ℕ → Spawned
  spawned_pipe (inl e) = (inl e, pipe_made ∷ writer_closed ∷ reader_closed ∷ [])
  spawned_pipe (inr pid) = (inr (pid, from_pipe), pipe_made ∷ writer_closed ∷ [])

  spawned_plain : Bytes ⊎ ℕ → Spawned
  spawned_plain (inl e) = (inl e, [])
  spawned_plain (inr pid) = (inr (pid, no_record), [])

  with_temp : Host → Bytes → Bytes → Bytes → Bytes ⊎ Bytes → Spawned
  unfolding spawned_file encode_power_shell_script
  with_temp h shell command dir (inl e) = (inl e, [])
  with_temp h shell command dir (inr path) = spawned_file path (
      h.start
        (shell
          ∷ codes "-NoProfile"
          ∷ codes "-NonInteractive"
          ∷ codes "-EncodedCommand"
          ∷ encode_power_shell_script (powershell_wrapper command path)
          ∷ [])
        dir)

  with_pipe : Host → Bytes → Bytes → Bytes → Option Bytes → Spawned
  unfolding spawned_pipe
  with_pipe h shell command dir (some e) = (inl e, [])
  with_pipe h shell command dir none =
      spawned_pipe
        (h.start (shell ∷ codes "-c" ∷ (command ++ (codes "\n" ++ meta_statement)) ∷ []) dir)

  posix_spawn : Platform → Host → Bytes → Bytes → Bytes → Spawned
  unfolding with_pipe spawned_plain
  posix_spawn windows h shell command dir =
      spawned_plain (h.start (shell ∷ codes "-c" ∷ command ∷ []) dir)
  posix_spawn darwin h shell command dir = with_pipe h shell command dir h.pipe_error
  posix_spawn linux h shell command dir = with_pipe h shell command dir h.pipe_error

  styled_spawn : ShellStyle → Platform → Host → Bytes → Bytes → Bytes → Spawned
  unfolding with_temp posix_spawn spawned_plain
  styled_spawn powershell_shell p h shell command dir = with_temp h shell command dir h.create_temp
  styled_spawn cmd_shell p h shell command dir =
      spawned_plain
        (h.start (shell ∷ codes "/C" ∷ (codes "chcp 65001 >nul & " ++ command) ∷ []) dir)
  styled_spawn posix_shell p h shell command dir = posix_spawn p h shell command dir

  unfoldable pub start_command : Machine → Host → Bytes → Bytes → Bytes → Spawned
  unfolding styled_spawn
  start_command m h shell command dir =
      styled_spawn (shell_style_for m m.platform shell) m.platform h shell command dir

  -- The second start, in the home directory, where there is one and the first failed in a directory.
  retried : Machine → Host → Session → Bytes → Bytes → Bytes ⊎ Bytes → Session × Spawned
  unfolding start_command
  retried m again s command e (inl no_home) = (s, (inl e, []))
  retried m again s command e (inr home) =
      let (r, did) = start_command m again s.shell_path command home in
      (elim r [ inl f ↦ s | inr run ↦ record s { cwd = home } ], (r, did))

  first_try : Machine → Host → Session → Bytes → Spawned → Session × Spawned
  unfolding retried
  first_try m again s command (inr run, did) = (s, (inr run, did))
  first_try m again s command (inl e, did) =
      if is_empty s.cwd
      then (s, (inl e, did))
      else let (s', (r, more)) = retried m again s command e m.user_home in (s', (r, did ++ more))

  -- The two hosts answer the two tries.
  unfoldable pub start_local_exec : Machine → Host → Host → Session → Bytes → Session × Spawned
  unfolding first_try
  start_local_exec m h again s command =
      first_try m again s command (start_command m h s.shell_path command s.cwd)

-- ReadString('\n'): the first line with its line feed, or what there is.
unfoldable pub read_meta : Bytes → Bytes
read_meta [] = []
read_meta (c ∷ s) = let rest = read_meta s in if c == newline then c ∷ [] else c ∷ rest

abbrev byte_order_mark : Bytes
byte_order_mark = 239 ∷ 187 ∷ 191 ∷ []

-- The tries to read the file until the deadline.
unfoldable pub read_meta_file : List (Option Bytes) → Bytes
read_meta_file [] = []
read_meta_file (none ∷ tries) = read_meta_file tries
read_meta_file (some text ∷ tries) = trim_space (trim_prefix text byte_order_mark)

-- What cmd.Wait reports: nothing, an exit error with its code, one of a signal with its name, or another
-- error.
pub data LocalEnd : Type 0 where
  ended failed : LocalEnd
  exited : ℤ → LocalEnd
  signalled : Bytes → LocalEnd

-- A signal has the code -1.
unfoldable pub exit_status : LocalEnd → ℤ
exit_status ended = pos 0
exit_status (exited code) = code
exit_status (signalled name) = negsuc 0
exit_status failed = negsuc 0

-- On Windows no error is one of a signal.
unfoldable pub exit_signal : LocalEnd → Bytes
exit_signal ended = []
exit_signal (exited code) = []
exit_signal (signalled name) = name
exit_signal failed = []

abbrev pub has_failed : LocalEnd → Bool
has_failed ended = false
has_failed (exited code) = true
has_failed (signalled name) = true
has_failed failed = true

-- What was read of the record: the text of the pipe, if a line came in time, or the tries at the file.
pub data MetaText : Type 0 where
  piped : Option Bytes → MetaText
  filed : List (Option Bytes) → MetaText
  unread : MetaText

file_record : Bytes → Option MetaRecord
file_record value = if is_empty value then none else parse_meta_file_value value

unfoldable pub meta_record : MetaText → Option MetaRecord
unfolding file_record
meta_record (piped none) = parse_meta_line []
meta_record (piped (some text)) = parse_meta_line (read_meta text)
meta_record (filed tries) = file_record (read_meta_file tries)
meta_record unread = none

-- The first part of `wait`; the rest is `finish` of the session. The flag is whether a stream was cut.
unfoldable pub local_outcome : MetaText → LocalEnd → Bool → Outcome
local_outcome text end cut = record {
  meta = meta_record text;
  status = exit_status end;
  signal = exit_signal end;
  wait_failed = has_failed end;
  cut = cut;
}
