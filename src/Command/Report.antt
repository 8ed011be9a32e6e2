-- ===== src/Command/Report.antt =====
-- What the shell/exit event reports of a command.
use mathlib.Core.List.{flatten}
use dbx_plugin_ninty_shell.Base.{
  ◌+◌, ◌≤◌, Bool, false, ◌&&◌, none, some, List, [], ◌∷◌, ◌++◌, ◌≡◌, refl, if◌then◌else◌, length, ℤ,
  Lacks,
}
use dbx_plugin_ninty_shell.Text.{Bytes, newline, is_empty, trim_right, is_line_end, atoi}
use dbx_plugin_ninty_shell.Stream.{max_pty_output_bytes}
use dbx_plugin_ninty_shell.Meta.Ring.{IsMarkerLine, marker_line, ring_recovers}
use dbx_plugin_ninty_shell.Meta.Lines.{meta_line, parse_meta_line_iff}
use dbx_plugin_ninty_shell.Session.{Session, Effect, emit_exit, Outcome, finish}
use dbx_plugin_ninty_shell.Command.Remote.{exec_ring_size, RemoteRun, remote_outcome}
use dbx_plugin_ninty_shell.Command.Local.{LocalEnd, piped, meta_record, read_meta, local_outcome}

-- The session behind a command that reported a code and a directory, and the event; a report without a
-- directory leaves the session's.
abbrev pub reported : Outcome → ℤ → Bytes → Session → Session × List Effect
reported o code dir s =
    let cwd = if is_empty dir then s.cwd else dir in
    (
      record s { busy = false; cancel_fn = none; cwd = cwd },
      emit_exit code cwd o.signal (s.cancelled && o.wait_failed) o.cut ∷ [],
    )

finish_recorded :
    (o : Outcome) (code : ℤ) (dir : Bytes) (s : Session)
    → o.meta ≡ some (code, dir)
    → finish o s ≡ reported o code dir s
unfolding finish
finish_recorded o code dir s e = rw (finish, e) refl

-- A remote command whose output ends in its marker line is reported with the code and directory of that
-- line, whatever it printed before, however the output is cut into chunks and however the channel ended;
-- if the line with its two line feeds fits the ring.
pub remote_reported :
    (sid code dir : Bytes) (n : ℤ) (out : Bytes) (r : RemoteRun) (s : Session)
    → IsMarkerLine sid code dir n
    → flatten r.out ≡ out ++ newline ∷ (marker_line sid code dir ++ newline ∷ [])
    → length (marker_line sid code dir) + 2 ≤ exec_ring_size
    → finish (remote_outcome sid r) s ≡ reported (remote_outcome sid r) n dir s
unfolding remote_outcome
remote_reported sid code dir n out r s line text fits =
    finish_recorded (remote_outcome sid r) n dir s
      (ring_recovers sid code dir line max_pty_output_bytes exec_ring_size out r.out text fits)

-- A local command whose pipe has a line of the tag, a blank, an integer without blanks, a blank and a
-- directory is reported with that code and directory, whatever the process's own status is.
pub local_reported :
    (text code dir : Bytes) (n : ℤ) (end : LocalEnd) (cut : Bool) (s : Session)
    → trim_right is_line_end (read_meta text) ≡ meta_line code dir
    → Lacks b' ' code
    → atoi code ≡ some n
    → finish (local_outcome (piped (some text)) end cut) s
      ≡ reported (local_outcome (piped (some text)) end cut) n dir s
unfolding local_outcome meta_record
local_reported text code dir n end cut s line word reads =
    finish_recorded (local_outcome (piped (some text)) end cut) n dir s
      ((parse_meta_line_iff (read_meta text) n dir).1 (code, line, word, reads))
