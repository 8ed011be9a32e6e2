-- ===== src/Terminal/Scenarios.antt =====
-- Two terminals at work.
use mathlib.Core.List.{flatten}
use dbx_plugin_ninty_shell.Base.{
  inr, List, ℕ, true, false, Option, none, some, [], ◌∷◌, ◌++◌, ◌≡◌, refl, arith, map,
}
use dbx_plugin_ninty_shell.Text.{Bytes, codes, has_prefix, trim_space, index}
use dbx_plugin_ninty_shell.Text.Equal.{bytes_eq}
use dbx_plugin_ninty_shell.Request.{Json, object, field, end, string, number}
use dbx_plugin_ninty_shell.Session.{Session, ssh, emit_cwd}
use dbx_plugin_ninty_shell.Session.Fixtures.{new_session}
use dbx_plugin_ninty_shell.Plugin.{Sessions}
use dbx_plugin_ninty_shell.Terminal.{pty_resize}
use dbx_plugin_ninty_shell.Terminal.Reading.{read_loop, read_of, output, effect}
use dbx_plugin_ninty_shell.Terminal.Reading.Followed
use dbx_plugin_ninty_shell.Terminal.Reading.Followed.{outputs}
use dbx_plugin_ninty_shell.Osc7.{keep_last}
use dbx_plugin_ninty_shell.Local.{Machine, linux, shell_style_for}
use dbx_plugin_ninty_shell.Terminal.Local.{PtyHost, start_local_pty, local_pty_argv}
use dbx_plugin_ninty_shell.Terminal.Local.Cleanup
use dbx_plugin_ninty_shell.Terminal.Local.Cleanup.{PtyOutcome}
use dbx_plugin_ninty_shell.Terminal.Input
use dbx_plugin_ninty_shell.Terminal.Resize
use dbx_plugin_ninty_shell.Terminal.Resize.{ResizeOutcome}

-- A coloured word, and a report that is cut in two, with a prompt behind it.
abbrev word : Bytes
word = 27 ∷ 91 ∷ codes "1mok"

abbrev early_reads : List Bytes
early_reads = word ∷ (27 ∷ 93 ∷ 55 ∷ 59 ∷ codes "file:///home/u") ∷ []

abbrev late_read : Bytes
late_read = codes " b" ++ 7 ∷ codes "$ "

abbrev followed_session : Session
followed_session = record (new_session ssh) { cwd = codes "/home/u b" }

terminal_followed_example :
    read_loop true []
      (map read_of early_reads ++ read_of late_read ∷ read_of (codes "ls") ∷ [])
      (new_session ssh)
    ≡ (
      (read_loop true (keep_last 64 (codes "$ ")) (read_of (codes "ls") ∷ []) followed_session).0,
      outputs early_reads
          ++ effect (emit_cwd (codes "/home/u b"))
            ∷ output late_read
            ∷ (read_loop true
                (keep_last 64 (codes "$ "))
                (read_of (codes "ls") ∷ [])
                followed_session).1,
    )
unfolding has_prefix trim_space bytes_eq index flatten
terminal_followed_example =
    Followed.terminal_followed (codes "/home/u b") true [] word (codes "$ ") early_reads late_read
      (read_of (codes "ls") ∷ []) (new_session ssh) refl refl refl (omega arith) (omega arith)
      (omega arith) (omega arith) refl refl (omega arith) refl refl

abbrev sessions : Sessions
sessions = (codes "c1", new_session ssh) ∷ []

abbrev decode : Bytes → Option Bytes
decode text = some text

abbrev input_request : Json
input_request = object (
    field (codes "connectionId") (string (codes "c1"))
      (field (codes "data") (string (codes "ls\r")) end))

abbrev resize_request : Json
resize_request = object (
    field (codes "connectionId") (string (codes "c1")) (
      field (codes "cols") (number (record { negative = false; whole = 120; fraction = false })) (
        field (codes "rows") (number (record { negative = false; whole = 40; fraction = true }))
          end)))

pty_resize_outcome_example :
    ResizeOutcome sessions resize_request (pty_resize none sessions resize_request)
pty_resize_outcome_example = Resize.pty_resize_outcome none sessions resize_request

abbrev machine : Machine
machine = record {
  platform = linux;
  environ = codes "TERM=dumb" ∷ codes "PATH=/bin" ∷ [];
  user_home = inr (codes "/root");
  path_dirs = [];
  look_path = λ name. none;
  read_dir = λ dir. none;
  stat = λ path. none;
  absolute = λ path. inr path;
  base = λ path. codes "bash";
  join = λ a b. b;
  is_abs = λ path. true;
}

abbrev utf16 : Bytes → List ℕ
utf16 text = text

abbrev base64 : Bytes → Bytes
base64 text = text

abbrev host : PtyHost
host = record {
  make_temp = inr (codes "/tmp/dbx-osc7-1.sh");
  write_error = λ name text. none;
  close_error = none;
  start = λ argv env dir. inr 5;
}

start_local_pty_outcome_example :
    PtyOutcome (start_local_pty utf16 base64 machine host (codes "/bin/bash") (codes "/"))
start_local_pty_outcome_example =
    Cleanup.start_local_pty_outcome utf16 base64 machine host (codes "/bin/bash") (codes "/")

-- The arguments of a bash: the login flag stands in front of the file.
argv_test :
    ((local_pty_argv utf16 base64 machine (codes "/bin/bash")) ++ codes "--rcfile" ∷ [])
    ≡ codes "/bin/bash" ∷ codes "-l" ∷ codes "--rcfile" ∷ []
unfolding local_pty_argv shell_style_for
argv_test = refl
