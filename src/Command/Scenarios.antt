-- ===== src/Command/Scenarios.antt =====
-- Commands at concrete inputs.
use mathlib.Core.List.{flatten}
use dbx_plugin_ninty_shell.Base.{ℕ, true, ◌⊎◌, none, List, [], ◌∷◌, ◌≡◌, refl, arith, inl, inr, pos}
use dbx_plugin_ninty_shell.Text.{Bytes, codes, last_index, atoi}
use dbx_plugin_ninty_shell.Request.{Json, object, field, end, string}
use dbx_plugin_ninty_shell.Meta.{ring_tag}
use dbx_plugin_ninty_shell.Meta.Ring.{IsMarkerLine, marker_line}
use dbx_plugin_ninty_shell.Session.{Session, ssh, local_shell, finish}
use dbx_plugin_ninty_shell.Session.Fixtures.{new_session}
use dbx_plugin_ninty_shell.Plugin.{Sessions}
use dbx_plugin_ninty_shell.Local.{Machine, linux}
use dbx_plugin_ninty_shell.Command.{Started, exec_command}
use dbx_plugin_ninty_shell.Command.Remote.{RemoteRun, exited, remote_outcome}
use dbx_plugin_ninty_shell.Command.Report
use dbx_plugin_ninty_shell.Command.Report.{reported}
use dbx_plugin_ninty_shell.Command.Requests
use dbx_plugin_ninty_shell.Command.Requests.{ExecOutcome}
use dbx_plugin_ninty_shell.Command.Local.{Host, start_local_exec}
use dbx_plugin_ninty_shell.Command.Local.Cleanup
use dbx_plugin_ninty_shell.Command.Local.Cleanup.{held, nothing_held, needed}

abbrev sid : Bytes
sid = codes "5f"

abbrev dir : Bytes
dir = codes "/tmp/a b"

root_line : IsMarkerLine sid (codes "130") dir (pos 130)
unfolding last_index marker_line ring_tag atoi
root_line = record {
  one_line = omega arith;
  no_return = omega arith;
  first_only = refl;
  code_reads = refl;
  code_word = omega arith;
}

-- Two chunks, cut inside the marker line.
abbrev run : RemoteRun
run = record {
  out = codes "hi\n\n__DBX_ME" ∷ codes "TA__5f__ 130 /tmp/a b\n" ∷ [];
  errors = [];
  end = exited (pos 130);
}

remote_reported_example :
    finish (remote_outcome sid run) (new_session ssh)
    ≡ reported (remote_outcome sid run) (pos 130) dir (new_session ssh)
unfolding marker_line ring_tag flatten
remote_reported_example =
    Report.remote_reported sid (codes "130") dir (pos 130) (codes "hi\n") run (new_session ssh)
      root_line refl (omega arith)

abbrev sessions : Sessions
sessions = (codes "c1", new_session ssh) ∷ []

abbrev request : Json
request = object (
    field (codes "connectionId") (string (codes "c1"))
      (field (codes "command") (string (codes "ls")) end))

abbrev start : Session → Bytes → Started
start s command = (s, [], inr 7)

exec_command_outcome_example :
    ExecOutcome start
      (λ s. s)
      sessions
      request
      (exec_command start (λ s. s) (λ s. s) sessions request)
exec_command_outcome_example =
    Requests.exec_command_outcome start (λ s. s) (λ s. s) sessions request

abbrev machine : Machine
machine = record {
  platform = linux;
  environ = [];
  user_home = inr (codes "/root");
  path_dirs = [];
  look_path = λ name. none;
  read_dir = λ dir. none;
  stat = λ path. none;
  absolute = λ path. inr path;
  base = λ path. path;
  join = λ a b. b;
  is_abs = λ path. true;
}

-- The first try fails, the second comes to a process.
abbrev host : Bytes ⊎ ℕ → Host
host answer = record {
  create_temp = inl (codes "full");
  pipe_error = none;
  start = λ args dir. answer;
}

abbrev utf16 : Bytes → List ℕ
utf16 text = text

abbrev base64 : Bytes → Bytes
base64 text = text

start_local_exec_releases_example :
    held
      (start_local_exec utf16 base64 machine
        (host (inl (codes "no directory")))
        (host (inr 9))
        (new_session local_shell)
        (codes "ls")).1.1
      nothing_held
    ≡ needed
        (start_local_exec utf16 base64 machine
          (host (inl (codes "no directory")))
          (host (inr 9))
          (new_session local_shell)
          (codes "ls")).1.0
start_local_exec_releases_example =
    Cleanup.start_local_exec_releases utf16 base64 machine (host (inl (codes "no directory")))
      (host (inr 9)) (new_session local_shell) (codes "ls")
