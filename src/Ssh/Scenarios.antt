-- ===== src/Ssh/Scenarios.antt =====
-- An SSH connect with a password.
use dbx_plugin_ninty_shell.Base.{none, [], inl, inr, true}
use dbx_plugin_ninty_shell.Text.{codes}
use dbx_plugin_ninty_shell.Request.{Json, object, field, end, string}
use dbx_plugin_ninty_shell.Local.{Machine, linux}
use dbx_plugin_ninty_shell.Ssh.{KeyFiles, ssh_probe, connect_ssh}
use dbx_plugin_ninty_shell.Ssh.Outcome
use dbx_plugin_ninty_shell.Ssh.Outcome.{SshOutcome}

abbrev machine : Machine
machine = record {
  platform = linux;
  environ = [];
  user_home = inr (codes "/root");
  path_dirs = [];
  look_path = λ name. none;
  read_dir = λ dir. none;
  stat = λ path. none;
  absolute = λ path. inr path;
  base = λ path. path;
  join = λ a b. b;
  is_abs = λ path. true;
}

abbrev keys : KeyFiles
keys = record {
  read_file = λ path. inl (codes "no such file");
  parse_private_key = λ key. inl (codes "no key");
  parse_private_key_with_passphrase = λ key passphrase. inl (codes "no key");
}

abbrev request : Json
request = object (
    field (codes "host") (string (codes "h")) (
      field (codes "username") (string (codes "u"))
        (field (codes "password") (string (codes "p")) end)))

connect_ssh_outcome_example :
    SshOutcome
      (codes "c1")
      (ssh_probe machine keys request)
      (connect_ssh machine keys (codes "ab") request (codes "c1"))
connect_ssh_outcome_example =
    Outcome.connect_ssh_outcome machine keys (codes "ab") request (codes "c1")
