-- ===== src/Session/Fixtures.antt =====
-- A session of each kind, as the scenarios use it.
use dbx_plugin_ninty_shell.Base.{false, none, some, []}
use dbx_plugin_ninty_shell.Text.{codes}
use dbx_plugin_ninty_shell.Session.{Kind, Session}

abbrev pub new_session : Kind → Session
new_session kind = record {
  id = codes "c1";
  kind = kind;
  shell_path = codes "/bin/sh";
  sid = [];
  home = [];
  ssh_client = some 1;
  sftp_conn = none;
  root_enabled = false;
  root_user = [];
  root_password = codes "x";
  root_home = [];
  root_sftp_path = [];
  root_sftp_conn = none;
  root_sftp_session = none;
  local_pty = none;
  pty_closed = false;
  stopping = false;
  inject_osc7 = false;
  osc7_injected = false;
  pty_session = some 2;
  pty_stdin = some 2;
  remote_loaded = false;
  remote_commands = [];
  remote_env_names = [];
  remote_path_dirs = [];
  dead = false;
  cwd = codes "/";
  busy = false;
  cancelled = false;
  cancel_fn = none;
  done = none;
}
