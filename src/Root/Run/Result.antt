-- ===== src/Root/Run/Result.antt =====
-- The result of a root command.
use dbx_plugin_ninty_shell.Base.{ℕ, none, List, length, ltb, take, pos}
use dbx_plugin_ninty_shell.Text.{Bytes}
use dbx_plugin_ninty_shell.Stream.{LimitedBuffer}
use dbx_plugin_ninty_shell.Session.{Session}
use dbx_plugin_ninty_shell.Docker.{CommandResult}

abbrev pub succeeded_with : Bytes → Bytes → ℕ → CommandResult
succeeded_with body errors code = record {
  stdout = body;
  stderr = errors;
  exit_code = pos code;
  err = none;
}

abbrev held : ℕ → Bytes → LimitedBuffer
held most all = record { buffer = take most all; limit = most; truncated = ltb most (length all) }
