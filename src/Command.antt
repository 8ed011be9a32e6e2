-- ===== src/Command.antt =====
-- The commands of a session that has no terminal: `execCommand` of backend/main.go, with the two ways
-- to start a command.
pub mod Remote
pub mod Local
pub mod Report
pub mod Requests
mod Scenarios
use dbx_plugin_ninty_shell.Base.{
  ℕ, Bool, true, false, Option, none, some, List, [], ◌∷◌, ◌++◌, ◌⊎◌, inl, inr, if◌then◌else◌,
}
use dbx_plugin_ninty_shell.Text.{Bytes, codes, is_empty, trim_space}
use dbx_plugin_ninty_shell.Request.{Json, request_session_id, string_field}
use dbx_plugin_ninty_shell.Session.{
  Session, Effect, Error, missing_connection, empty_command, not_connected, exec_claim, exec_failed,
  exec_started,
}
use dbx_plugin_ninty_shell.Plugin.{Sessions, find_session}

-- The answer of `shell/exec`.
pub data Reply : Type 0 where
  refused : Error → Reply
  not_started : Bytes → Reply
  started : Bytes → Reply

-- What starting a command comes to: the session, which the start may change, what is closed, and the
-- run or the error.
abbrev pub Started : Type 0
Started = Session × List Effect × (Bytes ⊎ ℕ)

-- Behind the start: the slot is given back or the run registered. `later` is what other requests make of
-- the session between the start and this lock section.
exec_ended : Bytes → (Session → Session) → Started → Session × List Effect × Reply
exec_ended id later (s, closing, inl e) =
    (exec_failed (later s), closing, not_started (codes "Failed to start command: " ++ e))
exec_ended id later (s, closing, inr run) = (exec_started run (later s), closing, started id)

module _ (start : Session → Bytes → Started) (before later : Session → Session) where
  exec_claimed : Bytes → Bytes → Session × Option Error → Session × List Effect × Reply
  unfolding exec_ended
  exec_claimed id command (s, some e) = (s, [], refused e)
  exec_claimed id command (s, none) = exec_ended id later (start (before s) command)

  -- `execCommand` on the session that the map holds, with the session behind it.
  exec_found : Bytes → Bytes → Option Session → Option Session × List Effect × Reply
  unfolding exec_claimed
  exec_found id command none = (none, [], refused not_connected)
  exec_found id command (some s) =
      let (s', closing, r) = exec_claimed id command (exec_claim s) in (some s', closing, r)

  unfoldable pub exec_command : Sessions → Json → Option Session × List Effect × Reply
  unfolding exec_found
  exec_command sessions values =
      let id = request_session_id values in
      let command = string_field values (codes "command") in
      if is_empty id
      then (none, [], refused missing_connection)
      else if is_empty (trim_space command)
      then (none, [], refused empty_command)
      else exec_found id command (find_session sessions id)
