-- ===== src/Plugin.antt =====
-- The plugin's map from connection identifiers to sessions, `plugin` of backend/main.go, and how a request
-- finds its session.
pub mod Table
pub mod Registry
pub mod Requests
mod Scenarios
use dbx_plugin_ninty_shell.Base.{
  ℕ, not, Option, none, some, List, [], ◌∷◌, ◌⊎◌, inl, inr, if◌then◌else◌,
}
use dbx_plugin_ninty_shell.Text.{Bytes, codes, is_empty}
use dbx_plugin_ninty_shell.Text.Equal.{bytes_eq}
use dbx_plugin_ninty_shell.Request.{Json, request_session_id}
use dbx_plugin_ninty_shell.Session.{Session}

-- An error of the SDK; the code is without its minus sign.
pub record Rejection : Type 0 where
  pub code : ℕ
  pub text : Bytes

abbrev pub not_connected : Rejection
not_connected = record { code = 32000; text = codes "Session is not connected" }

-- `p.sessions[id]`
unfoldable pub find_session : {A : Type 0} → List (Bytes × A) → Bytes → Option A
find_session [] id = none
find_session ((key, s) ∷ rest) id =
    let later = find_session rest id in if bytes_eq key id then some s else later

-- The plugin's sessions by connection identifier, as a request sees them.
abbrev pub Sessions : Type 0
Sessions = List (Bytes × Session)

unfoldable pub session_for : Sessions → Json → Rejection ⊎ Session
session_for sessions values =
    let id = request_session_id values in
    if is_empty id
    then inl (record { code = 32602; text = codes "Missing connectionId" })
    else elim (find_session sessions id) [ none ↦ inl not_connected | some s ↦ inr s ]

-- The session of `fsTarget`: a single session needs no identifier.
abbrev pub only_session : Sessions → Option Session
only_session ((key, s) ∷ []) = some s
only_session _ = none

unfoldable pub target_session : Sessions → Bytes → Option Session
target_session sessions id =
    if not (is_empty id) then find_session sessions id else only_session sessions
