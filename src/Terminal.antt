-- ===== src/Terminal.antt =====
-- The terminals of a session: `ptyInput`, `ptyResize`, `injectOsc7Report` and `keepaliveLoop` of
-- backend/ssh.go, and the read loops of `openPTYShell` (backend/ssh.go) and `openLocalPTY`
-- (backend/localpty.go).
pub mod Reading
pub mod Input
pub mod Resize
pub mod Keepalive
pub mod Local
mod Scenarios
use dbx_plugin_ninty_shell.Base.{
  ℕ, ◌%◌, ◌^◌, Bool, true, false, not, ◌&&◌, ◌||◌, Option, none, some, List, [], ◌∷◌, ◌++◌, ◌⊎◌,
  inl, inr, ltb, if◌then◌else◌, ◌==◌,
}
use dbx_plugin_ninty_shell.Text.{Bytes, codes, is_empty, trim_space, contains}
use dbx_plugin_ninty_shell.Request.{Json, Number, get, as_number, string_field}
use dbx_plugin_ninty_shell.Session.{Session, Effect, is_ssh, mark_dead, report_cwd}
use dbx_plugin_ninty_shell.Plugin.{Sessions, Rejection, session_for}
use dbx_plugin_ninty_shell.Osc7.{feed, osc7_uri_to_path}

-- What reaches a terminal; a size has its columns first.
pub data Act : Type 0 where
  write_remote : ℕ → Bytes → Act
  write_local : ℕ → Bytes → Act
  window_change : ℕ → ℕ → ℕ → Act
  set_size : ℕ → ℕ → ℕ → Act

-- An answer; none where the handler panics. A success may carry a message.
pub data Reply : Type 0 where
  panicked : Reply
  rejected : Rejection → Reply
  failed : Bytes → Reply
  succeeded : Option Bytes → Reply

abbrev pub dead_error : Bytes
dead_error = codes "SSH connection lost. Please reconnect from the connection list."

-- Where the input goes, or the answer in its place.
abbrev pub InputTarget : Type 0
InputTarget = Reply ⊎ (Bytes → Act)

-- `ptyStdin` is read behind the test of the connection; the write on a nil interface panics.
remote_target : Option ℕ → InputTarget
remote_target none = inl panicked
remote_target (some h) = inr (write_remote h)

unless_dead : Bool → Option ℕ → InputTarget
unfolding remote_target
unless_dead true stdin = inl (failed dead_error)
unless_dead false stdin = remote_target stdin

local_target : Bool → Option ℕ → InputTarget
local_target closed none =
    inl (
      rejected
        (record { code = 32000; text = codes "shell/input requires an interactive session" }))
local_target true (some pty) =
    inl (failed (codes "Shell has exited. Please reconnect from the connection list."))
local_target false (some pty) = inr (write_local pty)

-- The session as the test of the connection finds it, and as the next lock section does.
unfoldable pub input_target : Session → Session → InputTarget
unfolding unless_dead local_target
input_target s later =
    if is_ssh s.kind
    then unless_dead s.dead later.pty_stdin
    else local_target later.pty_closed later.local_pty

unfoldable pub input_written : Option Bytes → Reply
input_written none = succeeded none
input_written (some err) = failed (codes "Input failed: " ++ err)

to_target : Bytes → Option Bytes → InputTarget → Reply × List Act
unfolding input_written
to_target bytes refusal (inl r) = (r, [])
to_target bytes refusal (inr act) = (input_written refusal, act bytes ∷ [])

input_data : Session → Session → Option Bytes → Option Bytes → Reply × List Act
unfolding to_target
input_data s later refusal none =
    (rejected (record { code = 32602; text = codes "Invalid input encoding" }), [])
input_data s later refusal (some bytes) = to_target bytes refusal (input_target s later)

-- base64 is a parameter; `refusal` is what the write returns, and `later` what other requests make of
-- the session before its second lock section.
module _ (decode : Bytes → Option Bytes) (refusal : Option Bytes) (later : Session → Session) where
  input_found : Json → Rejection ⊎ Session → Reply × List Act
  unfolding input_data
  input_found values (inl r) = (rejected r, [])
  input_found values (inr s) =
      input_data s (later s) refusal (decode (string_field values (codes "data")))

  unfoldable pub pty_input : Sessions → Json → Reply × List Act
  unfolding input_found
  pty_input sessions values = input_found values (session_for sessions values)

-- n < 2 and n > 1000
below_two : Number → Bool
below_two n = n.negative || ltb n.whole 2

above_limit : Number → Bool
above_limit n = not n.negative && (ltb 1000 n.whole || (n.whole == 1000 && n.fraction))

resized : Option Bytes → Act → Reply × List Act
resized refusal act = (succeeded refusal, act ∷ [])

-- The local error is dropped, the remote one is the answer's message.
resize_remote : Option Bytes → ℕ → ℕ → Option ℕ → Reply × List Act
unfolding resized
resize_remote refusal cols rows none = (succeeded none, [])
resize_remote refusal cols rows (some h) = resized refusal (window_change h cols rows)

resize_local : ℕ → ℕ → Option ℕ → Reply × List Act
unfolding resized
resize_local cols rows none = (succeeded none, [])
resize_local cols rows (some pty) = resized none (set_size pty (cols % 2 ^ 16) (rows % 2 ^ 16))

resize_session : Option Bytes → Session → Number → Number → Reply × List Act
unfolding below_two above_limit resize_remote resize_local
resize_session refusal s cols rows =
    if below_two cols || below_two rows || above_limit cols || above_limit rows
    then (succeeded none, [])
    else if not (is_ssh s.kind)
    then resize_local cols.whole rows.whole s.local_pty
    else resize_remote refusal cols.whole rows.whole s.pty_session

-- A missing size is 0.
unfoldable pub size_of : Json → Bytes → Number
size_of values key = elim (as_number (get key values)) [
  | none ↦ record { negative = false; whole = 0; fraction = false }
  | some n ↦ n
]

resize_found : Option Bytes → Json → Rejection ⊎ Session → Reply × List Act
unfolding resize_session size_of
resize_found refusal values (inl r) = (rejected r, [])
resize_found refusal values (inr s) =
    resize_session refusal s (size_of values (codes "cols")) (size_of values (codes "rows"))

unfoldable pub pty_resize : Option Bytes → Sessions → Json → Reply × List Act
unfolding resize_found
pty_resize refusal sessions values = resize_found refusal values (session_for sessions values)

-- `base` is path.Base of the remote shell; the three prompts are those of zsh, fish and bash.
unfoldable pub osc7_snippet : Bytes → Option Bytes
osc7_snippet base =
    if contains base (codes "zsh")
    then some (
        codes
          "__dbx_osc7() { printf '\\033]7;file://%s\\007' \"$PWD\" }; precmd_functions+=(__dbx_osc7)")
    else if contains base (codes "fish")
    then some (
        codes
          "function __dbx_osc7 --on-event fish_prompt; printf '\\033]7;file://%s\\007' $PWD; end")
    else if contains base (codes "bash")
    then some (codes "export PROMPT_COMMAND='printf \"\\033]7;file://%s\\007\" \"$PWD\"'")
    else none

inject_snippet : Option ℕ → Option Bytes → List Act
inject_snippet none snippet = []
inject_snippet (some h) none = []
inject_snippet (some h) (some snippet) = write_remote h (snippet ++ codes "\rclear\r") ∷ []

-- path.Base is a parameter; `shell` is the answer of the host, none if it cannot be asked, and the
-- session is the one at the end, under the lock of the writes.
unfoldable pub inject_osc7_report : (Bytes → Bytes) → Option Bytes → Session → List Act
unfolding inject_snippet
inject_osc7_report path_base none s = []
inject_osc7_report path_base (some shell) s =
    inject_snippet s.pty_stdin (osc7_snippet (path_base (trim_space shell)))

-- One tick of `keepaliveLoop`, with the error of the request: the session, what is closed, and whether
-- the loop goes on.
tick_request : Session → Option Bytes → Session × List Effect × Bool
unfolding mark_dead
tick_request s none = (s, [], true)
tick_request s (some err) = let (s', closing) = mark_dead s in (s', closing, false)

tick_client : Session → Option Bytes → Option ℕ → Session × List Effect × Bool
unfolding tick_request
tick_client s refusal none = (s, [], false)
tick_client s refusal (some client) = tick_request s refusal

tick_alive : Session → Option Bytes → Bool → Session × List Effect × Bool
unfolding tick_client
tick_alive s refusal true = (s, [], false)
tick_alive s refusal false = tick_client s refusal s.ssh_client

unfoldable pub keepalive_tick : Session → Option Bytes → Session × List Effect × Bool
unfolding tick_alive
keepalive_tick s refusal = tick_alive s refusal s.dead
