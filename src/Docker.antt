-- ===== src/Docker.antt =====
-- The Docker panel, backend/dockerapi.go: a command is run on the remote host and its result read.
pub mod Types
pub mod Raw
pub mod Tables
pub mod Ports
pub mod Inspect
pub mod Details
pub mod Panel
pub mod Requests
pub mod Ids
pub mod Safety
pub mod Answers
pub mod Overview
pub mod Commands
pub mod Order
pub mod Run
pub mod Messages
mod Scenarios
use dbx_plugin_ninty_shell.Base.{
  ℕ, Bool, true, false, not, ◌&&◌, ◌||◌, Option, none, some, List, [], ◌∷◌, ◌++◌, leb, ltb,
  if◌then◌else◌, length, ℤ, pos, negsuc, ◌==◌, ◌+◌,
}
use dbx_plugin_ninty_shell.Text.{Bytes, codes, newline, is_empty, contains, trim_space, trim_prefix}
use dbx_plugin_ninty_shell.Text.Decimal.{decimal}
use dbx_plugin_ninty_shell.Text.Words.{to_lower}

-- The error of a command: a time-out, for `errors.Is` with errRemoteCommandTimeout, or another; with
-- its text.
pub data Failure : Type 0 where
  timed_out : Bytes → Failure
  broken : Bytes → Failure

abbrev pub failure_text : Failure → Bytes
failure_text (timed_out e) = e
failure_text (broken e) = e

pub record CommandResult : Type 0 where
  pub stdout : Bytes
  pub stderr : Bytes
  pub exit_code : ℤ
  pub err : Option Failure

-- %d of an int
unfoldable pub decimal_int : ℤ → Bytes
decimal_int (pos n) = decimal n
decimal_int (negsuc n) = b'-' ∷ decimal (n + 1)

abbrev pub is_zero : ℤ → Bool
is_zero (pos n) = n == 0
is_zero (negsuc n) = false

abbrev pub is_hex : ℕ → Bool
is_hex c = (leb b'0' c && leb c b'9') || (leb b'a' c && leb c b'f') || (leb b'A' c && leb c b'F')

all_hex : Bytes → Bool
all_hex [] = true
all_hex (c ∷ s) = is_hex c && all_hex s

unfoldable pub valid_docker_id : Bytes → Bool
unfolding all_hex
valid_docker_id value = not (ltb (length value) 12) && not (ltb 64 (length value)) && all_hex value

-- strings.TrimPrefix(strings.TrimSpace(value), "sha256:")
unfoldable pub short_id : Bytes → Bytes
short_id value = trim_prefix (trim_space value) (codes "sha256:")

failed_without_error : CommandResult → Bool
failed_without_error r = elim r.err [ none ↦ not (is_zero r.exit_code) | some e ↦ false ]

unfoldable pub docker_permission_denied : CommandResult → Bool
unfolding failed_without_error
docker_permission_denied r =
    let message = to_lower (r.stderr ++ newline ∷ r.stdout) in
    failed_without_error r
    && contains message (codes "permission denied")
    && (contains message (codes "docker.sock")
        || contains message (codes "docker daemon")
        || contains message (codes "connect: permission denied"))

-- The first text that is not blank, trimmed, or the last resort.
unfoldable pub first_detail : Bytes → Bytes → Bytes → Bytes
first_detail a b other =
    if not (is_empty (trim_space a))
    then trim_space a
    else if not (is_empty (trim_space b))
    then trim_space b
    else other

abbrev pub permission_hint : Bytes
permission_hint =
    codes
      "\nThe Docker panel follows the SSH user's permissions. Add that user to the docker group, or connect as a user allowed to access the Docker socket; manually running su in the terminal does not change panel permissions."

-- The message with the hint, if permissions were denied and nothing says so yet.
unfoldable pub hinted : Bool → Bytes → Bytes
hinted denied message =
    if denied && not (contains (to_lower message) (codes "ssh user"))
    then message ++ permission_hint
    else message

unfoldable pub docker_command_message : CommandResult → Bytes
unfolding first_detail docker_permission_denied hinted
docker_command_message r = hinted (docker_permission_denied r) (
    first_detail r.stderr r.stdout
      (codes "Docker command failed with exit code " ++ decimal_int r.exit_code))

-- The message of `dockerCommandError`.
unfoldable pub docker_error_message : Failure → Bytes → Bytes
docker_error_message (timed_out e) operation =
    codes "Docker "
    ++ (operation
        ++ codes " timed out; check the remote Docker daemon and SSH connection, then try again.")
docker_error_message (broken e) operation = e
