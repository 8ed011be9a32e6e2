-- ===== src/Docker/Panel.antt =====
-- The requests of the Docker panel, backend/dockerapi.go. A request is a dialog with the remote host: it
-- asks for commands, and goes on with whatever result comes back.
use dbx_plugin_ninty_shell.Base.{
  ℕ, Bool, false, not, ◌||◌, Option, none, some, List, [], ◌++◌, ◌⊎◌, inl, inr, if◌then◌else◌,
}
use dbx_plugin_ninty_shell.Text.{Bytes, codes, is_empty, trim_space, cut_byte}
use dbx_plugin_ninty_shell.Text.Equal.{bytes_eq}
use dbx_plugin_ninty_shell.Plugin.{Sessions, Rejection, session_for}
use dbx_plugin_ninty_shell.Request.{Json}
use dbx_plugin_ninty_shell.Session.{Session, is_ssh}
use dbx_plugin_ninty_shell.Docker.{
  Failure, CommandResult, decimal_int, is_zero, docker_command_message, docker_error_message,
}
use dbx_plugin_ninty_shell.Docker.Types.{Container, Image, ImageDetails, ContainerDetails}
use dbx_plugin_ninty_shell.Docker.Raw.{Decoder}
use dbx_plugin_ninty_shell.Docker.Tables.{parse_docker_containers, parse_docker_images}

-- The overview of a host with Docker.
pub record Overview : Type 0 where
  pub client_version : Bytes
  pub server_version : Bytes
  pub containers : List Container
  pub images : List Image

pub data Answer : Type 0 where
  rejected : Rejection → Answer
  failed : Bytes → Answer
  not_installed : Bytes → Answer
  detected : Bool → Answer
  no_docker : Answer
  no_daemon : Bytes → Bytes → Answer
  overview : Overview → Answer
  acted : Bytes → Bytes → Answer
  container_answer : Bytes → ContainerDetails → Answer
  logs : Bytes → Bytes → Answer
  image_answer : Bytes → ImageDetails → Answer

-- The time limits, in seconds.
abbrev pub detect_timeout : ℕ
detect_timeout = 10

abbrev pub read_timeout : ℕ
read_timeout = 10

abbrev pub action_timeout : ℕ
action_timeout = 60

pub data Talk : Type 0 where
  answer : Answer → Talk
  ask : Bytes → ℕ → (CommandResult → Talk) → Talk

-- `sessionFor`, at the beginning of each request.
unfoldable pub on_session : (Session → Talk) → Rejection ⊎ Session → Talk
on_session k (inl r) = answer (rejected r)
on_session k (inr s) = k s

unfoldable pub with_session : Sessions → Json → (Session → Talk) → Talk
with_session sessions values k = on_session k (session_for sessions values)

-- An error of a command is an answer; without one, the request goes on with its result.
unfoldable pub unless_error : Bytes → (CommandResult → Talk) → CommandResult → Option Failure → Talk
unless_error operation ended r (some e) = answer (failed (docker_error_message e operation))
unless_error operation ended r none = ended r

unfoldable pub if_run : Bytes → (CommandResult → Talk) → CommandResult → Talk
if_run operation ended r = unless_error operation ended r r.err

-- The exit code of a result, after its error.
unfoldable pub if_zero : (CommandResult → Talk) → CommandResult → Talk
if_zero next r = if is_zero r.exit_code then next r else answer (failed (docker_command_message r))

unfoldable pub if_ok : Bytes → (CommandResult → Talk) → CommandResult → Talk
if_ok operation next = if_run operation (if_zero next)

-- A parsed value, or the failure that its error gives.
unfoldable pub if_parsed : {A : Type 0} → (A → Talk) → Bytes ⊎ A → Talk
if_parsed next (inl err) = answer (failed err)
if_parsed next (inr a) = next a

abbrev pub detect_command : Bytes
detect_command =
    codes "if command -v docker >/dev/null 2>&1; then printf installed; else printf missing; fi"

unfoldable pub is_installed : CommandResult → Bool
is_installed r = bytes_eq (trim_space r.stdout) (codes "installed")

unfoldable pub detect_message : CommandResult → Bytes
detect_message r =
    if is_empty (trim_space r.stderr)
    then codes "Docker detection failed with exit code " ++ decimal_int r.exit_code
    else trim_space r.stderr

unfoldable pub detect_ended : CommandResult → Talk
unfolding is_installed detect_message
detect_ended r =
    if is_zero r.exit_code
    then answer (detected (is_installed r))
    else answer (not_installed (detect_message r))

unfoldable pub docker_detect : Sessions → Json → Talk
unfolding detect_ended if_run
docker_detect sessions values = with_session sessions values (λ s.
    if is_ssh s.kind
    then ask detect_command detect_timeout (if_run (codes "detection") detect_ended)
    else answer (detected false))

abbrev pub version_command : Bytes
version_command =
    codes "docker version --format '{{.Client.Version}}|{{if .Server}}{{.Server.Version}}{{end}}'"

-- strings.SplitN(text, "|", 2), each part trimmed.
unfoldable pub versions : Bytes → Bytes × Bytes
versions text = elim (cut_byte b'|' text) [
  | none ↦ (trim_space text, [])
  | some (client, server) ↦ (trim_space client, trim_space server)
]

abbrev pub containers_command : Bytes
containers_command = codes "docker ps -a --format '{{json .}}'"

abbrev pub images_command : Bytes
images_command = codes "docker images --format '{{json .}}'"

module _ (d : Decoder) where
  unfoldable pub images_listed : Bytes × Bytes → List Container → CommandResult → Talk
  unfolding if_parsed
  images_listed (client, server) containers r =
      if_parsed
        (λ images. answer (
          overview (record {
            client_version = client;
            server_version = server;
            containers = containers;
            images = images;
          })))
        (parse_docker_images d.table r.stdout)

  unfoldable pub containers_listed : Bytes × Bytes → CommandResult → Talk
  unfolding if_parsed if_ok images_listed
  containers_listed version r =
      if_parsed
        (λ containers.
          ask images_command read_timeout
            (if_ok (codes "image list") (images_listed version containers)))
        (parse_docker_containers d.table r.stdout)

  unfoldable pub version_ended : CommandResult → Talk
  unfolding if_ok containers_listed
  version_ended r =
      let version = versions (trim_space r.stdout) in
      if is_zero r.exit_code
      then ask containers_command read_timeout
          (if_ok (codes "container list") (containers_listed version))
      else answer (no_daemon version.0 (docker_command_message r))

  unfoldable pub overview_ended : CommandResult → Talk
  unfolding version_ended is_installed if_run
  overview_ended r =
      if not (is_zero r.exit_code) || not (is_installed r)
      then answer no_docker
      else ask version_command read_timeout (if_run (codes "version check") version_ended)

  unfoldable pub docker_overview : Sessions → Json → Talk
  unfolding overview_ended if_run
  docker_overview sessions values = with_session sessions values (λ s.
      if is_ssh s.kind
      then ask detect_command detect_timeout (if_run (codes "detection") overview_ended)
      else answer (not_installed (codes "Docker panel requires an SSH connection")))
