-- ===== src/Docker/Requests.antt =====
-- The requests of the Docker panel on one container or image, backend/dockerapi.go.
use dbx_plugin_ninty_shell.Base.{not, Option, none, some, List, [], ◌∷◌, ◌++◌, if◌then◌else◌}
use dbx_plugin_ninty_shell.Text.{Bytes, codes}
use dbx_plugin_ninty_shell.Text.Equal.{bytes_eq}
use dbx_plugin_ninty_shell.Text.Words.{join}
use dbx_plugin_ninty_shell.Plugin.{Sessions}
use dbx_plugin_ninty_shell.Request.{Json, string_field}
use dbx_plugin_ninty_shell.Session.{Session, is_ssh}
use dbx_plugin_ninty_shell.Docker.{CommandResult, valid_docker_id}
use dbx_plugin_ninty_shell.Docker.Types.{ImageDetails, ContainerDetails}
use dbx_plugin_ninty_shell.Docker.Raw.{Decoder}
use dbx_plugin_ninty_shell.Docker.Inspect.{
  image_details_marker, container_details_marker, parse_docker_image_details_bundle,
  parse_docker_image_containers,
}
use dbx_plugin_ninty_shell.Docker.Details.{parse_docker_container_details_bundle}
use dbx_plugin_ninty_shell.Docker.Panel.{
  Talk, answer, ask, failed, acted, container_answer, logs, image_answer, if_ok, if_parsed,
  with_session, read_timeout, action_timeout,
}

-- An SSH session and a valid identifier, or the answers that refuse.
unfoldable pub with_id : Bytes → Bytes → Bytes → (Bytes → Talk) → Session → Talk
with_id no_ssh bad_id id k s =
    if not (is_ssh s.kind)
    then answer (failed no_ssh)
    else if not (valid_docker_id id)
    then answer (failed bad_id)
    else k id

-- The command of an action; `none` is an unsupported one.
unfoldable pub action_command : Bytes → Bytes → Option Bytes
action_command action id =
    if bytes_eq action (codes "start")
    then some (codes "docker start " ++ id)
    else if bytes_eq action (codes "stop")
    then some (codes "docker stop -t 10 " ++ id)
    else if bytes_eq action (codes "restart")
    then some (codes "docker restart -t 10 " ++ id)
    else if bytes_eq action (codes "remove")
    then some (codes "docker rm " ++ id)
    else none

unfoldable pub run_action : Bytes → Bytes → Option Bytes → Talk
unfolding if_ok
run_action action id none = answer (failed (codes "Unsupported container action"))
run_action action id (some command) =
    ask command action_timeout
      (if_ok (action ++ codes " container") (λ r. answer (acted action id)))

unfoldable pub act : Bytes → Bytes → Talk
unfolding run_action action_command
act action id = run_action action id (action_command action id)

unfoldable pub docker_container_action : Sessions → Json → Talk
unfolding act with_id
docker_container_action sessions values = with_session sessions values (
    with_id (codes "Docker actions require an SSH connection") (codes "Invalid Docker container ID")
      (string_field values (codes "id")) (act (string_field values (codes "action"))))

-- printf of a marker on a line of its own
unfoldable pub then_marker : Bytes → Bytes
then_marker marker = codes " && printf '\\n" ++ (marker ++ codes "\\n'")

unfoldable pub container_details_command : Bytes → Bytes
unfolding then_marker
container_details_command id =
    codes "docker inspect --format '{{json .}}' "
    ++ (id
        ++ (then_marker container_details_marker
            ++ codes " && { hostname -I 2>/dev/null || true; }"))

unfoldable pub details_answer : ContainerDetails × List Bytes → Talk
details_answer (details, hosts) =
    answer (container_answer details.id (record details { host_ips = hosts }))

unfoldable pub read_container : Decoder → Bytes → Talk
unfolding if_ok if_parsed details_answer container_details_command
read_container d id = ask (container_details_command id) read_timeout (
    if_ok (codes "container details")
      (λ r. if_parsed details_answer (parse_docker_container_details_bundle d r.stdout)))

unfoldable pub docker_container_details : Decoder → Sessions → Json → Talk
unfolding with_id read_container
docker_container_details d sessions values = with_session sessions values (
    with_id (codes "Docker container details require an SSH connection")
      (codes "Invalid Docker container ID") (string_field values (codes "id")) (read_container d))

unfoldable pub logs_command : Bytes → Bytes
logs_command id = codes "docker logs --tail 200 --timestamps " ++ (id ++ codes " 2>&1")

unfoldable pub read_logs : Bytes → Talk
unfolding if_ok logs_command
read_logs id =
    ask (logs_command id) read_timeout
      (if_ok (codes "container logs") (λ r. answer (logs id r.stdout)))

unfoldable pub docker_container_logs : Sessions → Json → Talk
unfolding with_id read_logs
docker_container_logs sessions values = with_session sessions values (
    with_id (codes "Docker logs require an SSH connection") (codes "Invalid Docker container ID")
      (string_field values (codes "id")) read_logs)

unfoldable pub remove_image : Bytes → Bytes → Talk
unfolding if_ok
remove_image action id =
    if not (bytes_eq action (codes "remove"))
    then answer (failed (codes "Unsupported image action"))
    else ask (codes "docker image rm " ++ id) action_timeout
        (if_ok (codes "image removal") (λ r. answer (acted action id)))

unfoldable pub docker_image_action : Sessions → Json → Talk
unfolding with_id remove_image
docker_image_action sessions values = with_session sessions values (
    with_id (codes "Docker actions require an SSH connection") (codes "Invalid Docker image ID")
      (string_field values (codes "id")) (remove_image (string_field values (codes "action"))))

unfoldable pub image_summary_command : Bytes → Bytes
unfolding then_marker
image_summary_command id =
    codes "docker image inspect --format '{{json .}}' "
    ++ (id
        ++ (then_marker image_details_marker
            ++ (codes " && docker ps -a --filter ancestor="
                ++ (id
                    ++ (codes " --format '{{.ID}}'"
                        ++ (then_marker image_details_marker
                            ++ codes " && { hostname -I 2>/dev/null || true; }"))))))

unfoldable pub inspect_command : List Bytes → Bytes
inspect_command ids = codes "docker inspect --format '{{json .}}' " ++ join (codes " ") ids

module _ (d : Decoder) where
  unfoldable pub containers_inspected : Bytes → ImageDetails → CommandResult → Talk
  unfolding if_parsed
  containers_inspected id details r =
      if_parsed (λ cs. answer (image_answer id (record details { containers = cs })))
        (parse_docker_image_containers d r.stdout)

  -- `if len(containerIDs) > 0`
  unfoldable pub inspect_containers : Bytes → ImageDetails → List Bytes → Talk
  unfolding containers_inspected if_ok inspect_command
  inspect_containers id details [] = answer (image_answer id details)
  inspect_containers id details (c ∷ cs) =
      ask (inspect_command (c ∷ cs)) read_timeout
        (if_ok (codes "container details") (containers_inspected id details))

  unfoldable pub image_summary : Bytes → ImageDetails × List Bytes × List Bytes → Talk
  unfolding inspect_containers
  image_summary id (details, ids, hosts) =
      inspect_containers id (record details { host_ips = hosts }) ids

  unfoldable pub read_image : Bytes → Talk
  unfolding if_ok if_parsed image_summary image_summary_command
  read_image id = ask (image_summary_command id) read_timeout (
      if_ok (codes "image details")
        (λ r. if_parsed (image_summary id) (parse_docker_image_details_bundle d r.stdout)))

  unfoldable pub docker_image_details : Sessions → Json → Talk
  unfolding with_id read_image
  docker_image_details sessions values = with_session sessions values (
      with_id (codes "Docker image details require an SSH connection")
        (codes "Invalid Docker image ID") (string_field values (codes "id")) read_image)
