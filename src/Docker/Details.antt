-- ===== src/Docker/Details.antt =====
-- The details of one container, backend/dockerapi.go.
use dbx_plugin_ninty_shell.Base.{
  Bool, false, not, Option, none, some, List, [], ◌∷◌, ◌++◌, ◌⊎◌, inl, inr, ℤ, pos, if◌then◌else◌,
  map,
}
use dbx_plugin_ninty_shell.Text.{Bytes, codes, is_empty, trim_space, trim_prefix}
use dbx_plugin_ninty_shell.Text.Sort.{bytes_lt, sort_by}
use dbx_plugin_ninty_shell.Text.Words.{fields, split_text}
use dbx_plugin_ninty_shell.Docker.{short_id, valid_docker_id}
use dbx_plugin_ninty_shell.Docker.Types.{ContainerState, ContainerMount, ContainerDetails}
use dbx_plugin_ninty_shell.Docker.Raw.{
  RawState, RawContainerConfig, RawHostConfig, RawMount, RawContainer, Decoder,
}
use dbx_plugin_ninty_shell.Docker.Inspect.{container_details_marker}
use dbx_plugin_ninty_shell.Docker.Ports.{
  parse_docker_port_mappings, parse_docker_network_addresses, non_empty_strings, exposed,
}

-- The zero value of the state.
abbrev no_state : ContainerState
no_state = record {
  status = [];
  running = false;
  paused = false;
  restarting = false;
  oom_killed = false;
  dead = false;
  pid = pos 0;
  exit_code = pos 0;
  error = [];
  started_at = [];
  finished_at = [];
  health_status = [];
  health_exit_code = pos 0;
}

with_health : ContainerState → Option (Bytes × ℤ) → ContainerState
with_health s none = s
with_health s (some (status, code)) = record s {
  health_status = trim_space status;
  health_exit_code = code;
}

container_state : Option RawState → ContainerState
unfolding with_health
container_state none = no_state
container_state (some s) =
    with_health
      (record {
        status = trim_space s.status;
        running = s.running;
        paused = s.paused;
        restarting = s.restarting;
        oom_killed = s.oom_killed;
        dead = s.dead;
        pid = s.pid;
        exit_code = s.exit_code;
        error = trim_space s.error;
        started_at = trim_space s.started_at;
        finished_at = trim_space s.finished_at;
        health_status = [];
        health_exit_code = pos 0;
      })
      s.health

container_mount : RawMount → ContainerMount
container_mount m = record {
  type = trim_space m.type;
  name = trim_space m.name;
  source = trim_space m.source;
  destination = trim_space m.destination;
  mode = trim_space m.mode;
  rw = m.rw;
  propagation = trim_space m.propagation;
}

unfoldable pub mount_lt : ContainerMount → ContainerMount → Bool
mount_lt a b = bytes_lt a.destination b.destination

unfoldable pub sorted_mounts : List RawMount → List ContainerMount
unfolding container_mount
sorted_mounts mounts = sort_by mount_lt (map container_mount mounts)

-- The literal with which the details begin, and what needs none of the three pointers.
unfoldable pub plain_container : RawContainer → ContainerDetails
unfolding container_state
plain_container c = record {
  id = short_id c.id;
  name = trim_prefix (trim_space c.name) (codes "/");
  image = trim_space c.image;
  image_id = short_id c.image;
  created = trim_space c.created;
  path = trim_space c.path;
  args = non_empty_strings c.args;
  hostname = [];
  platform = trim_space c.platform;
  log_path = trim_space c.log_path;
  user = [];
  working_dir = [];
  entrypoint = [];
  cmd = [];
  env = [];
  labels = [];
  exposed_ports = [];
  state = container_state c.state;
  restart_policy = [];
  restart_count = c.restart_count;
  network_mode = [];
  privileged = false;
  readonly_rootfs = false;
  ports = parse_docker_port_mappings c.network_settings;
  networks = parse_docker_network_addresses c.network_settings;
  host_ips = [];
  mounts = sorted_mounts c.mounts;
}

-- `if inspection.Config != nil`
unfoldable pub configured_container :
    ContainerDetails → Option RawContainerConfig → ContainerDetails
configured_container d none = d
configured_container d (some c) = record d {
  image = if is_empty (trim_space c.image) then d.image else trim_space c.image;
  hostname = trim_space c.hostname;
  user = trim_space c.user;
  working_dir = trim_space c.working_dir;
  entrypoint = non_empty_strings c.entrypoint;
  cmd = non_empty_strings c.cmd;
  env = non_empty_strings c.env;
  labels = c.labels;
  exposed_ports = exposed c.exposed_ports;
}

policy_name : Option Bytes → Bytes
policy_name none = []
policy_name (some name) = trim_space name

-- `if inspection.HostConfig != nil`
unfoldable pub hosted_container : ContainerDetails → Option RawHostConfig → ContainerDetails
unfolding policy_name
hosted_container d none = d
hosted_container d (some h) = record d {
  network_mode = trim_space h.network_mode;
  privileged = h.privileged;
  readonly_rootfs = h.readonly_rootfs;
  restart_policy = policy_name h.restart_policy;
}

unfoldable pub container_details : Bytes ⊎ RawContainer → Bytes ⊎ ContainerDetails
unfolding plain_container configured_container hosted_container
container_details (inl err) = inl (codes "cannot parse Docker container inspection: " ++ err)
container_details (inr c) =
    if not (valid_docker_id (short_id c.id))
    then inl (codes "Docker container inspection returned an invalid container ID")
    else if not (valid_docker_id (short_id c.image))
    then inl (codes "Docker container inspection returned an invalid image ID")
    else inr (hosted_container (configured_container (plain_container c) c.config) c.host_config)

unfoldable pub parse_docker_container_inspection : Decoder → Bytes → Bytes ⊎ ContainerDetails
unfolding container_details
parse_docker_container_inspection d raw = container_details (d.container (trim_space raw))

unfoldable pub with_hosts :
    List Bytes → Bytes ⊎ ContainerDetails → Bytes ⊎ ContainerDetails × List Bytes
with_hosts hosts (inl err) = inl err
with_hosts hosts (inr details) = inr (details, hosts)

unfoldable pub container_bundle : Decoder → List Bytes → Bytes ⊎ ContainerDetails × List Bytes
unfolding with_hosts
container_bundle d (container ∷ hosts ∷ []) =
    with_hosts (fields hosts) (parse_docker_container_inspection d container)
container_bundle d _ = inl (codes "cannot parse Docker container details response")

unfoldable pub parse_docker_container_details_bundle :
    Decoder → Bytes → Bytes ⊎ ContainerDetails × List Bytes
unfolding container_bundle
parse_docker_container_details_bundle d raw =
    container_bundle d (split_text container_details_marker raw)
