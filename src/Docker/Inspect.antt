-- ===== src/Docker/Inspect.antt =====
-- What `docker inspect` and `docker image inspect` say of one object, backend/dockerapi.go.
use dbx_plugin_ninty_shell.Base.{
  Bool, not, Option, none, some, List, [], ◌∷◌, ◌++◌, ◌⊎◌, inl, inr, if◌then◌else◌, length,
}
use dbx_plugin_ninty_shell.Text.{Bytes, codes, newline, split, trim_space, trim_prefix}
use dbx_plugin_ninty_shell.Text.Sort.{bytes_lt, sort_by}
use dbx_plugin_ninty_shell.Text.Words.{fields, split_text, to_lower}
use dbx_plugin_ninty_shell.Docker.{short_id, valid_docker_id}
use dbx_plugin_ninty_shell.Docker.Types.{ImageContainer, ImageDetails}
use dbx_plugin_ninty_shell.Docker.Raw.{RawImageConfig, RawImage, RawState, RawContainer, Decoder}
use dbx_plugin_ninty_shell.Docker.Tables.{read_lines}
use dbx_plugin_ninty_shell.Docker.Ports.{
  parse_docker_port_mappings, parse_docker_network_addresses, non_empty_strings, exposed,
}

abbrev pub image_details_marker : Bytes
image_details_marker = codes "__NINTYSHELL_DOCKER_IMAGE_DETAILS_6E4C9A__"

abbrev pub container_details_marker : Bytes
container_details_marker = codes "__NINTYSHELL_DOCKER_CONTAINER_DETAILS_6E4C9A__"

unfoldable pub plain_image : RawImage → ImageDetails
plain_image i = record {
  id = short_id i.id;
  repo_tags = sort_by bytes_lt (non_empty_strings i.repo_tags);
  repo_digests = sort_by bytes_lt (non_empty_strings i.repo_digests);
  created = trim_space i.created;
  docker_version = trim_space i.docker_version;
  architecture = trim_space i.architecture;
  variant = trim_space i.variant;
  os = trim_space i.os;
  size = i.size;
  layer_count = length i.layers;
  user = [];
  working_dir = [];
  entrypoint = [];
  cmd = [];
  env = [];
  labels = [];
  exposed_ports = [];
  host_ips = [];
  containers = [];
}

-- `if inspection.Config != nil`
unfoldable pub configured_image : ImageDetails → Option RawImageConfig → ImageDetails
configured_image d none = d
configured_image d (some c) = record d {
  user = trim_space c.user;
  working_dir = trim_space c.working_dir;
  entrypoint = non_empty_strings c.entrypoint;
  cmd = non_empty_strings c.cmd;
  env = non_empty_strings c.env;
  labels = c.labels;
  exposed_ports = exposed c.exposed_ports;
}

unfoldable pub image_details : Bytes ⊎ RawImage → Bytes ⊎ ImageDetails
unfolding plain_image configured_image
image_details (inl err) = inl (codes "cannot parse Docker image inspection: " ++ err)
image_details (inr i) =
    if not (valid_docker_id (short_id i.id))
    then inl (codes "Docker image inspection returned an invalid image ID")
    else inr (configured_image (plain_image i) i.config)

unfoldable pub parse_docker_image_inspection : Decoder → Bytes → Bytes ⊎ ImageDetails
unfolding image_details
parse_docker_image_inspection d raw = image_details (d.image (trim_space raw))

-- The loop over the lines of container identifiers.
unfoldable pub read_id : Bytes → Bytes ⊎ Bytes
read_id id =
    if valid_docker_id id then inr id else inl (codes "Docker returned an invalid container ID")

unfoldable pub container_ids : Bytes → Bytes ⊎ List Bytes
unfolding read_id
container_ids raw = read_lines read_id (split newline raw)

unfoldable pub with_ids :
    ImageDetails → List Bytes → Bytes ⊎ List Bytes → Bytes ⊎ ImageDetails × List Bytes × List Bytes
with_ids details hosts (inl err) = inl err
with_ids details hosts (inr ids) = inr (details, ids, hosts)

unfoldable pub with_image :
    Bytes → Bytes → Bytes ⊎ ImageDetails → Bytes ⊎ ImageDetails × List Bytes × List Bytes
unfolding with_ids container_ids
with_image ids hosts (inl err) = inl err
with_image ids hosts (inr details) = with_ids details (fields hosts) (container_ids ids)

unfoldable pub image_bundle : Decoder → List Bytes → Bytes ⊎ ImageDetails × List Bytes × List Bytes
unfolding with_image
image_bundle d (image ∷ ids ∷ hosts ∷ []) =
    with_image ids hosts (parse_docker_image_inspection d image)
image_bundle d _ = inl (codes "cannot parse Docker image details response")

-- The image, the identifiers of its containers, and the addresses of the host.
unfoldable pub parse_docker_image_details_bundle :
    Decoder → Bytes → Bytes ⊎ ImageDetails × List Bytes × List Bytes
unfolding image_bundle
parse_docker_image_details_bundle d raw = image_bundle d (split_text image_details_marker raw)

state_status : Option RawState → Bytes
state_status none = []
state_status (some s) = s.status

unfoldable pub image_container : RawContainer → ImageContainer
unfolding state_status
image_container c = record {
  id = short_id c.id;
  name = trim_prefix (trim_space c.name) (codes "/");
  image = trim_space c.image;
  state = to_lower (trim_space (state_status c.state));
  status = trim_space (state_status c.state);
  ports = parse_docker_port_mappings c.network_settings;
  networks = parse_docker_network_addresses c.network_settings;
}

unfoldable pub read_image_container : Bytes ⊎ RawContainer → Bytes ⊎ ImageContainer
unfolding image_container
read_image_container (inl err) = inl (codes "cannot parse Docker container inspection: " ++ err)
read_image_container (inr c) =
    if not (valid_docker_id (short_id c.id))
    then inl (codes "Docker container inspection returned an invalid container ID")
    else inr (image_container c)

unfoldable pub name_lt : ImageContainer → ImageContainer → Bool
name_lt a b = bytes_lt a.name b.name

unfoldable pub sort_read : Bytes ⊎ List ImageContainer → Bytes ⊎ List ImageContainer
sort_read (inl err) = inl err
sort_read (inr cs) = inr (sort_by name_lt cs)

unfoldable pub parse_docker_image_containers : Decoder → Bytes → Bytes ⊎ List ImageContainer
unfolding read_image_container sort_read
parse_docker_image_containers d raw =
    sort_read (read_lines (λ line. read_image_container (d.container line)) (split newline raw))
