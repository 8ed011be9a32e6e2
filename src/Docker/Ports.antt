-- ===== src/Docker/Ports.antt =====
-- Published ports and network addresses, out of maps whose order is unspecified, backend/dockerapi.go.
use dbx_plugin_ninty_shell.Base.{
  suc, Bool, not, none, some, List, [], ◌∷◌, ◌++◌, if◌then◌else◌, take, drop, map,
}
use dbx_plugin_ninty_shell.Text.{Bytes, codes, is_empty, last_index, trim_space}
use dbx_plugin_ninty_shell.Text.Equal.{bytes_eq}
use dbx_plugin_ninty_shell.Text.Sort.{bytes_lt, sort_by}
use dbx_plugin_ninty_shell.Docker.Types.{PortMapping, NetworkAddress}
use dbx_plugin_ninty_shell.Docker.Raw.{RawPortBinding, RawNetworkAttachment, RawNetworkSettings}

-- The port and the protocol of a key such as 80/tcp.
unfoldable pub port_protocol : Bytes → Bytes × Bytes
port_protocol key = elim (last_index key (codes "/")) [
  | none ↦ (key, codes "tcp")
  | some i ↦ (trim_space (take i key), trim_space (drop (suc i) key))
]

unfoldable pub mapping_of : Bytes × Bytes → RawPortBinding → PortMapping
mapping_of (port, protocol) b = record {
  container_port = port;
  host_ip = trim_space b.host_ip;
  host_port = trim_space b.host_port;
  protocol = protocol;
}

unfoldable pub all_mappings : List (Bytes × List RawPortBinding) → List PortMapping
unfolding mapping_of port_protocol
all_mappings [] = []
all_mappings ((key, bindings) ∷ rest) =
    map (mapping_of (port_protocol key)) bindings ++ all_mappings rest

unfoldable pub mapping_lt : PortMapping → PortMapping → Bool
mapping_lt a b =
    if not (bytes_eq a.container_port b.container_port)
    then bytes_lt a.container_port b.container_port
    else if not (bytes_eq a.host_port b.host_port)
    then bytes_lt a.host_port b.host_port
    else bytes_lt a.host_ip b.host_ip

unfoldable pub parse_docker_port_mappings : RawNetworkSettings → List PortMapping
unfolding all_mappings
parse_docker_port_mappings settings = sort_by mapping_lt (all_mappings settings.ports)

unfoldable pub address_of : Bytes × RawNetworkAttachment → NetworkAddress
address_of (network, a) = record {
  network_id = trim_space a.network_id;
  network = trim_space network;
  ip_address = trim_space a.ip_address;
  global_ipv6 = trim_space a.global_ipv6_address;
  gateway = trim_space a.gateway;
  ipv6_gateway = trim_space a.ipv6_gateway;
}

unfoldable pub address_lt : NetworkAddress → NetworkAddress → Bool
address_lt a b = bytes_lt a.network b.network

unfoldable pub parse_docker_network_addresses : RawNetworkSettings → List NetworkAddress
unfolding address_of
parse_docker_network_addresses settings = sort_by address_lt (map address_of settings.networks)

unfoldable pub non_empty_strings : List Bytes → List Bytes
non_empty_strings [] = []
non_empty_strings (v ∷ vs) =
    let value = trim_space v in
    let rest = non_empty_strings vs in if is_empty value then rest else value ∷ rest

-- The ports of a configuration, trimmed and sorted.
unfoldable pub exposed : List Bytes → List Bytes
exposed ports = sort_by bytes_lt (non_empty_strings ports)
