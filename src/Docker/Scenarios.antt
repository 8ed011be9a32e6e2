-- ===== src/Docker/Scenarios.antt =====
-- The Docker panel on concrete requests and answers.
use mathlib.Core.List.{Perm, flatten}
use dbx_plugin_ninty_shell.Base.{
  ◌↔◌, ℕ, ◌≤◌, true, false, none, [], ◌∷◌, ◌≡◌, inl, refl, pos, length, map,
}
use dbx_plugin_ninty_shell.Text.{Bytes, codes}
use dbx_plugin_ninty_shell.Text.Sort.{IsOrdered}
use dbx_plugin_ninty_shell.Plugin.{Sessions}
use dbx_plugin_ninty_shell.Request.{Json, object, field, end, string}
use dbx_plugin_ninty_shell.Session.{ssh}
use dbx_plugin_ninty_shell.Session.Fixtures.{new_session}
use dbx_plugin_ninty_shell.Stream.{buffer_write_all, buffer_write, new_buffer}
use dbx_plugin_ninty_shell.Docker.{CommandResult, valid_docker_id, all_hex}
use dbx_plugin_ninty_shell.Docker.Raw.{Decoder, RawNetworkSettings}
use dbx_plugin_ninty_shell.Docker.Panel.{docker_detect, docker_overview}
use dbx_plugin_ninty_shell.Docker.Requests.{
  docker_container_action, docker_container_details, docker_container_logs, docker_image_action,
  docker_image_details,
}
use dbx_plugin_ninty_shell.Docker.Ports.{
  address_of, parse_docker_port_mappings, parse_docker_network_addresses,
}
use dbx_plugin_ninty_shell.Docker.Run.Whole
use dbx_plugin_ninty_shell.Docker.Run.Whole.{HasStatus, IsLost}
use dbx_plugin_ninty_shell.Docker.Run.{
  Execution, exited, run_ssh_command_with_timeout, docker_command_output_limit,
}
use dbx_plugin_ninty_shell.Docker.Safety.{IsSafeCommand}
use dbx_plugin_ninty_shell.Docker.Answers.{AllAsks, is_broken}
use dbx_plugin_ninty_shell.Docker.Commands
use dbx_plugin_ninty_shell.Docker.Commands.{IsStrict}
use dbx_plugin_ninty_shell.Docker.Overview
use dbx_plugin_ninty_shell.Docker.Ids
use dbx_plugin_ninty_shell.Docker.Ids.{IsHexId}
use dbx_plugin_ninty_shell.Docker.Order
use dbx_plugin_ninty_shell.Docker.Order.{published, shown_binding, IsMappingBelow, IsAddressBelow}

-- A decoder that accepts nothing.
abbrev decoder : Decoder
decoder = record { table = λ t. inl t; image = λ t. inl t; container = λ t. inl t }

abbrev sessions : Sessions
sessions = (codes "c1", new_session ssh) ∷ []

abbrev container_id : Bytes
container_id = codes "0123456789ab"

abbrev request : Json
request = object (
    field (codes "connectionId") (string (codes "c1")) (
      field (codes "id") (string container_id)
        (field (codes "action") (string (codes "stop")) end)))

requests-IsStrict_example :
    IsStrict (docker_container_action sessions request)
    × IsStrict (docker_container_details decoder sessions request)
    × IsStrict (docker_container_logs sessions request)
    × IsStrict (docker_image_action sessions request)
    × IsStrict (docker_image_details decoder sessions request)
requests-IsStrict_example = Commands.requests-IsStrict decoder sessions request

overview_reads_example :
    AllAsks IsSafeCommand is_broken (docker_detect sessions request)
    × AllAsks IsSafeCommand is_broken (docker_overview decoder sessions request)
overview_reads_example = Overview.overview_reads decoder sessions request

valid_docker_id_iff_example : (valid_docker_id container_id ≡ true) ↔ IsHexId container_id
valid_docker_id_iff_example = Ids.valid_docker_id_iff container_id

id_accepted : valid_docker_id container_id ≡ true
unfolding valid_docker_id all_hex
id_accepted = refl

injection_refused : valid_docker_id (codes "0123456789ab; reboot") ≡ false
unfolding valid_docker_id all_hex
injection_refused = refl

abbrev refused : CommandResult
refused = record {
  stdout = [];
  stderr = codes " permission denied on docker.sock\n";
  exit_code = pos 1;
  err = none;
}

abbrev settings : RawNetworkSettings
settings = record {
  ports =
      (codes "80/tcp", record { host_ip = codes "0.0.0.0"; host_port = codes "8080" } ∷ [])
      ∷ (codes "443/tcp", record { host_ip = codes "::"; host_port = codes "8443" } ∷ [])
      ∷ [];
  networks = [];
}

networking-IsOrdered_example :
    Perm (parse_docker_port_mappings settings) (map shown_binding (published settings.ports))
    × IsOrdered IsMappingBelow (parse_docker_port_mappings settings)
    × Perm (parse_docker_network_addresses settings) (map address_of settings.networks)
    × IsOrdered IsAddressBelow (parse_docker_network_addresses settings)
networking-IsOrdered_example = Order.networking-IsOrdered settings

abbrev execution : Execution
execution = record {
  open_error = none;
  out = codes "a" ∷ codes "b" ∷ [];
  errors = [];
  ending = exited (pos 3);
}

abbrev shown : ℕ → Bytes
shown n = codes "10s"

abbrev ran : CommandResult
ran = (run_ssh_command_with_timeout shown (new_session ssh) 10 execution).0

ran_without_error : ran.err ≡ none
unfolding run_ssh_command_with_timeout buffer_write_all buffer_write new_buffer
ran_without_error = refl

run_whole_example :
    (ran.stdout ≡ flatten execution.out)
    × (length (flatten execution.out) ≤ docker_command_output_limit)
    × HasStatus ran.exit_code execution.ending
run_whole_example = Whole.run_whole shown (new_session ssh) 10 execution ran_without_error
