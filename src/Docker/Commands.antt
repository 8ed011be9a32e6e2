-- ===== src/Docker/Commands.antt =====
-- What holds of the Docker requests on one container or image, whatever the remote host answers.
use dbx_plugin_ninty_shell.Base.{Option, none, some, List, [], ◌∷◌, inl, inr, Bool-cases, All}
use dbx_plugin_ninty_shell.Text.{Bytes, codes}
use dbx_plugin_ninty_shell.Text.Equal.{bytes_eq}
use dbx_plugin_ninty_shell.Plugin.{Sessions, session_for}
use dbx_plugin_ninty_shell.Request.{Json, string_field}
use dbx_plugin_ninty_shell.Session.{Session, is_ssh}
use dbx_plugin_ninty_shell.Docker.{CommandResult, valid_docker_id}
use dbx_plugin_ninty_shell.Docker.Types.{ImageDetails, ContainerDetails}
use dbx_plugin_ninty_shell.Docker.Raw.{Decoder}
use dbx_plugin_ninty_shell.Docker.Inspect.{
  parse_docker_image_details_bundle, parse_docker_image_containers,
}
use dbx_plugin_ninty_shell.Docker.Details.{parse_docker_container_details_bundle}
use dbx_plugin_ninty_shell.Docker.Ids.{IsHexId, valid_docker_id_iff, image_bundle_ids}
use dbx_plugin_ninty_shell.Docker.Panel.{Talk, Answer, answer, failed, with_session}
use dbx_plugin_ninty_shell.Docker.Requests.{
  with_id, action_command, run_action, docker_container_action, details_answer,
  docker_container_details, docker_container_logs, logs_command, remove_image, docker_image_action,
  containers_inspected, inspect_containers, image_summary, docker_image_details, inspect_command,
  act, read_container, read_logs, read_image,
}
use dbx_plugin_ninty_shell.Docker.Safety.{
  Fixed, text_of, IsSafeCommand, before_id-IsSafe, around_id-IsSafe, inspect-IsSafe,
  container_details_command-IsSafe, image_summary_command-IsSafe,
}
use dbx_plugin_ninty_shell.Docker.Answers.{
  AllAsks, answer-AllAsks, is_unsuccessful, if_parsed-AllAsks, if_parsed-any, on_session-AllAsks,
  ask-if_ok,
}

-- The commands are safe, and one without success is answered by a failure.
abbrev pub IsStrict : Talk → Type 0
IsStrict t = AllAsks IsSafeCommand is_unsuccessful t

answer-IsStrict : (a : Answer) → IsStrict (answer a)
answer-IsStrict a = answer-AllAsks IsSafeCommand is_unsuccessful a

on_valid-IsStrict :
    (no_ssh bad_id id : Bytes) (k : Bytes → Talk)
    → ((i : Bytes) → IsHexId i → IsStrict (k i))
    → (s : Session) → IsStrict (with_id no_ssh bad_id id k s)
unfolding with_id
on_valid-IsStrict no_ssh bad_id id k h s = elim (Bool-cases (is_ssh s.kind)) [
  | inl e ↦ elim (Bool-cases (valid_docker_id id)) [
    | inl v ↦ rw (e, v) (h id ((valid_docker_id_iff id).0 v))
    | inr v ↦ rw (e, v) (answer-IsStrict (failed bad_id))
  ]
  | inr e ↦ rw e (answer-IsStrict (failed no_ssh))
]

with_id-IsStrict :
    (no_ssh bad_id id : Bytes) (k : Bytes → Talk)
    → ((i : Bytes) → IsHexId i → IsStrict (k i))
    → (sessions : Sessions) (values : Json)
    → IsStrict (with_session sessions values (with_id no_ssh bad_id id k))
unfolding with_session
with_id-IsStrict no_ssh bad_id id k h sessions values =
    on_session-AllAsks IsSafeCommand is_unsuccessful _ (on_valid-IsStrict no_ssh bad_id id k h)
      (session_for sessions values)

-- The command of an action, if there is one, is safe.
abbrev IfCommand : Option Bytes → Type 0
IfCommand none = Unit
IfCommand (some command) = IsSafeCommand command

action_command-IsSafe : (action id : Bytes) → IsHexId id → IfCommand (action_command action id)
unfolding action_command text_of
action_command-IsSafe action id h = elim (Bool-cases (bytes_eq action (codes "start"))) [
  | inl a ↦ rw (action_command, a) (before_id-IsSafe Fixed.start id h)
  | inr a ↦ elim (Bool-cases (bytes_eq action (codes "stop"))) [
    | inl b ↦ rw (action_command, a, b) (before_id-IsSafe Fixed.stop id h)
    | inr b ↦ elim (Bool-cases (bytes_eq action (codes "restart"))) [
      | inl c ↦ rw (action_command, a, b, c) (before_id-IsSafe Fixed.restart id h)
      | inr c ↦ elim (Bool-cases (bytes_eq action (codes "remove"))) [
        | inl e ↦ rw (action_command, a, b, c, e) (before_id-IsSafe Fixed.remove id h)
        | inr e ↦ rw (action_command, a, b, c, e) tt
      ]
    ]
  ]
]

run_action-IsStrict :
    (action id : Bytes) (command : Option Bytes)
    → IfCommand command
    → IsStrict (run_action action id command)
unfolding run_action
run_action-IsStrict action id none h = answer-IsStrict _
run_action-IsStrict action id (some command) h =
    ask-if_ok IsSafeCommand _ command _ _ h (λ r. answer-IsStrict _)

act-IsStrict : (action id : Bytes) → IsHexId id → IsStrict (act action id)
unfolding act
act-IsStrict action id h = run_action-IsStrict action id _ (action_command-IsSafe action id h)

container_action-IsStrict :
    (sessions : Sessions) (values : Json) → IsStrict (docker_container_action sessions values)
unfolding docker_container_action
container_action-IsStrict sessions values =
    let action = string_field values (codes "action") in
    with_id-IsStrict _ _ _ (act action) (act-IsStrict action) sessions values

read_logs-IsStrict : (id : Bytes) → IsHexId id → IsStrict (read_logs id)
unfolding read_logs logs_command text_of
read_logs-IsStrict id h =
    ask-if_ok IsSafeCommand _ _ _ _ (around_id-IsSafe Fixed.logs id Fixed.logs_end h)
      (λ r. answer-IsStrict _)

container_logs-IsStrict :
    (sessions : Sessions) (values : Json) → IsStrict (docker_container_logs sessions values)
unfolding docker_container_logs
container_logs-IsStrict sessions values =
    with_id-IsStrict _ _ _ read_logs read_logs-IsStrict sessions values

remove_image-IsStrict : (action id : Bytes) → IsHexId id → IsStrict (remove_image action id)
unfolding remove_image text_of
remove_image-IsStrict action id h = elim (Bool-cases (bytes_eq action (codes "remove"))) [
  | inl e ↦
      rw (remove_image, e)
        (ask-if_ok IsSafeCommand _ _ _ _ (before_id-IsSafe Fixed.remove_image id h)
          (λ r. answer-IsStrict _))
  | inr e ↦ rw (remove_image, e) (answer-IsStrict _)
]

image_action-IsStrict :
    (sessions : Sessions) (values : Json) → IsStrict (docker_image_action sessions values)
unfolding docker_image_action
image_action-IsStrict sessions values =
    let action = string_field values (codes "action") in
    with_id-IsStrict _ _ _ (remove_image action) (remove_image-IsStrict action) sessions values

module _ (d : Decoder) where
  details_answer-IsStrict : (p : ContainerDetails × List Bytes) → IsStrict (details_answer p)
  unfolding details_answer
  details_answer-IsStrict (details, hosts) = answer-IsStrict _

  read_container-IsStrict : (id : Bytes) → IsHexId id → IsStrict (read_container d id)
  unfolding read_container
  read_container-IsStrict id h =
      ask-if_ok IsSafeCommand _ _ _ _ (container_details_command-IsSafe id h) (λ r.
        if_parsed-any IsSafeCommand is_unsuccessful details_answer details_answer-IsStrict
          (parse_docker_container_details_bundle d r.stdout))

  container_details-IsStrict :
      (sessions : Sessions) (values : Json) → IsStrict (docker_container_details d sessions values)
  unfolding docker_container_details
  container_details-IsStrict sessions values =
      with_id-IsStrict _ _ _ (read_container d) read_container-IsStrict sessions values

  containers_inspected-IsStrict :
      (id : Bytes) (details : ImageDetails) (r : CommandResult)
      → IsStrict (containers_inspected d id details r)
  unfolding containers_inspected
  containers_inspected-IsStrict id details r =
      if_parsed-any IsSafeCommand is_unsuccessful _ (λ cs. answer-IsStrict _)
        (parse_docker_image_containers d r.stdout)

  inspect_containers-IsStrict :
      (id : Bytes) (details : ImageDetails) (ids : List Bytes)
      → All IsHexId ids
      → IsStrict (inspect_containers d id details ids)
  unfolding inspect_containers inspect_command text_of
  inspect_containers-IsStrict id details [] h = answer-IsStrict _
  inspect_containers-IsStrict id details (c ∷ cs) h =
      ask-if_ok IsSafeCommand _ _ _ _ (inspect-IsSafe (c ∷ cs) h)
        (containers_inspected-IsStrict id details)

  image_summary-IsStrict :
      (id : Bytes) (p : ImageDetails × List Bytes × List Bytes)
      → IsHexId p.0.id × All IsHexId p.1
      → IsStrict (image_summary d id p)
  unfolding image_summary
  image_summary-IsStrict id (details, ids, hosts) (_, h) = inspect_containers-IsStrict id _ ids h

  read_image-IsStrict : (id : Bytes) → IsHexId id → IsStrict (read_image d id)
  unfolding read_image
  read_image-IsStrict id h =
      ask-if_ok IsSafeCommand _ _ _ _ (image_summary_command-IsSafe id h) (λ r.
        if_parsed-AllAsks IsSafeCommand is_unsuccessful (λ p. IsHexId p.0.id × All IsHexId p.1) _
          (image_summary-IsStrict id) (parse_docker_image_details_bundle d r.stdout)
          (image_bundle_ids d r.stdout))

  image_details-IsStrict :
      (sessions : Sessions) (values : Json) → IsStrict (docker_image_details d sessions values)
  unfolding docker_image_details
  image_details-IsStrict sessions values =
      with_id-IsStrict _ _ _ (read_image d) read_image-IsStrict sessions values

  -- Whatever the sessions, the parameters, the decoder and the host's answers are, each of the five Docker
  -- requests on a container or image asks only for commands that are texts of the program and identifiers
  -- of 12 to 64 hexadecimal digits, and answers a command that fails or exits with another code than 0
  -- at once by a failure.
  pub requests-IsStrict :
      (sessions : Sessions) (values : Json)
      → IsStrict (docker_container_action sessions values)
        × IsStrict (docker_container_details d sessions values)
        × IsStrict (docker_container_logs sessions values)
        × IsStrict (docker_image_action sessions values)
        × IsStrict (docker_image_details d sessions values)
  requests-IsStrict sessions values = (
    container_action-IsStrict sessions values,
    container_details-IsStrict sessions values,
    container_logs-IsStrict sessions values,
    image_action-IsStrict sessions values,
    image_details-IsStrict sessions values,
  )
