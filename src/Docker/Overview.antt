-- ===== src/Docker/Overview.antt =====
-- The two requests of the Docker panel that name no container.
use dbx_plugin_ninty_shell.Base.{not, ◌||◌, List, inl, inr, Bool-cases}
use dbx_plugin_ninty_shell.Text.{Bytes, trim_space}
use dbx_plugin_ninty_shell.Plugin.{Sessions, session_for}
use dbx_plugin_ninty_shell.Request.{Json}
use dbx_plugin_ninty_shell.Session.{is_ssh}
use dbx_plugin_ninty_shell.Docker.{CommandResult, is_zero}
use dbx_plugin_ninty_shell.Docker.Types.{Container}
use dbx_plugin_ninty_shell.Docker.Raw.{Decoder}
use dbx_plugin_ninty_shell.Docker.Tables.{parse_docker_containers, parse_docker_images}
use dbx_plugin_ninty_shell.Docker.Safety.{IsSafeCommand, fixed-IsSafe, Fixed, text_of}
use dbx_plugin_ninty_shell.Docker.Answers.{
  AllAsks, answer-AllAsks, is_broken, if_parsed-any, ask-if_run, ask-if_ok-broken,
  on_session-AllAsks,
}
use dbx_plugin_ninty_shell.Docker.Panel.{
  with_session, docker_detect, detect_ended, docker_overview, overview_ended, version_ended,
  containers_listed, images_listed, versions, is_installed,
}

detect_ended-AllAsks : (r : CommandResult) → AllAsks IsSafeCommand is_broken (detect_ended r)
unfolding text_of detect_ended
detect_ended-AllAsks r = elim (Bool-cases (is_zero r.exit_code)) [
  | inl z ↦ rw (detect_ended, z) (answer-AllAsks IsSafeCommand is_broken _)
  | inr z ↦ rw (detect_ended, z) (answer-AllAsks IsSafeCommand is_broken _)
]

detect-AllAsks :
    (sessions : Sessions) (values : Json)
    → AllAsks IsSafeCommand is_broken (docker_detect sessions values)
unfolding docker_detect with_session text_of
detect-AllAsks sessions values =
    on_session-AllAsks IsSafeCommand is_broken _
      (λ s. elim (Bool-cases (is_ssh s.kind)) [
        | inl e ↦
            rw e (ask-if_run IsSafeCommand _ _ _ _ (fixed-IsSafe Fixed.detect) detect_ended-AllAsks)
        | inr e ↦ rw e (answer-AllAsks IsSafeCommand is_broken _)
      ])
      (session_for sessions values)

module _ (d : Decoder) where
  images_listed-AllAsks :
      (v : Bytes × Bytes) (cs : List Container) (r : CommandResult)
      → AllAsks IsSafeCommand is_broken (images_listed d v cs r)
  unfolding text_of images_listed
  images_listed-AllAsks (client, server) cs r =
      if_parsed-any IsSafeCommand is_broken _ (λ images. (answer-AllAsks IsSafeCommand is_broken _))
        (parse_docker_images d.table r.stdout)

  containers_listed-AllAsks :
      (v : Bytes × Bytes) (r : CommandResult)
      → AllAsks IsSafeCommand is_broken (containers_listed d v r)
  unfolding containers_listed text_of
  containers_listed-AllAsks v r =
      if_parsed-any IsSafeCommand is_broken _
        (λ cs.
          ask-if_ok-broken IsSafeCommand _ _ _ _ (fixed-IsSafe Fixed.images)
            (images_listed-AllAsks v cs))
        (parse_docker_containers d.table r.stdout)

  version_ended-AllAsks : (r : CommandResult) → AllAsks IsSafeCommand is_broken (version_ended d r)
  unfolding version_ended text_of
  version_ended-AllAsks r = elim (Bool-cases (is_zero r.exit_code)) [
    | inl z ↦
        rw (version_ended, z)
          (ask-if_ok-broken IsSafeCommand _ _ _ _ (fixed-IsSafe Fixed.containers)
            (containers_listed-AllAsks (versions (trim_space r.stdout))))
    | inr z ↦ rw (version_ended, z) (answer-AllAsks IsSafeCommand is_broken _)
  ]

  overview_ended-AllAsks :
      (r : CommandResult) → AllAsks IsSafeCommand is_broken (overview_ended d r)
  unfolding overview_ended text_of
  overview_ended-AllAsks r = elim (Bool-cases (not (is_zero r.exit_code) || not (is_installed r))) [
    | inl z ↦ rw z (answer-AllAsks IsSafeCommand is_broken _)
    | inr z ↦
        rw z (ask-if_run IsSafeCommand _ _ _ _ (fixed-IsSafe Fixed.version) version_ended-AllAsks)
  ]

  overview-AllAsks :
      (sessions : Sessions) (values : Json)
      → AllAsks IsSafeCommand is_broken (docker_overview d sessions values)
  unfolding docker_overview with_session text_of
  overview-AllAsks sessions values =
      on_session-AllAsks IsSafeCommand is_broken _
        (λ s. elim (Bool-cases (is_ssh s.kind)) [
          | inl e ↦
              rw e (
                ask-if_run IsSafeCommand _ _ _ _ (fixed-IsSafe Fixed.detect) overview_ended-AllAsks)
          | inr e ↦ rw e (answer-AllAsks IsSafeCommand is_broken _)
        ])
        (session_for sessions values)

  -- Whatever the sessions, the parameters, the decoder and the host's answers are, the detection and the
  -- overview of Docker ask only for commands that are texts of the program and identifiers of 12 to 64
  -- hexadecimal digits, and answer a command that could not be run to its end at once by a failure.
  pub overview_reads :
      (sessions : Sessions) (values : Json)
      → AllAsks IsSafeCommand is_broken (docker_detect sessions values)
        × AllAsks IsSafeCommand is_broken (docker_overview d sessions values)
  overview_reads sessions values =
      (detect-AllAsks sessions values, overview-AllAsks sessions values)
