-- ===== src/Request/Scenarios.antt =====
-- Settings of a concrete request.
use dbx_plugin_ninty_shell.Base.{true, false, not, [], ◌∷◌, ◌≡◌, refl}
use dbx_plugin_ninty_shell.Text.{codes, is_empty, trim_space}
use dbx_plugin_ninty_shell.Request.{
  Json, string, number, object, end, field, config_string, config_secret, config_port, not_blank,
}
use dbx_plugin_ninty_shell.Request.Config
use dbx_plugin_ninty_shell.Request.Config.{first_text, setting_places, text_or_empty}

abbrev request : Json
request = object (
    field (codes "connection")
      (object (
        field (codes "config") (object (field (codes "host") (string (codes " h1 ")) end)) (
          field (codes "host") (string (codes "h2")) (
            field (codes "port") (number (record { negative = false; whole = 0; fraction = true }))
              end))))
      (field (codes "host") (string (codes "h3")) end))

setting_precedence_example :
    (config_string request (codes "host")
      ≡ text_or_empty trim_space (
          first_text not_blank (
            setting_places request
              (codes "external_config" ∷ codes "config" ∷ codes "values" ∷ [])
              (codes "host"))))
    × (config_secret request (codes "host")
        ≡ text_or_empty
            (λ v. v)
            (first_text
              (λ s. not (is_empty s))
              (setting_places request
                (codes "connection_secrets" ∷ codes "secrets" ∷ [])
                (codes "host"))))
setting_precedence_example = Config.setting_precedence request (codes "host")

host_found : config_string request (codes "host") ≡ codes "h1"
unfolding config_string trim_space
host_found = refl

-- A port between 0 and 1 passes the test and is cut to 0.
port_zero : config_port request ≡ 0
unfolding config_port
port_zero = refl
