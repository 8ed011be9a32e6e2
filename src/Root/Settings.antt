-- ===== src/Root/Settings.antt =====
-- When root mode is on.
use dbx_plugin_ninty_shell.Base.{not, none, some, [], ◌≡◌, refl, sym, ◌⊎◌, inl, inr, Bool-cases}
use dbx_plugin_ninty_shell.Text.{Bytes, codes, is_empty}
use dbx_plugin_ninty_shell.Text.Equal.{bytes_eq}
use dbx_plugin_ninty_shell.Request.{Json, config_string, config_secret}
use dbx_plugin_ninty_shell.Session.{Session}
use dbx_plugin_ninty_shell.Root.{root_settings, apply_settings, configure_root_escalation}

-- The session is as the settings want it: root mode exactly where the mode is password, and a password
-- kept exactly in root mode; what was found out for an earlier root user is forgotten.
pub record IsConfigured (values : Json) (s : Session) : Type 0 where
  pub mode :
      s.root_enabled ≡ bytes_eq (config_string values (codes "root_login")) (codes "password")
  pub password : s.root_enabled ≡ not (is_empty s.root_password)
  pub home : s.root_home ≡ []
  pub server : s.root_sftp_path ≡ []

-- Configuring either succeeds with the session as the settings want it, or fails with a message and
-- leaves the session as it was; it fails exactly if a password stands without the mode or the mode
-- without a password.
pub configure_outcome :
    (s : Session) (values : Json)
    → ((configure_root_escalation s values).1 ≡ none)
        × IsConfigured values (configure_root_escalation s values).0
      ⊎ (message : Bytes) × ((configure_root_escalation s values).1 ≡ some message)
        × ((configure_root_escalation s values).0 ≡ s)
        × (bytes_eq (config_string values (codes "root_login")) (codes "password")
            ≡ is_empty (config_secret values (codes "root_password")))
unfolding configure_root_escalation apply_settings root_settings
configure_outcome s values =
    elim (Bool-cases (bytes_eq (config_string values (codes "root_login")) (codes "password"))) [
      | inl m ↦ elim (Bool-cases (is_empty (config_secret values (codes "root_password")))) [
        | inl e ↦ rw (m, e) (inr (_, refl, refl, refl))
        | inr e ↦
            rw (m, e)
              (inl
                (refl, record { mode = sym m; password = rw e refl; home = refl; server = refl }))
      ]
      | inr m ↦ elim (Bool-cases (is_empty (config_secret values (codes "root_password")))) [
        | inl e ↦
            rw (m, e)
              (inl (refl, record { mode = sym m; password = refl; home = refl; server = refl }))
        | inr e ↦ rw (m, e) (inr (_, refl, refl, refl))
      ]
    ]
