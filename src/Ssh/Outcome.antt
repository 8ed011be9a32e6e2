-- ===== src/Ssh/Outcome.antt =====
-- How an SSH connect ends, against the connection test.
use dbx_plugin_ninty_shell.Base.{
  ℕ, Bool, true, false, Option, none, some, List, ◌≡◌, ◌⊎◌, inl, inr, refl, Bool-cases,
}
use dbx_plugin_ninty_shell.Text.{Bytes, codes, is_empty, trim_space}
use dbx_plugin_ninty_shell.Request.{Json, config_string, config_port}
use dbx_plugin_ninty_shell.Session.{ssh}
use dbx_plugin_ninty_shell.Plugin.Registry.{local_session}
use dbx_plugin_ninty_shell.Local.{Machine}
use dbx_plugin_ninty_shell.Local.Connect.{refused}
use dbx_plugin_ninty_shell.Ssh.{
  AuthMethod, KeyFiles, Network, answer, dial, ask_pwd, open_shell, close_client, ssh_auth_methods,
  dial_address, Probe, probe_dialed, probe_auth, ssh_probe, home_of, ssh_session, Made,
  shell_opened, home_asked, connect_dialed, connect_auth, connect_ssh,
}

-- A refusal has closed the client; a success has not, and its session holds it.
abbrev pub IsKept : Bytes → ℕ → Bool → Made → Type 0
IsKept id client closed (none, reply) = closed ≡ true
IsKept id client closed (some s, reply) =
    (closed ≡ false)
    × (s.ssh_client ≡ some client)
    × (s.id ≡ id)
    × (s.kind ≡ ssh)
    × (s.cwd ≡ s.home)
    × (is_empty s.home ≡ false)

-- Whatever the network answers, the dialog works on the client only while it is open, dials no other,
-- and ends with the client closed or kept. The flag is whether the client is closed.
unfoldable pub Keeps : Bytes → ℕ → Bool → Network Made → Type 0
Keeps id client closed (answer made) = IsKept id client closed made
Keeps id client closed (dial user auth address k) = ⊥
Keeps id client closed (ask_pwd c k) =
    (c ≡ client) × (closed ≡ false) × ((r : Option Bytes) → Keeps id client closed (k r))
Keeps id client closed (open_shell c k) =
    (c ≡ client) × (closed ≡ false) × ((r : Bytes ⊎ ℕ) → Keeps id client closed (k r))
Keeps id client closed (close_client c d) = (c ≡ client) × (closed ≡ false) × Keeps id client true d

-- Both refuse at once with one message, or both dial, with one user, address and list of methods.
pub data SshOutcome (id : Bytes) (probe : Network Probe) (made : Network Made) : Type 0 where
  both_refuse :
      (message : Bytes)
      → probe ≡ answer (message, false)
      → made ≡ answer (none, refused message)
      → SshOutcome id probe made
  both_dial :
      (user address : Bytes) (auth : List AuthMethod) (k : Bytes ⊎ ℕ → Network Probe)
      (k' : Bytes ⊎ ℕ → Network Made)
      → probe ≡ dial user auth address k
      → made ≡ dial user auth address k'
      → ((err : Bytes)
          → (message : Bytes) × (k (inl err) ≡ answer (message, false))
            × (k' (inl err) ≡ answer (none, refused message)))
      → ((client : ℕ)
          → (message : Bytes) × (k (inr client) ≡ close_client client (answer (message, true))))
      → ((client : ℕ) → Keeps id client false (k' (inr client)))
      → SshOutcome id probe made

home_of_filled : (out : Option Bytes) → is_empty (home_of out) ≡ false
unfolding home_of
home_of_filled none = refl
home_of_filled (some out) = elim (Bool-cases (is_empty (trim_space out))) [
  | inl e ↦ rw (home_of, e) refl
  | inr e ↦ rw (home_of, e) e
]

module _ (salt id host user : Bytes) (port : ℕ) where
  shell_opened-Keeps :
      (client : ℕ) (out : Option Bytes) (r : Bytes ⊎ ℕ)
      → Keeps id client false (shell_opened salt id host user port client out r)
  unfolding Keeps shell_opened ssh_session local_session
  shell_opened-Keeps client out (inl err) = (refl, refl, refl)
  shell_opened-Keeps client out (inr terminal) = (refl, refl, refl, refl, refl, home_of_filled out)

  dialed-Keeps :
      (client : ℕ) → Keeps id client false (connect_dialed salt id host user port (inr client))
  unfolding Keeps connect_dialed home_asked
  dialed-Keeps client = (refl, refl, λ out. (refl, refl, shell_opened-Keeps client out))

  auth_outcome :
      (auth : Bytes ⊎ List AuthMethod)
      → SshOutcome id (probe_auth host user port auth) (connect_auth salt id host user port auth)
  unfolding probe_auth connect_auth probe_dialed connect_dialed
  auth_outcome (inl err) = both_refuse err refl refl
  auth_outcome (inr auth) =
      both_dial user (dial_address host port) auth (probe_dialed host user port)
        (connect_dialed salt id host user port) refl refl (λ err. (_, refl, refl))
        (λ client. (_, refl)) dialed-Keeps

-- For one request and one key file, the SSH connect and the connection test refuse with one message before
-- they dial, or both dial, with the same user, methods and address. Then each refuses a failed dial with
-- one message; the test closes the client of a successful one and succeeds; and whatever else the network
-- answers, the connect dials no more and either refuses and has closed the client, or makes an SSH session
-- that holds the open client, with the connection's identifier, in its home directory, which is not empty.
pub connect_ssh_outcome :
    (m : Machine) (d : KeyFiles) (salt : Bytes) (values : Json) (id : Bytes)
    → SshOutcome id (ssh_probe m d values) (connect_ssh m d salt values id)
unfolding ssh_probe connect_ssh
connect_ssh_outcome m d salt values id =
    let host = trim_space (config_string values (codes "host")) in
    let user = trim_space (config_string values (codes "username")) in
    elim (Bool-cases (is_empty host)) [
      | inl e ↦ rw e (both_refuse _ refl refl)
      | inr e ↦ elim (Bool-cases (is_empty user)) [
        | inl f ↦ rw (e, f) (both_refuse _ refl refl)
        | inr f ↦
            rw (e, f)
              (auth_outcome salt id host user (config_port values) (ssh_auth_methods m d values))
      ]
    ]
