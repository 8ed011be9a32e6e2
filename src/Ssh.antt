-- ===== src/Ssh.antt =====
-- SSH connections, backend/ssh.go: the authentication methods of a request, `testSSH` and `connectSSH`.
-- The key file and its parser are a parameter, and the network is asked in a dialog.
pub mod Outcome
pub mod Shell
mod Scenarios
use dbx_plugin_ninty_shell.Base.{
  ℕ, Bool, true, false, Option, none, some, List, [], ◌∷◌, ◌++◌, ◌⊎◌, inl, inr, if◌then◌else◌,
}
use dbx_plugin_ninty_shell.Text.{Bytes, codes, is_empty, trim_space}
use dbx_plugin_ninty_shell.Text.Decimal.{decimal}
use dbx_plugin_ninty_shell.Text.Equal.{bytes_eq}
use dbx_plugin_ninty_shell.Request.{Json, config_string, config_secret, config_port}
use dbx_plugin_ninty_shell.Session.{Session, ssh}
use dbx_plugin_ninty_shell.Plugin.Registry.{local_session}
use dbx_plugin_ninty_shell.Local.{Machine, expand_home}
use dbx_plugin_ninty_shell.Local.Connect.{Reply, refused, ssh_reply}

pub data AuthMethod : Type 0 where
  password : Bytes → AuthMethod
  public_key : ℕ → AuthMethod

-- os.ReadFile and the two functions that parse a key. A signer is a number; an error is its text.
pub record KeyFiles : Type 0 where
  pub read_file : Bytes → Bytes ⊎ Bytes
  pub parse_private_key : Bytes → Bytes ⊎ ℕ
  pub parse_private_key_with_passphrase : Bytes → Bytes → Bytes ⊎ ℕ

-- What is asked of the network, in order: Dial with user, methods and address, the output of `pwd`
-- where it comes in time, the interactive shell, and the closing of a client. The question for `pwd`
-- runs beside the opening of the shell. A client and a terminal are numbers.
pub data Network (A : Type 0) : Type 0 where
  answer : A → Network A
  dial : Bytes → List AuthMethod → Bytes → (Bytes ⊎ ℕ → Network A) → Network A
  ask_pwd : ℕ → (Option Bytes → Network A) → Network A
  open_shell : ℕ → (Bytes ⊎ ℕ → Network A) → Network A
  close_client : ℕ → Network A → Network A

-- The password of the request, where there is one, as the method behind a key.
password_behind : Json → List AuthMethod
password_behind values =
    let secret = config_secret values (codes "password") in
    if is_empty secret then [] else password secret ∷ []

parse_key : KeyFiles → Json → Bytes → Bytes ⊎ ℕ
parse_key d values key =
    let passphrase = config_secret values (codes "key_passphrase") in
    if is_empty passphrase
    then d.parse_private_key key
    else d.parse_private_key_with_passphrase key passphrase

key_parsed : Json → Bytes ⊎ ℕ → Bytes ⊎ List AuthMethod
unfolding password_behind
key_parsed values (inl err) = inl (codes "Cannot parse private key: " ++ err)
key_parsed values (inr signer) = inr (public_key signer ∷ password_behind values)

key_read : KeyFiles → Json → Bytes ⊎ Bytes → Bytes ⊎ List AuthMethod
unfolding key_parsed parse_key
key_read d values (inl err) = inl (codes "Cannot read private key: " ++ err)
key_read d values (inr key) = key_parsed values (parse_key d values key)

key_methods : Machine → KeyFiles → Json → Bytes → Bytes ⊎ List AuthMethod
unfolding key_read
key_methods m d values path =
    if is_empty path
    then inl (codes "Private key path is required for key authentication")
    else key_read d values
        (d.read_file (elim (expand_home m path) [ none ↦ path | some home ↦ home ]))

password_methods : Bytes → Bytes ⊎ List AuthMethod
password_methods secret =
    if is_empty secret
    then inl (codes "Password is required for password authentication")
    else inr (password secret ∷ [])

auth_type : Json → Bytes
auth_type values =
    let given = config_string values (codes "auth_type") in
    if is_empty given then codes "password" else given

unfoldable pub ssh_auth_methods : Machine → KeyFiles → Json → Bytes ⊎ List AuthMethod
unfolding key_methods password_methods auth_type
ssh_auth_methods m d values =
    if bytes_eq (auth_type values) (codes "password")
    then password_methods (config_secret values (codes "password"))
    else if bytes_eq (auth_type values) (codes "private_key")
    then key_methods m d values (config_string values (codes "key_path"))
    else inl (codes "Unknown auth type: " ++ auth_type values)

-- %s:%d, and the same behind the user.
unfoldable pub dial_address : Bytes → ℕ → Bytes
dial_address host port = host ++ (codes ":" ++ decimal port)

user_address : Bytes → Bytes → ℕ → Bytes
unfolding dial_address
user_address user host port = user ++ (codes "@" ++ dial_address host port)

-- The message of the connection test and whether it succeeds.
abbrev pub Probe : Type 0
Probe = Bytes × Bool

probe_dialed : Bytes → Bytes → ℕ → Bytes ⊎ ℕ → Network Probe
unfolding user_address
probe_dialed host user port (inl err) = answer (codes "SSH connect failed: " ++ err, false)
probe_dialed host user port (inr client) =
    close_client client (answer (codes "SSH ready: " ++ user_address user host port, true))

probe_auth : Bytes → Bytes → ℕ → Bytes ⊎ List AuthMethod → Network Probe
unfolding probe_dialed dial_address
probe_auth host user port (inl err) = answer (err, false)
probe_auth host user port (inr auth) =
    dial user auth (dial_address host port) (probe_dialed host user port)

unfoldable pub ssh_probe : Machine → KeyFiles → Json → Network Probe
unfolding probe_auth
ssh_probe m d values =
    let host = trim_space (config_string values (codes "host")) in
    let user = trim_space (config_string values (codes "username")) in
    if is_empty host
    then answer (codes "Host is required", false)
    else if is_empty user
    then answer (codes "Username is required", false)
    else probe_auth host user (config_port values) (ssh_auth_methods m d values)

-- The end of `fetchRemoteHome`.
unfoldable pub home_of : Option Bytes → Bytes
home_of none = codes "/"
home_of (some out) = if is_empty (trim_space out) then codes "/" else trim_space out

-- The session behind a terminal that opened; every other field is as in a new one.
unfoldable pub ssh_session : Bytes → Bytes → ℕ → ℕ → Bytes → Session
unfolding local_session
ssh_session id salt client terminal home = record (local_session id [] home) {
  kind = ssh;
  sid = salt;
  ssh_client = some client;
  home = home;
  pty_session = some terminal;
  pty_stdin = some terminal;
}

abbrev pub Made : Type 0
Made = Option Session × Reply

-- `salt` is the random text of the session.
module _ (salt id host user : Bytes) (port : ℕ) where
  shell_opened : ℕ → Option Bytes → Bytes ⊎ ℕ → Network Made
  unfolding ssh_session home_of user_address
  shell_opened client out (inl err) =
      close_client client (answer (none, refused (codes "PTY shell failed: " ++ err)))
  shell_opened client out (inr terminal) = answer (
    some (ssh_session id salt client terminal (home_of out)),
    ssh_reply (codes "SSH connected: " ++ user_address user host port),
  )

  home_asked : ℕ → Option Bytes → Network Made
  unfolding shell_opened
  home_asked client out = open_shell client (shell_opened client out)

  connect_dialed : Bytes ⊎ ℕ → Network Made
  unfolding home_asked
  connect_dialed (inl err) = answer (none, refused (codes "SSH connect failed: " ++ err))
  connect_dialed (inr client) = ask_pwd client (home_asked client)

  connect_auth : Bytes ⊎ List AuthMethod → Network Made
  unfolding connect_dialed dial_address
  connect_auth (inl err) = answer (none, refused err)
  connect_auth (inr auth) = dial user auth (dial_address host port) connect_dialed

unfoldable pub connect_ssh : Machine → KeyFiles → Bytes → Json → Bytes → Network Made
unfolding connect_auth
connect_ssh m d salt values id =
    let host = trim_space (config_string values (codes "host")) in
    let user = trim_space (config_string values (codes "username")) in
    if is_empty host
    then answer (none, refused (codes "Host is required"))
    else if is_empty user
    then answer (none, refused (codes "Username is required"))
    else connect_auth salt id host user (config_port values) (ssh_auth_methods m d values)
