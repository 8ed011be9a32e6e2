-- ===== src/Request.antt =====
-- Request parameters: the JSON object of a call, and the functions of backend/main.go and
-- backend/sftpapi.go that read it.
pub mod Config
mod Scenarios
use dbx_plugin_ninty_shell.Base.{
  ℕ, Bool, true, false, not, ◌&&◌, ◌||◌, Option, none, some, List, [], ◌∷◌, ltb, if◌then◌else◌,
}
use dbx_plugin_ninty_shell.Text.{Bytes, codes, is_empty, trim_space}
use dbx_plugin_ninty_shell.Text.Equal.{bytes_eq}

-- A finite float64 as far as the code looks at it: its sign, the whole part of its magnitude, and
-- whether something follows the point.
pub record Number : Type 0 where
  pub negative : Bool
  pub whole : ℕ
  pub fraction : Bool

-- What json.Unmarshal puts into an `any`.
mutual
  pub data Json : Type 0 where
    null : Json
    bool : Bool → Json
    number : Number → Json
    string : Bytes → Json
    array : Items → Json
    object : Fields → Json

  pub data Items : Type 0 where
    nil : Items
    cons : Json → Items → Items

  pub data Fields : Type 0 where
    end : Fields
    field : Bytes → Json → Fields → Fields

find_field : Bytes → Fields → Json
unfolding bytes_eq
find_field key end = null
find_field key (field k v fs) = if bytes_eq k key then v else find_field key fs

-- `value.(map[string]any)[key]`; what is no object reads as the nil map, a missing key as nil.
unfoldable pub get : Bytes → Json → Json
unfolding find_field
get key (object fs) = find_field key fs
get key _ = null

-- Type assertions, with the zero value where they fail.
unfoldable pub as_string : Json → Bytes
as_string (string s) = s
as_string _ = []

unfoldable pub as_bool : Json → Bool
as_bool (bool b) = b
as_bool _ = false

unfoldable pub as_number : Json → Option Number
as_number (number n) = some n
as_number _ = none

unfoldable pub string_field : Json → Bytes → Bytes
string_field values key = as_string (get key values)

-- v > 0
abbrev pub is_positive : Number → Bool
is_positive n = not n.negative && (ltb 0 n.whole || n.fraction)

-- The key is looked for in the root's containers, then in the root; the test says which text counts.
in_containers : (Bytes → Bool) → Json → List Bytes → Bytes → Option Bytes
in_containers counts root [] key =
    let value = as_string (get key root) in if counts value then some value else none
in_containers counts root (c ∷ cs) key =
    let value = as_string (get key (get c root)) in
    let rest = in_containers counts root cs key in if counts value then some value else rest

in_roots : (Bytes → Bool) → List Json → List Bytes → Bytes → Option Bytes
in_roots counts [] cs key = none
in_roots counts (r ∷ rs) cs key =
    let rest = in_roots counts rs cs key in
    elim (in_containers counts r cs key) [ some value ↦ some value | none ↦ rest ]

abbrev pub not_blank : Bytes → Bool
not_blank value = not (is_empty (trim_space value))

abbrev config_containers : List Bytes
config_containers = codes "external_config" ∷ codes "config" ∷ codes "values" ∷ []

abbrev secret_containers : List Bytes
secret_containers = codes "connection_secrets" ∷ codes "secrets" ∷ []

unfoldable pub config_string : Json → Bytes → Bytes
unfolding in_containers in_roots get as_string
config_string values key =
    elim (in_roots not_blank (get (codes "connection") values ∷ values ∷ []) config_containers
      key) [ some value ↦ trim_space value | none ↦ [] ]

unfoldable pub config_secret : Json → Bytes → Bytes
unfolding in_containers in_roots get as_string
config_secret values key =
    elim (in_roots (λ s. not (is_empty s)) (get (codes "connection") values ∷ values ∷ [])
      secret_containers key) [ some value ↦ value | none ↦ [] ]

port_of : Json → Option ℕ
port_of (number n) = if is_positive n && ltb n.whole 65536 then some n.whole else none
port_of _ = none

unfoldable pub config_port : Json → ℕ
unfolding port_of get
config_port values = elim (port_of (get (codes "port") (get (codes "connection") values))) [
  | some port ↦ port
  | none ↦ elim (port_of (get (codes "port") values)) [ some port ↦ port | none ↦ 22 ]
]

abbrev pub provider_local : Bytes
provider_local = codes "com.nintycat.shell.connection"

abbrev pub provider_ssh : Bytes
provider_ssh = codes "com.nintycat.ssh.connection"

unfoldable pub provider_id : Json → Bytes
provider_id values =
    let id = as_string (get (codes "id") (get (codes "provider") values)) in
    let other =
      as_string (get (codes "plugin_connection_provider") (get (codes "connection") values)) in
    if not (is_empty id) then id else if not (is_empty other) then other else provider_local

unfoldable pub request_session_id : Json → Bytes
request_session_id values =
    let id = as_string (get (codes "connectionId") values) in
    if not (is_empty id) then id else as_string (get (codes "id") (get (codes "connection") values))

-- `none` is the error -32602 "Missing connection id".
unfoldable pub request_connection_id : Json → Option Bytes
request_connection_id values =
    let id = as_string (get (codes "id") (get (codes "connection") values)) in
    if is_empty id then none else some id
