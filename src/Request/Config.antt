-- ===== src/Request/Config.antt =====
-- Which of the places of a setting counts.
use dbx_plugin_ninty_shell.Base.{
  ℕ, ◌<◌, Bool, not, Option, none, some, List, [], ◌∷◌, ◌++◌, ◌≡◌, refl, arith, if◌then◌else◌,
}
use dbx_plugin_ninty_shell.Text.{Bytes, codes, is_empty, trim_space}
use dbx_plugin_ninty_shell.Request.{
  Json, get, as_string, config_string, config_secret, config_port, port_of, not_blank, in_roots,
  in_containers,
}

-- An independent description: the places where a setting may stand, in the order of their weight.
places : Json → List Bytes → Bytes → List Json
places root [] key = get key root ∷ []
places root (c ∷ cs) key = get key (get c root) ∷ places root cs key

-- The first text among some values that counts.
pub first_text : (Bytes → Bool) → List Json → Option Bytes
first_text counts [] = none
first_text counts (v ∷ vs) =
    let rest = first_text counts vs in if counts (as_string v) then some (as_string v) else rest

pub setting_places : Json → List Bytes → Bytes → List Json
unfolding places
setting_places values cs key =
    places (get (codes "connection") values) cs key ++ places values cs key

-- an earlier text wins
or_else : Option Bytes → Option Bytes → Option Bytes
or_else (some v) other = some v
or_else none other = other

first_text-append :
    (counts : Bytes → Bool) (vs ws : List Json)
    → first_text counts (vs ++ ws) ≡ or_else (first_text counts vs) (first_text counts ws)
unfolding first_text or_else
first_text-append counts [] ws = refl
first_text-append counts (v ∷ vs) ws = ground (arith, first_text-append counts vs ws)

in_containers-first_text :
    (counts : Bytes → Bool) (root : Json) (cs : List Bytes) (key : Bytes)
    → in_containers counts root cs key ≡ first_text counts (places root cs key)
unfolding in_containers first_text places
in_containers-first_text counts root [] key = refl
in_containers-first_text counts root (c ∷ cs) key =
    ground (arith, in_containers-first_text counts root cs key)

in_roots-first_text :
    (counts : Bytes → Bool) (values : Json) (cs : List Bytes) (key : Bytes)
    → in_roots counts (get (codes "connection") values ∷ values ∷ []) cs key
      ≡ first_text counts (setting_places values cs key)
unfolding in_roots setting_places or_else
in_roots-first_text counts values cs key = ground (
  arith,
  in_containers-first_text counts (get (codes "connection") values) cs key,
  in_containers-first_text counts values cs key,
  first_text-append counts (places (get (codes "connection") values) cs key) (places values cs key),
)

-- The text that counts, through `f`, or the empty text.
pub text_or_empty : (Bytes → Bytes) → Option Bytes → Bytes
text_or_empty f none = []
text_or_empty f (some v) = f v

-- A setting is the first text that is not blank among eight places, its white space cut off: under
-- `connection` in external_config, config and values and then directly, and the same four places of
-- the request itself. A secret is the first text that is not empty among six, as it stands: under
-- `connection` in connection_secrets and secrets and then directly, and the same three of the request.
-- Without such a text the result is empty.
pub setting_precedence :
    (values : Json) (key : Bytes)
    → (config_string values key
        ≡ text_or_empty trim_space (
            first_text not_blank (
              setting_places values
                (codes "external_config" ∷ codes "config" ∷ codes "values" ∷ [])
                key)))
      × (config_secret values key
          ≡ text_or_empty
              (λ v. v)
              (first_text
                (λ s. not (is_empty s))
                (setting_places values (codes "connection_secrets" ∷ codes "secrets" ∷ []) key)))
unfolding config_string config_secret text_or_empty
setting_precedence values key = (
  ground (
    arith,
    in_roots-first_text not_blank values
        (codes "external_config" ∷ codes "config" ∷ codes "values" ∷ []) key,
  ),
  ground (
    arith,
    in_roots-first_text (λ s. not (is_empty s)) values
        (codes "connection_secrets" ∷ codes "secrets" ∷ []) key,
  ),
)

port_of-lt : (v : Json) (n : ℕ) → port_of v ≡ some n → n < 65536
unfolding port_of
port_of-lt (Json.number m) n h = ground arith
port_of-lt Json.null n h = cc
port_of-lt (Json.bool b) n h = cc
port_of-lt (Json.string s) n h = cc
port_of-lt (Json.array i) n h = cc
port_of-lt (Json.object o) n h = cc

-- Whatever the request holds, the port is a 16-bit number.
pub config_port-lt : (values : Json) → config_port values < 65536
unfolding config_port
config_port-lt values = ground (
  arith,
  port_of-lt (get (codes "port") (get (codes "connection") values)) (config_port values),
  port_of-lt (get (codes "port") values) (config_port values),
)
