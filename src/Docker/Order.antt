-- ===== src/Docker/Order.antt =====
-- The order in which published ports and networks are shown.
use mathlib.Core.List.{Perm}
use mathlib.Core.Path.{subst}
use dbx_plugin_ninty_shell.Base.{
  true, false, List, [], ◌∷◌, ◌++◌, map, ◌≡◌, refl, arith, inl, inr, ap, sym, ◌∙◌, Bool, not,
  Bool-cases, if◌then◌else◌,
}
use dbx_plugin_ninty_shell.Text.{Bytes, trim_space}
use dbx_plugin_ninty_shell.Text.Equal.{bytes_eq, bytes_eq_comm, bytes_eq_iff}
use dbx_plugin_ninty_shell.Text.Sort.{
  bytes_lt, bytes_lt_asymm, bytes_lt_total, AreBelow, IsOrdered, sort_by, sort_by-perm,
  sort_by-IsOrdered,
}
use dbx_plugin_ninty_shell.Docker.Types.{PortMapping, NetworkAddress}
use dbx_plugin_ninty_shell.Docker.Raw.{RawNetworkSettings, RawPortBinding}
use dbx_plugin_ninty_shell.Docker.Ports.{
  port_protocol, mapping_of, mapping_lt, all_mappings, address_lt, address_of,
  parse_docker_port_mappings, parse_docker_network_addresses,
}

mapping_lt_asymm : (a b : PortMapping) → mapping_lt a b ≡ true → mapping_lt b a ≡ false
unfolding mapping_lt
mapping_lt_asymm a b h = ground (
  arith,
  h,
  bytes_eq_comm b.container_port a.container_port,
  bytes_eq_comm b.host_port a.host_port,
  bytes_lt_asymm a.container_port b.container_port,
  bytes_lt_asymm a.host_port b.host_port,
  bytes_lt_asymm a.host_ip b.host_ip,
)

address_lt_asymm : (a b : NetworkAddress) → address_lt a b ≡ true → address_lt b a ≡ false
unfolding address_lt
address_lt_asymm a b h = bytes_lt_asymm a.network b.network h

-- The texts that a mapping is ordered by, and an address.
abbrev pub mapping_keys : PortMapping → List Bytes
mapping_keys m = m.container_port ∷ m.host_port ∷ m.host_ip ∷ []

abbrev pub IsMappingBelow : PortMapping → PortMapping → Type 0
IsMappingBelow a b = AreBelow (mapping_keys a) (mapping_keys b)

abbrev pub IsAddressBelow : NetworkAddress → NetworkAddress → Type 0
IsAddressBelow a b = AreBelow (a.network ∷ []) (b.network ∷ [])

below_first :
    (k l : Bytes) (ks ls : List Bytes)
    → bytes_lt l k ≡ false
    → (k ≡ l → AreBelow ks ls)
    → AreBelow (k ∷ ks) (l ∷ ls)
below_first k l ks ls h rest = elim (bytes_lt_total k l h) [
  | inl e ↦ inr (e, rest e)
  | inr e ↦ inl e
]

-- One step of the comparison: a key that differs decides, else what is behind it.
next_key :
    (k l : Bytes) (rest : Bool) (ks ls : List Bytes)
    → (if not (bytes_eq l k) then bytes_lt l k else rest) ≡ false
    → (rest ≡ false → AreBelow ks ls)
    → AreBelow (k ∷ ks) (l ∷ ls)
next_key k l rest ks ls h behind = elim (Bool-cases (bytes_eq l k)) [
  | inl e ↦ inr (sym ((bytes_eq_iff l k).0 e), behind (ground (arith, e, h)))
  | inr e ↦ elim (bytes_lt_total k l (ground (arith, e, h))) [
    | inl f ↦ absurd (ground (arith, e, (bytes_eq_iff l k).1 (sym f)))
    | inr f ↦ inl f
  ]
]

mapping_below : (a b : PortMapping) → mapping_lt b a ≡ false → IsMappingBelow a b
unfolding mapping_lt
mapping_below a b h =
    next_key a.container_port b.container_port _ (a.host_port ∷ a.host_ip ∷ [])
      (b.host_port ∷ b.host_ip ∷ []) h
      (λ h.
        next_key a.host_port b.host_port _ (a.host_ip ∷ []) (b.host_ip ∷ []) h
          (λ h. below_first a.host_ip b.host_ip [] [] h (λ e. tt)))

-- Each published port with one of its bindings.
pub published : List (Bytes × List RawPortBinding) → List (Bytes × RawPortBinding)
published [] = []
published ((key, bindings) ∷ ports) = map (λ b. (key, b)) bindings ++ published ports

-- What is shown of a binding.
abbrev pub shown_binding : Bytes × RawPortBinding → PortMapping
shown_binding (key, b) = record {
  container_port = (port_protocol key).0;
  host_ip = trim_space b.host_ip;
  host_port = trim_space b.host_port;
  protocol = (port_protocol key).1;
}

key_mappings :
    (key : Bytes) (bindings : List RawPortBinding) (rest : List (Bytes × RawPortBinding))
    → map (mapping_of (port_protocol key)) bindings ++ map shown_binding rest
      ≡ map shown_binding (map (λ b. (key, b)) bindings ++ rest)
unfolding mapping_of
key_mappings key [] rest = refl
key_mappings key (b ∷ bindings) rest =
    ap (λ l. shown_binding (key, b) ∷ l) (key_mappings key bindings rest)

all_mappings_lem :
    (ports : List (Bytes × List RawPortBinding))
    → all_mappings ports ≡ map shown_binding (published ports)
unfolding all_mappings mapping_of published
all_mappings_lem [] = refl
all_mappings_lem ((key, bindings) ∷ ports) =
    ap (λ l. map (mapping_of (port_protocol key)) bindings ++ l) (all_mappings_lem ports)
    ∙ key_mappings key bindings (published ports)

-- The panel shows each binding of each published port once, by container port, host port and address,
-- and each network once, by name, in whatever order the maps give them.
pub networking-IsOrdered :
    (settings : RawNetworkSettings)
    → Perm (parse_docker_port_mappings settings) (map shown_binding (published settings.ports))
      × IsOrdered IsMappingBelow (parse_docker_port_mappings settings)
      × Perm (parse_docker_network_addresses settings) (map address_of settings.networks)
      × IsOrdered IsAddressBelow (parse_docker_network_addresses settings)
unfolding parse_docker_port_mappings parse_docker_network_addresses address_lt
networking-IsOrdered settings = (
  subst (Perm (sort_by mapping_lt (all_mappings settings.ports))) (all_mappings_lem settings.ports)
      (sort_by-perm mapping_lt _),
  sort_by-IsOrdered mapping_lt IsMappingBelow mapping_lt_asymm mapping_below _,
  sort_by-perm address_lt _,
  sort_by-IsOrdered address_lt IsAddressBelow address_lt_asymm
      (λ a b h. below_first a.network b.network [] [] h (λ e. tt)) _,
)
