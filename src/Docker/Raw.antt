-- ===== src/Docker/Raw.antt =====
-- What encoding/json reads of Docker's output, backend/dockerapi.go: a pointer is an option, a map the
-- list of its entries, in the order of an iteration. Decoding itself is a parameter.
use dbx_plugin_ninty_shell.Base.{Bool, Option, List, ℤ, ◌⊎◌}
use dbx_plugin_ninty_shell.Text.{Bytes}

pub record RawImageConfig : Type 0 where
  pub user : Bytes
  pub working_dir : Bytes
  pub entrypoint : List Bytes
  pub cmd : List Bytes
  pub env : List Bytes
  pub labels : List (Bytes × Bytes)
  pub exposed_ports : List Bytes

pub record RawImage : Type 0 where
  pub id : Bytes
  pub repo_tags : List Bytes
  pub repo_digests : List Bytes
  pub created : Bytes
  pub docker_version : Bytes
  pub architecture : Bytes
  pub variant : Bytes
  pub os : Bytes
  pub size : ℤ
  pub config : Option RawImageConfig
  pub layers : List Bytes

pub record RawPortBinding : Type 0 where
  pub host_ip : Bytes
  pub host_port : Bytes

pub record RawNetworkAttachment : Type 0 where
  pub network_id : Bytes
  pub ip_address : Bytes
  pub global_ipv6_address : Bytes
  pub gateway : Bytes
  pub ipv6_gateway : Bytes

pub record RawNetworkSettings : Type 0 where
  pub ports : List (Bytes × List RawPortBinding)
  pub networks : List (Bytes × RawNetworkAttachment)

pub record RawState : Type 0 where
  pub status : Bytes
  pub running : Bool
  pub paused : Bool
  pub restarting : Bool
  pub oom_killed : Bool
  pub dead : Bool
  pub pid : ℤ
  pub exit_code : ℤ
  pub error : Bytes
  pub started_at : Bytes
  pub finished_at : Bytes
  pub health : Option (Bytes × ℤ)

pub record RawContainerConfig : Type 0 where
  pub hostname : Bytes
  pub user : Bytes
  pub working_dir : Bytes
  pub image : Bytes
  pub entrypoint : List Bytes
  pub cmd : List Bytes
  pub env : List Bytes
  pub labels : List (Bytes × Bytes)
  pub exposed_ports : List Bytes

pub record RawHostConfig : Type 0 where
  pub network_mode : Bytes
  pub privileged : Bool
  pub readonly_rootfs : Bool
  pub restart_policy : Option Bytes

pub record RawMount : Type 0 where
  pub type : Bytes
  pub name : Bytes
  pub source : Bytes
  pub destination : Bytes
  pub mode : Bytes
  pub rw : Bool
  pub propagation : Bytes

pub record RawContainer : Type 0 where
  pub id : Bytes
  pub name : Bytes
  pub image : Bytes
  pub created : Bytes
  pub path : Bytes
  pub args : List Bytes
  pub platform : Bytes
  pub log_path : Bytes
  pub restart_count : ℤ
  pub state : Option RawState
  pub config : Option RawContainerConfig
  pub host_config : Option RawHostConfig
  pub mounts : List RawMount
  pub network_settings : RawNetworkSettings

-- json.Unmarshal at the three types that the panel reads; an error is its text.
pub record Decoder : Type 0 where
  pub table : Bytes → Bytes ⊎ List (Bytes × Bytes)
  pub image : Bytes → Bytes ⊎ RawImage
  pub container : Bytes → Bytes ⊎ RawContainer
