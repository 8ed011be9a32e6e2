-- ===== src/Docker/Types.antt =====
-- The structs that the Docker panel sends, backend/dockerapi.go.
use dbx_plugin_ninty_shell.Base.{ℕ, Bool, List, ℤ}
use dbx_plugin_ninty_shell.Text.{Bytes}

pub record Container : Type 0 where
  pub id : Bytes
  pub names : Bytes
  pub image : Bytes
  pub state : Bytes
  pub status : Bytes
  pub ports : Bytes

pub record Image : Type 0 where
  pub repository : Bytes
  pub tag : Bytes
  pub id : Bytes
  pub size : Bytes
  pub created : Bytes

pub record PortMapping : Type 0 where
  pub container_port : Bytes
  pub host_ip : Bytes
  pub host_port : Bytes
  pub protocol : Bytes

pub record NetworkAddress : Type 0 where
  pub network_id : Bytes
  pub network : Bytes
  pub ip_address : Bytes
  pub global_ipv6 : Bytes
  pub gateway : Bytes
  pub ipv6_gateway : Bytes

pub record ImageContainer : Type 0 where
  pub id : Bytes
  pub name : Bytes
  pub image : Bytes
  pub state : Bytes
  pub status : Bytes
  pub ports : List PortMapping
  pub networks : List NetworkAddress

pub record ImageDetails : Type 0 where
  pub id : Bytes
  pub repo_tags : List Bytes
  pub repo_digests : List Bytes
  pub created : Bytes
  pub docker_version : Bytes
  pub architecture : Bytes
  pub variant : Bytes
  pub os : Bytes
  pub size : ℤ
  pub layer_count : ℕ
  pub user : Bytes
  pub working_dir : Bytes
  pub entrypoint : List Bytes
  pub cmd : List Bytes
  pub env : List Bytes
  pub labels : List (Bytes × Bytes)
  pub exposed_ports : List Bytes
  pub host_ips : List Bytes
  pub containers : List ImageContainer

pub record ContainerState : Type 0 where
  pub status : Bytes
  pub running : Bool
  pub paused : Bool
  pub restarting : Bool
  pub oom_killed : Bool
  pub dead : Bool
  pub pid : ℤ
  pub exit_code : ℤ
  pub error : Bytes
  pub started_at : Bytes
  pub finished_at : Bytes
  pub health_status : Bytes
  pub health_exit_code : ℤ

pub record ContainerMount : Type 0 where
  pub type : Bytes
  pub name : Bytes
  pub source : Bytes
  pub destination : Bytes
  pub mode : Bytes
  pub rw : Bool
  pub propagation : Bytes

pub record ContainerDetails : Type 0 where
  pub id : Bytes
  pub name : Bytes
  pub image : Bytes
  pub image_id : Bytes
  pub created : Bytes
  pub path : Bytes
  pub args : List Bytes
  pub hostname : Bytes
  pub platform : Bytes
  pub log_path : Bytes
  pub user : Bytes
  pub working_dir : Bytes
  pub entrypoint : List Bytes
  pub cmd : List Bytes
  pub env : List Bytes
  pub labels : List (Bytes × Bytes)
  pub exposed_ports : List Bytes
  pub state : ContainerState
  pub restart_policy : Bytes
  pub restart_count : ℤ
  pub network_mode : Bytes
  pub privileged : Bool
  pub readonly_rootfs : Bool
  pub ports : List PortMapping
  pub networks : List NetworkAddress
  pub host_ips : List Bytes
  pub mounts : List ContainerMount
