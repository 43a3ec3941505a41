-- ===== src/Injector.antt =====
-- k8s/injector: the configuration, and what of a pod the webhook reads or changes.
-- What it neither reads nor changes of a container or a pod is one opaque text, `other`.
pub mod Annotation
pub mod Targets
pub mod Content
pub mod Mutator
pub mod Handler
pub mod Kept
pub mod Others
pub mod Kubelet
pub mod Deployed
pub mod Initialised
use env_proxy.Prelude.{ℕ, List, Option, Bool}
use env_proxy.Prelude.Bytes.{Bytes, codes}
use env_proxy.Prelude.Map.{Map}

pub record Config : Type 0 where
  pub envproxy_image : Bytes
  pub default_cache_ttl : Bytes
  pub agent_cpu_limit : Bytes
  pub agent_memory_limit : Bytes
  pub agent_cpu_request : Bytes
  pub agent_memory_request : Bytes

abbrev pub status_injected : Bytes
status_injected = codes "injected"

abbrev pub volume_name : Bytes
volume_name = codes "envproxy-bin"

abbrev pub mount_path : Bytes
mount_path = codes "/envproxy"

abbrev pub socket_path : Bytes
socket_path = codes "/envproxy/agent.sock"

-- A variable with a value, or with a source of one.
pub data EnvVar : Type 0 where
  literal : (name : Bytes) → (value : Bytes) → EnvVar
  value_from : (name : Bytes) → (source : Bytes) → EnvVar

pub record VolumeMount : Type 0 where
  pub name : Bytes
  pub mount_path : Bytes
  pub read_only : Bool

pub record SecurityContext : Type 0 where
  pub run_as_non_root : Bool
  pub run_as_user : ℕ
  pub read_only_root_filesystem : Bool
  pub allow_privilege_escalation : Bool
  pub drop : List Bytes

-- Quantities by their names.
pub record Resources : Type 0 where
  pub limits : Map Bytes
  pub requests : Map Bytes

pub record Container : Type 0 where
  pub name : Bytes
  pub image : Bytes
  pub command : List Bytes
  pub args : List Bytes
  pub env : List EnvVar
  pub volume_mounts : List VolumeMount
  pub security_context : Option SecurityContext
  pub resources : Option Resources
  pub other : Bytes

pub data Volume : Type 0 where
  empty_dir : (name : Bytes) → (medium : Bytes) → Volume
  other_volume : (name : Bytes) → (source : Bytes) → Volume

pub record Pod : Type 0 where
  pub annotations : Map Bytes
  pub volumes : List Volume
  pub init_containers : List Container
  pub containers : List Container
  pub other : Bytes
