-- ===== src/Agent/Config.antt =====
-- crates/envproxy-agent/src/config.rs: the configuration and its defaults.
-- `toml::from_str` is a parameter that gives what the text says: a field that has a default may be
-- missing in it, and a text without a field that has none is an error.
use env_proxy.Prelude.{ℕ, ◌++◌, Option, none, some, Result, ok, err}
use env_proxy.Prelude.Bytes.{Bytes, codes}
use env_proxy.Io.{IoError}
use env_proxy.Io.FileSystem.{FileSystem}
use env_proxy.Proto.Wire.{default_socket_path as socket_path_constant}
use env_proxy.Agent.Http.{HttpBackendConfig, default_timeout_ms}
use env_proxy.Agent.Kubernetes.{KubernetesBackendConfig}
use env_proxy.Agent.Vault.Login.{
  VaultBackendConfig, default_auth_method, default_auth_mount, default_cache_ttl,
}

pub record AgentConfig : Type 0 where
  pub socket : Bytes
  pub log_level : Bytes

abbrev pub default_socket_path : Bytes
default_socket_path = socket_path_constant

abbrev pub default_log_level : Bytes
default_log_level = codes "info"

-- `AgentConfig::default`
abbrev pub default_agent : AgentConfig
default_agent = record { socket = socket_path_constant; log_level = default_log_level }

pub data BackendConfig : Type 0 where
  file : (path : Bytes) → BackendConfig
  http : HttpBackendConfig → BackendConfig
  kubernetes : KubernetesBackendConfig → BackendConfig
  vault : VaultBackendConfig → BackendConfig

pub record Config : Type 0 where
  pub agent : AgentConfig
  pub backend : BackendConfig

-- What the text says.
pub record AgentTable : Type 0 where
  pub socket : Option Bytes
  pub log_level : Option Bytes

pub record VaultTable : Type 0 where
  pub address : Bytes
  pub auth_method : Option Bytes
  pub auth_mount : Option Bytes
  pub role : Option Bytes
  pub token : Option Bytes
  pub token_file : Option Bytes
  pub cache_ttl : Option Bytes

-- The table `[backend]`, by its `type`.
pub data BackendTable : Type 0 where
  file : (path : Bytes) → BackendTable
  http : (url : Bytes) → (auth_token : Option Bytes) → (timeout_ms : Option ℕ) → BackendTable
  kubernetes : (namespace : Bytes) → (secret_name : Bytes) → BackendTable
  vault : VaultTable → BackendTable

pub record Document : Type 0 where
  pub agent : Option AgentTable
  pub backend : BackendTable

-- `#[serde(default = …)]`
abbrev pub or_default : {A : Type 0} → A → Option A → A
or_default a none = a
or_default a (some b) = b

unfoldable pub agent_of : Option AgentTable → AgentConfig
agent_of none = default_agent
agent_of (some t) = record {
  socket = or_default default_socket_path t.socket;
  log_level = or_default default_log_level t.log_level;
}

unfoldable pub vault_of : VaultTable → VaultBackendConfig
vault_of t = record {
  address = t.address;
  auth_method = or_default default_auth_method t.auth_method;
  auth_mount = or_default default_auth_mount t.auth_mount;
  role = or_default (codes "") t.role;
  token = t.token;
  token_file = t.token_file;
  cache_ttl = or_default default_cache_ttl t.cache_ttl;
}

unfoldable pub backend_of : BackendTable → BackendConfig
backend_of (file path) = file path
backend_of (http url auth_token timeout_ms) = http (record {
  url = url;
  auth_token = auth_token;
  timeout_ms = or_default default_timeout_ms timeout_ms;
})
backend_of (kubernetes namespace secret_name) =
    kubernetes (record { namespace = namespace; secret_name = secret_name })
backend_of (vault t) = vault (vault_of t)

unfoldable pub config_of : Document → Config
config_of doc = record { agent = agent_of doc.agent; backend = backend_of doc.backend }

pub data ConfigError : Type 0 where
  io : (path : Bytes) → IoError → ConfigError
  parse : (path : Bytes) → (message : Bytes) → ConfigError

-- `to_string`, from the `#[error]` lines
unfoldable pub to_string : ConfigError → Bytes
to_string (io path e) = codes "failed to read config file " ++ (path ++ (codes ": " ++ e.message))
to_string (parse path message) =
    codes "failed to parse config file " ++ (path ++ (codes ": " ++ message))

module _ {F : Type 0} (fs : FileSystem F) (from_str : Bytes → Result Bytes Document) where
  unfoldable pub parsed : Bytes → Result Bytes Document → Result ConfigError Config
  parsed path (err e) = err (parse path e)
  parsed path (ok doc) = ok (config_of doc)

  -- `Config::from_file`
  unfoldable pub from_file : Bytes → F → Result ConfigError Config
  from_file path f = elim (fs.read_to_string path f) [
    | err e ↦ err (io path e)
    | ok contents ↦ parsed path (from_str contents)
  ]
