-- ===== src/Agent/Start.antt =====
-- crates/envproxy-agent/src/main.rs: the start of the agent, up to the server, and its end.
-- The arguments' and the log filter's parsing is left out. What `main` meets outside is a parameter.
pub mod Order
use env_proxy.Prelude.{Option, Result, ok, err}
use env_proxy.Prelude.Bytes.{Bytes}
use env_proxy.Prelude.Map.{Map}
use env_proxy.Prelude.Action.{Action, pure, fail, ◌>>=◌, ◌>>◌}
use env_proxy.Io.{IoError}
use env_proxy.Io.FileSystem.{FileSystem}
use env_proxy.Agent.Backend.{BackendError}
use env_proxy.Agent.Config.{
  AgentConfig, BackendConfig, file, http, kubernetes, vault, Config, Document, ConfigError,
  from_file,
}
use env_proxy.Agent.File.{Disk, FileCache, new as new_file}
use env_proxy.Agent.Http.{HttpBackendConfig}
use env_proxy.Agent.Kubernetes.{Secret, new as new_kubernetes}
use env_proxy.Agent.Vault.Login.{VaultBackend, AuthInfo, new as new_vault}
use env_proxy.Agent.Server.Bind.{bind}

-- The file system, over its states `F`, with `inspect` for what the two system calls of the file
-- backend's `reload` find at a path; `Path::parent`; the parsers; and the clients' libraries.
pub record Outside (F Api Settings Client : Type 0) : Type 0 where
  pub fs : FileSystem F
  pub inspect : Bytes → F → Disk × Disk
  pub parent : Bytes → Option Bytes
  pub toml_from_str : Bytes → Result Bytes Document
  pub json_from_str : Bytes → Result Bytes (Map Bytes)
  pub kube_client : Result Bytes Api
  pub get_secret : Api → Bytes → Bytes → Result Bytes Secret
  pub vault_settings : Bytes → Bytes → Result Bytes Settings
  pub vault_client : Settings → Result Bytes Client
  pub vault_login : Client → Bytes → Bytes → Bytes → Result Bytes AuthInfo
  pub var : Bytes → Option Bytes

-- The errors of `main`, by their contexts.
pub data StartError : Type 0 where
  load_failed : ConfigError → StartError
  file_failed kubernetes_failed vault_failed : BackendError → StartError
  bind_failed server_failed : IoError → StartError

-- `Arc<dyn Backend>`, by the backend behind it.
pub data Started (Client : Type 0) : Type 0 where
  of_file : (path : Bytes) → FileCache → Started Client
  of_http : HttpBackendConfig → Started Client
  of_kubernetes : Map Bytes → Started Client
  of_vault : VaultBackend Client → Started Client

-- What ends the `select!`: the server's error, or the signal.
pub data Ending : Type 0 where
  run_failed : IoError → Ending
  interrupted : Ending

-- `context`, and what becomes of the value.
abbrev pub context :
    {A B E : Type 0} → (E → StartError) → (A → B) → Result E A → Result StartError B
context failed done (ok a) = ok (done a)
context failed done (err e) = err (failed e)

-- A part that changes no file.
abbrev pub looking : {F A : Type 0} → (F → Result StartError A) → Action F StartError A
looking r f = (r f, f)

module _ {F Api Settings Client : Type 0} (o : Outside F Api Settings Client) where
  unfoldable pub create_backend : BackendConfig → F → Result StartError (Started Client)
  create_backend (file path) f =
      let (before, after) = o.inspect path f in
      context file_failed (λ cache. of_file path cache) (new_file path o.json_from_str before after)
  create_backend (http http_config) f = ok (of_http http_config)
  create_backend (kubernetes k8s_config) f =
      context kubernetes_failed (λ cache. of_kubernetes cache)
        (new_kubernetes o.kube_client o.get_secret k8s_config)
  create_backend (vault vault_config) f =
      context vault_failed (λ backend. of_vault backend)
        (new_vault o.vault_settings o.vault_client o.vault_login (λ p. o.fs.read_to_string p f)
          o.var vault_config)

  unfoldable pub load : Bytes → F → Result StartError Config
  load path f = context load_failed (λ config. config) (from_file o.fs o.toml_from_str path f)

  unfoldable pub bind_socket : Bytes → Action F StartError (Unit {0})
  bind_socket socket f =
      let (r, f') = bind o.fs o.parent socket f in (context bind_failed (λ u. tt) r, f')

  -- `main` up to the server.
  unfoldable pub start : Bytes → Action F StartError (Config × Started Client)
  start path = do
    config ← looking (load path)
    backend ← looking (create_backend config.backend)
    bind_socket config.agent.socket
    pure (config, backend)

  -- After the signal the socket is removed, if that succeeds.
  unfoldable pub finish : Config → Ending → Action F StartError (Unit {0})
  finish config (run_failed e) f = (err (server_failed e), f)
  finish config interrupted f = (ok tt, (o.fs.remove_file config.agent.socket f).1)

  unfoldable pub main : Bytes → Ending → Action F StartError (Unit {0})
  main path ending = do started ← start path; finish started.0 ending
