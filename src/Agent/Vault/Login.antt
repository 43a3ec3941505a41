-- ===== src/Agent/Vault/Login.antt =====
-- crates/envproxy-agent/src/backend/vault.rs: `new`, `authenticate` and `auth_kubernetes`, and the
-- interval of `token_renewal_loop`.
-- The client library, the file system and `std::env::var` are parameters. Intervals are in seconds.
use env_proxy.Prelude.{
  ℕ, ◌*◌, ◌/◌, ◌%◌, ◌^◌, ◌≤◌, ◌<◌, ◌++◌, [], Option, none, some, Result, ok, err, ltb,
  if◌then◌else◌, arith,
}
use env_proxy.Prelude.Bytes.{Bytes, codes, beq}
use env_proxy.Text.Number.{u64_limit}
use env_proxy.Text.Trim.{trim}
use env_proxy.Io.{IoError}
use env_proxy.Agent.Backend.{BackendError, unavailable, io, parse}
use env_proxy.Agent.Vault.{Cache}
use env_proxy.Agent.Vault.Duration.{parse_duration}

-- Without `_ca_cert` and `_skip_verify`, which nothing reads.
pub record VaultBackendConfig : Type 0 where
  pub address : Bytes
  pub auth_method : Bytes
  pub auth_mount : Bytes
  pub role : Bytes
  pub token : Option Bytes
  pub token_file : Option Bytes
  pub cache_ttl : Bytes

abbrev pub default_auth_method : Bytes
default_auth_method = codes "kubernetes"

abbrev pub default_auth_mount : Bytes
default_auth_mount = codes "kubernetes"

abbrev pub default_cache_ttl : Bytes
default_cache_ttl = codes "5m"

-- What a login gives.
pub record AuthInfo : Type 0 where
  pub client_token : Bytes
  pub lease_duration : ℕ

-- The backend; `renewing` is the lease of the renewal task, if one runs.
pub record VaultBackend (Client : Type 0) : Type 0 where
  pub client : Client
  pub cache : Cache
  pub cache_ttl : ℕ
  pub renewing : Option ℕ

-- `lease_duration * 2 / 3`, a product of `u64`s that wraps around in a release build, and at least 10
unfoldable pub renew_interval : ℕ → ℕ
renew_interval lease_duration =
    let interval = ((lease_duration * 2) % u64_limit) / 3 in
    if ltb interval 10 then 10 else interval

abbrev jwt_path : Bytes
jwt_path = codes "/var/run/secrets/kubernetes.io/serviceaccount/token"

abbrev no_token : BackendError
no_token = unavailable (codes "token auth requires token, token_file, or VAULT_TOKEN env var")

abbrev or_else : {A B : Type 0} → Result A B → (A → BackendError) → Result BackendError B
or_else (ok b) f = ok b
or_else (err e) f = err (f e)

module _ {Settings Client : Type 0} (build : Bytes → Bytes → Result Bytes Settings)
    (client_of : Settings → Result Bytes Client)
    (login : Client → Bytes → Bytes → Bytes → Result Bytes AuthInfo)
    (read_to_string : Bytes → Result IoError Bytes) (var : Bytes → Option Bytes) where
  -- The token of the method "token": from the configuration, a file, or the environment.
  unfoldable pub configured_token : VaultBackendConfig → Result BackendError Bytes
  configured_token config = elim config.token [
    | some token ↦ ok token
    | none ↦ elim config.token_file [
      | some token_file ↦ elim (read_to_string token_file) [
        | ok s ↦ ok (trim s)
        | err e ↦ err (io e)
      ]
      | none ↦ elim (var (codes "VAULT_TOKEN")) [ some token ↦ ok token | none ↦ err no_token ]
    ]
  ]

  unfoldable pub initial_token : VaultBackendConfig → Result BackendError Bytes
  initial_token config =
      if beq config.auth_method (codes "token") then configured_token config else ok []

  -- The settings and the client for an address and a token.
  unfoldable pub new_client : Bytes → Bytes → Result BackendError Client
  new_client address token = elim (build address token) [
    | err e ↦ err (unavailable (codes "vault client settings: " ++ e))
    | ok settings ↦ or_else (client_of settings) (λ e. unavailable (codes "vault client: " ++ e))
  ]

  -- The login with the service account's token.
  unfoldable pub kubernetes_login : VaultBackendConfig → Client → Result BackendError AuthInfo
  kubernetes_login config client = elim (read_to_string jwt_path) [
    | err e ↦ err (unavailable (codes "failed to read SA token: " ++ e.message))
    | ok jwt ↦
        or_else (login client config.auth_mount config.role jwt)
          (λ e. unavailable (codes "vault kubernetes auth: " ++ e))
  ]

  unfoldable pub auth_kubernetes :
      VaultBackendConfig → VaultBackend Client → Result BackendError (VaultBackend Client)
  auth_kubernetes config backend = elim (kubernetes_login config backend.client) [
    | err e ↦ err e
    | ok auth_info ↦ elim (new_client config.address auth_info.client_token) [
      | err e ↦ err e
      | ok client ↦
          ok (record backend { client = client; renewing = some auth_info.lease_duration })
    ]
  ]

  unfoldable pub authenticate :
      VaultBackendConfig → VaultBackend Client → Result BackendError (VaultBackend Client)
  authenticate config backend =
      if beq config.auth_method (codes "kubernetes")
      then auth_kubernetes config backend
      else if beq config.auth_method (codes "token")
      then ok backend
      else err (unavailable (codes "unsupported auth method: " ++ config.auth_method))

  -- The backend with the client of the initial token, authenticated if the method is another.
  unfoldable pub with_client :
      VaultBackendConfig → ℕ → Bytes → Result BackendError (VaultBackend Client)
  with_client config ttl token = elim (new_client config.address token) [
    | err e ↦ err e
    | ok client ↦
        let backend : VaultBackend Client = record {
          client = client;
          cache = [];
          cache_ttl = ttl;
          renewing = none;
        } in
        if beq config.auth_method (codes "token") then ok backend else authenticate config backend
  ]

  unfoldable pub new : VaultBackendConfig → Result BackendError (VaultBackend Client)
  new config = elim (parse_duration config.cache_ttl) [
    | none ↦ err (parse (codes "invalid cache_ttl: " ++ config.cache_ttl))
    | some ttl ↦ elim (initial_token config) [
      | err e ↦ err e
      | ok token ↦ with_client config ttl token
    ]
  ]

-- For a lease of more than ten seconds and less than 2 ^ 63, the time between two renewals is at least
-- ten seconds and less than the lease.
pub renew_interval-bounds :
    (lease_duration : ℕ)
    → 10 < lease_duration
    → lease_duration < 2 ^ 63
    → (10 ≤ renew_interval lease_duration) × (renew_interval lease_duration < lease_duration)
unfolding renew_interval
renew_interval-bounds lease_duration h k = (ground arith, ground arith)
