-- ===== src/Agent/Vault.antt =====
-- crates/envproxy-agent/src/backend/vault.rs: `vault:` references resolved and cached.
-- Instants are in nanoseconds, durations in seconds. The `vaultrs` client is a parameter.
pub mod Duration
pub mod Sound
pub mod Calls
pub mod Hits
pub mod Login
pub mod Renewal
pub mod Tasks
use env_proxy.Prelude.{
  ℕ, zero, suc, ◌+◌, ◌*◌, ◌^◌, [], ◌∷◌, ◌++◌, Option, none, some, Result, ok, err, Bool, true,
  false, ltb, if◌then◌else◌,
}
use env_proxy.Prelude.Bytes.{Bytes, codes}
use env_proxy.Prelude.Map.{Map, get, insert}
use env_proxy.Text.Number.{decimal}
use env_proxy.Proto.VaultRef.{VaultRef, parse_vault_ref}
use env_proxy.Agent.Backend.{Backend, BackendError, http, parse, Resolved}

-- `CacheEntry`
pub record CacheEntry : Type 0 where
  pub value : Bytes
  pub expires_at : ℕ

abbrev pub Cache : Type 0
Cache = Map CacheEntry

-- What `kv2::read` and `kv2::read_version` answer for a mount, a path and a version, at the time of
-- a call: the secret's data or an error text.
abbrev pub Kv2 : Type 0
Kv2 = Bytes → Bytes → Option ℕ → Result Bytes (Map Bytes)

-- The text under which a key of a secret is cached.
unfoldable pub cache_key : Bytes → Bytes → Option ℕ → Bytes → Bytes
cache_key mount path none k = codes "vault:" ++ (mount ++ (codes "/data/" ++ (path ++ (b'#' ∷ k))))
cache_key mount path (some version) k =
    codes "vault:"
    ++ (mount ++ (codes "/data/" ++ (path ++ (b'#' ∷ (k ++ b'#' ∷ decimal version)))))

-- The cached value, if it has not expired at `now`.
unfoldable pub cached : ℕ → Bytes → Cache → Option Bytes
cached now vault_value cache = elim (get vault_value cache) [
  | none ↦ none
  | some entry ↦ if ltb now entry.expires_at then some entry.value else none
]

-- All keys of a secret are cached.
unfoldable pub store_secret : VaultRef → ℕ → Map Bytes → Cache → Cache
store_secret r expires_at [] cache = cache
store_secret r expires_at ((k, v) ∷ secret) cache =
    insert (cache_key r.mount r.path r.version k) (record { value = v; expires_at = expires_at })
      (store_secret r expires_at secret cache)

abbrev pub nanos : ℕ → ℕ
nanos secs = secs * 10 ^ 9

-- The fetch, at whose end it is `now`.
unfoldable pub fetch : ℕ → Kv2 → ℕ → VaultRef → Cache → Resolved × Cache
fetch cache_ttl read now r cache = elim (read r.mount r.path r.version) [
  | err e ↦ (err (http (codes "vault read: " ++ e)), cache)
  | ok secret ↦ (ok (get r.key secret), store_secret r (now + nanos cache_ttl) secret cache)
]

-- `resolve_with_value`, called at `now` and, if it has to fetch, storing at `later`.
unfoldable pub resolve_with_value : ℕ → Kv2 → ℕ → ℕ → Bytes → Cache → Resolved × Cache
resolve_with_value cache_ttl read now later vault_value cache = elim (parse_vault_ref vault_value) [
  | none ↦ (err (parse (codes "invalid vault reference: " ++ vault_value)), cache)
  | some r ↦ elim (cached now vault_value cache) [
    | some value ↦ (ok (some value), cache)
    | none ↦ fetch cache_ttl read later r cache
  ]
]

-- `resolve`, for a key with no reference.
unfoldable pub resolve : Bytes → Cache → Resolved × Cache
resolve key cache = (ok none, cache)

-- The backend, for a call at `now` that stores at `later`.
abbrev pub vault_backend : ℕ → Kv2 → ℕ → ℕ → Backend Cache
vault_backend cache_ttl read now later = record {
  resolve = resolve;
  resolve_with_value = λ key value c. resolve_with_value cache_ttl read now later value c;
}
