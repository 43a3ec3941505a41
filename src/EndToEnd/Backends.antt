-- ===== src/EndToEnd/Backends.antt =====
-- libenvproxy against the server with each of the backends behind it.
use env_proxy.Prelude.{
  ℕ, ◌≤◌, ◌≡◌, refl, ap, ◌∙◌, [], Option, none, some, Result, ok, true, false, arith, length,
}
use env_proxy.Prelude.Bytes.{Bytes, codes}
use env_proxy.Prelude.Bytes.Search.{starts_with}
use env_proxy.Prelude.Map.{Map, get}
use env_proxy.Text.Utf8.{is_utf8}
use env_proxy.Io.{IoError, Stream}
use env_proxy.Proto.Wire.{max_key_len, max_value_len}
use env_proxy.Proto.VaultRef.{VaultRef, parse_vault_ref}
use env_proxy.Proto.VaultRef.Laws.{parse_vault_ref-starts_with}
use env_proxy.Agent.Backend.{Backend, Resolved}
use env_proxy.Agent.File.{Disk, present, FileCache, file_backend, resolve}
use env_proxy.Agent.File.Fresh.{IsFreshCache}
use env_proxy.Agent.File.Quiet.{resolve-present}
use env_proxy.Agent.Http.{resolve as resolve_http, HttpBackendConfig, http_backend}
use env_proxy.Agent.Vault.{Cache, Kv2, vault_backend, resolve_with_value}
use env_proxy.Agent.Vault.Sound.{ArePlain, IsHeld, IsSound}
use env_proxy.Agent.Vault.Hits.{resolve_with_value_miss}
use env_proxy.Agent.Vault.Calls.{resolve_with_value-IsSound, nothing_cached, fetch-IsHeld}
use env_proxy.Client.Getenv.{or_real, Statics, getenv, is_enabled, get_or_init, of_libc}
use env_proxy.EndToEnd.{to_server, asked, getenv-resolve}
use env_proxy.EndToEnd.Exchange.{delivered}

-- What a call of `getenv` meets: the C library, the connection to the socket, the key, the statics.
pub record World : Type 0 where
  pub real_getenv : Option Bytes → Option Bytes
  pub connect : Bytes → Result IoError Stream
  pub key : Bytes
  pub statics : Statics

-- The call is one that envproxy answers: it is enabled, the key is not its own, and key and value are
-- UTF-8 and not too long.
pub record IsAsking (w : World) : Type 0 where
  pub not_own : starts_with (codes "ENVPROXY_") w.key ≡ false
  pub enabled : get_or_init w.statics.enabled (is_enabled w.real_getenv) ≡ true
  pub key_text : is_utf8 w.key ≡ true
  pub key_fits : length w.key ≤ max_key_len
  pub value_text : (v : Bytes) → w.real_getenv (some w.key) ≡ some v → is_utf8 v ≡ true
  pub value_fits : (v : Bytes) → w.real_getenv (some w.key) ≡ some v → length v ≤ max_value_len

-- A server of the backend is behind every socket path.
abbrev pub IsServed : {S : Type 0} → World → Backend S → S → Type 0
IsServed w b s = (path : Bytes) → w.connect path ≡ ok (to_server b s)

module _ (w : World) (asking : IsAsking w) where
  pub answered :
      {S : Type 0} (b : Backend S) (s : S)
      → IsServed w b s
      → (getenv w.real_getenv w.connect (some w.key) w.statics).0
        ≡ or_real
            (delivered (asked b s w.key (w.real_getenv (some w.key))))
            (w.real_getenv (some w.key))
  answered b s served =
      getenv-resolve b s w.real_getenv w.connect w.key w.statics asking.not_own asking.enabled
        served asking.key_text asking.key_fits asking.value_text asking.value_fits

  module _ (path : Bytes) (from_str : Bytes → Result Bytes (Map Bytes)) where
    asked-file :
        (d : Disk) (c : FileCache) (real : Option Bytes)
        → asked (file_backend path from_str) (d, c) w.key real ≡ (resolve path from_str d w.key c).0
    asked-file d c none = refl
    asked-file d c (some v) = ground arith

    -- With the file backend, a fresh cache and a file that is not written meanwhile, `getenv` returns
    -- the key's entry in the file's present content, if a response can carry it and a C string hold
    -- it, and else the environment's value.
    pub getenv-file :
        (clock mtime : ℕ) (contents : Bytes) (entries : Map Bytes) (c : FileCache)
        → IsFreshCache path from_str (present mtime (ok contents)) clock c.last_modified c.entries
        → from_str contents ≡ ok entries
        → IsServed w (file_backend path from_str) (present mtime (ok contents), c)
        → (getenv w.real_getenv w.connect (some w.key) w.statics).0
          ≡ or_real (delivered (ok (get w.key entries))) (w.real_getenv (some w.key))
    getenv-file clock mtime contents entries c fresh parsed served =
        let d = present mtime (ok contents) in
        let resolved =
          resolve-present path from_str clock mtime contents w.key entries c fresh parsed in
        answered (file_backend path from_str) (d, c) served
        ∙ ap (λ r. or_real (delivered r) (w.real_getenv (some w.key)))
            (asked-file d c (w.real_getenv (some w.key))
              ∙ ap (λ (o : Resolved × FileCache). o.0) resolved)

  asked-http :
      (config : HttpBackendConfig) (real : Option Bytes)
      → delivered (asked (http_backend config) tt w.key real) ≡ none
  unfolding resolve_http
  asked-http config none = refl
  asked-http config (some v) = ground arith

  -- With the HTTP backend, which is not implemented, `getenv` returns the environment's value.
  pub getenv-http :
      (config : HttpBackendConfig)
      → IsServed w (http_backend config) tt
      → (getenv w.real_getenv w.connect (some w.key) w.statics).0
        ≡ of_libc (w.real_getenv (some w.key))
  getenv-http config served =
      answered (http_backend config) tt served
      ∙ ap (λ o. or_real o (w.real_getenv (some w.key)))
          (asked-http config (w.real_getenv (some w.key)))

  module _ (read : Kv2)
      (plain : (mount path : Bytes) (version : Option ℕ) (secret : Map Bytes)
        → read mount path version ≡ ok secret
        → ArePlain secret)
      (cache_ttl now later : ℕ) where
    vault_resolved :
        (reference v : Bytes) (r : VaultRef) (cache : Cache)
        → IsSound read cache
        → parse_vault_ref reference ≡ some r
        → IsHeld read r v
        → (resolve_with_value cache_ttl read now later reference cache).0 ≡ ok (some v)
    vault_resolved reference v r cache sound parsed held =
        (resolve_with_value-IsSound read plain cache_ttl now later reference cache sound).0
        ∙ ap (λ (o : Resolved × Cache). o.0)
            (resolve_with_value_miss cache_ttl read read now later reference r [] parsed
              (nothing_cached read plain cache_ttl now reference))
        ∙ fetch-IsHeld read plain cache_ttl later r [] v held

    asked-vault :
        (reference v : Bytes) (r : VaultRef) (cache : Cache)
        → IsSound read cache
        → parse_vault_ref reference ≡ some r
        → IsHeld read r v
        → asked (vault_backend cache_ttl read now later) cache w.key (some reference) ≡ ok (some v)
    asked-vault reference v r cache sound parsed held =
        rw (parse_vault_ref-starts_with reference r parsed)
          (vault_resolved reference v r cache sound parsed held)

    -- For a call that envproxy answers, with the Vault backend behind every socket path, a
    -- cache that is sound and a variable that holds a reference, `getenv`
    -- returns the value that Vault has under the reference, if a response can carry it and a C
    -- string hold it, and else the reference. The secrets' keys are not empty and hold no `#`.
    pub getenv-vault :
        (reference v : Bytes) (r : VaultRef) (cache : Cache)
        → IsSound read cache
        → w.real_getenv (some w.key) ≡ some reference
        → parse_vault_ref reference ≡ some r
        → IsHeld read r v
        → IsServed w (vault_backend cache_ttl read now later) cache
        → (getenv w.real_getenv w.connect (some w.key) w.statics).0
          ≡ or_real (delivered (ok (some v))) (some reference)
    getenv-vault reference v r cache sound there parsed held served =
        answered (vault_backend cache_ttl read now later) cache served
        ∙ rw (there, asked-vault reference v r cache sound parsed held) refl
