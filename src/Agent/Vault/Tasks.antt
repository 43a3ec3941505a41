-- ===== src/Agent/Vault/Tasks.antt =====
-- Calls of `resolve_with_value` that run at the same time, over one cache. A call is a task that goes
-- on from one await point to the next: the read lock on the cache, the request to Vault, the write lock.
pub mod Shared
use env_proxy.Prelude.{
  ℕ, zero, suc, ◌+◌, ◌≡◌, refl, sym, ap, ◌∙◌, subst, inl, inr, List, [], ◌∷◌, ◌++◌, Option, none,
  some, Result, ok, err, arith, Option-cases, Result-cases,
}
use mathlib.Core.Logic.{ite, if_pos, if_neg}
use native.Mathlib.Decide.{ℕ_discrete}
use env_proxy.Prelude.Bytes.{Bytes, codes}
use env_proxy.Prelude.Map.{Map, get}
use env_proxy.Proto.VaultRef.{VaultRef, parse_vault_ref}
use env_proxy.Proto.VaultRef.Canonical.{IsCanonical, parse_vault_ref-IsCanonical}
use env_proxy.Agent.Backend.{BackendError, http, parse, Resolved}
use env_proxy.Agent.Vault.{
  Cache, CacheEntry, Kv2, cached, nanos, store_secret, fetch, resolve_with_value,
}
use env_proxy.Agent.Vault.Sound.{ArePlain, IsHeld, IsSound, store_secret-IsSound}
use env_proxy.Agent.Vault.Calls.{nothing_cached, cached_value, fetch-IsHeld}
use env_proxy.Agent.Vault.Hits.{resolve_with_value_miss}

-- Where a call stands.
pub data Task : Type 0 where
  start : (reference : Bytes) → Task
  missed : (reference : Bytes) → VaultRef → Task
  fetched : (reference : Bytes) → VaultRef → Result Bytes (Map Bytes) → Task
  done : (reference : Bytes) → Resolved → Task

-- After the look into the cache at `now`.
unfoldable pub look : ℕ → Bytes → VaultRef → Cache → Task
look now reference r cache = elim (cached now reference cache) [
  | some value ↦ done reference (ok (some value))
  | none ↦ missed reference r
]

-- The first step: the reference is parsed, and looked up in the cache.
unfoldable pub begin : ℕ → Bytes → Cache → Task
begin now reference cache = elim (parse_vault_ref reference) [
  | none ↦ done reference (err (parse (codes "invalid vault reference: " ++ reference)))
  | some r ↦ look now reference r cache
]

module _ (cache_ttl : ℕ) (read : Kv2) where
  -- One step of a call at `now`.
  unfoldable pub advance : ℕ → Task → Cache → Task × Cache
  advance now (start reference) cache = (begin now reference cache, cache)
  advance now (missed reference r) cache =
      (fetched reference r (read r.mount r.path r.version), cache)
  advance now (fetched reference r (err e)) cache =
      (done reference (err (http (codes "vault read: " ++ e))), cache)
  advance now (fetched reference r (ok secret)) cache =
      (done reference (ok (get r.key secret)), store_secret r (now + nanos cache_ttl) secret cache)
  advance now (done reference r) cache = (done reference r, cache)

  pub advances : ℕ → ℕ → ℕ → Task → Cache → Task × Cache
  advances zero now later t cache = (t, cache)
  advances (suc n) now later t cache =
      let (t', cache') = advance now t cache in advances n later later t' cache'

  -- A call that nothing interrupts takes three steps, and is `resolve_with_value`.
  pub advances-resolve_with_value :
      (now later : ℕ) (reference : Bytes) (cache : Cache)
      → advances 3 now later (start reference) cache ≡ (
        done reference (resolve_with_value cache_ttl read now later reference cache).0,
        (resolve_with_value cache_ttl read now later reference cache).1,
      )
  unfolding advances advance begin look resolve_with_value fetch
  advances-resolve_with_value now later reference cache = ground arith
