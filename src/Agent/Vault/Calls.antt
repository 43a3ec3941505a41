-- ===== src/Agent/Vault/Calls.antt =====
-- Sequences of calls of `resolve_with_value`: the cache changes no answer.
use env_proxy.Prelude.{
  ℕ, ◌+◌, ◌≡◌, refl, sym, ap, ◌∙◌, inl, inr, List, [], ◌∷◌, Option, none, some, ok, arith,
  Option-cases, Result-cases,
}
use env_proxy.Prelude.Bytes.{Bytes}
use env_proxy.Prelude.Map.{Map, get}
use env_proxy.Proto.VaultRef.{VaultRef, parse_vault_ref}
use env_proxy.Proto.VaultRef.Canonical.{IsCanonical, parse_vault_ref-IsCanonical}
use env_proxy.Agent.Backend.{Resolved}
use env_proxy.Agent.Vault.{Cache, CacheEntry, Kv2, cached, nanos, fetch, resolve_with_value}
use env_proxy.Agent.Vault.Sound.{ArePlain, IsHeld, IsSound, store_secret-IsSound, empty-IsSound}

-- A call: its reference, when it comes, and when it stores what it has fetched.
pub record Call : Type 0 where
  pub reference : Bytes
  pub now : ℕ
  pub later : ℕ

module _ (read : Kv2) (cache_ttl : ℕ) where
  -- The answers of a sequence of calls, and those without a cache.
  pub answers : List Call → Cache → List Resolved
  answers [] cache = []
  answers (c ∷ calls) cache =
      let (r, cache') = resolve_with_value cache_ttl read c.now c.later c.reference cache in
      r ∷ answers calls cache'

  pub uncached : List Call → List Resolved
  uncached [] = []
  uncached (c ∷ calls) =
      (resolve_with_value cache_ttl read c.now c.later c.reference []).0 ∷ uncached calls

module _ (read : Kv2)
    (plain : (mount path : Bytes) (version : Option ℕ) (secret : Map Bytes)
      → read mount path version ≡ ok secret
      → ArePlain secret)
    (cache_ttl : ℕ) where
  pub fetch-IsSound :
      (later : ℕ) (r : VaultRef) (cache : Cache)
      → IsCanonical r
      → IsSound read cache
      → IsSound read (fetch cache_ttl read later r cache).1
  unfolding fetch
  fetch-IsSound later r cache c sound = elim (Result-cases (read r.mount r.path r.version)) [
    | inl (secret, e) ↦
        rw (e, fetch)
          (store_secret-IsSound read r (later + nanos cache_ttl) secret cache c e
            (plain r.mount r.path r.version secret e) sound)
    | inr (x, e) ↦ rw (e, fetch) sound
  ]

  pub fetch_any :
      (later : ℕ) (r : VaultRef) (c d : Cache)
      → (fetch cache_ttl read later r c).0 ≡ (fetch cache_ttl read later r d).0
  unfolding fetch
  fetch_any later r c d = elim (Result-cases (read r.mount r.path r.version)) [
    | inl (secret, e) ↦ rw (e, fetch) refl
    | inr (x, e) ↦ rw (e, fetch) refl
  ]

  pub nothing_cached : (now : ℕ) (t : Bytes) → cached now t [] ≡ none
  unfolding cached get
  nothing_cached now t = refl

  pub cached_value :
      (now : ℕ) (t : Bytes) (cache : Cache) (v : Bytes)
      → cached now t cache ≡ some v
      → (entry : CacheEntry) × (get t cache ≡ some entry) × (entry.value ≡ v)
  unfolding cached
  cached_value now t cache v h = elim (Option-cases (get t cache)) [
    | inl e ↦ absurd (ground arith)
    | inr (entry, e) ↦ (entry, e, ground arith)
  ]

  pub fetch-IsHeld :
      (later : ℕ) (r : VaultRef) (c : Cache) (v : Bytes)
      → IsHeld read r v
      → (fetch cache_ttl read later r c).0 ≡ ok (some v)
  unfolding fetch
  fetch-IsHeld later r c v (secret, fetched, there) = rw (fetched, fetch) (ap ok there)

  -- One call: the answer is that of a call with an empty cache, and the cache stays sound.
  pub resolve_with_value-IsSound :
      (now later : ℕ) (t : Bytes) (cache : Cache)
      → IsSound read cache
      → ((resolve_with_value cache_ttl read now later t cache).0
          ≡ (resolve_with_value cache_ttl read now later t []).0)
        × IsSound read (resolve_with_value cache_ttl read now later t cache).1
  unfolding resolve_with_value
  resolve_with_value-IsSound now later t cache sound = elim (Option-cases (parse_vault_ref t)) [
    | inl e ↦ rw (e, resolve_with_value) (refl, sound)
    | inr (r, e) ↦ elim (Option-cases (cached now t cache)) [
      | inl miss ↦
          rw (e, resolve_with_value, miss, nothing_cached now t)
            (
              fetch_any later r cache [],
              fetch-IsSound later r cache (parse_vault_ref-IsCanonical t r e) sound,
            )
      | inr (v, hit) ↦
          let (entry, there, same) = cached_value now t cache v hit in
          let held = sound t entry r there e in
          rw (e, resolve_with_value, hit, nothing_cached now t)
            (
              ap (λ u. ok (some u)) (sym same) ∙ sym (fetch-IsHeld later r [] entry.value held),
              sound,
            )
    ]
  ]

  answers-uncached_from :
      (calls : List Call) (cache : Cache)
      → IsSound read cache
      → answers read cache_ttl calls cache ≡ uncached read cache_ttl calls
  unfolding answers uncached
  answers-uncached_from [] cache sound = refl
  answers-uncached_from (c ∷ calls) cache sound =
      let (same, kept) = resolve_with_value-IsSound c.now c.later c.reference cache sound in
      rw (same, answers-uncached_from calls _ kept) refl

  -- While Vault's secrets stay as they are and their keys are not empty and hold no `#`, the cache
  -- changes no answer: a sequence of calls from the empty cache on gets what each call would get
  -- with no cache, whatever the times.
  pub answers-uncached :
      (calls : List Call) → answers read cache_ttl calls [] ≡ uncached read cache_ttl calls
  answers-uncached calls = answers-uncached_from calls [] (empty-IsSound read)
