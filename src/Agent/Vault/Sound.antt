-- ===== src/Agent/Vault/Sound.antt =====
-- The cache of the Vault backend against Vault itself, while the secrets stay as they are.
use env_proxy.Prelude.{
  ℕ, ◌≡◌, ◌⊎◌, refl, sym, inl, inr, [], ◌∷◌, Option, none, some, ok, false, arith, Bool-cases,
}
use env_proxy.Prelude.Bytes.{Bytes, is_empty, beq, beq_iff}
use env_proxy.Prelude.Bytes.Search.{find}
use env_proxy.Prelude.Map.{Map, get, get-insert}
use env_proxy.Proto.VaultRef.{VaultRef, parse_vault_ref}
use env_proxy.Proto.VaultRef.Canonical.{IsCanonical, text_of, parse_vault_ref-text_of}
use env_proxy.Agent.Vault.{Cache, CacheEntry, Kv2, cache_key, store_secret}

-- The keys of a secret are not empty and hold no `#`.
abbrev pub ArePlain : Map Bytes → Type 0
ArePlain [] = Unit {0}
ArePlain ((k, v) ∷ secret) = (is_empty k ≡ false) × (find b'#' k ≡ none) × ArePlain secret

-- The reference to another key of the same secret.
abbrev with_key : VaultRef → Bytes → VaultRef
with_key r k = record r { key = k }

cache_key-key_text :
    (mount path : Bytes) (version : Option ℕ) (k : Bytes)
    → cache_key mount path version k
      ≡ text_of (record { mount = mount; path = path; key = k; version = version })
unfolding cache_key
cache_key-key_text mount path none k = refl
cache_key-key_text mount path (some n) k = refl

cache_key-text_of :
    (r : VaultRef) (k : Bytes) → cache_key r.mount r.path r.version k ≡ text_of (with_key r k)
cache_key-text_of r k = cache_key-key_text r.mount r.path r.version k

with_key-IsCanonical :
    (r : VaultRef) (k : Bytes)
    → IsCanonical r
    → is_empty k ≡ false
    → find b'#' k ≡ none
    → IsCanonical (with_key r k)
with_key-IsCanonical r k c filled clear = record {
  mount_filled = c.mount_filled;
  path_filled = c.path_filled;
  key_filled = filled;
  mount_clear = c.mount_clear;
  path_clear = c.path_clear;
  key_clear = clear;
  first_data = c.first_data;
  version_fits = c.version_fits;
}

-- What stands for `t` in the cache after a secret is stored: a key of the secret that is written `t`.
abbrev IsStored : VaultRef → Map Bytes → Bytes → CacheEntry → Type 0
IsStored r secret t entry =
    (k : Bytes) × (t ≡ cache_key r.mount r.path r.version k)
    × (get k secret ≡ some entry.value)
    × (is_empty k ≡ false)
    × (find b'#' k ≡ none)

get-store_secret :
    (r : VaultRef) (expires_at : ℕ) (secret : Map Bytes) (cache : Cache) (t : Bytes)
    (entry : CacheEntry)
    → ArePlain secret
    → get t (store_secret r expires_at secret cache) ≡ some entry
    → IsStored r secret t entry ⊎ (get t cache ≡ some entry)
unfolding store_secret get
get-store_secret r x [] cache t entry plain h = inr h
get-store_secret r x ((k, v) ∷ secret) cache t entry plain h =
    let stored = store_secret r x secret cache in
    let name = cache_key r.mount r.path r.version k in
    let looked = get-insert name t (record { value = v; expires_at = x }) stored in
    elim (Bool-cases (beq name t)) [
      | inl same ↦
          inl (k, sym ((beq_iff name t).0 same), ground (arith, beq_iff k k), plain.0, plain.1)
      | inr other ↦ elim (get-store_secret r x secret cache t entry plain.2 (ground arith)) [
        | inr kept ↦ inr kept
        | inl (j, e, there, filled, clear) ↦
            inl (j, e, ground (arith, beq_iff k j, beq_iff name t), filled, clear)
      ]
    ]

module _ (read : Kv2) where
  -- Vault has the value under the reference.
  abbrev pub IsHeld : VaultRef → Bytes → Type 0
  IsHeld r v =
      (secret : Map Bytes) × (read r.mount r.path r.version ≡ ok secret)
      × (get r.key secret ≡ some v)

  -- What is cached under the text of a reference is what Vault has for it.
  abbrev pub IsSound : Cache → Type 0
  IsSound cache =
      (t : Bytes) (entry : CacheEntry) (r : VaultRef)
      → get t cache ≡ some entry
      → parse_vault_ref t ≡ some r
      → IsHeld r entry.value

  pub empty-IsSound : IsSound []
  unfolding get
  empty-IsSound t entry r h = ground arith

  IsStored-IsHeld :
      (r s : VaultRef) (secret : Map Bytes) (t : Bytes) (entry : CacheEntry)
      → IsCanonical r
      → read r.mount r.path r.version ≡ ok secret
      → IsStored r secret t entry
      → parse_vault_ref t ≡ some s
      → IsHeld s entry.value
  IsStored-IsHeld r s secret t entry c fetched (k, e, there, filled, clear) parsed =
      let written = cache_key-text_of r k in
      let own = parse_vault_ref-text_of (with_key r k) (with_key-IsCanonical r k c filled clear) in
      let same : s ≡ with_key r k = ground arith in rw same (secret, fetched, there)

  pub store_secret-IsSound :
      (r : VaultRef) (expires_at : ℕ) (secret : Map Bytes) (cache : Cache)
      → IsCanonical r
      → read r.mount r.path r.version ≡ ok secret
      → ArePlain secret
      → IsSound cache
      → IsSound (store_secret r expires_at secret cache)
  store_secret-IsSound r x secret cache c fetched plain sound t entry s h parsed =
      elim (get-store_secret r x secret cache t entry plain h) [
        | inl stored ↦ IsStored-IsHeld r s secret t entry c fetched stored parsed
        | inr kept ↦ sound t entry s kept parsed
      ]
