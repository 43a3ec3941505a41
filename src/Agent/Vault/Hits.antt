-- ===== src/Agent/Vault/Hits.antt =====
-- When the cache of the Vault backend answers.
use env_proxy.Prelude.{
  ℕ, ◌+◌, ◌<◌, ◌≡◌, refl, sym, ap, ◌∙◌, inl, inr, [], ◌∷◌, ◌++◌, Option, none, some, ok, arith,
  Result-cases, length, length-append, take, drop, drop-append_length, take-append_length,
}
use env_proxy.Prelude.Bytes.{Bytes, codes, beq_iff}
use env_proxy.Prelude.Map.{Map, get, get-insert}
use env_proxy.Text.Number.{decimal}
use env_proxy.Proto.VaultRef.{VaultRef, parse_vault_ref}
use env_proxy.Agent.Vault.{
  Cache, Kv2, cache_key, cached, store_secret, nanos, fetch, resolve_with_value,
}

append-cancel : (xs ys zs : Bytes) → xs ++ ys ≡ xs ++ zs → ys ≡ zs
append-cancel xs ys zs e =
    sym (drop-append_length xs ys) ∙ ap (drop (length xs)) e ∙ drop-append_length xs zs

append-cancel_right : (xs ys zs : Bytes) → xs ++ zs ≡ ys ++ zs → xs ≡ ys
append-cancel_right xs ys zs e =
    let total : length (xs ++ zs) ≡ length (ys ++ zs) = ap length e in
    let same : length xs ≡ length ys =
      omega (arith, length-append {0} xs zs, length-append {0} ys zs) in
    sym (take-append_length xs zs)
    ∙ ap (take (length xs)) e
    ∙ ap (λ n. take n (ys ++ zs)) same
    ∙ take-append_length ys zs

-- Two keys of a secret are cached under two texts.
cache_key-injective :
    (mount path : Bytes) (version : Option ℕ) (j k : Bytes)
    → cache_key mount path version j ≡ cache_key mount path version k
    → j ≡ k
unfolding cache_key
cache_key-injective mount path none j k e =
    let e1 = append-cancel (codes "vault:") _ _ e in
    let e2 = append-cancel mount _ _ e1 in
    let e3 = append-cancel (codes "/data/") _ _ e2 in
    let e4 = append-cancel path _ _ e3 in append-cancel (b'#' ∷ []) j k e4
cache_key-injective mount path (some n) j k e =
    let e1 = append-cancel (codes "vault:") _ _ e in
    let e2 = append-cancel mount _ _ e1 in
    let e3 = append-cancel (codes "/data/") _ _ e2 in
    let e4 = append-cancel path _ _ e3 in
    let e5 = append-cancel (b'#' ∷ []) (j ++ b'#' ∷ decimal n) (k ++ b'#' ∷ decimal n) e4 in
    append-cancel_right j k (b'#' ∷ decimal n) e5

-- Every value of a secret that is stored is in the cache under its own text.
get-store_secret-some :
    (r : VaultRef) (expires_at : ℕ) (secret : Map Bytes) (cache : Cache) (k v : Bytes)
    → get k secret ≡ some v
    → get (cache_key r.mount r.path r.version k) (store_secret r expires_at secret cache)
      ≡ some (record { value = v; expires_at = expires_at })
unfolding store_secret get
get-store_secret-some r x [] cache k v h = ground arith
get-store_secret-some r x ((j, w) ∷ secret) cache k v h =
    let name = cache_key r.mount r.path r.version in
    ground (
      arith,
      get-insert (name j) (name k) (record { value = w; expires_at = x })
          (store_secret r x secret cache),
      get-store_secret-some r x secret cache k v,
      beq_iff j k,
      beq_iff (name j) (name k),
      cache_key-injective r.mount r.path r.version j k,
    )

module _ (cache_ttl : ℕ) (read again : Kv2) where
  pub resolve_with_value_miss :
      (now later : ℕ) (t : Bytes) (r : VaultRef) (cache : Cache)
      → parse_vault_ref t ≡ some r
      → cached now t cache ≡ none
      → resolve_with_value cache_ttl read now later t cache ≡ fetch cache_ttl read later r cache
  unfolding resolve_with_value
  resolve_with_value_miss now later t r cache parsed miss =
      rw (parsed, resolve_with_value, miss) refl

  resolve_with_value-fetch :
      (later now' later' : ℕ) (t v : Bytes) (r : VaultRef) (cache : Cache)
      → parse_vault_ref t ≡ some r
      → t ≡ cache_key r.mount r.path r.version r.key
      → (fetch cache_ttl read later r cache).0 ≡ ok (some v)
      → now' < later + nanos cache_ttl
      → resolve_with_value cache_ttl again now' later' t (fetch cache_ttl read later r cache).1
        ≡ (ok (some v), (fetch cache_ttl read later r cache).1)
  unfolding resolve_with_value fetch cached
  resolve_with_value-fetch later now' later' t v r cache parsed own fetched lt =
      elim (Result-cases (read r.mount r.path r.version)) [
        | inr (x, e) ↦ absurd (ground arith)
        | inl (secret, e) ↦
            let x = later + nanos cache_ttl in
            let held : get r.key secret ≡ some v = ground arith in
            ground (arith, get-store_secret-some r x secret cache r.key v held)
      ]

  -- A value that a call without a cached value has returned for a reference in the form in which it
  -- is cached is returned to every call before it expires, whatever Vault would answer by then, and
  -- the cache stays as it is.
  pub resolve_with_value_again :
      (now later now' later' : ℕ) (t v : Bytes) (r : VaultRef) (cache : Cache)
      → parse_vault_ref t ≡ some r
      → t ≡ cache_key r.mount r.path r.version r.key
      → cached now t cache ≡ none
      → (resolve_with_value cache_ttl read now later t cache).0 ≡ ok (some v)
      → now' < later + nanos cache_ttl
      → resolve_with_value cache_ttl again now' later' t
          (resolve_with_value cache_ttl read now later t cache).1
        ≡ (ok (some v), (resolve_with_value cache_ttl read now later t cache).1)
  resolve_with_value_again now later now' later' t v r cache parsed own miss first lt =
      let fetching = resolve_with_value_miss now later t r cache parsed miss in
      rw fetching (
        resolve_with_value-fetch later now' later' t v r cache parsed own (rw (sym fetching) first)
          lt)
