-- ===== src/Agent/File/Quiet.antt =====
-- `resolve` where nothing else runs meanwhile, and what goes wrong where a write falls between the
-- two system calls of `reload`.
use env_proxy.Prelude.{
  ℕ, ◌≡◌, ◌≢◌, ◌⊎◌, subst, refl, ap, Option, none, some, Result, ok, err, arith, inl, inr,
}
use native.Mathlib.Decide.{ℕ_discrete}
use env_proxy.Prelude.Bytes.{Bytes}
use env_proxy.Prelude.Map.{Map, get}
use env_proxy.Io.{IoError}
use env_proxy.Agent.File.{present, FileCache, resolve, new, parse_error}
use env_proxy.Agent.File.Fresh.{IsFreshCache}

same_time : (o : Option ℕ) (t : ℕ) → (o ≡ some t) ⊎ (o ≢ some t)
same_time none t = inr (λ e. cc)
same_time (some u) t = elim (ℕ_discrete u t) [
  | yes e ↦ inl (ap some e)
  | no n ↦ inr (λ e. n (ground arith))
]

module _ (path : Bytes) (from_str : Bytes → Result Bytes (Map Bytes)) where
  resolve_kept :
      (mtime : ℕ) (r : Result IoError Bytes) (key : Bytes) (c : FileCache)
      → c.last_modified ≡ some mtime
      → resolve path from_str (present mtime r) key c ≡ (ok (get key c.entries), c)
  unfolding resolve
  resolve_kept mtime r key c e = ground arith

  resolve_loaded :
      (mtime : ℕ) (contents key : Bytes) (entries : Map Bytes) (c : FileCache)
      → c.last_modified ≢ some mtime
      → from_str contents ≡ ok entries
      → resolve path from_str (present mtime (ok contents)) key c
        ≡ (ok (get key entries), record { entries = entries; last_modified = some mtime })
  unfolding resolve
  resolve_loaded mtime contents key entries c n p = ground arith

  -- On a file that is not written meanwhile, `resolve` returns the key's entry in the file's present
  -- content, and leaves that content in the cache under the file's time; from any fresh cache.
  pub resolve-present :
      (clock mtime : ℕ) (contents key : Bytes) (entries : Map Bytes) (c : FileCache)
      → IsFreshCache path from_str (present mtime (ok contents)) clock c.last_modified c.entries
      → from_str contents ≡ ok entries
      → resolve path from_str (present mtime (ok contents)) key c
        ≡ (ok (get key entries), record { entries = entries; last_modified = some mtime })
  resolve-present clock mtime contents key entries c h p = elim (same_time c.last_modified mtime) [
    | inl e ↦
        let d = present mtime (ok contents) in
        let (bound, kept) = subst (λ o. IsFreshCache path from_str d clock o c.entries) e h in
        let (read, there, parsed) = kept refl in
        ground (arith, resolve_kept mtime (ok contents) key c e)
    | inr n ↦ resolve_loaded mtime contents key entries c n p
  ]

  -- A file that has become invalid gives the parse error at every call, and the cache stays as it is.
  pub resolve-invalid :
      (mtime : ℕ) (contents key : Bytes) (e : Bytes) (c : FileCache)
      → c.last_modified ≢ some mtime
      → from_str contents ≡ err e
      → resolve path from_str (present mtime (ok contents)) key c
        ≡ (err (parse_error path from_str e), c)
  unfolding resolve
  resolve-invalid mtime contents key e c h p = ground arith

  -- If the file is written between the two calls of `reload`, the cache holds the old entries under
  -- the new time, and every later call of `resolve` serves them, whatever the file holds.
  pub reload_race :
      (t1 t2 : ℕ) (old new_text : Bytes) (key : Bytes) (entries : Map Bytes) (c : FileCache)
      → from_str old ≡ ok entries
      → new path from_str (present t1 (ok old)) (present t2 (ok new_text)) ≡ ok c
      → resolve path from_str (present t2 (ok new_text)) key c ≡ (ok (get key entries), c)
  unfolding new
  reload_race t1 t2 old new_text key entries c p h =
      ground (arith, resolve_kept t2 (ok new_text) key c)
