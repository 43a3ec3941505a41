-- ===== src/Support/Java/Refines.antt =====
-- `get` of support/java/src/envproxy/EnvProxyMap.java and `__getitem__` of the Python hook.
use env_proxy.Prelude.{◌≤◌, ◌≡◌, refl, ap, ◌∙◌, [], Option, none, some, length, arith}
use env_proxy.Prelude.Bytes.{Bytes}
use env_proxy.Prelude.Map.{insert, get as find}
use env_proxy.Prelude.Maybe.{unwrap_or}
use env_proxy.Support.Python as Python
use env_proxy.Support.Python.Environ as Environ
use env_proxy.Support.Python.Environ.{Moment, getitem, real_answer, is_cache_valid}
use env_proxy.Support.Python.Calls.{Looked, real, cached, asked, getitem-Looked}
use env_proxy.Support.Java.{EnvProxyMap, valid_entry, ask, get}
use env_proxy.Support.Java.Lookups.{
  decoded, decoded_cache, java_map, found_entry, find-decoded_cache, insert-decoded_cache,
  query_agent-query_agent, shown,
}

module _ (decode : Bytes → Bytes) (m : Moment) (key : Bytes) (self : Environ.Environ) where
  abbrev looked : Option Bytes × EnvProxyMap
  looked = get decode m.connect m.now m.later key (java_map decode self)

  abbrev as_decoded : Option Bytes × Environ.Environ → Option Bytes × EnvProxyMap
  as_decoded r = (decoded decode r.0, java_map decode r.1)

  abbrev as_java : Option Bytes × Environ.Environ → Option Bytes × EnvProxyMap
  as_java r = (shown decode (real_answer (find key self.original)) r.0, java_map decode r.1)

  abbrev after_java : Option Bytes → Option Bytes × EnvProxyMap
  after_java o = (
    o,
    record (java_map decode self) {
      cache =
          insert key (record { value = o; timestamp = m.later }) (decoded_cache decode self.cache);
    },
  )

  abbrev entry_at : Option Bytes → Environ.CacheEntry
  entry_at o = record { value = o; timestamp = m.later }

  ask-ask :
      real_answer (find key self.original) ≡ none
      → length (unwrap_or [] (find key self.original)) ≤ 0xffff
      → ask decode m.connect m.later key (find key self.original) (java_map decode self)
        ≡ as_decoded (Environ.ask m key (find key self.original) self)
  unfolding ask Environ.ask
  ask-ask unset fits =
      let value = find key self.original in
      let said = query_agent-query_agent decode m.connect self.sock_path key value unset fits in
      let answer = Python.query_agent m.connect self.sock_path key value in
      (ap (λ (o : Option Bytes). after_java o) said
        ∙ ap (λ c. (decoded decode answer, record (java_map decode self) { cache = c }))
            (insert-decoded_cache decode key (entry_at answer) self.cache))

  valid_entry-found_entry :
      (o : Option Environ.CacheEntry)
      → valid_entry m.now (java_map decode self) (found_entry decode o)
        ≡ found_entry decode (Environ.valid_entry m.now self o)
  valid_entry-found_entry none = refl
  valid_entry-found_entry (some entry) = ground arith

  valid_entries :
      valid_entry m.now (java_map decode self) (find key (decoded_cache decode self.cache))
      ≡ found_entry decode (Environ.valid_entry m.now self (find key self.cache))
  valid_entries =
      ap (valid_entry m.now (java_map decode self)) (find-decoded_cache decode key self.cache)
      ∙ valid_entry-found_entry (find key self.cache)

  looked-Looked :
      (r : Option Bytes × Environ.Environ)
      → Looked m key self r
      → length (unwrap_or [] (find key self.original)) ≤ 0xffff
      → looked ≡ as_java r
  unfolding get
  looked-Looked r (real v e same) fits = rw same (rw (e, get) refl)
  looked-Looked r (cached entry e there valid same) fits =
      let found : Environ.valid_entry m.now self (find key self.cache) ≡ some entry =
        rw there (rw (valid, Environ.valid_entry) refl) in
      rw same (rw (e, valid_entries, found, get) refl)
  looked-Looked r (asked e stale same) fits =
      rw same (rw (e, valid_entries, stale, get) (ask-ask e fits))

  -- For a variable whose value, if it has one, has at most 65535 bytes, a lookup in the Java map is one
  -- in the Python proxy with the same contents: result and cache are those, with the answers decoded.
  pub get-getitem :
      length (unwrap_or [] (find key self.original)) ≤ 0xffff
      → looked ≡ as_java (getitem m key self)
  get-getitem = looked-Looked _ (getitem-Looked m key self)
