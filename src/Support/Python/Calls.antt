-- ===== src/Support/Python/Calls.antt =====
-- The calls of `_EnvProxyEnviron`, support/python/_envproxy_hook.py, and what each may change.
use env_proxy.Prelude.{
  ◌≡◌, refl, ap, ◌∙◌, List, [], ◌∷◌, Option, none, some, true, false, inl, inr, Bool-cases, subst,
}
use env_proxy.Prelude.Bytes.{Bytes, beq}
use env_proxy.Prelude.Map.{Map, get, insert, remove, get-insert, get-remove}
use env_proxy.Support.Python.Environ.{
  CacheEntry, Environ, Moment, is_cache_valid, real_answer, valid_entry, ask, getitem, setitem,
  delitem, contains,
}

-- A call of the proxy.
pub data Call : Type 0 where
  getting : Moment → Bytes → Call
  setting : Bytes → Bytes → Call
  deleting : Bytes → Call
  containing : Moment → Bytes → Call

-- What the proxy is after a call, whatever the call returns.
unfoldable pub perform : Call → Environ → Environ
perform (getting m key) self = (getitem m key self).1
perform (setting key value) self = setitem key value self
perform (deleting key) self = (delitem key self).1
perform (containing m key) self = (contains m key self).1

unfoldable pub run : List Call → Environ → Environ
run [] self = self
run (c ∷ calls) self = run calls (perform c self)

-- How a lookup came to its result: by the real environment, the cache or the agent.
pub data Looked (m : Moment) (key : Bytes) (self : Environ) : Option Bytes × Environ → Type 0 where
  real :
      {r : Option Bytes × Environ} (v : Bytes)
      → real_answer (get key self.original) ≡ some v
      → r ≡ (some v, self)
      → Looked m key self r
  cached :
      {r : Option Bytes × Environ} (entry : CacheEntry)
      → real_answer (get key self.original) ≡ none
      → get key self.cache ≡ some entry
      → is_cache_valid m.now self entry ≡ true
      → r ≡ (entry.value, self)
      → Looked m key self r
  asked :
      {r : Option Bytes × Environ}
      → real_answer (get key self.original) ≡ none
      → valid_entry m.now self (get key self.cache) ≡ none
      → r ≡ ask m key (get key self.original) self
      → Looked m key self r

-- The part of a lookup that starts with the cache.
abbrev lookup_cached : Moment → Bytes → Environ → Option CacheEntry → Option Bytes × Environ
lookup_cached m key self found = elim (valid_entry m.now self found) [
  | some entry ↦ (entry.value, self)
  | none ↦ ask m key (get key self.original) self
]

lookup_cached-Looked :
    (m : Moment) (key : Bytes) (self : Environ) (found : Option CacheEntry)
    → real_answer (get key self.original) ≡ none
    → get key self.cache ≡ found
    → Looked m key self (lookup_cached m key self found)
lookup_cached-Looked m key self none unset e = asked unset (rw e refl) refl
lookup_cached-Looked m key self (some entry) unset e =
    elim (Bool-cases (is_cache_valid m.now self entry)) [
      | inl valid ↦ cached entry unset e valid (rw (valid, lookup_cached) refl)
      | inr expired ↦
          asked unset (rw e (rw (expired, valid_entry) refl)) (rw (expired, lookup_cached) refl)
    ]

getitem-at :
    (m : Moment) (key : Bytes) (self : Environ) (answer : Option Bytes)
    → real_answer (get key self.original) ≡ answer
    → Looked m key self (getitem m key self)
unfolding getitem
getitem-at m key self (some v) e = real v e (rw (e, getitem) refl)
getitem-at m key self none e =
    subst (Looked m key self) (rw (e, getitem) refl)
      (lookup_cached-Looked m key self (get key self.cache) e refl)

pub getitem-Looked :
    (m : Moment) (key : Bytes) (self : Environ) → Looked m key self (getitem m key self)
getitem-Looked m key self = getitem-at m key self _ refl

-- What becomes of the proxy by a call.
pub data Changed (self : Environ) : Environ → Type 0 where
  unchanged : {e : Environ} → e ≡ self → Changed self e
  has_asked :
      {e : Environ} (m : Moment) (key : Bytes)
      → real_answer (get key self.original) ≡ none
      → e ≡ (ask m key (get key self.original) self).1
      → Changed self e
  stored :
      {e : Environ} (key : Bytes) (original : Map Bytes)
      → ((j : Bytes) → beq key j ≡ false → get j original ≡ get j self.original)
      → e ≡ record self { original = original; cache = remove key self.cache }
      → Changed self e

Looked-Changed :
    (m : Moment) (key : Bytes) (self : Environ) (r : Option Bytes × Environ)
    → Looked m key self r
    → Changed self r.1
Looked-Changed m key self r (real v e same) = unchanged (ap (λ x. x.1) same)
Looked-Changed m key self r (cached entry e there valid same) = unchanged (ap (λ x. x.1) same)
Looked-Changed m key self r (asked e stale same) = has_asked m key e (ap (λ x. x.1) same)

deleted-Changed :
    (key : Bytes) (self : Environ) (found : Option Bytes)
    → get key self.original ≡ found
    → Changed self (delitem key self).1
unfolding delitem
deleted-Changed key self none e = unchanged (rw (e, delitem) refl)
deleted-Changed key self (some v) e =
    stored key (remove key self.original)
      (λ j other. get-remove key j self.original ∙ rw other refl) (rw (e, delitem) refl)

contained-Changed :
    (m : Moment) (key : Bytes) (self : Environ) (found : Option Bytes)
    → get key self.original ≡ found
    → Changed self (contains m key self).1
unfolding contains
contained-Changed m key self (some v) e = unchanged (rw (e, contains) refl)
contained-Changed m key self none e =
    subst (Changed self) (rw (e, contains) refl)
      (Looked-Changed m key self _ (getitem-Looked m key self))

pub perform-Changed : (c : Call) (self : Environ) → Changed self (perform c self)
unfolding perform setitem
perform-Changed (getting m key) self = Looked-Changed m key self _ (getitem-Looked m key self)
perform-Changed (setting key value) self =
    stored key (insert key value self.original)
      (λ j other. get-insert key j value self.original ∙ rw other refl) refl
perform-Changed (deleting key) self = deleted-Changed key self _ refl
perform-Changed (containing m key) self = contained-Changed m key self _ refl
