-- ===== src/Support/Python/Coherence.antt =====
-- The cache and the queries of `_EnvProxyEnviron`, support/python/_envproxy_hook.py.
use mathlib.Core.List.{Memᴰ}
use env_proxy.Prelude.{
  ℕ, ◌+◌, ◌<◌, ◌≡◌, refl, sym, ap, ◌∙◌, List, [], ◌∷◌, Option, none, some, false, ◌⊎◌, inl, inr,
  arith, Bool-cases, ltb→lt, subst, true,
}
use env_proxy.Prelude.Bytes.{Bytes, codes, beq, beq→eq}
use env_proxy.Prelude.Bytes.Search.{starts_with}
use env_proxy.Prelude.Map.{Map, get, remove, get-insert, get-remove}
use env_proxy.Support.Python.{query_agent}
use env_proxy.Support.Python.Environ.{
  CacheEntry, Query, Environ, Moment, real_answer, ask, getitem, init,
}
use env_proxy.Support.Python.Calls.{
  Call, perform, run, Looked, real, cached, asked, Changed, unchanged, has_asked, stored,
  getitem-Looked, perform-Changed,
}

-- What a lookup puts into the cache for `key`.
abbrev entry_of : Bytes → Moment → Bytes → Option Bytes → CacheEntry
entry_of sock_path m key value = record {
  value = query_agent m.connect sock_path key value;
  timestamp = m.later;
}

-- The entry of the cache for `key` came from a query with the value that the variable has now.
abbrev RecordedFor : Environ → Bytes → CacheEntry → Option Bytes → Type 0
RecordedFor self key entry value =
    (m : Moment) × Memᴰ (record { key = key; current_value = value; at = m }) self.queries
    × (entry ≡ entry_of self.sock_path m key value)

abbrev pub Recorded : Environ → Bytes → CacheEntry → Type 0
Recorded self key entry = RecordedFor self key entry (get key self.original)

abbrev pub IsCoherent : Environ → Type 0
IsCoherent self =
    (key : Bytes) (entry : CacheEntry) → get key self.cache ≡ some entry → Recorded self key entry

abbrev ask_entry : Moment → Bytes → Environ → CacheEntry
ask_entry m key self = entry_of self.sock_path m key (get key self.original)

ask-IsCoherent :
    (m : Moment) (key : Bytes) (self : Environ)
    → IsCoherent self
    → IsCoherent (ask m key (get key self.original) self).1
unfolding ask
ask-IsCoherent m key self coherent j entry h = elim (Bool-cases (beq key j)) [
  | inl same ↦
      let is_key = beq→eq key j same in
      let now = rw same at (get-insert key j (ask_entry m key self) self.cache) in
      (m, Memᴰ.head cc, cc)
  | inr other ↦
      let before = rw other at (get-insert key j (ask_entry m key self) self.cache) in
      let (at, there, answered) = coherent j entry (sym before ∙ h) in
      (at, Memᴰ.tail there, answered)
]

stored-IsCoherent :
    (key : Bytes) (original : Map Bytes) (self : Environ)
    → ((j : Bytes) → beq key j ≡ false → get j original ≡ get j self.original)
    → IsCoherent self
    → IsCoherent (record self { original = original; cache = remove key self.cache })
stored-IsCoherent key original self agree coherent j entry h = elim (Bool-cases (beq key j)) [
  | inl same ↦ absurd (ground (arith, get-remove key j self.cache))
  | inr other ↦
      let before = rw other at (get-remove key j self.cache) in
      subst (RecordedFor self j entry) (sym (agree j other)) (coherent j entry (sym before ∙ h))
]

Changed-IsCoherent : (self e : Environ) → Changed self e → IsCoherent self → IsCoherent e
Changed-IsCoherent self e (unchanged same) coherent = subst IsCoherent (sym same) coherent
Changed-IsCoherent self e (has_asked m key unset same) coherent =
    subst IsCoherent (sym same) (ask-IsCoherent m key self coherent)
Changed-IsCoherent self e (stored key original agree same) coherent =
    subst IsCoherent (sym same) (stored-IsCoherent key original self agree coherent)

-- No query carries a value but a reference.
abbrev pub IsQuiet : Environ → Type 0
IsQuiet self = (q : Query) → Memᴰ q self.queries → real_answer q.current_value ≡ none

ask-IsQuiet :
    (m : Moment) (key : Bytes) (self : Environ)
    → real_answer (get key self.original) ≡ none
    → IsQuiet self
    → IsQuiet (ask m key (get key self.original) self).1
unfolding ask
ask-IsQuiet m key self unset quiet q (Memᴰ.head e) =
    ap (λ (x : Query). real_answer x.current_value) e ∙ unset
ask-IsQuiet m key self unset quiet q (Memᴰ.tail there) = quiet q there

Changed-IsQuiet : (self e : Environ) → Changed self e → IsQuiet self → IsQuiet e
Changed-IsQuiet self e (unchanged same) quiet = subst IsQuiet (sym same) quiet
Changed-IsQuiet self e (has_asked m key unset same) quiet =
    subst IsQuiet (sym same) (ask-IsQuiet m key self unset quiet)
Changed-IsQuiet self e (stored key original agree same) quiet = subst IsQuiet (sym same) quiet

pub run-IsCoherent :
    (calls : List Call) (self : Environ) → IsCoherent self → IsCoherent (run calls self)
unfolding run
run-IsCoherent [] self coherent = coherent
run-IsCoherent (c ∷ calls) self coherent =
    run-IsCoherent calls (perform c self)
      (Changed-IsCoherent self _ (perform-Changed c self) coherent)

pub run-IsQuiet : (calls : List Call) (self : Environ) → IsQuiet self → IsQuiet (run calls self)
unfolding run
run-IsQuiet [] self quiet = quiet
run-IsQuiet (c ∷ calls) self quiet =
    run-IsQuiet calls (perform c self) (Changed-IsQuiet self _ (perform-Changed c self) quiet)

-- A lookup was answered by the real environment, or by the agent, for the value that the variable has
-- now and not long ago.
abbrev pub IsFresh : Moment → Environ → Query → Type 0
IsFresh m self q = (m.now < q.at.later + self.cache_ttl) ⊎ (q.at ≡ m)

abbrev pub IsExplained : Moment → Bytes → Environ → Option Bytes × Environ → Type 0
IsExplained m key self r =
    ((v : Bytes) × (real_answer (get key self.original) ≡ some v) × (r.0 ≡ some v))
    ⊎ ((q : Query) × Memᴰ q r.1.queries
        × (q.key ≡ key)
        × (q.current_value ≡ get key self.original)
        × (r.0 ≡ query_agent q.at.connect self.sock_path q.key q.current_value)
        × IsFresh m self q)

Looked-IsExplained :
    (m : Moment) (key : Bytes) (self : Environ) (r : Option Bytes × Environ)
    → IsCoherent self
    → Looked m key self r
    → IsExplained m key self r
unfolding ask
Looked-IsExplained m key self r coherent (real v e same) = inl (v, e, ap (λ x. x.0) same)
Looked-IsExplained m key self r coherent (cached entry e there valid same) =
    let (at, logged, answered) = coherent key entry there in
    let said = ap (λ (x : CacheEntry). x.value) answered in
    let time = ap (λ (x : CacheEntry). x.timestamp) answered in
    let fresh : m.now < at.later + self.cache_ttl = omega (arith, ltb→lt _ _ valid, time) in
    subst (IsExplained m key self) (sym same) (inr (_, logged, refl, refl, said, inl fresh))
Looked-IsExplained m key self r coherent (asked e stale same) =
    subst (IsExplained m key self) (sym same) (inr (_, Memᴰ.head refl, refl, refl, refl, inr refl))

init-IsCoherent :
    (original : Map Bytes) (sock_path : Bytes) (cache_ttl : ℕ)
    → IsCoherent (init original sock_path cache_ttl)
unfolding get
init-IsCoherent original sock_path cache_ttl key entry h = absurd cc

-- After any calls, one after the other, a lookup gives the variable's real value, if it has one that
-- is no reference, or else what a query to the agent for this variable, with the value it has now, gave
-- in this lookup, or in one whose answer was cached less than the time to live ago.
pub getitem-IsExplained :
    (original : Map Bytes) (sock_path : Bytes) (cache_ttl : ℕ) (calls : List Call) (m : Moment)
    (key : Bytes)
    → IsExplained m key
        (run calls (init original sock_path cache_ttl))
        (getitem m key (run calls (init original sock_path cache_ttl)))
getitem-IsExplained original sock_path cache_ttl calls m key =
    let self = run calls (init original sock_path cache_ttl) in
    Looked-IsExplained m key self _
      (run-IsCoherent calls _ (init-IsCoherent original sock_path cache_ttl))
      (getitem-Looked m key self)

-- A variable that is not set, or whose value begins with `vault:`.
abbrev pub IsUnsetOrReference : Option Bytes → Type 0
IsUnsetOrReference value =
    (value ≡ none) ⊎ ((v : Bytes) × (value ≡ some v) × (starts_with (codes "vault:") v ≡ true))
