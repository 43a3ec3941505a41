-- ===== src/Client/Getenv/Calls.antt =====
-- Sequences of calls of `getenv` in one process, each with the environment and the agent of its time.
use env_proxy.Prelude.{
  ◌≡◌, refl, ◌∙◌, ◌⊎◌, inl, inr, [], ◌∷◌, List, Option, none, some, Result, ok, false, arith,
  Option-cases, Bool-cases, Result-cases,
}
use env_proxy.Prelude.Bytes.{Bytes, codes}
use env_proxy.Prelude.Bytes.Search.{find, starts_with}
use env_proxy.Io.{IoError, Stream}
use env_proxy.Proto.Wire.{Status}
use env_proxy.Client.Getenv.{
  CPtr, leaked, of_libc, or_real, Session, Statics, at_load, value_of, exchange, read_response,
  read_value, encode_query, get_socket_path, is_enabled, query_at, query_agent, getenv_enabled,
  getenv, get_or_init,
}

-- One call, and the world that it meets.
pub record Call : Type 0 where
  pub name : Option Bytes
  pub real_getenv : Option Bytes → Option Bytes
  pub connect : Bytes → Result IoError Stream

abbrev pub step : Call → Statics → CPtr × Statics
step c st = getenv c.real_getenv c.connect c.name st

pub run : List Call → Statics → Statics
run [] st = st
run (c ∷ calls) st = run calls (step c st).1

-- All connections go to the path that is cached.
abbrev pub AllTo : Option Bytes → List Session → Type 0
AllTo path [] = Unit {0}
AllTo path (s ∷ sessions) = (path ≡ some s.path) × AllTo path sessions

abbrev pub OnePath : Statics → Type 0
OnePath st = AllTo st.socket_path st.sessions

query_at-OnePath :
    (connect : Bytes → Result IoError Stream) (path encoded : Bytes) (st : Statics)
    → st.socket_path ≡ some path
    → OnePath st
    → OnePath (query_at connect path encoded st).1
unfolding query_at
query_at-OnePath connect path encoded st e h = ground arith

AllTo-init :
    (cached : Option Bytes) (path : Bytes) (sessions : List Session)
    → AllTo cached sessions
    → AllTo (some (get_or_init cached path)) sessions
AllTo-init (some p) path sessions h = h
AllTo-init none path [] h = tt
AllTo-init none path (s ∷ sessions) h = cc (h.0)

module _ (real_getenv : Option Bytes → Option Bytes) (connect : Bytes → Result IoError Stream) where
  OnePath-path :
      (st : Statics)
      → OnePath st
      → OnePath (record st { socket_path = some (get_socket_path real_getenv st.socket_path) })
  unfolding get_socket_path
  OnePath-path st h = AllTo-init st.socket_path _ st.sessions h

  query_agent-OnePath :
      (key : Bytes) (value : Option Bytes) (st : Statics)
      → OnePath st
      → OnePath (query_agent real_getenv connect key value st).1
  unfolding query_agent
  query_agent-OnePath key value st h = elim (Option-cases (encode_query key value)) [
    | inl e ↦ rw (e, query_agent) (OnePath-path st h)
    | inr (encoded, e) ↦
        rw (e, query_agent) (query_at-OnePath connect _ encoded _ refl (OnePath-path st h))
  ]

  getenv-OnePath :
      (name : Option Bytes) (st : Statics)
      → OnePath st
      → OnePath (getenv real_getenv connect name st).1
  unfolding getenv getenv_enabled
  getenv-OnePath none st h = h
  getenv-OnePath (some key) st h = elim (Bool-cases (starts_with (codes "ENVPROXY_") key)) [
    | inl own ↦ rw own h
    | inr other ↦ elim (Bool-cases (get_or_init st.enabled (is_enabled real_getenv))) [
      | inl enabled ↦ rw (other, enabled) (query_agent-OnePath key _ _ h)
      | inr disabled ↦ rw (other, disabled) h
    ]
  ]

run-from-OnePath : (calls : List Call) (st : Statics) → OnePath st → OnePath (run calls st)
unfolding run
run-from-OnePath [] st h = h
run-from-OnePath (c ∷ calls) st h =
    run-from-OnePath calls (step c st).1 (getenv-OnePath c.real_getenv c.connect c.name st h)

-- Whatever the environment becomes, all connections of a process go to the one path that the
-- first query fixed.
pub run-OnePath : (calls : List Call) → OnePath (run calls at_load)
run-OnePath calls = run-from-OnePath calls at_load tt

disabled_step :
    (real_getenv : Option Bytes → Option Bytes) (connect : Bytes → Result IoError Stream)
    (name : Option Bytes) (st : Statics)
    → st.enabled ≡ some false
    → ((getenv real_getenv connect name st).1.enabled ≡ some false)
      × ((getenv real_getenv connect name st).1.sessions ≡ st.sessions)
      × ((getenv real_getenv connect name st).0 ≡ of_libc (real_getenv name))
unfolding getenv
disabled_step real_getenv connect none st h = (h, refl, refl)
disabled_step real_getenv connect (some key) st h = (ground arith, ground arith, ground arith)

-- Once the first look has found envproxy disabled, no later call makes a connection, and each
-- returns the C library's value.
pub disabled_stays :
    (calls : List Call) (c : Call) (st : Statics)
    → st.enabled ≡ some false
    → ((run calls st).sessions ≡ st.sessions)
      × ((step c (run calls st)).0 ≡ of_libc (c.real_getenv c.name))
unfolding run
disabled_stays [] c st h = (refl, (disabled_step c.real_getenv c.connect c.name st h).2)
disabled_stays (d ∷ calls) c st h =
    let (off, same, real) = disabled_step d.real_getenv d.connect d.name st h in
    let (ss, r) = disabled_stays calls c (step d st).1 off in (ss ∙ same, r)

value_of_clear : (status : Status) (buf v : Bytes) → value_of status buf ≡ some v → find 0 v ≡ none
value_of_clear status buf v h = ground arith

exchange_clear :
    (encoded : Bytes) (s : Stream) (v : Bytes) → (exchange encoded s).0 ≡ ok v → find 0 v ≡ none
unfolding exchange read_response read_value
exchange_clear encoded s v h = ground arith

query_at_clear :
    (connect : Bytes → Result IoError Stream) (path encoded : Bytes) (st : Statics) (v : Bytes)
    → (query_at connect path encoded st).0 ≡ some v
    → find 0 v ≡ none
unfolding query_at
query_at_clear connect path encoded st v h = elim (Result-cases (connect path)) [
  | inl (s, e) ↦ exchange_clear encoded s v (ground arith)
  | inr (x, e) ↦ absurd (ground arith)
]

module _ (real_getenv : Option Bytes → Option Bytes) (connect : Bytes → Result IoError Stream) where
  query_agent_clear :
      (key : Bytes) (value : Option Bytes) (st : Statics) (v : Bytes)
      → (query_agent real_getenv connect key value st).0 ≡ some v
      → find 0 v ≡ none
  unfolding query_agent
  query_agent_clear key value st v h = elim (Option-cases (encode_query key value)) [
    | inl e ↦ absurd (ground arith)
    | inr (encoded, e) ↦
        let path = get_socket_path real_getenv st.socket_path in
        query_at_clear connect path encoded (record st { socket_path = some path }) v (ground arith)
  ]

  -- The two things that `getenv` can return.
  abbrev pub IsAnswer : Option Bytes → CPtr → Type 0
  IsAnswer name p =
      (p ≡ of_libc (real_getenv name)) ⊎ ((v : Bytes) × (p ≡ leaked v) × (find 0 v ≡ none))

  or_real-IsAnswer :
      (name : Option Bytes) (r : Option Bytes)
      → ((v : Bytes) → r ≡ some v → find 0 v ≡ none)
      → IsAnswer name (or_real r (real_getenv name))
  or_real-IsAnswer name none clear = inl refl
  or_real-IsAnswer name (some v) clear = inr (v, refl, clear v refl)

  getenv_enabled-IsAnswer :
      (key : Bytes) (st : Statics)
      → IsAnswer (some key) (getenv_enabled real_getenv connect key st).0
  unfolding getenv_enabled
  getenv_enabled-IsAnswer key st = or_real-IsAnswer (some key) _ (query_agent_clear key _ st)

  -- What `getenv` returns is the C library's value, or a leaked string with no NUL byte inside.
  pub getenv-IsAnswer :
      (name : Option Bytes) (st : Statics) → IsAnswer name (getenv real_getenv connect name st).0
  unfolding getenv
  getenv-IsAnswer none st = inl refl
  getenv-IsAnswer (some key) st = elim (Bool-cases (starts_with (codes "ENVPROXY_") key)) [
    | inl own ↦ rw own (inl refl)
    | inr other ↦ elim (Bool-cases (get_or_init st.enabled (is_enabled real_getenv))) [
      | inl enabled ↦ rw (other, enabled) (getenv_enabled-IsAnswer key _)
      | inr disabled ↦ rw (other, disabled) (inl refl)
    ]
  ]
