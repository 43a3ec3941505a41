-- ===== src/Support/Python/Client.antt =====
-- A lookup by support/python/_envproxy_hook.py next to one by crates/libenvproxy/src/lib.rs.
use env_proxy.Prelude.{
  ℕ, ◌≡◌, refl, sym, ap, ◌∙◌, Option, none, some, Result, Bool, false, not, if◌then◌else◌, inl, inr,
  arith, Bool-cases, subst,
}
use env_proxy.Prelude.Bytes.{Bytes, codes, beq}
use env_proxy.Prelude.Bytes.Search.{starts_with}
use env_proxy.Prelude.Map.{Map, get}
use env_proxy.Prelude.Maybe.{unwrap_or}
use env_proxy.Io.{IoError}
use env_proxy.Text.Utf8.{from_utf8_lossy}
use env_proxy.Client.Getenv.{
  or_real, is_vault_ref, Statics, at_load, get_socket_path, is_enabled,
  query_agent as libenvproxy_query_agent, getenv_enabled, getenv,
}
use env_proxy.Support.Socket.{Socket}
use env_proxy.Support.Python.{default_socket_path, query_agent}
use env_proxy.Support.Python.Answers.{c_value, streams, query_agent-query_agent}
use env_proxy.Support.Python.Environ.{
  Environ, Moment, plain, patched, real_answer, ask, getitem, init, install, default_cache_ttl,
}

abbrev pub socket_of : Map Bytes → Bytes
socket_of original = unwrap_or default_socket_path (get (codes "ENVPROXY_SOCKET") original)

abbrev ttl_of : (Bytes → Option ℕ) → Map Bytes → ℕ
ttl_of float original =
    unwrap_or default_cache_ttl
      (float (unwrap_or (codes "30.0") (get (codes "ENVPROXY_CACHE_TTL") original)))

abbrev turned_off : Map Bytes → Bool
turned_off original =
    beq (unwrap_or (codes "1") (get (codes "ENVPROXY_ENABLED") original)) (codes "0")

-- What the installed proxy holds.
installed-init :
    (float : Bytes → Option ℕ) (original : Map Bytes) (self : Environ)
    → install float (plain original) ≡ patched self
    → (turned_off original ≡ false)
      × (self ≡ init original (socket_of original) (ttl_of float original))
unfolding install
installed-init float original self h = elim (Bool-cases (turned_off original)) [
  | inl off ↦ absurd (ground arith)
  | inr on ↦ (on, ground arith)
]

-- The first lookup of a variable that is not set, or holds a reference, asks.
first-asks :
    (m : Moment) (key : Bytes) (original : Map Bytes) (sock_path : Bytes) (cache_ttl : ℕ)
    → real_answer (get key original) ≡ none
    → (getitem m key (init original sock_path cache_ttl)).0
      ≡ query_agent m.connect sock_path key (get key original)
unfolding getitem get ask
first-asks m key original sock_path cache_ttl unset = rw (unset, getitem) refl

-- With such a variable, libenvproxy sends the value, if there is one.
pub sent_value :
    (real : Option Bytes)
    → real_answer real ≡ none
    → (if is_vault_ref real then real else none) ≡ real
sent_value none unset = ground arith
sent_value (some v) unset = ground arith

module _ (real_getenv : Option Bytes → Option Bytes) (connect : Bytes → Result IoError Socket)
    (original : Map Bytes) (same : (k : Bytes) → real_getenv (some k) ≡ get k original) where
  is_enabled-turned_off : is_enabled real_getenv ≡ not (turned_off original)
  unfolding is_enabled beq
  is_enabled-turned_off = ground (arith, same (codes "ENVPROXY_ENABLED"))

  get_socket_path-socket_of :
      from_utf8_lossy (socket_of original) ≡ socket_of original
      → get_socket_path real_getenv none ≡ socket_of original
  unfolding get_socket_path
  get_socket_path-socket_of valid = ground (arith, same (codes "ENVPROXY_SOCKET"), valid)

  -- Enabled, and asked for a variable that is not one of envproxy's own, libenvproxy queries.
  getenv_enabled-asks :
      (key : Bytes) (st : Statics)
      → real_answer (get key original) ≡ none
      → (getenv_enabled real_getenv (streams connect) key st).0
        ≡ or_real
            (libenvproxy_query_agent real_getenv (streams connect) key (get key original) st).0
            (get key original)
  unfolding getenv_enabled
  getenv_enabled-asks key st unset =
      rw (same key, sent_value (get key original) unset, getenv_enabled) refl

  getenv-asks :
      (key : Bytes)
      → turned_off original ≡ false
      → starts_with (codes "ENVPROXY_") key ≡ false
      → (getenv real_getenv (streams connect) (some key) at_load).0
        ≡ (getenv_enabled real_getenv
            (streams connect)
            key
            (record at_load { enabled = some (is_enabled real_getenv) })).0
  unfolding getenv
  getenv-asks key on foreign = let enabled = is_enabled-turned_off in ground arith

-- In the same environment, and over the same sockets, with the hook installed and a UTF-8 socket path:
-- at the first lookup of a variable that does not begin with ENVPROXY_, and is not set or holds a
-- reference, libenvproxy gives what the hook gives, or the real value where the hook raises `KeyError`
-- or its value has a NUL byte.
pub getitem-getenv :
    (real_getenv : Option Bytes → Option Bytes) (float : Bytes → Option ℕ) (original : Map Bytes)
    (self : Environ) (m : Moment) (key : Bytes)
    → ((k : Bytes) → real_getenv (some k) ≡ get k original)
    → install float (plain original) ≡ patched self
    → from_utf8_lossy self.sock_path ≡ self.sock_path
    → starts_with (codes "ENVPROXY_") key ≡ false
    → real_answer (get key original) ≡ none
    → (getenv real_getenv (streams m.connect) (some key) at_load).0
      ≡ or_real (c_value (getitem m key self).0) (get key original)
getitem-getenv real_getenv float original self m key same is_there valid foreign unset =
    let (on, holds) = installed-init float original self is_there in
    let path : self.sock_path ≡ socket_of original = ap (λ (e : Environ). e.sock_path) holds in
    let st : Statics = record at_load { enabled = some (is_enabled real_getenv) } in
    let valid' = subst (λ p. from_utf8_lossy p ≡ p) path valid in
    getenv-asks real_getenv m.connect original same key on foreign
    ∙ getenv_enabled-asks real_getenv m.connect original same key st unset
    ∙ ap (λ o. or_real o (get key original))
        (query_agent-query_agent real_getenv m.connect key (get key original) st
          ∙ ap (λ p. c_value (query_agent m.connect p key (get key original)))
              (get_socket_path-socket_of real_getenv m.connect original same valid')
          ∙ ap c_value
              (sym (first-asks m key original (socket_of original) (ttl_of float original) unset)))
    ∙ ap (λ (e : Environ). or_real (c_value (getitem m key e).0) (get key original)) (sym holds)
