-- ===== src/Client/Getenv.antt =====
-- crates/libenvproxy/src/lib.rs: `getenv`, `secure_getenv` and the query of the agent.
-- The C library's `getenv` and the connection to a socket path are parameters. What `debug_log!`
-- writes to stderr is not modelled.
pub mod Calls
use env_proxy.Prelude.{
  ℕ, zero, suc, ◌+◌, [], ◌∷◌, ◌++◌, List, Option, none, some, Result, ok, err, to_option, Bool,
  true, false, not, ltb, if◌then◌else◌,
}
use env_proxy.Prelude.Bytes.{Bytes, codes, beq}
use env_proxy.Prelude.Bytes.Search.{starts_with, find}
use env_proxy.Prelude.Action.{Action, pure, fail, ◌>>=◌, ◌>>◌}
use env_proxy.Text.Utf8.{from_utf8_lossy}
use env_proxy.Io.{IoError, Stream, read_exact, write_all}
use env_proxy.Proto.Wire.{
  default_socket_path, vault_prefix, from_be_bytes, byte_at, encode_request, encode_request_v2,
  from_byte, Status, found, not_found, error, passthrough,
}

-- A pointer that `getenv` returns: null, one of the C library's, or a leaked `CString`.
pub data CPtr : Type 0 where
  null : CPtr
  libc leaked : Bytes → CPtr

abbrev pub of_libc : Option Bytes → CPtr
of_libc none = null
of_libc (some v) = libc v

-- A connection that was made or tried: the path, and the bytes that were sent.
pub record Session : Type 0 where
  pub path : Bytes
  pub sent : Bytes

-- The statics `SOCKET_PATH` and `ENABLED`, and the connections so far, the last one first.
pub record Statics : Type 0 where
  pub socket_path : Option Bytes
  pub enabled : Option Bool
  pub sessions : List Session

abbrev pub at_load : Statics
at_load = record { socket_path = none; enabled = none; sessions = [] }

-- `OnceLock::get_or_init`
abbrev pub get_or_init {ℓ} : {A : Type ℓ} → Option A → A → A
get_or_init none a = a
get_or_init (some b) a = b

-- `CString::new(v).ok()`: a NUL byte inside is refused.
abbrev pub c_string : Bytes → Option Bytes
c_string v = elim (find 0 v) [ none ↦ some v | some i ↦ none ]

-- No value came back; the source's early `return None`.
pub data Unheard : Type 0 where
  unheard : Unheard

abbrev pub quiet : {A : Type 0} → Action Stream IoError A → Action Stream Unheard A
quiet m s = elim (m s).0 [ ok a ↦ (ok a, (m s).1) | err e ↦ (err unheard, (m s).1) ]

abbrev pub lift : {A : Type 0} → Option A → Action Stream Unheard A
lift none = fail unheard
lift (some a) = pure a

abbrev pub value_of : Status → Bytes → Option Bytes
value_of found value_buf = c_string value_buf
value_of not_found value_buf = none
value_of error value_buf = none
value_of passthrough value_buf = none

-- The value of a response.
unfoldable pub read_value : ℕ → Action Stream Unheard Bytes
read_value val_len = if ltb 0 val_len then quiet (read_exact val_len) else pure []

-- The response: 1 byte status, 2 bytes length, the value.
unfoldable pub read_response : Action Stream Unheard Bytes
read_response = do
  header ← quiet (read_exact 3)
  status ← lift (from_byte (byte_at header 0))
  value_buf ← read_value (from_be_bytes (byte_at header 1) (byte_at header 2))
  lift (value_of status value_buf)

-- `query_agent` from the request's first byte on.
unfoldable pub exchange : Bytes → Action Stream Unheard Bytes
exchange encoded = do quiet (write_all encoded); read_response

unfoldable pub encode_query : Bytes → Option Bytes → Option Bytes
encode_query key (some val) = encode_request_v2 key val
encode_query key none = encode_request key

module _ (real_getenv : Option Bytes → Option Bytes) where
  unfoldable pub get_socket_path : Option Bytes → Bytes
  get_socket_path cached = get_or_init cached (elim (real_getenv (some (codes "ENVPROXY_SOCKET"))) [
    | none ↦ default_socket_path
    | some v ↦ from_utf8_lossy v
  ])

  unfoldable pub is_enabled : Bool
  is_enabled = elim (real_getenv (some (codes "ENVPROXY_ENABLED"))) [
    | none ↦ true
    | some v ↦ not (beq v (codes "0"))
  ]

  unfoldable pub is_debug : Bool
  is_debug = elim (real_getenv (some (codes "ENVPROXY_DEBUG"))) [
    | none ↦ false
    | some v ↦ beq v (codes "1")
  ]

module _ (connect : Bytes → Result IoError Stream) where
  -- The query over a connection to `path`.
  unfoldable pub query_at : Bytes → Bytes → Statics → Option Bytes × Statics
  query_at path encoded st = elim (connect path) [
    | err e ↦ (none, record st { sessions = record { path = path; sent = [] } ∷ st.sessions })
    | ok stream ↦
        let (r, after) = exchange encoded stream in
        (
          to_option r,
          record st { sessions = record { path = path; sent = after.sent } ∷ st.sessions },
        )
  ]

-- The result of a query, or else the C library's value.
abbrev pub or_real : Option Bytes → Option Bytes → CPtr
or_real (some resolved) real = leaked resolved
or_real none real = of_libc real

-- Whether a variable is set and holds a `vault:` reference.
abbrev pub is_vault_ref : Option Bytes → Bool
is_vault_ref none = false
is_vault_ref (some v) = starts_with vault_prefix v

module _ (real_getenv : Option Bytes → Option Bytes) (connect : Bytes → Result IoError Stream) where
  unfoldable pub query_agent : Bytes → Option Bytes → Statics → Option Bytes × Statics
  query_agent key current_value st =
      let path = get_socket_path real_getenv st.socket_path in
      let st' = record st { socket_path = some path } in
      elim (encode_query key current_value) [
        | none ↦ (none, st')
        | some encoded ↦ query_at connect path encoded st'
      ]

  -- `getenv` once it is known that envproxy is enabled.
  unfoldable pub getenv_enabled : Bytes → Statics → CPtr × Statics
  getenv_enabled key st =
      let real = real_getenv (some key) in
      let current_value = if is_vault_ref real then real else none in
      let (resolved, st') = query_agent key current_value st in (or_real resolved real, st')

  unfoldable pub getenv : Option Bytes → Statics → CPtr × Statics
  getenv none st = (of_libc (real_getenv none), st)
  getenv (some key) st =
      let enabled = get_or_init st.enabled (is_enabled real_getenv) in
      let st' = record st { enabled = some enabled } in
      if starts_with (codes "ENVPROXY_") key
      then (of_libc (real_getenv (some key)), st)
      else if not enabled
      then (of_libc (real_getenv (some key)), st')
      else getenv_enabled key st'

  unfoldable pub secure_getenv : Option Bytes → Statics → CPtr × Statics
  unfolding getenv
  secure_getenv name st = getenv name st
