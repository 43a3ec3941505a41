-- ===== src/EndToEnd.antt =====
-- The library of crates/libenvproxy against the server of crates/envproxy-agent, over one
-- connection that neither side breaks.
pub mod Exchange
pub mod Backends
pub mod Start
pub mod Kubernetes
pub mod Get
pub mod Hook
use env_proxy.Prelude.{
  ℕ, ◌≤◌, ◌≡◌, refl, sym, ap, ◌∙◌, inl, inr, [], ◌∷◌, append-nil, Option, none, some, Result, ok,
  err, to_option, true, false, ltb, if◌then◌else◌, arith, length, take_all, ◌/◌, ◌%◌, Option-cases,
}
use env_proxy.Prelude.Bytes.{Bytes, codes, is_empty}
use env_proxy.Prelude.Bytes.Search.{starts_with}
use env_proxy.Text.Utf8.{is_utf8, from_utf8_lossy-valid}
use env_proxy.Io.{ErrorKind, IoError, Stream}
use env_proxy.Proto.Wire.{
  max_key_len, max_value_len, vault_prefix, as_u16, from_be_bytes, encode_response, encode_request,
  encode_request_v2, decode_request, status_byte, Status, found, not_found, error, DecodedRequest,
  protocol_v1, protocol_v2,
}
use env_proxy.Proto.RoundTrip.{
  be_bytes, from_byte_iff, non_empty, decode_request-encode_request,
  decode_request-encode_request_v2,
}
use env_proxy.Proto.Reject.{encode_request-limits}
use env_proxy.Agent.Backend.{Backend, Resolved, to_string}
use env_proxy.Agent.Server.{
  Conn, answer, response_of, resolve_request, handle_connection, send, send_response,
}
use env_proxy.Agent.Server.Refines.{handle_connection-decode_request}
use env_proxy.Agent.Server.Reading.{after_reading}
use env_proxy.Client.Getenv.{
  lift, read_value, read_response, or_real, is_vault_ref, Statics, c_string, value_of, exchange,
  encode_query, query_at, query_agent, getenv_enabled, getenv, is_enabled, get_or_init,
}
use env_proxy.EndToEnd.Exchange.{whole, delivered, or_nothing, exchange-response_of}

module _ {S : Type 0} (b : Backend S) (s : S) where
  abbrev conn_of : Bytes → Conn S
  conn_of message = record { stream = whole message (λ _. []); shared = s }

  -- What the server sends to a client that has sent a message.
  unfoldable pub reply_of : Bytes → Bytes
  reply_of message = (handle_connection b (conn_of message)).1.stream.sent

  -- The client's end of a fresh connection to the server.
  abbrev pub to_server : Stream
  to_server = whole [] reply_of

  sent-send_response :
      (response : Option Bytes) (c : Conn S)
      → c.stream.room ≡ none
      → c.stream.sent ≡ []
      → (send_response response c).1.stream.sent ≡ or_nothing response
  unfolding send
  sent-send_response none c r e = e
  sent-send_response (some m) c r e = ground arith

  sent-answer :
      (key : Bytes) (value : Option Bytes) (n : ℕ) (message : Bytes)
      → (answer b key value (after_reading n (conn_of message))).1.stream.sent
        ≡ or_nothing (response_of (resolve_request b key value s).0)
  unfolding answer
  sent-answer key value n message = sent-send_response _ _ refl refl

  resolve_request-non_empty :
      (key value : Bytes)
      → resolve_request b key (non_empty value) s ≡ resolve_request b key (some value) s
  unfolding resolve_request
  resolve_request-non_empty key [] = refl
  resolve_request-non_empty key (x ∷ value) = refl

  pub reply_of-encode_query :
      (key : Bytes) (value : Option Bytes) (message : Bytes)
      → encode_query key value ≡ some message
      → reply_of message ≡ or_nothing (response_of (resolve_request b key value s).0)
  unfolding reply_of encode_query
  reply_of-encode_query key none message h =
      let decoded = decode_request-encode_request key message [] h in
      let r : DecodedRequest = record { version = protocol_v1; key = key; value = none } in
      let handled =
        handle_connection-decode_request b (conn_of message) r
          (sym (ap decode_request (append-nil message)) ∙ decoded) (inl refl) in
      ap (λ (o : Result IoError (Unit {0}) × Conn S). o.1.stream.sent) handled
      ∙ sent-answer key none _ message
  reply_of-encode_query key (some value) message h =
      let decoded = decode_request-encode_request_v2 key value message [] h in
      let r : DecodedRequest = record {
        version = protocol_v2;
        key = key;
        value = non_empty value;
      } in
      let handled =
        handle_connection-decode_request b (conn_of message) r
          (sym (ap decode_request (append-nil message)) ∙ decoded) (inr refl) in
      ap (λ (o : Result IoError (Unit {0}) × Conn S). o.1.stream.sent) handled
      ∙ sent-answer key (non_empty value) _ message
      ∙ ap (λ (o : Resolved × S). or_nothing (response_of o.0))
          (resolve_request-non_empty key value)

  -- A query that can be encoded gets what the backend resolves, if it can be delivered.
  pub exchange-handle_connection :
      (key : Bytes) (value : Option Bytes) (message : Bytes)
      → encode_query key value ≡ some message
      → to_option (exchange message to_server).0 ≡ delivered (resolve_request b key value s).0
  exchange-handle_connection key value message h =
      exchange-response_of message (resolve_request b key value s).0 reply_of
        (reply_of-encode_query key value message h)

  -- What the backend is asked for a variable: a `vault:` value goes along, any other does not.
  abbrev pub asked : Bytes → Option Bytes → Resolved
  asked key none = (b.resolve key s).0
  asked key (some v) =
      if starts_with vault_prefix v then (b.resolve_with_value key v s).0 else (b.resolve key s).0

  vault_non_empty : (v : Bytes) → starts_with vault_prefix v ≡ true → is_empty v ≡ false
  unfolding starts_with
  vault_non_empty [] h = ground arith
  vault_non_empty (x ∷ v) h = refl

  pub resolve_request-asked :
      (key : Bytes) (real : Option Bytes)
      → is_utf8 key ≡ true
      → ((v : Bytes) → real ≡ some v → is_utf8 v ≡ true)
      → (resolve_request b key (if is_vault_ref real then real else none) s).0 ≡ asked key real
  unfolding resolve_request
  resolve_request-asked key none k h = rw (from_utf8_lossy-valid key k)
  resolve_request-asked key (some v) k h =
      ground
        (arith, from_utf8_lossy-valid key k, from_utf8_lossy-valid v (h v refl), vault_non_empty v)

module _ {S : Type 0} (b : Backend S) (s : S) (real_getenv : Option Bytes → Option Bytes)
    (connect : Bytes → Result IoError Stream) (key : Bytes) (st : Statics) where
  -- A query that fits is encoded.
  pub encode_query_fits :
      (value : Option Bytes)
      → length key ≤ max_key_len
      → ((v : Bytes) → value ≡ some v → length v ≤ max_value_len)
      → (message : Bytes) × (encode_query key value ≡ some message)
  unfolding encode_query
  encode_query_fits none k h = elim (Option-cases (encode_request key)) [
    | inl e ↦ absurd (omega (arith, (encode_request-limits key []).0.0 e))
    | inr found_it ↦ found_it
  ]
  encode_query_fits (some v) k h = elim (Option-cases (encode_request_v2 key v)) [
    | inl e ↦ absurd (omega (arith, (encode_request-limits key v).1.0 e, h v refl))
    | inr found_it ↦ found_it
  ]

  query_agent_served :
      (value : Option Bytes) (message : Bytes) (st' : Statics)
      → ((path : Bytes) → connect path ≡ ok (to_server b s))
      → encode_query key value ≡ some message
      → (query_agent real_getenv connect key value st').0
        ≡ delivered (resolve_request b key value s).0
  unfolding query_agent query_at
  query_agent_served value message st' at_path encoded =
      rw (encoded, query_agent, at_path _, query_at)
        (exchange-handle_connection b s key value message encoded)

  current_fits :
      (real : Option Bytes)
      → ((v : Bytes) → real ≡ some v → length v ≤ max_value_len)
      → (v : Bytes) → (if is_vault_ref real then real else none) ≡ some v
      → length v ≤ max_value_len
  current_fits real h v e = h v (ground arith)

  -- With envproxy enabled and a server of the backend at the socket, `getenv` returns what the
  -- backend resolves for the key, or for the key with the `vault:` reference that the variable
  -- holds; where the backend has no value, fails, or has a value too long or with a NUL byte, the
  -- value in the environment is returned. The key is no `ENVPROXY_` name, and key and value are
  -- UTF-8 and at most 65535 bytes long.
  pub getenv-resolve :
      starts_with (codes "ENVPROXY_") key ≡ false
      → get_or_init st.enabled (is_enabled real_getenv) ≡ true
      → ((path : Bytes) → connect path ≡ ok (to_server b s))
      → is_utf8 key ≡ true
      → length key ≤ max_key_len
      → ((v : Bytes) → real_getenv (some key) ≡ some v → is_utf8 v ≡ true)
      → ((v : Bytes) → real_getenv (some key) ≡ some v → length v ≤ max_value_len)
      → (getenv real_getenv connect (some key) st).0
        ≡ or_real (delivered (asked b s key (real_getenv (some key)))) (real_getenv (some key))
  unfolding getenv getenv_enabled
  getenv-resolve own on at_path key_text key_fits value_text value_fits =
      let real = real_getenv (some key) in
      let current = if is_vault_ref real then real else none in
      let (message, encoded) = encode_query_fits current key_fits (current_fits real value_fits) in
      let st' = record st { enabled = some (get_or_init st.enabled (is_enabled real_getenv)) } in
      let answered = query_agent_served current message st' at_path encoded in
      ground (arith, answered, resolve_request-asked b s key real key_text value_text)
