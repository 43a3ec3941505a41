-- ===== src/EndToEnd/Hook.antt =====
-- The Python hook, support/python/_envproxy_hook.py, against the server of crates/envproxy-agent.
use env_proxy.Prelude.{
  ℕ, ◌≤◌, ◌≡◌, refl, sym, ap, ◌∙◌, inl, inr, ◌∷◌, Option, none, some, Result, ok, err, to_option,
  true, false, ltb, ◌==◌, if◌then◌else◌, arith, length, take, take_all, ◌/◌, ◌%◌, Option-cases,
}
use env_proxy.Prelude.Bytes.{Bytes}
use env_proxy.Io.{IoError, Stream}
use env_proxy.Text.Utf8.{is_utf8}
use env_proxy.Proto.Wire.{
  max_key_len, max_value_len, as_u16, from_be_bytes, encode_response, Status, found, not_found,
  error, passthrough,
}
use env_proxy.Proto.RoundTrip.{be_bytes}
use env_proxy.Agent.Backend.{Backend, Resolved, to_string}
use env_proxy.Agent.Server.{response_of, resolve_request}
use env_proxy.Client.Getenv.{encode_query, at_load}
use env_proxy.EndToEnd.Exchange.{or_nothing}
use env_proxy.Prelude.Map.{get}
use env_proxy.Support.Python.Environ.{Environ, Moment, real_answer, valid_entry, ask, getitem}
use env_proxy.EndToEnd.{
  asked, encode_query_fits, resolve_request-asked, reply_of, to_server, reply_of-encode_query,
}
use env_proxy.Support.Python.Client.{sent_value}
use env_proxy.Support.Socket.{Socket, sendall}
use env_proxy.Support.Python.{query_agent, exchange}
use env_proxy.Support.Python.Answers.{
  response_in, receive_response-response_in, request_of-encode_query,
}

-- What the hook gets of a resolution: a value that a response can carry.
abbrev pub carried : Resolved → Option Bytes
carried (ok (some v)) = if ltb max_value_len (length v) then none else some v
carried (ok none) = none
carried (err e) = none

-- The value of a response, if its status says that there is one.
abbrev value_if_found : Status → Bytes → Option Bytes
value_if_found found v = some v
value_if_found not_found v = none
value_if_found error v = none
value_if_found passthrough v = none

value_cut : Bytes → ℕ → ℕ → Option Bytes
value_cut value status n =
    if ltb (length value) n then none else if status == 0 then some (take n value) else none

value_cut-all : (value : Bytes) (n : ℕ) → n ≡ length value → value_cut value 0 n ≡ some value
unfolding value_cut
value_cut-all value n e = rw e (
    let short : ltb (length value) (length value) ≡ false = ground arith in
    rw short (ap some (take_all (length value) value (omega arith))))

response_in-found :
    (hi lo : ℕ) (value : Bytes)
    → from_be_bytes hi lo ≡ length value
    → response_in (0 ∷ hi ∷ lo ∷ value) ≡ some value
unfolding value_cut
response_in-found hi lo value e =
    let header : ltb (length (0 ∷ hi ∷ lo ∷ value)) 3 ≡ false = ground arith in
    rw header (value_cut-all value (from_be_bytes hi lo) e)

response_in-encode_response :
    (status : Status) (value message : Bytes)
    → encode_response status value ≡ some message
    → response_in message ≡ value_if_found status value
unfolding encode_response
response_in-encode_response found value message h =
    let fits : length value ≤ 65535 = ground arith in
    let n = as_u16 (length value) in
    let sent : message ≡ 0 ∷ (n / 256) ∷ (n % 256) ∷ value = ground arith in
    rw sent (response_in-found (n / 256) (n % 256) value (be_bytes (length value) fits))
response_in-encode_response not_found value message h = ground arith
response_in-encode_response error value message h = ground arith
response_in-encode_response passthrough value message h = ground arith

response_in-response_of : (r : Resolved) → response_in (or_nothing (response_of r)) ≡ carried r
unfolding response_of
response_in-response_of (ok (some v)) = elim (Option-cases (encode_response found v)) [
  | inl long ↦ unfold encode_response in ground arith
  | inr (m, fits) ↦
      let short : ltb max_value_len (length v) ≡ false = unfold encode_response in ground arith in
      rw (fits, short) (response_in-encode_response found v m fits)
]
response_in-response_of (ok none) = unfold encode_response in refl
response_in-response_of (err e) = elim (Option-cases (encode_response error (to_string e))) [
  | inl long ↦ rw long refl
  | inr (m, fits) ↦ rw fits (response_in-encode_response error (to_string e) m fits)
]

module _ {S : Type 0} (b : Backend S) (s : S) where
  -- After the request was sent, the whole reply is there.
  exchange-reply_of :
      (message : Bytes) (socket : Socket)
      → socket.stream ≡ to_server b s
      → to_option (exchange message socket).0 ≡ response_in (reply_of b s message)
  unfolding exchange sendall
  exchange-reply_of message socket fresh =
      let replied : Stream = record (to_server b s) {
        incoming = reply_of b s message;
        sent = message;
      } in
      rw fresh (receive_response-response_in (record socket { stream = replied }))

  -- A query that can be encoded gets what the backend resolves, if a response can carry it.
  query_agent-resolve_request :
      (connect : Bytes → Result IoError Socket) (path key : Bytes) (value : Option Bytes)
      (socket : Socket) (message : Bytes)
      → connect path ≡ ok socket
      → socket.stream ≡ to_server b s
      → encode_query key value ≡ some message
      → query_agent connect path key value ≡ carried (resolve_request b key value s).0
  unfolding query_agent
  query_agent-resolve_request connect path key value socket message at_path fresh encoded =
      rw (request_of-encode_query key value ∙ encoded, at_path, query_agent)
        (exchange-reply_of message socket fresh
          ∙ ap response_in (reply_of-encode_query b s key value message encoded)
          ∙ response_in-response_of (resolve_request b key value s).0)

  -- A lookup of the proxy, with no entry of its cache that is valid, for a variable that is not set or
  -- holds a reference, over a connection to a server of the backend: it gives what the backend resolves
  -- for the key, or for the key with that reference, if a response can carry it, and else none. Key and
  -- reference are UTF-8 and at most 65535 bytes long; the pieces that are received have any size.
  pub getitem-resolve :
      (m : Moment) (key : Bytes) (self : Environ) (socket : Socket)
      → m.connect self.sock_path ≡ ok socket
      → socket.stream ≡ to_server b s
      → real_answer (get key self.original) ≡ none
      → valid_entry m.now self (get key self.cache) ≡ none
      → is_utf8 key ≡ true
      → length key ≤ max_key_len
      → ((v : Bytes) → get key self.original ≡ some v → is_utf8 v ≡ true)
      → ((v : Bytes) → get key self.original ≡ some v → length v ≤ max_value_len)
      → (getitem m key self).0 ≡ carried (asked b s key (get key self.original))
  unfolding getitem ask
  getitem-resolve m key self socket at_path fresh unset stale key_text key_fits value_text
        value_fits =
      let real = get key self.original in
      let (message, encoded) =
        encode_query_fits b s (λ o. none) (λ p. ok (to_server b s)) key at_load real key_fits
          value_fits in
      let answered =
        query_agent-resolve_request m.connect self.sock_path key real socket message at_path fresh
          encoded in
      let meant = ap (λ r. (resolve_request b key r s).0) (sym (sent_value real unset)) in
      let looked : (getitem m key self).0 ≡ query_agent m.connect self.sock_path key real =
        rw (unset, stale, getitem, ask) refl in
      looked
      ∙ answered
      ∙ ap carried (meant ∙ resolve_request-asked b s key real key_text value_text)
