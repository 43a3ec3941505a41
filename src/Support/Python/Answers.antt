-- ===== src/Support/Python/Answers.antt =====
-- The query of support/python/_envproxy_hook.py against that of crates/libenvproxy/src/lib.rs.
use env_proxy.Prelude.{
  ℕ, ◌≡◌, refl, ap, sym, ◌∙◌, inl, inr, [], Option, none, some, Result, ok, err, to_option, true,
  false, ltb, leb, ◌==◌, if◌then◌else◌, length, take, drop, arith, Bool-cases, ltb→lt, ltb→le,
}
use env_proxy.Prelude.Bytes.{Bytes}
use env_proxy.Prelude.Action.{Action, continue, fail, pure, ◌>>=◌}
use env_proxy.Io.{IoError, Stream, write_all, read_exact}
use env_proxy.Proto.Wire.{
  from_be_bytes, byte_at, from_byte, Status, encode_request, encode_request_v2,
  encode_request_versioned,
}
use env_proxy.Client.Getenv.{
  Unheard, unheard, lift, value_of, c_string, encode_query, read_response, read_value,
  exchange as libenvproxy_exchange, query_at, Statics, get_socket_path,
  query_agent as libenvproxy_query_agent,
}
use env_proxy.Support.Socket.{Socket, Lost, lost, sendall, caught_in}
use env_proxy.Support.Python.{
  request_of, receive_value, receive_response, recv_exact, exchange, query_agent,
}
use env_proxy.Support.Python.Receiving.{Gets, recv_exact-Gets, recv_exact-short}

-- The value as a C string, if it has no NUL byte.
abbrev pub c_value : Option Bytes → Option Bytes
c_value none = none
c_value (some v) = c_string v

-- The value in a response, if all of it has come and its status is 0.
abbrev pub value_in : Bytes → Bytes → Option Bytes
value_in header rest =
    let val_len = from_be_bytes (byte_at header 1) (byte_at header 2) in
    if ltb (length rest) val_len
    then none
    else if byte_at header 0 == 0
    then some (take val_len rest)
    else none

abbrev pub response_in : Bytes → Option Bytes
response_in incoming =
    if ltb (length incoming) 3 then none else value_in (take 3 incoming) (drop 3 incoming)

-- libenvproxy: the value, behind a header with a known status.
abbrev value_rest : ℕ → Status → Action Stream Unheard Bytes
value_rest n status = read_value n >>= λ v. lift (value_of status v)

value_rest-all :
    (n : ℕ) (status : Status) (st : Stream)
    → to_option (value_rest n status st).0
      ≡ (if ltb (length st.incoming) n then none else value_of status (take n st.incoming))
unfolding read_value
value_rest-all n status st = ground arith

status_rest : Option Status → Bytes → Action Stream Unheard Bytes
status_rest o header = lift o >>= value_rest (from_be_bytes (byte_at header 1) (byte_at header 2))

abbrev value_if : Option Status → ℕ → Bytes → Option Bytes
value_if none n rest = none
value_if (some status) n rest = if ltb (length rest) n then none else value_of status (take n rest)

status_rest-all :
    (o : Option Status) (header : Bytes) (st : Stream)
    → to_option (status_rest o header st).0
      ≡ value_if o (from_be_bytes (byte_at header 1) (byte_at header 2)) st.incoming
unfolding status_rest
status_rest-all none header st = refl
status_rest-all (some status) header st =
    value_rest-all (from_be_bytes (byte_at header 1) (byte_at header 2)) status st

-- Status 0 is the only one with a value.
value_if-from_byte :
    (b n : ℕ) (rest : Bytes)
    → value_if (from_byte b) n rest
      ≡ c_value (if ltb (length rest) n then none else if b == 0 then some (take n rest) else none)
unfolding from_byte
value_if-from_byte b n rest = ground arith

abbrev quiet_in : Result IoError Bytes × Stream → Result Unheard Bytes × Stream
quiet_in o = elim o.0 [ ok a ↦ (ok a, o.1) | err e ↦ (err unheard, o.1) ]

abbrev header_rest : Bytes → Action Stream Unheard Bytes
header_rest header = status_rest (from_byte (byte_at header 0)) header

read_response-there :
    (st : Stream)
    → leb 3 (length st.incoming) ≡ true
    → to_option (read_response st).0 ≡ c_value (value_in (take 3 st.incoming) (drop 3 st.incoming))
unfolding read_response status_rest
read_response-there st there =
    let header = take 3 st.incoming in
    let rest = record st { incoming = drop 3 st.incoming } in
    let read : read_exact 3 st ≡ (ok header, rest) = rw there refl in
    ap (λ o. to_option (continue (quiet_in o) header_rest).0) read
    ∙ status_rest-all (from_byte (byte_at header 0)) header rest
    ∙ value_if-from_byte (byte_at header 0) (from_be_bytes (byte_at header 1) (byte_at header 2))
        rest.incoming

read_response-response_in :
    (st : Stream) → to_option (read_response st).0 ≡ c_value (response_in st.incoming)
unfolding read_response
read_response-response_in st = elim (Bool-cases (leb 3 (length st.incoming))) [
  | inl there ↦
      let long : ltb (length st.incoming) 3 ≡ false = ground arith in
      read_response-there st there ∙ rw long refl
  | inr short ↦ ground arith
]

abbrev quiet_sent : Result IoError (Unit {0}) × Stream → Result Unheard (Unit {0}) × Stream
quiet_sent o = elim o.0 [ ok a ↦ (ok a, o.1) | err e ↦ (err unheard, o.1) ]

abbrev sent_in : Result IoError (Unit {0}) × Stream → Socket → Result Lost (Unit {0}) × Socket
sent_in o s = caught_in (o.0, record s { stream = o.1 })

-- The hook: the value, and then the whole response.
receive_value-all :
    (n : ℕ) (s : Socket)
    → to_option (receive_value n s).0
      ≡ (if ltb (length s.stream.incoming) n then none else some (take n s.stream.incoming))
unfolding receive_value
receive_value-all n s = ground (arith, recv_exact-short n s, recv_exact-Gets n s)

abbrev status_if : Bytes → Bytes → Action Socket Lost Bytes
status_if header value_bytes = if byte_at header 0 == 0 then pure value_bytes else fail lost

abbrev header_then : Bytes → Action Socket Lost Bytes
header_then header =
    receive_value (from_be_bytes (byte_at header 1) (byte_at header 2)) >>= status_if header

status_if-all :
    (header : Bytes) (o : Result Lost Bytes × Socket)
    → to_option (continue o (status_if header)).0 ≡ elim (to_option o.0) [
      | none ↦ none
      | some v ↦ if byte_at header 0 == 0 then some v else none
    ]
status_if-all header (err e, s) = refl
status_if-all header (ok v, s) = ground arith

header_then-all :
    (header : Bytes) (s : Socket)
    → to_option (header_then header s).0 ≡ value_in header s.stream.incoming
header_then-all header s =
    let n = from_be_bytes (byte_at header 1) (byte_at header 2) in
    status_if-all header (receive_value n s) ∙ rw (receive_value-all n s) (ground arith)

header_then-Gets :
    (st : Stream) (o : Result Lost Bytes × Socket)
    → Gets 3 [] st o
    → to_option (continue o header_then).0 ≡ value_in (take 3 st.incoming) (drop 3 st.incoming)
header_then-Gets st (ok b, s) (got, rest) =
    let header : b ≡ take 3 st.incoming = cc in
    header_then-all b s
    ∙ ap (λ h. value_in h s.stream.incoming) header
    ∙ ap (λ (x : Stream). value_in (take 3 st.incoming) x.incoming) rest
header_then-Gets st (err e, s) (got, rest) = absurd cc

nothing_then :
    (o : Result Lost Bytes × Socket) → o.0 ≡ err lost → to_option (continue o header_then).0 ≡ none
nothing_then (ok b, s) h = absurd cc
nothing_then (err e, s) h = refl

pub receive_response-response_in :
    (s : Socket) → to_option (receive_response s).0 ≡ response_in s.stream.incoming
unfolding receive_response
receive_response-response_in s = elim (Bool-cases (ltb (length s.stream.incoming) 3)) [
  | inl short ↦
      nothing_then (recv_exact 3 s) (recv_exact-short 3 s (ltb→lt _ _ short)) ∙ rw short refl
  | inr there ↦
      header_then-Gets s.stream (recv_exact 3 s) (recv_exact-Gets 3 s (ltb→le _ _ there))
      ∙ rw there refl
]

-- After the request, whether it was sent or not.
both_read :
    (w : Result IoError (Unit {0}) × Stream) (s : Socket)
    → to_option (continue (quiet_sent w) (λ u. read_response)).0
      ≡ c_value (to_option (continue (sent_in w s) (λ u. receive_response)).0)
both_read (err e, st) s = refl
both_read (ok u, st) s =
    read_response-response_in st
    ∙ ap c_value (sym (receive_response-response_in (record s { stream = st })))

exchange-exchange :
    (request : Bytes) (s : Socket)
    → to_option (libenvproxy_exchange request s.stream).0
      ≡ c_value (to_option (exchange request s).0)
unfolding exchange libenvproxy_exchange sendall
exchange-exchange request s = both_read (write_all request s.stream) s

pub request_of-encode_query :
    (key : Bytes) (current_value : Option Bytes)
    → request_of key current_value ≡ encode_query key current_value
unfolding request_of encode_query encode_request encode_request_v2 encode_request_versioned
request_of-encode_query key none = ground arith
request_of-encode_query key (some v) = ground arith

-- The connection as libenvproxy sees it: one that is read until the buffer is full.
abbrev pub streams : (Bytes → Result IoError Socket) → Bytes → Result IoError Stream
streams connect path = elim (connect path) [ err e ↦ err e | ok s ↦ ok s.stream ]

-- What each of the two makes of a connection.
abbrev libenvproxy_at : Bytes → Result IoError Stream → Option Bytes
libenvproxy_at encoded (err e) = none
libenvproxy_at encoded (ok st) = to_option (libenvproxy_exchange encoded st).0

abbrev hook_at : Bytes → Result IoError Socket → Option Bytes
hook_at encoded (err e) = none
hook_at encoded (ok s) = to_option (exchange encoded s).0

query_at-libenvproxy_at :
    (connect : Bytes → Result IoError Stream) (path encoded : Bytes) (st : Statics)
    → (query_at connect path encoded st).0 ≡ libenvproxy_at encoded (connect path)
unfolding query_at
query_at-libenvproxy_at connect path encoded st = ground arith

libenvproxy_at-hook_at :
    (encoded : Bytes) (r : Result IoError Socket)
    → libenvproxy_at encoded (elim r [ err e ↦ err e | ok s ↦ ok s.stream ])
      ≡ c_value (hook_at encoded r)
libenvproxy_at-hook_at encoded (err e) = refl
libenvproxy_at-hook_at encoded (ok s) = exchange-exchange encoded s

asked : (Bytes → Result IoError Socket) → Bytes → Option Bytes → Option Bytes
asked connect path none = none
asked connect path (some encoded) = hook_at encoded (connect path)

query_agent-asked :
    (connect : Bytes → Result IoError Socket) (path key : Bytes) (current_value : Option Bytes)
    → query_agent connect path key current_value
      ≡ asked connect path (encode_query key current_value)
unfolding query_agent asked
query_agent-asked connect path key current_value =
    rw (sym (request_of-encode_query key current_value)) (ground arith)

libenvproxy_query_agent-asked :
    (real_getenv : Option Bytes → Option Bytes) (connect : Bytes → Result IoError Socket)
    (key : Bytes) (current_value : Option Bytes) (st : Statics) (o : Option Bytes)
    → encode_query key current_value ≡ o
    → (libenvproxy_query_agent real_getenv (streams connect) key current_value st).0
      ≡ c_value (asked connect (get_socket_path real_getenv st.socket_path) o)
unfolding libenvproxy_query_agent asked
libenvproxy_query_agent-asked real_getenv connect key current_value st none e = ground arith
libenvproxy_query_agent-asked real_getenv connect key current_value st (some encoded) e =
    let path = get_socket_path real_getenv st.socket_path in
    rw (e, libenvproxy_query_agent)
      (query_at-libenvproxy_at (streams connect) path encoded
          (record st { socket_path = some path })
        ∙ libenvproxy_at-hook_at encoded (connect path))

-- The Python hook sends the same request as libenvproxy.
pub query_agent-query_agent :
    (real_getenv : Option Bytes → Option Bytes) (connect : Bytes → Result IoError Socket)
    (key : Bytes) (current_value : Option Bytes) (st : Statics)
    → (libenvproxy_query_agent real_getenv (streams connect) key current_value st).0
      ≡ c_value (query_agent connect (get_socket_path real_getenv st.socket_path) key current_value)
query_agent-query_agent real_getenv connect key current_value st =
    libenvproxy_query_agent-asked real_getenv connect key current_value st _ refl
    ∙ ap c_value (
        sym (
          query_agent-asked connect (get_socket_path real_getenv st.socket_path) key current_value))
