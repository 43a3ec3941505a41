-- ===== src/EndToEnd/Exchange.antt =====
-- The client's end of a connection that is not broken (`query_agent` of crates/libenvproxy/src/lib.rs), for
-- each response of the server.
use env_proxy.Prelude.{
  ℕ, ◌≡◌, refl, ◌∙◌, inl, inr, [], ◌∷◌, Option, none, some, ok, err, to_option, ltb, if◌then◌else◌,
  arith, length, take_all, ◌/◌, ◌%◌, Option-cases,
}
use env_proxy.Prelude.Bytes.{Bytes, codes}
use env_proxy.Io.{ErrorKind, IoError, Stream}
use env_proxy.Proto.Wire.{
  max_value_len, as_u16, from_be_bytes, encode_response, status_byte, Status, found, not_found,
  error,
}
use env_proxy.Proto.RoundTrip.{be_bytes, from_byte_iff}
use env_proxy.Agent.Backend.{Resolved, to_string}
use env_proxy.Agent.Server.{response_of}
use env_proxy.Client.Getenv.{lift, read_value, read_response, c_string, value_of, exchange}

abbrev closed : IoError
closed = record { kind = ErrorKind.other; message = codes "closed" }

-- An end of a connection that is not broken: what has come in, and how the peer replies.
abbrev pub whole : Bytes → (Bytes → Bytes) → Stream
whole incoming reply = record {
  incoming = incoming;
  sent = [];
  room = none;
  read_error = closed;
  write_error = closed;
  reply = reply;
  ready = ok 0;
}

-- What is delivered of a resolution: a value that a response can carry and a C string can hold.
abbrev pub delivered : Resolved → Option Bytes
delivered (ok (some v)) = if ltb max_value_len (length v) then none else c_string v
delivered (ok none) = none
delivered (err e) = none

abbrev pub or_nothing : Option Bytes → Bytes
or_nothing none = []
or_nothing (some m) = m

read_value_all : (n : ℕ) (s : Stream) → n ≡ length s.incoming → (read_value n s).0 ≡ ok s.incoming
unfolding read_value
read_value_all n s e = ground (arith, take_all n s.incoming)

lift_of : {A : Type 0} (o : Option A) (s : Stream) → to_option (lift o s).0 ≡ o
lift_of none s = refl
lift_of (some a) s = refl

-- A response in full is read for its value.
read_response_all :
    (s : Stream) (status : Status) (hi lo : ℕ) (value : Bytes)
    → s.incoming ≡ status_byte status ∷ hi ∷ lo ∷ value
    → from_be_bytes hi lo ≡ length value
    → to_option (read_response s).0 ≡ value_of status value
unfolding read_response
read_response_all s status hi lo value e len = ground (
  arith,
  read_value_all (from_be_bytes hi lo) (record s { incoming = value }),
  (from_byte_iff (status_byte status) status).1 refl,
)

exchange-encode_response :
    (encoded message value : Bytes) (status : Status) (reply : Bytes → Bytes)
    → encode_response status value ≡ some message
    → reply encoded ≡ message
    → to_option (exchange encoded (whole [] reply)).0 ≡ value_of status value
unfolding exchange encode_response
exchange-encode_response encoded message value status reply h e =
    let n = as_u16 (length value) in
    read_response_all (record (whole [] reply) { incoming = reply encoded; sent = encoded }) status
      (n / 256) (n % 256) value (ground arith) (be_bytes (length value) (ground arith))

exchange_nothing :
    (encoded : Bytes) (reply : Bytes → Bytes)
    → reply encoded ≡ []
    → to_option (exchange encoded (whole [] reply)).0 ≡ none
unfolding exchange read_response
exchange_nothing encoded reply e = ground arith

pub exchange-response_of :
    (encoded : Bytes) (resolved : Resolved) (reply : Bytes → Bytes)
    → reply encoded ≡ or_nothing (response_of resolved)
    → to_option (exchange encoded (whole [] reply)).0 ≡ delivered resolved
exchange-response_of encoded (ok (some v)) reply e = elim (Option-cases (encode_response found v)) [
  | inl long ↦
      exchange_nothing encoded reply (unfold response_of in ground arith)
      ∙ unfold encode_response in ground arith
  | inr (m, fits) ↦
      exchange-encode_response encoded m v found reply fits (unfold response_of in ground arith)
      ∙ unfold encode_response in ground arith
]
exchange-response_of encoded (ok none) reply e =
    exchange-encode_response encoded (0x01 ∷ 0 ∷ 0 ∷ []) [] not_found reply
      (unfold encode_response in refl) (unfold response_of encode_response in e)
exchange-response_of encoded (err x) reply e =
    elim (Option-cases (encode_response error (to_string x))) [
      | inl long ↦ exchange_nothing encoded reply (unfold response_of in ground arith)
      | inr (m, fits) ↦
          exchange-encode_response encoded m (to_string x) error reply fits
            (unfold response_of in ground arith)
    ]
