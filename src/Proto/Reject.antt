-- ===== src/Proto/Reject.antt =====
-- What the encoders and decoders of crates/envproxy-proto/src/lib.rs refuse.
use env_proxy.Prelude.{
  ℕ, ◌+◌, ◌/◌, ◌%◌, ◌<◌, ◌≡◌, ◌↔◌, ◌*◌, inl, inr, ◌++◌, ◌⊎◌, ◌∷◌, Option, none, some, arith, err,
  length, take, length-append, length-take, get_or-append_length, get_or-take,
}
use native.Mathlib.Decide.{dec_lt}
use env_proxy.Prelude.Bytes.{Bytes}
use env_proxy.Proto.Wire.{
  max_key_len, max_value_len, as_u16, encode_request, encode_request_v2, encode_response,
  decode_request, decode_response, incomplete, Status, protocol_v2, decode_value,
}
use env_proxy.Proto.RoundTrip.{be_bytes, get_or-append_self}

-- Two bytes that say a number, the high byte first.
abbrev pub AreHalves : ℕ → ℕ → ℕ → Type 0
AreHalves hi lo n = (hi < 256) × (lo < 256) × (hi * 256 + lo ≡ n)

-- What a version 1 request for a key is: the key behind its length, if the length is at most 65535.
abbrev pub IsRequest : Bytes → Option Bytes → Type 0
IsRequest key message =
    ((65535 < length key) × (message ≡ none))
    ⊎ ((hi lo : ℕ) × AreHalves hi lo (length key) × (message ≡ some (1 ∷ hi ∷ lo ∷ key)))

-- What a version 2 request for a key and a value is: the two, each behind its length.
abbrev pub IsRequestV2 : Bytes → Bytes → Option Bytes → Type 0
IsRequestV2 key value message =
    (((65535 < length key) ⊎ (65535 < length value)) × (message ≡ none))
    ⊎ ((hi lo hi_value lo_value : ℕ) × AreHalves hi lo (length key)
        × AreHalves hi_value lo_value (length value)
        × (message ≡ some (2 ∷ hi ∷ lo ∷ (key ++ (hi_value ∷ lo_value ∷ value)))))

pub AreHalves-as_u16 : (n : ℕ) → ¬ (65535 < n) → AreHalves (as_u16 n / 256) (as_u16 n % 256) n
AreHalves-as_u16 n h = (omega arith, omega arith, omega arith)

encode_request-IsRequest_alone : (key : Bytes) → IsRequest key (encode_request key)
unfolding encode_request
encode_request-IsRequest_alone key = elim (dec_lt 65535 (length key)) [
  | yes long ↦ inl (long, ground arith)
  | no fits ↦ inr (_, _, AreHalves-as_u16 (length key) fits, ground arith)
]

encode_request_v2-IsRequestV2 :
    (key value : Bytes) → IsRequestV2 key value (encode_request_v2 key value)
unfolding encode_request_v2
encode_request_v2-IsRequestV2 key value = elim (dec_lt 65535 (length key)) [
  | yes long ↦ inl (inl long, ground arith)
  | no fits ↦ elim (dec_lt 65535 (length value)) [
    | yes long ↦ inl (inr long, ground arith)
    | no fits_too ↦ inr (
      _,
      _,
      _,
      _,
      AreHalves-as_u16 (length key) fits,
      AreHalves-as_u16 (length value) fits_too,
      ground arith,
    )
  ]
]

-- A request is its version, the length of the key as two bytes, the high one first, and the key, and
-- in version 2 the length of the value likewise and the value; it is refused where the key, or the
-- value of a version 2 request, is longer than 65535 bytes, and only there.
pub encode_request-IsRequest :
    (key value : Bytes)
    → IsRequest key (encode_request key) × IsRequestV2 key value (encode_request_v2 key value)
encode_request-IsRequest key value =
    (encode_request-IsRequest_alone key, encode_request_v2-IsRequestV2 key value)

pub encode_request-limits :
    (key value : Bytes)
    → ((encode_request key ≡ none) ↔ (max_key_len < length key))
      × ((encode_request_v2 key value ≡ none)
          ↔ ((max_key_len < length key) ⊎ (max_value_len < length value)))
unfolding encode_request encode_request_v2
encode_request-limits key value = ((ground arith, ground arith), (ground arith, ground arith))

-- No proper prefix of a version 1 request is taken for a request.
pub decode_request-prefix :
    (key message : Bytes) (n : ℕ)
    → encode_request key ≡ some message
    → n < length message
    → decode_request (take n message) ≡ err incomplete
unfolding encode_request decode_request
decode_request-prefix key message n h lt = ground (
  arith,
  be_bytes (length key),
  length-take n message,
  get_or-take n 0 message 0,
  get_or-take n 1 message 0,
  get_or-take n 2 message 0,
)

-- No proper prefix of a version 2 request is taken for a request.
pub decode_request-prefix_v2 :
    (key value message : Bytes) (n : ℕ)
    → encode_request_v2 key value ≡ some message
    → n < length message
    → decode_request (take n message) ≡ err incomplete
unfolding encode_request_v2 decode_request decode_value
decode_request-prefix_v2 key value message n h lt =
    let hi = as_u16 (length value) / 256 in
    let lo = as_u16 (length value) % 256 in
    let k = as_u16 (length key) in
    let head = protocol_v2 ∷ (k / 256) ∷ (k % 256) ∷ key in
    ground (
      arith,
      be_bytes (length key),
      be_bytes (length value),
      length-take n message,
      get_or-take n 0 message 0,
      get_or-take n 1 message 0,
      get_or-take n 2 message 0,
      get_or-take n (length head) message 0,
      get_or-take n (length head + 1) message 0,
      get_or-append_self head (hi ∷ lo ∷ value),
      get_or-append_length head (hi ∷ lo ∷ value) 1 0,
      length-append head (hi ∷ lo ∷ value),
    )

-- No proper prefix of a response is taken for a response.
pub decode_response-prefix :
    (status : Status) (value message : Bytes) (n : ℕ)
    → encode_response status value ≡ some message
    → n < length message
    → decode_response (take n message) ≡ err incomplete
unfolding encode_response decode_response
decode_response-prefix status value message n h lt = ground (
  arith,
  be_bytes (length value),
  length-take n message,
  get_or-take n 0 message 0,
  get_or-take n 1 message 0,
  get_or-take n 2 message 0,
)
