-- ===== src/Proto/RoundTrip.antt =====
-- What the decoders give back of what the encoders write.
use env_proxy.Prelude.{
  ℕ, ◌+◌, ◌-◌, ◌/◌, ◌%◌, ◌≤◌, ◌≡◌, refl, ◌↔◌, append_assoc, [], ◌∷◌, ◌++◌, Option, none, some,
  arith, if◌then◌else◌, ok, length, get_or, take, length-append, take-append_length,
  drop-append_add, get_or-append_length,
}
use env_proxy.Prelude.Bytes.{Bytes, is_empty}
use env_proxy.Proto.Wire.{
  protocol_v1, protocol_v2, max_key_len, as_u16, from_be_bytes, encode_request, encode_request_v2,
  encode_response, decode_request, decode_response, decode_value, from_byte, status_byte, Status,
}

-- A length that was written in two bytes is read back.
pub be_bytes : (n : ℕ) → n ≤ max_key_len → from_be_bytes (as_u16 n / 256) (as_u16 n % 256) ≡ n
be_bytes n h = omega arith

take-length :
    (value rest : Bytes) (k n : ℕ) → n ≡ length value → take (k + n - k) (value ++ rest) ≡ value
take-length value rest k n e =
    let d : k + n - k ≡ length value = omega arith in rw d (take-append_length value rest)

-- A version 1 request decodes to its key, whatever bytes follow it.
pub decode_request-encode_request :
    (key message rest : Bytes)
    → encode_request key ≡ some message
    → decode_request (message ++ rest)
      ≡ ok (record { version = protocol_v1; key = key; value = none })
unfolding decode_request encode_request
decode_request-encode_request key message rest h = ground (
  arith,
  be_bytes (length key),
  take-length key rest 3 (from_be_bytes (as_u16 (length key) / 256) (as_u16 (length key) % 256)),
  length-append key rest,
)

abbrev pub non_empty : Bytes → Option Bytes
non_empty value = if is_empty value then none else some value

pub get_or-append_self : (xs ys : Bytes) → get_or (xs ++ ys) (length xs) 0 ≡ get_or ys 0 0
get_or-append_self [] ys = refl
get_or-append_self (x ∷ xs) ys = get_or-append_self xs ys

module _ (head value rest : Bytes) (hi lo : ℕ) (len : from_be_bytes hi lo ≡ length value) where
  -- The tail of a version 2 request, after its head with the key.
  pub decode_value-tail :
      (version : ℕ) (key : Bytes)
      → decode_value (head ++ hi ∷ lo ∷ (value ++ rest)) version key (length head)
        ≡ ok (record { version = version; key = key; value = non_empty value })
  unfolding decode_value
  decode_value-tail version key = ground (
    arith,
    len,
    get_or-append_self head (hi ∷ lo ∷ (value ++ rest)),
    get_or-append_length head (hi ∷ lo ∷ (value ++ rest)) 1 0,
    drop-append_add head (hi ∷ lo ∷ (value ++ rest)) 2,
    take-length value rest (length head + 2) (from_be_bytes hi lo),
    length-append head (hi ∷ lo ∷ (value ++ rest)),
    length-append value rest,
  )

-- A version 2 request decodes to its key and value, whatever bytes follow it; an empty value
-- decodes to none.
pub decode_request-encode_request_v2 :
    (key value message rest : Bytes)
    → encode_request_v2 key value ≡ some message
    → decode_request (message ++ rest)
      ≡ ok (record { version = protocol_v2; key = key; value = non_empty value })
unfolding decode_request encode_request_v2
decode_request-encode_request_v2 key value message rest h =
    let n = length value in
    let hi = as_u16 n / 256 in
    let lo = as_u16 n % 256 in
    let k = as_u16 (length key) in
    let fits : n ≤ max_key_len = ground arith in
    let tail = hi ∷ lo ∷ (value ++ rest) in
    ground (
      arith,
      be_bytes (length key),
      append_assoc key (hi ∷ lo ∷ value) rest,
      length-append key tail,
      take-length key tail 3 (from_be_bytes (k / 256) (k % 256)),
      decode_value-tail (protocol_v2 ∷ (k / 256) ∷ (k % 256) ∷ key) value rest hi lo
          (be_bytes n fits) protocol_v2 key,
    )

-- A response decodes to its status and value, whatever bytes follow it.
pub decode_response-encode_response :
    (status : Status) (value message rest : Bytes)
    → encode_response status value ≡ some message
    → decode_response (message ++ rest) ≡ ok (record { status = status; value = value })
unfolding decode_response encode_response
decode_response-encode_response status value message rest h = ground (
  arith,
  be_bytes (length value),
  take-length value rest 3
      (from_be_bytes (as_u16 (length value) / 256) (as_u16 (length value) % 256)),
  length-append value rest,
)

-- `from_byte` accepts exactly the bytes of the four statuses, and gives each its own status.
pub from_byte_iff : (b : ℕ) (s : Status) → (from_byte b ≡ some s) ↔ (b ≡ status_byte s)
unfolding from_byte
from_byte_iff b s = (ground arith, ground arith)
