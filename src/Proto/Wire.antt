-- ===== src/Proto/Wire.antt =====
-- Messages of crates/envproxy-proto/src/lib.rs: constants, statuses, encoders and decoders.
-- A byte is a number; `u16` values keep their wrap-around.
use env_proxy.Prelude.{
  ℕ, ◌+◌, ◌-◌, ◌*◌, ◌/◌, ◌%◌, ◌^◌, [], ◌∷◌, ◌++◌, Option, none, some, ltb, ◌==◌, if◌then◌else◌,
  Result, ok, err, ok_or, length, get_or, slice, ◌≡◌, refl,
}
use env_proxy.Prelude.Bytes.{Bytes, codes, is_empty}

abbrev pub protocol_v1 : ℕ
protocol_v1 = 1

abbrev pub protocol_v2 : ℕ
protocol_v2 = 2

-- `PROTOCOL_VERSION`
abbrev pub protocol_version : ℕ
protocol_version = protocol_v2

abbrev pub vault_prefix : Bytes
vault_prefix = codes "vault:"

-- `u16::MAX`
abbrev pub max_key_len : ℕ
max_key_len = 2 ^ 16 - 1

abbrev pub max_value_len : ℕ
max_value_len = 2 ^ 16 - 1

abbrev pub default_socket_path : Bytes
default_socket_path = codes "/tmp/envproxy/agent.sock"

pub data Status : Type 0 where
  found not_found error passthrough : Status

-- `status as u8`
abbrev pub status_byte : Status → ℕ
status_byte found = 0x00
status_byte not_found = 0x01
status_byte error = 0x02
status_byte passthrough = 0x03

unfoldable pub from_byte : ℕ → Option Status
from_byte b =
    if b == 0x00
    then some found
    else if b == 0x01
    then some not_found
    else if b == 0x02
    then some error
    else if b == 0x03
    then some passthrough
    else none

-- `n as u16`
abbrev pub as_u16 : ℕ → ℕ
as_u16 n = n % 2 ^ 16

-- `u16::to_be_bytes` and `u16::from_be_bytes`
abbrev pub to_be_bytes : ℕ → Bytes
to_be_bytes n = (n / 256) ∷ (n % 256) ∷ []

abbrev pub from_be_bytes : ℕ → ℕ → ℕ
from_be_bytes hi lo = hi * 256 + lo

unfoldable pub encode_request_versioned : ℕ → Bytes → Bytes → Option Bytes
encode_request_versioned version key value =
    let key_len = length key in
    let val_len = length value in
    if ltb max_key_len key_len
    then none
    else if version == protocol_v1
    then some (version ∷ (to_be_bytes (as_u16 key_len) ++ key))
    else if ltb max_value_len val_len
    then none
    else some (
        version
        ∷ (to_be_bytes (as_u16 key_len) ++ (key ++ (to_be_bytes (as_u16 val_len) ++ value))))

unfoldable pub encode_request : Bytes → Option Bytes
unfolding encode_request_versioned
encode_request key = encode_request_versioned protocol_v1 key []

unfoldable pub encode_request_v2 : Bytes → Bytes → Option Bytes
unfolding encode_request_versioned
encode_request_v2 key value = encode_request_versioned protocol_v2 key value

unfoldable pub encode_response : Status → Bytes → Option Bytes
encode_response status value =
    let val_len = length value in
    if ltb max_value_len val_len
    then none
    else some (status_byte status ∷ (to_be_bytes (as_u16 val_len) ++ value))

pub record DecodedRequest : Type 0 where
  pub version : ℕ
  pub key : Bytes
  pub value : Option Bytes

pub record DecodedResponse : Type 0 where
  pub status : Status
  pub value : Bytes

pub data DecodeError : Type 0 where
  incomplete : DecodeError
  invalid_status : ℕ → DecodeError

-- `buf[i]`, which stands behind a test that `i` is in range wherever it is used.
abbrev pub byte_at : Bytes → ℕ → ℕ
byte_at buf i = get_or buf i 0

-- The second half of `decode_request`, for a buffer that holds the key.
unfoldable pub decode_value : Bytes → ℕ → Bytes → ℕ → Result DecodeError DecodedRequest
decode_value buf version key val_offset =
    let val_len = from_be_bytes (byte_at buf val_offset) (byte_at buf (val_offset + 1)) in
    let value = slice buf (val_offset + 2) (val_offset + 2 + val_len) in
    if ltb (length buf) (val_offset + 2)
    then err incomplete
    else if ltb (length buf) (val_offset + 2 + val_len)
    then err incomplete
    else ok (record {
      version = version;
      key = key;
      value = if is_empty value then none else some value;
    })

unfoldable pub decode_request : Bytes → Result DecodeError DecodedRequest
decode_request buf =
    let version = byte_at buf 0 in
    let key_len = from_be_bytes (byte_at buf 1) (byte_at buf 2) in
    let key = slice buf 3 (3 + key_len) in
    if ltb (length buf) 3
    then err incomplete
    else if ltb (length buf) (3 + key_len)
    then err incomplete
    else if version == protocol_v1
    then ok (record { version = version; key = key; value = none })
    else decode_value buf version key (3 + key_len)

-- The rest of `decode_response`, once the status is known.
unfoldable pub decode_body : Bytes → Status → Result DecodeError DecodedResponse
decode_body buf status =
    let val_len = from_be_bytes (byte_at buf 1) (byte_at buf 2) in
    if ltb (length buf) (3 + val_len)
    then err incomplete
    else ok (record { status = status; value = slice buf 3 (3 + val_len) })

unfoldable pub decode_response : Bytes → Result DecodeError DecodedResponse
unfolding decode_body from_byte
decode_response buf =
    if ltb (length buf) 3
    then err incomplete
    else elim (ok_or (from_byte (byte_at buf 0)) (invalid_status (byte_at buf 0))) [
      | err e ↦ err e
      | ok status ↦ decode_body buf status
    ]

-- A digit of `{:x}`.
abbrev hex_digit : ℕ → ℕ
hex_digit d = if ltb d 10 then 48 + d else 87 + d

-- `to_string`, with `{:#04x}` of a byte
unfoldable pub to_string : DecodeError → Bytes
to_string incomplete = codes "incomplete message: not enough bytes"
to_string (invalid_status b) =
    codes "invalid status byte: 0x" ++ hex_digit (b / 16) ∷ hex_digit (b % 16) ∷ []

to_string_test : to_string (invalid_status 0x0a) ≡ codes "invalid status byte: 0x0a"
unfolding to_string
to_string_test = refl
