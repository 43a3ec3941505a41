-- ===== src/Agent/Server/Refines.antt =====
-- `handle_connection` against `decode_request`: the server reads from the socket, and the protocol
-- crate decodes a buffer, but both take the same bytes for the same request.
use env_proxy.Prelude.{
  ℕ, ◌+◌, ◌-◌, ◌≤◌, ◌<◌, ◌≡◌, ◌≢◌, refl, sym, ◌∙◌, ◌⊎◌, inl, inr, [], ◌∷◌, ◌++◌, ap, ◌/◌, ◌%◌,
  length-append, none, some, ok, err, ◌==◌, if◌then◌else◌, arith, length, take, drop, slice,
  drop-drop, get_or-drop, length-take, length-drop,
}
use native.Mathlib.Decide.{dec_lt}
use env_proxy.Prelude.Bytes.{Bytes, codes}
use env_proxy.Text.Number.{
  decimal, AreDigits, decimal-AreDigits, parse_u64, parse_u64-decimal, length-decimal,
}
use env_proxy.Proto.Reject.{AreHalves, AreHalves-as_u16}
use env_proxy.Proto.Wire.{
  as_u16, encode_response, protocol_v1, protocol_v2, byte_at, from_be_bytes, decode_request,
  decode_value, DecodedRequest, DecodeError,
}
use env_proxy.Proto.RoundTrip.{non_empty}
use env_proxy.Proto.Accept.{value_or_empty}
use env_proxy.Agent.Backend.{Backend}
use env_proxy.Agent.Server.{
  Conn, answer, resolve_request, handle_connection, unsupported, send_response, send,
}
use env_proxy.Agent.Server.Reading.{
  after_reading, at_end, key_len, value_len, handle_v1, handle_v2, handle_unsupported,
  handle_no_header, handle_no_key, handle_no_value,
}

-- The versions that the server answers.
abbrev pub IsSupported : ℕ → Type 0
IsSupported version = (version ≡ protocol_v1) ⊎ (version ≡ protocol_v2)

-- The bytes of a request.
abbrev pub request_size : DecodedRequest → ℕ
request_size r =
    if r.version == protocol_v1
    then 3 + length r.key
    else 3 + length r.key + (2 + length (value_or_empty r.value))

abbrev buf_key_len : Bytes → ℕ
buf_key_len buf = from_be_bytes (byte_at buf 1) (byte_at buf 2)

-- The parts of a buffer that decodes.
decode_parts :
    (buf : Bytes) (r : DecodedRequest)
    → decode_request buf ≡ ok r
    → (r.version ≡ byte_at buf 0)
      × (3 + buf_key_len buf ≤ length buf)
      × (r.key ≡ take (buf_key_len buf) (drop 3 buf))
      × (r.version ≡ protocol_v1 → r.value ≡ none)
unfolding decode_request decode_value
decode_parts buf r h =
    let e : 3 + buf_key_len buf - 3 ≡ buf_key_len buf = omega arith in
    (ground arith, ground arith, ground (arith, e), λ v. ground arith)

-- The value behind the key of a version 2 request.
decode_value_parts :
    (buf : Bytes) (version : ℕ) (key : Bytes) (offset : ℕ) (r : DecodedRequest)
    → decode_value buf version key offset ≡ ok r
    → (2 + from_be_bytes (byte_at (drop offset buf) 0) (byte_at (drop offset buf) 1)
        ≤ length (drop offset buf))
      × (r.value
          ≡ non_empty (
              take
                (from_be_bytes (byte_at (drop offset buf) 0) (byte_at (drop offset buf) 1))
                (drop 2 (drop offset buf))))
unfolding decode_value
decode_value_parts buf version key offset r h =
    let n = from_be_bytes (byte_at (drop offset buf) 0) (byte_at (drop offset buf) 1) in
    let e : offset + 2 + n - (offset + 2) ≡ n = omega arith in
    (
      ground
          (arith, get_or-drop offset 0 buf 0, get_or-drop offset 1 buf 0, length-drop offset buf),
      ground (
        arith,
        e,
        get_or-drop offset 0 buf 0,
        get_or-drop offset 1 buf 0,
        drop-drop offset 2 buf,
      ),
    )

decode_request_v2 :
    (buf : Bytes) (r : DecodedRequest)
    → decode_request buf ≡ ok r
    → byte_at buf 0 ≡ protocol_v2
    → (key : Bytes) × (decode_value buf protocol_v2 key (3 + buf_key_len buf) ≡ ok r)
unfolding decode_request
decode_request_v2 buf r h v = (slice buf 3 (3 + buf_key_len buf), ground arith)

-- Why a buffer with a supported header is refused: the key or the value is cut short.
decode_refused :
    (buf : Bytes) (e : DecodeError)
    → decode_request buf ≡ err e
    → 3 ≤ length buf
    → 3 + buf_key_len buf ≤ length buf
    → (byte_at buf 0 ≢ protocol_v1)
      × (length (drop (3 + buf_key_len buf) buf)
          < 2
            + from_be_bytes
                (byte_at (drop (3 + buf_key_len buf) buf) 0)
                (byte_at (drop (3 + buf_key_len buf) buf) 1))
unfolding decode_request decode_value
decode_refused buf e h three room =
    let off = 3 + buf_key_len buf in
    (
      ground arith,
      ground (arith, get_or-drop off 0 buf 0, get_or-drop off 1 buf 0, length-drop off buf),
    )

value_or_empty-non_empty : (v : Bytes) → value_or_empty (non_empty v) ≡ v
value_or_empty-non_empty [] = refl
value_or_empty-non_empty (x ∷ v) = refl

second : {version : ℕ} → IsSupported version → version ≢ protocol_v1 → version ≡ protocol_v2
second (inl e) n = absurd (n e)
second (inr e) n = e

-- The bytes of the response to a version that is not supported.
unsupported_bytes :
    (v : ℕ)
    → v < 256
    → (digits : Bytes) × (hi lo : ℕ) × AreDigits digits
      × (parse_u64 digits ≡ some v)
      × AreHalves hi lo (length (codes "unsupported protocol version: " ++ digits))
      × (unsupported v ≡ some (2 ∷ hi ∷ lo ∷ (codes "unsupported protocol version: " ++ digits)))
unfolding unsupported encode_response
unsupported_bytes v h =
    let text = codes "unsupported protocol version: " ++ decimal v in
    let size = length-append (codes "unsupported protocol version: ") (decimal v) in
    let short : length text < 65536 = omega (arith, size, length-decimal v) in
    (
      decimal v,
      as_u16 (length text) / 256,
      as_u16 (length text) % 256,
      decimal-AreDigits v,
      parse_u64-decimal v (omega arith),
      AreHalves-as_u16 (length text) (λ long. omega (arith, long, short)),
      ground (arith, short),
    )

module _ {S : Type 0} (b : Backend S) (c : Conn S) where
  -- An empty value is treated as no value.
  answer-non_empty :
      (key value : Bytes) (c' : Conn S)
      → answer b key (some value) c' ≡ answer b key (non_empty value) c'
  unfolding answer resolve_request
  answer-non_empty key [] c' = refl
  answer-non_empty key (x ∷ value) c' = refl

  -- What `decode_request` reads from the incoming bytes as a supported request is what the server
  -- answers, having read exactly the bytes of that request.
  pub handle_connection-decode_request :
      (r : DecodedRequest)
      → decode_request c.stream.incoming ≡ ok r
      → IsSupported r.version
      → handle_connection b c ≡ answer b r.key r.value (after_reading (request_size r) c)
  handle_connection-decode_request r h (inl v) =
      let inc = c.stream.incoming in
      let (version, room, key, value) = decode_parts inc r h in
      let none_there : r.value ≡ none = value v in
      ground (
        arith,
        handle_v1 b c (sym version ∙ v) room,
        length-take (key_len c) (drop 3 inc),
        length-drop 3 inc,
      )
  handle_connection-decode_request r h (inr v) =
      let inc = c.stream.incoming in
      let (version, room, key, value) = decode_parts inc r h in
      let (k, decoded) = decode_request_v2 inc r h (sym version ∙ v) in
      let off = 3 + key_len c in
      let c' = after_reading off c in
      let (more, found) = decode_value_parts inc protocol_v2 k off r decoded in
      let val = take (value_len c') (drop 2 (drop off inc)) in
      ground (
        arith,
        handle_v2 b c (sym version ∙ v) room more,
        length-take (key_len c) (drop 3 inc),
        length-drop 3 inc,
        length-drop off inc,
        length-drop 2 (drop off inc),
        length-take (value_len c') (drop 2 (drop off inc)),
        value_or_empty-non_empty val,
        answer-non_empty r.key val (after_reading (2 + value_len c') c'),
        drop-drop off (2 + value_len c') inc,
      )

  -- Where `decode_request` finds too few bytes, and a header that is there has a supported version,
  -- the handler stops with the error of the read; nothing is sent and the backend is not called.
  pub handle_connection-incomplete :
      (e : DecodeError)
      → decode_request c.stream.incoming ≡ err e
      → (3 ≤ length c.stream.incoming → IsSupported (byte_at c.stream.incoming 0))
      → handle_connection b c ≡ (err c.stream.read_error, at_end c)
  handle_connection-incomplete e h v = elim (dec_lt (length inc) 3) [
    | yes short ↦ handle_no_header b c short
    | no long ↦ elim (dec_lt (length inc) (3 + key_len c)) [
      | yes short ↦ handle_no_key b c (v (omega arith)) (omega arith) short
      | no there ↦
          let (not_v1, short) = decode_refused inc e h (omega arith) (omega arith) in
          handle_no_value b c (second (v (omega arith)) not_v1) (omega arith) short
    ]
  ]
    where
      inc : Bytes
      inc = c.stream.incoming

  -- A header of three bytes whose version is a byte other than 1 and 2 gets the response with the
  -- status 2, the length of the text in two bytes, the high one first, and the text `unsupported
  -- protocol version: ` followed by digits that read as the version; only the header is read and the
  -- backend is not called.
  pub handle_connection-unsupported :
      3 ≤ length c.stream.incoming
      → byte_at c.stream.incoming 0 < 256
      → ¬ IsSupported (byte_at c.stream.incoming 0)
      → (digits : Bytes) × (hi lo : ℕ) × AreDigits digits
        × (parse_u64 digits ≡ some (byte_at c.stream.incoming 0))
        × AreHalves hi lo (length (codes "unsupported protocol version: " ++ digits))
        × (handle_connection b c
            ≡ send
                (2 ∷ hi ∷ lo ∷ (codes "unsupported protocol version: " ++ digits))
                (after_reading 3 c))
  handle_connection-unsupported h byte n =
      let (digits, hi, lo, are, read, says, e) =
        unsupported_bytes (byte_at c.stream.incoming 0) byte in
      (
        digits,
        hi,
        lo,
        are,
        read,
        says,
        handle_unsupported b c h (λ e. n (inl e)) (λ e. n (inr e))
            ∙ ap (λ m. send_response m (after_reading 3 c)) e,
      )
