-- ===== src/Proto/Accept.antt =====
-- What `decode_request` and `decode_response` accept: only messages that an encoder writes.
use env_proxy.Prelude.{
  drop-drop, get_or-drop, ℕ, zero, suc, ◌+◌, ◌/◌, ◌%◌, ◌≤◌, ◌<◌, ◌≡◌, refl, subst, inl, inr, [],
  ◌∷◌, ◌++◌, Option, none, some, Bool-cases, false, arith, append_assoc, ◌==◌, ok, length, get_or,
  take, drop, length-take, length-drop, take-append-drop,
}
use env_proxy.Prelude.Bytes.{Bytes}
use env_proxy.Proto.Wire.{
  max_key_len, max_value_len, as_u16, from_be_bytes, to_be_bytes, encode_request_versioned,
  encode_response, DecodedRequest, DecodedResponse, decode_request, decode_response, protocol_v1,
  decode_value,
}
use env_proxy.Proto.RoundTrip.{non_empty}

-- Every number in a buffer is a byte.
abbrev pub AreBytes : Bytes → Type 0
AreBytes [] = Unit {0}
AreBytes (b ∷ s) = (b < 256) × AreBytes s

abbrev pub value_or_empty : Option Bytes → Bytes
value_or_empty none = []
value_or_empty (some v) = v

AreBytes-get_or : (s : Bytes) (i : ℕ) → AreBytes s → get_or s i 0 < 256
AreBytes-get_or [] i h = omega arith
AreBytes-get_or (b ∷ s) zero h = h.0
AreBytes-get_or (b ∷ s) (suc i) h = AreBytes-get_or s i h.1

-- A buffer with two bytes begins with them.
two_bytes : (s : Bytes) → 2 ≤ length s → s ≡ get_or s 0 0 ∷ get_or s 1 0 ∷ drop 2 s
two_bytes [] h = absurd (omega arith)
two_bytes (a ∷ []) h = absurd (omega arith)
two_bytes (a ∷ b ∷ s) h = refl

-- Two bytes are the big-endian form of what they say.
be_of_bytes :
    (hi lo n : ℕ)
    → hi < 256
    → lo < 256
    → n ≡ from_be_bytes hi lo
    → (n ≤ max_key_len) × (as_u16 n / 256 ≡ hi) × (as_u16 n % 256 ≡ lo)
be_of_bytes hi lo n h l e = (omega arith, omega arith, omega arith)

value_or_empty-non_empty : (v : Bytes) → value_or_empty (non_empty v) ≡ v
value_or_empty-non_empty [] = refl
value_or_empty-non_empty (b ∷ v) = refl

-- What `decode_value` reads at the offset is a value behind its length.
record Tail (tail : Bytes) (value : Option Bytes) : Type 0 where
  bytes : Bytes
  rest : Bytes
  split : tail ≡ (to_be_bytes (as_u16 (length bytes)) ++ bytes) ++ rest
  fits : length bytes ≤ max_value_len
  same : value_or_empty value ≡ bytes

decode_value-Tail :
    (buf : Bytes) (version : ℕ) (key : Bytes) (offset : ℕ) (r : DecodedRequest)
    → AreBytes buf
    → decode_value buf version key offset ≡ ok r
    → Tail (drop offset buf) r.value
decode_value-Tail buf version key offset r b h =
    let hi = get_or buf offset 0 in
    let lo = get_or buf (offset + 1) 0 in
    let n = from_be_bytes hi lo in
    let s = drop (offset + 2) buf in
    let room : offset + 2 + n ≤ length buf = unfold decode_value in ground arith in
    let len : length (take n s) ≡ n =
      omega (arith, length-take {0} n s, length-drop {0} (offset + 2) buf) in
    let pair : 2 ≤ length (drop offset buf) = omega (arith, length-drop {0} offset buf) in
    let (fits, be_hi, be_lo) =
      be_of_bytes hi lo (length (take n s)) (AreBytes-get_or buf offset b)
        (AreBytes-get_or buf (offset + 1) b) len in
    record {
      bytes = take n s;
      rest = drop n s;
      split = ground (
        arith,
        take-append-drop n s,
        two_bytes (drop offset buf) pair,
        get_or-drop offset 0 buf 0,
        get_or-drop offset 1 buf 0,
        drop-drop offset 2 buf,
      );
      fits = fits;
      same = unfold decode_value in ground (arith, value_or_empty-non_empty (take n s));
    }

decode_value_keeps :
    (buf : Bytes) (version : ℕ) (key : Bytes) (offset : ℕ) (r : DecodedRequest)
    → decode_value buf version key offset ≡ ok r
    → (r.version ≡ version) × (r.key ≡ key)
unfolding decode_value
decode_value_keeps buf version key offset r h = ground arith

-- A buffer that begins with the encoding of a request.
abbrev pub BeginsWith : Bytes → DecodedRequest → Type 0
BeginsWith buf r =
    (message : Bytes) × (rest : Bytes) × (buf ≡ message ++ rest)
    × (encode_request_versioned r.version r.key (value_or_empty r.value) ≡ some message)

module _ (hi lo n : ℕ) (s : Bytes) (r : DecodedRequest) where
  -- The three parts of a request with a value.
  join_parts :
      (v : ℕ)
      → (v == protocol_v1) ≡ false
      → r.version ≡ v
      → r.key ≡ take n s
      → length (take n s) ≤ max_key_len
      → as_u16 (length (take n s)) / 256 ≡ hi
      → as_u16 (length (take n s)) % 256 ≡ lo
      → Tail (drop n s) r.value
      → BeginsWith (v ∷ hi ∷ lo ∷ s) r
  unfolding encode_request_versioned
  join_parts v other version key fits be_hi be_lo tail =
      let out = to_be_bytes (as_u16 (length tail.bytes)) ++ tail.bytes in
      (
        v ∷ hi ∷ lo ∷ (take n s ++ out),
        tail.rest,
        ground (arith, tail.split, append_assoc (take n s) out tail.rest, take-append-drop n s),
        ground (arith, tail.same, tail.fits),
      )

-- A buffer that a request is read from begins with the encoding of that request.
pub decode_request-IsEncoding :
    (buf : Bytes) (r : DecodedRequest) → AreBytes buf → decode_request buf ≡ ok r → BeginsWith buf r
unfolding decode_request encode_request_versioned
decode_request-IsEncoding [] r b h = ground arith
decode_request-IsEncoding (v ∷ []) r b h = ground arith
decode_request-IsEncoding (v ∷ hi ∷ []) r b h = ground arith
decode_request-IsEncoding (v ∷ hi ∷ lo ∷ s) r b h =
    let n = from_be_bytes hi lo in
    let room : n ≤ length s = ground arith in
    let len : length (take n s) ≡ n = omega (arith, length-take {0} n s) in
    let (fits, be_hi, be_lo) = be_of_bytes hi lo (length (take n s)) b.1.0 b.1.1.0 len in
    elim (Bool-cases (v == protocol_v1)) [
      | inl one ↦
          (v ∷ hi ∷ lo ∷ take n s, drop n s, ground (arith, take-append-drop n s), ground arith)
      | inr other ↦
          let buf = v ∷ hi ∷ lo ∷ s in
          let h' : decode_value buf v (take n s) (3 + n) ≡ ok r = ground arith in
          let (version, key) = decode_value_keeps buf v (take n s) (3 + n) r h' in
          join_parts hi lo n s r v other version key fits be_hi be_lo (
            subst (λ t. Tail t r.value) (drop-drop 3 n buf)
              (decode_value-Tail buf v (take n s) (3 + n) r b h'))
    ]

-- A buffer that a response is read from begins with the encoding of that response.
pub decode_response-IsEncoding :
    (buf : Bytes) (r : DecodedResponse)
    → AreBytes buf
    → decode_response buf ≡ ok r
    → (message : Bytes) × (rest : Bytes) × (buf ≡ message ++ rest)
      × (encode_response r.status r.value ≡ some message)
unfolding decode_response encode_response
decode_response-IsEncoding [] r b h = ground arith
decode_response-IsEncoding (v ∷ []) r b h = ground arith
decode_response-IsEncoding (v ∷ hi ∷ []) r b h = ground arith
decode_response-IsEncoding (v ∷ hi ∷ lo ∷ s) r b h =
    let n = from_be_bytes hi lo in
    let room : n ≤ length s = ground arith in
    let len : length (take n s) ≡ n = omega (arith, length-take {0} n s) in
    let (fits, be_hi, be_lo) = be_of_bytes hi lo (length (take n s)) b.1.0 b.1.1.0 len in
    (v ∷ hi ∷ lo ∷ take n s, drop n s, ground (arith, take-append-drop n s), ground (arith))
