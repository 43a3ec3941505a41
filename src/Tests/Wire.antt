-- ===== src/Tests/Wire.antt =====
-- The theorems on crates/envproxy-proto/src/lib.rs at concrete inputs.
use env_proxy.Proto.VaultRef.{parse_key, parse_path}
use env_proxy.Prelude.Bytes.Search.{strip_prefix, find, find_str, starts_with}
use env_proxy.Proto.Wire.{decode_value}
use env_proxy.Prelude.{◌≡◌, refl, [], ◌∷◌, ◌++◌, some, ok, arith}
use env_proxy.Prelude.Bytes.{Bytes, codes}
use env_proxy.Text.Number.{parse_u64}
use env_proxy.Proto.Wire.{
  protocol_v2, encode_request, encode_request_v2, encode_request_versioned, encode_response,
  decode_request, decode_response, found,
}
use env_proxy.Proto.RoundTrip.{decode_request-encode_request_v2, decode_response-encode_response}
use env_proxy.Proto.Accept.{decode_request-IsEncoding, decode_response-IsEncoding}
use env_proxy.Proto.Reject.{encode_request-IsRequest, IsRequest, IsRequestV2}
use env_proxy.Proto.VaultRef.{VaultRef, parse_vault_ref}
use env_proxy.Proto.VaultRef.Laws.{Reads, parse_vault_ref-Reads}

-- The requests for `DB`, alone and with a reference.
abbrev asking : Bytes
asking = 1 ∷ 0 ∷ 2 ∷ codes "DB"

abbrev asking_v2 : Bytes
asking_v2 = 2 ∷ 0 ∷ 2 ∷ b'D' ∷ b'B' ∷ 0 ∷ 9 ∷ codes "vault:a/b"

asking_sent : encode_request (codes "DB") ≡ some asking
unfolding encode_request
asking_sent = refl

asking_v2_sent : encode_request_v2 (codes "DB") (codes "vault:a/b") ≡ some asking_v2
unfolding encode_request_v2
asking_v2_sent = refl

abbrev answering : Bytes
answering = 0 ∷ 0 ∷ 1 ∷ b'x' ∷ []

answering_sent : encode_response found (codes "x") ≡ some answering
unfolding encode_response
answering_sent = refl

decode_request-encode_request_v2_example :
    decode_request (asking_v2 ++ [])
    ≡ ok (record { version = protocol_v2; key = codes "DB"; value = some (codes "vault:a/b") })
decode_request-encode_request_v2_example =
    decode_request-encode_request_v2 (codes "DB") (codes "vault:a/b") asking_v2 [] asking_v2_sent

decode_response-encode_response_example :
    decode_response (answering ++ codes "y") ≡ ok (record { status = found; value = codes "x" })
decode_response-encode_response_example =
    decode_response-encode_response found (codes "x") answering (codes "y") answering_sent

encode_request-IsRequest_example :
    IsRequest (codes "DB") (encode_request (codes "DB"))
    × IsRequestV2 (codes "DB") (codes "v") (encode_request_v2 (codes "DB") (codes "v"))
encode_request-IsRequest_example = encode_request-IsRequest (codes "DB") (codes "v")

decoded :
    decode_request (asking_v2 ++ codes "z")
    ≡ ok (record { version = 2; key = codes "DB"; value = some (codes "vault:a/b") })
unfolding decode_request decode_value
decoded = refl

decode_request-IsEncoding_example :
    (message : Bytes) × (rest : Bytes) × (asking_v2 ++ codes "z" ≡ message ++ rest)
    × (encode_request_versioned 2 (codes "DB") (codes "vault:a/b") ≡ some message)
decode_request-IsEncoding_example =
    decode_request-IsEncoding (asking_v2 ++ codes "z")
      (record { version = 2; key = codes "DB"; value = some (codes "vault:a/b") }) (ground arith)
      decoded

response_decoded :
    decode_response (answering ++ codes "y") ≡ ok (record { status = found; value = codes "x" })
unfolding decode_response
response_decoded = refl

decode_response-IsEncoding_example :
    (message : Bytes) × (rest : Bytes) × (answering ++ codes "y" ≡ message ++ rest)
    × (encode_response found (codes "x") ≡ some message)
decode_response-IsEncoding_example =
    decode_response-IsEncoding (answering ++ codes "y")
      (record { status = found; value = codes "x" }) (ground arith) response_decoded

abbrev app_ref : VaultRef
app_ref = record {
  mount = codes "secret";
  path = codes "app";
  key = codes "TOKEN";
  version = some 3;
}

app_ref_parsed : parse_vault_ref (codes "vault:secret/data/app#TOKEN#3") ≡ some app_ref
unfolding parse_vault_ref parse_u64 strip_prefix find parse_key parse_path find_str starts_with
app_ref_parsed = refl

parse_vault_ref-Reads_example : Reads (codes "vault:secret/data/app#TOKEN#3") app_ref
parse_vault_ref-Reads_example =
    parse_vault_ref-Reads (codes "vault:secret/data/app#TOKEN#3") app_ref app_ref_parsed
