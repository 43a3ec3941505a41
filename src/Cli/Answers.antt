-- ===== src/Cli/Answers.antt =====
-- What the commands make of the agent's response, and of a part of it.
use env_proxy.Prelude.{
  ℕ, ◌+◌, ◌≡◌, ◌≤◌, ◌<◌, refl, sym, [], append-nil, none, some, Result, ok, err, ltb, if◌then◌else◌,
  arith, length, take, take_all, min, Bool-cases, inl, inr,
}
use env_proxy.Prelude.Bytes.{Bytes}
use env_proxy.Io.{IoError, Stream}
use env_proxy.Proto.Wire.{
  Status, encode_request, encode_response, decode_response, max_value_len, incomplete,
}
use env_proxy.Proto.RoundTrip.{decode_response-encode_response}
use env_proxy.Proto.Reject.{decode_response-prefix}
use env_proxy.Cli.{
  decode_failed, of_decoded, read_answer, send_query, connect_and_send, query_agent,
}

-- A response is as long as its header and its value.
length-encode_response :
    (status : Status) (value message : Bytes)
    → encode_response status value ≡ some message
    → (length message ≡ 3 + length value) × (length value ≤ max_value_len)
unfolding encode_response
length-encode_response status value message h = (ground arith, ground arith)

-- A buffer with the first bytes of a response is that response if it has all of them.
decode_response-take :
    (status : Status) (value message : Bytes) (k : ℕ)
    → encode_response status value ≡ some message
    → of_decoded (decode_response (take (min k (3 + max_value_len)) message)) ≡ (
        if ltb k (length message)
        then err (decode_failed incomplete)
        else ok (record { status = status; value = value }))
unfolding of_decoded
decode_response-take status value message k h =
    let (size, fits) = length-encode_response status value message h in
    elim (Bool-cases (ltb k (length message))) [
      | inl short ↦
          let lt : min k (3 + max_value_len) < length message = ground arith in
          rw (short, decode_response-prefix status value message (min k (3 + max_value_len)) h lt)
            refl
      | inr whole ↦
          let le : length message ≤ min k (3 + max_value_len) = ground arith in
          rw
            (
              whole,
              take_all (min k (3 + max_value_len)) message le,
              sym (append-nil message),
              decode_response-encode_response status value message [] h,
            )
            refl
    ]

send_query-answered :
    (encoded message : Bytes) (stream : Stream) (k : ℕ)
    → stream.incoming ≡ []
    → stream.room ≡ none
    → stream.reply encoded ≡ message
    → stream.ready ≡ ok k
    → send_query encoded stream
      ≡ of_decoded (decode_response (take (min k (3 + max_value_len)) message))
unfolding send_query read_answer
send_query-answered encoded message stream k none_in room reply ready = ground arith

-- An agent at the socket that takes the whole request and sends a response: the single `read` of
-- `query_agent` gives the response if it finds all its bytes, and else an error, though the rest may
-- be on its way.
pub query_agent-encode_response :
    (connect : Bytes → Result IoError Stream) (key socket encoded value message : Bytes)
    (status : Status) (stream : Stream) (k : ℕ)
    → encode_request key ≡ some encoded
    → encode_response status value ≡ some message
    → connect socket ≡ ok stream
    → stream.incoming ≡ []
    → stream.room ≡ none
    → stream.reply encoded ≡ message
    → stream.ready ≡ ok k
    → query_agent connect key socket ≡ (
        if ltb k (length message)
        then err (decode_failed incomplete)
        else ok (record { status = status; value = value }))
unfolding query_agent connect_and_send
query_agent-encode_response connect key socket encoded value message status stream k sent h at
      none_in room reply ready =
    rw
      (
        sent,
        query_agent,
        at,
        connect_and_send,
        send_query-answered encoded message stream k none_in room reply ready,
      )
      (decode_response-take status value message k h)
