-- ===== src/Agent/Server.antt =====
-- crates/envproxy-agent/src/server.rs: `handle_connection`, one request on one connection.
pub mod Reading
pub mod Refines
pub mod Run
pub mod Bind
use env_proxy.Prelude.{
  ℕ, [], ◌++◌, Option, none, some, ok, err, not, ◌&&◌, ltb, ◌==◌, if◌then◌else◌,
}
use env_proxy.Prelude.Bytes.{Bytes, codes, is_empty}
use env_proxy.Prelude.Bytes.Search.{starts_with}
use env_proxy.Prelude.Action.{Action, pure, ◌>>=◌}
use env_proxy.Text.Number.{decimal}
use env_proxy.Text.Utf8.{from_utf8_lossy}
use env_proxy.Io.{IoError, Stream, read_exact, write_all}
use env_proxy.Proto.Wire.{
  protocol_v1, protocol_v2, vault_prefix, from_be_bytes, byte_at, encode_response, found, not_found,
  error,
}
use env_proxy.Agent.Backend.{Backend, Resolved, to_string}

-- A connection, and the state of the backend that all connections share.
pub record Conn (S : Type 0) : Type 0 where
  pub stream : Stream
  pub shared : S

abbrev pub Handler : Type 0 → Type 0 → Type 0
Handler S A = Action (Conn S) IoError A

module _ {S : Type 0} where
  unfoldable pub receive : ℕ → Handler S Bytes
  receive n c =
      let (r, stream) = read_exact n c.stream in (r, record { stream = stream; shared = c.shared })

  unfoldable pub send : Bytes → Handler S (Unit {0})
  send message c =
      let (r, stream) = write_all message c.stream in
      (r, record { stream = stream; shared = c.shared })

  -- A buffer of `n` bytes, read unless `n` is 0.
  unfoldable pub receive_buffer : ℕ → Handler S Bytes
  unfolding receive
  receive_buffer n = if ltb 0 n then receive n else pure []

  -- A response that could not be encoded is not sent.
  abbrev pub send_response : Option Bytes → Handler S (Unit {0})
  send_response none = pure tt
  send_response (some message) = send message

  -- The value of a version 2 request.
  unfoldable pub receive_value : ℕ → Handler S (Option Bytes)
  unfolding receive_buffer
  receive_value version =
      if version == protocol_v2
      then (do
        val_header ← receive 2
        buf ← receive_buffer (from_be_bytes (byte_at val_header 0) (byte_at val_header 1))
        pure (some buf))
      else pure none

  -- Which method of the backend is called.
  unfoldable pub resolve_request : Backend S → Bytes → Option Bytes → S → Resolved × S
  resolve_request backend key_buf none = backend.resolve (from_utf8_lossy key_buf)
  resolve_request backend key_buf (some val) =
      if not (is_empty val)
      then (if starts_with vault_prefix (from_utf8_lossy val)
          then backend.resolve_with_value (from_utf8_lossy key_buf) (from_utf8_lossy val)
          else backend.resolve (from_utf8_lossy key_buf))
      else backend.resolve (from_utf8_lossy key_buf)

unfoldable pub response_of : Resolved → Option Bytes
response_of (ok (some value)) = encode_response found value
response_of (ok none) = encode_response not_found []
response_of (err e) = encode_response error (to_string e)

unfoldable pub unsupported : ℕ → Option Bytes
unsupported version =
    encode_response error (codes "unsupported protocol version: " ++ decimal version)

module _ {S : Type 0} where
  -- The call of the backend and the response.
  unfoldable pub answer : Backend S → Bytes → Option Bytes → Handler S (Unit {0})
  answer backend key_buf value_buf c =
      let (resolved, shared) = resolve_request backend key_buf value_buf c.shared in
      send_response (response_of resolved) (record { stream = c.stream; shared = shared })

  unfoldable pub handle_connection : Backend S → Handler S (Unit {0})
  handle_connection backend = do
    header ← receive 3
    let version = byte_at header 0
    if not (version == protocol_v1) && not (version == protocol_v2)
        then send_response (unsupported version)
        else do
          key_buf ← receive_buffer (from_be_bytes (byte_at header 1) (byte_at header 2))
          value_buf ← receive_value version
          answer backend key_buf value_buf
