-- ===== src/Cli.antt =====
-- crates/envproxy-cli/src/main.rs: the query of the agent, `get` and `status`.
-- The connection to a socket is a parameter. Error texts are values of `CliError`.
pub mod Answers
pub mod Run
pub mod Init
pub mod Main
use env_proxy.Prelude.{ℕ, ◌+◌, [], ◌∷◌, ◌++◌, Option, none, some, Result, ok, err}
use env_proxy.Prelude.Bytes.{Bytes, codes}
use env_proxy.Text.Utf8.{from_utf8_lossy}
use env_proxy.Io.{IoError, Stream, read, write_all}
use env_proxy.Proto.Wire.{
  Status, found, not_found, error, passthrough, encode_request, decode_response, max_value_len,
  DecodedResponse, DecodeError, to_string as decode_error_to_string,
}

-- The contexts of the errors of `query_agent`.
pub data CliError : Type 0 where
  key_too_long : CliError
  connect_failed send_failed read_failed : IoError → CliError
  decode_failed : DecodeError → CliError

-- What a command writes, and its exit status.
pub record Outcome : Type 0 where
  pub stdout : Bytes
  pub stderr : Bytes
  pub exit : ℕ

unfoldable pub of_decoded : Result DecodeError DecodedResponse → Result CliError DecodedResponse
of_decoded (ok response) = ok response
of_decoded (err e) = err (decode_failed e)

-- The answer: what a single `read` finds.
unfoldable pub read_answer : Stream → Result CliError DecodedResponse
read_answer stream = elim (read (3 + max_value_len) stream).0 [
  | err e ↦ err (read_failed e)
  | ok buf ↦ of_decoded (decode_response buf)
]

unfoldable pub send_query : Bytes → Stream → Result CliError DecodedResponse
send_query encoded stream = elim (write_all encoded stream).0 [
  | err e ↦ err (send_failed e)
  | ok u ↦ read_answer (write_all encoded stream).1
]

-- A line that `println!` or `eprintln!` writes.
abbrev pub line : Bytes → Bytes
line s = s ++ 10 ∷ []

abbrev pub failed : Bytes → Outcome
failed message = record { stdout = []; stderr = line message; exit = 1 }

-- The text of an error, without its causes.
unfoldable pub to_string : Bytes → CliError → Bytes
to_string socket key_too_long = codes "key too long"
to_string socket (connect_failed e) =
    codes "failed to connect to agent at " ++ from_utf8_lossy socket
to_string socket (send_failed e) = codes "failed to send request"
to_string socket (read_failed e) = codes "failed to read response"
to_string socket (decode_failed e) = codes "decode error: " ++ decode_error_to_string e

abbrev not_running : Bytes → CliError → Bytes
not_running socket e =
    codes "agent is NOT running at "
    ++ (from_utf8_lossy socket ++ (codes ": " ++ to_string socket e))

unfoldable pub report : Bytes → DecodedResponse → Outcome
report key response = elim response.status [
  | found ↦ record { stdout = line (from_utf8_lossy response.value); stderr = []; exit = 0 }
  | not_found ↦ failed (codes "key not found: " ++ key)
  | error ↦ failed (codes "error: " ++ from_utf8_lossy response.value)
  | passthrough ↦ failed (codes "passthrough: key " ++ (key ++ codes " is not intercepted"))
]

module _ (connect : Bytes → Result IoError Stream) where
  unfoldable pub connect_and_send : Bytes → Bytes → Result CliError DecodedResponse
  connect_and_send encoded socket = elim (connect socket) [
    | err e ↦ err (connect_failed e)
    | ok stream ↦ send_query encoded stream
  ]

  unfoldable pub query_agent : Bytes → Bytes → Result CliError DecodedResponse
  query_agent key socket = elim (encode_request key) [
    | none ↦ err key_too_long
    | some encoded ↦ connect_and_send encoded socket
  ]

  -- An error is returned to `main`, which exits with it.
  unfoldable pub cmd_get : Bytes → Bytes → Result CliError Outcome
  cmd_get key socket = elim (query_agent key socket) [
    | err e ↦ err e
    | ok response ↦ ok (report key response)
  ]

  -- Whether the agent is running, by any response to a key that is no variable's.
  unfoldable pub cmd_status : Bytes → Outcome
  cmd_status socket = elim (query_agent (codes "__ENVPROXY_PING__") socket) [
    | err e ↦ failed (not_running socket e)
    | ok response ↦ record {
      stdout = line (codes "agent is running at " ++ from_utf8_lossy socket);
      stderr = [];
      exit = 0;
    }
  ]
