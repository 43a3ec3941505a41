-- ===== src/Support/Python.antt =====
-- support/python/_envproxy_hook.py: the query of the agent, and the proxy of `os.environ`.
-- A `str` is the bytes that `surrogateescape` makes of it, which loses nothing. Times are numbers of
-- one unit. The connection to a path is a parameter.
pub mod Receiving
pub mod Answers
pub mod Environ
pub mod Calls
pub mod Coherence
pub mod Client
use env_proxy.Prelude.{
  ℕ, zero, suc, ◌+◌, ◌-◌, [], ◌∷◌, ◌++◌, Option, none, some, Result, ok, err, Bool, true, false,
  not, ltb, ◌==◌, if◌then◌else◌, length, List, to_option,
}
use env_proxy.Prelude.Bytes.{Bytes, codes, is_empty}
use env_proxy.Prelude.Action.{Action, pure, fail, ◌>>=◌, ◌>>◌}
use env_proxy.Io.{IoError}
use env_proxy.Proto.Wire.{to_be_bytes, from_be_bytes, byte_at}
use env_proxy.Support.Socket.{Socket, Lost, lost, caught, recv, sendall}

abbrev pub protocol_v1 : ℕ
protocol_v1 = 1

abbrev pub protocol_v2 : ℕ
protocol_v2 = 2

abbrev pub status_found : ℕ
status_found = 0x00

abbrev pub default_socket_path : Bytes
default_socket_path = codes "/tmp/envproxy/agent.sock"

-- The request: version 2 with the value, if there is one. `struct.pack` is given lengths that fit.
unfoldable pub request_of : Bytes → Option Bytes → Option Bytes
request_of key_bytes (some val_bytes) =
    if ltb 0xffff (length key_bytes)
    then none
    else if ltb 0xffff (length val_bytes)
    then none
    else some (
        (protocol_v2 ∷ to_be_bytes (length key_bytes))
        ++ (key_bytes ++ (to_be_bytes (length val_bytes) ++ val_bytes)))
request_of key_bytes none =
    if ltb 0xffff (length key_bytes)
    then none
    else some ((protocol_v1 ∷ to_be_bytes (length key_bytes)) ++ key_bytes)

-- The loop of `_recv_exact`, which has `left` bytes to go: every call gets one at least, so that as
-- much fuel suffices.
unfoldable pub recv_loop : ℕ → ℕ → Bytes → Action Socket Lost Bytes
recv_loop fuel zero buf = pure buf
recv_loop zero (suc l) buf = fail lost
recv_loop (suc fuel) (suc l) buf = do
  chunk ← caught (recv (suc l))
  elim (is_empty chunk) [
    | true ↦ fail lost
    | false ↦ recv_loop fuel (suc l - length chunk) (buf ++ chunk)
  ]

-- `_recv_exact`
unfoldable pub recv_exact : ℕ → Action Socket Lost Bytes
recv_exact n = recv_loop n n []

-- The value, if there is one to read.
unfoldable pub receive_value : ℕ → Action Socket Lost Bytes
receive_value val_len = if ltb 0 val_len then recv_exact val_len else pure []

unfoldable pub receive_response : Action Socket Lost Bytes
receive_response = do
  header ← recv_exact 3
  value_bytes ← receive_value (from_be_bytes (byte_at header 1) (byte_at header 2))
  if byte_at header 0 == status_found then pure value_bytes else fail lost

-- The request is sent and answered.
unfoldable pub exchange : Bytes → Action Socket Lost Bytes
exchange request = do caught (sendall request); receive_response

unfoldable pub query_agent :
    (Bytes → Result IoError Socket) → Bytes → Bytes → Option Bytes → Option Bytes
query_agent connect sock_path key current_value = elim (request_of key current_value) [
  | none ↦ none
  | some request ↦ elim (connect sock_path) [
    | err e ↦ none
    | ok s ↦ to_option (exchange request s).0
  ]
]
