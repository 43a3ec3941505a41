-- ===== src/Support/Socket.antt =====
-- A connected socket that is received from in pieces, as `recv` of Python and `read` of Java do.
use env_proxy.Prelude.{
  ℕ, suc, ◌+◌, min, [], Option, none, some, Result, ok, err, true, false, take, drop,
}
use env_proxy.Prelude.Bytes.{Bytes, is_empty}
use env_proxy.Prelude.Action.{Action}
use env_proxy.Io.{IoError, Stream, write_all}

-- `sizes` says how many bytes more than one each call finds at most, by the number of the call. At the
-- end a call gives no bytes, or an error.
pub record Socket : Type 0 where
  pub stream : Stream
  pub sizes : ℕ → ℕ
  pub calls : ℕ
  pub end_error : Option IoError

abbrev pub at_end : Option IoError → Result IoError Bytes
at_end none = ok []
at_end (some e) = err e

-- What is in the stream once `n` bytes of it were received.
abbrev pub rest_of : Stream → ℕ → Stream
rest_of s n = record s { incoming = drop n s.incoming }

-- How many bytes a call gets.
abbrev pub chunk : Socket → ℕ → ℕ
chunk s n = min n (suc (s.sizes s.calls))

-- A call for at most `n` bytes.
unfoldable pub recv : ℕ → Action Socket IoError Bytes
recv n s = elim (is_empty s.stream.incoming) [
  | true ↦ (at_end s.end_error, s)
  | false ↦ (
    ok (take (chunk s n) s.stream.incoming),
    record s { stream = rest_of s.stream (chunk s n); calls = s.calls + 1 },
  )
]

-- All bytes are sent, or an error ends the call.
unfoldable pub sendall : Bytes → Action Socket IoError (Unit {0})
sendall request s =
    let (r, stream) = write_all request s.stream in (r, record s { stream = stream })

-- What a client has when no value came: an error was caught, or the connection is over.
pub data Lost : Type 0 where
  lost : Lost

abbrev pub caught_in : {A : Type 0} → Result IoError A × Socket → Result Lost A × Socket
caught_in (ok a, s) = (ok a, s)
caught_in (err e, s) = (err lost, s)

-- An error is caught.
abbrev pub caught : {A : Type 0} → Action Socket IoError A → Action Socket Lost A
caught m s = caught_in (m s)
