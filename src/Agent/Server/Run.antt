-- ===== src/Agent/Server/Run.antt =====
-- `Server::run` of crates/envproxy-agent/src/server.rs: connections are accepted one by one, and the
-- task of each goes on while the others do. A task reads its request, calls the backend, and writes
-- its response. A call goes on from one await point of the backend to the next, and other tasks may go
-- on in between; a task's reads and its writes are one step each, as its stream is its own.
pub mod Phases
pub mod Right
pub mod Cached
pub mod Progress
use env_proxy.Prelude.{
  ℕ, zero, suc, List, [], ◌∷◌, Option, none, some, Result, ok, err, Bool, true, false, not, ◌&&◌,
  ◌==◌, if◌then◌else◌,
}
use mathlib.Core.Logic.{ite}
use native.Mathlib.Decide.{ℕ_discrete}
use env_proxy.Prelude.Bytes.{Bytes, is_empty}
use env_proxy.Prelude.Action.{pure, ◌>>=◌}
use env_proxy.Io.{IoError, Stream}
use env_proxy.Proto.Wire.{vault_prefix, protocol_v1, protocol_v2, from_be_bytes, byte_at}
use env_proxy.Agent.Backend.{Resolved}
use env_proxy.Prelude.Bytes.Search.{starts_with}
use env_proxy.Text.Utf8.{from_utf8_lossy}
use env_proxy.Agent.Server.{
  Conn, Handler, receive, receive_buffer, receive_value, send_response, response_of, unsupported,
}

-- A request that was read.
pub data Request : Type 0 where
  unknown : (version : ℕ) → Request
  asking : (key_buf : Bytes) → (value_buf : Option Bytes) → Request

-- `handle_connection` up to the call of the backend.
unfoldable pub receive_request : {S : Type 0} → Handler S Request
receive_request = do
  header ← receive 3
  let version = byte_at header 0
  if not (version == protocol_v1) && not (version == protocol_v2)
      then pure (unknown version)
      else do
        key_buf ← receive_buffer (from_be_bytes (byte_at header 1) (byte_at header 2))
        value_buf ← receive_value version
        pure (asking key_buf value_buf)

-- A backend whose calls are tasks `C` over the state `S` that they share: how a call of each method
-- starts, a step of a call at a time, and the answer of a call that is over.
pub record Calls (S C : Type 0) : Type 0 where
  pub resolve : Bytes → C
  pub resolve_with_value : Bytes → Bytes → C
  pub step : ℕ → C → S → C × S
  pub answered : C → Option Resolved

-- Where a connection stands: not accepted yet, accepted, in a call of the backend, about to be
-- answered, or over.
pub data Task (C : Type 0) : Type 0 where
  queued waiting : Stream → Task C
  calling : C → Stream → Task C
  replying : Option Bytes → Stream → Task C
  closed : Result IoError (Unit {0}) → Stream → Task C

-- A stream for itself, and what is left of it.
abbrev pub alone : Stream → Conn (Unit {0})
alone stream = record { stream = stream; shared = tt }

module _ {S C : Type 0} (calls : Calls S C) where
  -- Which method of the backend is called.
  unfoldable pub start_call : Bytes → Option Bytes → C
  start_call key_buf none = calls.resolve (from_utf8_lossy key_buf)
  start_call key_buf (some val) =
      if not (is_empty val)
      then (if starts_with vault_prefix (from_utf8_lossy val)
          then calls.resolve_with_value (from_utf8_lossy key_buf) (from_utf8_lossy val)
          else calls.resolve (from_utf8_lossy key_buf))
      else calls.resolve (from_utf8_lossy key_buf)

  unfoldable pub after_receive : Result IoError Request × Conn (Unit {0}) → Task C
  after_receive (err e, c) = closed (err e) c.stream
  after_receive (ok (unknown version), c) = replying (unsupported version) c.stream
  after_receive (ok (asking key_buf value_buf), c) = calling (start_call key_buf value_buf) c.stream

  -- A call that is over is answered; any other makes a step.
  unfoldable pub after_call : ℕ → Option Resolved → C → Stream → S → Task C × S
  after_call now none call stream s =
      let (call', s') = calls.step now call s in (calling call' stream, s')
  after_call now (some resolved) call stream s = (replying (response_of resolved) stream, s)

  unfoldable pub advance : ℕ → Task C → S → Task C × S
  advance now (queued stream) s = (queued stream, s)
  advance now (waiting stream) s = (after_receive (receive_request (alone stream)), s)
  advance now (calling call stream) s = after_call now (calls.answered call) call stream s
  advance now (replying response stream) s =
      let (r, c) = send_response response (alone stream) in (closed r c.stream, s)
  advance now (closed r stream) s = (closed r stream, s)

-- The server: whether it still accepts, what the tasks share, and the tasks.
pub record System (S C : Type 0) : Type 0 where
  pub listening : Bool
  pub shared : S
  pub tasks : ℕ → Task C

-- What happens next: a connection is accepted, or `accept` fails, which ends `run`, or a task goes on,
-- at a time.
pub data Choice : Type 0 where
  accept : ℕ → Choice
  accept_fails : Choice
  go_on : (i : ℕ) → (now : ℕ) → Choice

abbrev pub update : {C : Type 0} → (ℕ → Task C) → ℕ → Task C → ℕ → Task C
update tasks i t j = ite (ℕ_discrete i j) t (tasks j)

unfoldable pub accepted : {C : Type 0} → Task C → Task C
accepted (queued stream) = waiting stream
accepted (waiting stream) = waiting stream
accepted (calling call stream) = calling call stream
accepted (replying response stream) = replying response stream
accepted (closed r stream) = closed r stream

module _ {S C : Type 0} (calls : Calls S C) where
  unfoldable pub choose : Choice → System S C → System S C
  choose (accept i) sys =
      if sys.listening
      then record sys { tasks = update sys.tasks i (accepted (sys.tasks i)) }
      else sys
  choose accept_fails sys = record sys { listening = false }
  choose (go_on i now) sys =
      let (t, s) = advance calls now (sys.tasks i) sys.shared in
      record sys { shared = s; tasks = update sys.tasks i t }

  unfoldable pub play : List Choice → System S C → System S C
  play [] sys = sys
  play (c ∷ choices) sys = play choices (choose c sys)

-- The server after `bind`, and the connections that will come.
abbrev pub at_start : {S C : Type 0} → (ℕ → Stream) → S → System S C
at_start streams s = record { listening = true; shared = s; tasks = λ i. queued (streams i) }
