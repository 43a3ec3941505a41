-- ===== src/Io.antt =====
-- The operating system's part: I/O errors, and one end of a connected Unix socket.
pub mod FileSystem
use env_proxy.Prelude.{
  min, ℕ, [], ◌++◌, Option, none, some, Result, ok, err, Bool, true, ◌-◌, leb, if◌then◌else◌,
  length, take, drop,
}
use mathlib.Core.Option
use env_proxy.Prelude.Bytes.{Bytes}
use env_proxy.Prelude.Action.{Action}

-- `std::io::ErrorKind`, as far as the source tells kinds apart.
pub data ErrorKind : Type 0 where
  not_found other : ErrorKind

pub record IoError : Type 0 where
  pub kind : ErrorKind
  pub message : Bytes

-- `incoming` is what the peer has sent and this end has not read; where it ends, so does the
-- stream, and a further read gets `read_error` (end of file, a timeout, a reset). A write after
-- `room` more bytes gets `write_error`. `reply` is what the peer sends once it has got a message.
-- `ready` is how many bytes a single `read` finds, none at the end of the stream, or its error.
pub record Stream : Type 0 where
  pub incoming : Bytes
  pub sent : Bytes
  pub room : Option ℕ
  pub read_error : IoError
  pub write_error : IoError
  pub reply : Bytes → Bytes
  pub ready : Result IoError ℕ

-- `read_exact` into a buffer of `n` bytes
abbrev pub read_exact : ℕ → Action Stream IoError Bytes
read_exact n s =
    if leb n (length s.incoming)
    then (ok (take n s.incoming), record s { incoming = drop n s.incoming })
    else (err s.read_error, record s { incoming = [] })

-- `read` into a buffer of `n` bytes
abbrev pub read : ℕ → Action Stream IoError Bytes
read n s = elim s.ready [
  | err e ↦ (err e, s)
  | ok k ↦ (ok (take (min k n) s.incoming), record s { incoming = drop (min k n) s.incoming })
]

-- The part of a message that the peer takes.
abbrev pub fitting : Option ℕ → Bytes → Bytes
fitting none message = message
fitting (some k) message = take k message

abbrev pub fits : Option ℕ → Bytes → Bool
fits none message = true
fits (some k) message = leb (length message) k

-- `write_all`
abbrev pub write_all : Bytes → Action Stream IoError (Unit {0})
write_all message s =
    let after = record s {
      sent = s.sent ++ fitting s.room message;
      incoming = s.incoming ++ s.reply (fitting s.room message);
      room = Option.map (λ k. k - length message) s.room;
    } in
    if fits s.room message then (ok tt, after) else (err s.write_error, after)
