-- ===== src/Tests/Agent.antt =====
-- The theorems on crates/envproxy-agent/src/server.rs and backend/file.rs at concrete inputs.
use env_proxy.Proto.Wire.{decode_value}
use env_proxy.Prelude.{
  ℕ, ◌++◌, length, ◌≡◌, refl, inl, inr, [], ◌∷◌, none, some, ok, err, Result, arith,
}
use env_proxy.Text.Number.{AreDigits, parse_u64}
use env_proxy.Proto.Reject.{AreHalves}
use env_proxy.Agent.Server.{send}
use env_proxy.Prelude.Bytes.{Bytes, codes}
use env_proxy.Prelude.Map.{Map, get}
use env_proxy.Io.{ErrorKind, IoError}
use env_proxy.Proto.Wire.{decode_request, DecodedRequest, incomplete}
use env_proxy.Agent.Backend.{Backend}
use env_proxy.Agent.Server.{Conn, answer, handle_connection}
use env_proxy.Agent.Server.Reading.{after_reading, at_end}
use env_proxy.Agent.Server.Refines.{
  handle_connection-decode_request, handle_connection-incomplete, handle_connection-unsupported,
}
use env_proxy.Agent.File.{Disk, present, FileCache, file_backend, done, empty_cache, resolve, new}
use env_proxy.Agent.File.Fresh.{System, run, call, write, Reach, here, next, IsFresh, Reach-IsFresh}
use env_proxy.Agent.File.Quiet.{reload_race}

abbrev path : Bytes
path = codes "/run/secrets.json"

-- Stands for the JSON parser: a text is the value of `DB`, but for the empty text.
abbrev pub from_line : Bytes → Result Bytes (Map Bytes)
from_line [] = err (codes "EOF")
from_line (b ∷ s) = ok ((codes "DB", b ∷ s) ∷ [])

abbrev closed : IoError
closed = record { kind = ErrorKind.other; message = codes "closed" }

abbrev disk : Disk
disk = present 5 (ok (codes "one"))

-- A connection on which the given bytes have come in.
abbrev conn : Bytes → Conn (Disk × FileCache)
conn incoming = record {
  stream = record {
    incoming = incoming;
    sent = [];
    room = none;
    read_error = closed;
    write_error = closed;
    reply = λ message. [];
    ready = ok 0;
  };
  shared = (disk, empty_cache);
}

abbrev backend : Backend (Disk × FileCache)
backend = file_backend path from_line

abbrev request : DecodedRequest
request = record { version = 1; key = codes "DB"; value = none }

asked : decode_request (1 ∷ 0 ∷ 2 ∷ codes "DB!") ≡ ok request
unfolding decode_request
asked = refl

handle_connection-decode_request_example :
    handle_connection backend (conn (1 ∷ 0 ∷ 2 ∷ codes "DB!"))
    ≡ answer backend (codes "DB") none (after_reading 5 (conn (1 ∷ 0 ∷ 2 ∷ codes "DB!")))
handle_connection-decode_request_example =
    handle_connection-decode_request backend (conn (1 ∷ 0 ∷ 2 ∷ codes "DB!")) request asked
      (inl refl)

cut_short : decode_request (2 ∷ 0 ∷ 2 ∷ codes "DB") ≡ err incomplete
unfolding decode_request decode_value
cut_short = refl

handle_connection-incomplete_example :
    handle_connection backend (conn (2 ∷ 0 ∷ 2 ∷ codes "DB"))
    ≡ (err closed, at_end (conn (2 ∷ 0 ∷ 2 ∷ codes "DB")))
handle_connection-incomplete_example =
    handle_connection-incomplete backend (conn (2 ∷ 0 ∷ 2 ∷ codes "DB")) incomplete cut_short
      (λ h. inr refl)

handle_connection-unsupported_example :
    (digits : Bytes) × (hi lo : ℕ) × AreDigits digits
    × (parse_u64 digits ≡ some 9)
    × AreHalves hi lo (length (codes "unsupported protocol version: " ++ digits))
    × (handle_connection backend (conn (9 ∷ 0 ∷ 2 ∷ codes "DB"))
        ≡ send
            (2 ∷ hi ∷ lo ∷ (codes "unsupported protocol version: " ++ digits))
            (after_reading 3 (conn (9 ∷ 0 ∷ 2 ∷ codes "DB"))))
handle_connection-unsupported_example =
    handle_connection-unsupported backend (conn (9 ∷ 0 ∷ 2 ∷ codes "DB")) (omega arith)
      (omega arith) (λ h. elim h [ inl e ↦ omega arith | inr e ↦ omega arith ])

-- One file, an empty cache and no call yet.
abbrev first : System path from_line
first = record { disk = disk; clock = 5; cache = empty_cache; tasks = λ i. done (ok none) }

first-IsFresh : IsFresh path from_line first
first-IsFresh = record { below = omega arith; cached = tt; noted = λ i. tt }

-- A call begins, looks at the time, and then the file is written.
abbrev interleaving : (t : System path from_line) × Reach path from_line first t
interleaving = (
  _,
  next (next (next here (call 0 (codes "DB"))) (run 0)) (write 6 (ok (codes "two")) (omega arith)),
)

Reach-IsFresh_example : IsFresh path from_line interleaving.0
Reach-IsFresh_example = Reach-IsFresh path from_line first-IsFresh interleaving.1

loaded_late :
    new path from_line disk (present 6 (ok (codes "two")))
    ≡ ok (record { entries = (codes "DB", codes "one") ∷ []; last_modified = some 6 })
unfolding new
loaded_late = refl

reload_race_example :
    resolve path from_line
      (present 6 (ok (codes "two")))
      (codes "DB")
      (record { entries = (codes "DB", codes "one") ∷ []; last_modified = some 6 })
    ≡ (
      ok (get (codes "DB") ((codes "DB", codes "one") ∷ [])),
      record { entries = (codes "DB", codes "one") ∷ []; last_modified = some 6 },
    )
reload_race_example =
    reload_race path from_line 5 6 (codes "one") (codes "two") (codes "DB")
      ((codes "DB", codes "one") ∷ [])
      (record { entries = (codes "DB", codes "one") ∷ []; last_modified = some 6 }) refl loaded_late
