-- ===== src/Tests/Cli.antt =====
-- The theorems on crates/envproxy-cli/src/main.rs at concrete inputs.
use env_proxy.Prelude.{ℕ, ◌*◌, ◌≡◌, refl, [], ◌∷◌, none, some, ok, Bool, leb, arith}
use env_proxy.Prelude.Bytes.{Bytes, codes}
use env_proxy.Io.{ErrorKind, IoError, Stream}
use env_proxy.Proto.Wire.{found, encode_request, encode_response}
use env_proxy.Cli.Run.{Wait, wait}
use env_proxy.Cli.Run.Waiting.{IsEnd, wait-IsEnd}

abbrev closed : IoError
closed = record { kind = ErrorKind.other; message = codes "closed" }

abbrev response : Bytes
response = 0 ∷ 0 ∷ 1 ∷ codes "x"

-- An agent whose response comes in two parts, of which the first has two bytes.
abbrev agent : Stream
agent = record {
  incoming = [];
  sent = [];
  room = none;
  read_error = closed;
  write_error = closed;
  reply = λ message. response;
  ready = ok 2;
}

asking : encode_request (codes "DB") ≡ some (1 ∷ 0 ∷ 2 ∷ codes "DB")
unfolding encode_request
asking = refl

answering : encode_response found (codes "x") ≡ some response
unfolding encode_response
answering = refl

-- The socket appears at the third look; each round takes 101 milliseconds.
abbrev exists_at : ℕ → Bool
exists_at look = leb 3 look

abbrev elapsed : ℕ → ℕ
elapsed look = look * 101

wait-IsEnd_example : (w : Wait) × (wait exists_at elapsed ≡ some w) × IsEnd exists_at elapsed 0 w
wait-IsEnd_example = wait-IsEnd exists_at elapsed (λ i. omega arith)
