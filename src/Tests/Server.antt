-- ===== src/Tests/Server.antt =====
-- The theorems on the start and the tasks of crates/envproxy-agent at concrete inputs.
use env_proxy.Prelude.{
  ℕ, zero, suc, true, ◌≤◌, arith, ◌≡◌, refl, [], ◌∷◌, List, Option, none, some, Result, ok, err,
  arith,
}
use env_proxy.Prelude.Bytes.{Bytes, codes}
use env_proxy.Prelude.Map.{Map}
use env_proxy.Io.{ErrorKind, IoError, Stream}
use env_proxy.Agent.Config.{Document, BackendTable}
use env_proxy.Agent.File.{present}
use env_proxy.Agent.Backend.{Backend}
use env_proxy.Agent.Server.{handle_connection}
use env_proxy.Agent.Server.Run.{
  Choice, accept, accept_fails, go_on, closed, alone, play, System, at_start,
}
use env_proxy.Agent.Server.Run.Progress.{turns, play-answered}
use env_proxy.Agent.Start.{Outside, start}
use env_proxy.Agent.Start.Order.{start-IsStart, IsStart}
use env_proxy.Prelude.{◌*◌, ◌^◌, ◌++◌}
use env_proxy.Agent.Vault.{Cache}
use env_proxy.Agent.Server.Run.Cached.{VaultCall, vault_calls, without_cache, play-uncached}
use env_proxy.Tests.Vault.{store, store-ArePlain, reference}
use env_proxy.Tests.Files.{Files, on_map, on_map-Removes}

-- Every path is in one directory.
abbrev pub parent : Bytes → Option Bytes
parent p = some (codes "/run")

-- A stale socket, and the agent's configuration.
abbrev pub before : Files
before = (codes "/run/agent.sock", []) ∷ (codes "/etc/config.toml", codes "type = file") ∷ []

-- Stands for the TOML parser: every text is a configuration with a file backend.
abbrev from_toml : Bytes → Result Bytes Document
from_toml s = ok (record {
  agent = some (record { socket = some (codes "/run/agent.sock"); log_level = none });
  backend = BackendTable.file (codes "/run/secrets.json");
})

-- Stands for the JSON parser: a text is the value of `DB`.
abbrev pub from_json : Bytes → Result Bytes (Map Bytes)
from_json s = ok ((codes "DB", s) ∷ [])

-- The secrets are in one file, and neither Kubernetes nor Vault is there.
abbrev pub outside : Outside Files (Unit {0}) (Unit {0}) (Unit {0})
outside = record {
  fs = on_map;
  inspect = λ p f. (present 5 (ok (codes "one")), present 5 (ok (codes "one")));
  parent = parent;
  toml_from_str = from_toml;
  json_from_str = from_json;
  kube_client = err (codes "no cluster");
  get_secret = λ client namespace name. err (codes "no cluster");
  vault_settings = λ address token. err (codes "no vault");
  vault_client = λ settings. err (codes "no vault");
  vault_login = λ client mount role jwt. err (codes "no vault");
  var = λ name. none;
}

start-IsStart_example :
    IsStart outside
      (codes "/etc/config.toml")
      before
      (start outside (codes "/etc/config.toml") before)
start-IsStart_example = start-IsStart outside on_map-Removes (codes "/etc/config.toml") before

-- A backend that counts the calls.
abbrev pub counting : Backend ℕ
counting = record {
  resolve = λ key n. (ok (some key), suc n);
  resolve_with_value = λ key value n. (ok (some value), suc n);
}

abbrev broken : IoError
broken = record { kind = ErrorKind.other; message = codes "closed" }

abbrev asking_db : Stream
asking_db = record {
  incoming = 1 ∷ 0 ∷ 2 ∷ codes "DB";
  sent = [];
  room = none;
  read_error = broken;
  write_error = broken;
  reply = λ message. [];
  ready = ok 0;
}

-- Connections that ask for one reference.
abbrev asking_token : Stream
asking_token = record asking_db { incoming = 2 ∷ 0 ∷ 2 ∷ (codes "DB" ++ 0 ∷ 23 ∷ reference) }

-- Two of them, in turns, so that both look into the cache before either stores.
abbrev alternating : ℕ → List Choice
alternating zero = []
alternating (suc n) = go_on 0 n ∷ go_on 1 n ∷ alternating n

abbrev choices : List Choice
choices = accept 0 ∷ accept 1 ∷ accept_fails ∷ alternating 6

abbrev over : System Cache VaultCall
over = play (vault_calls 300 store) choices (at_start (λ i. asking_token) [])

abbrev answered_token : Stream
answered_token = record asking_token { incoming = []; sent = 0 ∷ 0 ∷ 2 ∷ codes "t0" }

is_over : over.tasks 1 ≡ closed (ok tt) answered_token
unfolding native.Mathlib.Decide.ℕ_discrete play env_proxy.Agent.Server.Run.choose
    env_proxy.Agent.Server.Run.advance env_proxy.Agent.Server.Run.accepted
    env_proxy.Agent.Server.Run.after_receive env_proxy.Agent.Server.Run.receive_request
    env_proxy.Agent.Server.receive env_proxy.Agent.Server.receive_buffer
    env_proxy.Agent.Server.receive_value env_proxy.Agent.Server.Run.after_call
    env_proxy.Agent.Server.Run.start_call env_proxy.Prelude.Bytes.Search.starts_with
    env_proxy.Text.Utf8.from_utf8_lossy env_proxy.Agent.Server.Run.Cached.step_call
    env_proxy.Agent.Vault.Tasks.advance env_proxy.Agent.Vault.Tasks.begin
    env_proxy.Proto.VaultRef.parse_vault_ref env_proxy.Agent.Server.response_of
    env_proxy.Agent.Server.send env_proxy.Agent.Vault.Tasks.look env_proxy.Agent.Vault.cache_key
    env_proxy.Agent.Vault.cached env_proxy.Agent.Vault.store_secret
    env_proxy.Prelude.Bytes.Search.find env_proxy.Prelude.Bytes.Search.find_str
    env_proxy.Prelude.Bytes.Search.strip_prefix env_proxy.Prelude.Bytes.beq
    env_proxy.Prelude.Map.get env_proxy.Prelude.Map.insert env_proxy.Proto.VaultRef.assemble
    env_proxy.Proto.VaultRef.parse_key env_proxy.Proto.VaultRef.parse_path
    env_proxy.Proto.Wire.encode_response
is_over = refl

play-uncached_example :
    handle_connection (without_cache store) (alone asking_token) ≡ (ok tt, alone answered_token)
play-uncached_example =
    play-uncached 300 store store-ArePlain (λ i. asking_token) choices 1 (ok tt) answered_token
      is_over

abbrev later : List Choice
later = accept_fails ∷ alternating 6

six_turns : 6 ≤ turns 1 later
unfolding native.Mathlib.Decide.ℕ_discrete
six_turns = omega arith

listening :
    (play (vault_calls 300 store) (accept 0 ∷ []) (at_start (λ i. asking_token) [])).listening
    ≡ true
unfolding play env_proxy.Agent.Server.Run.choose
listening = refl

abbrev whole : System Cache VaultCall
whole = play (vault_calls 300 store) (accept 0 ∷ accept 1 ∷ later) (at_start (λ i. asking_token) [])

play-answered_example :
    whole.tasks 1
    ≡ closed
        (handle_connection (without_cache store) (alone asking_token)).0
        (handle_connection (without_cache store) (alone asking_token)).1.stream
play-answered_example =
    play-answered 300 store store-ArePlain (λ i. asking_token) (accept 0 ∷ []) later 1 listening
      six_turns
