-- ===== src/Tests/EndToEnd.antt =====
-- The theorems on libenvproxy and the command line tool against the agent, at concrete inputs.
use env_proxy.Prelude.{
  ◌≤◌, ◌≡◌, refl, subst, [], ◌∷◌, Option, none, some, Result, ok, true, arith, length,
  if◌then◌else◌,
}
use env_proxy.Prelude.Bytes.{Bytes, codes, beq}
use env_proxy.Prelude.Map.{get, insert, remove}
use env_proxy.Text.Utf8.{is_utf8}
use env_proxy.Io.{IoError, Stream}
use env_proxy.Proto.Wire.{max_value_len, encode_request, encode_response}
use env_proxy.Agent.Backend.{Backend}
use env_proxy.Agent.Config.{
  Config, BackendConfig, from_file, parsed, config_of, agent_of, backend_of,
}
use env_proxy.Agent.File.{Disk, present, FileCache, file_backend, new}
use env_proxy.Agent.Server.{response_of}
use env_proxy.Agent.Server.Bind.{bind, create_parent, remove_stale}
use env_proxy.Agent.Start.{of_file, start, load, create_backend, bind_socket}
use env_proxy.Agent.Vault.{vault_backend}
use env_proxy.Agent.Vault.Sound.{IsHeld, empty-IsSound}
use env_proxy.Cli.{cmd_get}
use env_proxy.Client.Getenv.{at_load, getenv, or_real, get_or_init, is_enabled}
use env_proxy.EndToEnd.{to_server}
use env_proxy.EndToEnd.Exchange.{delivered}
use env_proxy.EndToEnd.Backends.{World, IsAsking, getenv-vault}
use env_proxy.EndToEnd.Get.{printed, cmd_get-handle_connection}
use env_proxy.EndToEnd.Start.{getenv-start}
use env_proxy.Agent.Kubernetes.{kubernetes_backend, watch}
use env_proxy.Agent.Kubernetes.Watched.{latest}
use env_proxy.EndToEnd.Kubernetes.{value_in, getenv-watch}
use env_proxy.Tests.Kubernetes.{app, events, data_distinct, string_distinct}
use env_proxy.Tests.Client.{not_own, is_utf8_db}
use env_proxy.Tests.Files.{Files, on_map-Removes}
use env_proxy.Tests.Server.{outside, before, from_json, counting}
use env_proxy.Tests.Vault.{store, store-ArePlain, reference, app_ref, app_ref_parsed, secret}

-- An environment in which one variable is a reference.
abbrev env : Option Bytes → Option Bytes
env none = none
env (some name) = if beq name (codes "DB") then some reference else none

-- A process that asks a server of the backend, behind every path.
abbrev world : {S : Type 0} → Backend S → S → World
world b s = record {
  real_getenv = env;
  connect = λ path. ok (to_server b s);
  key = codes "DB";
  statics = at_load;
}

enabled : get_or_init at_load.enabled (is_enabled env) ≡ true
unfolding is_enabled beq
enabled = refl

is_utf8_reference : is_utf8 reference ≡ true
unfolding is_utf8
is_utf8_reference = refl

there : env (some (codes "DB")) ≡ some reference
unfolding beq
there = refl

is_reference : (v : Bytes) → env (some (codes "DB")) ≡ some v → reference ≡ v
is_reference v h = cc (there, h)

reference_fits : length reference ≤ max_value_len
reference_fits = omega arith

asking : {S : Type 0} (b : Backend S) (s : S) → IsAsking (world b s)
asking b s = record {
  not_own = not_own;
  enabled = enabled;
  key_text = is_utf8_db;
  key_fits = omega arith;
  value_text = λ v h. subst (λ u. is_utf8 u ≡ true) (is_reference v h) is_utf8_reference;
  value_fits = λ v h. subst (λ u. length u ≤ max_value_len) (is_reference v h) reference_fits;
}

abbrev secrets : Bytes
secrets = codes "/run/secrets.json"

abbrev disk : Disk
disk = present 5 (ok (codes "one"))

held : IsHeld store app_ref (codes "t0")
unfolding get beq
held = (secret, refl, refl)

abbrev by_vault : World
by_vault = world (vault_backend 300 store 1 2) []

getenv-vault_example :
    (getenv by_vault.real_getenv by_vault.connect (some (codes "DB")) at_load).0
    ≡ or_real (delivered (ok (some (codes "t0")))) (some reference)
getenv-vault_example =
    getenv-vault by_vault (asking (vault_backend 300 store 1 2) []) store store-ArePlain 300 1 2
      reference (codes "t0") app_ref [] (empty-IsSound store) there app_ref_parsed held
      (λ path. refl)

abbrev serving : Bytes → Result IoError Stream
serving path = ok (record (to_server counting 0) { ready = ok 100 })

sent : encode_request (codes "DB") ≡ some (1 ∷ 0 ∷ 2 ∷ codes "DB")
unfolding encode_request
sent = refl

response : response_of (ok (some (codes "DB"))) ≡ some (0 ∷ 0 ∷ 2 ∷ codes "DB")
unfolding response_of encode_response
response = refl

cmd_get-handle_connection_example :
    cmd_get serving (codes "DB") (codes "/run/agent.sock")
    ≡ ok (printed (codes "DB") (ok (some (codes "DB"))))
cmd_get-handle_connection_example =
    cmd_get-handle_connection counting 0 serving (codes "DB") (codes "/run/agent.sock")
      (1 ∷ 0 ∷ 2 ∷ codes "DB") (0 ∷ 0 ∷ 2 ∷ codes "DB") 100 sent is_utf8_db refl response
      (omega arith)

abbrev config : Config
config = record {
  agent = record { socket = codes "/run/agent.sock"; log_level = codes "info" };
  backend = BackendConfig.file secrets;
}

abbrev loaded : FileCache
loaded = record { entries = (codes "DB", codes "one") ∷ []; last_modified = some 5 }

abbrev after : Files
after = (start outside (codes "/etc/config.toml") before).1

started :
    start outside (codes "/etc/config.toml") before ≡ (ok (config, of_file secrets loaded), after)
unfolding start load create_backend bind_socket bind create_parent remove_stale from_file parsed
    config_of agent_of backend_of new get insert remove beq
started = refl

abbrev by_agent : World
by_agent = world (file_backend secrets from_json) (disk, loaded)

getenv-start_example :
    (getenv by_agent.real_getenv by_agent.connect (some (codes "DB")) at_load).0
    ≡ or_real
        (delivered (ok (get (codes "DB") ((codes "DB", codes "one") ∷ []))))
        (env (some (codes "DB")))
getenv-start_example =
    getenv-start outside by_agent (asking (file_backend secrets from_json) (disk, loaded))
      on_map-Removes (codes "/etc/config.toml") before after config secrets loaded started 5
      (codes "one") ((codes "DB", codes "one") ∷ []) refl refl (λ path. refl)

-- The Secret has the key in both of its maps.
last_news : latest events ≡ some (some app)
unfolding latest
last_news = refl

abbrev by_secret : World
by_secret = world kubernetes_backend (watch events [])

getenv-watch_example :
    (getenv by_secret.real_getenv by_secret.connect (some (codes "DB")) at_load).0
    ≡ or_real (delivered (ok (value_in app (codes "DB")))) (env (some (codes "DB")))
getenv-watch_example =
    getenv-watch by_secret (asking kubernetes_backend (watch events [])) events [] app last_news
      data_distinct string_distinct (λ path. refl)
