-- ===== src/Agent/Kubernetes.antt =====
-- crates/envproxy-agent/src/backend/kubernetes.rs: the values of one Secret, kept by a watcher.
-- The Kubernetes client and the watcher's stream are parameters: what a get returned, and the events.
pub mod Watched
use env_proxy.Prelude.{
  ℕ, ◌≡◌, refl, ap, sym, ◌∙◌, List, [], ◌∷◌, ◌++◌, Option, none, some, Result, ok, err, Bool, true,
  false, arith, if◌then◌else◌, Option-cases, Bool-cases,
}
use env_proxy.Prelude.Bytes.{Bytes, codes, beq, beq_iff}
use env_proxy.Prelude.Maybe.{◌>>=◌}
use env_proxy.Prelude.Map.{Map, get, insert, get-insert}
use env_proxy.Text.Utf8.{from_utf8}
use env_proxy.Agent.Backend.{
  Backend, BackendError, unavailable, Resolved, default_resolve_with_value,
}

pub record KubernetesBackendConfig : Type 0 where
  pub namespace : Bytes
  pub secret_name : Bytes

-- `Secret`: the decoded bytes under each key of `data`, and `stringData`.
pub record Secret : Type 0 where
  pub data_bytes : Option (Map Bytes)
  pub string_data : Option (Map Bytes)

-- `result.insert` for one value of `data`, unless it is not UTF-8.
unfoldable pub insert_text : Bytes → Option Bytes → Map Bytes → Map Bytes
insert_text key none result = result
insert_text key (some s) result = insert key s result

-- The loop over `data`.
unfoldable pub insert_decoded : Map Bytes → Map Bytes → Map Bytes
insert_decoded [] result = result
insert_decoded ((key, value) ∷ entries) result =
    insert_decoded entries (insert_text key (from_utf8 value) result)

-- The loop over `string_data`.
unfoldable pub insert_all : Map Bytes → Map Bytes → Map Bytes
insert_all [] result = result
insert_all ((key, value) ∷ entries) result = insert_all entries (insert key value result)

abbrev pub or_empty : Option (Map Bytes) → Map Bytes
or_empty none = []
or_empty (some m) = m

unfoldable pub extract_secret_data : Secret → Map Bytes
extract_secret_data secret =
    insert_all (or_empty secret.string_data) (insert_decoded (or_empty secret.data_bytes) [])

-- `watcher::Event`
pub data Event : Type 0 where
  apply init_apply delete : Secret → Event
  init init_done : Event

-- One event, on the data of the cache.
unfoldable pub handle_event : Event → Map Bytes → Map Bytes
handle_event (apply secret) c = extract_secret_data secret
handle_event (init_apply secret) c = extract_secret_data secret
handle_event (delete secret) c = []
handle_event init c = c
handle_event init_done c = c

-- The task of the watcher: it ends with the stream, or at the first error in it.
unfoldable pub watch : List (Result Bytes Event) → Map Bytes → Map Bytes
watch [] c = c
watch (err e ∷ events) c = c
watch (ok event ∷ events) c = watch events (handle_event event c)

-- The cache that `new` starts with.
unfoldable pub initial : Result Bytes Secret → Map Bytes
initial (ok secret) = extract_secret_data secret
initial (err e) = []

-- `KubernetesBackend::new`, from the client, if there is one, and its `get` in a namespace.
unfoldable pub new :
    {Client : Type 0}
    → Result Bytes Client
    → (Client → Bytes → Bytes → Result Bytes Secret)
    → KubernetesBackendConfig
    → Result BackendError (Map Bytes)
new (err e) get_secret config = err (unavailable (codes "k8s client error: " ++ e))
new (ok client) get_secret config =
    ok (initial (get_secret client config.namespace config.secret_name))

unfoldable pub resolve : Bytes → Map Bytes → Resolved × Map Bytes
resolve key c = (ok (get key c), c)

abbrev pub kubernetes_backend : Backend (Map Bytes)
kubernetes_backend = record {
  resolve = resolve;
  resolve_with_value = default_resolve_with_value resolve;
}
