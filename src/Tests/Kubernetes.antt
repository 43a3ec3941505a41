-- ===== src/Tests/Kubernetes.antt =====
-- The theorems on crates/envproxy-agent/src/backend/kubernetes.rs at concrete inputs.
use env_proxy.Prelude.Bytes.{beq}
use env_proxy.Prelude.{refl, List, [], ◌∷◌, some, Result, ok, err}
use env_proxy.Prelude.Bytes.{Bytes, codes}
use env_proxy.Prelude.Map.{get}
use env_proxy.Agent.Kubernetes.{Secret, or_empty, Event, apply, delete}
use env_proxy.Agent.Kubernetes.Watched.{AreDistinct}

-- A key in both maps, and a value that is not UTF-8.
abbrev pub app : Secret
app = record {
  data_bytes = some ((codes "DB", codes "old") ∷ (codes "B", 0xff ∷ []) ∷ []);
  string_data = some ((codes "DB", codes "new") ∷ []);
}

pub data_distinct : AreDistinct (or_empty app.data_bytes)
unfolding get beq
data_distinct = (refl, (refl, tt))

pub string_distinct : AreDistinct (or_empty app.string_data)
unfolding get
string_distinct = (refl, tt)

-- The deletion comes after an error, so that the watcher does not see it.
abbrev pub events : List (Result Bytes Event)
events = ok (apply app) ∷ err (codes "too old") ∷ ok (delete app) ∷ []
