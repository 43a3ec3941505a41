-- ===== src/EndToEnd/Kubernetes.antt =====
-- libenvproxy against the server with the Kubernetes backend.
use env_proxy.Prelude.{◌≡◌, refl, ap, ◌∙◌, List, Option, none, some, Result, ok, arith}
use env_proxy.Prelude.Bytes.{Bytes}
use env_proxy.Prelude.Maybe.{◌>>=◌}
use env_proxy.Prelude.Map.{Map, get}
use env_proxy.Text.Utf8.{from_utf8}
use env_proxy.Agent.Kubernetes.{Secret, Event, or_empty, watch, resolve, kubernetes_backend}
use env_proxy.Agent.Kubernetes.Watched.{
  AreDistinct, first_of, latest, held, watch-latest, get-extract_secret_data,
}
use env_proxy.Client.Getenv.{or_real, getenv}
use env_proxy.EndToEnd.{asked}
use env_proxy.EndToEnd.Exchange.{delivered}
use env_proxy.EndToEnd.Backends.{World, IsAsking, IsServed, answered}

asked-kubernetes :
    (c : Map Bytes) (key : Bytes) (real : Option Bytes)
    → asked kubernetes_backend c key real ≡ ok (get key c)
unfolding resolve
asked-kubernetes c key none = refl
asked-kubernetes c key (some v) = ground arith

-- The value of a key of a Secret: in `stringData`, or else in `data` if it is UTF-8.
abbrev pub value_in : Secret → Bytes → Option Bytes
value_in secret key =
    first_of (get key (or_empty secret.string_data))
      (get key (or_empty secret.data_bytes) >>= from_utf8)

-- For a call that envproxy answers, with the Kubernetes backend behind every socket path,
-- whose watcher has seen some events, of which the last one before the
-- first error of the stream that says anything of the Secret says what it is: `getenv` returns the
-- key's value in this Secret, if a response can carry it and a C string hold it, and else the
-- environment's value. No key stands twice in the Secret's `stringData` or `data`.
pub getenv-watch :
    (w : World)
    → IsAsking w
    → (events : List (Result Bytes Event)) (c : Map Bytes) (secret : Secret)
    → latest events ≡ some (some secret)
    → AreDistinct (or_empty secret.data_bytes)
    → AreDistinct (or_empty secret.string_data)
    → IsServed w kubernetes_backend (watch events c)
    → (getenv w.real_getenv w.connect (some w.key) w.statics).0
      ≡ or_real (delivered (ok (value_in secret w.key))) (w.real_getenv (some w.key))
getenv-watch w asking events c secret last d e served =
    let seen = watch-latest events c ∙ ap (λ news. held news c) last in
    let resolved =
      asked-kubernetes (watch events c) w.key (w.real_getenv (some w.key))
      ∙ ap (λ m. ok (get w.key m)) seen
      ∙ ap ok (get-extract_secret_data secret w.key d e) in
    answered w asking kubernetes_backend (watch events c) served
    ∙ ap (λ r. or_real (delivered r) (w.real_getenv (some w.key))) resolved
