-- ===== src/Agent/Kubernetes/Watched.antt =====
-- What the cache of the Kubernetes backend holds: which value a key gets, and from which event.
use env_proxy.Prelude.{
  ◌≡◌, refl, ap, ◌∙◌, List, [], ◌∷◌, Option, none, some, Result, ok, err, arith, if◌then◌else◌,
}
use env_proxy.Prelude.Bytes.{Bytes, beq, beq_iff}
use env_proxy.Prelude.Maybe.{◌>>=◌}
use env_proxy.Prelude.Map.{Map, get, insert, get-insert}
use env_proxy.Text.Utf8.{from_utf8}
use env_proxy.Agent.Kubernetes.{
  Secret, or_empty, insert_text, insert_decoded, insert_all, extract_secret_data, Event, apply,
  init_apply, delete, init, init_done, handle_event, watch,
}

-- No key stands twice, as in a `BTreeMap`.
abbrev pub AreDistinct : Map Bytes → Type 0
AreDistinct [] = Unit {0}
AreDistinct ((k, v) ∷ m) = (get k m ≡ none) × AreDistinct m

abbrev pub first_of : Option Bytes → Option Bytes → Option Bytes
first_of none b = b
first_of (some a) b = some a

first_of-none : (a : Option Bytes) → first_of a none ≡ a
first_of-none none = refl
first_of-none (some a) = refl

get-insert_all :
    (m result : Map Bytes) (k : Bytes)
    → AreDistinct m
    → get k (insert_all m result) ≡ first_of (get k m) (get k result)
unfolding insert_all get
get-insert_all [] result k d = refl
get-insert_all ((j, v) ∷ m) result k d =
    ground (arith, get-insert_all m (insert j v result) k, get-insert j k v result, beq_iff j k)

get-insert_text :
    (j k : Bytes) (o : Option Bytes) (result : Map Bytes)
    → get k (insert_text j o result) ≡ (if beq j k then first_of o (get k result) else get k result)
unfolding insert_text
get-insert_text j k none result = ground arith
get-insert_text j k (some s) result = ground (arith, get-insert j k s result)

get-insert_decoded :
    (m result : Map Bytes) (k : Bytes)
    → AreDistinct m
    → get k (insert_decoded m result) ≡ first_of (get k m >>= from_utf8) (get k result)
unfolding insert_decoded get
get-insert_decoded [] result k d = refl
get-insert_decoded ((j, v) ∷ m) result k d = ground (
  arith,
  get-insert_decoded m (insert_text j (from_utf8 v) result) k,
  get-insert_text j k (from_utf8 v) result,
  beq_iff j k,
)

-- A key gets its value in `stringData`, or else its bytes in `data` if they are UTF-8, or else none;
-- the two maps have no key twice.
pub get-extract_secret_data :
    (secret : Secret) (k : Bytes)
    → AreDistinct (or_empty secret.data_bytes)
    → AreDistinct (or_empty secret.string_data)
    → get k (extract_secret_data secret)
      ≡ first_of
          (get k (or_empty secret.string_data))
          (get k (or_empty secret.data_bytes) >>= from_utf8)
unfolding extract_secret_data get
get-extract_secret_data secret k d e =
    get-insert_all (or_empty secret.string_data) (insert_decoded (or_empty secret.data_bytes) []) k
      e
    ∙ ap (first_of (get k (or_empty secret.string_data)))
        (get-insert_decoded (or_empty secret.data_bytes) [] k d ∙ first_of-none _)

-- What an event says of the Secret: nothing, that it is deleted, or what it is.
abbrev pub news : Event → Option (Option Secret)
news (apply secret) = some (some secret)
news (init_apply secret) = some (some secret)
news (delete secret) = some none
news init = none
news init_done = none

abbrev pub newer : Option (Option Secret) → Option (Option Secret) → Option (Option Secret)
newer none b = b
newer (some a) b = some a

-- The last news before the first error.
unfoldable pub latest : List (Result Bytes Event) → Option (Option Secret)
latest [] = none
latest (err e ∷ events) = none
latest (ok event ∷ events) = newer (latest events) (news event)

abbrev pub held : Option (Option Secret) → Map Bytes → Map Bytes
held none c = c
held (some none) c = []
held (some (some secret)) c = extract_secret_data secret

handle_event-news : (event : Event) (c : Map Bytes) → handle_event event c ≡ held (news event) c
unfolding handle_event
handle_event-news (apply secret) c = refl
handle_event-news (init_apply secret) c = refl
handle_event-news (delete secret) c = refl
handle_event-news init c = refl
handle_event-news init_done c = refl

held-newer : (a b : Option (Option Secret)) (c : Map Bytes) → held a (held b c) ≡ held (newer a b) c
held-newer none b c = refl
held-newer (some none) b c = refl
held-newer (some (some secret)) b c = refl

-- The cache holds what the last news before the first error of the stream says, and before any news
-- what it held at first; after an error it does not change any more.
pub watch-latest :
    (events : List (Result Bytes Event)) (c : Map Bytes) → watch events c ≡ held (latest events) c
unfolding watch latest
watch-latest [] c = refl
watch-latest (err e ∷ events) c = refl
watch-latest (ok event ∷ events) c =
    watch-latest events (handle_event event c)
    ∙ ap (held (latest events)) (handle_event-news event c)
    ∙ held-newer (latest events) (news event) c
