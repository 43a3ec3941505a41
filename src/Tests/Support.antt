-- ===== src/Tests/Support.antt =====
-- The theorems on support/python/_envproxy_hook.py and support/java at concrete inputs.
use env_proxy.Prelude.{
  true, subst, ap, ℕ, ◌+◌, ◌≡◌, refl, [], ◌∷◌, List, Option, none, some, Result, ok, arith, ◌≤◌,
  length, false,
}
use env_proxy.Prelude.Bytes.{Bytes, codes, beq}
use env_proxy.Prelude.Bytes.Search.{starts_with}
use env_proxy.Prelude.Map.{Map, get, insert, remove}
use env_proxy.Prelude.Maybe.{unwrap_or}
use env_proxy.Io.{ErrorKind, IoError}
use env_proxy.Text.Utf8.{from_utf8_lossy}
use env_proxy.Text.Utf8.{is_utf8}
use env_proxy.Proto.Wire.{max_value_len}
use env_proxy.Agent.Backend.{Backend}
use env_proxy.EndToEnd.{to_server, asked}
use env_proxy.EndToEnd.Hook.{carried, getitem-resolve}
use env_proxy.Client.Getenv.{at_load, or_real, getenv}
use env_proxy.Support.Socket.{Socket, recv, sendall}
use env_proxy.Support.Python.{
  request_of, query_agent, exchange, recv_exact, recv_loop, receive_response, receive_value,
  default_socket_path,
}
use env_proxy.Support.Python.Environ.{
  Environ, Moment, Query, plain, patched, real_answer, ask, getitem, setitem, install, init,
  valid_entry,
}
use env_proxy.Support.Python.Answers.{c_value, streams}
use env_proxy.Support.Python.Calls.{Call, getting, setting, perform, run}
use env_proxy.Support.Python.Coherence.{IsExplained, getitem-IsExplained}
use env_proxy.Support.Python.Client.{getitem-getenv}
use env_proxy.Support.Java as Java
use env_proxy.Support.Java.Lookups.{java_map, shown}
use env_proxy.Support.Java.Refines.{get-getitem}

abbrev gone : IoError
gone = record { kind = ErrorKind.other; message = codes "gone" }

-- An agent that answers `hi`, in pieces of two bytes.
abbrev hi : Socket
hi = record {
  stream = record {
    incoming = 0 ∷ 0 ∷ 2 ∷ codes "hi";
    sent = [];
    room = none;
    read_error = gone;
    write_error = gone;
    reply = λ b. [];
    ready = ok 0;
  };
  sizes = λ n. 1;
  calls = 0;
  end_error = none;
}

abbrev connect : Bytes → Result IoError Socket
connect path = ok hi

abbrev moment : ℕ → Moment
moment n = record { connect = connect; now = n; later = n + 1 }

abbrev original : Map Bytes
original = (codes "HOME", codes "/root") ∷ (codes "DB", codes "vault:a#b") ∷ []

-- Asked, changed, and asked again.
abbrev calls : List Call
calls =
    getting (moment 3) (codes "DB")
    ∷ setting (codes "DB") (codes "vault:a#c")
    ∷ getting (moment 5) (codes "DB")
    ∷ []

abbrev then_on : Environ
then_on = run calls (init original (codes "/s") 30)

-- From the cache, 24 later.
again : (getitem (moment 30) (codes "DB") then_on).0 ≡ some (codes "hi")
unfolding getitem run perform setitem ask get insert remove query_agent request_of exchange sendall
    receive_response receive_value recv_exact recv_loop recv starts_with beq
again = refl

getitem-IsExplained_example :
    IsExplained (moment 30) (codes "DB") then_on (getitem (moment 30) (codes "DB") then_on)
getitem-IsExplained_example =
    getitem-IsExplained original (codes "/s") 30 calls (moment 30) (codes "DB")

abbrev last_query : Query
last_query = record { key = codes "DB"; current_value = some (codes "vault:a#c"); at = moment 5 }

abbrev real_getenv : Option Bytes → Option Bytes
real_getenv none = none
real_getenv (some k) = get k original

abbrev float : Bytes → Option ℕ
float t = some 30

abbrev proxy : Environ
proxy = init original default_socket_path 30

installed : install float (plain original) ≡ patched proxy
unfolding install get beq
installed = refl

path_is_utf8 : from_utf8_lossy default_socket_path ≡ default_socket_path
unfolding from_utf8_lossy
path_is_utf8 = refl

is_foreign : starts_with (codes "ENVPROXY_") (codes "DB") ≡ false
unfolding starts_with
is_foreign = refl

is_reference : real_answer (get (codes "DB") original) ≡ none
unfolding get beq starts_with
is_reference = refl

getitem-getenv_example :
    (getenv real_getenv (streams connect) (some (codes "DB")) at_load).0
    ≡ or_real (c_value (getitem (moment 7) (codes "DB") proxy).0) (get (codes "DB") original)
getitem-getenv_example =
    getitem-getenv real_getenv float original proxy (moment 7) (codes "DB") (λ k. refl) installed
      path_is_utf8 is_foreign is_reference

abbrev decode : Bytes → Bytes
decode v = v

is_short : length (unwrap_or [] (get (codes "DB") original)) ≤ 0xffff
unfolding get beq
is_short = omega arith

get-getitem_example : Java.get decode connect 7 8 (codes "DB") (java_map decode proxy) ≡ (
  shown decode (real_answer (get (codes "DB") original)) (getitem (moment 7) (codes "DB") proxy).0,
  java_map decode (getitem (moment 7) (codes "DB") proxy).1,
)
get-getitem_example = get-getitem decode (moment 7) (codes "DB") proxy is_short

-- A backend with one secret, for one reference.
abbrev one_secret : Backend (Unit {0})
one_secret = record {
  resolve = λ key s. (ok none, s);
  resolve_with_value = λ key value s. (ok (some (codes "s3cret")), s);
}

abbrev to_agent : Socket
to_agent = record { stream = to_server one_secret tt; sizes = λ n. 1; calls = 0; end_error = none }

abbrev agent_moment : Moment
agent_moment = record { connect = λ path. ok to_agent; now = 7; later = 8 }

is_stale : valid_entry 7 proxy (get (codes "DB") proxy.cache) ≡ none
unfolding get
is_stale = refl

is_utf8_key : is_utf8 (codes "DB") ≡ true
unfolding is_utf8
is_utf8_key = refl

is_utf8_ref : is_utf8 (codes "vault:a#b") ≡ true
unfolding is_utf8
is_utf8_ref = refl

same_ref : (v : Bytes) → get (codes "DB") original ≡ some v → codes "vault:a#b" ≡ v
unfolding get beq
same_ref v h = ap (unwrap_or []) h

ref_text : (v : Bytes) → get (codes "DB") original ≡ some v → is_utf8 v ≡ true
ref_text v h = subst (λ u. is_utf8 u ≡ true) (same_ref v h) is_utf8_ref

ref_fits : (v : Bytes) → get (codes "DB") original ≡ some v → length v ≤ max_value_len
ref_fits v h =
    let short : length (codes "vault:a#b") ≤ max_value_len = omega arith in
    subst (λ u. length u ≤ max_value_len) (same_ref v h) short

getitem-resolve_example :
    (getitem agent_moment (codes "DB") proxy).0
    ≡ carried (asked one_secret tt (codes "DB") (get (codes "DB") original))
getitem-resolve_example =
    getitem-resolve one_secret tt agent_moment (codes "DB") proxy to_agent refl refl is_reference
      is_stale is_utf8_key (omega arith) ref_text ref_fits
