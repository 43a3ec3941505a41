-- ===== src/Support/Python/Environ.antt =====
-- `_EnvProxyEnviron` of support/python/_envproxy_hook.py, and `_install`.
-- Times are numbers of one unit, and so is the time to live: `float` of its text is a parameter, and
-- gives a number that is not negative. The one `os._Environ` is changed by the proxy alone.
use env_proxy.Prelude.{
  ℕ, ◌+◌, List, [], ◌∷◌, Option, none, some, Result, Bool, true, false, ltb, if◌then◌else◌,
}
use env_proxy.Prelude.Bytes.{Bytes, codes, beq}
use env_proxy.Prelude.Bytes.Search.{starts_with}
use env_proxy.Prelude.Map.{Map, get, insert, remove}
use env_proxy.Prelude.Maybe.{unwrap_or}
use env_proxy.Io.{IoError}
use env_proxy.Support.Socket.{Socket}
use env_proxy.Support.Python.{default_socket_path, query_agent}

abbrev pub is_set : Option Bytes → Bool
is_set none = false
is_set (some v) = true

-- `_CacheEntry`
pub record CacheEntry : Type 0 where
  pub value : Option Bytes
  pub timestamp : ℕ

-- What a lookup meets: the sockets, and the clock when the cache is read and when it is written.
pub record Moment : Type 0 where
  pub connect : Bytes → Result IoError Socket
  pub now : ℕ
  pub later : ℕ

-- A query that was made of the agent: what for, with which value, and in which lookup.
pub record Query : Type 0 where
  pub key : Bytes
  pub current_value : Option Bytes
  pub at : Moment

-- `queries` is a log, which the program does not keep.
pub record Environ : Type 0 where
  pub original : Map Bytes
  pub cache : Map CacheEntry
  pub sock_path : Bytes
  pub cache_ttl : ℕ
  pub queries : List Query

-- `now - timestamp < cache_ttl`, with no difference that could be negative.
abbrev pub is_cache_valid : ℕ → Environ → CacheEntry → Bool
is_cache_valid now self entry = ltb now (entry.timestamp + self.cache_ttl)

-- Whether the real environment answers by itself.
abbrev pub real_answer : Option Bytes → Option Bytes
real_answer none = none
real_answer (some v) = if starts_with (codes "vault:") v then none else some v

-- The entry of the cache, if it is valid.
abbrev pub valid_entry : ℕ → Environ → Option CacheEntry → Option CacheEntry
valid_entry now self none = none
valid_entry now self (some entry) = if is_cache_valid now self entry then some entry else none

-- The agent is asked, and the answer is put into the cache.
unfoldable pub ask : Moment → Bytes → Option Bytes → Environ → Option Bytes × Environ
ask m key real_value self =
    let value = query_agent m.connect self.sock_path key real_value in
    let entry : CacheEntry = record { value = value; timestamp = m.later } in
    (
      value,
      record self {
        cache = insert key entry self.cache;
        queries = record { key = key; current_value = real_value; at = m } ∷ self.queries;
      },
    )

-- `__getitem__`, where none is a `KeyError`.
unfoldable pub getitem : Moment → Bytes → Environ → Option Bytes × Environ
getitem m key self = elim (real_answer (get key self.original)) [
  | some real_value ↦ (some real_value, self)
  | none ↦ elim (valid_entry m.now self (get key self.cache)) [
    | some entry ↦ (entry.value, self)
    | none ↦ ask m key (get key self.original) self
  ]
]

unfoldable pub setitem : Bytes → Bytes → Environ → Environ
setitem key value self = record self {
  original = insert key value self.original;
  cache = remove key self.cache;
}

-- `__delitem__`, which raises `KeyError` for a variable that is not set, and then keeps the cache.
unfoldable pub delitem : Bytes → Environ → Option (Unit {0}) × Environ
delitem key self = elim (get key self.original) [
  | none ↦ (none, self)
  | some v ↦
      (some tt, record self { original = remove key self.original; cache = remove key self.cache })
]

-- `__contains__`
unfoldable pub contains : Moment → Bytes → Environ → Bool × Environ
contains m key self = elim (get key self.original) [
  | some v ↦ (true, self)
  | none ↦ let (value, self') = getitem m key self in (is_set value, self')
]

-- `os.environ`: the interpreter's, or the proxy.
pub data Environment : Type 0 where
  plain : Map Bytes → Environment
  patched : Environ → Environment

abbrev pub default_cache_ttl : ℕ
default_cache_ttl = 30

-- `_EnvProxyEnviron(original, sock_path, cache_ttl)`
abbrev pub init : Map Bytes → Bytes → ℕ → Environ
init original sock_path cache_ttl = record {
  original = original;
  cache = [];
  sock_path = sock_path;
  cache_ttl = cache_ttl;
  queries = [];
}

-- `_install`, given `float` of a text, if it is one of a number.
unfoldable pub install : (Bytes → Option ℕ) → Environment → Environment
install float (patched e) = patched e
install float (plain original) =
    if beq (unwrap_or (codes "1") (get (codes "ENVPROXY_ENABLED") original)) (codes "0")
    then plain original
    else let sock_path = unwrap_or default_socket_path (get (codes "ENVPROXY_SOCKET") original) in
      let cache_ttl =
        unwrap_or default_cache_ttl
          (float (unwrap_or (codes "30.0") (get (codes "ENVPROXY_CACHE_TTL") original))) in
      patched (init original sock_path cache_ttl)
