-- ===== src/Support/Java.antt =====
-- support/java/src/envproxy: `EnvProxyMap` and `EnvProxyAgent`.
-- A `String` is its bytes in UTF-8; what a `String` is made of other bytes is a parameter, `decode`.
-- Times are in milliseconds. A lookup holds the monitor of the cache while it reads or writes it.
pub mod Lookups
pub mod Refines
use env_proxy.Prelude.{
  ℕ, zero, suc, ◌+◌, ◌-◌, List, [], ◌∷◌, ◌++◌, Option, none, some, Result, ok, err, Bool, true,
  false, ltb, ◌==◌, if◌then◌else◌, length, to_option,
}
use env_proxy.Prelude.Bytes.{Bytes, codes, is_empty}
use env_proxy.Prelude.Bytes.Search.{starts_with}
use env_proxy.Prelude.Map.{Map, insert, get as find}
use env_proxy.Prelude.Maybe.{unwrap_or}
use env_proxy.Prelude.Action.{Action, pure, fail, ◌>>=◌, ◌>>◌}
use env_proxy.Io.{IoError}
use env_proxy.Proto.Wire.{as_u16, to_be_bytes, from_be_bytes, byte_at}
use env_proxy.Support.Socket.{Socket, Lost, lost, caught, recv, sendall}

abbrev pub protocol_v1 : ℕ
protocol_v1 = 1

abbrev pub protocol_v2 : ℕ
protocol_v2 = 2

abbrev pub status_found : ℕ
status_found = 0x00

-- `putShort((short) n)`
abbrev pub put_short : ℕ → Bytes
put_short n = to_be_bytes (as_u16 n)

-- `currentValue != null && currentValue.startsWith("vault:")`
abbrev pub is_vault : Option Bytes → Bool
is_vault none = false
is_vault (some v) = starts_with (codes "vault:") v

-- The request: only the key's length is tested.
unfoldable pub request_of : Bytes → Option Bytes → Option Bytes
request_of key_bytes current_value =
    if ltb 0xffff (length key_bytes)
    then none
    else let val_bytes = if is_vault current_value then unwrap_or [] current_value else [] in
      if is_vault current_value
      then some (
          (protocol_v2 ∷ put_short (length key_bytes))
          ++ (key_bytes ++ (put_short (length val_bytes) ++ val_bytes)))
      else some ((protocol_v1 ∷ put_short (length key_bytes)) ++ key_bytes)

-- `channel.read(buf)`, where none is the -1 for the end of the stream.
abbrev pub piece_of : Bytes → Option Bytes
piece_of chunk = if is_empty chunk then none else some chunk

-- `readFully` into a buffer with `remaining` bytes to go.
unfoldable pub read_loop : ℕ → ℕ → Bytes → Action Socket Lost Bytes
read_loop fuel zero buf = pure buf
read_loop zero (suc l) buf = fail lost
read_loop (suc fuel) (suc l) buf = do
  chunk ← caught (recv (suc l))
  elim (piece_of chunk) [
    | none ↦ fail lost
    | some bytes ↦ read_loop fuel (suc l - length bytes) (buf ++ bytes)
  ]

unfoldable pub read_fully : ℕ → Action Socket Lost Bytes
read_fully n = read_loop n n []

unfoldable pub read_value : ℕ → Action Socket Lost Bytes
read_value val_len = if ltb 0 val_len then read_fully val_len else pure []

-- The bytes of the value, which are decoded afterwards.
unfoldable pub read_response : Action Socket Lost Bytes
read_response = do
  header ← read_fully 3
  value_bytes ← read_value (from_be_bytes (byte_at header 1) (byte_at header 2))
  if byte_at header 0 == status_found then pure value_bytes else fail lost

unfoldable pub exchange : Bytes → Action Socket Lost Bytes
exchange request = do caught (sendall request); read_response

abbrev pub is_some : Option Bytes → Bool
is_some none = false
is_some (some v) = true

pub record CacheEntry : Type 0 where
  pub value : Option Bytes
  pub timestamp : ℕ

pub record EnvProxyMap : Type 0 where
  pub original : Map Bytes
  pub socket_path : Bytes
  pub cache_ttl_ms : ℕ
  pub cache : Map CacheEntry

-- The value, if there is one that is no reference.
abbrev pub real_value : Option Bytes → Option Bytes
real_value none = none
real_value (some v) = if starts_with (codes "vault:") v then none else some v

-- `now - timestamp < cacheTtlMs`, with no difference that could be negative.
abbrev pub valid_entry : ℕ → EnvProxyMap → Option CacheEntry → Option CacheEntry
valid_entry now self none = none
valid_entry now self (some entry) =
    if ltb now (entry.timestamp + self.cache_ttl_ms) then some entry else none

module _ (decode : Bytes → Bytes) where
  unfoldable pub query_agent :
      (Bytes → Result IoError Socket) → Bytes → Bytes → Option Bytes → Option Bytes
  query_agent connect socket_path key current_value = elim (request_of key current_value) [
    | none ↦ none
    | some request ↦ elim (connect socket_path) [
      | err e ↦ none
      | ok s ↦ elim (to_option (exchange request s).0) [ none ↦ none | some v ↦ some (decode v) ]
    ]
  ]

  -- The agent is asked, and the answer is put into the cache at the time `later`.
  unfoldable pub ask :
      (Bytes → Result IoError Socket)
      → ℕ
      → Bytes
      → Option Bytes
      → EnvProxyMap
      → Option Bytes × EnvProxyMap
  ask connect later key value self =
      let resolved = query_agent connect self.socket_path key value in
      let entry : CacheEntry = record { value = resolved; timestamp = later } in
      (resolved, record self { cache = insert key entry self.cache })

  unfoldable pub get :
      (Bytes → Result IoError Socket) → ℕ → ℕ → Bytes → EnvProxyMap → Option Bytes × EnvProxyMap
  get connect now later key self = elim (real_value (find key self.original)) [
    | some value ↦ (some value, self)
    | none ↦ elim (valid_entry now self (find key self.cache)) [
      | some entry ↦ (entry.value, self)
      | none ↦ ask connect later key (find key self.original) self
    ]
  ]

  unfoldable pub contains_key :
      (Bytes → Result IoError Socket) → ℕ → ℕ → Bytes → EnvProxyMap → Bool × EnvProxyMap
  contains_key connect now later key self = elim (find key self.original) [
    | some value ↦ (true, self)
    | none ↦ let (value, self') = get connect now later key self in (is_some value, self')
  ]

-- `theUnmodifiableEnvironment`: the virtual machine's, or the proxy.
pub data Environment : Type 0 where
  plain : Map Bytes → Environment
  patched : EnvProxyMap → Environment

abbrev pub default_cache_ttl_ms : ℕ
default_cache_ttl_ms = 30000

-- `Double.parseDouble` of a text, times 1000, is `millis`; `getenv` of a Java program reads the map.
module _ (millis : Bytes → Option ℕ) (exists : Bytes → Bool) where
  unfoldable pub ttl_of : Option Bytes → Option Bytes → ℕ
  ttl_of agent_args ttl_env =
      if is_empty (unwrap_or [] agent_args)
      then elim ttl_env [
        | none ↦ default_cache_ttl_ms
        | some t ↦ unwrap_or default_cache_ttl_ms (millis t)
      ]
      else unwrap_or default_cache_ttl_ms (millis (unwrap_or [] agent_args))

  unfoldable pub install_over : Option Bytes → Map Bytes → Environment
  install_over agent_args original =
      let set = unwrap_or [] (find (codes "ENVPROXY_SOCKET") original) in
      let socket_path = if is_empty set then codes "/tmp/envproxy/agent.sock" else set in
      if exists socket_path
      then patched (record {
        original = original;
        socket_path = socket_path;
        cache_ttl_ms = ttl_of agent_args (find (codes "ENVPROXY_CACHE_TTL") original);
        cache = [];
      })
      else plain original
