-- ===== src/Support/Java/Lookups.antt =====
-- The lookups of support/java/src/envproxy next to those of support/python/_envproxy_hook.py.
use mathlib.Core.Path.{fun_ext}
use env_proxy.Prelude.{
  ℕ, zero, suc, ◌-◌, ◌≤◌, ◌≡◌, refl, [], ◌∷◌, ◌++◌, Option, none, some, Result, ok, err, true,
  false, ◌==◌, if◌then◌else◌, length, arith, to_option,
}
use env_proxy.Prelude.Bytes.{Bytes, is_empty}
use env_proxy.Prelude.Map.{Map, insert, get as find}
use env_proxy.Prelude.Maybe.{unwrap_or}
use env_proxy.Prelude.Action.{Action, continue, fail, pure, ◌>>=◌, ◌>>◌}
use env_proxy.Io.{IoError}
use env_proxy.Proto.Wire.{from_be_bytes, byte_at}
use env_proxy.Support.Socket.{Socket, Lost, lost, caught, caught_in, recv, sendall}
use env_proxy.Support.Python as Python
use env_proxy.Support.Python.{recv_loop, recv_exact}
use env_proxy.Support.Python.Environ as Environ
use env_proxy.Support.Python.Environ.{Moment, getitem, real_answer}
use env_proxy.Support.Java.{
  piece_of, read_loop, read_fully, read_value, read_response, exchange, request_of, CacheEntry,
  EnvProxyMap, real_value, query_agent,
}

-- The rest of the loop, once a piece was received.
abbrev java_rest : ℕ → ℕ → Bytes → Bytes → Action Socket Lost Bytes
java_rest fuel l buf chunk = elim (piece_of chunk) [
  | none ↦ fail lost
  | some bytes ↦ read_loop fuel (suc l - length bytes) (buf ++ bytes)
]

abbrev python_rest : ℕ → ℕ → Bytes → Bytes → Action Socket Lost Bytes
python_rest fuel l buf chunk = elim (is_empty chunk) [
  | true ↦ fail lost
  | false ↦ recv_loop fuel (suc l - length chunk) (buf ++ chunk)
]

read_loop-rest :
    (fuel l : ℕ) (buf : Bytes) (o : Result Lost Bytes × Socket)
    → ((left : ℕ) (b : Bytes) (s : Socket) → read_loop fuel left b s ≡ recv_loop fuel left b s)
    → continue o (java_rest fuel l buf) ≡ continue o (python_rest fuel l buf)
read_loop-rest fuel l buf (err e, s) same = refl
read_loop-rest fuel l buf (ok [], s) same = refl
read_loop-rest fuel l buf (ok (c ∷ chunk), s) same = same _ _ s

-- Java's loop is Python's.
read_loop-recv_loop :
    (fuel left : ℕ) (buf : Bytes) (s : Socket)
    → read_loop fuel left buf s ≡ recv_loop fuel left buf s
unfolding read_loop recv_loop
read_loop-recv_loop fuel zero buf s = refl
read_loop-recv_loop zero (suc l) buf s = refl
read_loop-recv_loop (suc fuel) (suc l) buf s =
    read_loop-rest fuel l buf (caught_in (recv (suc l) s)) (read_loop-recv_loop fuel)

read_fully-recv_exact : (n : ℕ) → read_fully n ≡ recv_exact n
unfolding read_fully recv_exact
read_fully-recv_exact n = fun_ext (read_loop-recv_loop n n [])

read_value-receive_value : (n : ℕ) → read_value n ≡ Python.receive_value n
unfolding read_value Python.receive_value
read_value-receive_value n = rw (read_fully-recv_exact n) refl

-- The exchange, by how bytes are read.
abbrev exchange_by :
    (ℕ → Action Socket Lost Bytes)
    → (ℕ → Action Socket Lost Bytes)
    → Bytes
    → Action Socket Lost Bytes
exchange_by read_header read_rest request = do
  caught (sendall request)
  header ← read_header 3
  value_bytes ← read_rest (from_be_bytes (byte_at header 1) (byte_at header 2))
  if byte_at header 0 == 0 then pure value_bytes else fail lost

exchange-exchange : (request : Bytes) → exchange request ≡ Python.exchange request
unfolding exchange Python.exchange read_response Python.receive_response
exchange-exchange request =
    let read : read_fully ≡ recv_exact = fun_ext read_fully-recv_exact in
    let rest : read_value ≡ Python.receive_value = fun_ext read_value-receive_value in
    λ i. exchange_by (read i) (rest i) request

-- A variable that is not set, or a reference that is not too long, is asked for alike.
request_of-request_of :
    (key : Bytes) (value : Option Bytes)
    → real_answer value ≡ none
    → length (unwrap_or [] value) ≤ 0xffff
    → request_of key value ≡ Python.request_of key value
unfolding request_of Python.request_of
request_of-request_of key none unset fits = ground arith
request_of-request_of key (some v) unset fits = ground arith

pub real_value-real_answer : (value : Option Bytes) → real_value value ≡ real_answer value
real_value-real_answer none = refl
real_value-real_answer (some v) = refl

-- The Java map with the contents of the Python proxy.
module _ (decode : Bytes → Bytes) where
  abbrev pub decoded : Option Bytes → Option Bytes
  decoded none = none
  decoded (some v) = some (decode v)

  abbrev pub decoded_entry : Environ.CacheEntry → CacheEntry
  decoded_entry entry = record { value = decoded entry.value; timestamp = entry.timestamp }

  unfoldable pub decoded_cache : Map Environ.CacheEntry → Map CacheEntry
  decoded_cache [] = []
  decoded_cache ((k, entry) ∷ cache) = (k, decoded_entry entry) ∷ decoded_cache cache

  abbrev pub java_map : Environ.Environ → EnvProxyMap
  java_map self = record {
    original = self.original;
    socket_path = self.sock_path;
    cache_ttl_ms = self.cache_ttl;
    cache = decoded_cache self.cache;
  }

  abbrev pub found_entry : Option Environ.CacheEntry → Option CacheEntry
  found_entry none = none
  found_entry (some entry) = some (decoded_entry entry)

  pub find-decoded_cache :
      (key : Bytes) (cache : Map Environ.CacheEntry)
      → find key (decoded_cache cache) ≡ found_entry (find key cache)
  unfolding find decoded_cache
  find-decoded_cache key [] = refl
  find-decoded_cache key ((k, entry) ∷ cache) = ground (arith, find-decoded_cache key cache)

  pub insert-decoded_cache :
      (key : Bytes) (entry : Environ.CacheEntry) (cache : Map Environ.CacheEntry)
      → insert key (decoded_entry entry) (decoded_cache cache)
        ≡ decoded_cache (insert key entry cache)
  unfolding insert decoded_cache
  insert-decoded_cache key entry [] = refl
  insert-decoded_cache key entry ((k, e) ∷ cache) =
      ground (arith, insert-decoded_cache key entry cache)

  -- Over a connection, and with a request.
  over_socket :
      (request : Bytes) (r : Result IoError Socket)
      → (elim r as (λ x. Option Bytes) [
        | err e ↦ none
        | ok s ↦ elim (to_option (exchange request s).0) [ none ↦ none | some v ↦ some (decode v) ]
      ])
        ≡ decoded (elim r as (λ x. Option Bytes) [
          | err e ↦ none
          | ok s ↦ to_option (Python.exchange request s).0
        ])
  over_socket request (err e) = refl
  over_socket request (ok s) = rw (exchange-exchange request) (ground arith)

  with_request :
      (connect : Bytes → Result IoError Socket) (path : Bytes) (o : Option Bytes)
      → (elim o as (λ x. Option Bytes) [
        | none ↦ none
        | some request ↦ elim (connect path) as (λ x. Option Bytes) [
          | err e ↦ none
          | ok s ↦ elim (to_option (exchange request s).0) [
            | none ↦ none
            | some v ↦ some (decode v)
          ]
        ]
      ])
        ≡ decoded (elim o as (λ x. Option Bytes) [
          | none ↦ none
          | some request ↦ elim (connect path) as (λ x. Option Bytes) [
            | err e ↦ none
            | ok s ↦ to_option (Python.exchange request s).0
          ]
        ])
  with_request connect path none = refl
  with_request connect path (some request) = over_socket request (connect path)

  pub query_agent-query_agent :
      (connect : Bytes → Result IoError Socket) (path key : Bytes) (value : Option Bytes)
      → real_answer value ≡ none
      → length (unwrap_or [] value) ≤ 0xffff
      → query_agent decode connect path key value
        ≡ decoded (Python.query_agent connect path key value)
  unfolding query_agent Python.query_agent
  query_agent-query_agent connect path key value unset fits =
      rw (request_of-request_of key value unset fits, query_agent)
        (with_request connect path (Python.request_of key value))

  -- What the program is given: an answer of the agent is decoded.
  abbrev pub shown : Option Bytes → Option Bytes → Option Bytes
  shown none answer = decoded answer
  shown (some v) answer = answer
