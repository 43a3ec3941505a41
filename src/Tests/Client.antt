-- ===== src/Tests/Client.antt =====
-- The theorems on crates/libenvproxy/src/lib.rs, and on it against the server, at concrete inputs.
use env_proxy.Prelude.{
  ◌≤◌, true, subst, length, ◌≡◌, refl, [], ◌∷◌, List, Option, none, some, Result, ok, err, false,
  arith, if◌then◌else◌,
}
use env_proxy.Prelude.Bytes.{Bytes, codes, beq}
use env_proxy.Io.{ErrorKind, IoError, Stream}
use env_proxy.Agent.Backend.{Backend}
use env_proxy.Proto.Wire.{max_value_len}
use env_proxy.Prelude.Bytes.Search.{starts_with}
use env_proxy.Text.Utf8.{is_utf8}
use env_proxy.Client.Getenv.{get_or_init, is_enabled, Statics, at_load, or_real, getenv, of_libc}
use env_proxy.Client.Getenv.Calls.{Call, run, step, OnePath, run-OnePath, disabled_stays}
use env_proxy.EndToEnd.{to_server, asked, getenv-resolve}
use env_proxy.EndToEnd.Exchange.{delivered}

-- An environment with one variable.
abbrev pub env : Option Bytes → Option Bytes
env none = none
env (some name) = if beq name (codes "DB") then some (codes "vault:a/b#c") else none

-- No agent listens.
abbrev refuse : Bytes → Result IoError Stream
refuse path = err (record { kind = ErrorKind.other; message = codes "refused" })

abbrev calls : List Call
calls =
    record { name = some (codes "DB"); real_getenv = env; connect = refuse }
    ∷ record { name = some (codes "HOME"); real_getenv = env; connect = refuse }
    ∷ []

abbrev off : Statics
off = record at_load { enabled = some false }

run-OnePath_example : OnePath (run calls at_load)
run-OnePath_example = run-OnePath calls

abbrev last_call : Call
last_call = record { name = some (codes "DB"); real_getenv = env; connect = refuse }

disabled_stays_example :
    ((run calls off).sessions ≡ [])
    × ((step last_call (run calls off)).0 ≡ of_libc (env (some (codes "DB"))))
disabled_stays_example = disabled_stays calls last_call off refl

-- A backend with one secret, for one reference.
abbrev one_secret : Backend (Unit {0})
one_secret = record {
  resolve = λ key s. (ok none, s);
  resolve_with_value = λ key value s. (ok (some (codes "s3cret")), s);
}

abbrev agent : Bytes → Result IoError Stream
agent path = ok (to_server one_secret tt)

enabled : get_or_init at_load.enabled (is_enabled env) ≡ true
unfolding is_enabled beq
enabled = refl

pub not_own : starts_with (codes "ENVPROXY_") (codes "DB") ≡ false
unfolding starts_with
not_own = refl

pub is_utf8_db : is_utf8 (codes "DB") ≡ true
unfolding is_utf8
is_utf8_db = refl

is_utf8_ref : is_utf8 (codes "vault:a/b#c") ≡ true
unfolding is_utf8
is_utf8_ref = refl

value_text : (v : Bytes) → env (some (codes "DB")) ≡ some v → is_utf8 v ≡ true
value_text v h = subst (λ u. is_utf8 u ≡ true) (ground arith) is_utf8_ref

value_fits : (v : Bytes) → env (some (codes "DB")) ≡ some v → length v ≤ max_value_len
value_fits v h =
    let same : codes "vault:a/b#c" ≡ v = ground arith in
    let short : length (codes "vault:a/b#c") ≤ max_value_len = omega arith in
    subst (λ u. length u ≤ max_value_len) same short

getenv-resolve_example :
    (getenv env agent (some (codes "DB")) at_load).0
    ≡ or_real
        (delivered (asked one_secret tt (codes "DB") (env (some (codes "DB")))))
        (env (some (codes "DB")))
getenv-resolve_example =
    getenv-resolve one_secret tt env agent (codes "DB") at_load not_own enabled (λ path. refl)
      is_utf8_db (omega arith) value_text value_fits
