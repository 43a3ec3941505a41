-- ===== src/Agent/Backend.antt =====
-- crates/envproxy-agent/src/backend/mod.rs: the errors and the interface of the backends.
use env_proxy.Prelude.{◌++◌, Option, Result}
use env_proxy.Prelude.Bytes.{Bytes, codes}
use env_proxy.Io.{IoError}

pub data BackendError : Type 0 where
  unavailable : Bytes → BackendError
  io : IoError → BackendError
  http : Bytes → BackendError
  parse : Bytes → BackendError

-- `to_string`, from the `#[error]` lines
unfoldable pub to_string : BackendError → Bytes
to_string (unavailable m) = codes "backend unavailable: " ++ m
to_string (io e) = codes "I/O error: " ++ e.message
to_string (http m) = codes "HTTP error: " ++ m
to_string (parse m) = codes "parse error: " ++ m

-- What `resolve` returns.
abbrev pub Resolved : Type 0
Resolved = Result BackendError (Option Bytes)

-- The trait `Backend`, over the state `S` that its calls read and change.
pub record Backend (S : Type 0) : Type 0 where
  pub resolve : Bytes → S → Resolved × S
  pub resolve_with_value : Bytes → Bytes → S → Resolved × S

-- The trait's default method: the value is ignored.
abbrev pub default_resolve_with_value :
    {S : Type 0} → (Bytes → S → Resolved × S) → Bytes → Bytes → S → Resolved × S
default_resolve_with_value resolve key value = resolve key
