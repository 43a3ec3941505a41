-- ===== src/Text/Paths.antt =====
-- The standard library's `Path::join`, and a search for a path.
pub mod Join
use env_proxy.Prelude.{[], ◌∷◌, ◌++◌, List, Option, none, some, Bool, if◌then◌else◌}
use env_proxy.Prelude.Bytes.{Bytes, codes, is_empty}
use env_proxy.Text.Trim.{strip_suffix}

-- `dir.join(name)` for a relative name
unfoldable pub join : Bytes → Bytes → Bytes
join dir name = elim (strip_suffix b'/' dir) [
  | some stripped ↦ dir ++ name
  | none ↦ if is_empty dir then name else dir ++ (codes "/" ++ name)
]

-- The first path that exists.
unfoldable pub first_existing : (Bytes → Bool) → List Bytes → Option Bytes
first_existing exists [] = none
first_existing exists (p ∷ paths) =
    let rest = first_existing exists paths in if exists p then some p else rest
