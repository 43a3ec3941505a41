-- ===== src/Client/Hooks.antt =====
-- crates/libenvproxy/src/lib.rs: the constructor of the library, which sets variables by which Python
-- and Java load their hooks.
-- A variable's value is any bytes. The file system and `dladdr` are parameters.
pub mod Found
pub mod Settings
use env_proxy.Prelude.{
  ℕ, ◌-◌, ◌≡◌, ◌≢◌, ◌⊎◌, refl, inl, inr, ◌∙◌, [], ◌∷◌, ◌++◌, List, map, Option, none, some, Bool,
  true, false, leb, ◌&&◌, if◌then◌else◌, arith, Option-cases, Bool-cases,
}
use env_proxy.Prelude.Bytes.{Bytes, codes, is_empty, beq, beq_iff}
use env_proxy.Prelude.Maybe.{◌>>=◌, ◌>>◌}
use env_proxy.Prelude.Map.{Map, get, insert, get-insert}
use env_proxy.Text.Paths.{join}
use env_proxy.Text.Utf8.{is_utf8, from_utf8_lossy}

abbrev pub Env : Type 0
Env = Map Bytes

-- `to_uppercase` of an ASCII letter
abbrev upper : ℕ → ℕ
upper b = if leb 97 b && leb b 122 then b - 32 else b

-- `std::env::var(name).ok()`: a value that is not UTF-8 is an error.
unfoldable pub var : Bytes → Env → Option Bytes
var name env = get name env >>= λ v. if is_utf8 v then some v else none

-- `std::env::var(name).unwrap_or_default()`
unfoldable pub or_default : Bytes → Env → Bytes
or_default name env = elim (var name env) [ none ↦ [] | some v ↦ v ]

-- What the library sees of the file system, and what `dladdr` finds for its own address: nothing, or
-- a file name, which may be null.
pub record Files : Type 0 where
  pub exists : Bytes → Bool
  pub canonicalize : Bytes → Option Bytes
  pub parent : Bytes → Option Bytes
  pub dladdr : Option (Option Bytes)

abbrev dli_fname : Option (Option Bytes) → Option Bytes
dli_fname none = none
dli_fname (some none) = none
dli_fname (some (some path)) = some (from_utf8_lossy path)

module _ (files : Files) where
  -- The first candidate that holds the marker file, made canonical.
  unfoldable pub first_with : Bytes → List Bytes → Option Bytes
  first_with marker_file [] = none
  first_with marker_file (candidate ∷ candidates) =
      let rest = first_with marker_file candidates in
      if files.exists (join candidate marker_file) then files.canonicalize candidate else rest

  unfoldable pub candidates_in : Bytes → Bytes → List Bytes
  candidates_in so_dir subdir =
      join so_dir (codes "envproxy/" ++ subdir)
      ∷ join so_dir (codes "../share/envproxy/" ++ subdir)
      ∷ join so_dir (codes "../" ++ subdir)
      ∷ join so_dir (codes "../../support/" ++ subdir)
      ∷ []

  unfoldable pub get_self_path : Option Bytes
  get_self_path = dli_fname files.dladdr

  -- The search beside the library.
  unfoldable pub find_beside : Bytes → Bytes → Option Bytes
  find_beside subdir marker_file = do
    so_path ← get_self_path
    so_dir ← files.parent so_path
    first_with marker_file (candidates_in so_dir subdir)

  unfoldable pub find_support_dir : Env → Bytes → Bytes → Option Bytes
  find_support_dir env subdir marker_file =
      elim (var (codes "ENVPROXY_" ++ (map upper subdir ++ codes "_PATH")) env) [
        | none ↦ find_beside subdir marker_file
        | some path ↦
            if files.exists (join path marker_file)
            then some path
            else find_beside subdir marker_file
      ]

  unfoldable pub find_support_file : Env → Bytes → Bytes → Option Bytes
  find_support_file env subdir filename = do
    dir ← find_support_dir env subdir filename
    if files.exists (join dir filename) then some (join dir filename) else none

  -- A value that is set in front of the existing one, or alone.
  unfoldable pub in_front : Bytes → Bytes → Bytes
  in_front python_dir existing =
      if is_empty existing then python_dir else python_dir ++ (codes ":" ++ existing)

  unfoldable pub setup_python_hook : Env → Env
  setup_python_hook env =
      if beq (or_default (codes "ENVPROXY_NO_PYTHON") env) (codes "1")
      then env
      else elim (find_support_dir env (codes "python") (codes "sitecustomize.py")) [
        | none ↦ env
        | some python_dir ↦
            insert (codes "PYTHONPATH") (in_front python_dir (or_default (codes "PYTHONPATH") env))
              env
      ]

  abbrev pub agent_opts : Bytes → Bytes
  agent_opts jar_path = codes "--add-opens=java.base/java.lang=ALL-UNNAMED -javaagent:" ++ jar_path

  -- The options behind the existing ones, or alone.
  unfoldable pub behind : Bytes → Bytes → Bytes
  behind existing opts = if is_empty existing then opts else existing ++ (codes " " ++ opts)

  unfoldable pub setup_java_hook : Env → Env
  setup_java_hook env =
      if beq (or_default (codes "ENVPROXY_NO_JAVA") env) (codes "1")
      then env
      else elim (find_support_file env (codes "java") (codes "envproxy-agent.jar")) [
        | none ↦ env
        | some jar_path ↦
            insert (codes "JAVA_TOOL_OPTIONS")
              (behind (or_default (codes "JAVA_TOOL_OPTIONS") env) (agent_opts jar_path)) env
      ]

  unfoldable pub envproxy_init : Env → Env
  envproxy_init env = setup_java_hook (setup_python_hook env)
