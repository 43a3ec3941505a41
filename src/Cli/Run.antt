-- ===== src/Cli/Run.antt =====
-- crates/envproxy-cli/src/main.rs: `run`, with the search for the library and the wait for the socket.
-- `std::env::var`, the existence of a path and the clock are parameters. Times are in milliseconds.
pub mod Waiting
use env_proxy.Prelude.{
  ◌≡◌, refl, ℕ, zero, suc, [], ◌∷◌, ◌++◌, List, Option, none, some, Result, ok, err, Bool, true,
  false, leb, if◌then◌else◌,
}
use env_proxy.Prelude.Bytes.{Bytes, codes, is_empty, beq}
use env_proxy.Text.Paths.{join, first_existing}
use env_proxy.Text.Trim.{strip_suffix}
use env_proxy.Text.Utf8.{from_utf8_lossy}

-- `max_wait`
abbrev pub max_wait : ℕ
max_wait = 10000

-- `poll_interval`
abbrev pub poll_interval : ℕ
poll_interval = 100

-- How the wait for the socket ends, and at which look: there it is, or the time is over.
pub data Wait : Type 0 where
  appeared gave_up : (look : ℕ) → Wait

-- The loop from a look on: `exists_at` says whether the socket is there at a look, and `elapsed` what
-- `start.elapsed()` says after it. No result where the fuel ends.
unfoldable pub wait_from : (ℕ → Bool) → (ℕ → ℕ) → ℕ → ℕ → Option Wait
wait_from exists_at elapsed zero look = none
wait_from exists_at elapsed (suc fuel) look =
    let rest = wait_from exists_at elapsed fuel (suc look) in
    if exists_at look
    then some (appeared look)
    else if leb max_wait (elapsed look)
    then some (gave_up look)
    else rest

-- As many looks as intervals fit in the time, and one more.
unfoldable pub wait : (ℕ → Bool) → (ℕ → ℕ) → Option Wait
unfolding wait_from
wait exists_at elapsed = wait_from exists_at elapsed 101 0

-- The error of a search that finds nothing.
pub data NotFound : Type 0 where
  library_not_found : NotFound

-- The candidates next to the binary of the process, if its directory is known.
unfoldable pub beside : Option Bytes → List Bytes
beside none = []
beside (some dir) =
    join dir (codes "libenvproxy.so") ∷ join dir (codes "../lib/libenvproxy.so") ∷ []

abbrev pub system_paths : List Bytes
system_paths = codes "/usr/local/lib/libenvproxy.so" ∷ codes "/usr/lib/libenvproxy.so" ∷ []

-- The search: `var` is `std::env::var` where it succeeds.
unfoldable pub find_libenvproxy :
    (Bytes → Option Bytes) → Option Bytes → (Bytes → Bool) → Result NotFound Bytes
find_libenvproxy var dir exists = elim (var (codes "ENVPROXY_LIB")) [
  | some path ↦ ok path
  | none ↦ elim (first_existing exists (beside dir)) [
    | some candidate ↦ ok (from_utf8_lossy candidate)
    | none ↦ elim (first_existing exists system_paths) [
      | some path ↦ ok path
      | none ↦ err library_not_found
    ]
  ]
]

pub data RunError : Type 0 where
  no_command : RunError
  no_library : NotFound → RunError

-- The command that `exec` is called for: the program, its arguments, the variables that are set for
-- it, and the wait before it, if there was one.
pub record Exec : Type 0 where
  pub program : Bytes
  pub args : List Bytes
  pub vars : List (Bytes × Bytes)
  pub waited : Option Wait

module _ (var : Bytes → Option Bytes) (exists_at : Bytes → ℕ → Bool) (elapsed : ℕ → ℕ) where
  unfoldable pub wait_for : Bytes → Option Wait
  wait_for socket_path = if is_empty socket_path then none else wait (exists_at socket_path) elapsed

  -- The variables that are set, and the path that is waited for.
  unfoldable pub prepare : Bytes → Bytes → List (Bytes × Bytes) × Bytes
  prepare lib_path socket = elim (var (codes "ENVPROXY_SOCKET")) [
    | some s ↦ ((codes "LD_PRELOAD", lib_path) ∷ [], s)
    | none ↦ (
      (codes "LD_PRELOAD", lib_path) ∷ (codes "ENVPROXY_SOCKET", from_utf8_lossy socket) ∷ [],
      from_utf8_lossy socket,
    )
  ]

  unfoldable pub cmd_run : Option Bytes → (Bytes → Bool) → List Bytes → Bytes → Result RunError Exec
  cmd_run dir exists [] socket = err no_command
  cmd_run dir exists (program ∷ args) socket = elim (find_libenvproxy var dir exists) [
    | err e ↦ err (no_library e)
    | ok lib_path ↦
        let (vars, socket_path) = prepare lib_path socket in
        ok (record { program = program; args = args; vars = vars; waited = wait_for socket_path })
  ]

abbrev no_vars : Bytes → Option Bytes
no_vars name = none

find_tests :
    (find_libenvproxy no_vars
        (some (codes "/opt/bin"))
        (λ p. beq p (codes "/opt/bin/../lib/libenvproxy.so"))
      ≡ ok (codes "/opt/bin/../lib/libenvproxy.so"))
    × (find_libenvproxy no_vars none (λ p. true) ≡ ok (codes "/usr/local/lib/libenvproxy.so"))
    × (find_libenvproxy (λ name. some name) none (λ p. true) ≡ ok (codes "ENVPROXY_LIB"))
    × (find_libenvproxy no_vars (some []) (λ p. false) ≡ err library_not_found)
unfolding find_libenvproxy first_existing beside beq join strip_suffix from_utf8_lossy
find_tests = (refl, refl, refl, refl)
