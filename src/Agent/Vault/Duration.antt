-- ===== src/Agent/Vault/Duration.antt =====
-- `parse_duration` of crates/envproxy-agent/src/backend/vault.rs.
pub mod Units
use env_proxy.Prelude.{ℕ, ◌*◌, ◌%◌, ◌≡◌, refl, Option, none, some, if◌then◌else◌}
use env_proxy.Prelude.Bytes.{Bytes, codes, is_empty}
use env_proxy.Prelude.Maybe.{◌>>=◌}
use env_proxy.Text.Number.{parse_u64, u64_limit}
use env_proxy.Text.Trim.{trim, strip_suffix}

-- The digits of a duration, and the seconds of its unit.
unfoldable pub split_unit : Bytes → Bytes × ℕ
split_unit s = elim (strip_suffix b's' s) [
  | some stripped ↦ (stripped, 1)
  | none ↦ elim (strip_suffix b'm' s) [
    | some stripped ↦ (stripped, 60)
    | none ↦ elim (strip_suffix b'h' s) [ some stripped ↦ (stripped, 3600) | none ↦ (s, 1) ]
  ]
]

-- The product is a `u64`: it wraps around in a release build.
unfoldable pub parse_duration : Bytes → Option ℕ
unfolding split_unit
parse_duration text =
    let s = trim text in
    let (num_str, unit) = split_unit s in
    if is_empty s then none else do num ← parse_u64 num_str; some ((num * unit) % u64_limit)

duration_tests :
    (parse_duration (codes "5m") ≡ some 300)
    × (parse_duration (codes " 2h ") ≡ some 7200)
    × (parse_duration (codes "45") ≡ some 45)
    × (parse_duration (codes "30s") ≡ some 30)
    × (parse_duration (codes "5ms") ≡ none)
    × (parse_duration (codes "") ≡ none)
unfolding parse_duration parse_u64 trim strip_suffix
duration_tests = (refl, refl, refl, refl, refl, refl)
