-- ===== src/Tests/Vault.antt =====
-- The theorems on crates/envproxy-agent/src/backend/vault.rs at concrete inputs.
use env_proxy.Prelude.{◌≤◌, ◌+◌, Bool, true, false, Result, ltb, lt→ltb}
use env_proxy.Prelude.{◌++◌}
use env_proxy.Text.Number.{decimal}
use env_proxy.Agent.Vault.Duration.{parse_duration}
use env_proxy.Agent.Vault.Duration.Units.{suffix, minutes, parse_duration-decimal}
use env_proxy.Agent.Vault.Renewal.{
  Renewals, Extends, IsAlive, round, token_renewal_loop, token_renewal_loop-IsAlive, round-lost,
}
use env_proxy.Agent.Vault.Tasks.{done, advance, begin, look}
use env_proxy.Agent.Vault.Tasks.Shared.{
  System, run, Reach, here, next, at_start, vault_answer, Reach-vault_answer,
}
use env_proxy.Prelude.Bytes.{beq}
use env_proxy.Agent.Vault.{fetch}
use env_proxy.Prelude.Map.{get}
use env_proxy.Proto.VaultRef.{parse_key, parse_path}
use env_proxy.Prelude.Bytes.Search.{strip_prefix, find_str, starts_with}
use env_proxy.Prelude.{ℕ, ◌≡◌, refl, subst, [], ◌∷◌, Option, none, some, ok, err, arith}
use env_proxy.Prelude.Bytes.{Bytes, codes}
use env_proxy.Prelude.Map.{Map}
use env_proxy.Prelude.Bytes.Search.{find}
use env_proxy.Proto.VaultRef.{VaultRef, parse_vault_ref}
use env_proxy.Proto.VaultRef.Canonical.{
  IsCanonical, text_of, parse_vault_ref-text_of, parse_vault_ref-IsCanonical,
}
use env_proxy.Agent.Vault.{Kv2, cache_key, cached, resolve_with_value}
use env_proxy.Agent.Vault.Sound.{ArePlain}
use env_proxy.Agent.Vault.Hits.{resolve_with_value_again}

-- One secret with two keys.
abbrev pub secret : Map Bytes
secret = (codes "TOKEN", codes "t0") ∷ (codes "USER", codes "me") ∷ []

abbrev pub store : Kv2
store mount path version = ok secret

-- Vault once it cannot be reached.
abbrev gone : Kv2
gone mount path version = err (codes "connection refused")

abbrev pub reference : Bytes
reference = codes "vault:kv/data/app#TOKEN"

abbrev pub app_ref : VaultRef
app_ref = record { mount = codes "kv"; path = codes "app"; key = codes "TOKEN"; version = none }

pub app_ref_parsed : parse_vault_ref reference ≡ some app_ref
unfolding parse_vault_ref strip_prefix find parse_key parse_path find_str starts_with
app_ref_parsed = refl

app_ref-IsCanonical : IsCanonical app_ref
app_ref-IsCanonical = parse_vault_ref-IsCanonical reference app_ref app_ref_parsed

parse_vault_ref-text_of_example : parse_vault_ref (text_of app_ref) ≡ some app_ref
parse_vault_ref-text_of_example = parse_vault_ref-text_of app_ref app_ref-IsCanonical

secret-ArePlain : ArePlain secret
unfolding find
secret-ArePlain = (refl, refl, (refl, refl, tt))

pub store-ArePlain :
    (mount path : Bytes) (version : Option ℕ) (found : Map Bytes)
    → store mount path version ≡ ok found
    → ArePlain found
store-ArePlain mount path version found h =
    let same : secret ≡ found = ground arith in subst (λ m. ArePlain m) same secret-ArePlain

as_cached : reference ≡ cache_key (codes "kv") (codes "app") none (codes "TOKEN")
unfolding cache_key
as_cached = refl

nothing_yet : cached 1 reference [] ≡ none
unfolding cached get
nothing_yet = refl

first_answer : (resolve_with_value 300 store 1 2 reference []).0 ≡ ok (some (codes "t0"))
unfolding resolve_with_value parse_vault_ref strip_prefix find parse_key parse_path find_str
    starts_with cached get fetch beq
first_answer = refl

resolve_with_value_again_example :
    resolve_with_value 300 gone 9 10 reference (resolve_with_value 300 store 1 2 reference []).1
    ≡ (ok (some (codes "t0")), (resolve_with_value 300 store 1 2 reference []).1)
resolve_with_value_again_example =
    resolve_with_value_again 300 store gone 1 2 9 10 reference (codes "t0") app_ref []
      app_ref_parsed as_cached nothing_yet first_answer (omega arith)

-- Two calls for the one secret: the second begins before the first has an answer.
abbrev references : ℕ → Bytes
references i = reference

abbrev together : (t : System 300 store) × Reach 300 store (at_start 300 store references) t
together = (_, next (next (next (next here (run 0 1)) (run 1 2)) (run 0 3)) (run 0 4))

first_done : together.0.tasks 0 ≡ done reference (ok (some (codes "t0")))
unfolding advance begin look parse_vault_ref strip_prefix find parse_key parse_path find_str
    starts_with cached get fetch beq native.Mathlib.Decide.ℕ_discrete
first_done = refl

Reach-vault_answer_example : ok (some (codes "t0")) ≡ vault_answer store reference
Reach-vault_answer_example =
    Reach-vault_answer 300 store store-ArePlain references together.0 0 reference
      (ok (some (codes "t0"))) together.1 first_done

-- A Vault that knows when the token runs out, and renews a valid one for an hour; and one that is gone.
abbrev renewing_at : (at v : ℕ) → Bool → Result Bytes (Unit {0}) × ℕ
renewing_at at v true = (ok tt, at + 3600)
renewing_at at v false = (err [], v)

abbrev renewing : Renewals ℕ
renewing = record { renew_self = λ at v. renewing_at at v (ltb at v); answered = λ at. at + 1 }

abbrev lost : Renewals ℕ
lost = record { renew_self = λ at v. (err [], v); answered = λ at. at + 1 }

renewing-Extends : Extends renewing 3600 (λ v. v)
renewing-Extends at v valid = rw (lt→ltb at v valid) refl

token_renewal_loop-IsAlive_example :
    IsAlive renewing 3600 (λ v. v) (token_renewal_loop renewing 3600 20 (100, 3700))
    × (300 ≤ (token_renewal_loop renewing 3600 20 (100, 3700)).0)
token_renewal_loop-IsAlive_example =
    token_renewal_loop-IsAlive renewing 3600 (λ v. v) 1 renewing-Extends
      (λ at. (omega arith, omega arith)) (omega arith) (omega arith) (omega arith) 20 100 3700 refl

round-lost_example : ¬ IsAlive lost 3600 (λ v. v) (round lost 3600 (100, 3700))
round-lost_example =
    round-lost lost 3600 (λ v. v) 1 100 3700 (λ at. (omega arith, omega arith)) (omega arith)
      (omega arith) refl refl

parse_duration-decimal_example : parse_duration (decimal 90 ++ suffix minutes) ≡ some 5400
parse_duration-decimal_example = parse_duration-decimal 90 minutes (omega arith)
