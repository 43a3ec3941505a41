-- ===== src/Agent/Vault/Renewal.antt =====
-- crates/envproxy-agent/src/backend/vault.rs: `token_renewal_loop`.
-- Vault is a state, over which `renew_self` is a parameter with the time of its call, in seconds.
use env_proxy.Prelude.{ℕ, zero, suc, ◌+◌, ◌^◌, ◌*◌, ◌≡◌, ◌≤◌, ◌<◌, Result, arith}
use env_proxy.Prelude.Bytes.{Bytes}
use env_proxy.Agent.Vault.Login.{renew_interval}

-- `renew_self`, called at a time, and the time at which its answer is there.
pub record Renewals (V : Type 0) : Type 0 where
  pub renew_self : ℕ → V → Result Bytes (Unit {0}) × V
  pub answered : ℕ → ℕ

module _ {V : Type 0} (vault : Renewals V) (lease_duration : ℕ) where
  -- One round: the sleep, and the request, whose result is only logged.
  unfoldable pub round : ℕ × V → ℕ × V
  round (now, v) =
      let at = now + renew_interval lease_duration in (vault.answered at, (vault.renew_self at v).1)

  -- So many rounds of the loop, which has no end.
  unfoldable pub token_renewal_loop : ℕ → ℕ × V → ℕ × V
  token_renewal_loop zero s = s
  token_renewal_loop (suc n) s = token_renewal_loop n (round s)

  module _ (expires_at : V → ℕ) where
    -- The token is still valid when it is next renewed.
    abbrev pub IsAlive : ℕ × V → Type 0
    IsAlive s = s.0 + renew_interval lease_duration < expires_at s.1

    -- A token that is still valid is renewed, for its whole lease.
    abbrev pub Extends : Type 0
    Extends =
        (at : ℕ) (v : V)
        → at < expires_at v
        → expires_at (vault.renew_self at v).1 ≡ at + lease_duration

    -- An answer takes at most `delay`.
    abbrev pub IsTimely : ℕ → Type 0
    IsTimely delay = (at : ℕ) → (at ≤ vault.answered at) × (vault.answered at ≤ at + delay)

    round-IsAlive :
        (delay : ℕ)
        → Extends
        → IsTimely delay
        → renew_interval lease_duration + delay < lease_duration
        → (s : ℕ × V) → IsAlive s
        → IsAlive (round s)
    unfolding round
    round-IsAlive delay extends timely short (now, v) alive =
        let at = now + renew_interval lease_duration in
        let renewed = extends at v alive in
        let late = (timely at).1 in omega (arith, renewed, late, short)

    rounds-IsAlive :
        (delay : ℕ)
        → Extends
        → IsTimely delay
        → renew_interval lease_duration + delay < lease_duration
        → (n : ℕ) (s : ℕ × V) → IsAlive s
        → IsAlive (token_renewal_loop n s)
    unfolding token_renewal_loop
    rounds-IsAlive delay extends timely short zero s alive = alive
    rounds-IsAlive delay extends timely short (suc n) s alive =
        rounds-IsAlive delay extends timely short n (round s)
          (round-IsAlive delay extends timely short s alive)

    in_time :
        (delay : ℕ)
        → lease_duration < 2 ^ 63
        → 10 + delay < lease_duration
        → 3 * delay < lease_duration
        → renew_interval lease_duration + delay < lease_duration
    unfolding renew_interval
    in_time delay bounded ten third = ground arith

    ten_apart : 10 ≤ renew_interval lease_duration
    unfolding renew_interval
    ten_apart = ground arith

    rounds_apart :
        (delay : ℕ)
        → IsTimely delay
        → (n : ℕ) (s : ℕ × V) → s.0 + 10 * n ≤ (token_renewal_loop n s).0
    unfolding token_renewal_loop round
    rounds_apart delay timely zero s = omega arith
    rounds_apart delay timely (suc n) (now, v) =
        let at = now + renew_interval lease_duration in
        omega (arith, rounds_apart delay timely n (round (now, v)), (timely at).0, ten_apart)

    -- As long as Vault renews a valid token for its whole lease, and answers within a delay such that
    -- the lease is less than 2 ^ 63 seconds, longer than ten seconds and the delay, and longer than
    -- three times the delay: the token of a login is valid at each renewal, after any number of rounds,
    -- and n rounds take ten seconds each or longer.
    pub token_renewal_loop-IsAlive :
        (delay : ℕ)
        → Extends
        → IsTimely delay
        → lease_duration < 2 ^ 63
        → 10 + delay < lease_duration
        → 3 * delay < lease_duration
        → (n now : ℕ) (v : V) → expires_at v ≡ now + lease_duration
        → IsAlive (token_renewal_loop n (now, v))
          × (now + 10 * n ≤ (token_renewal_loop n (now, v)).0)
    token_renewal_loop-IsAlive delay extends timely bounded ten third n now v fresh =
        let short = in_time delay bounded ten third in
        (
          rounds-IsAlive delay extends timely short n (now, v) (omega (arith, short, fresh)),
          rounds_apart delay timely n (now, v),
        )

    twice :
        4 ≤ lease_duration
        → lease_duration < 2 ^ 63
        → lease_duration ≤ renew_interval lease_duration + renew_interval lease_duration
    unfolding renew_interval
    twice h k = ground arith

    -- After one renewal that fails, of a token with a lease of at least four seconds and less than
    -- 2 ^ 63, the token has run out when the next one is tried.
    pub round-lost :
        (delay now : ℕ) (v : V)
        → IsTimely delay
        → 4 ≤ lease_duration
        → lease_duration < 2 ^ 63
        → expires_at v ≡ now + lease_duration
        → expires_at (vault.renew_self (now + renew_interval lease_duration) v).1 ≡ expires_at v
        → ¬ IsAlive (round (now, v))
    unfolding round
    round-lost delay now v timely long bounded fresh fails alive =
        let at = now + renew_interval lease_duration in
        let early = (timely at).0 in
        absurd (omega (arith, early, fails, fresh, alive, twice long bounded))
