-- ===== src/Cli/Run/Waiting.antt =====
-- The wait for the socket ends, and how.
use env_proxy.Prelude.{
  ℕ, zero, suc, ◌+◌, ◌*◌, ◌≡◌, ◌≤◌, ◌<◌, inl, inr, refl, sym, some, Bool, true, false, leb, arith,
  Bool-cases,
}
use native.Mathlib.Decide.{ℕ_discrete}
use env_proxy.Cli.Run.{Wait, appeared, gave_up, wait_from, wait, max_wait, poll_interval}

module _ (exists_at : ℕ → Bool) (elapsed : ℕ → ℕ) where
  -- What a wait that has ended says: it is the first look at which the socket is there, or the first
  -- after the time is over.
  abbrev pub IsEnd : ℕ → Wait → Type 0
  IsEnd from (appeared look) =
      (exists_at look ≡ true)
      × ((i : ℕ) → from ≤ i → i < look → (exists_at i ≡ false) × (elapsed i < max_wait))
  IsEnd from (gave_up look) =
      (exists_at look ≡ false)
      × (max_wait ≤ elapsed look)
      × ((i : ℕ) → from ≤ i → i < look → (exists_at i ≡ false) × (elapsed i < max_wait))

  earlier :
      (from i : ℕ)
      → exists_at from ≡ false
      → elapsed from < max_wait
      → (suc from ≤ i → (exists_at i ≡ false) × (elapsed i < max_wait))
      → from ≤ i
      → (exists_at i ≡ false) × (elapsed i < max_wait)
  earlier from i h k more le = elim (ℕ_discrete from i) [
    | yes e ↦ rw (sym e) (h, k)
    | no n ↦ more (omega arith)
  ]

  IsEnd-later :
      (from : ℕ) (w : Wait)
      → exists_at from ≡ false
      → elapsed from < max_wait
      → IsEnd (suc from) w
      → IsEnd from w
  IsEnd-later from (appeared look) h k e =
      (e.0, λ i le lt. earlier from i h k (λ more. e.1 i more lt) le)
  IsEnd-later from (gave_up look) h k e =
      (e.0, e.1, λ i le lt. earlier from i h k (λ more. e.2 i more lt) le)

  module _ (sleeps : (i : ℕ) → elapsed i + poll_interval ≤ elapsed (suc i)) where
    -- At the look `n` at least `n` intervals have passed.
    elapsed-ge : (n : ℕ) → poll_interval * n ≤ elapsed n
    elapsed-ge zero = omega arith
    elapsed-ge (suc n) = omega (arith, elapsed-ge n, sleeps n)

    wait_from-IsEnd :
        (fuel from : ℕ)
        → 100 < fuel + from
        → from ≤ 100
        → (w : Wait) × (wait_from exists_at elapsed fuel from ≡ some w) × IsEnd from w
    unfolding wait_from
    wait_from-IsEnd zero from h k = absurd (omega arith)
    wait_from-IsEnd (suc fuel) from h k = elim (Bool-cases (exists_at from)) [
      | inl there ↦ (appeared from, rw there refl, (there, λ i le lt. absurd (omega arith)))
      | inr missing ↦ elim (Bool-cases (leb max_wait (elapsed from))) [
        | inl over ↦ (
          gave_up from,
          rw (missing, over) refl,
          (missing, ground arith, λ i le lt. absurd (omega arith)),
        )
        | inr early ↦
            let short : elapsed from < max_wait = ground arith in
            let (w, e, end) =
              wait_from-IsEnd fuel (suc from) (omega arith) (omega (arith, elapsed-ge from)) in
            (w, rw (missing, early) e, IsEnd-later from w missing short end)
      ]
    ]

    -- Each sleep takes at least the interval: then the wait ends within 101 looks, at the first look
    -- that finds the socket, or at the first after ten seconds; no look before found it.
    pub wait-IsEnd : (w : Wait) × (wait exists_at elapsed ≡ some w) × IsEnd 0 w
    unfolding wait
    wait-IsEnd = wait_from-IsEnd 101 0 (omega arith) (omega arith)
