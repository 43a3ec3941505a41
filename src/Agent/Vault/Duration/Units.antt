-- ===== src/Agent/Vault/Duration/Units.antt =====
-- What `parse_duration` of crates/envproxy-agent/src/backend/vault.rs makes of a number and a unit.
use env_proxy.Prelude.{
  ℕ, ◌*◌, ◌%◌, ◌^◌, ◌≡◌, ◌<◌, refl, [], ◌∷◌, ◌++◌, append-nil, none, some, false, arith,
}
use env_proxy.Prelude.Bytes.{Bytes, codes, is_empty}
use env_proxy.Text.Number.{
  decimal, parse_u64-decimal, decimal-AreDigits, is_empty-decimal, AreDigits,
}
use env_proxy.Text.Trim.{strip_suffix}
use env_proxy.Text.Trim.Visible.{IsVisible, IsVisible-append, strip_suffix-last, trim-visible}
use env_proxy.Agent.Vault.Duration.{split_unit, parse_duration}

pub data TimeUnit : Type 0 where
  no_unit seconds minutes hours : TimeUnit

abbrev pub suffix : TimeUnit → Bytes
suffix no_unit = []
suffix seconds = codes "s"
suffix minutes = codes "m"
suffix hours = codes "h"

abbrev pub in_seconds : TimeUnit → ℕ
in_seconds no_unit = 1
in_seconds seconds = 1
in_seconds minutes = 60
in_seconds hours = 3600

AreDigits-IsVisible : (s : Bytes) → AreDigits s → IsVisible s
AreDigits-IsVisible [] h = tt
AreDigits-IsVisible (c ∷ s) (lo, hi, h) = (lo, omega arith, AreDigits-IsVisible s h)

suffix-IsVisible : (u : TimeUnit) → IsVisible (suffix u)
suffix-IsVisible no_unit = tt
suffix-IsVisible seconds = (omega arith, omega arith, tt)
suffix-IsVisible minutes = (omega arith, omega arith, tt)
suffix-IsVisible hours = (omega arith, omega arith, tt)

-- A letter is at the end of no number.
strip_suffix-digits : (c : ℕ) (s : Bytes) → 57 < c → AreDigits s → strip_suffix c s ≡ none
unfolding strip_suffix
strip_suffix-digits c [] h k = refl
strip_suffix-digits c (d ∷ []) h (lo, hi, k) = ground arith
strip_suffix-digits c (d ∷ e ∷ s) h (lo, hi, k) = rw (strip_suffix-digits c (e ∷ s) h k) refl

split_unit-suffix :
    (u : TimeUnit) (s : Bytes) → AreDigits s → split_unit (s ++ suffix u) ≡ (s, in_seconds u)
unfolding split_unit
split_unit-suffix no_unit s h = rw (append-nil s) (
    rw
      (
        strip_suffix-digits b's' s (omega arith) h,
        strip_suffix-digits b'm' s (omega arith) h,
        strip_suffix-digits b'h' s (omega arith) h,
        split_unit,
      )
      refl)
split_unit-suffix seconds s h = rw (strip_suffix-last b's' b's' s, split_unit) refl
split_unit-suffix minutes s h =
    rw (strip_suffix-last b's' b'm' s, strip_suffix-last b'm' b'm' s, split_unit) refl
split_unit-suffix hours s h =
    rw
      (
        strip_suffix-last b's' b'h' s,
        strip_suffix-last b'm' b'h' s,
        strip_suffix-last b'h' b'h' s,
        split_unit,
      )
      refl

not_empty : (s t : Bytes) → is_empty s ≡ false → is_empty (s ++ t) ≡ false
not_empty [] t h = absurd cc
not_empty (c ∷ s) t h = refl

-- A number below 2 ^ 64 with a unit, or with none, is a duration of so many seconds, modulo 2 ^ 64.
pub parse_duration-decimal :
    (n : ℕ) (u : TimeUnit)
    → n < 2 ^ 64
    → parse_duration (decimal n ++ suffix u) ≡ some ((n * in_seconds u) % 2 ^ 64)
unfolding parse_duration
parse_duration-decimal n u h =
    let digits = decimal-AreDigits n in
    let text = decimal n ++ suffix u in
    let visible =
      IsVisible-append (decimal n) (suffix u) (AreDigits-IsVisible (decimal n) digits)
        (suffix-IsVisible u) in
    rw
      (
        trim-visible text visible,
        split_unit-suffix u (decimal n) digits,
        not_empty (decimal n) (suffix u) (is_empty-decimal n),
        parse_u64-decimal n h,
        parse_duration,
      )
      refl
