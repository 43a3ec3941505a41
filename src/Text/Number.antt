-- ===== src/Text/Number.antt =====
-- Unsigned numbers in decimal: `{}` of a `u8` or `u64`, and `str::parse::<u64>`.
use env_proxy.Prelude.{
  ℕ, zero, suc, ◌+◌, ◌-◌, ◌*◌, ◌/◌, ◌%◌, ◌^◌, ◌≤◌, ◌<◌, ◌≡◌, refl, sym, ap, ◌∙◌, [], ◌∷◌, Option,
  none, some, ◌&&◌, false, inl, inr, arith, ltb, leb, ◌==◌, if◌then◌else◌, Bool-cases, tests,
  length,
}
use env_proxy.Prelude.Bytes.{Bytes, codes, is_empty}

abbrev pub u64_limit : ℕ
u64_limit = 2 ^ 64

decimal_from : ℕ → ℕ → Bytes → Bytes
decimal_from zero n out = out
decimal_from (suc fuel) n out =
    let rest = decimal_from fuel (n / 10) ((48 + n % 10) ∷ out) in
    if ltb n 10 then (48 + n) ∷ out else rest

-- `format!("{n}")`; a number has at most as many digits as it has units, so the fuel suffices.
unfoldable pub decimal : ℕ → Bytes
unfolding decimal_from
decimal n = decimal_from (suc n) n []

-- The digits read so far are worth `acc`.
parse_digits : ℕ → Bytes → Option ℕ
parse_digits acc [] = some acc
parse_digits acc (c ∷ s) =
    let rest = parse_digits (acc * 10 + (c - 48)) s in
    if leb 48 c && leb c 57
    then (if ltb (acc * 10 + (c - 48)) u64_limit then rest else none)
    else none

-- `s.parse::<u64>().ok()`: a sign `+` is accepted, an empty string or a lone sign is not.
unfoldable pub parse_u64 : Bytes → Option ℕ
unfolding parse_digits
parse_u64 [] = none
parse_u64 (c ∷ []) = parse_digits 0 (c ∷ [])
parse_u64 (c ∷ d ∷ s) = if c == b'+' then parse_digits 0 (d ∷ s) else parse_digits 0 (c ∷ d ∷ s)

parse_tests :
    (parse_u64 (codes "18446744073709551615") ≡ some 18446744073709551615)
    × (parse_u64 (codes "18446744073709551616") ≡ none)
    × (parse_u64 (codes "+07") ≡ some 7)
    × (parse_u64 (codes "+") ≡ none)
    × (parse_u64 (codes "") ≡ none)
    × (decimal 1205 ≡ codes "1205")
unfolding parse_u64 decimal
parse_tests = (refl, refl, refl, refl, refl, refl)

parse_digits-decimal_from :
    (fuel n : ℕ) (out : Bytes)
    → n < fuel
    → n < u64_limit
    → parse_digits 0 (decimal_from fuel n out) ≡ parse_digits n out
unfolding parse_digits decimal_from
parse_digits-decimal_from zero n out h k = elim h [ ]
parse_digits-decimal_from (suc fuel) n out h k = elim (Bool-cases (ltb n 10)) [
  | inl small ↦ rw small (ground arith)
  | inr large ↦
      rw large (ground (arith, parse_digits-decimal_from fuel (n / 10) ((48 + n % 10) ∷ out)))
]

-- The text of a number begins with a digit.
decimal_from-head :
    (fuel n : ℕ) (out : Bytes)
    → n < fuel
    → (c : ℕ) × (s : Bytes) × (decimal_from fuel n out ≡ c ∷ s) × (48 ≤ c)
unfolding decimal_from
decimal_from-head zero n out h = elim h [ ]
decimal_from-head (suc fuel) n out h = elim (Bool-cases (ltb n 10)) [
  | inl small ↦ (48 + n, out, rw small, omega arith)
  | inr large ↦
      rw large (decimal_from-head fuel (n / 10) ((48 + n % 10) ∷ out) (omega (tests, large)))
]

parse_u64-digit : (c : ℕ) (s : Bytes) → 48 ≤ c → parse_u64 (c ∷ s) ≡ parse_digits 0 (c ∷ s)
unfolding parse_u64
parse_u64-digit c [] h = refl
parse_u64-digit c (d ∷ s) h = ground arith

parse_digits-nil : (n : ℕ) → parse_digits n [] ≡ some n
unfolding parse_digits
parse_digits-nil n = refl

pub parse_u64-decimal : (n : ℕ) → n < u64_limit → parse_u64 (decimal n) ≡ some n
unfolding decimal
parse_u64-decimal n h =
    let (c, s, e, lo) = decimal_from-head (suc n) n [] (omega arith) in
    ap parse_u64 e
    ∙ parse_u64-digit c s lo
    ∙ ap (parse_digits 0) (sym e)
    ∙ parse_digits-decimal_from (suc n) n [] (omega arith) h
    ∙ parse_digits-nil n

parse_digits-lt :
    (acc : ℕ) (s : Bytes) (n : ℕ) → acc < u64_limit → parse_digits acc s ≡ some n → n < u64_limit
unfolding parse_digits
parse_digits-lt acc [] n h k = ground arith
parse_digits-lt acc (c ∷ s) n h k = ground (arith, parse_digits-lt (acc * 10 + (c - 48)) s n)

pub parse_u64-lt : (s : Bytes) (n : ℕ) → parse_u64 s ≡ some n → n < u64_limit
unfolding parse_u64
parse_u64-lt [] n h = ground arith
parse_u64-lt (c ∷ []) n h = parse_digits-lt 0 (c ∷ []) n (omega arith) h
parse_u64-lt (c ∷ d ∷ s) n h =
    ground (arith, parse_digits-lt 0 (d ∷ s) n, parse_digits-lt 0 (c ∷ d ∷ s) n)

-- Decimal digits, and nothing else.
abbrev pub AreDigits : Bytes → Type 0
AreDigits [] = Unit {0}
AreDigits (c ∷ s) = (48 ≤ c) × (c ≤ 57) × AreDigits s

decimal_from-AreDigits :
    (fuel n : ℕ) (out : Bytes) → AreDigits out → AreDigits (decimal_from fuel n out)
unfolding decimal_from
decimal_from-AreDigits zero n out h = h
decimal_from-AreDigits (suc fuel) n out h = elim (Bool-cases (ltb n 10)) [
  | inl small ↦ rw small (omega arith, omega (tests, small), h)
  | inr large ↦
      rw large
        (decimal_from-AreDigits fuel (n / 10) ((48 + n % 10) ∷ out) (omega arith, omega arith, h))
]

pub decimal-AreDigits : (n : ℕ) → AreDigits (decimal n)
unfolding decimal
decimal-AreDigits n = decimal_from-AreDigits (suc n) n [] tt

length-decimal_from :
    (fuel n : ℕ) (out : Bytes) → length (decimal_from fuel n out) ≤ fuel + length out
unfolding decimal_from
length-decimal_from zero n out = omega arith
length-decimal_from (suc fuel) n out = elim (Bool-cases (ltb n 10)) [
  | inl small ↦ rw small (omega arith)
  | inr large ↦ rw large (omega (arith, length-decimal_from fuel (n / 10) ((48 + n % 10) ∷ out)))
]

pub length-decimal : (n : ℕ) → length (decimal n) ≤ suc n
unfolding decimal
length-decimal n = omega (arith, length-decimal_from (suc n) n [])

pub is_empty-decimal : (n : ℕ) → is_empty (decimal n) ≡ false
unfolding decimal
is_empty-decimal n =
    let (c, s, e, lo) = decimal_from-head (suc n) n [] (omega arith) in ap is_empty e
