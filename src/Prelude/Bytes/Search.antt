-- ===== src/Prelude/Bytes/Search.antt =====
-- Prefixes and first occurrences in byte strings.
use Prim.Native.Nat.{ℕ, zero, suc, ◌+◌, ◌≤◌}
use mathlib.Core.Path.{◌≡◌, refl, ap}
use mathlib.Core.Bool.{Bool, true, false, ◌&&◌}
use mathlib.Core.Option
use mathlib.Core.Option.{Option, none, some}
use mathlib.Core.List.{List, [], ◌∷◌, ◌++◌, append_assoc}
use native.Mathlib.Omega.{arith}
use env_proxy.Prelude.Tests.{◌==◌, if◌then◌else◌}
use env_proxy.Prelude.Lists.{length, take, drop, length-append}

-- `s.starts_with(p)`
unfoldable pub starts_with : List ℕ → List ℕ → Bool
starts_with [] s = true
starts_with (c ∷ p) [] = false
starts_with (c ∷ p) (x ∷ s) = (c == x) && starts_with p s

-- `s.strip_prefix(p)`
unfoldable pub strip_prefix : List ℕ → List ℕ → Option (List ℕ)
strip_prefix [] s = some s
strip_prefix (c ∷ p) [] = none
strip_prefix (c ∷ p) (x ∷ s) = let rest = strip_prefix p s in if c == x then rest else none

-- `s.find(c)` for a byte
unfoldable pub find : ℕ → List ℕ → Option ℕ
find c [] = none
find c (x ∷ s) = let rest = Option.map suc (find c s) in if c == x then some 0 else rest

-- `s.find(p)` for a byte string that is not empty
unfoldable pub find_str : List ℕ → List ℕ → Option ℕ
find_str p [] = none
find_str p (x ∷ s) =
    let rest = Option.map suc (find_str p s) in if starts_with p (x ∷ s) then some 0 else rest

pub starts_with-append : (p s : List ℕ) → starts_with p (p ++ s) ≡ true
unfolding starts_with
starts_with-append [] s = refl
starts_with-append (c ∷ p) s = ground (arith, starts_with-append p s)

pub strip_prefix-append : (p s : List ℕ) → strip_prefix p (p ++ s) ≡ some s
unfolding strip_prefix
strip_prefix-append [] s = refl
strip_prefix-append (c ∷ p) s = ground (arith, strip_prefix-append p s)

pub strip_prefix-eq_some : (p s r : List ℕ) → strip_prefix p s ≡ some r → s ≡ p ++ r
unfolding strip_prefix
strip_prefix-eq_some [] s r h = ground arith
strip_prefix-eq_some (c ∷ p) [] r h = ground arith
strip_prefix-eq_some (c ∷ p) (x ∷ s) r h = ground (arith, strip_prefix-eq_some p s r)

pub strip_prefix-eq_none : (p s : List ℕ) → starts_with p s ≡ false → strip_prefix p s ≡ none
unfolding strip_prefix starts_with
strip_prefix-eq_none [] s h = ground arith
strip_prefix-eq_none (c ∷ p) [] h = refl
strip_prefix-eq_none (c ∷ p) (x ∷ s) h = ground (arith, strip_prefix-eq_none p s)

-- The first `c` of `xs ++ c ∷ ys` ends `xs`, if `xs` has none.
pub find-append :
    (c : ℕ) (xs ys : List ℕ) → find c xs ≡ none → find c (xs ++ c ∷ ys) ≡ some (length xs)
unfolding find
find-append c [] ys h = ground arith
find-append c (x ∷ xs) ys h = ground (arith, find-append c xs ys)

pub find-append_none :
    (c : ℕ) (xs ys : List ℕ) → find c xs ≡ none → find c ys ≡ none → find c (xs ++ ys) ≡ none
unfolding find
find-append_none c [] ys h k = k
find-append_none c (x ∷ xs) ys h k = ground (arith, find-append_none c xs ys)

-- What `find` returns cuts the string at the first `c`.
pub find-eq_some :
    (c : ℕ) (s : List ℕ) (i : ℕ)
    → find c s ≡ some i
    → (s ≡ take i s ++ c ∷ drop (suc i) s) × (find c (take i s) ≡ none)
unfolding find
find-eq_some c [] i h = ground arith
find-eq_some c (x ∷ s) zero h = ground arith
find-eq_some c (x ∷ s) (suc i) h = ground (arith, find-eq_some c s i)

-- Whether `p` is a prefix is decided by as many bytes as `p` has.
pub starts_with-append_le :
    (p u v : List ℕ) → length p ≤ length u → starts_with p (u ++ v) ≡ starts_with p u
unfolding starts_with
starts_with-append_le [] u v h = refl
starts_with-append_le (c ∷ p) [] v h = elim h [ ]
starts_with-append_le (c ∷ p) (x ∷ u) v h =
    ap (λ b. (c == x) && b) (starts_with-append_le p u v (omega arith))

pub regroup : (q : List ℕ) (c : ℕ) (m ys : List ℕ) → m ++ ((q ++ c ∷ []) ++ ys) ≡ (m ++ q) ++ c ∷ ys
regroup q c m ys = simp append_assoc

pub length-pattern-le :
    (q : List ℕ) (c x : ℕ) (m : List ℕ) → length (q ++ c ∷ []) ≤ length (x ∷ (m ++ q))
length-pattern-le q c x m = omega (arith, length-append {0} q (c ∷ []), length-append {0} m q)

-- Of `m ++ q ++ c ∷ ys` the first `q ++ c ∷ []` ends `m`, if `m ++ q` has none.
pub find_str-append :
    (q : List ℕ) (c : ℕ) (m ys : List ℕ)
    → find_str (q ++ c ∷ []) (m ++ q) ≡ none
    → find_str (q ++ c ∷ []) (m ++ ((q ++ c ∷ []) ++ ys)) ≡ some (length m)
unfolding find_str
find_str-append [] c [] ys h = ground (arith, starts_with-append (c ∷ []) ys)
find_str-append (x ∷ q) c [] ys h = ground (arith, starts_with-append (x ∷ (q ++ c ∷ [])) ys)
find_str-append q c (x ∷ m) ys h = ground (
  arith,
  find_str-append q c m ys,
  regroup q c m ys,
  starts_with-append_le (q ++ c ∷ []) (x ∷ (m ++ q)) (c ∷ ys) (length-pattern-le q c x m),
)

-- What `find_str` returns cuts the string at the pattern.
starts_with-eq_append : (p s : List ℕ) → starts_with p s ≡ true → s ≡ p ++ drop (length p) s
unfolding starts_with
starts_with-eq_append [] s h = refl
starts_with-eq_append (c ∷ p) [] h = ground arith
starts_with-eq_append (c ∷ p) (x ∷ s) h = ground (arith, starts_with-eq_append p s)

pub find_str-eq_some :
    (p s : List ℕ) (i : ℕ) → find_str p s ≡ some i → s ≡ take i s ++ (p ++ drop (i + length p) s)
unfolding find_str
find_str-eq_some p [] i h = ground arith
find_str-eq_some p (x ∷ s) zero h = ground (arith, starts_with-eq_append p (x ∷ s))
find_str-eq_some p (x ∷ s) (suc i) h =
    let e : suc i + length p ≡ suc (i + length p) = omega arith in
    ground (arith, find_str-eq_some p s i, e)
