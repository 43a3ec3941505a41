-- ===== src/Prelude/Bytes/First.antt =====
-- What `find_str` finds is the first occurrence.
use Prim.Native.Nat.{ℕ, zero, suc, ◌+◌, ◌<◌}
use mathlib.Core.Path.{◌≡◌, refl}
use mathlib.Core.Bool.{false}
use mathlib.Core.List.{List, [], ◌∷◌, ◌++◌}
use mathlib.Core.Option.{none, some}
use native.Mathlib.Omega.{arith}
use env_proxy.Prelude.Lists.{length, take, drop, length-append}
use env_proxy.Prelude.Bytes.Search.{
  starts_with, find, find_str, starts_with-append_le, regroup, length-pattern-le, find_str-eq_some,
}

starts_with-short : (p s : List ℕ) → length s < length p → starts_with p s ≡ false
unfolding starts_with
starts_with-short [] s h = elim h [ ]
starts_with-short (c ∷ p) [] h = refl
starts_with-short (c ∷ p) (x ∷ s) h = ground (arith, starts_with-short p s)

find_str-short : (p s : List ℕ) → length s < length p → find_str p s ≡ none
unfolding find_str
find_str-short p [] h = refl
find_str-short p (x ∷ s) h = ground (arith, starts_with-short p (x ∷ s), find_str-short p s)

-- No occurrence begins before the one that is found.
pub find_str-first :
    (q : List ℕ) (c : ℕ) (s : List ℕ) (i : ℕ)
    → find_str (q ++ c ∷ []) s ≡ some i
    → find_str (q ++ c ∷ []) (take i s ++ q) ≡ none
unfolding find_str
find_str-first q c [] i h = ground arith
find_str-first q c (x ∷ s) zero h =
    find_str-short (q ++ c ∷ []) q (omega (arith, length-append {0} q (c ∷ [])))
find_str-first q c (x ∷ s) (suc j) h =
    let p = q ++ c ∷ [] in
    let m = take j s in
    let rest = drop (j + length p) s in
    ground (
      arith,
      find_str-first q c s j,
      find_str-eq_some p s j,
      regroup q c m rest,
      starts_with-append_le p (x ∷ (m ++ q)) (c ∷ rest) (length-pattern-le q c x m),
    )

-- Without the pattern's first byte there is no occurrence that begins inside `m`.
pub find_str-no_head :
    (c : ℕ) (p m u : List ℕ)
    → find c m ≡ none
    → find_str (c ∷ p) u ≡ none
    → find_str (c ∷ p) (m ++ u) ≡ none
unfolding find find_str starts_with
find_str-no_head c p [] u h k = k
find_str-no_head c p (x ∷ m) u h k = ground (arith, find_str-no_head c p m u)
