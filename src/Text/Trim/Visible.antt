-- ===== src/Text/Trim/Visible.antt =====
-- `trim` and `strip_suffix` on a text of visible ASCII bytes.
use env_proxy.Prelude.{
  ℕ, zero, suc, ◌≡◌, ◌≤◌, refl, ap, ◌∙◌, append-nil, [], ◌∷◌, ◌++◌, none, some, ◌==◌, if◌then◌else◌,
  length, arith,
}
use mathlib.Core.List.{reverse, reverse_aux}
use env_proxy.Prelude.Bytes.{Bytes}
use env_proxy.Text.Trim.{
  trim, trim_by, space_at_front, space_at_end, is_ascii_space, is_space2, is_space3, strip_suffix,
}

-- Digits and letters, and what stands between them.
abbrev pub IsVisible : Bytes → Type 0
IsVisible [] = Unit {0}
IsVisible (c ∷ s) = (48 ≤ c) × (c ≤ 122) × IsVisible s

pub IsVisible-append : (s t : Bytes) → IsVisible s → IsVisible t → IsVisible (s ++ t)
IsVisible-append [] t h k = k
IsVisible-append (c ∷ s) t (lo, hi, h) k = (lo, hi, IsVisible-append s t h k)

space_at_front-visible : (s : Bytes) → IsVisible s → space_at_front s ≡ 0
unfolding space_at_front is_ascii_space is_space2 is_space3
space_at_front-visible [] h = refl
space_at_front-visible (a ∷ []) (lo, hi, h) = ground arith
space_at_front-visible (a ∷ b ∷ []) (lo, hi, h) = ground arith
space_at_front-visible (a ∷ b ∷ c ∷ s) (lo, hi, h) = ground arith

space_at_end-visible : (s : Bytes) → IsVisible s → space_at_end s ≡ 0
unfolding space_at_end is_ascii_space is_space2 is_space3
space_at_end-visible [] h = refl
space_at_end-visible (a ∷ []) (lo, hi, h) = ground arith
space_at_end-visible (a ∷ b ∷ []) (lo, hi, h) = ground arith
space_at_end-visible (a ∷ b ∷ c ∷ s) (lo, hi, h) = ground arith

trim_by-none : (space : Bytes → ℕ) (fuel : ℕ) (s : Bytes) → space s ≡ 0 → trim_by space fuel s ≡ s
unfolding trim_by
trim_by-none space zero s h = refl
trim_by-none space (suc fuel) s h = rw (h, trim_by) refl

-- The last byte decides whether there is a suffix.
pub strip_suffix-last :
    (c y : ℕ) (s : Bytes) → strip_suffix c (s ++ y ∷ []) ≡ (if y == c then some s else none)
unfolding strip_suffix
strip_suffix-last c y [] = ground arith
strip_suffix-last c y (x ∷ []) = ground arith
strip_suffix-last c y (x ∷ x' ∷ s) = ground (arith, strip_suffix-last c y (x' ∷ s))

IsVisible-reverse_aux : (s r : Bytes) → IsVisible s → IsVisible r → IsVisible (reverse_aux s r)
IsVisible-reverse_aux [] r h k = k
IsVisible-reverse_aux (c ∷ s) r (lo, hi, h) k = IsVisible-reverse_aux s (c ∷ r) h (lo, hi, k)

reverse_aux-reverse_aux : (s r t : Bytes) → reverse_aux (reverse_aux s r) t ≡ reverse_aux r (s ++ t)
reverse_aux-reverse_aux [] r t = refl
reverse_aux-reverse_aux (c ∷ s) r t = reverse_aux-reverse_aux s (c ∷ r) t

pub trim-visible : (s : Bytes) → IsVisible s → trim s ≡ s
unfolding trim
trim-visible s h =
    let front = trim_by-none space_at_front (length s) s (space_at_front-visible s h) in
    let end =
      trim_by-none space_at_end (length s) (reverse s)
        (space_at_end-visible (reverse s) (IsVisible-reverse_aux s [] h tt)) in
    rw front (ap reverse end ∙ reverse_aux-reverse_aux s [] [] ∙ append-nil s)
