-- ===== src/Text/Trim.antt =====
-- The standard library's `str::trim` and `str::strip_suffix`, on UTF-8 bytes.
pub mod Visible
use env_proxy.Prelude.{
  ℕ, zero, suc, ◌≡◌, refl, [], ◌∷◌, Option, none, some, Bool, ◌&&◌, ◌||◌, leb, ◌==◌, if◌then◌else◌,
  length, drop,
}
use mathlib.Core.List.{reverse}
use mathlib.Core.Option
use env_proxy.Prelude.Bytes.{Bytes, codes}

pub is_ascii_space : ℕ → Bool
is_ascii_space b = (leb 0x09 b && leb b 0x0d) || b == 0x20

-- U+0085 and U+00A0
pub is_space2 : ℕ → ℕ → Bool
is_space2 a b = a == 0xc2 && (b == 0x85 || b == 0xa0)

-- U+1680, U+2000 to U+200A, U+2028, U+2029, U+202F, U+205F and U+3000
pub is_space3 : ℕ → ℕ → ℕ → Bool
is_space3 a b c =
    (a == 0xe1 && (b == 0x9a && c == 0x80))
    || ((a == 0xe2
          && (b == 0x80 && ((leb 0x80 c && leb c 0x8a) || (c == 0xa8 || (c == 0xa9 || c == 0xaf)))))
        || ((a == 0xe2 && (b == 0x81 && c == 0x9f)) || (a == 0xe3 && (b == 0x80 && c == 0x80))))

-- How many bytes the white space character at the front has; 0 if there is none.
pub space_at_front : Bytes → ℕ
unfolding is_ascii_space is_space2 is_space3
space_at_front [] = 0
space_at_front (a ∷ []) = if is_ascii_space a then 1 else 0
space_at_front (a ∷ b ∷ []) = if is_ascii_space a then 1 else if is_space2 a b then 2 else 0
space_at_front (a ∷ b ∷ c ∷ s) =
    if is_ascii_space a then 1 else if is_space2 a b then 2 else if is_space3 a b c then 3 else 0

-- The same at the end, of the bytes in reverse.
pub space_at_end : Bytes → ℕ
unfolding is_ascii_space is_space2 is_space3
space_at_end [] = 0
space_at_end (a ∷ []) = if is_ascii_space a then 1 else 0
space_at_end (a ∷ b ∷ []) = if is_ascii_space a then 1 else if is_space2 b a then 2 else 0
space_at_end (a ∷ b ∷ c ∷ s) =
    if is_ascii_space a then 1 else if is_space2 b a then 2 else if is_space3 c b a then 3 else 0

-- Each round drops at least one byte, so as much fuel as there are bytes suffices.
pub trim_by : (Bytes → ℕ) → ℕ → Bytes → Bytes
trim_by space zero s = s
trim_by space (suc fuel) s = elim (space s) [
  | zero ↦ s
  | suc n ↦ trim_by space fuel (drop (suc n) s)
]

-- `s.trim()`
unfoldable pub trim : Bytes → Bytes
unfolding trim_by space_at_front space_at_end
trim s =
    let t = trim_by space_at_front (length s) s in
    reverse (trim_by space_at_end (length t) (reverse t))

-- `s.strip_suffix(c)` for a byte
unfoldable pub strip_suffix : ℕ → Bytes → Option Bytes
strip_suffix c [] = none
strip_suffix c (x ∷ []) = if x == c then some [] else none
strip_suffix c (x ∷ y ∷ s) = Option.map (λ r. x ∷ r) (strip_suffix c (y ∷ s))

trim_tests :
    (trim (codes "  5m\n") ≡ codes "5m")
    × (trim (codes " \t ") ≡ [])
    × (trim (0xc2 ∷ 0xa0 ∷ b'7' ∷ b's' ∷ 0xe3 ∷ 0x80 ∷ 0x80 ∷ []) ≡ codes "7s")
    × (strip_suffix b'm' (codes "5m") ≡ some (codes "5"))
unfolding trim strip_suffix
trim_tests = (refl, refl, refl, refl)
