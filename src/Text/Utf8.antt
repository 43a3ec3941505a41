-- ===== src/Text/Utf8.antt =====
-- UTF-8 as the standard library reads it, one byte at a time: `String::from_utf8` and
-- `String::from_utf8_lossy`, which puts U+FFFD for each maximal part of a broken character.
use env_proxy.Prelude.{
  ℕ, zero, suc, ◌≡◌, refl, sym, ap, ◌∙◌, [], ◌∷◌, ◌++◌, Option, none, some, Bool, true, false, ◌&&◌,
  arith, ltb, leb, ◌==◌, if◌then◌else◌, ◌⊎◌, append_assoc,
}
use env_proxy.Prelude.Bytes.{Bytes, codes}

-- Between characters, or inside one: the bytes seen, the range of the next byte, and how many
-- more continuation bytes follow that one.
pub data Place : Type 0 where
  between : Place
  inside : (seen : Bytes) (lo hi more : ℕ) → Place

abbrev replacement : Bytes
replacement = 0xef ∷ 0xbf ∷ 0xbd ∷ []

-- What a byte at the start of a character begins; `none` if none begins so.
lead : ℕ → Option Place
lead b =
    if ltb b 0x80
    then some between
    else if leb 0xc2 b && leb b 0xdf
    then some (inside (b ∷ []) 0x80 0xbf 0)
    else if b == 0xe0
    then some (inside (b ∷ []) 0xa0 0xbf 1)
    else if b == 0xed
    then some (inside (b ∷ []) 0x80 0x9f 1)
    else if leb 0xe1 b && leb b 0xef
    then some (inside (b ∷ []) 0x80 0xbf 1)
    else if b == 0xf0
    then some (inside (b ∷ []) 0x90 0xbf 2)
    else if leb 0xf1 b && leb b 0xf3
    then some (inside (b ∷ []) 0x80 0xbf 2)
    else if b == 0xf4
    then some (inside (b ∷ []) 0x80 0x8f 2)
    else none

-- The output and the place after a byte between characters.
start : ℕ → Bytes × Place
start b = elim (lead b) [
  | none ↦ (replacement, between)
  | some between ↦ (b ∷ [], between)
  | some (inside seen lo hi more) ↦ ([], inside seen lo hi more)
]

-- A continuation byte that fits extends the character or ends it.
continue : Bytes → ℕ → ℕ → Bytes × Place
continue seen zero b = (seen ++ b ∷ [], between)
continue seen (suc more) b = ([], inside (seen ++ b ∷ []) 0x80 0xbf more)

step : Place → ℕ → Bytes × Place
step between b = start b
step (inside seen lo hi more) b =
    if leb lo b && leb b hi then continue seen more b else (replacement ++ (start b).0, (start b).1)

lossy_from : Place → Bytes → Bytes
lossy_from between [] = []
lossy_from (inside seen lo hi more) [] = replacement
lossy_from p (b ∷ s) = (step p b).0 ++ lossy_from (step p b).1 s

-- `String::from_utf8_lossy`
unfoldable pub from_utf8_lossy : Bytes → Bytes
unfolding lossy_from step start lead continue
from_utf8_lossy s = lossy_from between s

-- Whether every byte fits its place, and the string ends between characters.
valid_from : Place → Bytes → Bool
valid_from between [] = true
valid_from (inside seen lo hi more) [] = false
valid_from between (b ∷ s) = elim (lead b) [ none ↦ false | some p ↦ valid_from p s ]
valid_from (inside seen lo hi more) (b ∷ s) =
    let rest = valid_from (continue seen more b).1 s in if leb lo b && leb b hi then rest else false

unfoldable pub is_utf8 : Bytes → Bool
unfolding valid_from lead continue
is_utf8 s = valid_from between s

-- `String::from_utf8(s).ok()`
unfoldable pub from_utf8 : Bytes → Option Bytes
from_utf8 s = if is_utf8 s then some s else none

lossy_tests :
    (from_utf8_lossy (codes "key") ≡ codes "key")
    × (from_utf8_lossy (0xe2 ∷ 0x82 ∷ 0xac ∷ []) ≡ 0xe2 ∷ 0x82 ∷ 0xac ∷ [])
    × (from_utf8_lossy (0xf0 ∷ 0x90 ∷ b'a' ∷ 0xff ∷ []) ≡ replacement ++ (b'a' ∷ replacement))
    × (is_utf8 (0xed ∷ 0xa0 ∷ 0x80 ∷ []) ≡ false)
unfolding from_utf8_lossy is_utf8
lossy_tests = (refl, refl, refl, refl)

abbrev pending : Place → Bytes
pending between = []
pending (inside seen lo hi more) = seen

lead_seen : (b : ℕ) (p : Place) → lead b ≡ some p → (p ≡ between) ⊎ (pending p ≡ b ∷ [])
unfolding lead
lead_seen b p e = ground arith

start-lead :
    (b : ℕ) (p : Place) → lead b ≡ some p → ((start b).0 ++ pending p ≡ b ∷ []) × ((start b).1 ≡ p)
unfolding start
start-lead b p e = ground (arith, lead_seen b p e)

module _ (b : ℕ) (s : Bytes)
    (keeps : (p : Place) → valid_from p s ≡ true → lossy_from p s ≡ pending p ++ s) where
  lossy_from-lead :
      (o : Option Place)
      → lead b ≡ o
      → valid_from between (b ∷ s) ≡ true
      → lossy_from between (b ∷ s) ≡ b ∷ s
  unfolding valid_from lossy_from step
  lossy_from-lead none e h = ground arith
  lossy_from-lead (some p) e h =
      let (out, place) = start-lead b p e in
      rw (place, keeps p (ground arith))
        (sym (append_assoc (start b).0 (pending p) s) ∙ ap (λ u. u ++ s) out)

-- What has been seen of a valid rest is kept as it is.
lossy_from-valid : (p : Place) (s : Bytes) → valid_from p s ≡ true → lossy_from p s ≡ pending p ++ s
unfolding valid_from lossy_from continue step
lossy_from-valid between [] h = refl
lossy_from-valid (inside seen lo hi more) [] h = ground arith
lossy_from-valid between (b ∷ s) h = lossy_from-lead b s (λ p. lossy_from-valid p s) (lead b) refl h
lossy_from-valid (inside seen lo hi zero) (b ∷ s) h =
    ground (arith, lossy_from-valid between s, append_assoc seen (b ∷ []) s)
lossy_from-valid (inside seen lo hi (suc more)) (b ∷ s) h = ground (
  arith,
  lossy_from-valid (inside (seen ++ b ∷ []) 0x80 0xbf more) s,
  append_assoc seen (b ∷ []) s,
)

pub from_utf8_lossy-valid : (s : Bytes) → is_utf8 s ≡ true → from_utf8_lossy s ≡ s
unfolding from_utf8_lossy is_utf8
from_utf8_lossy-valid s h = lossy_from-valid between s h
