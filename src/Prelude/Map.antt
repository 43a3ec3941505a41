-- ===== src/Prelude/Map.antt =====
-- `HashMap<String, V>` as an association list; the order of entries is not modelled.
use mathlib.Core.Path.{◌≡◌, refl}
use mathlib.Core.Option.{Option, none, some}
use mathlib.Core.List.{List, [], ◌∷◌}
use native.Mathlib.Omega.{arith}
use env_proxy.Prelude.Tests.{if◌then◌else◌}
use env_proxy.Prelude.Bytes.{Bytes, beq, beq_iff}

abbrev pub Map {ℓ} : Type ℓ → Type ℓ
Map V = List (Bytes × V)

module _ {ℓ} {V : Type ℓ} where
  -- `map.get(key).cloned()`
  unfoldable pub get : Bytes → Map V → Option V
  get k [] = none
  get k ((j, v) ∷ m) = if beq j k then some v else get k m

  -- `map.insert(key, value)`
  unfoldable pub insert : Bytes → V → Map V → Map V
  insert k v [] = (k, v) ∷ []
  insert k v ((j, w) ∷ m) = if beq j k then (k, v) ∷ m else (j, w) ∷ insert k v m

  pub get-insert :
      (k j : Bytes) (v : V) (m : Map V)
      → get j (insert k v m) ≡ (if beq k j then some v else get j m)
  unfolding get insert
  get-insert k j v [] = refl
  get-insert k j v ((i, w) ∷ m) =
      ground (arith, beq_iff k j, beq_iff i k, beq_iff i j, get-insert k j v m)

  -- `map.remove(key)`
  unfoldable pub remove : Bytes → Map V → Map V
  remove k [] = []
  remove k ((j, w) ∷ m) = let rest = remove k m in if beq j k then rest else (j, w) ∷ rest

  pub get-remove :
      (k j : Bytes) (m : Map V) → get j (remove k m) ≡ (if beq k j then none else get j m)
  unfolding get remove
  get-remove k j [] = ground arith
  get-remove k j ((i, w) ∷ m) =
      ground (arith, beq_iff k j, beq_iff i k, beq_iff i j, get-remove k j m)
