-- ===== src/Injector/Targets.antt =====
-- k8s/injector/internal/webhook/mutator.go: the containers to inject into, and annotations.
use env_proxy.Prelude.{
  List, [], ◌∷◌, ◌++◌, Option, none, some, Bool, true, false, ◌==◌, if◌then◌else◌,
}
use env_proxy.Prelude.Bytes.{Bytes, is_empty, beq}
use env_proxy.Prelude.Map.{get}
use env_proxy.Prelude.Maybe.{unwrap_or}
use env_proxy.Text.Trim.{trim}
use env_proxy.Injector.{Pod}

-- `strings.Split(s, ",")`, from a first part on.
unfoldable pub split_from : Bytes → Bytes → List Bytes
split_from part [] = part ∷ []
split_from part (c ∷ s) = elim (c == b',') [
  | true ↦ part ∷ split_from [] s
  | false ↦ split_from (part ++ (c ∷ [])) s
]

unfoldable pub split : Bytes → List Bytes
unfolding split_from
split s = split_from [] s

unfoldable pub names_of : List Bytes → List Bytes
names_of [] = []
names_of (part ∷ parts) =
    let rest = names_of parts in if is_empty (trim part) then rest else trim part ∷ rest

-- The set of names, or `nil`.
unfoldable pub parse_container_list : Bytes → Option (List Bytes)
parse_container_list s = if is_empty s then none else some (names_of (split s))

unfoldable pub contains : Bytes → List Bytes → Bool
contains name [] = false
contains name (t ∷ targets) = let rest = contains name targets in if beq t name then true else rest

unfoldable pub should_inject : Bytes → Option (List Bytes) → Bool
should_inject name none = true
should_inject name (some targets) = contains name targets

-- A missing key of a Go map reads as the empty text.
abbrev pub annotation : Pod → Bytes → Bytes
annotation pod key = unwrap_or [] (get key pod.annotations)

abbrev pub or_default : Bytes → Bytes → Bytes
or_default v default = if is_empty v then default else v

unfoldable pub annotation_or_default : Pod → Bytes → Bytes → Bytes
annotation_or_default pod key default = elim (get key pod.annotations) [
  | none ↦ default
  | some v ↦ or_default v default
]
