-- ===== src/Client/Hooks/Found.antt =====
-- What the constructor of crates/libenvproxy/src/lib.rs reads from the environment, and what its search
-- for the support files finds.
use env_proxy.Prelude.{
  ◌≡◌, ◌≢◌, ◌⊎◌, refl, inl, inr, ◌∙◌, sym, ap, [], ◌∷◌, List, Option, none, some, true, false,
  arith, Option-cases, Bool-cases, if◌then◌else◌,
}
use env_proxy.Prelude.Bytes.{Bytes, codes, is_empty, beq, beq→eq}
use env_proxy.Prelude.Maybe.{◌>>=◌, >>=-eq_some}
use env_proxy.Prelude.Map.{get}
use env_proxy.Text.Paths.{join}
use env_proxy.Text.Utf8.{is_utf8}
use env_proxy.Client.Hooks.{
  Env, Files, var, or_default, first_with, candidates_in, find_beside, get_self_path,
  find_support_dir, find_support_file,
}

-- A value that the library takes for no value: there is none, or it is empty or not UTF-8.
abbrev pub IsLost : Option Bytes → Type 0
IsLost value =
    (value ≡ none) ⊎ (value ≡ some []) ⊎ ((v : Bytes) × (value ≡ some v) × (is_utf8 v ≡ false))

-- A value that it keeps.
abbrev pub IsKept : Option Bytes → Bytes → Type 0
IsKept value v = (value ≡ some v) × (is_utf8 v ≡ true) × (is_empty v ≡ false)

pub default_cases :
    (name : Bytes) (env : Env)
    → ((v : Bytes) × IsKept (get name env) v × (or_default name env ≡ v))
      ⊎ (IsLost (get name env) × (or_default name env ≡ []))
unfolding or_default var
default_cases name env = elim (Option-cases (get name env)) [
  | inl unset ↦ inr (inl unset, rw (or_default, var, unset) refl)
  | inr (v, there) ↦ elim (Bool-cases (is_utf8 v)) [
    | inr bad ↦ inr (inr (inr (v, there, bad)), rw (or_default, var, there, bad) refl)
    | inl good ↦ kept_or_empty v there good
  ]
]
  where
    kept_or_empty :
        (v : Bytes)
        → get name env ≡ some v
        → is_utf8 v ≡ true
        → ((w : Bytes) × IsKept (get name env) w × (or_default name env ≡ w))
          ⊎ (IsLost (get name env) × (or_default name env ≡ []))
    kept_or_empty [] there good = inr (inr (inl there), rw (or_default, var, there, good) refl)
    kept_or_empty (b ∷ v) there good =
        inl (b ∷ v, (there, good, refl), rw (or_default, var, there, good) refl)

-- A switch that reads as `1` is set to `1`.
pub is_one :
    (name : Bytes) (env : Env)
    → beq (or_default name env) (codes "1") ≡ true
    → get name env ≡ some (codes "1")
is_one name env h = elim (default_cases name env) [
  | inl (v, (there, good, full), e) ↦
      there ∙ ap (λ w. some w) (sym e ∙ beq→eq (or_default name env) (codes "1") h)
  | inr (lost, e) ↦ absurd (nothing (sym (beq→eq (or_default name env) (codes "1") h) ∙ e))
]
  where
    nothing : codes "1" ≢ []
    nothing e = absurd cc

pub not_one :
    (name : Bytes) (env : Env)
    → beq (or_default name env) (codes "1") ≡ false
    → get name env ≢ some (codes "1")
unfolding or_default var beq is_utf8
not_one name env h set = absurd (ground (arith, set))

module _ (files : Files) where
  -- A directory with the marker file, or the canonical path of one.
  abbrev pub HasMarker : Bytes → Bytes → Type 0
  HasMarker marker dir =
      (files.exists (join dir marker) ≡ true)
      ⊎ ((c : Bytes) × (files.exists (join c marker) ≡ true) × (files.canonicalize c ≡ some dir))

  first_with-HasMarker :
      (marker : Bytes) (candidates : List Bytes) (dir : Bytes)
      → first_with files marker candidates ≡ some dir
      → HasMarker marker dir
  unfolding first_with
  first_with-HasMarker marker [] dir h = absurd cc
  first_with-HasMarker marker (c ∷ cs) dir h = elim (Bool-cases (files.exists (join c marker))) [
    | inl there ↦ inr (c, there, rw there at h)
    | inr missing ↦ first_with-HasMarker marker cs dir (rw missing at h)
  ]

  find_beside-HasMarker :
      (subdir marker dir : Bytes)
      → find_beside files subdir marker ≡ some dir
      → HasMarker marker dir
  unfolding find_beside
  find_beside-HasMarker subdir marker dir h =
      let (so_path, mine, rest) =
        >>=-eq_some (get_self_path files)
          (λ x. files.parent x >>= λ y. first_with files marker (candidates_in files y subdir)) h in
      let (so_dir, above, found) =
        >>=-eq_some (files.parent so_path)
          (λ y. first_with files marker (candidates_in files y subdir)) rest in
      first_with-HasMarker marker (candidates_in files so_dir subdir) dir found

  pub find_support_dir-HasMarker :
      (env : Env) (subdir marker dir : Bytes)
      → find_support_dir files env subdir marker ≡ some dir
      → HasMarker marker dir
  unfolding find_support_dir
  find_support_dir-HasMarker env subdir marker dir h =
      ground (arith, find_beside-HasMarker subdir marker dir)

  pub find_support_file-exists :
      (env : Env) (subdir filename file : Bytes)
      → find_support_file files env subdir filename ≡ some file
      → files.exists file ≡ true
  unfolding find_support_file
  find_support_file-exists env subdir filename file h =
      let (dir, found, rest) =
        >>=-eq_some (find_support_dir files env subdir filename)
          (λ d. if files.exists (join d filename) then some (join d filename) else none) h in
      ground (arith, rest)
