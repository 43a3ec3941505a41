-- ===== src/Text/Paths/Join.antt =====
-- What `Path::join` puts in front of a relative name.
use env_proxy.Prelude.{
  ℕ, if◌then◌else◌, ◌≡◌, ◌≢◌, refl, ap, sym, ◌∙◌, [], ◌∷◌, ◌++◌, append_assoc, Option, none, some,
  Bool, true, false,
}
use env_proxy.Prelude.Bytes.{Bytes, codes, is_empty}
use env_proxy.Text.Trim.{strip_suffix}
use env_proxy.Text.Paths.{join}

-- A byte that is not at the end of a text is not at the end of what it ends.
strip_suffix-append :
    (c y : ℕ) (xs s : Bytes) → strip_suffix c (y ∷ s) ≡ none → strip_suffix c (xs ++ y ∷ s) ≡ none
unfolding strip_suffix
strip_suffix-append c y [] s h = h
strip_suffix-append c y (x ∷ []) s h = rw h refl
strip_suffix-append c y (x ∷ x' ∷ xs) s h = rw (strip_suffix-append c y (x' ∷ xs) s h) refl

front_by : Option Bytes → Bool → Bytes → Bytes
front_by (some stripped) b dir = dir
front_by none true dir = []
front_by none false dir = dir ++ codes "/"

front : Bytes → Bytes
front dir = front_by (strip_suffix b'/' dir) (is_empty dir) dir

joined :
    (o : Option Bytes) (b : Bool) (dir name : Bytes)
    → (elim o [
      | some stripped ↦ dir ++ name
      | none ↦ if◌then◌else◌ b name (dir ++ (codes "/" ++ name))
    ])
      ≡ front_by o b dir ++ name
unfolding front_by
joined (some stripped) b dir name = refl
joined none true dir name = refl
joined none false dir name = sym (append_assoc dir (codes "/") name)

join-front : (dir name : Bytes) → join dir name ≡ front dir ++ name
unfolding join front
join-front dir name = joined (strip_suffix b'/' dir) (is_empty dir) dir name

append_cancel_left : (xs a b : Bytes) → xs ++ a ≡ xs ++ b → a ≡ b
append_cancel_left [] a b h = h
append_cancel_left (x ∷ xs) a b h = append_cancel_left xs a b cc

-- Two names in a directory are two paths.
pub join-apart : (dir a b : Bytes) → a ≢ b → join dir a ≢ join dir b
join-apart dir a b apart same =
    apart (append_cancel_left (front dir) a b (sym (join-front dir a) ∙ same ∙ join-front dir b))

not_empty : (xs : Bytes) (y : ℕ) (s : Bytes) → is_empty (xs ++ y ∷ s) ≡ false
not_empty [] y s = refl
not_empty (x ∷ xs) y s = refl

front-append :
    (c : Bytes) (y : ℕ) (s : Bytes)
    → strip_suffix b'/' (y ∷ s) ≡ none
    → front (c ++ y ∷ s) ≡ (c ++ y ∷ s) ++ codes "/"
unfolding front front_by
front-append c y s h = rw (strip_suffix-append b'/' y c s h, not_empty c y s) refl

-- A name in a directory inside, whose name does not end with a slash.
pub join-join :
    (dir : Bytes) (y : ℕ) (s name : Bytes)
    → strip_suffix b'/' (y ∷ s) ≡ none
    → join (join dir (y ∷ s)) name ≡ join dir ((y ∷ s) ++ (codes "/" ++ name))
join-join dir y s name h =
    join-front (join dir (y ∷ s)) name
    ∙ ap (λ d. front d ++ name) (join-front dir (y ∷ s))
    ∙ ap (λ d. d ++ name) (front-append (front dir) y s h)
    ∙ append_assoc (front dir ++ y ∷ s) (codes "/") name
    ∙ append_assoc (front dir) (y ∷ s) (codes "/" ++ name)
    ∙ sym (join-front dir ((y ∷ s) ++ (codes "/" ++ name)))
