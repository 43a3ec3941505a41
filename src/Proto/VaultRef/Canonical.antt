-- ===== src/Proto/VaultRef/Canonical.antt =====
-- The references that `parse_vault_ref` returns, and the text from which it parses each.
use env_proxy.Prelude.{
  ℕ, ◌≡◌, ◌<◌, refl, sym, inl, inr, [], ◌∷◌, ◌++◌, Option, none, some, false, arith, take,
  append_assoc, Option-cases, take-append_length, drop-append_add,
}
use env_proxy.Prelude.Bytes.{Bytes, codes, is_empty}
use env_proxy.Prelude.Bytes.Search.{
  starts_with, find, find_str, strip_prefix-append, find-append, find-append_none, find_str-append,
  find-eq_some,
}
use env_proxy.Prelude.Bytes.First.{find_str-first, find_str-no_head}
use env_proxy.Text.Number.{decimal, parse_u64-decimal, u64_limit}
use env_proxy.Proto.Wire.{vault_prefix}
use env_proxy.Proto.VaultRef.{
  VaultRef, data_segment, parse_key, parse_path, assemble, parse_vault_ref,
}
use env_proxy.Proto.VaultRef.Laws.{IsVersion, parse_vault_ref_steps, parse_vault_ref-Reads}

-- A reference whose parts can be told apart in a text.
pub record IsCanonical (r : VaultRef) : Type 0 where
  pub mount_filled : is_empty r.mount ≡ false
  pub path_filled : is_empty r.path ≡ false
  pub key_filled : is_empty r.key ≡ false
  pub mount_clear : find b'#' r.mount ≡ none
  pub path_clear : find b'#' r.path ≡ none
  pub key_clear : find b'#' r.key ≡ none
  pub first_data : find_str data_segment (r.mount ++ codes "/data") ≡ none
  pub version_fits : (n : ℕ) → r.version ≡ some n → n < u64_limit

-- The key, with its version if it has one.
abbrev pub key_text : Bytes → Option ℕ → Bytes
key_text key none = key
key_text key (some n) = key ++ b'#' ∷ decimal n

abbrev pub text_of : VaultRef → Bytes
text_of r =
    vault_prefix ++ (r.mount ++ (data_segment ++ (r.path ++ b'#' ∷ key_text r.key r.version)))

parse_key-key_text :
    (key : Bytes) (version : Option ℕ)
    → find b'#' key ≡ none
    → ((n : ℕ) → version ≡ some n → n < u64_limit)
    → parse_key (key_text key version) ≡ some (key, version)
unfolding parse_key
parse_key-key_text key none h lt = ground arith
parse_key-key_text key (some n) h lt = ground (
  arith,
  find-append b'#' key (decimal n),
  take-append_length key (b'#' ∷ decimal n),
  drop-append_add key (b'#' ∷ decimal n) 1,
  parse_u64-decimal n (lt n refl),
)

parse_path-data :
    (mount path : Bytes)
    → find_str data_segment (mount ++ codes "/data") ≡ none
    → parse_path (mount ++ (data_segment ++ path)) ≡ some (mount, path)
unfolding parse_path
parse_path-data mount path h = ground (
  arith,
  find_str-append (codes "/data") b'/' mount path h,
  take-append_length mount (data_segment ++ path),
  drop-append_add mount (data_segment ++ path) 6,
)

key_text-filled :
    (key : Bytes) (version : Option ℕ)
    → is_empty key ≡ false
    → is_empty (key_text key version) ≡ false
key_text-filled [] version h = ground arith
key_text-filled (x ∷ key) none h = refl
key_text-filled (x ∷ key) (some n) h = refl

no_hash : find b'#' data_segment ≡ none
unfolding find
no_hash = refl

-- A reference is parsed from its text, if its parts are not empty and hold no `#`, the `/data/` behind
-- its mount is the first in the text, and its version is below 2 ^ 64.
pub parse_vault_ref-text_of : (r : VaultRef) → IsCanonical r → parse_vault_ref (text_of r) ≡ some r
unfolding parse_vault_ref assemble
parse_vault_ref-text_of r c =
    let k = key_text r.key r.version in
    let full = r.mount ++ (data_segment ++ r.path) in
    let rest = full ++ b'#' ∷ k in
    let clear : find b'#' full ≡ none =
      find-append_none b'#' r.mount (data_segment ++ r.path) c.mount_clear
        (find-append_none b'#' data_segment r.path no_hash c.path_clear) in
    let grouped : r.mount ++ (data_segment ++ (r.path ++ b'#' ∷ k)) ≡ rest =
      sym (append_assoc r.mount (data_segment ++ r.path) (b'#' ∷ k)) in
    rw
      (
        grouped,
        strip_prefix-append vault_prefix rest,
        find-append b'#' full k clear,
        take-append_length full (b'#' ∷ k),
        drop-append_add full (b'#' ∷ k) 1,
        key_text-filled r.key r.version c.key_filled,
        parse_key-key_text r.key r.version c.key_clear c.version_fits,
        parse_path-data r.mount r.path c.first_data,
        c.mount_filled,
        c.path_filled,
        c.key_filled,
      )
      refl

-- A string without `c` has parts without `c`.
find-none_parts :
    (c : ℕ) (xs ys : Bytes) → find c (xs ++ ys) ≡ none → (find c xs ≡ none) × (find c ys ≡ none)
unfolding find
find-none_parts c [] ys h = (refl, h)
find-none_parts c (x ∷ xs) ys h = ground (arith, find-none_parts c xs ys)

no_data : find_str data_segment (codes "/data") ≡ none
unfolding find_str starts_with
no_data = refl

parse_path-first :
    (s mount path : Bytes)
    → parse_path s ≡ some (mount, path)
    → find_str data_segment (mount ++ codes "/data") ≡ none
unfolding parse_path
parse_path-first s mount path h = elim (Option-cases (find_str data_segment s)) [
  | inr (i, e) ↦
      let first = find_str-first (codes "/data") b'/' s i e in
      let cut : take i s ≡ mount = ground arith in rw (sym cut) first
  | inl e ↦ elim (Option-cases (find b'/' s)) [
    | inl f ↦ absurd (ground arith)
    | inr (i, f) ↦
        let (split, clear) = find-eq_some b'/' s i f in
        let cut : take i s ≡ mount = ground arith in
        find_str-no_head b'/' (codes "data/") mount (codes "/data") (rw (sym cut) clear) no_data
  ]
]

version_lt :
    (version : Option ℕ) (tail : Bytes)
    → IsVersion version tail
    → (n : ℕ) → version ≡ some n
    → n < u64_limit
version_lt none tail h n e = cc
version_lt (some m) tail h n e = let lt = h.3 in ground arith

-- Every reference that `parse_vault_ref` returns has parts that are not empty and hold no `#`, a mount
-- behind which `/data/` would be the first, and a version below 2 ^ 64, if any.
pub parse_vault_ref-IsCanonical :
    (value : Bytes) (r : VaultRef) → parse_vault_ref value ≡ some r → IsCanonical r
parse_vault_ref-IsCanonical value r h =
    let reads = parse_vault_ref-Reads value r h in
    let (rest, i, stripped, hashed, named, located, m, p, k) = parse_vault_ref_steps value r h in
    let (mount_clear, others) =
      find-none_parts b'#' r.mount (reads.separator ++ r.path) reads.no_hash.0 in
    record {
      mount_filled = m;
      path_filled = p;
      key_filled = k;
      mount_clear = mount_clear;
      path_clear = (find-none_parts b'#' reads.separator r.path others).1;
      key_clear = reads.no_hash.1;
      first_data = parse_path-first (take i rest) r.mount r.path located;
      version_fits = version_lt r.version reads.tail reads.is_version;
    }
