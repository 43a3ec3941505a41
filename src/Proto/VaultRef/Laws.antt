-- ===== src/Proto/VaultRef/Laws.antt =====
-- What a parsed reference says of the text that it was parsed from.
use env_proxy.Prelude.{
  ℕ, ◌+◌, ◌≡◌, ◌<◌, refl, ◌⊎◌, [], ◌∷◌, ◌++◌, Option, none, some, true, false, arith, take, drop,
  append_assoc, append-nil, inl, inr, Option-cases,
}
use env_proxy.Prelude.Bytes.{Bytes, is_empty}
use env_proxy.Prelude.Bytes.Search.{
  starts_with, starts_with-append, strip_prefix, find, find_str, strip_prefix-eq_some, find-eq_some,
  find_str-eq_some,
}
use env_proxy.Text.Number.{parse_u64, parse_u64-lt, u64_limit}
use env_proxy.Proto.Wire.{vault_prefix}
use env_proxy.Proto.VaultRef.{VaultRef, data_segment, parse_key, parse_path, parse_vault_ref}

-- How the optional version stands at the end of a reference.
abbrev pub IsVersion : Option ℕ → Bytes → Type 0
IsVersion none s = s ≡ []
IsVersion (some n) s =
    (digits : Bytes) × (s ≡ b'#' ∷ digits) × (parse_u64 digits ≡ some n) × (n < u64_limit)

parse_key_parts :
    (s key : Bytes) (version : Option ℕ)
    → parse_key s ≡ some (key, version)
    → (tail : Bytes) × (s ≡ key ++ tail) × IsVersion version tail × (find b'#' key ≡ none)
unfolding parse_key
parse_key_parts s key none h =
    ([], ground (arith, append-nil s), refl, ground (arith, append-nil s))
parse_key_parts s key (some n) h = elim (Option-cases (find b'#' s)) [
  | inl e ↦ absurd (ground arith)
  | inr (i, e) ↦
      let (cut, first) = find-eq_some b'#' s i e in
      let digits = drop (i + 1) s in
      let read : parse_u64 digits ≡ some n = ground arith in
      (b'#' ∷ digits, ground arith, (digits, refl, read, parse_u64-lt digits n read), ground arith)
]

-- The separator between mount and path.
abbrev pub IsSeparator : Bytes → Type 0
IsSeparator s = (s ≡ data_segment) ⊎ (s ≡ b'/' ∷ [])

parse_path_parts :
    (s mount path : Bytes)
    → parse_path s ≡ some (mount, path)
    → (sep : Bytes) × IsSeparator sep × (s ≡ mount ++ (sep ++ path))
unfolding parse_path
parse_path_parts s mount path h = elim (Option-cases (find_str data_segment s)) [
  | inl none_there ↦ elim (Option-cases (find b'/' s)) [
    | inl e ↦ absurd (ground arith)
    | inr (i, e) ↦ let (cut, first) = find-eq_some b'/' s i e in (b'/' ∷ [], inr refl, ground arith)
  ]
  | inr (i, e) ↦
      let cut = find_str-eq_some data_segment s i e in (data_segment, inl refl, ground arith)
]

-- What a parsed reference says of its text.
pub record Reads (value : Bytes) (r : VaultRef) : Type 0 where
  pub separator : Bytes
  pub tail : Bytes
  pub is_separator : IsSeparator separator
  pub is_version : IsVersion r.version tail
  pub text : value ≡ vault_prefix ++ (r.mount ++ (separator ++ (r.path ++ b'#' ∷ (r.key ++ tail))))
  pub filled : (is_empty r.mount ≡ false) × (is_empty r.path ≡ false) × (is_empty r.key ≡ false)
  pub no_hash : (find b'#' (r.mount ++ (separator ++ r.path)) ≡ none) × (find b'#' r.key ≡ none)

-- The steps of a parse that succeeds.
pub parse_vault_ref_steps :
    (value : Bytes) (r : VaultRef)
    → parse_vault_ref value ≡ some r
    → (rest : Bytes) × (hash_pos : ℕ) × (strip_prefix vault_prefix value ≡ some rest)
      × (find b'#' rest ≡ some hash_pos)
      × (parse_key (drop (hash_pos + 1) rest) ≡ some (r.key, r.version))
      × (parse_path (take hash_pos rest) ≡ some (r.mount, r.path))
      × (is_empty r.mount ≡ false)
      × (is_empty r.path ≡ false)
      × (is_empty r.key ≡ false)
unfolding parse_vault_ref
parse_vault_ref_steps value r h = ground arith

-- What `parse_vault_ref` returns was written in the text: the prefix, a mount, a separator, a path
-- and a key that are not empty and hold no `#`, and the version's digits, worth less than 2 ^ 64.
pub parse_vault_ref-Reads :
    (value : Bytes) (r : VaultRef) → parse_vault_ref value ≡ some r → Reads value r
parse_vault_ref-Reads value r h =
    let (rest, i, stripped, hashed, named, located, m, p, k) = parse_vault_ref_steps value r h in
    let (cut, first) = find-eq_some b'#' rest i hashed in
    let (tail, key_text, is_version, key_clear) =
      parse_key_parts (drop (i + 1) rest) r.key r.version named in
    let (sep, is_sep, path_text) = parse_path_parts (take i rest) r.mount r.path located in
    record {
      separator = sep;
      tail = tail;
      is_separator = is_sep;
      is_version = is_version;
      text = ground (
        arith,
        strip_prefix-eq_some vault_prefix value rest stripped,
        append_assoc r.mount (sep ++ r.path) (b'#' ∷ (r.key ++ tail)),
        append_assoc sep r.path (b'#' ∷ (r.key ++ tail)),
      );
      filled = (m, p, k);
      no_hash = (ground arith, key_clear);
    }

pub parse_vault_ref-starts_with :
    (value : Bytes) (r : VaultRef)
    → parse_vault_ref value ≡ some r
    → starts_with vault_prefix value ≡ true
parse_vault_ref-starts_with value r h =
    let reads = parse_vault_ref-Reads value r h in
    let rest = r.mount ++ (reads.separator ++ (r.path ++ b'#' ∷ (r.key ++ reads.tail))) in
    rw (reads.text) (starts_with-append vault_prefix rest)
