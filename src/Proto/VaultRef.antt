-- ===== src/Proto/VaultRef.antt =====
-- `VaultRef` and `parse_vault_ref` of crates/envproxy-proto/src/lib.rs.
pub mod Canonical
pub mod Laws
use env_proxy.Prelude.{
  ℕ, zero, suc, ◌+◌, ◌≡◌, refl, [], ◌∷◌, ◌++◌, Option, none, some, Bool, true, false, not, ◌||◌,
  arith, if◌then◌else◌, length, take, drop,
}
use env_proxy.Prelude.Bytes.{Bytes, codes, is_empty}
use env_proxy.Prelude.Bytes.Search.{strip_prefix, find, find_str}
use env_proxy.Prelude.Maybe.{◌>>=◌, ◌>>◌, guard}
use env_proxy.Text.Number.{parse_u64}
use env_proxy.Proto.Wire.{vault_prefix}

pub record VaultRef : Type 0 where
  pub mount : Bytes
  pub path : Bytes
  pub key : Bytes
  pub version : Option ℕ

abbrev pub data_segment : Bytes
data_segment = codes "/data/"

-- "KEY" or "KEY#3"
unfoldable pub parse_key : Bytes → Option (Bytes × Option ℕ)
parse_key after_hash = elim (find b'#' after_hash) [
  | some ver_pos ↦ do
    v ← parse_u64 (drop (ver_pos + 1) after_hash)
    some (take ver_pos after_hash, some v)
  | none ↦ some (after_hash, none)
]

-- "secret/data/myapp/config", or "secret/myapp/config" with no `/data/` segment.
unfoldable pub parse_path : Bytes → Option (Bytes × Bytes)
parse_path full_path = elim (find_str data_segment full_path) [
  | some data_pos ↦ some (take data_pos full_path, drop (data_pos + 6) full_path)
  | none ↦ do
    first_slash ← find b'/' full_path
    some (take first_slash full_path, drop (first_slash + 1) full_path)
]

-- The parts, unless one of them is empty.
unfoldable pub assemble : Bytes × Bytes → Bytes × Option ℕ → Option VaultRef
assemble (mount, path) (key, version) =
    if is_empty mount || (is_empty path || is_empty key)
    then none
    else some (record { mount = mount; path = path; key = key; version = version })

unfoldable pub parse_vault_ref : Bytes → Option VaultRef
unfolding assemble
parse_vault_ref value = do
  rest ← strip_prefix vault_prefix value
  hash_pos ← find b'#' rest
  let full_path = take hash_pos rest
  let after_hash = drop (hash_pos + 1) rest
  guard (not (is_empty after_hash))
  named ← parse_key after_hash
  located ← parse_path full_path
  assemble located named
