-- ===== src/Agent/File.antt =====
-- crates/envproxy-agent/src/backend/file.rs: secrets from a JSON file that is read again when its
-- modification time changes.
-- The file system and `serde_json::from_str` are parameters: each call of the file system sees the
-- disk of its moment, and other processes may write between two calls.
pub mod Fresh
pub mod Quiet
use env_proxy.Prelude.{
  ℕ, zero, suc, ◌++◌, [], Option, none, some, Result, ok, err, Bool, true, false, not, ◌==◌,
  if◌then◌else◌,
}
use env_proxy.Prelude.Bytes.{Bytes, codes}
use env_proxy.Prelude.Map.{Map, get}
use env_proxy.Io.{ErrorKind, IoError}
use env_proxy.Agent.Backend.{BackendError, io, parse, Backend, Resolved, default_resolve_with_value}

-- The secrets file: missing, or there with its modification time and what reading it gives.
pub data Disk : Type 0 where
  absent : Disk
  present : (mtime : ℕ) → (contents : Result IoError Bytes) → Disk

-- `metadata(path).ok().and_then(|m| m.modified().ok())`
abbrev pub metadata : Disk → Option ℕ
metadata absent = none
metadata (present mtime contents) = some mtime

abbrev pub no_file : IoError
no_file = record { kind = ErrorKind.not_found; message = codes "No such file or directory" }

-- `read_to_string(path)`
abbrev pub read_to_string : Disk → Result IoError Bytes
read_to_string absent = err no_file
read_to_string (present mtime contents) = contents

-- `FileCache`
pub record FileCache : Type 0 where
  pub entries : Map Bytes  -- `data`
  pub last_modified : Option ℕ

abbrev pub empty_cache : FileCache
empty_cache = record { entries = []; last_modified = none }

-- What was read of the file: its text, that there is none, or another error.
pub data Reading : Type 0 where
  text : Bytes → Reading
  missing : Reading
  broken : IoError → Reading

abbrev reading_of_error : ErrorKind → IoError → Reading
reading_of_error ErrorKind.not_found e = missing
reading_of_error ErrorKind.other e = broken e

-- The arms of `match read_to_string(path)`.
abbrev pub reading_of : Result IoError Bytes → Reading
reading_of (ok c) = text c
reading_of (err e) = reading_of_error e.kind e

-- `needs_reload`
unfoldable pub needs_reload : Option ℕ → Option ℕ → Bool
needs_reload none (some current) = true
needs_reload (some cached) none = true
needs_reload (some cached) (some current) = not (cached == current)
needs_reload none none = false

-- Where a call of `resolve` stands, between two points at which other tasks or processes may run.
pub data Task : Type 0 where
  start : (key : Bytes) → Task  -- before the first `metadata`
  statted : (key : Bytes) → (current_mtime : Option ℕ) → Task  -- before the read lock
  reading : (key : Bytes) → (current_mtime : Option ℕ) → Task  -- before `read_to_string`
  loaded : (key : Bytes) → (current_mtime : Option ℕ) → Reading → Task  -- before the write lock
  looking : (key : Bytes) → Task  -- before the last read lock
  done : Resolved → Task

module _ (path : Bytes) (from_str : Bytes → Result Bytes (Map Bytes)) where
  pub parse_error : Bytes → BackendError
  parse_error e = parse (codes "failed to parse " ++ (path ++ (codes ": " ++ e)))

  -- From the text that was read to the new cache, or to the error that ends the call.
  unfoldable pub store : Bytes → Option ℕ → Reading → FileCache → Task × FileCache
  unfolding parse_error
  store key current_mtime (broken e) c = (done (err (io e)), c)
  store key current_mtime missing c = (done (ok none), empty_cache)
  store key current_mtime (text contents) c = elim (from_str contents) [
    | err e ↦ (done (err (parse_error e)), c)
    | ok entries ↦ (looking key, record { entries = entries; last_modified = current_mtime })
  ]

  -- One step of `resolve`, at a disk and a cache.
  unfoldable pub advance : Disk → Task → FileCache → Task × FileCache
  unfolding store needs_reload
  advance d (start key) c = (statted key (metadata d), c)
  advance d (statted key current_mtime) c = (
    if needs_reload c.last_modified current_mtime then reading key current_mtime else looking key,
    c,
  )
  advance d (reading key current_mtime) c =
      (loaded key current_mtime (reading_of (read_to_string d)), c)
  advance d (loaded key current_mtime r) c = store key current_mtime r c
  advance d (looking key) c = (done (ok (get key c.entries)), c)
  advance d (done r) c = (done r, c)

  -- A task that nothing interrupts, for `n` steps.
  advances : ℕ → Disk → Task → FileCache → Task × FileCache
  advances zero d t c = (t, c)
  advances (suc n) d t c = let (t', c') = advance d t c in advances n d t' c'

  abbrev pub result_of : Task → Resolved
  result_of (done r) = r
  result_of t = ok none

  -- `resolve` run to its end, which takes at most five steps.
  unfoldable pub resolve : Disk → Bytes → FileCache → Resolved × FileCache
  unfolding advances advance
  resolve d key c = let (t, c') = advances 5 d (start key) c in (result_of t, c')

  -- `reload`, which reads the file first and then its modification time: `before` and `after` are
  -- the disks of these two moments.
  unfoldable pub reload : Disk → Disk → FileCache → Result BackendError (Unit {0}) × FileCache
  unfolding parse_error
  reload before after c = elim (reading_of (read_to_string before)) [
    | broken e ↦ (err (io e), c)
    | missing ↦ (ok tt, empty_cache)
    | text contents ↦ elim (from_str contents) [
      | err e ↦ (err (parse_error e), c)
      | ok entries ↦ (ok tt, record { entries = entries; last_modified = metadata after })
    ]
  ]

  -- `FileBackend::new`
  unfoldable pub new : Disk → Disk → Result BackendError FileCache
  unfolding reload
  new before after =
      let (r, c) = reload before after empty_cache in elim r [ err e ↦ err e | ok u ↦ ok c ]

  -- The backend, over the disk and the cache; `resolve_with_value` is the trait's own.
  abbrev pub file_backend : Backend (Disk × FileCache)
  file_backend = record {
    resolve = λ key s. let (r, c) = resolve s.0 key s.1 in (r, (s.0, c));
    resolve_with_value =
        default_resolve_with_value (λ key s. let (r, c) = resolve s.0 key s.1 in (r, (s.0, c)));
  }
