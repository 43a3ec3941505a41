-- ===== src/Cli/Init.antt =====
-- crates/envproxy-cli/src/main.rs: `init`, which copies the runtime files to a directory.
-- The file system is a parameter; `read_dir` gives the entries' names, all at
-- once.
pub mod Keeps
pub mod Destinations
pub mod Copied
use env_proxy.Prelude.{
  ℕ, List, [], ◌∷◌, ◌++◌, Option, none, some, Result, ok, err, Bool, true, false, if◌then◌else◌,
}
use env_proxy.Prelude.Bytes.{Bytes, codes}
use env_proxy.Prelude.Action.{Action, pure, fail, ◌>>=◌, ◌>>◌}
use env_proxy.Text.Paths.{join}
use env_proxy.Io.{IoError}
use env_proxy.Io.FileSystem.{FileSystem, when}

-- The errors, by their contexts; that of an entry has none.
pub data InitError : Type 0 where
  create_failed : (dir : Bytes) → IoError → InitError
  copy_failed : (src : Bytes) → (dest : Bytes) → IoError → InitError
  read_dir_failed entry_failed : IoError → InitError
  chmod_failed write_failed : (path : Bytes) → IoError → InitError

abbrev pub with_error :
    {F A : Type 0} → (IoError → InitError) → Result IoError A × F → Result InitError A × F
with_error failed (ok a, f) = (ok a, f)
with_error failed (err e, f) = (err (failed e), f)

abbrev pub with_context :
    {F A : Type 0} → (IoError → InitError) → Action F IoError A → Action F InitError A
with_context failed m f = with_error failed (m f)

-- A `for` loop.
unfoldable pub for_each :
    {F A : Type 0} → (A → Action F InitError (Unit {0})) → List A → Action F InitError (Unit {0})
for_each body [] = pure tt
for_each body (x ∷ xs) = body x >> for_each body xs

abbrev pub dirs : List Bytes
dirs = codes "lib" ∷ codes "python" ∷ codes "java" ∷ []

-- Source and destination.
abbrev pub files : List (Bytes × Bytes)
files =
    (codes "/usr/bin/envproxy", codes "envproxy")
    ∷ (codes "/usr/bin/envproxy-agent", codes "envproxy-agent")
    ∷ (codes "/usr/lib/envproxy/lib/libenvproxy.so", codes "lib/libenvproxy.so")
    ∷ (codes "/usr/lib/envproxy/java/envproxy-agent.jar", codes "java/envproxy-agent.jar")
    ∷ []

abbrev pub python_src : Bytes
python_src = codes "/usr/lib/envproxy/python"

abbrev pub executables : List Bytes
executables = codes "envproxy" ∷ codes "envproxy-agent" ∷ []

-- `0o755`
abbrev pub executable_mode : ℕ
executable_mode = 493

abbrev pub copied_line : Bytes → Bytes
copied_line target = codes "envproxy init: copied runtime files to " ++ target

module _ {F : Type 0} (fs : FileSystem F) (target : Bytes) where
  unfoldable pub create_dir : Bytes → Action F InitError (Unit {0})
  create_dir dir = with_context (create_failed dir) (fs.create_dir_all (join target dir))

  unfoldable pub copy_file : Bytes × Bytes → Action F InitError (Unit {0})
  copy_file (src, dst) =
      let dest = join target dst in with_context (copy_failed src dest) (fs.copy src dest)

  -- One entry of the Python directory: copied if it is a file.
  unfoldable pub copy_entry : Result IoError Bytes → Action F InitError (Unit {0})
  copy_entry (err e) f = (err (entry_failed e), f)
  copy_entry (ok file_name) f =
      let src_path = join python_src file_name in
      let dest = join (join target (codes "python")) file_name in
      if fs.is_file src_path f
      then with_context (copy_failed src_path dest) (fs.copy src_path dest) f
      else (ok tt, f)

  unfoldable pub copy_python : Action F InitError (Unit {0})
  copy_python f =
      if fs.is_dir python_src f
      then elim (fs.read_dir python_src f) [
        | err e ↦ (err (read_dir_failed e), f)
        | ok entries ↦ for_each copy_entry entries f
      ]
      else (ok tt, f)

  unfoldable pub make_executable : Bytes → Action F InitError (Unit {0})
  make_executable name =
      let path = join target name in
      with_context (chmod_failed path)
        (when (fs.exists path) (fs.set_permissions path executable_mode))

  unfoldable pub write_config : Option Bytes → Action F InitError (Unit {0})
  write_config none = pure tt
  write_config (some content) =
      let config_path = join target (codes "config.toml") in
      with_context (write_failed config_path) (fs.write config_path content)

  -- The line that is printed, without its end.
  unfoldable pub cmd_init : Option Bytes → Action F InitError Bytes
  cmd_init config_content = do
    for_each create_dir dirs
    for_each copy_file files
    copy_python
    for_each make_executable executables
    write_config config_content
    pure (copied_line target)
