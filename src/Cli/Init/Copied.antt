-- ===== src/Cli/Init/Copied.antt =====
-- `init` of crates/envproxy-cli/src/main.rs: what it leaves in the target directory.
use env_proxy.Prelude.{◌≡◌, refl, List, [], ◌∷◌, Option, none, some}
use env_proxy.Prelude.Bytes.{Bytes, codes, beq}
use env_proxy.Prelude.Action.{Action, pure, ◌>>◌}
use env_proxy.Text.Paths.{join}
use env_proxy.Text.Trim.{strip_suffix}
use env_proxy.Io.FileSystem.{FileSystem, View, Reads}
use env_proxy.Cli.Init.{
  InitError, for_each, files, executables, copy_python, make_executable, write_config, copied_line,
}
use env_proxy.Cli.Init.Keeps.{Keeps, IsOutside, ArePlainEntries, beq-apart}

module _ {F : Type 0} (view : View F) (target : Bytes) where
  -- Each destination holds what its source held.
  abbrev pub AreCopied : F → F → List (Bytes × Bytes) → Type 0
  AreCopied f f' [] = Unit {0}
  AreCopied f f' ((src, dst) ∷ rest) =
      ((c : Bytes) × (view.content src f ≡ some c) × (view.content (join target dst) f' ≡ some c))
      × AreCopied f f' rest

  -- The configuration, if one was given.
  abbrev pub HasConfig : Option Bytes → F → Type 0
  HasConfig none f = Unit {0}
  HasConfig (some content) f = view.content (join target (codes "config.toml")) f ≡ some content

  -- The sources and the destinations are plain.
  abbrev pub ArePlain : List (Bytes × Bytes) → Type 0
  ArePlain [] = Unit {0}
  ArePlain ((src, dst) ∷ rest) = view.IsPlain src × view.IsPlain (join target dst) × ArePlain rest

-- No source is in the directory.
abbrev pub AreOutside : Bytes → List (Bytes × Bytes) → Type 0
AreOutside target [] = Unit {0}
AreOutside target ((src, dst) ∷ rest) = IsOutside target src × AreOutside target rest

-- The paths of the files that `init` reads and writes are plain.
pub record PlainPaths {F : Type 0} (fs : FileSystem F) (view : View F) (target : Bytes)
    : Type 0 where
  pub files_plain : ArePlain view target files
  pub config_plain : view.IsPlain (join target (codes "config.toml"))
  pub entries_plain : ArePlainEntries fs view target

module _ {F : Type 0} (fs : FileSystem F) {view : View F} (laws : Reads fs view) (target : Bytes)
    (paths : PlainPaths fs view target) where
  -- What comes after the copies, with the configuration last.
  abbrev configure : Option Bytes → Action F InitError Bytes
  configure content = write_config fs target content >> pure (copied_line target)

  abbrev finish : Option Bytes → Action F InitError Bytes
  finish content =
      copy_python fs target
      >> (for_each (make_executable fs target) executables >> configure content)

-- No source is in the directory that is the default.
abbrev pub default_target : Bytes
default_target = codes "/envproxy"

pub default_target-AreOutside : AreOutside default_target files
unfolding join strip_suffix beq
default_target-AreOutside = (
  λ name. beq-apart (codes "/usr/bin/envproxy") (join default_target name) refl,
  (
    λ name. beq-apart (codes "/usr/bin/envproxy-agent") (join default_target name) refl,
    (
      λ name.
          beq-apart (codes "/usr/lib/envproxy/lib/libenvproxy.so") (join default_target name) refl,
      (
        λ name.
            beq-apart (codes "/usr/lib/envproxy/java/envproxy-agent.jar") (join default_target name)
              refl,
        tt,
      ),
    ),
  ),
)
