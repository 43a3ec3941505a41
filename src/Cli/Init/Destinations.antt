-- ===== src/Cli/Init/Destinations.antt =====
-- `init` of crates/envproxy-cli/src/main.rs: its destinations are apart from each other, and from what
-- it writes later.
use env_proxy.Prelude.{◌≡◌, ◌≢◌, refl, List, [], ◌∷◌, ◌++◌, false}
use env_proxy.Prelude.Bytes.{Bytes, codes, beq}
use env_proxy.Cli.Init.{files}
use env_proxy.Cli.Init.Keeps.{beq-apart}

-- A name that is none of the destinations.
abbrev pub IsNew : Bytes → List (Bytes × Bytes) → Type 0
IsNew name [] = Unit {0}
IsNew name ((src, dst) ∷ rest) = (name ≢ dst) × IsNew name rest

abbrev pub AreApart : List (Bytes × Bytes) → Type 0
AreApart [] = Unit {0}
AreApart ((src, dst) ∷ rest) = IsNew dst rest × AreApart rest

-- Destinations that no later part of `init` writes.
abbrev pub AreKept : List (Bytes × Bytes) → Type 0
AreKept [] = Unit {0}
AreKept ((src, dst) ∷ rest) =
    ((name : Bytes) → beq dst (codes "python/" ++ name) ≡ false)
    × (dst ≢ codes "config.toml")
    × AreKept rest

pub files-AreApart : AreApart files
unfolding beq
files-AreApart = (
  (
    beq-apart (codes "envproxy") (codes "envproxy-agent") refl,
    (
      beq-apart (codes "envproxy") (codes "lib/libenvproxy.so") refl,
      (beq-apart (codes "envproxy") (codes "java/envproxy-agent.jar") refl, tt),
    ),
  ),
  (
    (
      beq-apart (codes "envproxy-agent") (codes "lib/libenvproxy.so") refl,
      (beq-apart (codes "envproxy-agent") (codes "java/envproxy-agent.jar") refl, tt),
    ),
    ((beq-apart (codes "lib/libenvproxy.so") (codes "java/envproxy-agent.jar") refl, tt), (tt, tt)),
  ),
)

pub files-AreKept : AreKept files
unfolding beq
files-AreKept = (
  λ name. refl,
  beq-apart (codes "envproxy") (codes "config.toml") refl,
  (
    λ name. refl,
    beq-apart (codes "envproxy-agent") (codes "config.toml") refl,
    (
      λ name. refl,
      beq-apart (codes "lib/libenvproxy.so") (codes "config.toml") refl,
      (λ name. refl, beq-apart (codes "java/envproxy-agent.jar") (codes "config.toml") refl, tt),
    ),
  ),
)
