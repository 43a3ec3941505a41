-- ===== src/Cli/Init/Keeps.antt =====
-- `init` of crates/envproxy-cli/src/main.rs: what it leaves as it is.
use mathlib.Core.List.{Memᴰ}
use env_proxy.Prelude.{
  ◌≡◌, ◌≢◌, refl, ap, subst, ◌∙◌, List, [], ◌∷◌, ◌++◌, Option, none, some, Result, ok, err, Bool,
  true, false, if◌then◌else◌,
}
use env_proxy.Prelude.Bytes.{Bytes, codes, beq, beq_refl}
use env_proxy.Prelude.Action.{Action, pure, continue, ◌>>=◌}
use env_proxy.Text.Paths.{join}
use env_proxy.Text.Paths.Join.{join-apart, join-join}
use env_proxy.Text.Trim.{strip_suffix}
use env_proxy.Io.{IoError}
use env_proxy.Io.FileSystem.{FileSystem, View, Reads, when}
use env_proxy.Cli.Init.{
  InitError, with_error, with_context, for_each, executable_mode, python_src, create_dir, copy_file,
  copy_entry, copy_python, make_executable, write_config,
}

-- Inversion of a chain that succeeds, and of a call under its context.
pub continue-ok :
    {F A B : Type 0} (r : Result InitError A × F) (k : A → Action F InitError B) (b : B) (f' : F)
    → continue r k ≡ (ok b, f')
    → (a : A) × (f₁ : F) × (r ≡ (ok a, f₁)) × (k a f₁ ≡ (ok b, f'))
continue-ok (ok a, f₁) k b f' h = (a, f₁, refl, h)
continue-ok (err e, f₁) k b f' h = absurd cc

pub with_error-ok :
    {F A : Type 0} (failed : IoError → InitError) (r : Result IoError A × F) (a : A) (f' : F)
    → with_error failed r ≡ (ok a, f')
    → r ≡ (ok a, f')
with_error-ok failed (ok b, f) a f' h = cc
with_error-ok failed (err e, f) a f' h = absurd cc

-- Two texts that a test tells apart.
pub beq-apart : (a b : Bytes) → beq a b ≡ false → a ≢ b
beq-apart a b h same = let r = beq_refl b in absurd cc

-- A path that is not in the directory.
abbrev pub IsOutside : Bytes → Bytes → Type 0
IsOutside target q = (name : Bytes) → q ≢ join target name

-- A path that is not of the Python directory's copy.
abbrev pub IsNotPython : Bytes → Bytes → Type 0
IsNotPython target q = (name : Bytes) → q ≢ join (join target (codes "python")) name

python-join :
    (target name : Bytes)
    → join (join target (codes "python")) name ≡ join target (codes "python/" ++ name)
unfolding strip_suffix
python-join target name = join-join target b'p' (codes "ython") name refl

pub IsNotPython-outside : (target q : Bytes) → IsOutside target q → IsNotPython target q
IsNotPython-outside target q outside name same =
    outside (codes "python/" ++ name) (same ∙ python-join target name)

pub IsNotPython-inside :
    (target dst : Bytes)
    → ((name : Bytes) → beq dst (codes "python/" ++ name) ≡ false)
    → IsNotPython target (join target dst)
IsNotPython-inside target dst apart name same =
    join-apart target dst (codes "python/" ++ name)
      (beq-apart dst (codes "python/" ++ name) (apart name)) (same ∙ python-join target name)

-- The entries of the Python directory have plain paths in the copy.
abbrev pub ArePlainEntries : {F : Type 0} → FileSystem F → View F → Bytes → Type 0
ArePlainEntries {F} fs view target =
    (f : F) (names : List (Result IoError Bytes))
    → fs.read_dir python_src f ≡ ok names
    → (name : Bytes) → Memᴰ (ok name) names
    → view.IsPlain (join (join target (codes "python")) name)

module _ {F : Type 0} (fs : FileSystem F) {view : View F} (laws : Reads fs view) where
  -- Where the part succeeds, the file at a path holds what it held.
  abbrev pub Keeps : {A : Type 0} → Bytes → Action F InitError A → Type 0
  Keeps {A} q m = (a : A) (f f' : F) → m f ≡ (ok a, f') → view.content q f' ≡ view.content q f

  pub Keeps-bind :
      {A B : Type 0} (q : Bytes) (m : Action F InitError A) (k : A → Action F InitError B)
      → Keeps q m
      → ((a : A) → Keeps q (k a))
      → Keeps q (m >>= k)
  Keeps-bind q m k keep keep' b f f' h =
      let (a, f₁, first, second) = continue-ok (m f) k b f' h in
      keep' a b f₁ f' second ∙ keep a f f₁ first

  pub Keeps-pure : {A : Type 0} (q : Bytes) (a : A) → Keeps q (pure a)
  Keeps-pure q a b f f' h = ap (λ x. view.content q x) cc

  Keeps-if :
      {A : Type 0} (q : Bytes) (b : Bool) (m k : Action F InitError A)
      → Keeps q m
      → Keeps q k
      → (a : A) (f f' : F) → (if b then m f else k f) ≡ (ok a, f')
      → view.content q f' ≡ view.content q f
  Keeps-if q true m k keep keep' = keep
  Keeps-if q false m k keep keep' = keep'

  pub Keeps-for_each :
      {A : Type 0} (q : Bytes) (body : A → Action F InitError (Unit {0}))
      → (xs : List A) → ((x : A) → Memᴰ x xs → Keeps q (body x))
      → Keeps q (for_each body xs)
  unfolding for_each
  Keeps-for_each q body [] keep = Keeps-pure q tt
  Keeps-for_each q body (x ∷ xs) keep =
      Keeps-bind q (body x) (λ u. for_each body xs) (keep x (Memᴰ.head refl))
        (λ u. Keeps-for_each q body xs (λ y there. keep y (Memᴰ.tail there)))

  pub Keeps-create_dir :
      (target q dir : Bytes) → view.IsPlain q → Keeps q (create_dir fs target dir)
  unfolding create_dir
  Keeps-create_dir target q dir plain u f f' h =
      laws.keep_create_dir_all (join target dir) q f f' plain
        (with_error-ok (InitError.create_failed dir) (fs.create_dir_all (join target dir) f) u f' h)

  pub copied :
      (failed : IoError → InitError) (src dest : Bytes) (u : Unit {0}) (f f' : F)
      → with_context failed (fs.copy src dest) f ≡ (ok u, f')
      → fs.copy src dest f ≡ (ok u, f')
  copied failed src dest u f f' h = with_error-ok failed (fs.copy src dest f) u f' h

  pub Keeps-copy_file :
      (target q : Bytes) (sd : Bytes × Bytes)
      → view.IsPlain (join target sd.1)
      → view.IsPlain q
      → q ≢ join target sd.1
      → Keeps q (copy_file fs target sd)
  unfolding copy_file
  Keeps-copy_file target q (src, dst) plain plain_q other u f f' h =
      let dest = join target dst in
      laws.keep_copy src dest q f f' plain plain_q
        (copied (InitError.copy_failed src dest) src dest u f f' h) other

  Keeps-copy_entry :
      (target q : Bytes)
      → view.IsPlain q
      → IsNotPython target q
      → (entry : Result IoError Bytes)
      → ((name : Bytes) → entry ≡ ok name → view.IsPlain (join (join target (codes "python")) name))
      → Keeps q (copy_entry fs target entry)
  unfolding copy_entry
  Keeps-copy_entry target q plain_q other (err e) plain u f f' h = absurd cc
  Keeps-copy_entry target q plain_q other (ok name) plain u f f' h =
      let src = join python_src name in
      let dest = join (join target (codes "python")) name in
      let failed = InitError.copy_failed src dest in
      Keeps-if q (fs.is_file src f) (with_context failed (fs.copy src dest)) (pure tt)
        (λ v g g' e.
          laws.keep_copy src dest q g g' (plain name refl) plain_q (copied failed src dest v g g' e)
            (other name))
        (Keeps-pure q tt) u f f' h

  Keeps-entries :
      (target q : Bytes)
      → view.IsPlain q
      → IsNotPython target q
      → (entries : Result IoError (List (Result IoError Bytes)))
      → ((names : List (Result IoError Bytes))
          → entries ≡ ok names
          → (name : Bytes) → Memᴰ (ok name) names
          → view.IsPlain (join (join target (codes "python")) name))
      → (u : Unit {0}) (f f' : F)
      → (elim entries [
        | err e ↦ (err (InitError.read_dir_failed e), f)
        | ok names ↦ for_each (copy_entry fs target) names f
      ])
        ≡ (ok u, f')
      → view.content q f' ≡ view.content q f
  Keeps-entries target q plain_q other (err e) plain u f f' h = absurd cc
  Keeps-entries target q plain_q other (ok names) plain u f f' h =
      Keeps-for_each q (copy_entry fs target) names
        (λ entry there.
          Keeps-copy_entry target q plain_q other entry
            (λ name e. plain names refl name (subst (λ x. Memᴰ x names) e there)))
        u f f' h

  pub Keeps-copy_python :
      (target q : Bytes)
      → ArePlainEntries fs view target
      → view.IsPlain q
      → IsNotPython target q
      → Keeps q (copy_python fs target)
  unfolding copy_python
  Keeps-copy_python target q entries plain_q other u f f' h =
      Keeps-if q (fs.is_dir python_src f)
        (λ g. elim (fs.read_dir python_src g) [
          | err e ↦ (err (InitError.read_dir_failed e), g)
          | ok names ↦ for_each (copy_entry fs target) names g
        ])
        (pure tt)
        (λ v g g' e.
          Keeps-entries target q plain_q other (fs.read_dir python_src g) (entries g) v g g' e)
        (Keeps-pure q tt) u f f' h

  Keeps-when :
      (path q : Bytes) (b : Bool)
      → view.IsPlain q
      → (u : Unit {0}) (f f' : F)
      → ◌≡◌ {A = Result IoError (Unit {0}) × F}
          (elim b [ true ↦ fs.set_permissions path executable_mode f | false ↦ (ok tt, f) ])
          (ok u, f')
      → view.content q f' ≡ view.content q f
  Keeps-when path q true plain_q u f f' h =
      laws.keep_set_permissions path executable_mode q f f' plain_q h
  Keeps-when path q false plain_q u f f' h = ap (λ x. view.content q x) cc

  pub Keeps-make_executable :
      (target q name : Bytes) → view.IsPlain q → Keeps q (make_executable fs target name)
  unfolding make_executable
  Keeps-make_executable target q name plain_q u f f' h =
      let path = join target name in
      Keeps-when path q (fs.exists path f) plain_q u f f' (
        with_error-ok (InitError.chmod_failed path)
          (when (fs.exists path) (fs.set_permissions path executable_mode) f) u f' h)

  pub Keeps-write_config :
      (target q : Bytes)
      → view.IsPlain (join target (codes "config.toml"))
      → view.IsPlain q
      → q ≢ join target (codes "config.toml")
      → (content : Option Bytes) → Keeps q (write_config fs target content)
  unfolding write_config
  Keeps-write_config target q plain plain_q other none u f f' h = Keeps-pure q tt u f f' h
  Keeps-write_config target q plain plain_q other (some content) u f f' h =
      let path = join target (codes "config.toml") in
      laws.keep_write path content q f f' plain plain_q
        (with_error-ok (InitError.write_failed path) (fs.write path content f) u f' h) other
