-- ===== src/Io/FileSystem.antt =====
-- What the source asks of the file system, over a state that the calls read and change.
use env_proxy.Prelude.{ℕ, ◌≡◌, ◌≢◌, List, Option, some, Result, ok, Bool, true, false}
use env_proxy.Prelude.Bytes.{Bytes}
use env_proxy.Prelude.Action.{Action}
use env_proxy.Io.{IoError}

pub record FileSystem (F : Type 0) : Type 0 where
  pub exists : Bytes → F → Bool
  pub is_dir : Bytes → F → Bool
  pub is_file : Bytes → F → Bool
  pub read_to_string : Bytes → F → Result IoError Bytes
  pub read_dir : Bytes → F → Result IoError (List (Result IoError Bytes))
  pub create_dir_all : Bytes → Action F IoError (Unit {0})
  pub remove_file : Bytes → Action F IoError (Unit {0})
  pub bind : Bytes → Action F IoError (Unit {0})
  pub copy : Bytes → Bytes → Action F IoError (Unit {0})
  pub write : Bytes → Bytes → Action F IoError (Unit {0})
  pub set_permissions : Bytes → ℕ → Action F IoError (Unit {0})

-- A call that is done only where a test on the state says so.
abbrev pub when :
    {F : Type 0} → (F → Bool) → Action F IoError (Unit {0}) → Action F IoError (Unit {0})
when test m f = elim (test f) [ true ↦ m f | false ↦ (ok tt, f) ]

-- What there is to say of files beyond what the source asks: the bytes of the file at a path, if there
-- is one, and which paths are plain. A plain path is absolute and canonical in every state of `F`,
-- the states that a run meets: it goes through no link, `.` or `..`, has no doubled or final `/`, and a
-- regular file, or nothing, is at it; such a file has no other name. Two plain paths that differ name
-- two files.
pub record View (F : Type 0) : Type 1 where
  pub content : Bytes → F → Option Bytes
  pub IsPlain : Bytes → Type 0

module _ {F : Type 0} (fs : FileSystem F) where
  -- A call that succeeds has removed the file.
  abbrev pub Removes : Type 0
  Removes = (p : Bytes) (f f' : F) → fs.remove_file p f ≡ (ok tt, f') → fs.exists p f' ≡ false

  -- What the files hold after a call that succeeds.
  pub record Reads (view : View F) : Type 0 where
    pub read_write :
        (p contents : Bytes) (f f' : F)
        → view.IsPlain p
        → fs.write p contents f ≡ (ok tt, f')
        → view.content p f' ≡ some contents
    pub read_copy :
        (from to : Bytes) (f f' : F)
        → view.IsPlain from
        → view.IsPlain to
        → from ≢ to
        → fs.copy from to f ≡ (ok tt, f')
        → (c : Bytes) × (view.content from f ≡ some c) × (view.content to f' ≡ some c)
    pub keep_write :
        (p contents q : Bytes) (f f' : F)
        → view.IsPlain p
        → view.IsPlain q
        → fs.write p contents f ≡ (ok tt, f')
        → q ≢ p
        → view.content q f' ≡ view.content q f
    pub keep_copy :
        (from to q : Bytes) (f f' : F)
        → view.IsPlain to
        → view.IsPlain q
        → fs.copy from to f ≡ (ok tt, f')
        → q ≢ to
        → view.content q f' ≡ view.content q f
    pub keep_create_dir_all :
        (p q : Bytes) (f f' : F)
        → view.IsPlain q
        → fs.create_dir_all p f ≡ (ok tt, f')
        → view.content q f' ≡ view.content q f
    pub keep_set_permissions :
        (p : Bytes) (mode : ℕ) (q : Bytes) (f f' : F)
        → view.IsPlain q
        → fs.set_permissions p mode f ≡ (ok tt, f')
        → view.content q f' ≡ view.content q f
