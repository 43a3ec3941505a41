-- ===== src/Agent/Server/Bind.antt =====
-- `Server::bind` of crates/envproxy-agent/src/server.rs.
-- `Path::parent` is a parameter.
use env_proxy.Prelude.{
  ◌≡◌, ◌⊎◌, inl, inr, refl, Option, none, some, Result, ok, err, Bool, true, false,
}
use env_proxy.Prelude.Bytes.{Bytes}
use env_proxy.Prelude.Action.{Action, pure, continue, ◌>>◌}
use env_proxy.Io.{IoError}
use env_proxy.Io.FileSystem.{FileSystem, when, Removes}

module _ {F : Type 0} (fs : FileSystem F) (parent : Bytes → Option Bytes) where
  unfoldable pub create_parent : Option Bytes → Action F IoError (Unit {0})
  create_parent none = pure tt
  create_parent (some dir) = fs.create_dir_all dir

  -- A file at the path is removed.
  unfoldable pub remove_stale : Bytes → Action F IoError (Unit {0})
  remove_stale socket_path = when (fs.exists socket_path) (fs.remove_file socket_path)

  unfoldable pub bind : Bytes → Action F IoError (Unit {0})
  bind socket_path = do
    create_parent (parent socket_path)
    remove_stale socket_path
    fs.bind socket_path

  -- The rest of `bind`, from the state where the directory is there: nothing is at the path and it
  -- ends with the listener's own `bind`; or something is there and its removal fails, with whose error
  -- it ends; or it is removed, nothing is at the path, and it ends with the listener's own `bind`.
  abbrev pub IsListening : Bytes → F → Result IoError (Unit {0}) × F → Type 0
  IsListening socket_path f o =
      ((fs.exists socket_path f ≡ false) × (o ≡ fs.bind socket_path f))
      ⊎ ((e : IoError) × (f' : F) × (fs.exists socket_path f ≡ true)
          × (fs.remove_file socket_path f ≡ (err e, f'))
          × (o ≡ (err e, f')))
      ⊎ ((f' : F) × (fs.exists socket_path f ≡ true)
          × (fs.remove_file socket_path f ≡ (ok tt, f'))
          × (fs.exists socket_path f' ≡ false)
          × (o ≡ fs.bind socket_path f'))

  -- How a call of `bind` ends: with the error of the call that creates the directory; or in the state
  -- that this call leaves, which is the first one where the path has no parent, with the rest.
  abbrev pub IsBound : Bytes → F → Result IoError (Unit {0}) × F → Type 0
  IsBound socket_path f o =
      ((dir : Bytes) × (e : IoError) × (f' : F) × (parent socket_path ≡ some dir)
        × (fs.create_dir_all dir f ≡ (err e, f'))
        × (o ≡ (err e, f')))
      ⊎ ((parent socket_path ≡ none) × IsListening socket_path f o)
      ⊎ ((dir : Bytes) × (f' : F) × (parent socket_path ≡ some dir)
          × (fs.create_dir_all dir f ≡ (ok tt, f'))
          × IsListening socket_path f' o)

  -- After the call that removes the file.
  removed :
      Removes fs
      → (socket_path : Bytes) (f : F) (o : Result IoError (Unit {0}) × F)
      → fs.exists socket_path f ≡ true
      → fs.remove_file socket_path f ≡ o
      → IsListening socket_path f (continue o (λ u. fs.bind socket_path))
  removed removes socket_path f (ok u, f') there eq =
      inr (inr (f', there, eq, removes socket_path f f' eq, refl))
  removed removes socket_path f (err e, f') there eq = inr (inl (e, f', there, eq, refl))

  -- After the test that the path exists.
  looked :
      Removes fs
      → (socket_path : Bytes) (f : F) (there : Bool) → fs.exists socket_path f ≡ there
      → IsListening socket_path f (
          continue {A = Unit {0}}
            (elim there [ true ↦ fs.remove_file socket_path f | false ↦ (ok tt, f) ])
            (λ u. fs.bind socket_path))
  looked removes socket_path f true eq =
      removed removes socket_path f (fs.remove_file socket_path f) eq refl
  looked removes socket_path f false eq = inl (eq, refl)

  listening :
      Removes fs
      → (socket_path : Bytes) (f : F)
      → IsListening socket_path f ((remove_stale socket_path >> fs.bind socket_path) f)
  unfolding remove_stale
  listening removes socket_path f = looked removes socket_path f (fs.exists socket_path f) refl

  -- After the call that creates the directory.
  created :
      Removes fs
      → (socket_path dir : Bytes) (f : F) (o : Result IoError (Unit {0}) × F)
      → parent socket_path ≡ some dir
      → fs.create_dir_all dir f ≡ o
      → IsBound socket_path f (continue o (λ u. (remove_stale socket_path >> fs.bind socket_path)))
  created removes socket_path dir f (ok u, f') has eq =
      inr (inr (dir, f', has, eq, listening removes socket_path f'))
  created removes socket_path dir f (err e, f') has eq = inl (dir, e, f', has, eq, refl)

  -- After the look at the parent.
  parent_found :
      Removes fs
      → (socket_path : Bytes) (f : F) (p : Option Bytes) → parent socket_path ≡ p
      → IsBound socket_path f
          (continue (create_parent p f) (λ u. (remove_stale socket_path >> fs.bind socket_path)))
  unfolding create_parent
  parent_found removes socket_path f none has = inr (inl (has, listening removes socket_path f))
  parent_found removes socket_path f (some dir) has =
      created removes socket_path dir f (fs.create_dir_all dir f) has refl

  -- As long as a file that the file system has removed is gone: `bind` ends with the error of the call
  -- that creates the directory, or of the removal of what is at the path, or with the listener's own
  -- `bind`, called in a state where nothing is at the path.
  pub bind-IsBound :
      Removes fs → (socket_path : Bytes) (f : F) → IsBound socket_path f (bind socket_path f)
  unfolding bind
  bind-IsBound removes socket_path f = parent_found removes socket_path f (parent socket_path) refl
