-- ===== src/Agent/Start/Order.antt =====
-- The order in which `main` of crates/envproxy-agent/src/main.rs meets its errors.
use env_proxy.Prelude.{◌≡◌, ◌⊎◌, inl, inr, refl, Result, ok, err}
use env_proxy.Prelude.Bytes.{Bytes}
use env_proxy.Prelude.Action.{pure, continue, ◌>>=◌, ◌>>◌}
use env_proxy.Io.FileSystem.{Removes}
use env_proxy.Agent.Config.{Config}
use env_proxy.Agent.Server.Bind.{bind, IsBound, bind-IsBound}
use env_proxy.Agent.Start.{Outside, StartError, Started, load, create_backend, start, bind_socket}

module _ {F Api Settings Client : Type 0} (o : Outside F Api Settings Client) where
  -- The agent did not come to its socket: an error, and the files as they were.
  abbrev pub IsRefused : Bytes → F → Result StartError (Config × Started Client) × F → Type 0
  IsRefused path f r =
      (e : StartError) × (r ≡ (err e, f))
      × ((load o path f ≡ err e)
          ⊎ ((c : Config) × (load o path f ≡ ok c) × (create_backend o c.backend f ≡ err e)))

  -- With its configuration and backend, it came to `bind`, which failed, or it listens.
  abbrev pub HasBound : Bytes → F → Result StartError (Config × Started Client) × F → Type 0
  HasBound path f r =
      (c : Config) × (b : Started Client) × (load o path f ≡ ok c)
      × (create_backend o c.backend f ≡ ok b)
      × (r ≡ continue (bind_socket o c.agent.socket f) (λ u. pure (c, b)))
      × IsBound o.fs o.parent c.agent.socket f (bind o.fs o.parent c.agent.socket f)

  abbrev pub IsStart : Bytes → F → Result StartError (Config × Started Client) × F → Type 0
  IsStart path f r = IsRefused path f r ⊎ HasBound path f r

  with_backend :
      Removes o.fs
      → (path : Bytes) (f : F) (c : Config) (r : Result StartError (Started Client))
      → load o path f ≡ ok c
      → create_backend o c.backend f ≡ r
      → IsStart path f (continue (r, f) (λ b. (bind_socket o c.agent.socket >> pure (c, b))))
  with_backend removes path f c (err e) loaded made = inl (e, refl, inr (c, loaded, made))
  with_backend removes path f c (ok b) loaded made =
      inr (c, b, loaded, made, refl, bind-IsBound o.fs o.parent removes c.agent.socket f)

  with_config :
      Removes o.fs
      → (path : Bytes) (f : F) (r : Result StartError Config) → load o path f ≡ r
      → IsStart path f (
          continue {A = Config}
            (r, f)
            (λ c.
              ((λ f. (create_backend o c.backend f, f)) >>= λ b.
              (bind_socket o c.agent.socket >> pure (c, b)))))
  with_config removes path f (err e) loaded = inl (e, refl, inl loaded)
  with_config removes path f (ok c) loaded =
      with_backend removes path f c (create_backend o c.backend f) loaded refl

  -- The agent ends with the error of its configuration or of its backend, and has then changed no
  -- file, or it has both and comes to `bind` for the configured socket, which ends with the error of
  -- the call that creates the directory, or of the removal of what is at the path, or with the
  -- listener's own `bind`, called in a state where nothing is at the path. A file that the file system
  -- has removed is gone.
  pub start-IsStart : Removes o.fs → (path : Bytes) (f : F) → IsStart path f (start o path f)
  unfolding start
  start-IsStart removes path f = with_config removes path f (load o path f) refl
