-- ===== src/EndToEnd/Start.antt =====
-- libenvproxy against an agent that was started with the file backend.
use env_proxy.Prelude.{ℕ, ◌≡◌, inl, inr, refl, sym, ◌∙◌, some, Result, ok, err, subst, arith}
use env_proxy.Prelude.Bytes.{Bytes}
use env_proxy.Prelude.Map.{Map, get}
use env_proxy.Prelude.Action.{pure, continue}
use env_proxy.Io.FileSystem.{Removes}
use env_proxy.Agent.Config.{BackendConfig, file, http, kubernetes, vault, Config}
use env_proxy.Agent.File.{Disk, present, FileCache, file_backend, new}
use env_proxy.Agent.File.Fresh.{new-IsFreshCache}
use env_proxy.Agent.Kubernetes.{new as new_kubernetes}
use env_proxy.Agent.Vault.Login.{new as new_vault}
use env_proxy.Agent.Start.{
  Outside, StartError, Started, of_file, of_kubernetes, of_vault, file_failed, kubernetes_failed,
  vault_failed, create_backend, bind_socket, start, context,
}
use env_proxy.Agent.Start.Order.{start-IsStart}
use env_proxy.Client.Getenv.{or_real, getenv}
use env_proxy.EndToEnd.Exchange.{delivered}
use env_proxy.EndToEnd.Backends.{World, IsAsking, IsServed, getenv-file}

-- Inversion of a call under its context.
context-ok :
    {A B E : Type 0} (failed : E → StartError) (done : A → B) (r : Result E A) (b : B)
    → context failed done r ≡ ok b
    → (a : A) × (r ≡ ok a) × (done a ≡ b)
context-ok failed done (ok a) b h = (a, refl, cc)
context-ok failed done (err e) b h = absurd cc

module _ {F Api Settings Client : Type 0} (o : Outside F Api Settings Client) where
  pure_inverse :
      (r : Result StartError (Unit {0}) × F) (c c' : Config) (b b' : Started Client) (f' : F)
      → continue {B = Config × Started Client} r (λ u. pure (c', b')) ≡ (ok (c, b), f')
      → (c' ≡ c) × (b' ≡ b)
  pure_inverse (ok u, f) c c' b b' f' h = (cc, cc)
  pure_inverse (err e, f) c c' b b' f' h = absurd cc

  start-create_backend :
      Removes o.fs
      → (path : Bytes) (f f' : F) (c : Config) (b : Started Client)
      → start o path f ≡ (ok (c, b), f')
      → create_backend o c.backend f ≡ ok b
  start-create_backend removes path f f' c b h = elim (start-IsStart o removes path f) [
    | inl (e, refused, why) ↦ absurd cc
    | inr (c', b', loaded, made, bound, rest) ↦
        let same = pure_inverse (bind_socket o c'.agent.socket f) c c' b b' f' (sym bound ∙ h) in cc
  ]

  create_backend-file :
      (config : BackendConfig) (f : F) (p : Bytes) (cache : FileCache)
      → create_backend o config f ≡ ok (of_file p cache)
      → new p o.json_from_str (o.inspect p f).0 (o.inspect p f).1 ≡ ok cache
  unfolding create_backend
  create_backend-file (file q) f p cache h =
      let (c, made, same) =
        context-ok file_failed (λ cache. of_file q cache)
          (new q o.json_from_str (o.inspect q f).0 (o.inspect q f).1) (of_file p cache) h in
      cc
  create_backend-file (http config) f p cache h = absurd cc
  create_backend-file (kubernetes config) f p cache h =
      let (c, made, same) =
        context-ok kubernetes_failed (λ cache. of_kubernetes cache)
          (new_kubernetes o.kube_client o.get_secret config) (of_file p cache) h in
      absurd cc
  create_backend-file (vault config) f p cache h =
      let (c, made, same) =
        context-ok vault_failed (λ backend. of_vault backend)
          (new_vault o.vault_settings o.vault_client o.vault_login (λ p. o.fs.read_to_string p f)
            o.var config)
          (of_file p cache) h in
      absurd cc

  -- For a call that envproxy answers, by an agent that has started with a file backend and is
  -- behind every socket path, on a secrets file that does not change
  -- meanwhile and whose content is valid, `getenv` returns the key's entry in that content, if a
  -- response can carry it and a C string hold it, and else the environment's value. A file that the
  -- file system has removed is gone.
  pub getenv-start :
      (w : World)
      → IsAsking w
      → Removes o.fs
      → (path : Bytes) (f f' : F) (c : Config) (p : Bytes) (cache : FileCache)
      → start o path f ≡ (ok (c, of_file p cache), f')
      → (mtime : ℕ) (contents : Bytes) (entries : Map Bytes)
      → o.inspect p f ≡ (present mtime (ok contents), present mtime (ok contents))
      → o.json_from_str contents ≡ ok entries
      → IsServed w (file_backend p o.json_from_str) (present mtime (ok contents), cache)
      → (getenv w.real_getenv w.connect (some w.key) w.statics).0
        ≡ or_real (delivered (ok (get w.key entries))) (w.real_getenv (some w.key))
  getenv-start w asking removes path f f' c p cache started mtime contents entries seen parsed
        served =
      let d = present mtime (ok contents) in
      let made =
        create_backend-file c.backend f p cache
          (start-create_backend removes path f f' c (of_file p cache) started) in
      let fresh =
        new-IsFreshCache p o.json_from_str d mtime cache (omega arith)
          (subst (λ (x : Disk × Disk). new p o.json_from_str x.0 x.1 ≡ ok cache) seen made) in
      getenv-file w asking p o.json_from_str mtime mtime contents entries cache fresh parsed served
