-- ===== src/Injector/Initialised.antt =====
-- The init container that k8s/injector makes, run by the command line tool of crates/envproxy-cli.
use env_proxy.Prelude.{◌≡◌, some}
use env_proxy.Prelude.Bytes.{Bytes, codes}
use env_proxy.Io.FileSystem.{View, Reads}
use env_proxy.Cli.Init.Copied.{PlainPaths}
use env_proxy.Cli.Main.{Machine}
use env_proxy.Injector.{mount_path}
use env_proxy.Injector.Kubelet.{Kubelet, KubeletLaws, Parse, ParseLaws}

module _ {F : Type 0} (k : Kubelet) (parse : Parse) (m : Machine F) (laws : KubeletLaws k)
    (parsed : ParseLaws parse) {view : View F} (reads : Reads m.fs view)
    (paths : PlainPaths m.fs view mount_path) where
  -- A file holds the bytes that the image has at a path.
  abbrev pub HoldsCopy : Bytes → Bytes → F → Type 0
  HoldsCopy dest src f =
      (c : Bytes) × (view.content src m.files ≡ some c) × (view.content dest f ≡ some c)

  -- What the shared volume holds after the init container: the tool, the agent, the library and the
  -- jar of the image, and the configuration.
  abbrev pub HoldsRuntime : Bytes → F → Type 0
  HoldsRuntime content f =
      HoldsCopy (codes "/envproxy/envproxy") (codes "/usr/bin/envproxy") f
      × HoldsCopy (codes "/envproxy/envproxy-agent") (codes "/usr/bin/envproxy-agent") f
      × HoldsCopy (codes "/envproxy/lib/libenvproxy.so")
          (codes "/usr/lib/envproxy/lib/libenvproxy.so") f
      × HoldsCopy (codes "/envproxy/java/envproxy-agent.jar")
          (codes "/usr/lib/envproxy/java/envproxy-agent.jar") f
      × (view.content (codes "/envproxy/config.toml") f ≡ some content)
