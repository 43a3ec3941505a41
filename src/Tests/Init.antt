-- ===== src/Tests/Init.antt =====
-- The theorem on `init` of crates/envproxy-cli/src/main.rs at a concrete input.
use env_proxy.Prelude.{[], ◌∷◌, some}
use env_proxy.Prelude.Bytes.{Bytes, codes}
use env_proxy.Cli.Init.{cmd_init}
use env_proxy.Tests.Files.{Files, on_map}

abbrev target : Bytes
target = codes "/envproxy"

-- An image with the four files and one Python file.
abbrev image : Files
image =
    (codes "/usr/bin/envproxy", codes "cli")
    ∷ (codes "/usr/bin/envproxy-agent", codes "agent")
    ∷ (codes "/usr/lib/envproxy/lib/libenvproxy.so", codes "so")
    ∷ (codes "/usr/lib/envproxy/java/envproxy-agent.jar", codes "jar")
    ∷ (codes "/usr/lib/envproxy/python/site.py", codes "py")
    ∷ []

abbrev config : Bytes
config = codes "[agent]"

abbrev line : Bytes
line = codes "envproxy init: copied runtime files to /envproxy"

abbrev after : Files
after = (cmd_init on_map target (some config) image).1
