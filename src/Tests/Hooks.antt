-- ===== src/Tests/Hooks.antt =====
-- The theorems on the constructor of crates/libenvproxy/src/lib.rs at concrete inputs.
use env_proxy.Prelude.Map.{insert}
use env_proxy.Text.Trim.{strip_suffix}
use env_proxy.Text.Paths.{join}
use env_proxy.Text.Utf8.{is_utf8}
use env_proxy.Client.Hooks.{
  setup_java_hook, setup_python_hook, find_support_dir, find_beside, get_self_path, first_with,
  candidates_in, find_support_file, var,
}
use env_proxy.Prelude.{◌≡◌, ◌≢◌, refl, [], ◌∷◌, some, arith}
use env_proxy.Prelude.Bytes.{codes, beq, beq_iff}
use env_proxy.Prelude.Map.{get}
use env_proxy.Client.Hooks.{Env, Files, or_default, in_front, envproxy_init}
use env_proxy.Client.Hooks.Settings.{pythonpath, java_options}

abbrev env : Env
env = (codes "HOME", codes "/root") ∷ (codes "PYTHONPATH", codes "/srv") ∷ []

abbrev files : Files
files = record {
  exists = λ path. beq path (codes "/usr/lib/envproxy/python/sitecustomize.py");
  canonicalize = λ path. some path;
  parent = λ path. some (codes "/usr/lib");
  dladdr = some (some (codes "/usr/lib/libenvproxy.so"));
}

set :
    get (codes "PYTHONPATH") (envproxy_init files env)
    ≡ some (codes "/usr/lib/envproxy/python:/srv")
unfolding envproxy_init get setup_java_hook beq var is_utf8 or_default setup_python_hook
    find_support_dir find_beside first_with candidates_in join strip_suffix insert find_support_file
    in_front get_self_path
set = refl

not_python : codes "HOME" ≢ pythonpath
unfolding beq
not_python e = ground (arith, beq_iff (codes "HOME") pythonpath)

not_java : codes "HOME" ≢ java_options
unfolding beq
not_java e = ground (arith, beq_iff (codes "HOME") java_options)
