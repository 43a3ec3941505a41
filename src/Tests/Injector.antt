-- ===== src/Tests/Injector.antt =====
-- The theorems on k8s/injector at concrete inputs.
use mathlib.Core.List.{Memᴰ}
use env_proxy.Prelude.{
  ◌≡◌, refl, [], ◌∷◌, ◌++◌, List, Option, none, some, Result, err, true, false, if◌then◌else◌,
}
use env_proxy.Prelude.Bytes.{Bytes, codes, beq, beq_refl}
use env_proxy.Prelude.Map.{get}
use env_proxy.Prelude.Maybe.{unwrap_or}
use env_proxy.Io.{IoError, Stream}
use env_proxy.Proto.Wire.{default_socket_path}
use env_proxy.Cli.Init.{cmd_init}
use env_proxy.Cli.Main.{Arguments, Machine, run, init}
use env_proxy.Injector.{Config, EnvVar, literal, value_from, Container, Pod, mount_path}
use env_proxy.Injector.Annotation as Annotation
use env_proxy.Injector.Content.{config_content}
use env_proxy.Injector.Targets.{parse_container_list, should_inject, annotation}
use env_proxy.Injector.Mutator.{
  mutate_pod, build_init_container, build_sidecar, resources_of, agent_name,
}
use env_proxy.Injector.Handler.{patch, already_injected, review, handle}
use env_proxy.Injector.Kubelet.{Kubelet, KubeletLaws, Parse, ParseLaws, IsUnnamed}
use env_proxy.Injector.Kept.{handle-handle}
use env_proxy.Injector.Others.{AreKept, mutate_pod-AreKept}
use env_proxy.Injector.Deployed.{Executes, mutate_pod-run_container}
use env_proxy.Tests.Files.{Files, on_map, no_entry}

-- The last variable of a name.
abbrev value_if : Bytes → EnvVar → Option Bytes
value_if name (literal n v) = if beq n name then some v else none
value_if name (value_from n s) = none

abbrev or_else : Option Bytes → Option Bytes → Option Bytes
or_else none o = o
or_else (some v) o = some v

unfoldable last_of : List EnvVar → Bytes → Option Bytes
last_of [] name = none
last_of (v ∷ vars) name = or_else (last_of vars name) (value_if name v)

last_of-IsUnnamed :
    (name : Bytes) (vars : List EnvVar) → IsUnnamed name vars → last_of vars name ≡ none
unfolding last_of
last_of-IsUnnamed name [] h = refl
last_of-IsUnnamed name (literal n v ∷ vars) (other, h) =
    rw (last_of-IsUnnamed name vars h) (rw other refl)
last_of-IsUnnamed name (value_from n s ∷ vars) (other, h) = rw (last_of-IsUnnamed name vars h) refl

last_of-last :
    (vars after : List EnvVar) (name value : Bytes)
    → IsUnnamed name after
    → last_of (vars ++ (literal name value ∷ after)) name ≡ some value
unfolding last_of
last_of-last [] after name value h = rw (last_of-IsUnnamed name after h) (rw (beq_refl name) refl)
last_of-last (v ∷ vars) after name value h = rw (last_of-last vars after name value h) refl

abbrev kubelet : Kubelet
kubelet = record { env_of = last_of; expand = λ vars s. s }

kubelet-KubeletLaws : KubeletLaws kubelet
kubelet-KubeletLaws = record {
  last_counts = λ vars after name value plain h. last_of-last vars after name value h;
  plain_stays = λ vars s plain. refl;
}

abbrev parse_run : List Bytes → Option Arguments
parse_run (dashes ∷ program ∷ args) =
    some (record { socket = default_socket_path; command = run (program ∷ args) })
parse_run other = none

abbrev parse_init : List Bytes → Option Arguments
parse_init (option ∷ target ∷ option' ∷ content ∷ []) =
    some (record { socket = default_socket_path; command = init target (some content) })
parse_init other = none

unfoldable parse : Parse
parse [] = none
parse (word ∷ words) = if beq word (codes "run") then parse_run words else parse_init words

parse-ParseLaws : ParseLaws parse
unfolding parse beq
parse-ParseLaws = record {
  parse_run = λ program args. refl;
  parse_init = λ target content v w. refl;
}

abbrev cfg : Config
cfg = record {
  envproxy_image = codes "envproxy";
  default_cache_ttl = codes "30";
  agent_cpu_limit = codes "50m";
  agent_memory_limit = codes "64Mi";
  agent_cpu_request = codes "10m";
  agent_memory_request = codes "32Mi";
}

abbrev app : Container
app = record {
  name = codes "app";
  image = codes "app:1";
  command = codes "/app" ∷ [];
  args = codes "-v" ∷ [];
  env = literal (codes "DB") (codes "vault:a#b") ∷ [];
  volume_mounts = [];
  security_context = none;
  resources = none;
  other = [];
}

abbrev pod : Pod
pod = record {
  annotations = (Annotation.inject, codes "true") ∷ [];
  volumes = [];
  init_containers = [];
  containers = app ∷ [];
  other = [];
}

abbrev parsed : Bytes → Option Bytes
parsed q = some q

abbrev injected : Pod
injected = unwrap_or pod (mutate_pod parsed cfg pod)

mutated : mutate_pod parsed cfg pod ≡ some injected
unfolding mutate_pod build_init_container build_sidecar resources_of
mutated = refl

mutate_pod-AreKept_example :
    (sidecar : Container) × (build_sidecar parsed cfg pod ≡ some sidecar)
    × AreKept pod (app ∷ sidecar ∷ []) injected.containers
mutate_pod-AreKept_example = mutate_pod-AreKept parsed cfg pod injected mutated

abbrev stored : Pod → Option Bytes
stored p = some (codes "new")

abbrev read : Bytes → Option Pod
read raw = if beq raw (codes "new") then some injected else some pod

read_old : read (codes "old") ≡ some pod
unfolding beq
read_old = refl

read_new : read (codes "new") ≡ some injected
unfolding beq
read_new = refl

patched : handle parsed cfg read stored (codes "old") ≡ patch (codes "old") (codes "new")
unfolding handle review mutate_pod build_init_container build_sidecar resources_of get beq
patched = refl

handle-handle_example : handle parsed cfg read stored (codes "new") ≡ already_injected
handle-handle_example =
    handle-handle parsed cfg read stored (codes "old") (codes "new") pod injected read_old mutated
      read_new patched

abbrev no_sockets : Bytes → Result IoError Stream
no_sockets path = err no_entry

abbrev image : Files
image =
    (codes "/usr/bin/envproxy", codes "cli")
    ∷ (codes "/usr/bin/envproxy-agent", codes "agent")
    ∷ (codes "/usr/lib/envproxy/lib/libenvproxy.so", codes "so")
    ∷ (codes "/usr/lib/envproxy/java/envproxy-agent.jar", codes "jar")
    ∷ (codes "/usr/lib/envproxy/python/site.py", codes "py")
    ∷ []

abbrev machine : Machine Files
machine = record {
  connect = no_sockets;
  var = λ name. none;
  exists_at = λ path look. true;
  elapsed = λ look. 0;
  exe_dir = none;
  exists = λ path. false;
  fs = on_map;
  files = image;
}

is_other : beq (codes "app") agent_name ≡ false
unfolding beq
is_other = refl

is_target :
    should_inject (codes "app") (parse_container_list (annotation pod Annotation.containers)) ≡ true
unfolding should_inject parse_container_list get beq
is_target = refl

mutate_pod-run_container_example :
    (c : Container) × Memᴰ c injected.containers
    × Executes kubelet parse machine kubelet-KubeletLaws parse-ParseLaws app
        (codes "/app")
        (codes "-v" ∷ [])
        c
mutate_pod-run_container_example =
    mutate_pod-run_container kubelet parse machine kubelet-KubeletLaws parse-ParseLaws parsed cfg
      pod injected app (codes "/app") [] mutated (Memᴰ.head refl) is_other is_target refl

abbrev content : Bytes
content = config_content pod

abbrev after : Files
after = (cmd_init on_map mount_path (some content) image).1
