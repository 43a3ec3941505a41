-- ===== src/Injector/Mutator.antt =====
-- k8s/injector/internal/webhook/mutator.go
-- `resource.MustParse` is a parameter, with none where it panics. `mutateContainer` has no error.
use env_proxy.Prelude.{
  List, [], ◌∷◌, ◌++◌, Option, some, Bool, true, false, not, if◌then◌else◌, map,
}
use env_proxy.Prelude.Bytes.{Bytes, codes, beq}
use env_proxy.Prelude.Map.{get, insert}
use env_proxy.Prelude.Maybe.{◌>>=◌, unwrap_or}
use env_proxy.Injector.Annotation as Annotation
use env_proxy.Injector.{
  Config, status_injected, volume_name, mount_path, socket_path, EnvVar, literal, VolumeMount,
  SecurityContext, Resources, Container, empty_dir, Pod,
}
use env_proxy.Injector.Targets.{
  parse_container_list, should_inject, annotation, annotation_or_default,
}
use env_proxy.Injector.Content.{config_content}

abbrev pub secure_context : SecurityContext
secure_context = record {
  run_as_non_root = true;
  run_as_user = 65534;
  read_only_root_filesystem = true;
  allow_privilege_escalation = false;
  drop = codes "ALL" ∷ [];
}

abbrev pub shared : Bool → VolumeMount
shared read_only = record { name = volume_name; mount_path = mount_path; read_only = read_only }

abbrev pub init_command : Bytes → List Bytes
init_command content =
    codes "/usr/bin/envproxy"
    ∷ codes "init"
    ∷ codes "--target"
    ∷ mount_path
    ∷ codes "--write-config"
    ∷ content
    ∷ []

abbrev pub agent_command : List Bytes
agent_command =
    codes "/envproxy/envproxy-agent" ∷ codes "--config" ∷ codes "/envproxy/config.toml" ∷ []

abbrev pub agent_name : Bytes
agent_name = codes "envproxy-agent"

abbrev pub helper : Bytes → Bytes → List Bytes → Resources → Container
helper name image command resources = record {
  name = name;
  image = image;
  command = command;
  args = [];
  env = [];
  volume_mounts = shared false ∷ [];
  security_context = some secure_context;
  resources = some resources;
  other = [];
}

abbrev pub wrapped_command : List Bytes → List Bytes
wrapped_command [] = []
wrapped_command (program ∷ cmd) = (mount_path ++ codes "/envproxy") ∷ []

abbrev pub wrapped_args : List Bytes → List Bytes → List Bytes
wrapped_args [] args = args
wrapped_args (program ∷ cmd) args = codes "run" ∷ codes "--" ∷ ((program ∷ cmd) ++ args)

unfoldable pub env_vars : Bytes → Bool → Bool → List EnvVar
env_vars cache_ttl no_python no_java =
    literal (codes "ENVPROXY_SOCKET") socket_path
    ∷ literal (codes "ENVPROXY_LIB") (mount_path ++ codes "/lib/libenvproxy.so")
    ∷ literal (codes "ENVPROXY_CACHE_TTL") cache_ttl
    ∷ (if no_python
        then literal (codes "ENVPROXY_NO_PYTHON") (codes "1")
        else literal (codes "ENVPROXY_PYTHON_PATH") (mount_path ++ codes "/python"))
    ∷ (if no_java
        then literal (codes "ENVPROXY_NO_JAVA") (codes "1")
        else literal (codes "ENVPROXY_JAVA_PATH") (mount_path ++ codes "/java"))
    ∷ []

unfoldable pub mutate_container : Bytes → Bool → Bool → Container → Container
mutate_container cache_ttl no_python no_java c = record c {
  command = wrapped_command c.command;
  args = wrapped_args c.command c.args;
  volume_mounts = c.volume_mounts ++ (shared true ∷ []);
  env = c.env ++ env_vars cache_ttl no_python no_java;
}

-- One round of the loop over the containers.
unfoldable pub mutate_target : Pod → Bytes → Container → Container
mutate_target pod cache_ttl c =
    if beq c.name agent_name
    then c
    else if not (should_inject c.name (parse_container_list (annotation pod Annotation.containers)))
    then c
    else mutate_container cache_ttl (beq (annotation pod Annotation.no_python) (codes "true"))
        (beq (annotation pod Annotation.no_java) (codes "true")) c

module _ (must_parse : Bytes → Option Bytes) (cfg : Config) where
  unfoldable pub resources_of : Bytes → Bytes → Bytes → Bytes → Option Resources
  resources_of cpu_limit mem_limit cpu_req mem_req = do
    cpu ← must_parse cpu_limit
    memory ← must_parse mem_limit
    cpu_request ← must_parse cpu_req
    memory_request ← must_parse mem_req
    some (record {
      limits = (codes "cpu", cpu) ∷ (codes "memory", memory) ∷ [];
      requests = (codes "cpu", cpu_request) ∷ (codes "memory", memory_request) ∷ [];
    })

  unfoldable pub build_init_container : Pod → Option Container
  build_init_container pod = do
    resources ← resources_of (codes "50m") (codes "32Mi") (codes "10m") (codes "16Mi")
    some (
        helper (codes "envproxy-init") cfg.envproxy_image (init_command (config_content pod))
          resources)

  unfoldable pub build_sidecar : Pod → Option Container
  build_sidecar pod = do
    resources ←
        resources_of (annotation_or_default pod Annotation.agent_cpu_limit cfg.agent_cpu_limit)
          (annotation_or_default pod Annotation.agent_memory_limit cfg.agent_memory_limit)
          (annotation_or_default pod Annotation.agent_cpu_request cfg.agent_cpu_request)
          (annotation_or_default pod Annotation.agent_memory_request cfg.agent_memory_request)
    some (helper agent_name cfg.envproxy_image agent_command resources)

  -- None where a quantity makes it panic.
  unfoldable pub mutate_pod : Pod → Option Pod
  mutate_pod pod = do
    init ← build_init_container pod
    sidecar ← build_sidecar pod
    let cache_ttl = unwrap_or cfg.default_cache_ttl (get Annotation.cache_ttl pod.annotations)
    some (record pod {
      volumes = pod.volumes ++ (empty_dir volume_name (codes "Memory") ∷ []);
      init_containers = pod.init_containers ++ (init ∷ []);
      containers = map (mutate_target pod cache_ttl) (pod.containers ++ (sidecar ∷ []));
      annotations = insert Annotation.status status_injected pod.annotations;
    })
