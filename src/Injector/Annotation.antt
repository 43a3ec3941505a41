-- ===== src/Injector/Annotation.antt =====
-- k8s/injector/internal/config/config.go: the annotations' keys.
use env_proxy.Prelude.Bytes.{Bytes, codes}

abbrev pub inject : Bytes
inject = codes "envproxy.dev/inject"

abbrev pub status : Bytes
status = codes "envproxy.dev/status"

abbrev pub cache_ttl : Bytes
cache_ttl = codes "envproxy.dev/cache-ttl"

abbrev pub containers : Bytes
containers = codes "envproxy.dev/containers"

abbrev pub no_python : Bytes
no_python = codes "envproxy.dev/no-python"

abbrev pub no_java : Bytes
no_java = codes "envproxy.dev/no-java"

abbrev pub vault_addr : Bytes
vault_addr = codes "envproxy.dev/vault-addr"

abbrev pub vault_role : Bytes
vault_role = codes "envproxy.dev/vault-role"

abbrev pub vault_auth_method : Bytes
vault_auth_method = codes "envproxy.dev/vault-auth-method"

abbrev pub vault_auth_mount : Bytes
vault_auth_mount = codes "envproxy.dev/vault-auth-mount"

abbrev pub vault_cache_ttl : Bytes
vault_cache_ttl = codes "envproxy.dev/vault-cache-ttl"

abbrev pub agent_cpu_limit : Bytes
agent_cpu_limit = codes "envproxy.dev/agent-cpu-limit"

abbrev pub agent_memory_limit : Bytes
agent_memory_limit = codes "envproxy.dev/agent-memory-limit"

abbrev pub agent_cpu_request : Bytes
agent_cpu_request = codes "envproxy.dev/agent-cpu-request"

abbrev pub agent_memory_request : Bytes
agent_memory_request = codes "envproxy.dev/agent-memory-request"
