-- ===== src/Injector/Content.antt =====
-- k8s/injector/internal/webhook/mutator.go: the configuration that the agent is given.
use env_proxy.Prelude.{List, [], ◌∷◌, ◌++◌, if◌then◌else◌}
use env_proxy.Prelude.Bytes.{Bytes, codes, is_empty}
use env_proxy.Injector.Annotation as Annotation
use env_proxy.Injector.{socket_path, Pod}
use env_proxy.Injector.Targets.{annotation, or_default}

abbrev pub line : List Bytes → Bytes
line [] = 10 ∷ []
line (p ∷ parts) = p ++ line parts

unfoldable pub backend_config : Pod → Bytes
backend_config pod =
    let vault_addr = annotation pod Annotation.vault_addr in
    let vault_role = annotation pod Annotation.vault_role in
    let auth_method =
      or_default (annotation pod Annotation.vault_auth_method) (codes "kubernetes") in
    let auth_mount = or_default (annotation pod Annotation.vault_auth_mount) (codes "kubernetes") in
    let cache_ttl = or_default (annotation pod Annotation.vault_cache_ttl) (codes "5m") in
    if is_empty vault_addr
    then line (codes "[backend]" ∷ [])
      ++ (line (codes "type = \"file\"" ∷ []) ++ line (codes "path = \"/dev/null\"" ∷ []))
    else line (codes "[backend]" ∷ [])
      ++ (line (codes "type = \"vault\"" ∷ [])
          ++ (line (codes "address = \"" ∷ vault_addr ∷ codes "\"" ∷ [])
              ++ (line (codes "auth_method = \"" ∷ auth_method ∷ codes "\"" ∷ [])
                  ++ (line (codes "auth_mount = \"" ∷ auth_mount ∷ codes "\"" ∷ [])
                      ++ (line (codes "role = \"" ∷ vault_role ∷ codes "\"" ∷ [])
                          ++ line (codes "cache_ttl = \"" ∷ cache_ttl ∷ codes "\"" ∷ []))))))

unfoldable pub config_content : Pod → Bytes
config_content pod =
    line (codes "[agent]" ∷ [])
    ++ (line (codes "socket = \"" ∷ socket_path ∷ codes "\"" ∷ [])
        ++ (line (codes "log_level = \"info\"" ∷ []) ++ (line [] ++ backend_config pod)))
