-- ===== src/Agent/Http.antt =====
-- crates/envproxy-agent/src/backend/http.rs: a backend that is not implemented yet and always fails.
use env_proxy.Prelude.{ℕ, ◌++◌, Option, err}
use env_proxy.Prelude.Bytes.{Bytes, codes}
use env_proxy.Agent.Backend.{Backend, unavailable, Resolved, default_resolve_with_value}

pub record HttpBackendConfig : Type 0 where
  pub url : Bytes
  pub auth_token : Option Bytes
  pub timeout_ms : ℕ

abbrev pub default_timeout_ms : ℕ
default_timeout_ms = 5000

unfoldable pub resolve : HttpBackendConfig → Bytes → Unit {0} → Resolved × Unit {0}
resolve config key s = (
  err (
      unavailable (
        codes "HTTP backend not yet implemented (url: "
        ++ (config.url ++ (codes ", key: " ++ (key ++ codes ")"))))),
  s,
)

abbrev pub http_backend : HttpBackendConfig → Backend (Unit {0})
http_backend config = record {
  resolve = resolve config;
  resolve_with_value = default_resolve_with_value (resolve config);
}
