-- ===== src/Injector/Handler.antt =====
-- k8s/injector/internal/webhook/handler.go
-- The JSON of a pod is a parameter.
use env_proxy.Prelude.{ℕ, Option, none, some, not, if◌then◌else◌}
use env_proxy.Prelude.Bytes.{Bytes, codes, beq}
use env_proxy.Injector.Annotation as Annotation
use env_proxy.Injector.{Config, status_injected, Pod}
use env_proxy.Injector.Targets.{annotation}
use env_proxy.Injector.Mutator.{mutate_pod}

pub data Response : Type 0 where
  errored : (code : ℕ) → Response
  allowed : (reason : Bytes) → Response
  patch : (original : Bytes) → (current : Bytes) → Response
  panicked : Response

abbrev pub injection_not_requested : Response
injection_not_requested = allowed (codes "injection not requested")

abbrev pub already_injected : Response
already_injected = allowed (codes "already injected")

module _ (must_parse : Bytes → Option Bytes) (cfg : Config) (unmarshal : Bytes → Option Pod)
    (marshal : Pod → Option Bytes) where
  -- The answer for a pod, from the guards on.
  unfoldable pub review : Bytes → Pod → Response
  review raw pod =
      if not (beq (annotation pod Annotation.inject) (codes "true"))
      then injection_not_requested
      else if beq (annotation pod Annotation.status) status_injected
      then already_injected
      else elim (mutate_pod must_parse cfg pod) [
        | none ↦ panicked
        | some mutated ↦ elim (marshal mutated) [
          | none ↦ errored 500
          | some marshaled_pod ↦ patch raw marshaled_pod
        ]
      ]

  unfoldable pub handle : Bytes → Response
  handle raw = elim (unmarshal raw) [ none ↦ errored 400 | some pod ↦ review raw pod ]
