-- ===== src/Injector/Kept.antt =====
-- k8s/injector/internal/webhook: what the webhook keeps of a pod.
use env_proxy.Prelude.{
  ◌≡◌, refl, sym, ap, ◌∙◌, [], ◌∷◌, ◌++◌, Option, none, some, Bool, true, false, not, if◌then◌else◌,
  map,
}
use env_proxy.Prelude.Bytes.{Bytes, codes, beq, beq_iff, beq_refl}
use env_proxy.Prelude.Map.{get, insert, get-insert}
use env_proxy.Prelude.Maybe.{>>=-eq_some, unwrap_or}
use env_proxy.Injector.Annotation as Annotation
use env_proxy.Injector.{Config, status_injected, Container, Pod}
use env_proxy.Injector.Targets.{annotation}
use env_proxy.Injector.Mutator.{mutate_target, build_init_container, build_sidecar, mutate_pod}
use env_proxy.Injector.Handler.{
  Response, patch, already_injected, injection_not_requested, errored, panicked, review, handle,
}

-- The pod that the webhook makes of a pod, from the helpers that it adds.
abbrev pub cache_ttl_of : Config → Pod → Bytes
cache_ttl_of cfg pod = unwrap_or cfg.default_cache_ttl (get Annotation.cache_ttl pod.annotations)

module _ (must_parse : Bytes → Option Bytes) (cfg : Config) where
  -- What `mutate_pod` returns, if it returns.
  pub mutate_pod-parts :
      (pod pod' : Pod)
      → mutate_pod must_parse cfg pod ≡ some pod'
      → (init : Container) × (sidecar : Container) × (build_init_container must_parse cfg pod
          ≡ some init)
        × (build_sidecar must_parse cfg pod ≡ some sidecar)
        × (pod'.init_containers ≡ pod.init_containers ++ (init ∷ []))
        × (pod'.containers
            ≡ map (mutate_target pod (cache_ttl_of cfg pod)) (pod.containers ++ (sidecar ∷ [])))
        × (pod'.annotations ≡ insert Annotation.status status_injected pod.annotations)
  unfolding mutate_pod
  mutate_pod-parts pod pod' h =
      let (init, built, rest) = >>=-eq_some (build_init_container must_parse cfg pod) _ h in
      let (sidecar, built', last) = >>=-eq_some (build_sidecar must_parse cfg pod) _ rest in
      (init, sidecar, built, built', cc, cc, cc)

  -- The mark stays, and the request with it.
  marked :
      (pod pod' : Pod)
      → mutate_pod must_parse cfg pod ≡ some pod'
      → (annotation pod' Annotation.status ≡ status_injected)
        × (annotation pod' Annotation.inject ≡ annotation pod Annotation.inject)
  unfolding beq get
  marked pod pod' h =
      let (init, sidecar, built, built', inits, containers, annotations) =
        mutate_pod-parts pod pod' h in
      let status = get-insert Annotation.status Annotation.status status_injected pod.annotations in
      let inject = get-insert Annotation.status Annotation.inject status_injected pod.annotations in
      (rw annotations (ap (unwrap_or []) status), rw annotations (ap (unwrap_or []) inject))

  module _ (unmarshal : Bytes → Option Pod) (marshal : Pod → Option Bytes) where
    abbrev sent : Bytes → Option Pod → Response
    sent raw o = elim o [
      | none ↦ panicked
      | some mutated ↦ elim (marshal mutated) [
        | none ↦ errored 500
        | some marshaled_pod ↦ patch raw marshaled_pod
      ]
    ]

    marshaled-patch :
        (raw original raw' : Bytes) (o : Option Bytes)
        → (elim o as (λ x. Response) [ none ↦ errored 500 | some m ↦ patch raw m ])
          ≡ patch original raw'
        → (o ≡ some raw') × (raw ≡ original)
    marshaled-patch raw original raw' none h = cc
    marshaled-patch raw original raw' (some m) h = (cc, cc)

    sent-patch :
        (raw original raw' : Bytes) (o : Option Pod)
        → sent raw o ≡ patch original raw'
        → (pod' : Pod) × (o ≡ some pod') × (marshal pod' ≡ some raw')
    sent-patch raw original raw' none h = cc
    sent-patch raw original raw' (some pod') h =
        (pod', refl, (marshaled-patch raw original raw' (marshal pod') h).0)

    review-sent :
        (raw : Bytes) (pod : Pod) (asked marked : Bool)
        → beq (annotation pod Annotation.inject) (codes "true") ≡ asked
        → beq (annotation pod Annotation.status) status_injected ≡ marked
        → review must_parse cfg unmarshal marshal raw pod ≡ (
            if not asked
            then injection_not_requested
            else if marked
            then already_injected
            else sent raw (mutate_pod must_parse cfg pod))
    unfolding review
    review-sent raw pod asked marked e e' = rw (e, e', review) refl

    patch_cases :
        (raw raw' original : Bytes) (pod : Pod) (asked marked : Bool)
        → beq (annotation pod Annotation.inject) (codes "true") ≡ asked
        → beq (annotation pod Annotation.status) status_injected ≡ marked
        → (if not asked
            then injection_not_requested
            else if marked
            then already_injected
            else sent raw (mutate_pod must_parse cfg pod))
          ≡ patch original raw'
        → (annotation pod Annotation.inject ≡ codes "true")
          × ((pod' : Pod) × (mutate_pod must_parse cfg pod ≡ some pod')
              × (marshal pod' ≡ some raw'))
    patch_cases raw raw' original pod false marked e e' h = cc
    patch_cases raw raw' original pod true true e e' h = cc
    patch_cases raw raw' original pod true false e e' h = (
      (beq_iff (annotation pod Annotation.inject) (codes "true")).0 e,
      sent-patch raw original raw' (mutate_pod must_parse cfg pod) h,
    )

    -- A patch comes of a pod that asked for it.
    pub review-patch :
        (raw raw' original : Bytes) (pod : Pod)
        → review must_parse cfg unmarshal marshal raw pod ≡ patch original raw'
        → (annotation pod Annotation.inject ≡ codes "true")
          × ((pod' : Pod) × (mutate_pod must_parse cfg pod ≡ some pod')
              × (marshal pod' ≡ some raw'))
    review-patch raw raw' original pod h =
        patch_cases raw raw' original pod _ _ refl refl
          (sym (review-sent raw pod _ _ refl refl) ∙ h)

    handle-review :
        (raw : Bytes) (pod : Pod)
        → unmarshal raw ≡ some pod
        → handle must_parse cfg unmarshal marshal raw
          ≡ review must_parse cfg unmarshal marshal raw pod
    unfolding handle
    handle-review raw pod there = rw (there, handle) refl

    -- A pod that the webhook has patched, reviewed again, is left as it is, where the JSON of the
    -- mutated pod reads back as that pod.
    pub handle-handle :
        (raw raw' : Bytes) (pod pod' : Pod)
        → unmarshal raw ≡ some pod
        → mutate_pod must_parse cfg pod ≡ some pod'
        → unmarshal raw' ≡ some pod'
        → handle must_parse cfg unmarshal marshal raw ≡ patch raw raw'
        → handle must_parse cfg unmarshal marshal raw' ≡ already_injected
    handle-handle raw raw' pod pod' there mutated back h =
        let (asked, rest) = review-patch raw raw' raw pod (sym (handle-review raw pod there) ∙ h) in
        let (status, inject) = marked pod pod' mutated in
        handle-review raw' pod' back
        ∙ review-sent raw' pod' true true
            (ap (λ t. beq t (codes "true")) (inject ∙ asked) ∙ beq_refl (codes "true"))
            (ap (λ t. beq t status_injected) status ∙ beq_refl status_injected)
