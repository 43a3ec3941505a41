-- ===== src/Injector/Others.antt =====
-- k8s/injector/internal/webhook/mutator.go: what the webhook leaves of the containers of a pod.
use env_proxy.Prelude.{
  ◌≡◌, refl, sym, List, [], ◌∷◌, ◌++◌, Option, some, Bool, true, false, map, append-nil, subst, ◌⊎◌,
  inl, inr,
}
use env_proxy.Prelude.Bytes.{Bytes, codes, beq}
use env_proxy.Injector.Annotation as Annotation
use env_proxy.Injector.{Config, Container, EnvVar, VolumeMount, Pod}
use env_proxy.Injector.Targets.{parse_container_list, should_inject, annotation}
use env_proxy.Injector.Mutator.{
  mutate_container, mutate_target, mutate_pod, agent_name, build_sidecar,
}
use env_proxy.Injector.Kept.{mutate_pod-parts, cache_ttl_of}

-- A container after the mutation: the same one but for its command, and for variables and mounts that
-- are added; the same altogether where it is not to be injected into.
abbrev pub IsKept : Pod → Container → Container → Type 0
IsKept pod c c' =
    (c'.name ≡ c.name)
    × (c'.image ≡ c.image)
    × (c'.security_context ≡ c.security_context)
    × (c'.resources ≡ c.resources)
    × (c'.other ≡ c.other)
    × ((vars : List EnvVar) × (c'.env ≡ c.env ++ vars))
    × ((mounts : List VolumeMount) × (c'.volume_mounts ≡ c.volume_mounts ++ mounts))
    × ((c' ≡ c)
        ⊎ (should_inject c.name (parse_container_list (annotation pod Annotation.containers))
            ≡ true))

-- One by one.
abbrev pub AreKept : Pod → List Container → List Container → Type 0
AreKept pod [] [] = Unit {0}
AreKept pod [] (c' ∷ cs') = ⊥
AreKept pod (c ∷ cs) [] = ⊥
AreKept pod (c ∷ cs) (c' ∷ cs') = IsKept pod c c' × AreKept pod cs cs'

IsKept-same : (pod : Pod) (c : Container) → IsKept pod c c
IsKept-same pod c = (
  refl,
  refl,
  refl,
  refl,
  refl,
  ([], sym (append-nil c.env)),
  ([], sym (append-nil c.volume_mounts)),
  inl refl,
)

mutate_container-IsKept :
    (pod : Pod) (cache_ttl : Bytes) (no_python no_java : Bool) (c : Container)
    → should_inject c.name (parse_container_list (annotation pod Annotation.containers)) ≡ true
    → IsKept pod c (mutate_container cache_ttl no_python no_java c)
unfolding mutate_container
mutate_container-IsKept pod cache_ttl no_python no_java c e =
    (refl, refl, refl, refl, refl, (_, refl), (_, refl), inr e)

mutate_target-IsKept :
    (pod : Pod) (cache_ttl : Bytes) (c : Container) (agent targeted : Bool)
    → beq c.name agent_name ≡ agent
    → should_inject c.name (parse_container_list (annotation pod Annotation.containers)) ≡ targeted
    → IsKept pod c (mutate_target pod cache_ttl c)
unfolding mutate_target mutate_container
mutate_target-IsKept pod cache_ttl c true targeted e e' =
    subst (IsKept pod c) (rw (e, mutate_target) refl) (IsKept-same pod c)
mutate_target-IsKept pod cache_ttl c false false e e' =
    subst (IsKept pod c) (rw (e, e', mutate_target) refl) (IsKept-same pod c)
mutate_target-IsKept pod cache_ttl c false true e e' =
    subst (IsKept pod c) (rw (e, e', mutate_target) refl) (
      mutate_container-IsKept pod cache_ttl
        (beq (annotation pod Annotation.no_python) (codes "true"))
        (beq (annotation pod Annotation.no_java) (codes "true")) c e')

map-AreKept :
    (pod : Pod) (cache_ttl : Bytes) (cs : List Container)
    → AreKept pod cs (map (mutate_target pod cache_ttl) cs)
map-AreKept pod cache_ttl [] = tt
map-AreKept pod cache_ttl (c ∷ cs) =
    (mutate_target-IsKept pod cache_ttl c _ _ refl refl, map-AreKept pod cache_ttl cs)

-- The containers of the mutated pod are those of the pod, in order, and the sidecar behind them. Each
-- keeps its name, image, security context, resources and what the webhook does not know, and its
-- variables and mounts, with others behind them; it is the same altogether, or one to inject into.
pub mutate_pod-AreKept :
    (must_parse : Bytes → Option Bytes) (cfg : Config) (pod pod' : Pod)
    → mutate_pod must_parse cfg pod ≡ some pod'
    → (sidecar : Container) × (build_sidecar must_parse cfg pod ≡ some sidecar)
      × AreKept pod (pod.containers ++ (sidecar ∷ [])) pod'.containers
mutate_pod-AreKept must_parse cfg pod pod' h =
    let (init, sidecar, built, built', inits, containers, annotations) =
      mutate_pod-parts must_parse cfg pod pod' h in
    (
      sidecar,
      built',
      subst (AreKept pod (pod.containers ++ (sidecar ∷ []))) (sym containers)
          (map-AreKept pod (cache_ttl_of cfg pod) (pod.containers ++ (sidecar ∷ []))),
    )
