-- ===== src/Injector/Deployed.antt =====
-- The containers that k8s/injector makes, run by the command line tool of crates/envproxy-cli.
use mathlib.Core.List.{Memᴰ}
use env_proxy.Prelude.{
  ◌≡◌, refl, sym, ap, ◌∙◌, List, [], ◌∷◌, ◌++◌, Option, some, ok, Bool, true, false, if◌then◌else◌,
  map, append_assoc, subst,
}
use env_proxy.Prelude.Bytes.{Bytes, codes, beq}
use env_proxy.Prelude.Bytes.Search.{find}
use env_proxy.Proto.Wire.{default_socket_path}
use env_proxy.Cli.Run.{find_libenvproxy, prepare, wait_for, cmd_run}
use env_proxy.Cli.Main.{Machine, ran, run, main}
use env_proxy.Injector.Annotation as Annotation
use env_proxy.Injector.{Config, mount_path, socket_path, EnvVar, literal, Container, Pod}
use env_proxy.Injector.Targets.{parse_container_list, should_inject, annotation}
use env_proxy.Injector.Mutator.{env_vars, mutate_container, mutate_target, mutate_pod, agent_name}
use env_proxy.Injector.Kept.{mutate_pod-parts, cache_ttl_of}
use env_proxy.Injector.Kubelet.{
  Kubelet, KubeletLaws, Parse, ParseLaws, IsUnnamed, with_vars, run_tool, run_container, exec_of,
}

-- The variables behind the socket and the library.
abbrev rest_vars : Bytes → Bool → Bool → List EnvVar
rest_vars cache_ttl no_python no_java =
    literal (codes "ENVPROXY_CACHE_TTL") cache_ttl
    ∷ (if no_python
        then literal (codes "ENVPROXY_NO_PYTHON") (codes "1")
        else literal (codes "ENVPROXY_PYTHON_PATH") (mount_path ++ codes "/python"))
    ∷ (if no_java
        then literal (codes "ENVPROXY_NO_JAVA") (codes "1")
        else literal (codes "ENVPROXY_JAVA_PATH") (mount_path ++ codes "/java"))
    ∷ []

abbrev no_python : Pod → Bool
no_python pod = beq (annotation pod Annotation.no_python) (codes "true")

abbrev no_java : Pod → Bool
no_java pod = beq (annotation pod Annotation.no_java) (codes "true")

mem_touched :
    (f : Container → Container) (c : Container) (cs others : List Container)
    → Memᴰ c cs
    → Memᴰ (f c) (map f (cs ++ others))
mem_touched f c [] others there = elim there [ ]
mem_touched f c (d ∷ cs) others (Memᴰ.head e) = Memᴰ.head (ap f e)
mem_touched f c (d ∷ cs) others (Memᴰ.tail there) = Memᴰ.tail (mem_touched f c cs others there)

module _ {F : Type 0} (k : Kubelet) (parse : Parse) (m : Machine F) (laws : KubeletLaws k)
    (parsed : ParseLaws parse) where
  main-run :
      (env : List EnvVar) (program : Bytes) (args : List Bytes)
      → k.env_of env (codes "ENVPROXY_SOCKET") ≡ some socket_path
      → k.env_of env (codes "ENVPROXY_LIB") ≡ some (codes "/envproxy/lib/libenvproxy.so")
      → main (with_vars k parse m env) (record {
        socket = default_socket_path;
        command = run (k.expand env program ∷ map (k.expand env) args);
      })
        ≡ ran (ok (exec_of k parse m env program args))
  unfolding main cmd_run find_libenvproxy prepare wait_for
  main-run env program args socket lib =
      rw (lib, socket, cmd_run, find_libenvproxy, prepare, wait_for) refl

  rest_vars-IsUnnamed :
      (name cache_ttl : Bytes) (no_python no_java : Bool)
      → beq (codes "ENVPROXY_CACHE_TTL") name ≡ false
      → beq (codes "ENVPROXY_NO_PYTHON") name ≡ false
      → beq (codes "ENVPROXY_PYTHON_PATH") name ≡ false
      → beq (codes "ENVPROXY_NO_JAVA") name ≡ false
      → beq (codes "ENVPROXY_JAVA_PATH") name ≡ false
      → IsUnnamed name (rest_vars cache_ttl no_python no_java)
  rest_vars-IsUnnamed name cache_ttl true true a b c d e = (a, (b, (d, tt)))
  rest_vars-IsUnnamed name cache_ttl true false a b c d e = (a, (b, (e, tt)))
  rest_vars-IsUnnamed name cache_ttl false true a b c d e = (a, (c, (d, tt)))
  rest_vars-IsUnnamed name cache_ttl false false a b c d e = (a, (c, (e, tt)))

  env_of-socket :
      (vars : List EnvVar) (cache_ttl : Bytes) (no_python no_java : Bool)
      → k.env_of (vars ++ env_vars cache_ttl no_python no_java) (codes "ENVPROXY_SOCKET")
        ≡ some socket_path
  unfolding env_vars beq find
  env_of-socket vars cache_ttl no_python no_java =
      laws.last_counts vars _ (codes "ENVPROXY_SOCKET") socket_path refl (
        refl,
        rest_vars-IsUnnamed (codes "ENVPROXY_SOCKET") cache_ttl no_python no_java refl refl refl
            refl refl,
      )

  env_of-lib :
      (vars : List EnvVar) (cache_ttl : Bytes) (no_python no_java : Bool)
      → k.env_of (vars ++ env_vars cache_ttl no_python no_java) (codes "ENVPROXY_LIB")
        ≡ some (codes "/envproxy/lib/libenvproxy.so")
  unfolding env_vars beq find
  env_of-lib vars cache_ttl no_python no_java =
      let first = literal (codes "ENVPROXY_SOCKET") socket_path in
      ap (λ e. k.env_of e (codes "ENVPROXY_LIB")) (sym (append_assoc vars (first ∷ []) _))
      ∙ laws.last_counts (vars ++ (first ∷ [])) _ (codes "ENVPROXY_LIB")
          (codes "/envproxy/lib/libenvproxy.so") refl
          (rest_vars-IsUnnamed (codes "ENVPROXY_LIB") cache_ttl no_python no_java refl refl refl
            refl refl)

  run_tool-run :
      (env : List EnvVar) (tool program : Bytes) (args : List Bytes)
      → k.env_of env (codes "ENVPROXY_SOCKET") ≡ some socket_path
      → k.env_of env (codes "ENVPROXY_LIB") ≡ some (codes "/envproxy/lib/libenvproxy.so")
      → run_tool k parse m env
          (map (k.expand env) (tool ∷ codes "run" ∷ codes "--" ∷ program ∷ args))
        ≡ some (k.expand env tool, ran (ok (exec_of k parse m env program args)))
  unfolding run_tool find
  run_tool-run env tool program args socket lib =
      let run_stays = laws.plain_stays env (codes "run") refl in
      let dashes_stay = laws.plain_stays env (codes "--") refl in
      rw
        (
          run_stays,
          dashes_stay,
          parsed.parse_run (k.expand env program) (map (k.expand env) args),
          run_tool,
        )
        (ap (λ d. some (k.expand env tool, d)) (main-run env program args socket lib))

  run_container-mutate_container :
      (cache_ttl : Bytes) (no_python no_java : Bool) (c : Container) (program : Bytes)
      (cmd : List Bytes)
      → c.command ≡ program ∷ cmd
      → run_container k parse m (mutate_container cache_ttl no_python no_java c)
        ≡ some (
          codes "/envproxy/envproxy",
          ran (
              ok (
                exec_of k parse m
                  (c.env ++ env_vars cache_ttl no_python no_java)
                  program
                  (cmd ++ c.args))),
        )
  unfolding run_container mutate_container find
  run_container-mutate_container cache_ttl no_python no_java c program cmd e =
      let env = c.env ++ env_vars cache_ttl no_python no_java in
      rw e (
        run_tool-run env (codes "/envproxy/envproxy") program (cmd ++ c.args)
          (env_of-socket c.env cache_ttl no_python no_java)
          (env_of-lib c.env cache_ttl no_python no_java)
        ∙ ap (λ tool. some (tool, ran (ok (exec_of k parse m env program (cmd ++ c.args)))))
            (laws.plain_stays env (codes "/envproxy/envproxy") refl))

  mutate_target-mutate_container :
      (pod : Pod) (cache_ttl : Bytes) (c : Container)
      → beq c.name agent_name ≡ false
      → should_inject c.name (parse_container_list (annotation pod Annotation.containers)) ≡ true
      → mutate_target pod cache_ttl c ≡ mutate_container cache_ttl (no_python pod) (no_java pod) c
  unfolding mutate_target
  mutate_target-mutate_container pod cache_ttl c other targeted =
      rw (other, targeted, mutate_target) refl

  -- What a container executes, in the end, once it is injected into.
  abbrev pub Executes : Container → Bytes → List Bytes → Container → Type 0
  Executes c program args c' =
      (c'.name ≡ c.name)
      × ((vars : List EnvVar) × (c'.env ≡ c.env ++ vars))
      × (run_container k parse m c'
          ≡ some (codes "/envproxy/envproxy", ran (ok (exec_of k parse m c'.env program args))))

  -- A container with a command that the webhook injects into, and that is not named as the agent,
  -- executes that command with its arguments, as the kubelet expands them, behind the library of the
  -- shared volume, after the wait for the sidecar's socket. The kubelet takes the last variable of a
  -- name, and leaves a text with no `$` as it is; what follows `run --` is parsed as the command.
  pub mutate_pod-run_container :
      (must_parse : Bytes → Option Bytes) (cfg : Config) (pod pod' : Pod) (c : Container)
      (program : Bytes) (cmd : List Bytes)
      → mutate_pod must_parse cfg pod ≡ some pod'
      → Memᴰ c pod.containers
      → beq c.name agent_name ≡ false
      → should_inject c.name (parse_container_list (annotation pod Annotation.containers)) ≡ true
      → c.command ≡ program ∷ cmd
      → (c' : Container) × Memᴰ c' pod'.containers × Executes c program (cmd ++ c.args) c'
  unfolding mutate_container
  mutate_pod-run_container must_parse cfg pod pod' c program cmd mutated there other targeted e =
      let (helper, sidecar, built, built', inits, containers, annotations) =
        mutate_pod-parts must_parse cfg pod pod' mutated in
      let ttl = cache_ttl_of cfg pod in
      (
        mutate_container ttl (no_python pod) (no_java pod) c,
        subst (Memᴰ (mutate_container ttl (no_python pod) (no_java pod) c)) (sym containers) (
            subst (λ x. Memᴰ x (map (mutate_target pod ttl) (pod.containers ++ (sidecar ∷ []))))
              (mutate_target-mutate_container pod ttl c other targeted)
              (mem_touched (mutate_target pod ttl) c pod.containers (sidecar ∷ []) there)),
        (
          refl,
          (env_vars ttl (no_python pod) (no_java pod), refl),
          run_container-mutate_container ttl (no_python pod) (no_java pod) c program cmd e,
        ),
      )
