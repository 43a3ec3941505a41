-- ===== src/Client/Hooks/Settings.antt =====
-- What the constructor of the library changes in the environment.
use env_proxy.Prelude.{
  ◌≡◌, ◌≢◌, ◌⊎◌, refl, inl, inr, ◌∙◌, ◌++◌, Option, none, some, true, arith, Option-cases,
  Bool-cases,
}
use env_proxy.Prelude.Bytes.{Bytes, codes, beq, beq_iff}
use env_proxy.Prelude.Map.{get, insert, get-insert}
use env_proxy.Client.Hooks.Found.{IsLost, IsKept, is_one, not_one, HasMarker}
use env_proxy.Client.Hooks.{
  Env, Files, or_default, find_support_dir, find_support_file, in_front, behind, agent_opts,
  setup_python_hook, setup_java_hook, envproxy_init,
}

abbrev pub pythonpath : Bytes
pythonpath = codes "PYTHONPATH"

abbrev pub java_options : Bytes
java_options = codes "JAVA_TOOL_OPTIONS"

get-insert_other : (k j v : Bytes) (env : Env) → j ≢ k → get j (insert k v env) ≡ get j env
get-insert_other k j v env n = ground (arith, get-insert k j v env, beq_iff k j)

-- What happens to a variable. It stays where its switch is set to `1`, or nothing was found.
-- Otherwise what was found is as it should be, and the variable is `extended` by it where its value is
-- kept, and `alone` where its value is lost.
abbrev pub IsExtended :
    Option Bytes
    → Option Bytes
    → (Bytes → Type 0)
    → (Bytes → Bytes → Bytes)
    → (Bytes → Bytes)
    → Option Bytes
    → Option Bytes
    → Type 0
IsExtended switch path IsGood extended alone before after =
    (((switch ≡ some (codes "1")) ⊎ (path ≡ none)) × (after ≡ before))
    ⊎ ((p : Bytes) × (switch ≢ some (codes "1"))
        × (path ≡ some p)
        × IsGood p
        × (((v : Bytes) × IsKept before v × (after ≡ some (extended p v)))
            ⊎ (IsLost before × (after ≡ some (alone p)))))

module _ (files : Files) where
  abbrev python_dir : Env → Option Bytes
  python_dir env = find_support_dir files env (codes "python") (codes "sitecustomize.py")

  abbrev java_jar : Env → Option Bytes
  java_jar env = find_support_file files env (codes "java") (codes "envproxy-agent.jar")

  abbrev IsOff : Bytes → Env → Option Bytes → Type 0
  IsOff switch env found = (get switch env ≡ some (codes "1")) ⊎ (found ≡ none)

  abbrev IsOn : Bytes → Env → Option Bytes → Bytes → Type 0
  IsOn switch env found path = (get switch env ≢ some (codes "1")) × (found ≡ some path)

  -- How a hook leaves the environment: as it was, or with one variable set.
  python_cases :
      (env : Env)
      → (IsOff (codes "ENVPROXY_NO_PYTHON") env (python_dir env)
          × (setup_python_hook files env ≡ env))
        ⊎ ((dir : Bytes) × IsOn (codes "ENVPROXY_NO_PYTHON") env (python_dir env) dir
            × (setup_python_hook files env
                ≡ insert pythonpath (in_front files dir (or_default pythonpath env)) env))
  unfolding setup_python_hook
  python_cases env =
      elim (Bool-cases (beq (or_default (codes "ENVPROXY_NO_PYTHON") env) (codes "1"))) [
        | inl off ↦ inl (inl (is_one (codes "ENVPROXY_NO_PYTHON") env off), rw off refl)
        | inr on ↦
            elim (Option-cases
              (find_support_dir files env (codes "python") (codes "sitecustomize.py"))) [
                | inl e ↦ inl (inr e, rw (on, e) refl)
                | inr (dir, e) ↦
                    inr (dir, (not_one (codes "ENVPROXY_NO_PYTHON") env on, e), rw (on, e) refl)
              ]
      ]

  java_cases :
      (env : Env)
      → (IsOff (codes "ENVPROXY_NO_JAVA") env (java_jar env) × (setup_java_hook files env ≡ env))
        ⊎ ((jar : Bytes) × IsOn (codes "ENVPROXY_NO_JAVA") env (java_jar env) jar
            × (setup_java_hook files env
                ≡ insert java_options
                    (behind files (or_default java_options env) (agent_opts files jar))
                    env))
  unfolding setup_java_hook
  java_cases env = elim (Bool-cases (beq (or_default (codes "ENVPROXY_NO_JAVA") env) (codes "1"))) [
    | inl off ↦ inl (inl (is_one (codes "ENVPROXY_NO_JAVA") env off), rw off refl)
    | inr on ↦
        elim (Option-cases
          (find_support_file files env (codes "java") (codes "envproxy-agent.jar"))) [
            | inl e ↦ inl (inr e, rw (on, e) refl)
            | inr (jar, e) ↦
                inr (jar, (not_one (codes "ENVPROXY_NO_JAVA") env on, e), rw (on, e) refl)
          ]
  ]

  python_keeps :
      (env : Env) (name : Bytes)
      → name ≢ pythonpath
      → get name (setup_python_hook files env) ≡ get name env
  python_keeps env name n = elim (python_cases env) [
    | inl (off, e) ↦ rw e refl
    | inr (dir, on, e) ↦ rw e (get-insert_other pythonpath name _ env n)
  ]

  java_keeps :
      (env : Env) (name : Bytes)
      → name ≢ java_options
      → get name (setup_java_hook files env) ≡ get name env
  java_keeps env name n = elim (java_cases env) [
    | inl (off, e) ↦ rw e refl
    | inr (jar, on, e) ↦ rw e (get-insert_other java_options name _ env n)
  ]

  -- The constructor changes no variable but `PYTHONPATH` and `JAVA_TOOL_OPTIONS`.
  pub envproxy_init_keeps :
      (env : Env) (name : Bytes)
      → name ≢ pythonpath
      → name ≢ java_options
      → get name (envproxy_init files env) ≡ get name env
  unfolding envproxy_init
  envproxy_init_keeps env name n m =
      java_keeps (setup_python_hook files env) name m ∙ python_keeps env name n

  -- The agent's options, for a jar file.
  abbrev pub jar_options : Bytes → Bytes
  jar_options jar = codes "--add-opens=java.base/java.lang=ALL-UNNAMED -javaagent:" ++ jar

  abbrev pub PythonExtended : Env → Option Bytes → Type 0
  PythonExtended env after =
      IsExtended (get (codes "ENVPROXY_NO_PYTHON") env)
        (find_support_dir files env (codes "python") (codes "sitecustomize.py"))
        (HasMarker files (codes "sitecustomize.py")) (λ dir v. dir ++ (codes ":" ++ v)) (λ dir. dir)
        (get pythonpath env) after

  abbrev pub JavaExtended : Env → Option Bytes → Type 0
  JavaExtended env after =
      IsExtended (get (codes "ENVPROXY_NO_JAVA") env)
        (find_support_file files env (codes "java") (codes "envproxy-agent.jar"))
        (λ jar. files.exists jar ≡ true) (λ jar v. v ++ (codes " " ++ jar_options jar)) jar_options
        (get java_options env) after
