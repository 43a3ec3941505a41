-- ===== src/Injector/Kubelet.antt =====
-- The containers of a pod that use the command line tool of crates/envproxy-cli.
-- The kubelet and the parser of the command line are parameters.
use env_proxy.Prelude.{◌≡◌, List, [], ◌∷◌, ◌++◌, Option, none, some, false, map}
use env_proxy.Prelude.Bytes.{Bytes, codes, beq}
use env_proxy.Prelude.Bytes.Search.{find, starts_with}
use env_proxy.Proto.Wire.{default_socket_path}
use env_proxy.Cli.Run.{Exec, wait}
use env_proxy.Cli.Main.{Arguments, Machine, Done, run, init, main}
use env_proxy.Injector.{socket_path, EnvVar, literal, value_from, Container}

-- What the kubelet makes of the variables of a container, and of a text of its command line, where
-- `$(NAME)` stands for a variable.
pub record Kubelet : Type 0 where
  pub env_of : List EnvVar → Bytes → Option Bytes
  pub expand : List EnvVar → Bytes → Bytes

abbrev pub var_name : EnvVar → Bytes
var_name (literal name value) = name
var_name (value_from name source) = name

abbrev pub IsUnnamed : Bytes → List EnvVar → Type 0
IsUnnamed name [] = Unit {0}
IsUnnamed name (v ∷ vars) = (beq (var_name v) name ≡ false) × IsUnnamed name vars

-- The last variable of a name counts, and a text with no `$` stands for itself.
pub record KubeletLaws (k : Kubelet) : Type 0 where
  pub last_counts :
      (vars after : List EnvVar) (name value : Bytes)
      → find b'$' value ≡ none
      → IsUnnamed name after
      → k.env_of (vars ++ (literal name value ∷ after)) name ≡ some value
  pub plain_stays : (vars : List EnvVar) (s : Bytes) → find b'$' s ≡ none → k.expand vars s ≡ s

abbrev pub Parse : Type 0
Parse = List Bytes → Option Arguments

-- The command lines that the webhook makes are parsed: after `--` all is the command.
pub record ParseLaws (parse : Parse) : Type 0 where
  pub parse_run :
      (program : Bytes) (args : List Bytes)
      → parse (codes "run" ∷ codes "--" ∷ program ∷ args)
        ≡ some (record { socket = default_socket_path; command = run (program ∷ args) })
  pub parse_init :
      (target content : Bytes)
      → starts_with (codes "-") target ≡ false
      → starts_with (codes "-") content ≡ false
      → parse (codes "init" ∷ codes "--target" ∷ target ∷ codes "--write-config" ∷ content ∷ [])
        ≡ some (record { socket = default_socket_path; command = init target (some content) })

module _ {F : Type 0} (k : Kubelet) (parse : Parse) (m : Machine F) where
  abbrev pub with_vars : List EnvVar → Machine F
  with_vars env = record m { var = k.env_of env }

  -- The command line tool on the arguments of a command line.
  unfoldable pub run_tool : List EnvVar → List Bytes → Option (Bytes × Done F)
  run_tool env [] = none
  run_tool env (tool ∷ args) = elim (parse args) [
    | none ↦ none
    | some cli ↦ some (tool, main (with_vars env) cli)
  ]

  -- A container whose program is the command line tool: the tool, and how it ends.
  unfoldable pub run_container : Container → Option (Bytes × Done F)
  run_container c = run_tool c.env (map (k.expand c.env) (c.command ++ c.args))

  -- The command that the tool executes in the end.
  abbrev pub exec_of : List EnvVar → Bytes → List Bytes → Exec
  exec_of env program args = record {
    program = k.expand env program;
    args = map (k.expand env) args;
    vars = (codes "LD_PRELOAD", codes "/envproxy/lib/libenvproxy.so") ∷ [];
    waited = wait (m.exists_at socket_path) m.elapsed;
  }
