-- ===== src/Cli/Main.antt =====
-- crates/envproxy-cli/src/main.rs: `main`, on a command line that was parsed.
use env_proxy.Prelude.{ℕ, List, Option, Result, Bool}
use env_proxy.Prelude.Bytes.{Bytes, codes}
use env_proxy.Io.{IoError, Stream}
use env_proxy.Io.FileSystem.{FileSystem}
use env_proxy.Cli.{CliError, Outcome, cmd_get, cmd_status}
use env_proxy.Cli.Init.{InitError, cmd_init}
use env_proxy.Cli.Run.{RunError, Exec, cmd_run}

pub data Commands : Type 0 where
  run : (cmd : List Bytes) → Commands
  get : (key : Bytes) → Commands
  status : Commands
  init : (target : Bytes) → (write_config : Option Bytes) → Commands

-- `Cli`
pub record Arguments : Type 0 where
  pub socket : Bytes
  pub command : Commands

-- The default of `--target`.
abbrev pub default_target : Bytes
default_target = codes "/envproxy"

-- What the commands meet: sockets, variables, the wait's clock and looks, the directory of the
-- binary, and the file system with its state.
pub record Machine (F : Type 0) : Type 0 where
  pub connect : Bytes → Result IoError Stream
  pub var : Bytes → Option Bytes
  pub exists_at : Bytes → ℕ → Bool
  pub elapsed : ℕ → ℕ
  pub exe_dir : Option Bytes
  pub exists : Bytes → Bool
  pub fs : FileSystem F
  pub files : F

-- How the command ends: with a program that is executed, a report, or copied files.
pub data Done (F : Type 0) : Type 0 where
  ran : Result RunError Exec → Done F
  got : Result CliError Outcome → Done F
  checked : Outcome → Done F
  copied : Result InitError Bytes × F → Done F

module _ {F : Type 0} (m : Machine F) where
  abbrev perform : Bytes → Commands → Done F
  perform socket (run cmd) = ran (cmd_run m.var m.exists_at m.elapsed m.exe_dir m.exists cmd socket)
  perform socket (get key) = got (cmd_get m.connect key socket)
  perform socket status = checked (cmd_status m.connect socket)
  perform socket (init target write_config) = copied (cmd_init m.fs target write_config m.files)

  unfoldable pub main : Arguments → Done F
  main cli = perform cli.socket cli.command
