-- ===== src/Cli.antt =====
-- The command line (crates/shellbell-cli/src/main.rs): what it acts on, and
-- the session that the environment names (lines 671 to 693). What a command acts on is a host: a socket, the start
-- of a process, the clock. What is printed is not modelled.
pub mod Doctor
pub mod Http
pub mod Pair
pub mod Ready
pub mod Running
pub mod Commands
use shellbell.Base.{
  ℕ, zero, suc, List, [], ◌∷◌, Option, none, some, Bool, true, false, not, ◌&&◌, if◌then◌else◌,
}
use shellbell.Base.Result.{Result, ok, err, ◌>>=◌, ◌>>◌}
use shellbell.Base.Text.{Text, codes, text_eq, is_empty}
use shellbell.Activity.Session.{Uuid, ShellType, bash, zsh, fish}
use shellbell.Core.Password.{parse_u32}
use shellbell.Protocol.{Invalid}
use shellbell.Config.{ConfigError, RawConfig}
use shellbell.Ipc.{IpcCommand, IpcResponse, session_open, daemon_ping}
use shellbell.Ipc.Client.{Codec, Socket, ClientError, new_request, request}

pub data CliError : Type 0 where
  not_integrated session_id_invalid shell_pid_missing shell_pid_invalid : CliError
  shell_type_invalid pid_required shell_required : CliError
  no_private_dirs not_started daemon_starting daemon_not_ready unexpected_response : CliError
  ipc_failed : ClientError → CliError
  config_failed : ConfigError → CliError
  invalid_text : Invalid → CliError

-- The variables SHELLBELL_SESSION_ID, SHELLBELL_SHELL_PID, SHELLBELL_SHELL_TYPE and SHELLBELL_TTY.
pub record Environment : Type 0 where
  pub session_id : Option Text
  pub shell_pid : Option Text
  pub shell_type : Option Text
  pub tty : Option Text

-- What a command acts on. A step that may fail tells whether it succeeded.
pub record Host : Type 1 where
  pub State : Type 0
  pub codec : Codec
  pub socket : Socket State
  pub fresh : State → Uuid
  pub make_private_dirs : State → State × Bool
  pub spawn_daemon : State → State × Bool
  pub sleep : ℕ → State → State

-- What the crates uuid, humantime and toml make of a text.
pub record Parsers : Type 0 where
  pub uuid : Text → Option Uuid
  pub humantime : Text → Option ℕ
  pub toml : Text → Option RawConfig

-- Milliseconds.
abbrev pub hook_timeout : ℕ
hook_timeout = 90

abbrev pub cli_timeout : ℕ
cli_timeout = 2000

unfoldable pub some_or : {A : Type 0} → Option A → CliError → Result CliError A
some_or none e = err e
some_or (some a) e = ok a

unfoldable pub current_session_id : Parsers → Environment → Result CliError Uuid
unfolding some_or
current_session_id parsers env = do
  value ← some_or env.session_id not_integrated
  some_or (parsers.uuid value) session_id_invalid

abbrev is_text : Text → Option Text → Bool
is_text expected none = false
is_text expected (some value) = text_eq value expected

unfoldable pub shell_of : Option Text → Result CliError ShellType
shell_of value =
    if is_text (codes "bash") value
    then ok bash
    else if is_text (codes "zsh") value
    then ok zsh
    else if is_text (codes "fish") value
    then ok fish
    else err shell_type_invalid

-- `filter(|value| !value.is_empty() && value != "not a tty")`
unfoldable pub real_tty : Option Text → Option Text
real_tty none = none
real_tty (some value) =
    if not (is_empty value) && not (text_eq value (codes "not a tty")) then some value else none

pub record Metadata : Type 0 where
  pub session_id : Uuid
  pub shell_pid : ℕ
  pub shell_type : ShellType
  pub tty : Option Text

unfoldable pub current_session_metadata : Parsers → Environment → Result CliError Metadata
unfolding current_session_id some_or shell_of real_tty parse_u32
current_session_metadata parsers env = do
  session_id ← current_session_id parsers env
  value ← some_or env.shell_pid shell_pid_missing
  shell_pid ← some_or (parse_u32 value) shell_pid_invalid
  shell_type ← shell_of env.shell_type
  ok (record {
    session_id = session_id;
    shell_pid = shell_pid;
    shell_type = shell_type;
    tty = real_tty env.tty;
  })

abbrev pub opening : Metadata → IpcCommand
opening m = session_open m.session_id m.shell_pid m.shell_type m.tty
