-- ===== src/Ipc.antt =====
-- The local IPC protocol (crates/shellbell-local/src/ipc.rs, lines 10 to 245): its commands, which
-- requests are valid, and the answers. Decoding a line as JSON is serde's.

pub mod Accepts
pub mod Client
pub mod Wire
use shellbell.Base.{
  ℕ, List, Option, none, some, Bool, true, false, not, ◌||◌, ◌&&◌, ◌==◌, leb, ltb, any, all,
  is_some_and, [], ◌∷◌, if◌then◌else◌,
}
use shellbell.Base.Int.{ℤ}
use shellbell.Base.Result.{Result, ok, err, ◌>>=◌, ◌>>◌, map_err}
use shellbell.Base.Text.{Text, codes, text_eq, utf8_len, is_control}
use shellbell.Activity.Session.{Uuid, ShellType, Mode, SessionState, Session, displayed_active_ms}
use shellbell.LocalStore.Store.{DaemonStatus}
use shellbell.Protocol.{Invalid, validate_name, validate_message, validate_tags}

abbrev pub ipc_version : ℕ
ipc_version = 1

pub data IpcCommand : Type 0 where
  session_open : Uuid → ℕ → ShellType → Option Text → IpcCommand
  command_start : Uuid → IpcCommand
  prompt_ready : Uuid → IpcCommand
  session_close : Uuid → IpcCommand
  arm_persistent : Uuid → ℕ → ℕ → List Text → IpcCommand
  arm_once : Uuid → ℕ → ℕ → List Text → IpcCommand
  disarm : Uuid → IpcCommand
  set_label : Uuid → Option Text → IpcCommand
  status : Uuid → IpcCommand
  manual_ring : Option Uuid → Option Text → List Text → IpcCommand
  daemon_ping : IpcCommand
  daemon_shutdown : IpcCommand

pub record IpcRequest : Type 0 where
  pub version : ℕ
  pub request_id : Uuid
  pub command : IpcCommand

unfoldable pub command_session_id : IpcCommand → Option Uuid
command_session_id (session_open id pid shell tty) = some id
command_session_id (command_start id) = some id
command_session_id (prompt_ready id) = some id
command_session_id (session_close id) = some id
command_session_id (arm_persistent id minimum idle targets) = some id
command_session_id (arm_once id minimum idle targets) = some id
command_session_id (disarm id) = some id
command_session_id (set_label id label) = some id
command_session_id (status id) = some id
command_session_id (manual_ring id message targets) = id
command_session_id daemon_ping = none
command_session_id daemon_shutdown = none

pub data IpcError : Type 0 where
  version_mismatch shell_pid_zero tty_invalid duration_out_of_range : IpcError
  invalid : Invalid → IpcError
  too_long malformed no_object type_missing unknown_type unknown_field : IpcError
  not_registered : IpcError

abbrev check : Bool → IpcError → Result IpcError (Unit {0})
check true e = ok tt
check false e = err e

-- `validate_duration`: from 100 ms to seven days.
unfoldable pub validate_duration : ℕ → Result IpcError (Unit {0})
validate_duration value = check (leb 100 value && leb value 604800000) duration_out_of_range

unfoldable pub validate_arming : ℕ → ℕ → List Text → Result IpcError (Unit {0})
unfolding validate_duration
validate_arming minimum idle targets = do
  validate_duration minimum
  validate_duration idle
  map_err invalid (validate_tags targets)
  ok tt

abbrev pub bad_tty : Text → Bool
bad_tty value = ltb 256 (utf8_len value) || any is_control value

unfoldable pub validate_command : IpcCommand → Result IpcError (Unit {0})
unfolding validate_arming
validate_command (session_open id pid shell tty) = do
  check (not (pid == 0)) shell_pid_zero
  check (not (is_some_and tty bad_tty)) tty_invalid
validate_command (arm_persistent id minimum idle targets) = validate_arming minimum idle targets
validate_command (arm_once id minimum idle targets) = validate_arming minimum idle targets
validate_command (set_label id none) = ok tt
validate_command (set_label id (some label)) = do map_err invalid (validate_name label); ok tt
validate_command (manual_ring id message targets) = do
  map_err invalid (validate_message message)
  map_err invalid (validate_tags targets)
  ok tt
validate_command _ = ok tt

unfoldable pub validate : IpcRequest → Result IpcError (Unit {0})
unfolding validate_command
validate request = do
  check (request.version == ipc_version) version_mismatch
  validate_command request.command

pub record SessionStatus : Type 0 where
  pub session_id : Uuid
  pub shell_pid : ℕ
  pub shell_type : ShellType
  pub tty : Option Text
  pub mode : Mode
  pub state : SessionState
  pub burst_id : Option Uuid
  pub accumulated_active_ms : ℕ
  pub settling_deadline_wall_ms : Option ℤ
  pub burst_notified : Bool
  pub label : Option Text
  pub targets : List Text
  pub last_seen_wall_ms : ℤ

unfoldable pub from_session : Session → ℕ → SessionStatus
from_session s now_mono_ms = record {
  session_id = s.id;
  shell_pid = s.shell_pid;
  shell_type = s.shell_type;
  tty = s.tty;
  mode = s.mode;
  state = s.state;
  burst_id = s.burst_id;
  accumulated_active_ms = displayed_active_ms s now_mono_ms;
  settling_deadline_wall_ms = s.settling_deadline_wall_ms;
  burst_notified = s.burst_notified;
  label = s.label;
  targets = s.targets;
  last_seen_wall_ms = s.last_seen_wall_ms;
}

pub data IpcResult : Type 0 where
  acknowledged : IpcResult
  session_status : SessionStatus → IpcResult
  ring_queued : Option Uuid → IpcResult
  pong : DaemonStatus → IpcResult

pub record IpcResponse : Type 0 where
  pub version : ℕ
  pub request_id : Uuid
  pub succeeded : Bool
  pub result : Option IpcResult
  pub error : Option IpcError

unfoldable pub success : Uuid → IpcResult → IpcResponse
success request_id result = record {
  version = ipc_version;
  request_id = request_id;
  succeeded = true;
  result = some result;
  error = none;
}

unfoldable pub failure : Uuid → IpcError → IpcResponse
failure request_id error = record {
  version = ipc_version;
  request_id = request_id;
  succeeded = false;
  result = none;
  error = some error;
}

abbrev pub max_ipc_message : ℕ
max_ipc_message = 8192

-- The fields that a request of each type may have; `none` is an unknown type.
unfoldable pub request_fields : Text → Option (List Text)
request_fields kind =
    if text_eq kind (codes "session_open")
    then some (codes "session_id" ∷ codes "shell_pid" ∷ codes "shell_type" ∷ codes "tty" ∷ [])
    else if any (text_eq kind) (
        codes "command_start"
        ∷ codes "prompt_ready"
        ∷ codes "session_close"
        ∷ codes "disarm"
        ∷ codes "status"
        ∷ [])
    then some (codes "session_id" ∷ [])
    else if text_eq kind (codes "arm_persistent") || text_eq kind (codes "arm_once")
    then some (
        codes "session_id" ∷ codes "minimum_active_ms" ∷ codes "idle_for_ms" ∷ codes "targets" ∷ [])
    else if text_eq kind (codes "set_label")
    then some (codes "session_id" ∷ codes "label" ∷ [])
    else if text_eq kind (codes "manual_ring")
    then some (codes "session_id" ∷ codes "message" ∷ codes "targets" ∷ [])
    else if text_eq kind (codes "daemon_ping") || text_eq kind (codes "daemon_shutdown")
    then some []
    else none

abbrev is_known_key : List Text → Text → Bool
is_known_key fields key =
    any (text_eq key) (codes "version" ∷ codes "request_id" ∷ codes "type" ∷ [])
    || any (text_eq key) fields

-- `validate_request_keys` of an object, by its string `type`, if it has one, and its keys.
unfoldable pub validate_request_keys : Option Text → List Text → Result IpcError (Unit {0})
unfolding request_fields
validate_request_keys none keys = err type_missing
validate_request_keys (some kind) keys = elim (request_fields kind) [
  | none ↦ err unknown_type
  | some fields ↦ check (all (is_known_key fields) keys) unknown_field
]

-- What serde makes of a line: the object's `type` and keys, if it is an object, and the request.
pub record Json : Type 0 where
  pub object : Text → Option (Option (Option Text × List Text))
  pub request : Text → Option IpcRequest

unfoldable pub check_object : Option (Option Text × List Text) → Result IpcError (Unit {0})
unfolding validate_request_keys
check_object none = err no_object
check_object (some (kind, keys)) = validate_request_keys kind keys

unfoldable pub or_malformed : {A : Type 0} → Option A → Result IpcError A
or_malformed none = err malformed
or_malformed (some a) = ok a

unfoldable pub decode_request : Json → Text → Result IpcError IpcRequest
unfolding check_object or_malformed validate
decode_request json line = do
  check (leb (utf8_len line) max_ipc_message) too_long
  value ← or_malformed (json.object line)
  check_object value
  request ← or_malformed (json.request line)
  validate request
  ok request
