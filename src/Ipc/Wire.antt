-- ===== src/Ipc/Wire.antt =====
-- What serde writes for a request (crates/shellbell-local/src/ipc.rs, lines 17 to 23 and 104 to 153),
-- as far as the daemon's check of the keys reads it: the string `type` and the keys of the object.
use shellbell.Base.{
  ◌≡◌, ◌≤◌, ◌<◌, refl, List, [], ◌∷◌, ◌++◌, Option, none, some, true, arith, leb, any, all,
}
use shellbell.Base.Result.{ok}
use shellbell.Base.Text.{Text, codes, text_eq, utf8_len}
use shellbell.Ipc.{
  IpcCommand, IpcRequest, IpcResponse, session_open, command_start, prompt_ready, session_close,
  arm_persistent, arm_once, disarm, set_label, status, manual_ring, daemon_ping, daemon_shutdown,
  validate, validate_request_keys, request_fields, check_object, or_malformed, decode_request,
  max_ipc_message,
}
use shellbell.Ipc.Client.{Codec}

-- `rename_all = "snake_case"`
unfoldable pub kind_of : IpcCommand → Text
kind_of (session_open id pid shell tty) = codes "session_open"
kind_of (command_start id) = codes "command_start"
kind_of (prompt_ready id) = codes "prompt_ready"
kind_of (session_close id) = codes "session_close"
kind_of (arm_persistent id minimum idle targets) = codes "arm_persistent"
kind_of (arm_once id minimum idle targets) = codes "arm_once"
kind_of (disarm id) = codes "disarm"
kind_of (set_label id label) = codes "set_label"
kind_of (status id) = codes "status"
kind_of (manual_ring id message targets) = codes "manual_ring"
kind_of daemon_ping = codes "daemon_ping"
kind_of daemon_shutdown = codes "daemon_shutdown"

-- `skip_serializing_if = "Option::is_none"`
abbrev unless_none : {A : Type 0} → Option A → Text → List Text
unless_none none key = []
unless_none (some a) key = key ∷ []

unfoldable pub fields_of : IpcCommand → List Text
fields_of (session_open id pid shell tty) =
    codes "session_id" ∷ codes "shell_pid" ∷ codes "shell_type" ∷ unless_none tty (codes "tty")
fields_of (command_start id) = codes "session_id" ∷ []
fields_of (prompt_ready id) = codes "session_id" ∷ []
fields_of (session_close id) = codes "session_id" ∷ []
fields_of (arm_persistent id minimum idle targets) =
    codes "session_id" ∷ codes "minimum_active_ms" ∷ codes "idle_for_ms" ∷ codes "targets" ∷ []
fields_of (arm_once id minimum idle targets) =
    codes "session_id" ∷ codes "minimum_active_ms" ∷ codes "idle_for_ms" ∷ codes "targets" ∷ []
fields_of (disarm id) = codes "session_id" ∷ []
fields_of (set_label id label) = codes "session_id" ∷ codes "label" ∷ []
fields_of (status id) = codes "session_id" ∷ []
fields_of (manual_ring id message targets) =
    unless_none id (codes "session_id")
    ++ (unless_none message (codes "message") ++ (codes "targets" ∷ []))
fields_of daemon_ping = []
fields_of daemon_shutdown = []

-- The object's keys: those of the request, and those of the flattened command.
unfoldable pub keys_of : IpcCommand → List Text
unfolding fields_of
keys_of c = codes "version" ∷ codes "request_id" ∷ codes "type" ∷ fields_of c

-- serde reads back what it wrote of a request, which is not too long.
pub record Conveys (codec : Codec) (r : IpcRequest) : Type 0 where
  pub request : codec.json.request (codec.write_request r) ≡ some r
  pub object :
      codec.json.object (codec.write_request r)
      ≡ some (some (some (kind_of r.command), keys_of r.command))
  pub fits : utf8_len (codec.write_request r) ≤ max_ipc_message

-- It reads back what it wrote of an answer, with a line feed behind it, which the client counts.
pub record Returns (codec : Codec) (a : IpcResponse) : Type 0 where
  pub response : codec.read_response (codec.write_response a ++ (10 ∷ [])) ≡ some a
  pub fits : utf8_len (codec.write_response a) < max_ipc_message

-- The client writes no key that the daemon refuses.
pub keys_accepted : (c : IpcCommand) → validate_request_keys (some (kind_of c)) (keys_of c) ≡ ok tt
unfolding validate_request_keys request_fields kind_of keys_of text_eq any all
keys_accepted (session_open id pid shell none) = refl
keys_accepted (session_open id pid shell (some tty)) = refl
keys_accepted (command_start id) = refl
keys_accepted (prompt_ready id) = refl
keys_accepted (session_close id) = refl
keys_accepted (arm_persistent id minimum idle targets) = refl
keys_accepted (arm_once id minimum idle targets) = refl
keys_accepted (disarm id) = refl
keys_accepted (set_label id label) = refl
keys_accepted (status id) = refl
keys_accepted (manual_ring none none targets) = refl
keys_accepted (manual_ring none (some message) targets) = refl
keys_accepted (manual_ring (some id) none targets) = refl
keys_accepted (manual_ring (some id) (some message) targets) = refl
keys_accepted daemon_ping = refl
keys_accepted daemon_shutdown = refl

-- The daemon decodes a valid request that the client wrote as that request.
pub decode_written :
    (codec : Codec) (r : IpcRequest)
    → Conveys codec r
    → validate r ≡ ok tt
    → decode_request codec.json (codec.write_request r) ≡ ok r
unfolding decode_request check_object or_malformed
decode_written codec r back valid =
    let short : leb (utf8_len (codec.write_request r)) max_ipc_message ≡ true =
      ground (arith, back.fits) in
    rw short (rw back.object (rw (keys_accepted r.command) (rw back.request (rw valid refl))))
