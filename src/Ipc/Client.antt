-- ===== src/Ipc/Client.antt =====
-- The client's side of the local IPC (crates/shellbell-local/src/ipc.rs, lines 262 to 269 and 312 to
-- 351). What serde writes and reads is a parameter, and so is the socket: one exchange connects, writes
-- a line and reads all of the answer within a time.
use shellbell.Base.{ℕ, [], ◌∷◌, ◌++◌, Option, none, some, not, ◌||◌, ◌==◌, leb, if◌then◌else◌}
use shellbell.Base.Result.{Result, ok, err}
use shellbell.Base.Step.{Step, ◌>>=◌, lift, require}
use shellbell.Base.Text.{Text, utf8_len}
use shellbell.Activity.Session.{Uuid}
use shellbell.Ipc.{
  IpcCommand, IpcRequest, IpcError, IpcResponse, Json, ipc_version, max_ipc_message,
}

-- What serde makes of the messages.
pub record Codec : Type 0 where
  pub write_request : IpcRequest → Text
  pub json : Json
  pub write_response : IpcResponse → Text
  pub read_response : Text → Option IpcResponse

pub data ClientError : Type 0 where
  message_too_long not_answered response_too_long malformed_response mismatched : ClientError
  refused : Option IpcError → ClientError

-- `encode_line`, of a value's JSON.
unfoldable pub encode_line : Text → Result ClientError Text
encode_line bytes =
    if leb (utf8_len bytes) max_ipc_message then ok (bytes ++ (10 ∷ [])) else err message_too_long

-- `IpcRequest::new`, with a fresh identifier.
abbrev pub new_request : Uuid → IpcCommand → IpcRequest
new_request id command = record { version = ipc_version; request_id = id; command = command }

-- What `request` makes of an answer that it could read.
unfoldable pub accept_response : IpcRequest → IpcResponse → Result ClientError IpcResponse
accept_response request value =
    if not (value.version == ipc_version) || not (value.request_id == request.request_id)
    then err mismatched
    else if value.succeeded
    then ok value
    else err (refused value.error)

unfoldable pub check_length : Text → Result ClientError Text
check_length response =
    if leb (utf8_len response) max_ipc_message then ok response else err response_too_long

-- A socket: an exchange with a limit in milliseconds; `none` where it could not connect, write or
-- read, or was not done in time.
abbrev pub Socket : Type 0 → Type 0
Socket S = ℕ → Text → S → S × Option Text

unfoldable pub exchange : {S : Type 0} → Socket S → ℕ → Text → Step S ClientError Text
exchange socket limit line s = ((socket limit line s).0, answered (socket limit line s).1)
  where
    answered : Option Text → Result ClientError Text
    answered none = err not_answered
    answered (some response) = ok response

unfoldable pub request :
    {S : Type 0} → Codec → Socket S → IpcRequest → ℕ → Step S ClientError IpcResponse
unfolding encode_line check_length accept_response exchange
request codec socket message limit = do
  bytes ← lift (encode_line (codec.write_request message))
  answer ← exchange socket limit bytes
  response ← lift (check_length answer)
  value ← require (codec.read_response response) malformed_response
  lift (accept_response message value)
