-- ===== src/Daemon/Connection.antt =====
-- One connection of the daemon (crates/shellbell-local/src/daemon.rs, lines 162 to 215). The user of the
-- peer, what could be read of it within the time, and the moment of the request are arguments.
use shellbell.Base.{ℕ, [], ◌∷◌, Option, none, some, not, ◌==◌, if◌then◌else◌}
use shellbell.Base.Int.{ℤ}
use shellbell.Base.Result.{Result, ok, err}
use shellbell.Base.Text.{Text, is_empty}
use shellbell.Activity.Session.{Uuid}
use shellbell.Config.{EffectiveConfig}
use shellbell.LocalStore.Queue.{OldestFirst}
use shellbell.Ipc.{IpcRequest, IpcError, IpcResult, IpcResponse, success, failure, decode_request}
use shellbell.Ipc.Client.{Codec, ClientError, encode_line}
use shellbell.Daemon.{Daemon, handle_request}

-- `Uuid::nil`
abbrev nil : Uuid
nil = 0

-- `strip_suffix` of a line feed, if the bytes end in one.
unfoldable pub strip_line_feed : Text → Text
strip_line_feed [] = []
strip_line_feed (c ∷ []) = if c == 10 then [] else c ∷ []
strip_line_feed (c ∷ d ∷ ds) = c ∷ strip_line_feed (d ∷ ds)

unfoldable pub respond : Uuid → Result IpcError IpcResult → IpcResponse
unfolding success failure
respond request_id (ok result) = success request_id result
respond request_id (err error) = failure request_id error

-- The clocks and the fresh identifier of a request.
pub record Moment : Type 0 where
  pub fresh : Uuid
  pub mono : ℕ
  pub wall : ℤ

-- The line of an answer, if it is not too long.
unfoldable pub send_line : Result ClientError Text → Option Text
send_line (ok line) = some line
send_line (err error) = none

unfoldable pub reply : Codec → Daemon → IpcResponse → Daemon × Option Text
unfolding encode_line send_line
reply codec d response = (d, send_line (encode_line (codec.write_response response)))

unfoldable pub answer_decoded :
    OldestFirst
    → EffectiveConfig
    → Codec
    → Moment
    → Daemon
    → Result IpcError IpcRequest
    → Daemon × Option Text
unfolding reply respond handle_request
answer_decoded o config codec now d (ok message) =
    let answer = handle_request o config d now.fresh now.mono now.wall message in
    reply codec answer.0 (respond message.request_id answer.1)
answer_decoded o config codec now d (err error) = reply codec d (respond nil (err error))

-- The daemon afterwards, and the line that it wrote; `none` where it closed the connection.
unfoldable pub serve_connection :
    OldestFirst
    → EffectiveConfig
    → Codec
    → ℕ
    → ℕ
    → Moment
    → Daemon
    → Option Text
    → Daemon × Option Text
unfolding strip_line_feed decode_request answer_decoded
serve_connection o config codec own_uid peer_uid now d none = (d, none)
serve_connection o config codec own_uid peer_uid now d (some bytes) =
    if not (peer_uid == own_uid)
    then (d, none)
    else if is_empty bytes
    then (d, none)
    else answer_decoded o config codec now d (decode_request codec.json (strip_line_feed bytes))

-- A daemon with the number of requests it has served.
pub record Running : Type 0 where
  pub daemon : Daemon
  pub served : ℕ
