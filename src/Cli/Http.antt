-- ===== src/Cli/Http.antt =====
-- Requests to the relay (crates/shellbell-cli/src/main.rs, lines 904 to 949). The client of reqwest is
-- a parameter: what came of one request, and the JSON of an answer.
pub mod Retry
use shellbell.Base.{
  ℕ, zero, suc, ◌+◌, ◌*◌, Option, none, some, Bool, true, false, ◌&&◌, ◌||◌, ◌==◌, leb, ltb,
  if◌then◌else◌, unwrap_or,
}
use shellbell.Base.Result.{Result, ok, err}
use shellbell.Base.Step.{Step}
use shellbell.Base.Text.{Text}

-- What came of a request: an answer with its status code and its body, or an error of the transport.
pub data Reply : Type 0 where
  answered : ℕ → Text → Reply
  timed_out not_connected broken : Reply

pub data HttpError : Type 0 where
  api_error : Text → Text → HttpError
  unauthorized not_json request_failed : HttpError
  http_status : ℕ → HttpError
  transport : Reply → HttpError

unfoldable pub is_success : ℕ → Bool
is_success status = leb 200 status && ltb status 300

unfoldable pub is_server_error : ℕ → Bool
is_server_error status = leb 500 status && ltb status 600

-- Worth another attempt, if there is one.
unfoldable pub is_transient : Reply → Bool
unfolding is_success is_server_error
is_transient (answered status body) = is_server_error status
is_transient timed_out = true
is_transient not_connected = true
is_transient broken = false

module _ (api : Text → Option (Text × Text)) where
  -- By the code and message of the body, if it is an `ApiError`.
  unfoldable pub response_error : ℕ → Text → HttpError
  response_error status body = elim (api body) [
    | some (code, message) ↦ api_error code message
    | none ↦ if status == 401 then unauthorized else http_status status
  ]

  -- The error that another attempt keeps.
  unfoldable pub error_of : Reply → HttpError
  unfolding response_error
  error_of (answered status body) = response_error status body
  error_of timed_out = transport timed_out
  error_of not_connected = transport not_connected
  error_of broken = transport broken

  module _ {A : Type 0} (parse : Text → Option A) where
    abbrev decoded : Option A → Result HttpError A
    decoded none = err not_json
    decoded (some a) = ok a

    unfoldable pub read_answer : ℕ → Text → Result HttpError A
    unfolding is_success response_error
    read_answer status body =
        if is_success status then decoded (parse body) else err (response_error status body)

    -- `send_json`, of what came of its request.
    unfoldable pub send_json : Reply → Result HttpError A
    unfolding read_answer
    send_json (answered status body) = read_answer status body
    send_json timed_out = err (transport timed_out)
    send_json not_connected = err (transport not_connected)
    send_json broken = err (transport broken)

    module _ {S : Type 0} (get : S → S × Reply) (sleep : ℕ → S → S) where
      -- The loop, with as many rounds left, the number of the attempt and the last error.
      unfoldable pub attempt_from : ℕ → ℕ → Option HttpError → Step S HttpError A
      unfolding send_json is_transient
      attempt_from zero attempt last s = (s, err (unwrap_or last request_failed))
      attempt_from (suc rounds) attempt last s =
          let (t, reply) = get s in
          let rest =
            attempt_from rounds (suc attempt) (some (error_of reply))
              (sleep (250 * (attempt + 1)) t) in
          if is_transient reply && ltb attempt 2 then rest else (t, send_json reply)

      unfoldable pub get_json_retry : Step S HttpError A
      unfolding attempt_from
      get_json_retry = attempt_from 3 0 none
