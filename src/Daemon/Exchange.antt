-- ===== src/Daemon/Exchange.antt =====
-- A request from the client's `request` (crates/shellbell-local/src/ipc.rs) through one connection of
-- the daemon (daemon.rs, `serve_connection`) and back.
use shellbell.Base.{
  ◌∙◌, ap, ℕ, suc, ◌+◌, ◌≡◌, ◌≤◌, ◌<◌, refl, [], ◌∷◌, ◌++◌, some, true, false, ◌==◌, arith,
}
use shellbell.Base.Result.{Result, ok, err}
use shellbell.Base.Step.{◌>>=◌, lift, require}
use shellbell.Base.Text.{Text, is_empty, utf8_len}
use shellbell.Config.{EffectiveConfig}
use shellbell.LocalStore.Queue.{OldestFirst}
use shellbell.Ipc.{
  IpcRequest, IpcError, IpcResult, IpcResponse, success, failure, validate, max_ipc_message,
}
use shellbell.Ipc.Client.{
  Codec, ClientError, refused, Socket, encode_line, check_length, accept_response, exchange,
  request,
}
use shellbell.Ipc.Wire.{Conveys, Returns, decode_written}
use shellbell.Daemon.{Answer, handle_request}
use shellbell.Daemon.Connection.{
  Moment, Running, strip_line_feed, respond, send_line, reply, answer_decoded, serve_connection,
}

strip-append : (b : Text) → strip_line_feed (b ++ (10 ∷ [])) ≡ b
unfolding strip_line_feed
strip-append [] = refl
strip-append (c ∷ []) = refl
strip-append (c ∷ d ∷ ds) = rw (strip-append (d ∷ ds)) refl

filled : (b : Text) (c : ℕ) → is_empty (b ++ (c ∷ [])) ≡ false
filled [] c = refl
filled (d ∷ ds) c = refl

encode_line_short : (b : Text) → utf8_len b ≤ max_ipc_message → encode_line b ≡ ok (b ++ (10 ∷ []))
unfolding encode_line
encode_line_short b h = ground arith

with_line_feed : (b : Text) → utf8_len (b ++ (10 ∷ [])) ≡ utf8_len b + 1
unfolding utf8_len
with_line_feed [] = refl
with_line_feed (c ∷ cs) = omega (arith, with_line_feed cs)

check_length_short :
    (b : Text) → utf8_len b < max_ipc_message → check_length (b ++ (10 ∷ [])) ≡ ok (b ++ (10 ∷ []))
unfolding check_length
check_length_short b h = ground (arith, with_line_feed b)

-- Whatever the client makes of an answer, its exchange is all that changes.
request-socket :
    {S : Type 0} (codec : Codec) (socket : Socket S) (r : IpcRequest) (limit : ℕ) (s : S)
    (line : Text)
    → encode_line (codec.write_request r) ≡ ok line
    → (request codec socket r limit s).0 ≡ (socket limit line s).0
unfolding request exchange ◌>>=◌ lift require check_length
request-socket codec socket r limit s line h = rw h (ground arith)

-- What the client makes of the daemon's result.
abbrev pub outcome : IpcRequest → Result IpcError IpcResult → Result ClientError IpcResponse
outcome r (ok result) = ok (success r.request_id result)
outcome r (err e) = err (refused (some e))

accept-respond :
    (r : IpcRequest) (answer : Result IpcError IpcResult)
    → accept_response r (respond r.request_id answer) ≡ outcome r answer
unfolding accept_response respond success failure
accept-respond r (ok result) = ground arith
accept-respond r (err e) = ground arith

module _ (o : OldestFirst) (config : EffectiveConfig) (codec : Codec) (uid : ℕ)
    (moments : ℕ → Moment) where
  -- The daemon after a request, and its result.
  abbrev pub handled : IpcRequest → Running → Answer
  handled r s =
      let now = moments s.served in handle_request o config s.daemon now.fresh now.mono now.wall r

  abbrev pub after : IpcRequest → Running → Running
  after r s = record { daemon = (handled r s).0; served = suc s.served }

  -- A daemon of the same user that answers each request in time, at the moments given.
  unfoldable pub running_socket : Socket Running
  unfolding serve_connection
  running_socket limit line s =
      let (d, answer) =
        serve_connection o config codec uid uid (moments s.served) s.daemon (some line) in
      (record { daemon = d; served = suc s.served }, answer)

  reached :
      (r : IpcRequest) (limit : ℕ) (s : Running)
      → Conveys codec r
      → validate r ≡ ok tt
      → running_socket limit (codec.write_request r ++ (10 ∷ [])) s ≡ (
        after r s,
        send_line (encode_line (codec.write_response (respond r.request_id (handled r s).1))),
      )
  unfolding running_socket serve_connection answer_decoded reply
  reached r limit s back valid =
      let same : (uid == uid) ≡ true = ground arith in
      rw same (
        rw (filled (codec.write_request r) 10)
          (rw (strip-append (codec.write_request r)) (rw (decode_written codec r back valid) refl)))

  served :
      (r : IpcRequest) (limit : ℕ) (s : Running)
      → Conveys codec r
      → validate r ≡ ok tt
      → Returns codec (respond r.request_id (handled r s).1)
      → running_socket limit (codec.write_request r ++ (10 ∷ [])) s ≡ (
        after r s,
        some (codec.write_response (respond r.request_id (handled r s).1) ++ (10 ∷ [])),
      )
  unfolding send_line
  served r limit s back valid returns =
      let answer = codec.write_response (respond r.request_id (handled r s).1) in
      reached r limit s back valid
      ∙ rw (encode_line_short answer (omega (arith, returns.fits))) refl

  -- A valid request that serde conveys reaches the handler of a running daemon of the same user
  -- once: the daemon is as after a direct call, whatever becomes of its answer.
  pub request_is_handled :
      (r : IpcRequest) (limit : ℕ) (s : Running)
      → Conveys codec r
      → validate r ≡ ok tt
      → (request codec running_socket r limit s).0 ≡ after r s
  request_is_handled r limit s back valid =
      request-socket codec running_socket r limit s (codec.write_request r ++ (10 ∷ []))
        (encode_line_short _ back.fits)
      ∙ ap (λ x. x.0) (reached r limit s back valid)

  -- Where serde conveys a valid request and returns the answer to it, which has fewer than 8192
  -- bytes: the client has the result that the handler of a running daemon of the same user gives
  -- for a direct call, and the daemon is as after that call.
  pub request_reaches :
      (r : IpcRequest) (limit : ℕ) (s : Running)
      → Conveys codec r
      → validate r ≡ ok tt
      → Returns codec (respond r.request_id (handled r s).1)
      → request codec running_socket r limit s ≡ (after r s, outcome r (handled r s).1)
  unfolding request exchange ◌>>=◌ lift require
  request_reaches r limit s back valid returns =
      let answer = respond r.request_id (handled r s).1 in
      rw (encode_line_short _ back.fits) (
        rw (served r limit s back valid returns) (
          rw (check_length_short _ returns.fits)
            (rw returns.response (rw (accept-respond r (handled r s).1) refl))))
