-- ===== src/Cli/Pair.antt =====
-- Pairing from the command line (crates/shellbell-cli/src/main.rs, lines 206 to 295). The parser of URLs,
-- the client of reqwest, the clocks and the file of the credentials are parameters; times are in
-- milliseconds.
pub mod Addresses
pub mod Ends
pub mod Saves
use shellbell.Base.{
  ℕ, zero, suc, ◌+◌, ◌-◌, List, [], ◌∷◌, ◌++◌, Option, none, some, Bool, true, false, not, ◌&&◌,
  ◌||◌, ltb, leb, if◌then◌else◌, unwrap_or, any, is_some,
}
use shellbell.Base.Result.{Result, ok, err}
use shellbell.Base.Step.{Step, ◌>>=◌, ◌>>◌, lift, pure, require, map_error}
use shellbell.Base.Text.{Text, codes, text_eq, is_empty, trim}
use shellbell.Activity.Session.{Uuid}
use shellbell.Relay.State.{PairingStatus, pending, approved, rejected, expired}
use shellbell.Relay.Pairing.{PairingPollResponse}
use shellbell.Cli.Http.{Reply, HttpError, send_json, get_json_retry}

-- A `Url` as its accessors show it.
pub record Url : Type 0 where
  pub scheme : Text
  pub host : Option Text
  pub path : Text
  pub query : Option Text
  pub fragment : Option Text
  pub cannot_be_a_base : Bool

pub data PairError : Type 0 where
  not_https not_absolute no_endpoint no_machine_name out_of_time : PairError
  was_rejected was_expired no_identity no_token not_saved out_of_rounds : PairError
  http_failed : HttpError → PairError

abbrev is_localhost : Option Text → Bool
is_localhost none = false
is_localhost (some host) =
    any (text_eq host) (codes "localhost" ∷ codes "127.0.0.1" ∷ codes "[::1]" ∷ codes "::1" ∷ [])

unfoldable pub ends_with_slash : Text → Bool
ends_with_slash [] = false
ends_with_slash (c ∷ []) = text_eq (c ∷ []) (codes "/")
ends_with_slash (c ∷ d ∷ ds) = ends_with_slash (d ∷ ds)

unfoldable pub is_secure : Text → Option Text → Bool
is_secure scheme host =
    text_eq scheme (codes "https") || (text_eq scheme (codes "http") && is_localhost host)

-- `set_path` of the path and a slash, where it does not end in one.
unfoldable pub with_slash : Text → Text
unfolding ends_with_slash
with_slash path = if ends_with_slash path then path else path ++ codes "/"

unfoldable pub validate_relay_url : Url → Result PairError Url
unfolding is_secure with_slash
validate_relay_url url =
    if not (is_secure url.scheme url.host)
    then err not_https
    else if url.cannot_be_a_base || not (is_some url.host)
    then err not_absolute
    else ok (record url { query = none; fragment = none; path = with_slash url.path })

-- What `hostname` gives, trimmed, or a name in its place.
unfoldable pub machine_name : Text → Text
machine_name hostname =
    let name = trim hostname in if is_empty name then codes "Shellbell source" else name

pub record StoredCredentials : Type 0 where
  pub relay_url : Url
  pub source_id : Uuid
  pub source_token : Text

-- The identifier of a new pairing, with the time until it expires, by the clock of this machine.
pub record Created : Type 0 where
  pub id : Uuid
  pub remaining_ms : ℕ

-- What the command acts on: the relay, the monotonic clock, and the file of the credentials.
pub record Pairer : Type 1 where
  pub State : Type 0
  pub hostname : State → Option Text
  pub join : Url → Text → Option Url
  pub uuid_text : Uuid → Text
  pub post : Url → Text → State → State × Reply
  pub get : Url → State → State × Reply
  pub read_created : Text → Option Created
  pub read_poll : Text → Option PairingPollResponse
  pub read_error : Text → Option (Text × Text)
  pub now : State → ℕ
  pub sleep : ℕ → State → State
  pub save : StoredCredentials → State → State × Bool

module _ (p : Pairer) where
  unfoldable pub save_credentials : StoredCredentials → Step p.State PairError (Unit {0})
  save_credentials credentials s =
      ((p.save credentials s).0, if (p.save credentials s).1 then ok tt else err not_saved)

  -- The request to create a pairing.
  unfoldable pub create : Url → Text → Step p.State PairError Created
  create url name s =
      let (t, reply) = p.post url name s in
      map_error http_failed (lift (send_json p.read_error p.read_created reply)) t

  unfoldable pub poll_pairing_once : Url → Step p.State PairError PairingPollResponse
  poll_pairing_once url =
      map_error http_failed (get_json_retry p.read_error p.read_poll (p.get url) p.sleep)

  unfoldable pub poll_url : Url → Uuid → Result PairError Url
  poll_url url id = elim (p.join url (codes "api/pairings/" ++ p.uuid_text id)) [
    | none ↦ err no_endpoint
    | some found ↦ ok found
  ]

  -- An approved answer, by its identity and token.
  unfoldable pub keep_approved : Url → Option Uuid → Option Text → Step p.State PairError (Unit {0})
  unfolding save_credentials
  keep_approved url none source_token s = (s, err no_identity)
  keep_approved url (some source_id) none s = (s, err no_token)
  keep_approved url (some source_id) (some source_token) s =
      save_credentials
        (record { relay_url = url; source_id = source_id; source_token = source_token }) s

  -- The `match` on the status; `next` is the next round.
  unfoldable pub by_status :
      Url
      → Step p.State PairError (Unit {0})
      → PairingPollResponse
      → PairingStatus
      → Step p.State PairError (Unit {0})
  by_status url next poll pending s = next s
  by_status url next poll rejected s = (s, err was_rejected)
  by_status url next poll expired s = (s, err was_expired)
  by_status url next poll approved s = keep_approved url poll.source_id poll.source_token s

  unfoldable pub after_poll :
      Url
      → Step p.State PairError (Unit {0})
      → p.State × Result PairError PairingPollResponse
      → p.State × Result PairError (Unit {0})
  unfolding by_status
  after_poll url next (t, err e) = (t, err e)
  after_poll url next (t, ok poll) = by_status url next poll poll.status t

  -- A round, after its pause, with the URL of the poll.
  unfoldable pub poll_round :
      Url
      → Step p.State PairError (Unit {0})
      → Result PairError Url
      → Step p.State PairError (Unit {0})
  unfolding after_poll
  poll_round url next (err e) s = (s, err e)
  poll_round url next (ok found) s = after_poll url next (poll_pairing_once found s)

  -- The loop, for as many rounds.
  unfoldable pub poll_loop : ℕ → Url → Uuid → ℕ → Step p.State PairError (Unit {0})
  unfolding poll_round
  poll_loop zero url id deadline s = (s, err out_of_rounds)
  poll_loop (suc rounds) url id deadline s =
      let round =
        poll_round url (poll_loop rounds url id deadline) (poll_url url id) (p.sleep 2000 s) in
      if leb deadline (p.now s) then (s, err out_of_time) else round

  unfoldable pub pair : ℕ → Url → Step p.State PairError (Unit {0})
  unfolding ◌>>=◌ lift require
  pair rounds given s =
      (do
        url ← lift (validate_relay_url given)
        hostname ← require (p.hostname s) no_machine_name
        found ← require (p.join url (codes "api/pairings")) no_endpoint
        created ← create found (machine_name hostname)
        λ t. poll_loop rounds url created.id (p.now t + created.remaining_ms) t)
        s
