-- ===== src/Relay/Password.antt =====
-- The owner's set-up and login by password, which the relay's binary puts in front of the routes for
-- `/api/owner/bootstrap` and `/api/owner/session` (crates/shellbell-relay/src/main.rs, lines 26 to 32
-- and 140 to 395). The salt, the session's token and identifier, and both clocks are arguments; what
-- serde makes of a body is given.
pub mod Login
pub mod Once
use shellbell.Base.{
  ℕ, ◌+◌, ◌*◌, ◌/◌, ◌%◌, List, [], ◌∷◌, ◌++◌, Option, none, some, Bool, true, false, not, ◌&&◌,
  is_some, leb, ltb, any, length, unwrap_or, if◌then◌else◌,
}
use shellbell.Base.Result.{Result, ok, err, ◌>>=◌, ◌>>◌}
use shellbell.Base.Text.{Text, codes, trim, split, is_control}
use shellbell.Activity.Session.{Uuid}
use shellbell.Core.{hash_secret, verify_secret}
use shellbell.Core.Password.{Bytes, hash_password, verify_password}
use shellbell.Base.Int.{◌+ℤ◌}
use shellbell.Relay.Limiter.{check}
use shellbell.Relay.Owner.{RelayConfig, SessionResponse, issue_session}
use shellbell.Relay.State.{DateTime, Headers, Entry, OwnerSession, Relay, update_where}

-- `password_hash` is the setting `owner_password_hash`.
pub record OwnerState : Type 0 where
  pub relay : Relay
  pub password_hash : Option Text
  pub attempts : List Entry

pub data OwnerError : Type 0 where
  too_many_attempts not_authenticated owner_already_configured password_required : OwnerError
  password_too_short password_too_long password_control : OwnerError

pub record OwnerBootstrapStatus : Type 0 where
  pub bootstrap_required : Bool
  pub password_required : Bool

abbrev pub attempt_limit : ℕ
attempt_limit = 10

-- Five minutes, in nanoseconds.
abbrev pub attempt_window : ℕ
attempt_window = 300000000000

-- `str::as_bytes`
unfoldable pub utf8 : Text → Bytes
utf8 [] = []
utf8 (c ∷ s) =
    let rest = utf8 s in
    (if ltb c 0x80
      then c ∷ []
      else if ltb c 0x800
      then (0xc0 + c / 64) ∷ (0x80 + c % 64) ∷ []
      else if ltb c 0x10000
      then (0xe0 + c / 4096) ∷ (0x80 + c / 64 % 64) ∷ (0x80 + c % 64) ∷ []
      else (0xf0 + c / 262144)
        ∷ (0x80 + c / 4096 % 64)
        ∷ (0x80 + c / 64 % 64)
        ∷ (0x80 + c % 64)
        ∷ [])
    ++ rest

-- `if !test { return … }`
unfoldable pub guard : Bool → OwnerError → Result OwnerError (Unit {0})
guard b e = if b then ok tt else err e

unfoldable pub validate_owner_password : Text → Result OwnerError (Unit {0})
unfolding guard
validate_owner_password password = do
  guard (leb 12 (length password)) password_too_short
  guard (leb (length password) 128) password_too_long
  guard (not (any is_control password)) password_control

first_part : List Text → Text
first_part [] = []
first_part (t ∷ ts) = t

-- The key of an attempt; `split` gives at least one part.
unfoldable pub attempt_key : Text → Headers → Text
unfolding first_part
attempt_key action headers =
    action ++ (58 ∷ trim (first_part (split 44 (unwrap_or headers.forwarded_for (codes "local")))))

-- `allow_owner_attempt`, on the counters.
unfoldable pub allow_owner_attempt : List Entry → Text → Headers → ℕ → List Entry × Bool
unfolding attempt_key
allow_owner_attempt attempts action headers mono =
    check attempts (attempt_key action headers) attempt_limit attempt_window mono

unfoldable pub owner_status : OwnerState → OwnerBootstrapStatus
owner_status s = record {
  bootstrap_required = not (is_some s.relay.bootstrapped_at);
  password_required = not (is_some s.password_hash);
}

unfoldable pub revoke_sessions : DateTime → List OwnerSession → List OwnerSession
revoke_sessions now sessions =
    update_where (λ r. not (is_some r.revoked_at)) (λ r. record r { revoked_at = some now })
      sessions

-- The answer, where the guards let the request pass, or their error.
unfoldable pub if_passed :
    OwnerState
    → OwnerState × Result OwnerError SessionResponse
    → Result OwnerError (Unit {0})
    → OwnerState × Result OwnerError SessionResponse
if_passed s next (err e) = (s, err e)
if_passed s next (ok u) = next

module _ (sha256 : Text → List ℕ) (sha256_bytes : Bytes → Bytes) (config : RelayConfig) where
  -- `issue_owner_session`: the row is that of `issue_session`.
  unfoldable pub issue_owner_session :
      Text → Uuid → DateTime → OwnerState → OwnerState × Result OwnerError SessionResponse
  unfolding issue_session
  issue_owner_session token id now s =
      let issued = issue_session sha256 config token id now s.relay in
      (
        record s { relay = issued.0 },
        ok (record { authenticated = true; expires_at = now +ℤ config.session_ttl }),
      )

  -- The guards of the set-up, in their order.
  unfoldable pub bootstrap_guards :
      Bool → Text → Text → Bool → OwnerState → Result OwnerError (Unit {0})
  unfolding guard validate_owner_password
  bootstrap_guards allowed bootstrap_token password reset s = do
    guard allowed too_many_attempts
    guard (verify_secret sha256 bootstrap_token config.bootstrap_token_hash) not_authenticated
    validate_owner_password password
    guard (not (is_some s.relay.bootstrapped_at && is_some s.password_hash && not reset))
        owner_already_configured

  module _ (encode : Bytes → Text) where
    -- The transaction of the set-up.
    unfoldable pub set_up : Bytes → Text → DateTime → OwnerState → OwnerState
    unfolding revoke_sessions utf8
    set_up salt password now s = record s {
      relay = record s.relay {
        bootstrapped_at =
            if is_some s.relay.bootstrapped_at then s.relay.bootstrapped_at else some now;
        owner_sessions = revoke_sessions now s.relay.owner_sessions;
      };
      password_hash = some (hash_password sha256_bytes encode salt (utf8 password));
    }

    -- `POST /api/owner/bootstrap`
    unfoldable pub owner_bootstrap :
        Headers
        → Text
        → Text
        → Bool
        → Bytes
        → Text
        → Uuid
        → ℕ
        → DateTime
        → DateTime
        → OwnerState
        → OwnerState × Result OwnerError SessionResponse
    unfolding allow_owner_attempt bootstrap_guards set_up if_passed issue_owner_session
    owner_bootstrap headers bootstrap_token password reset salt token id mono now issued s =
        let (attempts, allowed) = allow_owner_attempt s.attempts (codes "bootstrap") headers mono in
        let s' = record s { attempts = attempts } in
        if_passed s' (issue_owner_session token id issued (set_up salt password now s'))
          (bootstrap_guards allowed bootstrap_token password reset s')

  module _ (decode : Text → Option Bytes) where
    unfoldable pub login_guards : Bool → Text → Option Text → Result OwnerError (Unit {0})
    unfolding guard utf8
    login_guards allowed password none = do guard allowed too_many_attempts; err password_required
    login_guards allowed password (some stored_hash) = do
      guard allowed too_many_attempts
      guard (verify_password sha256_bytes decode (utf8 password) stored_hash) not_authenticated

    -- `POST /api/owner/session`
    unfoldable pub owner_login :
        Headers
        → Text
        → Text
        → Uuid
        → ℕ
        → DateTime
        → OwnerState
        → OwnerState × Result OwnerError SessionResponse
    unfolding allow_owner_attempt login_guards if_passed issue_owner_session
    owner_login headers password token id mono issued s =
        let (attempts, allowed) = allow_owner_attempt s.attempts (codes "login") headers mono in
        let s' = record s { attempts = attempts } in
        if_passed s' (issue_owner_session token id issued s')
          (login_guards allowed password s'.password_hash)
