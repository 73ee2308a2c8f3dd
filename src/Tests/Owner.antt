-- ===== src/Tests/Owner.antt =====
-- The owner sets a password on a relay with one open session, and logs in.
use shellbell.Base.{
  ℕ, ◌≡◌, ◌↔◌, ◌++◌, refl, ap, List, [], ◌∷◌, Option, none, some, Bool, true, false, is_some, map,
  ◌≤◌, arith,
}
use shellbell.Base.Int.{pos}
use shellbell.Base.Result.{Result, ok}
use shellbell.Base.Text.{Text, codes}
use shellbell.Core.{hash_secret}
use shellbell.Core.Password.{hash_password, pbkdf2_sha256, iterations}
use shellbell.Relay.Owner.{RelayConfig, SessionResponse}
use shellbell.Relay.Password.{
  OwnerState, OwnerError, password_required, utf8, owner_bootstrap, owner_login,
}
use shellbell.Relay.Password.Login.{
  attempt, logs_in, refused_leaves, set_up_takes_over, login_succeeds_iff, closed, OwnerAttempt,
  sets_up,
}
use shellbell.Relay.Password.Once.{first_set_ups, openings, first_set_up_once}
use shellbell.Relay.State.{Headers, OwnerSession, Relay}
use shellbell.Tests.Password.{sha256, encode, decode, salt, length-padded, moved_back, no_dollar}

abbrev digest : Text → List ℕ
digest t = 7 ∷ []

abbrev headers : Headers
headers = record { cookie = none; csrf_token = none; authorization = none; forwarded_for = none }

abbrev config : RelayConfig
config = record { bootstrap_token_hash = codes "07"; session_ttl = pos 1000; vapid_public_key = [] }

abbrev open_session : OwnerSession
open_session = record {
  id = 1;
  token_hash = [];
  created_at = pos 0;
  expires_at = pos 1000;
  revoked_at = none;
}

abbrev relay : Relay
relay = record {
  bootstrapped_at = some (pos 0);
  owner_sessions = open_session ∷ [];
  sources = [];
  pairings = [];
  receivers = [];
  pull_receivers = [];
  rings = [];
  last_ring_id = 0;
  deliveries = [];
  history_retention_days = 14;
  entries = [];
}

abbrev owner : OwnerState
owner = record { relay = relay; password_hash = none; attempts = [] }

abbrev password : Text
password = codes "correct horse"

abbrev set_up_run : OwnerState × Result OwnerError SessionResponse
set_up_run =
    owner_bootstrap digest sha256 config encode headers (codes "token") password false salt
      (codes "session") 2 0 (pos 5) (pos 6) owner

set_up_takes_over_example :
    (set_up_run.0.password_hash ≡ some (hash_password sha256 encode salt (utf8 password)))
    × (is_some set_up_run.0.relay.bootstrapped_at ≡ true)
    × (set_up_run.0.relay.owner_sessions
        ≡ map (closed (pos 5)) relay.owner_sessions
          ++ (record {
            id = 2;
            token_hash = hash_secret digest (codes "session");
            created_at = pos 6;
            expires_at = pos 1006;
            revoked_at = none;
          }
              ∷ []))
unfolding owner_bootstrap shellbell.Relay.Password.bootstrap_guards shellbell.Relay.Password.guard
    shellbell.Relay.Password.if_passed shellbell.Relay.Password.validate_owner_password
    shellbell.Relay.Password.allow_owner_attempt shellbell.Relay.Password.issue_owner_session
    shellbell.Relay.Limiter.check shellbell.Relay.Limiter.count_call shellbell.Relay.Limiter.renew
    shellbell.Core.verify_secret shellbell.Core.hash_secret shellbell.Core.hex_digest
    shellbell.Base.Text.text_eq shellbell.Base.any shellbell.Base.Text.is_control
    shellbell.Base.Int.◌+ℤ◌
set_up_takes_over_example =
    set_up_takes_over digest sha256 config encode decode headers (codes "token") password false salt
      (codes "session") 2 0 (pos 5) (pos 6) owner set_up_run.0
      (record { authenticated = true; expires_at = pos 1006 }) refl

abbrev with_password : OwnerState
with_password = record owner {
  password_hash = some (hash_password sha256 encode salt (utf8 password));
}

login_succeeds_iff_example :
    ((s' : OwnerState) × (response : SessionResponse) × (owner_login digest sha256 config decode
          headers
          (codes "a guess")
          (codes "session")
          3
          0
          (pos 6)
          with_password
        ≡ (s', ok response)))
    ↔ (pbkdf2_sha256 sha256 (utf8 (codes "a guess")) salt iterations
        ≡ pbkdf2_sha256 sha256 (utf8 password) salt iterations)
unfolding shellbell.Relay.Password.allow_owner_attempt shellbell.Relay.Limiter.check
    shellbell.Relay.Limiter.count_call shellbell.Relay.Limiter.renew
login_succeeds_iff_example =
    login_succeeds_iff digest sha256 config encode decode headers (codes "a guess") password salt
      (codes "session") 3 0 (pos 6) with_password (λ b. ap some (moved_back b)) no_dollar
      (length-padded 32) (omega arith) refl refl

-- A login where no password is set.
abbrev refused_run : OwnerState × Result OwnerError SessionResponse
refused_run =
    attempt digest sha256 config encode decode
      (logs_in headers (codes "a guess") (codes "session") 3 0 (pos 6)) owner

refused_leaves_example :
    (refused_run.0.relay ≡ owner.relay) × (refused_run.0.password_hash ≡ owner.password_hash)
unfolding attempt owner_login shellbell.Relay.Password.login_guards shellbell.Relay.Password.guard
    shellbell.Relay.Password.if_passed shellbell.Relay.Password.allow_owner_attempt
    shellbell.Relay.Limiter.check shellbell.Relay.Limiter.count_call shellbell.Relay.Limiter.renew
refused_leaves_example =
    refused_leaves digest sha256 config encode decode
      (logs_in headers (codes "a guess") (codes "session") 3 0 (pos 6)) owner refused_run.0
      password_required refl

-- Two set-ups, the second without a reset, a login, and a reset.
abbrev owner_attempts : List OwnerAttempt
owner_attempts =
    sets_up headers (codes "token") password false salt (codes "s1") 2 0 (pos 5) (pos 6)
    ∷ sets_up headers (codes "token") password false salt (codes "s2") 3 1 (pos 7) (pos 8)
    ∷ logs_in headers password (codes "s3") 4 2 (pos 9)
    ∷ sets_up headers (codes "token") password true salt (codes "s4") 5 3 (pos 10) (pos 11)
    ∷ []

first_set_up_once_example :
    first_set_ups digest sha256 config encode decode owner_attempts owner ≤ openings owner
first_set_up_once_example =
    first_set_up_once digest sha256 config encode decode owner_attempts owner
