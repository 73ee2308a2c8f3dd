-- ===== src/Relay/Owner.antt =====
-- The owner's bootstrap, sessions and settings (crates/shellbell-relay/src/lib.rs, lines 238 to 344,
-- 410 to 442 and 1305 to 1341). A session's token and identifier are arguments; the CSRF token is
-- only sent in a cookie and is not stored.
pub mod Once
use shellbell.Base.{
  ℕ, ◌≡◌, List, [], ◌∷◌, ◌++◌, Option, none, some, Bool, true, false, not, ◌&&◌, ◌==◌, is_some, leb,
  if◌then◌else◌,
}
use shellbell.Base.Int.{ℤ, ◌+ℤ◌}
use shellbell.Base.Text.{Text}
use shellbell.Activity.Session.{Uuid}
use shellbell.Core.{hash_secret, verify_secret}
use shellbell.Relay.State.{
  DateTime, unauthorized, already_bootstrapped, bootstrap_required, bad_retention, db, Headers,
  OwnerSession, Relay, Handler, ◌>>=◌, ◌>>◌, pure, gets, update, require, ensure, update_where,
  first,
}
use shellbell.Relay.Auth.{owner_auth}

pub record RelayConfig : Type 0 where
  pub bootstrap_token_hash : Text
  pub session_ttl : DateTime
  pub vapid_public_key : Text

pub record SessionResponse : Type 0 where
  pub authenticated : Bool
  pub expires_at : DateTime

pub record SettingsResponse : Type 0 where
  pub history_retention_days : ℕ
  pub vapid_public_key : Text

unfoldable pub bootstrap_status : Handler Bool
bootstrap_status = do value ← gets (λ s. s.bootstrapped_at); pure (not (is_some value))

abbrev pub session_has_id : Uuid → OwnerSession → Bool
session_has_id id row = row.id == id

module _ (sha256 : Text → List ℕ) (config : RelayConfig) where
  unfoldable pub issue_session : Text → Uuid → DateTime → Handler SessionResponse
  issue_session token id now = do
    let expires = now +ℤ config.session_ttl
    update (λ s. record s {
      owner_sessions =
          s.owner_sessions
          ++ (record {
            id = id;
            token_hash = hash_secret sha256 token;
            created_at = now;
            expires_at = expires;
            revoked_at = none;
          }
              ∷ []);
    })
    pure (record { authenticated = true; expires_at = expires })

  unfoldable pub bootstrap : Text → Text → Uuid → DateTime → Handler SessionResponse
  unfolding issue_session
  bootstrap bootstrap_token token id now = do
    ensure (verify_secret sha256 bootstrap_token config.bootstrap_token_hash) unauthorized
    existing ← gets (λ s. s.bootstrapped_at)
    ensure (not (is_some existing)) already_bootstrapped
    update (λ s. record s { bootstrapped_at = some now })
    issue_session token id now

  unfoldable pub create_session : Text → Text → Uuid → DateTime → Handler SessionResponse
  unfolding issue_session
  create_session bootstrap_token token id now = do
    ensure (verify_secret sha256 bootstrap_token config.bootstrap_token_hash) unauthorized
    bootstrapped ← gets (λ s. s.bootstrapped_at)
    ensure (is_some bootstrapped) bootstrap_required
    issue_session token id now

  unfoldable pub validate_session : Headers → DateTime → Handler SessionResponse
  validate_session headers now = do
    id ← owner_auth sha256 headers false now
    rows ← gets (λ s. s.owner_sessions)
    row ← require (first (session_has_id id) rows) db
    pure (record { authenticated = true; expires_at = row.expires_at })

  unfoldable pub logout : Headers → DateTime → Handler (Unit {0})
  logout headers now = do
    id ← owner_auth sha256 headers true now
    update (λ s. record s {
      owner_sessions =
          update_where (session_has_id id) (λ r. record r { revoked_at = some now })
            s.owner_sessions;
    })

  unfoldable pub get_settings : Headers → DateTime → Handler SettingsResponse
  get_settings headers now = do
    owner_auth sha256 headers false now
    days ← gets (λ s. s.history_retention_days)
    pure (record { history_retention_days = days; vapid_public_key = config.vapid_public_key })

  unfoldable pub update_settings : Headers → ℕ → DateTime → Handler SettingsResponse
  update_settings headers days now = do
    owner_auth sha256 headers true now
    ensure (leb 1 days && leb days 90) bad_retention
    update (λ s. record s { history_retention_days = days })
    pure (record { history_retention_days = days; vapid_public_key = config.vapid_public_key })
