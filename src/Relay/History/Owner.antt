-- ===== src/Relay/History/Owner.antt =====
-- The owner's handlers.
use shellbell.Base.{ℕ, refl, List, some, true, arith}
use shellbell.Base.Text.{Text}
use shellbell.Activity.Session.{Uuid}
use shellbell.Relay.State.{DateTime, Headers, update}
use shellbell.Relay.Owner.{
  RelayConfig, issue_session, bootstrap, create_session, validate_session, logout, get_settings,
  update_settings,
}
use shellbell.Relay.History.{Evolves-same}
use shellbell.Relay.History.Moves.{
  Moves, moves, add_session-Moves, change_sessions-Moves, Moves-update, Moves-bind,
}
use shellbell.Relay.History.Auth.{owner_auth-Moves}

set_bootstrapped-Moves :
    (now : DateTime) → Moves (update (λ s. record s { bootstrapped_at = some now }))
set_bootstrapped-Moves now =
    Moves-update _ (λ s. Evolves-same s _ (λ b. refl) refl refl refl refl refl (omega arith))

set_days-Moves : (days : ℕ) → Moves (update (λ s. record s { history_retention_days = days }))
set_days-Moves days =
    Moves-update _ (λ s. Evolves-same s _ (λ b. b) refl refl refl refl refl (omega arith))

module _ (sha256 : Text → List ℕ) (config : RelayConfig) where
  issue_session-Moves :
      (token : Text) (id : Uuid) (now : DateTime) → Moves (issue_session sha256 config token id now)
  unfolding issue_session
  issue_session-Moves token id now = search (moves, add_session-Moves)

  pub bootstrap-Moves :
      (given token : Text) (id : Uuid) (now : DateTime)
      → Moves (bootstrap sha256 config given token id now)
  unfolding bootstrap
  bootstrap-Moves given token id now = search (moves, issue_session-Moves, set_bootstrapped-Moves)

  pub create_session-Moves :
      (given token : Text) (id : Uuid) (now : DateTime)
      → Moves (create_session sha256 config given token id now)
  unfolding create_session
  create_session-Moves given token id now = search (moves, issue_session-Moves)

  pub validate_session-Moves :
      (headers : Headers) (now : DateTime) → Moves (validate_session sha256 config headers now)
  unfolding validate_session
  validate_session-Moves headers now = search (moves, owner_auth-Moves)

  pub logout-Moves : (headers : Headers) (now : DateTime) → Moves (logout sha256 config headers now)
  unfolding logout
  logout-Moves headers now =
      Moves-bind _ _ (owner_auth-Moves sha256 headers true now)
        (λ id. change_sessions-Moves _ _ (λ x y. (refl, refl, refl, λ r. refl)))

  pub get_settings-Moves :
      (headers : Headers) (now : DateTime) → Moves (get_settings sha256 config headers now)
  unfolding get_settings
  get_settings-Moves headers now = search (moves, owner_auth-Moves)

  pub update_settings-Moves :
      (headers : Headers) (days : ℕ) (now : DateTime)
      → Moves (update_settings sha256 config headers days now)
  unfolding update_settings
  update_settings-Moves headers days now = search (moves, owner_auth-Moves, set_days-Moves)
