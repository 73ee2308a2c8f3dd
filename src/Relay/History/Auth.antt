-- ===== src/Relay/History/Auth.antt =====
-- The guards of the handlers.
use shellbell.Base.{ℕ, refl, List, Bool, true, false, arith}
use shellbell.Base.Text.{Text}
use shellbell.Relay.State.{DateTime, Headers, Relay, ensure, rate_limited}
use shellbell.Relay.Auth.{owner_auth, check_csrf, source_auth, pull_receiver_auth}
use shellbell.Relay.Limiter.{check, limit_rate}
use shellbell.Relay.History.{Evolves, Evolves-same}
use shellbell.Relay.History.Moves.{Moves, moves}

pub limit_rate-Moves : (key : Text) (limit window now : ℕ) → Moves (limit_rate key limit window now)
unfolding limit_rate ensure
limit_rate-Moves key limit window now = record {
  at = λ s. let t = check s.entries key limit window now in decided s t.0 t.1;
}
  where
    decided :
        (s : Relay) (entries : List _) (b : Bool)
        → Evolves s (ensure b rate_limited (record s { entries = entries })).0
    decided s entries true = Evolves-same s _ (λ b. b) refl refl refl refl refl (omega arith)
    decided s entries false = Evolves-same s _ (λ b. b) refl refl refl refl refl (omega arith)

module _ (sha256 : Text → List ℕ) where
  check_csrf-Moves : (headers : Headers) → Moves (check_csrf sha256 headers)
  unfolding check_csrf
  check_csrf-Moves headers = search moves

  pub owner_auth-Moves :
      (headers : Headers) (mutation : Bool) (now : DateTime)
      → Moves (owner_auth sha256 headers mutation now)
  unfolding owner_auth
  owner_auth-Moves headers mutation now = search (moves, check_csrf-Moves)

  pub source_auth-Moves : (headers : Headers) → Moves (source_auth sha256 headers)
  unfolding source_auth
  source_auth-Moves headers = search moves

  pub pull_receiver_auth-Moves : (headers : Headers) → Moves (pull_receiver_auth sha256 headers)
  unfolding pull_receiver_auth
  pull_receiver_auth-Moves headers = search moves
