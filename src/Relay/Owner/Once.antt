-- ===== src/Relay/Owner/Once.antt =====
-- The library's own four handlers of the owner in any sequence (crates/shellbell-relay/src/lib.rs).
-- In the server's binary the set-up and the login by password stand in front of the first two: they
-- are in Relay/Password.
use shellbell.Base.{
  ℕ, ◌+◌, ◌≡◌, ◌≤◌, List, [], ◌∷◌, Bool, true, false, is_some, if◌then◌else◌, arith,
}
use shellbell.Base.Result.{Result, ok, err}
use shellbell.Base.Text.{Text}
use shellbell.Activity.Session.{Uuid}
use shellbell.Relay.State.{
  DateTime, AppError, Headers, Relay, ◌>>=◌, ◌>>◌, pure, fail, lift, gets, update, require, ensure,
}
use shellbell.Relay.Auth.{owner_auth, check_csrf}
use shellbell.Relay.Owner.{
  RelayConfig, issue_session, bootstrap, create_session, logout, update_settings,
}

pub data OwnerCall : Type 0 where
  bootstraps : Text → Text → Uuid → DateTime → OwnerCall
  creates : Text → Text → Uuid → DateTime → OwnerCall
  logs_out : Headers → DateTime → OwnerCall
  changes : Headers → ℕ → DateTime → OwnerCall

abbrev is_ok : {A : Type 0} → Result AppError A → Bool
is_ok (ok a) = true
is_ok (err e) = false

module _ (sha256 : Text → List ℕ) (config : RelayConfig) where
  -- The state after a call, and whether the call was a bootstrap that succeeded.
  unfoldable pub step_owner : OwnerCall → Relay → Relay × Bool
  step_owner (bootstraps given token id now) s =
      let r = bootstrap sha256 config given token id now s in (r.0, is_ok r.1)
  step_owner (creates given token id now) s =
      ((create_session sha256 config given token id now s).0, false)
  step_owner (logs_out headers now) s = ((logout sha256 config headers now s).0, false)
  step_owner (changes headers days now) s =
      ((update_settings sha256 config headers days now s).0, false)

  unfoldable pub bootstraps_done : List OwnerCall → Relay → ℕ
  bootstraps_done [] s = 0
  bootstraps_done (c ∷ calls) s =
      let (s', done) = step_owner c s in
      let rest = bootstraps_done calls s' in if done then rest + 1 else rest

  unfoldable pub after_calls : List OwnerCall → Relay → Relay
  after_calls [] s = s
  after_calls (c ∷ calls) s = after_calls calls (step_owner c s).0

  abbrev pub slots : Relay → ℕ
  slots s = if is_some s.bootstrapped_at then 0 else 1

  abbrev pub InRange : Relay → Type 0
  InRange s = (1 ≤ s.history_retention_days) × (s.history_retention_days ≤ 90)

  owner_auth-state :
      (headers : Headers) (mutation : Bool) (now : DateTime) (s : Relay)
      → (owner_auth sha256 headers mutation now s).0 ≡ s
  unfolding owner_auth check_csrf ◌>>=◌ ◌>>◌ pure fail lift gets update require ensure
  owner_auth-state headers mutation now s = ground arith

  step_slots :
      (c : OwnerCall) (s : Relay)
      → slots (step_owner c s).0 + (if (step_owner c s).1 then 1 else 0) ≤ slots s
  unfolding step_owner bootstrap issue_session create_session logout update_settings ◌>>=◌ ◌>>◌ pure
      fail lift gets update require ensure
  step_slots (bootstraps given token id now) s = ground arith
  step_slots (creates given token id now) s = ground arith
  step_slots (logs_out headers now) s = ground (arith, owner_auth-state headers true now s)
  step_slots (changes headers days now) s = ground (arith, owner_auth-state headers true now s)

  -- In any sequence of calls of these handlers, at most one `bootstrap` succeeds, and none where the
  -- relay is bootstrapped at its start.
  pub bootstrap_once : (calls : List OwnerCall) (s : Relay) → bootstraps_done calls s ≤ slots s
  unfolding bootstraps_done
  bootstrap_once [] s = omega arith
  bootstrap_once (c ∷ calls) s =
      ground (arith, step_slots c s, bootstrap_once calls (step_owner c s).0)

  step_range : (c : OwnerCall) (s : Relay) → InRange s → InRange (step_owner c s).0
  unfolding step_owner bootstrap issue_session create_session logout update_settings ◌>>=◌ ◌>>◌ pure
      fail lift gets update require ensure
  step_range (bootstraps given token id now) s h = ground (arith, h)
  step_range (creates given token id now) s h = ground (arith, h)
  step_range (logs_out headers now) s h = ground (arith, h, owner_auth-state headers true now s)
  step_range (changes headers days now) s h = ground (arith, h, owner_auth-state headers true now s)

  -- Where it does so at the start, the number of days for which history is kept stays within 1 and 90,
  -- whatever the owner's requests ask for.
  pub retention-InRange :
      (calls : List OwnerCall) (s : Relay) → InRange s → InRange (after_calls calls s)
  unfolding after_calls
  retention-InRange [] s h = h
  retention-InRange (c ∷ calls) s h = retention-InRange calls (step_owner c s).0 (step_range c s h)
