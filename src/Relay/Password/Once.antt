-- ===== src/Relay/Password/Once.antt =====
-- Set-ups and logins by password in any sequence (crates/shellbell-relay/src/main.rs). The set-up
-- with a reset is the recovery of docs/PROTOCOL.md, which may be repeated.
use shellbell.Base.{
  ℕ, ◌+◌, ◌≡◌, ◌≤◌, refl, ap, List, [], ◌∷◌, Option, Bool, true, false, not, ◌&&◌, is_some,
  if◌then◌else◌, arith,
}
use shellbell.Base.Result.{Result, ok, err}
use shellbell.Base.Text.{Text, codes}
use shellbell.Core.Password.{Bytes}
use shellbell.Relay.Owner.{RelayConfig, SessionResponse, issue_session}
use shellbell.Relay.State.{◌>>◌, ◌>>=◌, update, pure}
use shellbell.Relay.Password.{
  OwnerState, OwnerError, guard, allow_owner_attempt, bootstrap_guards, set_up, owner_bootstrap,
  login_guards, owner_login, issue_owner_session,
}
use shellbell.Relay.Password.Login.{
  OwnerAttempt, sets_up, logs_in, attempt, if_passed_ok, refused_leaves, set_up_takes_over,
}

abbrev is_set : OwnerState → Bool
is_set s = is_some s.relay.bootstrapped_at && is_some s.password_hash

-- The set-ups without a reset for which there is room.
abbrev pub openings : OwnerState → ℕ
openings s = if is_set s then 0 else 1

abbrev succeeded : {A : Type 0} → Result OwnerError A → Bool
succeeded (ok a) = true
succeeded (err e) = false

-- A set-up that does not ask for a reset.
abbrev is_first : OwnerAttempt → Bool
is_first (sets_up headers bootstrap_token password reset salt token id mono now issued) = not reset
is_first (logs_in headers password token id mono issued) = false

-- Only where the relay is not set up yet, the guards let a set-up without a reset pass.
guards-openings :
    (sha256 : Text → List ℕ) (sha256_bytes : Bytes → Bytes) (config : RelayConfig) (allowed : Bool)
    (bootstrap_token password : Text) (s : OwnerState)
    → bootstrap_guards sha256 sha256_bytes config allowed bootstrap_token password false s ≡ ok tt
    → is_set s ≡ false
unfolding bootstrap_guards guard
guards-openings sha256 sha256_bytes config allowed bootstrap_token password s h = ground arith

module _ (sha256 : Text → List ℕ) (sha256_bytes : Bytes → Bytes) (config : RelayConfig)
    (encode : Bytes → Text) (decode : Text → Option Bytes) where
  -- The set-ups without a reset that succeed.
  unfoldable pub first_set_ups : List OwnerAttempt → OwnerState → ℕ
  unfolding attempt
  first_set_ups [] s = 0
  first_set_ups (a ∷ attempts) s =
      let (s', r) = attempt sha256 sha256_bytes config encode decode a s in
      let rest = first_set_ups attempts s' in if is_first a && succeeded r then rest + 1 else rest

  -- A set-up that succeeds took the room that there was.
  set_up-openings :
      (a : OwnerAttempt) (s s' : OwnerState) (response : SessionResponse)
      → attempt sha256 sha256_bytes config encode decode a s ≡ (s', ok response)
      → openings s' + (if is_first a then 1 else 0) ≤ openings s
  unfolding attempt owner_bootstrap owner_login issue_owner_session issue_session ◌>>◌ ◌>>=◌ update
      pure
  set_up-openings (sets_up headers bootstrap_token password true salt token id mono now issued) s s'
        response h =
      let (q, b, _) =
        set_up_takes_over sha256 sha256_bytes config encode decode headers bootstrap_token password
          true salt token id mono now issued s s' response h in
      rw (q, b) (omega arith)
  set_up-openings (sets_up headers bootstrap_token password false salt token id mono now issued) s
        s' response h =
      let tried = allow_owner_attempt s.attempts (codes "bootstrap") headers mono in
      let after = record s { attempts = tried.0 } in
      let (q, b, _) =
        set_up_takes_over sha256 sha256_bytes config encode decode headers bootstrap_token password
          false salt token id mono now issued s s' response h in
      let passed =
        (if_passed_ok after s'
          (issue_owner_session sha256 sha256_bytes config token id issued
            (set_up sha256 sha256_bytes config encode salt password now after))
          response
          (bootstrap_guards sha256 sha256_bytes config tried.1 bootstrap_token password false after)
          h).1 in
      let free =
        guards-openings sha256 sha256_bytes config tried.1 bootstrap_token password after passed in
      rw (q, b) (rw free (omega arith))
  set_up-openings (logs_in headers password token id mono issued) s s' response h =
      let tried = allow_owner_attempt s.attempts (codes "login") headers mono in
      let after = record s { attempts = tried.0 } in
      let same =
        (if_passed_ok after s'
          (issue_owner_session sha256 sha256_bytes config token id issued after) response
          (login_guards sha256 sha256_bytes config decode tried.1 password s.password_hash) h).0 in
      let kept : openings s ≡ openings s' = ap (λ x. openings x.0) same in omega (arith, kept)

  attempt-openings :
      (a : OwnerAttempt) (s s' : OwnerState) (r : Result OwnerError SessionResponse)
      → attempt sha256 sha256_bytes config encode decode a s ≡ (s', r)
      → openings s' + (if is_first a && succeeded r then 1 else 0) ≤ openings s
  attempt-openings a s s' (err e) h =
      let (same_relay, same_password) =
        refused_leaves sha256 sha256_bytes config encode decode a s s' e h in
      rw (same_relay, same_password) (ground arith)
  attempt-openings a s s' (ok response) h = ground (arith, set_up-openings a s s' response h)

  -- In any sequence of set-ups and logins at most one set-up that does not ask for a reset
  -- succeeds, and none where the relay is bootstrapped and has a password at the start.
  pub first_set_up_once :
      (attempts : List OwnerAttempt) (s : OwnerState) → first_set_ups attempts s ≤ openings s
  unfolding first_set_ups
  first_set_up_once [] s = omega arith
  first_set_up_once (a ∷ attempts) s = ground (
    arith,
    attempt-openings a s _ _ refl,
    first_set_up_once attempts (attempt sha256 sha256_bytes config encode decode a s).0,
  )
