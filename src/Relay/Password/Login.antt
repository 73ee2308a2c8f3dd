-- ===== src/Relay/Password/Login.antt =====
-- What a set-up and a login do, and what they leave alone where they are refused.
use shellbell.Base.{
  ℕ, ◌≡◌, ◌≢◌, ◌≤◌, ◌↔◌, refl, sym, ap, ◌∙◌, List, [], ◌∷◌, ◌++◌, Option, none, some, Bool, true,
  false, is_some, map, unwrap_or, not, if◌then◌else◌, length,
}
use shellbell.Base.Int.{◌+ℤ◌}
use shellbell.Base.Result.{Result, ok, err, ok-same}
use shellbell.Base.Text.{Text, codes}
use shellbell.Activity.Session.{Uuid}
use shellbell.Core.{hash_secret}
use shellbell.Core.Password.{Bytes, hash_password, verify_password, pbkdf2_sha256, iterations}
use shellbell.Core.Password.Verifies.{has, verify_password_iff}
use shellbell.Relay.Owner.{RelayConfig, SessionResponse, issue_session}
use shellbell.Relay.State.{DateTime, Entry, ◌>>◌, ◌>>=◌, update, pure, Headers, OwnerSession}
use shellbell.Relay.Password.{
  OwnerState, OwnerError, not_authenticated, utf8, guard, allow_owner_attempt, revoke_sessions,
  if_passed, bootstrap_guards, set_up, owner_bootstrap, login_guards, owner_login,
  issue_owner_session,
}

pub data OwnerAttempt : Type 0 where
  sets_up :
      Headers → Text → Text → Bool → Bytes → Text → Uuid → ℕ → DateTime → DateTime → OwnerAttempt
  logs_in : Headers → Text → Text → Uuid → ℕ → DateTime → OwnerAttempt

untouched :
    (s s' : OwnerState) {attempts : List Entry}
    → s' ≡ record s { attempts = attempts }
    → (s'.relay ≡ s.relay) × (s'.password_hash ≡ s.password_hash)
untouched s s' h = (ap (λ x. x.relay) h, ap (λ x. x.password_hash) h)

distinct : (a : SessionResponse) (e : OwnerError) → ok a ≢ err e
distinct a e k = cc

if_passed_err :
    (s s' : OwnerState) (next : OwnerState × Result OwnerError SessionResponse)
    (response : SessionResponse) (r : Result OwnerError (Unit {0})) (e : OwnerError)
    → next.1 ≡ ok response
    → if_passed s next r ≡ (s', err e)
    → s' ≡ s
unfolding if_passed
if_passed_err s s' next response (err e') e k h = ap (λ x. x.0) (sym h)
if_passed_err s s' next response (ok u) e k h =
    absurd (distinct response e (sym k ∙ ap (λ x. x.1) h))

pub if_passed_ok :
    (s s' : OwnerState) (next : OwnerState × Result OwnerError SessionResponse)
    (response : SessionResponse) (r : Result OwnerError (Unit {0}))
    → if_passed s next r ≡ (s', ok response)
    → (next ≡ (s', ok response)) × (r ≡ ok tt)
unfolding if_passed
if_passed_ok s s' next response (err e) h = absurd (distinct response e (sym (ap (λ x. x.1) h)))
if_passed_ok s s' next response (ok u) h = (h, refl)

-- A session afterwards, with the time of its revocation.
abbrev pub closed : DateTime → OwnerSession → OwnerSession
closed now r = record r { revoked_at = some (unwrap_or r.revoked_at now) }

revoked_row :
    (now : DateTime) (r : OwnerSession) (at : Option DateTime)
    → (if not (is_some at)
        then record r { revoked_at = some now }
        else record r { revoked_at = at })
      ≡ record r { revoked_at = some (unwrap_or at now) }
revoked_row now r none = refl
revoked_row now r (some t) = refl

revoke_sessions-closed :
    (now : DateTime) (rows : List OwnerSession) → revoke_sessions now rows ≡ map (closed now) rows
unfolding revoke_sessions
revoke_sessions-closed now [] = refl
revoke_sessions-closed now (r ∷ rows) =
    ap (λ x. x ∷ revoke_sessions now rows) (revoked_row now r r.revoked_at)
    ∙ ap (λ x. closed now r ∷ x) (revoke_sessions-closed now rows)

-- The time of an answer that is known.
the_answer :
    (m : Result OwnerError SessionResponse) (expires : DateTime) (response : SessionResponse)
    → m ≡ ok (record { authenticated = true; expires_at = expires })
    → m ≡ ok response
    → expires ≡ response.expires_at
the_answer m expires response h k = ap (λ x. x.expires_at) (ok-same m _ response h k)

still_bootstrapped :
    (now : DateTime) (at : Option DateTime) → is_some (if is_some at then at else some now) ≡ true
still_bootstrapped now none = refl
still_bootstrapped now (some t) = refl

guard_iff : (b : Bool) (e : OwnerError) → (guard b e ≡ ok tt) ↔ (b ≡ true)
unfolding guard
guard_iff true e = (λ h. refl, λ h. refl)
guard_iff false e = (λ h. cc, λ h. cc)

login_guards-known :
    (sha256 : Text → List ℕ) (sha256_bytes : Bytes → Bytes) (config : RelayConfig)
    (decode : Text → Option Bytes) (allowed : Bool) (password hash : Text) (stored : Option Text)
    → stored ≡ some hash
    → allowed ≡ true
    → login_guards sha256 sha256_bytes config decode allowed password stored
      ≡ guard (verify_password sha256_bytes decode (utf8 password) hash) not_authenticated
unfolding login_guards guard
login_guards-known sha256 sha256_bytes config decode allowed password hash stored k a =
    rw (k, a) refl

module _ (sha256 : Text → List ℕ) (sha256_bytes : Bytes → Bytes) (config : RelayConfig)
    (encode : Bytes → Text) (decode : Text → Option Bytes) where
  -- A request to one of the two routes.
  unfoldable pub attempt :
      OwnerAttempt → OwnerState → OwnerState × Result OwnerError SessionResponse
  unfolding owner_bootstrap owner_login
  attempt (sets_up headers bootstrap_token password reset salt token id mono now issued) s =
      owner_bootstrap sha256 sha256_bytes config encode headers bootstrap_token password reset salt
        token id mono now issued s
  attempt (logs_in headers password token id mono issued) s =
      owner_login sha256 sha256_bytes config decode headers password token id mono issued s

  -- A set-up or a login that is refused, for whatever reason, leaves the relay's tables and the
  -- password as they were.
  pub refused_leaves :
      (a : OwnerAttempt) (s s' : OwnerState) (e : OwnerError)
      → attempt a s ≡ (s', err e)
      → (s'.relay ≡ s.relay) × (s'.password_hash ≡ s.password_hash)
  unfolding attempt owner_bootstrap owner_login issue_owner_session
  refused_leaves (sets_up headers bootstrap_token password reset salt token id mono now issued) s s'
        e h =
      let tried = allow_owner_attempt s.attempts (codes "bootstrap") headers mono in
      let after = record s { attempts = tried.0 } in
      untouched s s' (
        if_passed_err after s'
          (issue_owner_session sha256 sha256_bytes config token id issued
            (set_up sha256 sha256_bytes config encode salt password now after))
          (record { authenticated = true; expires_at = issued +ℤ config.session_ttl })
          (bootstrap_guards sha256 sha256_bytes config tried.1 bootstrap_token password reset after)
          e refl h)
  refused_leaves (logs_in headers password token id mono issued) s s' e h =
      let tried = allow_owner_attempt s.attempts (codes "login") headers mono in
      let after = record s { attempts = tried.0 } in
      untouched s s' (
        if_passed_err after s'
          (issue_owner_session sha256 sha256_bytes config token id issued after)
          (record { authenticated = true; expires_at = issued +ℤ config.session_ttl })
          (login_guards sha256 sha256_bytes config decode tried.1 password s.password_hash) e refl
          h)

  -- A set-up that succeeds keeps the hash of the password and leaves the relay bootstrapped. Every
  -- session that there was is kept and revoked, at the time of the set-up where it was open and
  -- else at its own, and behind them is one new session, which is open, has the hash of the token
  -- that was made, and expires when the answer says.
  pub set_up_takes_over :
      (headers : Headers) (bootstrap_token password : Text) (reset : Bool) (salt : Bytes)
      (token : Text) (id : Uuid) (mono : ℕ) (now issued : DateTime) (s s' : OwnerState)
      (response : SessionResponse)
      → owner_bootstrap sha256 sha256_bytes config encode headers bootstrap_token password reset
          salt token id mono now issued s
        ≡ (s', ok response)
      → (s'.password_hash ≡ some (hash_password sha256_bytes encode salt (utf8 password)))
        × (is_some s'.relay.bootstrapped_at ≡ true)
        × (s'.relay.owner_sessions
            ≡ map (closed now) s.relay.owner_sessions
              ++ (record {
                id = id;
                token_hash = hash_secret sha256 token;
                created_at = issued;
                expires_at = response.expires_at;
                revoked_at = none;
              }
                  ∷ []))
  unfolding owner_bootstrap issue_owner_session issue_session set_up ◌>>◌ ◌>>=◌ update pure
  set_up_takes_over headers bootstrap_token password reset salt token id mono now issued s s'
        response h =
      let taken = (if_passed_ok after s' next response guards h).0 in
      let same = ap (λ x. x.0) taken in
      let expires : issued +ℤ config.session_ttl ≡ response.expires_at =
        the_answer next.1 _ response refl (ap (λ x. x.1) taken) in
      (
        ap (λ x. x.password_hash) (sym same),
        ap (λ x. is_some x.relay.bootstrapped_at) (sym same)
            ∙ still_bootstrapped now s.relay.bootstrapped_at,
        ap (λ x. x.relay.owner_sessions) (sym same)
            ∙ ap (λ x. x ++ (opened (issued +ℤ config.session_ttl) ∷ []))
                (revoke_sessions-closed now s.relay.owner_sessions)
            ∙ ap (λ x. map (closed now) s.relay.owner_sessions ++ (opened x ∷ [])) expires,
      )
    where
      opened : DateTime → OwnerSession
      opened expires = record {
        id = id;
        token_hash = hash_secret sha256 token;
        created_at = issued;
        expires_at = expires;
        revoked_at = none;
      }

      tried : List Entry × Bool
      tried = allow_owner_attempt s.attempts (codes "bootstrap") headers mono

      after : OwnerState
      after = record s { attempts = tried.0 }

      next : OwnerState × Result OwnerError SessionResponse
      next =
          issue_owner_session sha256 sha256_bytes config token id issued
            (set_up sha256 sha256_bytes config encode salt password now after)

      guards : Result OwnerError (Unit {0})
      guards =
          bootstrap_guards sha256 sha256_bytes config tried.1 bootstrap_token password reset after

  -- Where base64 decodes what it encodes and makes no dollar sign, the digest has 32 bytes and the
  -- stored password is the hash of one with a salt of at least 8 bytes: a login that the limiter
  -- lets through succeeds exactly when its password derives the same key as the stored one.
  pub login_succeeds_iff :
      (headers : Headers) (password stored : Text) (salt : Bytes) (token : Text) (id : Uuid)
      (mono : ℕ) (issued : DateTime) (s : OwnerState)
      → ((b : Bytes) → decode (encode b) ≡ some b)
      → ((b : Bytes) → has 36 (encode b) ≡ false)
      → ((b : Bytes) → length (sha256_bytes b) ≡ 32)
      → 8 ≤ length salt
      → s.password_hash ≡ some (hash_password sha256_bytes encode salt (utf8 stored))
      → (allow_owner_attempt s.attempts (codes "login") headers mono).1 ≡ true
      → ((s' : OwnerState) × (response : SessionResponse) × (owner_login sha256 sha256_bytes config
              decode headers password token id mono issued s
            ≡ (s', ok response)))
        ↔ (pbkdf2_sha256 sha256_bytes (utf8 password) salt iterations
            ≡ pbkdf2_sha256 sha256_bytes (utf8 stored) salt iterations)
  unfolding owner_login issue_owner_session
  login_succeeds_iff headers password stored salt token id mono issued s back clean size long kept
        allowed =
      (
        λ (s', response, h).
            verified.0 (passed.0 (sym known ∙ (if_passed_ok after s' next response guards h).1)),
        λ h. (next.0, opened, rw (known ∙ passed.1 (verified.1 h)) refl),
      )
    where
      tried : List Entry × Bool
      tried = allow_owner_attempt s.attempts (codes "login") headers mono

      after : OwnerState
      after = record s { attempts = tried.0 }

      next : OwnerState × Result OwnerError SessionResponse
      next = issue_owner_session sha256 sha256_bytes config token id issued after

      opened : SessionResponse
      opened = record { authenticated = true; expires_at = issued +ℤ config.session_ttl }

      hash : Text
      hash = hash_password sha256_bytes encode salt (utf8 stored)

      guards : Result OwnerError (Unit {0})
      guards = login_guards sha256 sha256_bytes config decode tried.1 password s.password_hash

      known :
          guards
          ≡ guard (verify_password sha256_bytes decode (utf8 password) hash) not_authenticated
      known =
          login_guards-known sha256 sha256_bytes config decode tried.1 password hash s.password_hash
            kept allowed

      passed :
          (guard (verify_password sha256_bytes decode (utf8 password) hash) not_authenticated
            ≡ ok tt)
          ↔ (verify_password sha256_bytes decode (utf8 password) hash ≡ true)
      passed =
          guard_iff (verify_password sha256_bytes decode (utf8 password) hash) not_authenticated

      verified : (verify_password sha256_bytes decode (utf8 password) hash ≡ true) ↔ (
          pbkdf2_sha256 sha256_bytes (utf8 password) salt iterations
          ≡ pbkdf2_sha256 sha256_bytes (utf8 stored) salt iterations)
      verified =
          verify_password_iff sha256_bytes encode decode (utf8 password) (utf8 stored) salt back
            clean size long
