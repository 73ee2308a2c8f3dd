-- ===== src/Relay/Auth.antt =====
-- Who a request comes from (crates/shellbell-relay/src/lib.rs, lines 346 to 388, 444 to 451, 602 to
-- 616 and 693 to 730). SHA-256 is a parameter, as in `Core`.
use mathlib.Core.Option
use shellbell.Base.{
  ℕ, List, [], ◌∷◌, ◌++◌, Option, none, some, Bool, not, ◌&&◌, is_some, is_some_and, unwrap_or,
  if◌then◌else◌,
}
use shellbell.Base.Int.{ltb_ℤ}
use shellbell.Base.Text.{Text, codes, text_eq, trim, split, split_once, strip_prefix}
use shellbell.Activity.Session.{Uuid}
use shellbell.Core.{hash_secret, verify_secret}
use shellbell.Relay.State.{
  DateTime, Headers, OwnerSession, Source, PullReceiver, Handler, unauthorized, csrf_missing,
  csrf_mismatch, ◌>>=◌, ◌>>◌, pure, gets, require, ensure, first,
}

-- `.split(';').filter_map(split_once).find(key == name)`
abbrev named : Text → Option (Text × Text) → Option (Text × Text)
named name none = none
named name (some (key, value)) = if text_eq key name then some (key, value) else none

unfoldable pub find_cookie : Text → List Text → Option Text
find_cookie name [] = none
find_cookie name (part ∷ parts) =
    let rest = find_cookie name parts in
    elim (named name (split_once b'=' (trim part))) [ none ↦ rest | some p ↦ some p.1 ]

unfoldable pub cookie_value : Headers → Text → Option Text
unfolding find_cookie
cookie_value headers name = elim headers.cookie [
  | none ↦ none
  | some value ↦ find_cookie name (split b';' value)
]

unfoldable pub bearer : Headers → Option Text
bearer headers = elim headers.authorization [
  | none ↦ none
  | some value ↦ strip_prefix (codes "Bearer ") value
]

-- `x-forwarded-for` up to its first comma, or "local".
unfoldable pub rate_key : Headers → Text → Text
rate_key headers action =
    action
    ++ codes ":"
    ++ unwrap_or
        (Option.map (λ v. elim (split b',' v) [ [] ↦ [] | t ∷ ts ↦ t ]) headers.forwarded_for)
        (codes "local")

module _ (sha256 : Text → List ℕ) where
  -- A session that its token opens: not revoked, and not over.
  unfoldable pub opens_session : Text → DateTime → OwnerSession → Bool
  opens_session session now row =
      not (is_some row.revoked_at)
      && ltb_ℤ now row.expires_at
      && verify_secret sha256 session row.token_hash

  unfoldable pub check_csrf : Headers → Handler (Unit {0})
  check_csrf headers = do
    csrf_cookie ← require (cookie_value headers (codes "sb_csrf")) csrf_missing
    csrf_header ← require headers.csrf_token csrf_missing
    ensure (verify_secret sha256 csrf_header (hash_secret sha256 csrf_cookie)) csrf_mismatch

  unfoldable pub owner_auth : Headers → Bool → DateTime → Handler Uuid
  unfolding opens_session check_csrf
  owner_auth headers mutation now = do
    session ← require (cookie_value headers (codes "sb_session")) unauthorized
    if mutation then check_csrf headers else pure tt
    rows ← gets (λ s. s.owner_sessions)
    row ← require (first (opens_session session now) rows) unauthorized
    pure row.id

  -- A source that a token opens: approved, with a token given out, and not revoked.
  unfoldable pub opens_source : Text → Source → Bool
  opens_source token row =
      not (is_some row.revoked_at)
      && is_some_and row.token_hash (λ hash. verify_secret sha256 token hash)

  unfoldable pub source_auth : Headers → Handler Source
  unfolding opens_source
  source_auth headers = do
    token ← require (bearer headers) unauthorized
    rows ← gets (λ s. s.sources)
    require (first (opens_source token) rows) unauthorized

  unfoldable pub opens_pull_receiver : Text → PullReceiver → Bool
  opens_pull_receiver token row =
      row.enabled
      && not (is_some row.revoked_at)
      && is_some_and row.token_hash (λ hash. verify_secret sha256 token hash)

  unfoldable pub pull_receiver_auth : Headers → Handler PullReceiver
  unfolding opens_pull_receiver
  pull_receiver_auth headers = do
    token ← require (bearer headers) unauthorized
    rows ← gets (λ s. s.pull_receivers)
    require (first (opens_pull_receiver token) rows) unauthorized
