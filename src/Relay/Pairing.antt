-- ===== src/Relay/Pairing.antt =====
-- Pairing a machine and the sources that come of it (crates/shellbell-relay/src/lib.rs, lines 453 to
-- 600, 618 to 691). Random identifiers, codes and tokens are arguments.
pub mod Tokens
use shellbell.Base.{
  ℕ, ◌≡◌, List, [], ◌∷◌, ◌++◌, map, Option, none, some, Bool, true, false, not, ◌&&◌, ◌==◌, is_some,
  if◌then◌else◌, keep_if, any,
}
use mathlib.Core.Option
use shellbell.Base.Int.{ℤ, ◌+ℤ◌, leb_ℤ, ltb_ℤ}
use shellbell.Base.Result.{Result, ok, err, map_err}
use shellbell.Base.Text.{Text, codes}
use shellbell.Activity.Session.{Uuid}
use shellbell.Core.{hash_secret}
use shellbell.Protocol.{validate_name}
use shellbell.Relay.State.{
  TimeOrder, DateTime, AppError, bad, not_found, already_decided, not_pending, db, Headers, Source,
  Pairing, PairingStatus, pending, approved, rejected, expired, Relay, Handler, ◌>>=◌, ◌>>◌, pure,
  fail, lift, gets, update, require, ensure, update_where, first,
}
use shellbell.Relay.Limiter.{limit_rate}
use shellbell.Relay.Auth.{owner_auth, source_auth, rate_key}

pub record PairingCreateResponse : Type 0 where
  pub id : Uuid
  pub code : Text
  pub expires_at : DateTime

pub record PairingPollResponse : Type 0 where
  pub status : PairingStatus
  pub source_id : Option Uuid
  pub source_token : Option Text

pub record PairingView : Type 0 where
  pub id : Uuid
  pub code : Text
  pub display_name : Text
  pub created_at : DateTime
  pub expires_at : DateTime

pub record SourceView : Type 0 where
  pub id : Uuid
  pub display_name : Text
  pub created_at : DateTime
  pub last_seen_at : Option DateTime
  pub revoked_at : Option DateTime

abbrev pub source_view : Source → SourceView
source_view row = record {
  id = row.id;
  display_name = row.display_name;
  created_at = row.created_at;
  last_seen_at = row.last_seen_at;
  revoked_at = row.revoked_at;
}

abbrev pub is_pending : PairingStatus → Bool
is_pending pending = true
is_pending _ = false

abbrev pub is_approved : PairingStatus → Bool
is_approved approved = true
is_approved _ = false

abbrev pub has_id : Uuid → Pairing → Bool
has_id id p = p.id == id

abbrev pub source_has_id : Uuid → Source → Bool
source_has_id id s = s.id == id

unfoldable pub create_pairing :
    Headers → Text → Uuid → Text → DateTime → ℕ → DateTime → Handler PairingCreateResponse
create_pairing headers display_name id code now mono pairing_ttl = do
  limit_rate (rate_key headers (codes "pair")) 12 60000000000 mono
  name ← lift (map_err bad (validate_name display_name))
  let expires = now +ℤ pairing_ttl
  update (λ s. record s {
    pairings =
        s.pairings
        ++ (record {
          id = id;
          code = code;
          display_name = name;
          status = pending;
          created_at = now;
          expires_at = expires;
          decided_at = none;
          source_id = none;
        }
            ∷ []);
  })
  pure (record { id = id; code = code; expires_at = expires })

abbrev pub expire : DateTime → Pairing → Pairing
expire now p = record p { status = expired; decided_at = some now }

-- `pending`, and its time is over.
abbrev pub is_over : DateTime → Pairing → Bool
is_over now p = is_pending p.status && leb_ℤ p.expires_at now

abbrev pub decide : DateTime → Pairing → Pairing
decide now p = record p {
  status = if leb_ℤ p.expires_at now then expired else rejected;
  decided_at = some now;
}

abbrev pub live : Uuid → Source → Bool
live id r = source_has_id id r && not (is_some r.revoked_at)

module _ (sha256 : Text → List ℕ) where
  -- `UPDATE sources SET token_hash=? WHERE id=? AND token_hash IS NULL`, and whether it hit a row.
  unfoldable pub give_token : Uuid → Text → Handler Bool
  give_token source raw s =
      let p = λ (row : Source). source_has_id source row && not (is_some row.token_hash) in
      (
        record s {
          sources =
              update_where p (λ row. record row { token_hash = some (hash_secret sha256 raw) })
                s.sources;
        },
        ok (any p s.sources),
      )

  unfoldable pub token_for : PairingStatus → Option Uuid → Text → Handler (Option Text)
  unfolding give_token
  token_for approved none raw = fail db
  token_for approved (some source) raw = do
    given ← give_token source raw
    pure (if given then some raw else none)
  token_for _ source raw = pure none

  unfoldable pub poll_pairing : Uuid → Text → DateTime → Handler PairingPollResponse
  unfolding token_for
  poll_pairing id raw now = do
    rows ← gets (λ s. s.pairings)
    row ← require (first (has_id id) rows) not_found
    let over = is_over now row
    if over
        then update (λ s. record s {
          pairings = update_where (λ p. has_id id p && is_pending p.status) (expire now) s.pairings;
        })
        else pure tt
    let status = if over then expired else row.status
    token ← token_for status row.source_id raw
    pure (record { status = status; source_id = row.source_id; source_token = token })

  unfoldable pub list_pairings : TimeOrder → Headers → DateTime → Handler (List PairingView)
  list_pairings order headers now = do
    owner_auth sha256 headers false now
    update (λ s. record s { pairings = update_where (is_over now) (expire now) s.pairings })
    rows ← gets (λ s. s.pairings)
    pure (
        map
          (λ p. record {
            id = p.id;
            code = p.code;
            display_name = p.display_name;
            created_at = p.created_at;
            expires_at = p.expires_at;
          })
          (order.oldest (λ p. p.created_at) (keep_if (λ p. is_pending p.status) rows)))

  -- The transaction of `approve_pairing`: it commits where the UPDATE hits a row; else it is rolled
  -- back, and a pairing whose time is over is marked so.
  unfoldable pub approve : Uuid → Uuid → Text → DateTime → Handler SourceView
  approve id source_id name now s =
      let open_ = λ (p : Pairing). has_id id p && is_pending p.status && ltb_ℤ now p.expires_at in
      let source : Source = record {
        id = source_id;
        display_name = name;
        token_hash = none;
        created_at = now;
        last_seen_at = none;
        revoked_at = none;
      } in
      if any open_ s.pairings
      then (
        record s {
          sources = s.sources ++ (source ∷ []);
          pairings =
              update_where open_
                (λ p. record p {
                  status = approved;
                  decided_at = some now;
                  source_id = some source_id;
                })
                s.pairings;
        },
        ok (source_view source),
      )
      else (
        record s {
          pairings = update_where (λ p. has_id id p && is_over now p) (expire now) s.pairings;
        },
        err already_decided,
      )

  unfoldable pub approve_pairing : Headers → Uuid → Uuid → DateTime → Handler SourceView
  unfolding approve
  approve_pairing headers id source_id now = do
    owner_auth sha256 headers true now
    rows ← gets (λ s. s.pairings)
    row ← require (first (has_id id) rows) not_found
    approve id source_id row.display_name now

  unfoldable pub reject_pairing : Headers → Uuid → DateTime → Handler (Unit {0})
  reject_pairing headers id now = do
    owner_auth sha256 headers true now
    let open_ = λ (p : Pairing). has_id id p && is_pending p.status
    hit ← gets (λ s. any open_ s.pairings)
    update (λ s. record s { pairings = update_where open_ (decide now) s.pairings })
    ensure hit not_pending

  unfoldable pub source_self : Headers → Handler SourceView
  source_self headers = do row ← source_auth sha256 headers; pure (source_view row)

  unfoldable pub list_sources : TimeOrder → Headers → DateTime → Handler (List SourceView)
  list_sources order headers now = do
    owner_auth sha256 headers false now
    rows ← gets (λ s. s.sources)
    pure (map source_view (order.newest (λ r. r.created_at) rows))

  unfoldable pub rename_source : Headers → Uuid → Text → DateTime → Handler SourceView
  rename_source headers id name now = do
    owner_auth sha256 headers true now
    valid ← lift (map_err bad (validate_name name))
    update (λ s. record s {
      sources = update_where (source_has_id id) (λ r. record r { display_name = valid }) s.sources;
    })
    rows ← gets (λ s. s.sources)
    row ← require (first (source_has_id id) rows) not_found
    pure (source_view row)

  unfoldable pub revoke_source : Headers → Uuid → DateTime → Handler (Unit {0})
  revoke_source headers id now = do
    owner_auth sha256 headers true now
    hit ← gets (λ s. any (live id) s.sources)
    update (λ s. record s {
      sources =
          update_where (live id) (λ r. record r { revoked_at = some now; token_hash = none })
            s.sources;
    })
    ensure hit not_found
