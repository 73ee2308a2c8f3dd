-- ===== src/Relay/Receivers.antt =====
-- Push receivers and pull receivers (crates/shellbell-relay/src/lib.rs, lines 732 to 890 and 1014 to
-- 1132). A JSON column of tags is the list that it encodes.
use shellbell.Base.{
  ℕ, List, [], ◌∷◌, ◌++◌, map, Option, none, some, Bool, true, false, not, ◌&&◌, ◌==◌, is_some, any,
  if◌then◌else◌, keep_if, unwrap_or, max,
}
use shellbell.Base.Result.{Result, ok, map_err}
use shellbell.Base.Text.{Text, text_eq}
use shellbell.Activity.Session.{Uuid}
use shellbell.Core.{hash_secret}
use shellbell.Protocol.{PushSubscriptionInput, validate_name, validate_tags, validate_subscription}
use shellbell.Relay.State.{
  TimeOrder, DateTime, AppError, bad, not_found, db, Headers, Receiver, PullReceiver, Ring, Handler,
  ◌>>=◌, ◌>>◌, pure, lift, gets, update, require, ensure, update_where, first,
}
use shellbell.Relay.Auth.{owner_auth}

pub record ReceiverView : Type 0 where
  pub id : Uuid
  pub name : Text
  pub tags : List Text
  pub enabled : Bool
  pub created_at : DateTime

pub record ReceiverCreateRequest : Type 0 where
  pub name : Text
  pub tags : List Text
  pub subscription : PushSubscriptionInput

pub record ReceiverUpdateRequest : Type 0 where
  pub name : Option Text
  pub tags : Option (List Text)
  pub enabled : Option Bool

abbrev pub has_endpoint : Text → Receiver → Bool
has_endpoint endpoint r = text_eq r.endpoint endpoint

abbrev pub is_live : Uuid → Receiver → Bool
is_live id r = r.id == id && not (is_some r.revoked_at)

abbrev pub is_live_pull : Uuid → PullReceiver → Bool
is_live_pull id r = r.id == id && not (is_some r.revoked_at)

-- `request.x.map(validate).transpose()?.unwrap_or_else(old)`
abbrev pub validated : {A : Type 0} → Option A → (A → Result AppError A) → A → Result AppError A
validated none f old = ok old
validated (some a) f old = f a

-- `COALESCE(MAX(id),0)`
unfoldable pub max_id : List Ring → ℕ
max_id [] = 0
max_id (r ∷ rings) = max r.id (max_id rings)

-- `INSERT … ON CONFLICT(endpoint) DO UPDATE SET …`
unfoldable pub upsert : Receiver → List Receiver → List Receiver
upsert r rows =
    if any (has_endpoint r.endpoint) rows
    then update_where (has_endpoint r.endpoint)
        (λ old. record old {
          name = r.name;
          tags = r.tags;
          p256dh = r.p256dh;
          auth = r.auth;
          enabled = true;
          updated_at = r.updated_at;
          revoked_at = none;
        })
        rows
    else rows ++ (r ∷ [])

module _ (sha256 : Text → List ℕ) where
  unfoldable pub create_receiver :
      (Text → Option Text)
      → Headers
      → ReceiverCreateRequest
      → Uuid
      → DateTime
      → Handler (ℕ × ReceiverView)
  unfolding upsert
  create_receiver url_scheme headers request id now = do
    owner_auth sha256 headers true now
    name ← lift (map_err bad (validate_name request.name))
    tags ← lift (map_err bad (validate_tags request.tags))
    lift (map_err bad (validate_subscription url_scheme request.subscription))
    update (λ s. record s {
      receivers =
          upsert
            (record {
              id = id;
              name = name;
              tags = tags;
              endpoint = request.subscription.endpoint;
              p256dh = request.subscription.p256dh;
              auth = request.subscription.auth;
              enabled = true;
              created_at = now;
              updated_at = now;
              revoked_at = none;
            })
            s.receivers;
    })
    rows ← gets (λ s. s.receivers)
    row ← require (first (has_endpoint request.subscription.endpoint) rows) db
    -- an upsert always affects one row
    pure (201, record { id = row.id; name = name; tags = tags; enabled = true; created_at = now })

  unfoldable pub list_receivers : TimeOrder → Headers → DateTime → Handler (List ReceiverView)
  list_receivers order headers now = do
    owner_auth sha256 headers false now
    rows ← gets (λ s. s.receivers)
    pure (
        map
          (λ r. record {
            id = r.id;
            name = r.name;
            tags = r.tags;
            enabled = r.enabled;
            created_at = r.created_at;
          })
          (order.newest (λ r. r.created_at) (keep_if (λ r. not (is_some r.revoked_at)) rows)))

  unfoldable pub update_receiver :
      Headers → Uuid → ReceiverUpdateRequest → DateTime → Handler ReceiverView
  update_receiver headers id request now = do
    owner_auth sha256 headers true now
    rows ← gets (λ s. s.receivers)
    row ← require (first (is_live id) rows) not_found
    name ← lift (validated request.name (λ v. map_err bad (validate_name v)) row.name)
    tags ← lift (validated request.tags (λ v. map_err bad (validate_tags v)) row.tags)
    let enabled = unwrap_or request.enabled row.enabled
    update (λ s. record s {
      receivers =
          update_where (λ r. r.id == id)
            (λ r. record r { name = name; tags = tags; enabled = enabled; updated_at = now })
            s.receivers;
    })
    pure (record {
      id = id;
      name = name;
      tags = tags;
      enabled = enabled;
      created_at = row.created_at;
    })

  unfoldable pub revoke_receiver : Headers → Uuid → DateTime → Handler (Unit {0})
  revoke_receiver headers id now = do
    owner_auth sha256 headers true now
    hit ← gets (λ s. any (is_live id) s.receivers)
    update (λ s. record s {
      receivers =
          update_where (is_live id)
            (λ r. record r { revoked_at = some now; enabled = false; updated_at = now })
            s.receivers;
    })
    ensure hit not_found

  unfoldable pub create_pull_receiver :
      Headers → Text → List Text → Uuid → Text → DateTime → Handler (ReceiverView × Text)
  create_pull_receiver headers requested requested_tags id token now = do
    owner_auth sha256 headers true now
    name ← lift (map_err bad (validate_name requested))
    tags ← lift (map_err bad (validate_tags requested_tags))
    initial_cursor ← gets (λ s. max_id s.rings)
    update (λ s. record s {
      pull_receivers =
          s.pull_receivers
          ++ (record {
            id = id;
            name = name;
            tags = tags;
            token_hash = some (hash_secret sha256 token);
            enabled = true;
            acked_ring_id = initial_cursor;
            created_at = now;
            updated_at = now;
            revoked_at = none;
          }
              ∷ []);
    })
    pure (record { id = id; name = name; tags = tags; enabled = true; created_at = now }, token)

  unfoldable pub list_pull_receivers : TimeOrder → Headers → DateTime → Handler (List ReceiverView)
  list_pull_receivers order headers now = do
    owner_auth sha256 headers false now
    rows ← gets (λ s. s.pull_receivers)
    pure (
        map
          (λ r. record {
            id = r.id;
            name = r.name;
            tags = r.tags;
            enabled = r.enabled;
            created_at = r.created_at;
          })
          (order.newest (λ r. r.created_at) (keep_if (λ r. not (is_some r.revoked_at)) rows)))

  unfoldable pub update_pull_receiver :
      Headers → Uuid → ReceiverUpdateRequest → DateTime → Handler ReceiverView
  update_pull_receiver headers id request now = do
    owner_auth sha256 headers true now
    rows ← gets (λ s. s.pull_receivers)
    row ← require (first (is_live_pull id) rows) not_found
    name ← lift (validated request.name (λ v. map_err bad (validate_name v)) row.name)
    tags ← lift (validated request.tags (λ v. map_err bad (validate_tags v)) row.tags)
    let enabled = unwrap_or request.enabled row.enabled
    update (λ s. record s {
      pull_receivers =
          update_where (λ r. r.id == id)
            (λ r. record r { name = name; tags = tags; enabled = enabled; updated_at = now })
            s.pull_receivers;
    })
    pure (record {
      id = id;
      name = name;
      tags = tags;
      enabled = enabled;
      created_at = row.created_at;
    })

  unfoldable pub revoke_pull_receiver : Headers → Uuid → DateTime → Handler (Unit {0})
  revoke_pull_receiver headers id now = do
    owner_auth sha256 headers true now
    hit ← gets (λ s. any (is_live_pull id) s.pull_receivers)
    update (λ s. record s {
      pull_receivers =
          update_where (is_live_pull id)
            (λ r. record r {
              revoked_at = some now;
              enabled = false;
              token_hash = none;
              updated_at = now;
            })
            s.pull_receivers;
    })
    ensure hit not_found
