-- ===== src/Relay/Rings.antt =====
-- Submitting a ring, and the feed of a pull receiver (crates/shellbell-relay/src/lib.rs, lines 891 to
-- 1012 and 1134 to 1275). Parameters: SHA-256, the text of a `Uuid`, and what the push service
-- answers for a subscription. The table `rings` stands in the order of its integer primary key.
pub mod Cursor
pub mod Feed
pub mod Rising
pub mod Submit
pub mod Views
use shellbell.Base.{
  ℕ, ◌+◌, ◌-◌, ◌*◌, ◌≡◌, List, [], ◌∷◌, ◌++◌, map, Option, none, some, Bool, true, false, not, ◌&&◌,
  ◌||◌, ◌==◌, ltb, leb, is_some, any, if◌then◌else◌, keep_if, unwrap_or, max, min, length, take,
  count_if,
}
use shellbell.Base.Int.{ℤ, pos, negsuc, ◌-ℤ◌, ltb_ℤ}
use shellbell.Base.Words.{i64_max}
use shellbell.Base.Result.{Result, ok, err, map_err}
use shellbell.Base.Text.{Text, codes, text_eq}
use shellbell.Activity.Session.{Uuid}
use shellbell.Protocol.{validate_message, validate_tags, contains}
use shellbell.Relay.State.{
  TimeOrder, DateTime, AppError, bad, bad_cursor, Headers, Source, Receiver, PullReceiver, Ring,
  Delivery, DeliveryStatus, queued, delivered, transient_failure, permanent_failure, Relay, Handler,
  ◌>>=◌, ◌>>◌, pure, lift, gets, update, update_where, first,
}
use shellbell.Relay.Limiter.{limit_rate}
use shellbell.Relay.Auth.{owner_auth, source_auth, pull_receiver_auth}
use shellbell.Relay.Rings.Cursor.{parse_cursor}

-- `DeliveryOutcome` of crates/shellbell-relay/src/push.rs.
pub data DeliveryOutcome : Type 0 where
  delivered_ok : DeliveryOutcome
  permanent : Text → DeliveryOutcome
  transient : Text → DeliveryOutcome

pub record RingRequest : Type 0 where
  pub event_id : Uuid
  pub message : Option Text
  pub target_tags : List Text

pub record RingAcceptedResponse : Type 0 where
  pub event_id : Uuid
  pub accepted_at : DateTime
  pub duplicate : Bool
  pub matched_receivers : ℕ

unfoldable pub tags_match : List Text → List Text → Bool
tags_match receiver_tags [] = true
tags_match receiver_tags (t ∷ ts) = any (contains receiver_tags) (t ∷ ts)

abbrev pub clamp : ℕ → ℕ → ℕ → ℕ
clamp low high n = if ltb n low then low else if ltb high n then high else n

-- The loop of `receiver_feed`: `room` rings may still be taken, at least one.
unfoldable pub feed_loop : List Text → ℕ → ℕ → List Ring → List Ring × ℕ
unfolding tags_match
feed_loop tags room cursor [] = ([], cursor)
feed_loop tags room cursor (r ∷ rows) =
    let skipped = feed_loop tags room r.id rows in
    let taken = feed_loop tags (room - 1) r.id rows in
    if not (tags_match tags r.target_tags)
    then skipped
    else if leb room 1
    then (r ∷ [], r.id)
    else (r ∷ taken.0, taken.1)

-- The scan of at most twenty rows for each ring that is wanted.
abbrev pub scan_limit : ℕ → ℕ
scan_limit limit = clamp 100 2000 (limit * 20)

unfoldable pub feed_page : List Ring → List Text → ℕ → ℕ → List Ring × ℕ
unfolding feed_loop
feed_page rings tags floor limit =
    feed_loop tags limit floor (take (scan_limit limit) (keep_if (λ r. ltb floor r.id) rings))

abbrev pub is_ring : Uuid → Uuid → Ring → Bool
is_ring source_id event_id r = r.source_id == source_id && r.event_id == event_id

abbrev pub is_target : List Text → Receiver → Bool
is_target tags r = r.enabled && not (is_some r.revoked_at) && tags_match r.tags tags

abbrev pub is_pull_target : List Text → PullReceiver → Bool
is_pull_target tags r = r.enabled && not (is_some r.revoked_at) && tags_match r.tags tags

abbrev pub day : ℕ
day = 86400000000000

-- `DELETE FROM rings WHERE created_at < ?`; the deliveries of a deleted ring go with it.
unfoldable pub delete_old : DateTime → Relay → Relay
delete_old cutoff s =
    let old = λ (r : Ring). ltb_ℤ r.created_at cutoff in
    record s {
      rings = keep_if (λ r. not (old r)) s.rings;
      deliveries = keep_if (λ d. not (any (λ r. r.id == d.ring_id && old r) s.rings)) s.deliveries;
    }

abbrev pub queued_delivery : ℕ → Receiver → Delivery
queued_delivery ring_id r = record {
  ring_id = ring_id;
  receiver_id = r.id;
  attempted_at = none;
  status = queued;
  diagnostic = none;
}

-- The row of a new ring.
abbrev pub new_ring : Source → Uuid → Option Text → List Text → DateTime → ℕ → ℕ → Ring
new_ring source event_id message tags now ring_id matched = record {
  id = ring_id;
  event_id = event_id;
  source_id = source.id;
  source_name = source.display_name;
  message = message;
  target_tags = tags;
  created_at = now;
  matched_receivers = matched;
}

-- The transaction that takes a new ring in.
unfoldable pub insert_ring :
    Source → Uuid → Option Text → List Text → DateTime → List Receiver → ℕ → Relay → Relay
unfolding delete_old
insert_ring source event_id message tags now targets matched s =
    let ring_id = s.last_ring_id + 1 in
    let ring = new_ring source event_id message tags now ring_id matched in
    let s' : Relay = record s {
      rings = s.rings ++ (ring ∷ []);
      last_ring_id = ring_id;
      deliveries = s.deliveries ++ map (queued_delivery ring_id) targets;
      sources =
          update_where (λ (r : Source). r.id == source.id)
            (λ r. record r { last_seen_at = some now }) s.sources;
    } in
    delete_old (now -ℤ pos (s.history_retention_days * day)) s'

abbrev pub status_of : DeliveryOutcome → DeliveryStatus
status_of delivered_ok = delivered
status_of (permanent value) = permanent_failure
status_of (transient value) = transient_failure

abbrev pub diagnostic_of : DeliveryOutcome → Option Text
diagnostic_of delivered_ok = none
diagnostic_of (permanent value) = some value
diagnostic_of (transient value) = some value

abbrev pub is_permanent : DeliveryOutcome → Bool
is_permanent (permanent value) = true
is_permanent _ = false

-- One turn of the loop over the receivers, after the push service has answered.
unfoldable pub record_outcome : ℕ → DateTime → Receiver → DeliveryOutcome → Relay → Relay
record_outcome ring_id now r outcome s = record s {
  deliveries =
      update_where (λ d. d.ring_id == ring_id && d.receiver_id == r.id)
        (λ d. record d {
          attempted_at = some now;
          status = status_of outcome;
          diagnostic = diagnostic_of outcome;
        })
        s.deliveries;
  receivers =
      if is_permanent outcome
      then update_where (λ (q : Receiver). q.id == r.id)
          (λ q. record q { enabled = false; updated_at = now }) s.receivers
      else s.receivers;
}

unfoldable pub push_all :
    (Receiver → DeliveryOutcome) → ℕ → DateTime → List Receiver → Relay → Relay
push_all deliver ring_id now [] s = s
push_all deliver ring_id now (r ∷ rs) s =
    push_all deliver ring_id now rs (record_outcome ring_id now r (deliver r) s)

module _ (sha256 : Text → List ℕ) (uuid_text : Uuid → Text) where
  unfoldable pub receiver_feed : Headers → Option Text → Option ℕ → ℕ → Handler (List Ring × ℕ)
  unfolding feed_page parse_cursor
  receiver_feed headers after limit mono = do
    receiver ← pull_receiver_auth sha256 headers
    limit_rate (codes "receiver-feed:" ++ uuid_text receiver.id) 120 60000000000 mono
    requested ← lift (parse_cursor after)
    let floor = max (unwrap_or requested 0) receiver.acked_ring_id
    rings ← gets (λ s. s.rings)
    pure (feed_page rings receiver.tags floor (clamp 1 100 (unwrap_or limit 50)))

  abbrev pub is_acked_row : Uuid → PullReceiver → Bool
  is_acked_row id r = r.id == id && not (is_some r.revoked_at)

  unfoldable pub ack_receiver_feed : Headers → Text → ℕ → DateTime → Handler (Unit {0})
  unfolding parse_cursor
  ack_receiver_feed headers requested mono now = do
    receiver ← pull_receiver_auth sha256 headers
    limit_rate (codes "receiver-ack:" ++ uuid_text receiver.id) 120 60000000000 mono
    parsed ← lift (parse_cursor (some requested))
    let cursor = unwrap_or parsed 0
    update (λ s. record s {
      pull_receivers =
          update_where (is_acked_row receiver.id)
            (λ r. record r { acked_ring_id = max r.acked_ring_id cursor; updated_at = now })
            s.pull_receivers;
    })

  -- The part of `submit_ring` for an event that the relay has not seen.
  unfoldable pub accept_ring :
      (Receiver → DeliveryOutcome)
      → Source
      → Uuid
      → Option Text
      → List Text
      → DateTime
      → Handler (ℕ × RingAcceptedResponse)
  unfolding insert_ring push_all
  accept_ring deliver source event_id message tags now s =
      let targets = keep_if (is_target tags) s.receivers in
      let matched = length targets + count_if (is_pull_target tags) s.pull_receivers in
      let s' = insert_ring source event_id message tags now targets matched s in
      (
        push_all deliver (s.last_ring_id + 1) now targets s',
        ok (
          202,
          record {
            event_id = event_id;
            accepted_at = now;
            duplicate = false;
            matched_receivers = matched;
          },
        ),
      )

  abbrev pub duplicate_response : Uuid → Ring → RingAcceptedResponse
  duplicate_response event_id r = record {
    event_id = event_id;
    accepted_at = r.created_at;
    duplicate = true;
    matched_receivers = r.matched_receivers;
  }

  -- The answer for an event that the relay has seen, or what is done with a new one.
  unfoldable pub unless_seen :
      Uuid → Option Ring → Handler (ℕ × RingAcceptedResponse) → Handler (ℕ × RingAcceptedResponse)
  unless_seen event_id none fresh = fresh
  unless_seen event_id (some r) fresh = pure (200, duplicate_response event_id r)

  -- What `submit_ring` does with a ring that its guards have let through.
  unfoldable pub take_ring :
      (Receiver → DeliveryOutcome)
      → Source
      → Uuid
      → Option Text
      → List Text
      → DateTime
      → Handler (ℕ × RingAcceptedResponse)
  unfolding accept_ring unless_seen
  take_ring deliver source event_id message tags now = do
    rows ← gets (λ s. s.rings)
    unless_seen event_id (first (is_ring source.id event_id) rows)
        (accept_ring deliver source event_id message tags now)

  unfoldable pub submit_ring :
      (Receiver → DeliveryOutcome)
      → Headers
      → RingRequest
      → ℕ
      → DateTime
      → Handler (ℕ × RingAcceptedResponse)
  unfolding take_ring
  submit_ring deliver headers request mono now = do
    source ← source_auth sha256 headers
    limit_rate (codes "ring:" ++ uuid_text source.id) 120 60000000000 mono
    message ← lift (map_err bad (validate_message request.message))
    tags ← lift (map_err bad (validate_tags request.target_tags))
    take_ring deliver source request.event_id message tags now
