-- ===== src/Relay/History/Rings.antt =====
-- The handlers of rings and feeds.
use shellbell.Base.{
  ◌==◌, ℕ, ◌+◌, ◌≡◌, refl, List, [], ◌∷◌, Option, none, some, Bool, true, false, if◌then◌else◌,
  arith, max,
}
use shellbell.Base.Text.{Text}
use shellbell.Activity.Session.{Uuid}
use shellbell.Relay.State.{
  TimeOrder, DateTime, Headers, Source, Receiver, PullReceiver, Relay, Handler, update_where,
}
use shellbell.Relay.History.{
  Advances, Advances-update_where, SourceLater, ReceiverLater, PullReceiverLater, source_same,
  receiver_same, Evolves, Evolves-trans, Evolves-refl,
}
use shellbell.Relay.History.Moves.{Moves, moves, change_pull_receivers-Moves}
use shellbell.Relay.History.Auth.{
  limit_rate-Moves, owner_auth-Moves, source_auth-Moves, pull_receiver_auth-Moves,
}
use shellbell.Relay.Rings.Views.{list_rings}
use shellbell.Relay.Rings.{
  DeliveryOutcome, RingRequest, is_target, is_pull_target, delete_old, insert_ring, record_outcome,
  push_all, is_permanent, receiver_feed, ack_receiver_feed, is_acked_row, accept_ring, unless_seen,
  submit_ring, take_ring, RingAcceptedResponse,
}
use shellbell.Relay.State.{Ring}
use shellbell.Base.{count_if, keep_if, length}

insert_ring-Evolves :
    (source : Source) (event_id : Uuid) (message : Option Text) (tags : List Text) (now : DateTime)
    (targets : List Receiver) (matched : ℕ) (s : Relay)
    → Evolves s (insert_ring source event_id message tags now targets matched s)
unfolding insert_ring delete_old
insert_ring-Evolves source event_id message tags now targets matched s =
    let e = Evolves-refl s in
    record {
      bootstrapped = e.bootstrapped;
      sessions = e.sessions;
      sources =
          Advances-update_where SourceLater source_same _ _ (λ x h. (refl, refl, λ r. refl))
            s.sources;
      pairings = e.pairings;
      receivers = e.receivers;
      pull_receivers = e.pull_receivers;
      ring_ids = omega arith;
    }

record_outcome-Evolves :
    (ring_id : ℕ) (now : DateTime) (r : Receiver) (outcome : DeliveryOutcome) (s : Relay)
    → Evolves s (record_outcome ring_id now r outcome s)
unfolding record_outcome
record_outcome-Evolves ring_id now r outcome s =
    let e = Evolves-refl s in
    record {
      bootstrapped = e.bootstrapped;
      sessions = e.sessions;
      sources = e.sources;
      pairings = e.pairings;
      receivers = disabled (is_permanent outcome);
      pull_receivers = e.pull_receivers;
      ring_ids = e.ring_ids;
    }
  where
    disabled :
        (b : Bool)
        → Advances ReceiverLater s.receivers (
            if b
            then update_where
                (λ (q : Receiver). q.id == r.id)
                (λ q. record q { enabled = false; updated_at = now })
                s.receivers
            else s.receivers)
    disabled true =
        Advances-update_where ReceiverLater receiver_same _ _ (λ x h. (refl, refl, refl))
          s.receivers
    disabled false = (Evolves-refl s).receivers

push_all-Evolves :
    (deliver : Receiver → DeliveryOutcome) (ring_id : ℕ) (now : DateTime) (rs : List Receiver)
    (s : Relay)
    → Evolves s (push_all deliver ring_id now rs s)
unfolding push_all
push_all-Evolves deliver ring_id now [] s = Evolves-refl s
push_all-Evolves deliver ring_id now (r ∷ rs) s =
    Evolves-trans s (record_outcome ring_id now r (deliver r) s) _
      (record_outcome-Evolves ring_id now r (deliver r) s)
      (push_all-Evolves deliver ring_id now rs (record_outcome ring_id now r (deliver r) s))

-- An acknowledgement only raises the number.
acked_later :
    (sha256 : Text → List ℕ) (uuid_text : Uuid → Text) (id : Uuid) (cursor : ℕ) (now : DateTime)
    (x : PullReceiver)
    → is_acked_row sha256 uuid_text id x ≡ true
    → PullReceiverLater x
        (record x { acked_ring_id = max x.acked_ring_id cursor; updated_at = now })
acked_later sha256 uuid_text id cursor now x h = (refl, omega arith, λ r. refl)

module _ (sha256 : Text → List ℕ) (uuid_text : Uuid → Text) where
  pub receiver_feed-Moves :
      (headers : Headers) (after : Option Text) (limit : Option ℕ) (mono : ℕ)
      → Moves (receiver_feed sha256 uuid_text headers after limit mono)
  unfolding receiver_feed
  receiver_feed-Moves headers after limit mono =
      search (moves, pull_receiver_auth-Moves, limit_rate-Moves)

  pub ack_receiver_feed-Moves :
      (headers : Headers) (requested : Text) (mono : ℕ) (now : DateTime)
      → Moves (ack_receiver_feed sha256 uuid_text headers requested mono now)
  unfolding ack_receiver_feed
  ack_receiver_feed-Moves headers requested mono now =
      search
        (
          moves,
          pull_receiver_auth-Moves,
          limit_rate-Moves,
          change_pull_receivers-Moves,
          acked_later sha256 uuid_text,
        )
        depth 12

  pub list_rings-Moves :
      (order : TimeOrder) (headers : Headers) (limit : Option ℕ) (now : DateTime)
      → Moves (list_rings sha256 order headers limit now)
  unfolding list_rings
  list_rings-Moves order headers limit now = search (moves, owner_auth-Moves)

  accept_ring-Moves :
      (deliver : Receiver → DeliveryOutcome) (source : Source) (event_id : Uuid)
      (message : Option Text) (tags : List Text) (now : DateTime)
      → Moves (accept_ring sha256 uuid_text deliver source event_id message tags now)
  unfolding accept_ring
  accept_ring-Moves deliver source event_id message tags now = record {
    at = λ s.
        let targets = keep_if (is_target tags) s.receivers in
        let matched = length targets + count_if (is_pull_target tags) s.pull_receivers in
        let s' = insert_ring source event_id message tags now targets matched s in
        Evolves-trans s s' _
          (insert_ring-Evolves source event_id message tags now targets matched s)
          (push_all-Evolves deliver (s.last_ring_id + 1) now targets s');
  }

  unless_seen-Moves :
      (event_id : Uuid) (found : Option Ring) (m : Handler (ℕ × RingAcceptedResponse))
      → Moves m
      → Moves (unless_seen sha256 uuid_text event_id found m)
  unfolding unless_seen
  unless_seen-Moves event_id none m h = h
  unless_seen-Moves event_id (some r) m h = search moves

  pub submit_ring-Moves :
      (deliver : Receiver → DeliveryOutcome) (headers : Headers) (request : RingRequest) (mono : ℕ)
      (now : DateTime)
      → Moves (submit_ring sha256 uuid_text deliver headers request mono now)
  unfolding submit_ring take_ring
  submit_ring-Moves deliver headers request mono now =
      search (moves, source_auth-Moves, limit_rate-Moves, accept_ring-Moves, unless_seen-Moves)
        depth 14
