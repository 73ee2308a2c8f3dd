-- ===== src/Relay/History/Receivers.antt =====
-- The handlers of receivers.
use shellbell.Base.{
  ◌==◌, any, ℕ, ◌≡◌, refl, List, Option, none, some, Bool, true, false, arith, Bool-cases, inl, inr,
}
use shellbell.Base.Text.{Text}
use shellbell.Activity.Session.{Uuid}
use shellbell.Relay.State.{TimeOrder, DateTime, Headers, Receiver, PullReceiver, update}
use shellbell.Relay.History.{
  Advances-append, Advances-update_where, ReceiverLater, PullReceiverLater, receiver_same,
}
use shellbell.Relay.History.Moves.{
  Moves, moves, change_receivers-Moves, add_pull_receiver-Moves, change_pull_receivers-Moves,
  Moves-update, receivers-Evolves,
}
use shellbell.Relay.History.Auth.{owner_auth-Moves}
use shellbell.Relay.Receivers.{
  ReceiverCreateRequest, ReceiverUpdateRequest, has_endpoint, is_live, is_live_pull, upsert,
  create_receiver, list_receivers, update_receiver, revoke_receiver, create_pull_receiver,
  list_pull_receivers, update_pull_receiver, revoke_pull_receiver,
}

upsert-Moves : (r : Receiver) → Moves (update (λ s. record s { receivers = upsert r s.receivers }))
unfolding upsert
upsert-Moves r = Moves-update _ (λ s.
    receivers-Evolves s _ (elim (Bool-cases (any (has_endpoint r.endpoint) s.receivers)) [
      | inl y ↦ rw y (
          Advances-update_where ReceiverLater receiver_same _ _ (λ x h. (refl, refl, refl))
            s.receivers)
      | inr n ↦ rw n (Advances-append ReceiverLater receiver_same s.receivers _)
    ]))

receiver_updated :
    (id : Uuid) (name : Text) (tags : List Text) (enabled : Bool) (now : DateTime) (x : Receiver)
    → (x.id == id) ≡ true
    → ReceiverLater x (record x { name = name; tags = tags; enabled = enabled; updated_at = now })
receiver_updated id name tags enabled now x h = (refl, refl, refl)

receiver_revoked :
    (id : Uuid) (now : DateTime) (x : Receiver)
    → is_live id x ≡ true
    → ReceiverLater x (record x { revoked_at = some now; enabled = false; updated_at = now })
receiver_revoked id now x h = (refl, refl, refl)

pull_receiver_updated :
    (id : Uuid) (name : Text) (tags : List Text) (enabled : Bool) (now : DateTime)
    (x : PullReceiver)
    → (x.id == id) ≡ true
    → PullReceiverLater x
        (record x { name = name; tags = tags; enabled = enabled; updated_at = now })
pull_receiver_updated id name tags enabled now x h = (refl, omega arith, λ r. refl)

-- Only a pull receiver that is not revoked is revoked.
pull_receiver_revoked :
    (id : Uuid) (now : DateTime) (x : PullReceiver)
    → is_live_pull id x ≡ true
    → PullReceiverLater x
        (record x { revoked_at = some now; enabled = false; token_hash = none; updated_at = now })
pull_receiver_revoked id now x h = (refl, omega arith, λ r. ground (arith, h, r))

module _ (sha256 : Text → List ℕ) where
  pub create_receiver-Moves :
      (url_scheme : Text → Option Text) (headers : Headers) (request : ReceiverCreateRequest)
      (id : Uuid) (now : DateTime)
      → Moves (create_receiver sha256 url_scheme headers request id now)
  unfolding create_receiver
  create_receiver-Moves url_scheme headers request id now =
      search (moves, owner_auth-Moves, upsert-Moves) depth 12

  pub list_receivers-Moves :
      (order : TimeOrder) (headers : Headers) (now : DateTime)
      → Moves (list_receivers sha256 order headers now)
  unfolding list_receivers
  list_receivers-Moves order headers now = search (moves, owner_auth-Moves)

  pub list_pull_receivers-Moves :
      (order : TimeOrder) (headers : Headers) (now : DateTime)
      → Moves (list_pull_receivers sha256 order headers now)
  unfolding list_pull_receivers
  list_pull_receivers-Moves order headers now = search (moves, owner_auth-Moves)

  pub update_receiver-Moves :
      (headers : Headers) (id : Uuid) (request : ReceiverUpdateRequest) (now : DateTime)
      → Moves (update_receiver sha256 headers id request now)
  unfolding update_receiver
  update_receiver-Moves headers id request now =
      search (moves, owner_auth-Moves, change_receivers-Moves, receiver_updated) depth 12

  pub revoke_receiver-Moves :
      (headers : Headers) (id : Uuid) (now : DateTime)
      → Moves (revoke_receiver sha256 headers id now)
  unfolding revoke_receiver
  revoke_receiver-Moves headers id now =
      search (moves, owner_auth-Moves, change_receivers-Moves, receiver_revoked) depth 9

  pub create_pull_receiver-Moves :
      (headers : Headers) (name : Text) (tags : List Text) (id : Uuid) (token : Text)
      (now : DateTime)
      → Moves (create_pull_receiver sha256 headers name tags id token now)
  unfolding create_pull_receiver
  create_pull_receiver-Moves headers name tags id token now =
      search (moves, owner_auth-Moves, add_pull_receiver-Moves) depth 12

  pub update_pull_receiver-Moves :
      (headers : Headers) (id : Uuid) (request : ReceiverUpdateRequest) (now : DateTime)
      → Moves (update_pull_receiver sha256 headers id request now)
  unfolding update_pull_receiver
  update_pull_receiver-Moves headers id request now =
      search (moves, owner_auth-Moves, change_pull_receivers-Moves, pull_receiver_updated) depth 12

  pub revoke_pull_receiver-Moves :
      (headers : Headers) (id : Uuid) (now : DateTime)
      → Moves (revoke_pull_receiver sha256 headers id now)
  unfolding revoke_pull_receiver
  revoke_pull_receiver-Moves headers id now =
      search (moves, owner_auth-Moves, change_pull_receivers-Moves, pull_receiver_revoked) depth 9
