-- ===== src/Relay/History/Requests.antt =====
-- The relay over any sequence of requests.
use shellbell.Base.{ℕ, List, [], ◌∷◌, Option}
use shellbell.Base.Text.{Text}
use shellbell.Activity.Session.{Uuid}
use shellbell.Relay.State.{TimeOrder, DateTime, Headers, Receiver, Relay}
use shellbell.Relay.Owner.{
  RelayConfig, bootstrap, create_session, validate_session, logout, get_settings, update_settings,
}
use shellbell.Relay.Pairing.{
  list_sources, create_pairing, poll_pairing, list_pairings, approve_pairing, reject_pairing,
  source_self, rename_source, revoke_source,
}
use shellbell.Relay.Receivers.{
  ReceiverCreateRequest, ReceiverUpdateRequest, create_receiver, list_receivers, update_receiver,
  revoke_receiver, create_pull_receiver, list_pull_receivers, update_pull_receiver,
  revoke_pull_receiver,
}
use shellbell.Relay.Rings.Views.{list_rings}
use shellbell.Relay.Rings.{
  DeliveryOutcome, RingRequest, receiver_feed, ack_receiver_feed, submit_ring,
}
use shellbell.Relay.History.{Evolves, Evolves-refl, Evolves-trans}
use shellbell.Relay.History.Owner.{
  bootstrap-Moves, create_session-Moves, validate_session-Moves, logout-Moves, get_settings-Moves,
  update_settings-Moves,
}
use shellbell.Relay.History.Pairings.{
  create_pairing-Moves, poll_pairing-Moves, list_pairings-Moves, approve_pairing-Moves,
  reject_pairing-Moves, list_sources-Moves, source_self-Moves, rename_source-Moves,
  revoke_source-Moves,
}
use shellbell.Relay.History.Receivers.{
  create_receiver-Moves, list_receivers-Moves, update_receiver-Moves, revoke_receiver-Moves,
  create_pull_receiver-Moves, list_pull_receivers-Moves, update_pull_receiver-Moves,
  revoke_pull_receiver-Moves,
}
use shellbell.Relay.History.Rings.{
  list_rings-Moves, receiver_feed-Moves, ack_receiver_feed-Moves, submit_ring-Moves,
}

-- A request with what its handler takes from the clock, the random numbers and the push service.
pub data Request : Type 0 where
  bootstraps : Text → Text → Uuid → DateTime → Request
  creates_session : Text → Text → Uuid → DateTime → Request
  validates_session : Headers → DateTime → Request
  logs_out : Headers → DateTime → Request
  gets_settings : Headers → DateTime → Request
  updates_settings : Headers → ℕ → DateTime → Request
  creates_pairing : Headers → Text → Uuid → Text → DateTime → ℕ → DateTime → Request
  polls_pairing : Uuid → Text → DateTime → Request
  lists_pairings : Headers → DateTime → Request
  approves_pairing : Headers → Uuid → Uuid → DateTime → Request
  rejects_pairing : Headers → Uuid → DateTime → Request
  shows_source : Headers → Request
  renames_source : Headers → Uuid → Text → DateTime → Request
  revokes_source : Headers → Uuid → DateTime → Request
  creates_receiver : Headers → ReceiverCreateRequest → Uuid → DateTime → Request
  lists_sources : Headers → DateTime → Request
  lists_rings : Headers → Option ℕ → DateTime → Request
  lists_receivers : Headers → DateTime → Request
  updates_receiver : Headers → Uuid → ReceiverUpdateRequest → DateTime → Request
  revokes_receiver : Headers → Uuid → DateTime → Request
  creates_pull_receiver : Headers → Text → List Text → Uuid → Text → DateTime → Request
  lists_pull_receivers : Headers → DateTime → Request
  updates_pull_receiver : Headers → Uuid → ReceiverUpdateRequest → DateTime → Request
  revokes_pull_receiver : Headers → Uuid → DateTime → Request
  polls_feed : Headers → Option Text → Option ℕ → ℕ → Request
  acknowledges : Headers → Text → ℕ → DateTime → Request
  submits : (Receiver → DeliveryOutcome) → Headers → RingRequest → ℕ → DateTime → Request

module _ (sha256 : Text → List ℕ) (uuid_text : Uuid → Text) (url_scheme : Text → Option Text)
    (order : TimeOrder) (config : RelayConfig) where
  -- The tables after a request.
  unfoldable pub serve : Request → Relay → Relay
  serve (bootstraps given token id now) s = (bootstrap sha256 config given token id now s).0
  serve (creates_session given token id now) s =
      (create_session sha256 config given token id now s).0
  serve (validates_session headers now) s = (validate_session sha256 config headers now s).0
  serve (logs_out headers now) s = (logout sha256 config headers now s).0
  serve (gets_settings headers now) s = (get_settings sha256 config headers now s).0
  serve (updates_settings headers days now) s = (update_settings sha256 config headers days now s).0
  serve (creates_pairing headers name id code now mono ttl) s =
      (create_pairing headers name id code now mono ttl s).0
  serve (polls_pairing id raw now) s = (poll_pairing sha256 id raw now s).0
  serve (lists_pairings headers now) s = (list_pairings sha256 order headers now s).0
  serve (approves_pairing headers id source_id now) s =
      (approve_pairing sha256 headers id source_id now s).0
  serve (rejects_pairing headers id now) s = (reject_pairing sha256 headers id now s).0
  serve (shows_source headers) s = (source_self sha256 headers s).0
  serve (renames_source headers id name now) s = (rename_source sha256 headers id name now s).0
  serve (revokes_source headers id now) s = (revoke_source sha256 headers id now s).0
  serve (creates_receiver headers request id now) s =
      (create_receiver sha256 url_scheme headers request id now s).0
  serve (lists_sources headers now) s = (list_sources sha256 order headers now s).0
  serve (lists_rings headers limit now) s = (list_rings sha256 order headers limit now s).0
  serve (lists_receivers headers now) s = (list_receivers sha256 order headers now s).0
  serve (updates_receiver headers id request now) s =
      (update_receiver sha256 headers id request now s).0
  serve (revokes_receiver headers id now) s = (revoke_receiver sha256 headers id now s).0
  serve (creates_pull_receiver headers name tags id token now) s =
      (create_pull_receiver sha256 headers name tags id token now s).0
  serve (lists_pull_receivers headers now) s = (list_pull_receivers sha256 order headers now s).0
  serve (updates_pull_receiver headers id request now) s =
      (update_pull_receiver sha256 headers id request now s).0
  serve (revokes_pull_receiver headers id now) s = (revoke_pull_receiver sha256 headers id now s).0
  serve (polls_feed headers after limit mono) s =
      (receiver_feed sha256 uuid_text headers after limit mono s).0
  serve (acknowledges headers requested mono now) s =
      (ack_receiver_feed sha256 uuid_text headers requested mono now s).0
  serve (submits deliver headers request mono now) s =
      (submit_ring sha256 uuid_text deliver headers request mono now s).0

  unfoldable pub serve_all : List Request → Relay → Relay
  serve_all [] s = s
  serve_all (r ∷ rs) s = serve_all rs (serve r s)

  serve-Evolves : (r : Request) (s : Relay) → Evolves s (serve r s)
  unfolding serve
  serve-Evolves (bootstraps given token id now) s =
      (bootstrap-Moves sha256 config given token id now).at s
  serve-Evolves (creates_session given token id now) s =
      (create_session-Moves sha256 config given token id now).at s
  serve-Evolves (validates_session headers now) s =
      (validate_session-Moves sha256 config headers now).at s
  serve-Evolves (logs_out headers now) s = (logout-Moves sha256 config headers now).at s
  serve-Evolves (gets_settings headers now) s = (get_settings-Moves sha256 config headers now).at s
  serve-Evolves (updates_settings headers days now) s =
      (update_settings-Moves sha256 config headers days now).at s
  serve-Evolves (creates_pairing headers name id code now mono ttl) s =
      (create_pairing-Moves sha256 headers name id code now mono ttl).at s
  serve-Evolves (polls_pairing id raw now) s = (poll_pairing-Moves sha256 id raw now).at s
  serve-Evolves (lists_pairings headers now) s = (list_pairings-Moves sha256 order headers now).at s
  serve-Evolves (approves_pairing headers id source_id now) s =
      (approve_pairing-Moves sha256 headers id source_id now).at s
  serve-Evolves (rejects_pairing headers id now) s =
      (reject_pairing-Moves sha256 headers id now).at s
  serve-Evolves (shows_source headers) s = (source_self-Moves sha256 headers).at s
  serve-Evolves (renames_source headers id name now) s =
      (rename_source-Moves sha256 headers id name now).at s
  serve-Evolves (revokes_source headers id now) s = (revoke_source-Moves sha256 headers id now).at s
  serve-Evolves (creates_receiver headers request id now) s =
      (create_receiver-Moves sha256 url_scheme headers request id now).at s
  serve-Evolves (lists_sources headers now) s = (list_sources-Moves sha256 order headers now).at s
  serve-Evolves (lists_rings headers limit now) s =
      (list_rings-Moves sha256 uuid_text order headers limit now).at s
  serve-Evolves (lists_receivers headers now) s =
      (list_receivers-Moves sha256 order headers now).at s
  serve-Evolves (updates_receiver headers id request now) s =
      (update_receiver-Moves sha256 headers id request now).at s
  serve-Evolves (revokes_receiver headers id now) s =
      (revoke_receiver-Moves sha256 headers id now).at s
  serve-Evolves (creates_pull_receiver headers name tags id token now) s =
      (create_pull_receiver-Moves sha256 headers name tags id token now).at s
  serve-Evolves (lists_pull_receivers headers now) s =
      (list_pull_receivers-Moves sha256 order headers now).at s
  serve-Evolves (updates_pull_receiver headers id request now) s =
      (update_pull_receiver-Moves sha256 headers id request now).at s
  serve-Evolves (revokes_pull_receiver headers id now) s =
      (revoke_pull_receiver-Moves sha256 headers id now).at s
  serve-Evolves (polls_feed headers after limit mono) s =
      (receiver_feed-Moves sha256 uuid_text headers after limit mono).at s
  serve-Evolves (acknowledges headers requested mono now) s =
      (ack_receiver_feed-Moves sha256 uuid_text headers requested mono now).at s
  serve-Evolves (submits deliver headers request mono now) s =
      (submit_ring-Moves sha256 uuid_text deliver headers request mono now).at s

  -- Whatever requests the relay serves and in whatever order, it only moves on: once bootstrapped
  -- it stays so; every session keeps its token and its end and stays revoked once it is; every
  -- source keeps its identity and its revocation; a pairing that is no longer pending stays exactly
  -- as it is; every receiver keeps its identity and its endpoint; what a pull receiver has
  -- acknowledged only grows, and its revocation stays; and the identifiers given to rings only
  -- grow.
  pub serve_all-Evolves : (rs : List Request) (s : Relay) → Evolves s (serve_all rs s)
  unfolding serve_all
  serve_all-Evolves [] s = Evolves-refl s
  serve_all-Evolves (r ∷ rs) s =
      Evolves-trans s (serve r s) (serve_all rs (serve r s)) (serve-Evolves r s)
        (serve_all-Evolves rs (serve r s))
