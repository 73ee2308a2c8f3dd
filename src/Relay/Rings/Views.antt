-- ===== src/Relay/Rings/Views.antt =====
-- The owner's list of rings (crates/shellbell-relay/src/lib.rs, lines 1276 to 1303).
use shellbell.Base.{ℕ, List, map, Option, false, unwrap_or, take}
use shellbell.Base.Text.{Text}
use shellbell.Activity.Session.{Uuid}
use shellbell.Relay.State.{TimeOrder, DateTime, Headers, Ring, Handler, ◌>>=◌, ◌>>◌, pure, gets}
use shellbell.Relay.Auth.{owner_auth}
use shellbell.Relay.Rings.{clamp}

-- `RingView`
pub record RingView : Type 0 where
  pub event_id : Uuid
  pub source_id : Uuid
  pub source_name : Text
  pub message : Option Text
  pub target_tags : List Text
  pub created_at : DateTime

abbrev pub ring_view : Ring → RingView
ring_view r = record {
  event_id = r.event_id;
  source_id = r.source_id;
  source_name = r.source_name;
  message = r.message;
  target_tags = r.target_tags;
  created_at = r.created_at;
}

unfoldable pub list_rings :
    (Text → List ℕ) → TimeOrder → Headers → Option ℕ → DateTime → Handler (List RingView)
list_rings sha256 order headers limit now = do
  owner_auth sha256 headers false now
  rows ← gets (λ s. s.rings)
  pure (
      map ring_view
        (take (clamp 1 200 (unwrap_or limit 100)) (order.newest (λ r. r.created_at) rows)))
