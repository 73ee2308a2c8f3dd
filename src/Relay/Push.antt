-- ===== src/Relay/Push.antt =====
-- Delivery by web push (crates/shellbell-relay/src/push.rs). The crate web_push is a parameter: its
-- builders and its client, each with its own errors.
pub mod Outage
use shellbell.Base.{ℕ, Option, none, some, Bool, true, false}
use shellbell.Base.Result.{Result, ok, err}
use shellbell.Base.Text.{Text, codes}
use shellbell.Relay.State.{Receiver}
use shellbell.Relay.Rings.{DeliveryOutcome, delivered_ok, permanent, transient}

-- In seconds.
abbrev pub push_ttl_seconds : ℕ
push_ttl_seconds = 120

pub record PushSubscription : Type 0 where
  pub endpoint : Text
  pub p256dh : Text
  pub auth : Text

abbrev pub subscription_of : Receiver → PushSubscription
subscription_of r = record { endpoint = r.endpoint; p256dh = r.p256dh; auth = r.auth }

-- The errors that `classify` tells apart; the others are one constructor, with their number.
pub data WebPushError : Type 0 where
  endpoint_not_valid endpoint_not_found invalid_uri invalid_crypto_keys : WebPushError
  missing_crypto_keys : WebPushError
  other : ℕ → WebPushError

-- What the crate does; `send` has `none` where it is not done in time.
pub record WebPush : Type 1 where
  pub Builder : Type 0
  pub Signature : Type 0
  pub Message : Type 0
  pub from_base64 : Text → PushSubscription → Result WebPushError Builder
  pub add_claim : Text → Text → Builder → Builder
  pub sign : Builder → Result WebPushError Signature
  pub build : PushSubscription → Text → ℕ → Signature → Result WebPushError Message
  pub client : Result WebPushError (Unit {0})
  pub send : Message → ℕ → Option (Result WebPushError (Unit {0}))
  pub short_description : WebPushError → Text

pub record VapidPushDelivery : Type 0 where
  pub private_key : Text
  pub subject : Text
  pub timeout : ℕ

-- The errors that are the subscription's own.
unfoldable pub is_fatal : WebPushError → Bool
is_fatal (other n) = false
is_fatal endpoint_not_valid = true
is_fatal endpoint_not_found = true
is_fatal invalid_uri = true
is_fatal invalid_crypto_keys = true
is_fatal missing_crypto_keys = true

module _ (web : WebPush) where
  unfoldable pub classify : WebPushError → DeliveryOutcome
  classify (other n) = transient (web.short_description (other n))
  classify endpoint_not_valid = permanent (web.short_description endpoint_not_valid)
  classify endpoint_not_found = permanent (web.short_description endpoint_not_found)
  classify invalid_uri = permanent (web.short_description invalid_uri)
  classify invalid_crypto_keys = permanent (web.short_description invalid_crypto_keys)
  classify missing_crypto_keys = permanent (web.short_description missing_crypto_keys)

  -- The answer to a message, if it came in time.
  unfoldable pub sent : Option (Result WebPushError (Unit {0})) → DeliveryOutcome
  unfolding classify
  sent none = transient (codes "timeout")
  sent (some (ok u)) = delivered_ok
  sent (some (err e)) = classify e

  unfoldable pub send_by : ℕ → Result WebPushError (Unit {0}) → web.Message → DeliveryOutcome
  unfolding sent classify
  send_by timeout (ok u) message = sent (web.send message timeout)
  send_by timeout (err e) message = classify e

  unfoldable pub send_built : ℕ → Result WebPushError web.Message → DeliveryOutcome
  unfolding send_by classify
  send_built timeout (ok message) = send_by timeout web.client message
  send_built timeout (err e) = classify e

  unfoldable pub send_signed :
      ℕ → PushSubscription → Text → Result WebPushError web.Signature → DeliveryOutcome
  unfolding send_built
  send_signed timeout info payload (ok signature) =
      send_built timeout (web.build info payload push_ttl_seconds signature)
  send_signed timeout info payload (err e) = transient (web.short_description e)

  unfoldable pub send_claimed :
      VapidPushDelivery
      → PushSubscription
      → Text
      → Result WebPushError web.Builder
      → DeliveryOutcome
  unfolding send_signed
  send_claimed self info payload (ok builder) =
      send_signed self.timeout info payload
        (web.sign (web.add_claim (codes "sub") self.subject builder))
  send_claimed self info payload (err e) = transient (web.short_description e)

  unfoldable pub deliver : VapidPushDelivery → PushSubscription → Text → DeliveryOutcome
  unfolding send_claimed
  deliver self info payload = send_claimed self info payload (web.from_base64 self.private_key info)
