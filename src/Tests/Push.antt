-- ===== src/Tests/Push.antt =====
-- A push service that does not answer, and the receiver of the test relay.
use shellbell.Base.{◌≡◌, inl, inr, [], ◌∷◌, none}
use shellbell.Base.Int.{pos}
use shellbell.Base.Result.{ok}
use shellbell.Base.Text.{codes}
use shellbell.Relay.Rings.{push_all}
use shellbell.Relay.Push.{WebPush, VapidPushDelivery, deliver, subscription_of}
use shellbell.Relay.Push.Outage.{IsBlamed, receivers-push_all}
use shellbell.Tests.Relay.{relay, receiver}

abbrev silent : WebPush
silent = record {
  Builder = Unit;
  Signature = Unit;
  Message = Unit;
  from_base64 = λ key info. ok tt;
  add_claim = λ name value builder. builder;
  sign = λ builder. ok tt;
  build = λ info payload ttl signature. ok tt;
  client = ok tt;
  send = λ message timeout. none;
  short_description = λ e. codes "unspecified";
}

abbrev self : VapidPushDelivery
self = record { private_key = codes "key"; subject = codes "mailto:a"; timeout = 10 }

unblamed : ¬ (IsBlamed silent self (subscription_of receiver) (codes "ring"))
unblamed blamed = elim blamed.stage [
  | inl e ↦ cc
  | inr (message, e, inl k) ↦ cc
  | inr (message, e, inr (k, l)) ↦ cc
]

receivers-push_all_example :
    (push_all
      (λ r. deliver silent self (subscription_of r) (codes "ring"))
      1
      (pos 5)
      (receiver ∷ [])
      relay).receivers
    ≡ relay.receivers
receivers-push_all_example =
    receivers-push_all silent self (codes "ring") 1 (pos 5) (receiver ∷ []) relay (unblamed, tt)
