-- ===== src/Relay/Push/Outage.antt =====
-- Which deliveries disable a receiver (crates/shellbell-relay/src/push.rs, and lib.rs, `submit_ring`).
use shellbell.Base.{
  ℕ, ◌≡◌, ◌⊎◌, refl, sym, ◌∙◌, inl, inr, List, [], ◌∷◌, Option, none, some, true, All, Bool-cases,
}
use shellbell.Base.Result.{Result, ok, err}
use shellbell.Base.Text.{Text, codes}
use shellbell.Relay.State.{DateTime, Receiver, Relay}
use shellbell.Relay.Rings.{is_permanent, record_outcome, push_all}
use shellbell.Relay.Push.{
  PushSubscription, WebPushError, other, endpoint_not_valid, endpoint_not_found, invalid_uri,
  invalid_crypto_keys, missing_crypto_keys, WebPush, VapidPushDelivery, is_fatal, classify, sent,
  send_by, send_built, send_signed, send_claimed, deliver, subscription_of, push_ttl_seconds,
}

module _ (web : WebPush) where
  classify_lem : (e : WebPushError) → is_permanent (classify web e) ≡ is_fatal e
  unfolding classify is_fatal
  classify_lem (other n) = refl
  classify_lem endpoint_not_valid = refl
  classify_lem endpoint_not_found = refl
  classify_lem invalid_uri = refl
  classify_lem invalid_crypto_keys = refl
  classify_lem missing_crypto_keys = refl

  -- A message could be signed, and what then failed is the subscription's own fault: the building of
  -- the message, the client, or the answer of the push service.
  pub record IsBlamed (self : VapidPushDelivery) (info : PushSubscription) (payload : Text)
      : Type 0 where
    pub builder : web.Builder
    pub keyed : web.from_base64 self.private_key info ≡ ok builder
    pub signature : web.Signature
    pub signed : web.sign (web.add_claim (codes "sub") self.subject builder) ≡ ok signature
    pub error : WebPushError
    pub fatal : is_fatal error ≡ true
    pub stage :
        (web.build info payload push_ttl_seconds signature ≡ err error)
        ⊎ ((message : web.Message) × (web.build info payload push_ttl_seconds signature
              ≡ ok message)
            × ((web.client ≡ err error)
                ⊎ ((web.client ≡ ok tt) × (web.send message self.timeout ≡ some (err error)))))

  blamed_sending :
      (self : VapidPushDelivery) (info : PushSubscription) (payload : Text) (message : web.Message)
      (answer : Option (Result WebPushError (Unit {0})))
      → web.send message self.timeout ≡ answer
      → is_permanent (sent web answer) ≡ true
      → (e : WebPushError) × (is_fatal e ≡ true) × (web.send message self.timeout ≡ some (err e))
  unfolding sent
  blamed_sending self info payload message none h p = cc
  blamed_sending self info payload message (some (ok u)) h p = cc
  blamed_sending self info payload message (some (err e)) h p = (e, sym (classify_lem e) ∙ p, h)

  -- What failed after the message was built.
  abbrev Sending : VapidPushDelivery → web.Message → WebPushError → Type 0
  Sending self message e =
      (web.client ≡ err e) ⊎ ((web.client ≡ ok tt) × (web.send message self.timeout ≡ some (err e)))

  blamed_client :
      (self : VapidPushDelivery) (info : PushSubscription) (payload : Text) (message : web.Message)
      (client : Result WebPushError (Unit {0}))
      → web.client ≡ client
      → is_permanent (send_by web self.timeout client message) ≡ true
      → (e : WebPushError) × (is_fatal e ≡ true) × Sending self message e
  unfolding send_by
  blamed_client self info payload message (err e) h p = (e, sym (classify_lem e) ∙ p, inl h)
  blamed_client self info payload message (ok u) h p =
      let (e, f, k) =
        blamed_sending self info payload message (web.send message self.timeout) refl p in
      (e, f, inr (h, k))

  IsBlamed-built :
      (self : VapidPushDelivery) (info : PushSubscription) (payload : Text) (b : web.Builder)
      (signature : web.Signature) (built : Result WebPushError web.Message)
      → web.from_base64 self.private_key info ≡ ok b
      → web.sign (web.add_claim (codes "sub") self.subject b) ≡ ok signature
      → web.build info payload push_ttl_seconds signature ≡ built
      → is_permanent (send_built web self.timeout built) ≡ true
      → IsBlamed self info payload
  unfolding send_built
  IsBlamed-built self info payload b signature (err e) k g h p = record {
    builder = b;
    keyed = k;
    signature = signature;
    signed = g;
    error = e;
    fatal = sym (classify_lem e) ∙ p;
    stage = inl h;
  }
  IsBlamed-built self info payload b signature (ok message) k g h p =
      let (e, f, c) = blamed_client self info payload message web.client refl p in
      record {
        builder = b;
        keyed = k;
        signature = signature;
        signed = g;
        error = e;
        fatal = f;
        stage = inr (message, h, c);
      }

  IsBlamed-signed :
      (self : VapidPushDelivery) (info : PushSubscription) (payload : Text) (b : web.Builder)
      (signature : Result WebPushError web.Signature)
      → web.from_base64 self.private_key info ≡ ok b
      → web.sign (web.add_claim (codes "sub") self.subject b) ≡ signature
      → is_permanent (send_signed web self.timeout info payload signature) ≡ true
      → IsBlamed self info payload
  unfolding send_signed
  IsBlamed-signed self info payload b (err e) k g p = cc
  IsBlamed-signed self info payload b (ok signature) k g p =
      IsBlamed-built self info payload b signature _ k g refl p

  IsBlamed-claimed :
      (self : VapidPushDelivery) (info : PushSubscription) (payload : Text)
      (b : Result WebPushError web.Builder)
      → web.from_base64 self.private_key info ≡ b
      → is_permanent (send_claimed web self info payload b) ≡ true
      → IsBlamed self info payload
  unfolding send_claimed
  IsBlamed-claimed self info payload (err e) k p = cc
  IsBlamed-claimed self info payload (ok b) k p = IsBlamed-signed self info payload b _ k refl p

  -- A delivery that fails for good is to blame on the subscription.
  deliver-IsBlamed :
      (self : VapidPushDelivery) (info : PushSubscription) (payload : Text)
      → is_permanent (deliver web self info payload) ≡ true
      → IsBlamed self info payload
  unfolding deliver
  deliver-IsBlamed self info payload p = IsBlamed-claimed self info payload _ refl p

  -- Deliveries to receivers none of which is to blame, that is, where the key makes no signature,
  -- the push service does not answer in time, or what failed is not an error of the subscription,
  -- leave the receivers as they were: none of them is disabled.
  pub receivers-push_all :
      (self : VapidPushDelivery) (payload : Text) (ring_id : ℕ) (now : DateTime)
      (rs : List Receiver) (s : Relay)
      → All (λ r. ¬ (IsBlamed self (subscription_of r) payload)) rs
      → (push_all (λ r. deliver web self (subscription_of r) payload) ring_id now rs s).receivers
        ≡ s.receivers
  unfolding push_all record_outcome
  receivers-push_all self payload ring_id now [] s h = refl
  receivers-push_all self payload ring_id now (r ∷ rs) s h =
      elim (Bool-cases (is_permanent (deliver web self (subscription_of r) payload))) [
        | inl y ↦ absurd (h.0 (deliver-IsBlamed self (subscription_of r) payload y))
        | inr n ↦ receivers-push_all self payload ring_id now rs _ h.1 ∙ rw n refl
      ]
