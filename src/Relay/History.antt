-- ===== src/Relay/History.antt =====
-- How the relay's tables may change over time.
pub mod Moves
pub mod Auth
pub mod Owner
pub mod Pairings
pub mod Receivers
pub mod Rings
pub mod Requests
pub mod Stays
use shellbell.Base.{
  ℕ, ◌≡◌, ◌≤◌, refl, ◌∙◌, List, [], ◌∷◌, ◌++◌, Bool, true, false, is_some, if◌then◌else◌, arith,
}
use shellbell.Relay.State.{
  OwnerSession, Source, Pairing, Receiver, PullReceiver, Relay, update_where,
}
use shellbell.Relay.Pairing.{is_pending}

-- Each row of a table stands, in its later form, at its place in the later table, which may have more
-- rows behind.
abbrev pub Advances {ℓ} : {A : Type ℓ} → (A → A → Type 0) → List A → List A → Type 0
Advances R [] ys = Unit
Advances R (x ∷ xs) [] = ⊥
Advances R (x ∷ xs) (y ∷ ys) = R x y × Advances R xs ys

-- A session keeps its token and its end, and stays revoked.
abbrev pub SessionLater : OwnerSession → OwnerSession → Type 0
SessionLater x y =
    (y.id ≡ x.id)
    × (y.token_hash ≡ x.token_hash)
    × (y.expires_at ≡ x.expires_at)
    × (is_some x.revoked_at ≡ true → is_some y.revoked_at ≡ true)

-- A source keeps its identity, and its revocation.
abbrev pub SourceLater : Source → Source → Type 0
SourceLater x y =
    (y.id ≡ x.id)
    × (y.created_at ≡ x.created_at)
    × (is_some x.revoked_at ≡ true → y.revoked_at ≡ x.revoked_at)

-- A pairing that is no longer pending stays as it is.
abbrev pub PairingLater : Pairing → Pairing → Type 0
PairingLater x y =
    (y.id ≡ x.id)
    × (y.code ≡ x.code)
    × (y.display_name ≡ x.display_name)
    × (is_pending x.status ≡ false → y ≡ x)

abbrev pub ReceiverLater : Receiver → Receiver → Type 0
ReceiverLater x y = (y.id ≡ x.id) × (y.endpoint ≡ x.endpoint) × (y.created_at ≡ x.created_at)

-- A pull receiver never goes back to rings that it has acknowledged, and stays revoked.
abbrev pub PullReceiverLater : PullReceiver → PullReceiver → Type 0
PullReceiverLater x y =
    (y.id ≡ x.id)
    × (x.acked_ring_id ≤ y.acked_ring_id)
    × (is_some x.revoked_at ≡ true → y.revoked_at ≡ x.revoked_at)

pub record Evolves (s t : Relay) : Type 0 where
  pub bootstrapped : is_some s.bootstrapped_at ≡ true → is_some t.bootstrapped_at ≡ true
  pub sessions : Advances SessionLater s.owner_sessions t.owner_sessions
  pub sources : Advances SourceLater s.sources t.sources
  pub pairings : Advances PairingLater s.pairings t.pairings
  pub receivers : Advances ReceiverLater s.receivers t.receivers
  pub pull_receivers : Advances PullReceiverLater s.pull_receivers t.pull_receivers
  pub ring_ids : s.last_ring_id ≤ t.last_ring_id

module _ {ℓ} {A : Type ℓ} (R : A → A → Type 0) where
  pub Advances-append : ((x : A) → R x x) → (xs ys : List A) → Advances R xs (xs ++ ys)
  Advances-append same [] ys = tt
  Advances-append same (x ∷ xs) ys = (same x, Advances-append same xs ys)

  pub Advances-refl : ((x : A) → R x x) → (xs : List A) → Advances R xs xs
  Advances-refl same [] = tt
  Advances-refl same (x ∷ xs) = (same x, Advances-refl same xs)

  pub Advances-trans :
      ((x y z : A) → R x y → R y z → R x z)
      → (xs ys zs : List A) → Advances R xs ys
      → Advances R ys zs
      → Advances R xs zs
  Advances-trans join [] ys zs h k = tt
  Advances-trans join (x ∷ xs) (y ∷ ys) (z ∷ zs) h k =
      (join x y z h.0 k.0, Advances-trans join xs ys zs h.1 k.1)
  Advances-trans join (x ∷ xs) (y ∷ ys) [] h k = absurd k
  Advances-trans join (x ∷ xs) [] zs h k = absurd h

  pub Advances-update_where :
      ((x : A) → R x x)
      → (p : A → Bool) (f : A → A) → ((x : A) → p x ≡ true → R x (f x))
      → (xs : List A) → Advances R xs (update_where p f xs)
  Advances-update_where same p f later [] = tt
  Advances-update_where same p f later (x ∷ xs) =
      (one (p x) (later x), Advances-update_where same p f later xs)
    where
      one : (b : Bool) → (b ≡ true → R x (f x)) → R x (if b then f x else x)
      one true k = k refl
      one false k = same x

SessionLater-trans : (x y z : OwnerSession) → SessionLater x y → SessionLater y z → SessionLater x z
SessionLater-trans x y z h k = (k.0 ∙ h.0, k.1 ∙ h.1, k.2 ∙ h.2, λ r. k.3 (h.3 r))

SourceLater-trans : (x y z : Source) → SourceLater x y → SourceLater y z → SourceLater x z
SourceLater-trans x y z h k = (k.0 ∙ h.0, k.1 ∙ h.1, λ r. k.2 (rw (h.2 r) r) ∙ h.2 r)

PairingLater-trans : (x y z : Pairing) → PairingLater x y → PairingLater y z → PairingLater x z
PairingLater-trans x y z h k = (k.0 ∙ h.0, k.1 ∙ h.1, k.2 ∙ h.2, λ r. k.3 (rw (h.3 r) r) ∙ h.3 r)

ReceiverLater-trans : (x y z : Receiver) → ReceiverLater x y → ReceiverLater y z → ReceiverLater x z
ReceiverLater-trans x y z h k = (k.0 ∙ h.0, k.1 ∙ h.1, k.2 ∙ h.2)

PullReceiverLater-trans :
    (x y z : PullReceiver) → PullReceiverLater x y → PullReceiverLater y z → PullReceiverLater x z
PullReceiverLater-trans x y z h k =
    (k.0 ∙ h.0, omega (arith, h.1, k.1), λ r. k.2 (rw (h.2 r) r) ∙ h.2 r)

pub Evolves-trans : (s t u : Relay) → Evolves s t → Evolves t u → Evolves s u
Evolves-trans s t u h k = record {
  bootstrapped = λ b. k.bootstrapped (h.bootstrapped b);
  sessions =
      Advances-trans SessionLater SessionLater-trans s.owner_sessions t.owner_sessions
        u.owner_sessions h.sessions k.sessions;
  sources =
      Advances-trans SourceLater SourceLater-trans s.sources t.sources u.sources h.sources
        k.sources;
  pairings =
      Advances-trans PairingLater PairingLater-trans s.pairings t.pairings u.pairings h.pairings
        k.pairings;
  receivers =
      Advances-trans ReceiverLater ReceiverLater-trans s.receivers t.receivers u.receivers
        h.receivers k.receivers;
  pull_receivers =
      Advances-trans PullReceiverLater PullReceiverLater-trans s.pull_receivers t.pull_receivers
        u.pull_receivers h.pull_receivers k.pull_receivers;
  ring_ids = omega (arith, h.ring_ids, k.ring_ids);
}

pub session_same : (x : OwnerSession) → SessionLater x x
session_same x = (refl, refl, refl, λ r. r)

pub source_same : (x : Source) → SourceLater x x
source_same x = (refl, refl, λ r. refl)

pub pairing_same : (x : Pairing) → PairingLater x x
pairing_same x = (refl, refl, refl, λ r. refl)

pub receiver_same : (x : Receiver) → ReceiverLater x x
receiver_same x = (refl, refl, refl)

pub pull_receiver_same : (x : PullReceiver) → PullReceiverLater x x
pull_receiver_same x = (refl, omega arith, λ r. refl)

-- The tables of the rows stay; the others may change.
pub Evolves-same :
    (s t : Relay)
    → (is_some s.bootstrapped_at ≡ true → is_some t.bootstrapped_at ≡ true)
    → t.owner_sessions ≡ s.owner_sessions
    → t.sources ≡ s.sources
    → t.pairings ≡ s.pairings
    → t.receivers ≡ s.receivers
    → t.pull_receivers ≡ s.pull_receivers
    → s.last_ring_id ≤ t.last_ring_id
    → Evolves s t
Evolves-same s t b o so pa re pu r = record {
  bootstrapped = b;
  sessions = rw o (Advances-refl SessionLater session_same s.owner_sessions);
  sources = rw so (Advances-refl SourceLater source_same s.sources);
  pairings = rw pa (Advances-refl PairingLater pairing_same s.pairings);
  receivers = rw re (Advances-refl ReceiverLater receiver_same s.receivers);
  pull_receivers = rw pu (Advances-refl PullReceiverLater pull_receiver_same s.pull_receivers);
  ring_ids = r;
}

pub Evolves-refl : (s : Relay) → Evolves s s
Evolves-refl s = Evolves-same s s (λ b. b) refl refl refl refl refl (omega arith)
