-- ===== src/Relay/State.antt =====
-- The relay's tables (crates/shellbell-relay/migrations), its errors, and the shape of a handler:
-- a function of the state that returns the new state and a result, since what was written before an
-- error stays written. A time is a number of nanoseconds. A handler reads the clock once.
use mathlib.Core.List.{Perm}
use shellbell.Base.{All, ℕ, List, [], ◌∷◌, Option, none, some, Bool, if◌then◌else◌}
use shellbell.Base.Int.{ℤ, ◌≤ℤ◌}
use shellbell.Base.Result.{Result, ok, err}
use shellbell.Base.Text.{Text}
use shellbell.Activity.Session.{Uuid}
use shellbell.Protocol.{Invalid}

abbrev pub DateTime : Type 0
DateTime = ℤ

-- `AppError`, by its constructors.
pub data AppError : Type 0 where
  bad : Invalid → AppError
  bad_cursor bad_retention : AppError
  unauthorized : AppError
  csrf_missing csrf_mismatch : AppError
  not_found : AppError
  already_bootstrapped bootstrap_required already_decided not_pending : AppError
  rate_limited : AppError
  db : AppError

abbrev pub status_code : AppError → ℕ
status_code (bad _) = 400
status_code bad_cursor = 400
status_code bad_retention = 400
status_code unauthorized = 401
status_code csrf_missing = 403
status_code csrf_mismatch = 403
status_code not_found = 404
status_code already_bootstrapped = 409
status_code bootstrap_required = 409
status_code already_decided = 409
status_code not_pending = 409
status_code rate_limited = 429
status_code db = 500

-- What a handler reads of a request's headers.
pub record Headers : Type 0 where
  pub cookie : Option Text
  pub csrf_token : Option Text
  pub authorization : Option Text
  pub forwarded_for : Option Text

pub record OwnerSession : Type 0 where
  pub id : Uuid
  pub token_hash : Text
  pub created_at : DateTime
  pub expires_at : DateTime
  pub revoked_at : Option DateTime

pub record Source : Type 0 where
  pub id : Uuid
  pub display_name : Text
  pub token_hash : Option Text
  pub created_at : DateTime
  pub last_seen_at : Option DateTime
  pub revoked_at : Option DateTime

pub data PairingStatus : Type 0 where
  pending approved rejected expired : PairingStatus

pub record Pairing : Type 0 where
  pub id : Uuid
  pub code : Text
  pub display_name : Text
  pub status : PairingStatus
  pub created_at : DateTime
  pub expires_at : DateTime
  pub decided_at : Option DateTime
  pub source_id : Option Uuid

pub record Receiver : Type 0 where
  pub id : Uuid
  pub name : Text
  pub tags : List Text
  pub endpoint : Text
  pub p256dh : Text
  pub auth : Text
  pub enabled : Bool
  pub created_at : DateTime
  pub updated_at : DateTime
  pub revoked_at : Option DateTime

pub record PullReceiver : Type 0 where
  pub id : Uuid
  pub name : Text
  pub tags : List Text
  pub token_hash : Option Text
  pub enabled : Bool
  pub acked_ring_id : ℕ
  pub created_at : DateTime
  pub updated_at : DateTime
  pub revoked_at : Option DateTime

pub record Ring : Type 0 where
  pub id : ℕ
  pub event_id : Uuid
  pub source_id : Uuid
  pub source_name : Text
  pub message : Option Text
  pub target_tags : List Text
  pub created_at : DateTime
  pub matched_receivers : ℕ

pub data DeliveryStatus : Type 0 where
  queued delivered transient_failure permanent_failure : DeliveryStatus

pub record Delivery : Type 0 where
  pub ring_id : ℕ
  pub receiver_id : Uuid
  pub attempted_at : Option DateTime
  pub status : DeliveryStatus
  pub diagnostic : Option Text

-- One counter of the rate limiter: its key, the start of its window and the calls in it.
pub record Entry : Type 0 where
  pub key : Text
  pub start : ℕ
  pub count : ℕ

-- `last_ring_id` is the AUTOINCREMENT counter of `rings`.
pub record Relay : Type 0 where
  pub bootstrapped_at : Option DateTime
  pub owner_sessions : List OwnerSession
  pub sources : List Source
  pub pairings : List Pairing
  pub receivers : List Receiver
  pub pull_receivers : List PullReceiver
  pub rings : List Ring
  pub last_ring_id : ℕ
  pub deliveries : List Delivery
  pub history_retention_days : ℕ
  pub entries : List Entry

abbrev pub Handler : Type 0 → Type 0
Handler A = Relay → Relay × Result AppError A

abbrev pub continue : {A B : Type 0} → Result AppError A → (A → Handler B) → Handler B
continue (ok a) f s = f a s
continue (err e) f s = (s, err e)

infixl 5 ◌>>=◌ ◌>>◌
unfoldable pub ◌>>=◌ : {A B : Type 0} → Handler A → (A → Handler B) → Handler B
◌>>=◌ m f s = continue (m s).1 f (m s).0

unfoldable pub ◌>>◌ : {A B : Type 0} → Handler A → Handler B → Handler B
m >> k = m >>= λ _. k

unfoldable pub pure : {A : Type 0} → A → Handler A
pure a s = (s, ok a)

unfoldable pub fail : {A : Type 0} → AppError → Handler A
fail e s = (s, err e)

unfoldable pub lift : {A : Type 0} → Result AppError A → Handler A
lift r s = (s, r)

unfoldable pub gets : {A : Type 0} → (Relay → A) → Handler A
gets f s = (s, ok (f s))

unfoldable pub update : (Relay → Relay) → Handler (Unit {0})
update f s = (f s, ok tt)

-- `option.ok_or_else(…)?`
unfoldable pub require : {A : Type 0} → Option A → AppError → Handler A
require none e s = (s, err e)
require (some a) e s = (s, ok a)

-- `if !test { return Err(…) }`
unfoldable pub ensure : Bool → AppError → Handler (Unit {0})
ensure b e s = if b then (s, ok tt) else (s, err e)

-- Every element is related to all behind it.
abbrev pub InOrder {ℓ} : {A : Type ℓ} → (A → A → Type 0) → List A → Type ℓ
InOrder R [] = Unit
InOrder R (x ∷ xs) = All (R x) xs × InOrder R xs

-- What `ORDER BY` a time gives; rows with one time come in an order of the database's own.
pub record TimeOrder : Type 1 where
  pub oldest : {A : Type 0} → (A → DateTime) → List A → List A
  pub newest : {A : Type 0} → (A → DateTime) → List A → List A
  pub oldest_perm : {A : Type 0} (time : A → DateTime) (xs : List A) → Perm (oldest time xs) xs
  pub newest_perm : {A : Type 0} (time : A → DateTime) (xs : List A) → Perm (newest time xs) xs
  pub oldest_order :
      {A : Type 0} (time : A → DateTime) (xs : List A)
      → InOrder (λ a b. time a ≤ℤ time b) (oldest time xs)
  pub newest_order :
      {A : Type 0} (time : A → DateTime) (xs : List A)
      → InOrder (λ a b. time b ≤ℤ time a) (newest time xs)

-- UPDATE with a WHERE clause.
abbrev pub update_where {ℓ} : {A : Type ℓ} → (A → Bool) → (A → A) → List A → List A
update_where p f [] = []
update_where p f (x ∷ xs) = (if p x then f x else x) ∷ update_where p f xs

-- The first row that passes a test.
abbrev pub first {ℓ} : {A : Type ℓ} → (A → Bool) → List A → Option A
first p [] = none
first p (x ∷ xs) = if p x then some x else first p xs
