-- ===== src/Relay/Pairing/Tokens.antt =====
-- The token that a poll gives out.
use mathlib.Core.Option.{some-injective}
use shellbell.Base.{
  ℕ, ◌≡◌, refl, inl, inr, List, [], ◌∷◌, Option, none, some, Bool, true, false, not, ◌&&◌, any,
  is_some, arith, Bool-cases, Option-cases, sym, ◌∙◌,
}
use shellbell.Base.Result.{Result, ok, err}
use shellbell.Base.Text.{Text}
use shellbell.Activity.Session.{Uuid}
use shellbell.Core.{hash_secret}
use shellbell.Relay.State.{
  DateTime, AppError, Relay, Source, Pairing, PairingStatus, pending, approved, rejected, expired,
  first, continue, pure, not_found, update_where, ◌>>=◌, ◌>>◌, fail, lift, gets, update, require,
  ensure,
}
use shellbell.Relay.Pairing.{
  PairingPollResponse, has_id, is_over, expire, give_token, token_for, poll_pairing, source_has_id,
  is_pending,
}

abbrev pub token_of : Result AppError PairingPollResponse → Option Text
token_of (ok r) = r.source_token
token_of (err e) = none

abbrev answer : Pairing → Option Text → PairingPollResponse
answer row token = record { status = row.status; source_id = row.source_id; source_token = token }

abbrev given : Result AppError (Option Text) → Option Text
given (ok t) = t
given (err e) = none

-- An UPDATE whose rows fail its own condition afterwards leaves no row that satisfies it.
none_left :
    {A : Type 0} (p : A → Bool) (f : A → A) (xs : List A)
    → ((x : A) → p (f x) ≡ false)
    → any p (update_where p f xs) ≡ false
unfolding any
none_left p f [] h = refl
none_left p f (x ∷ xs) h = ground (arith, h x, none_left p f xs h)

-- The row that an UPDATE of its own row leaves, and the same for a pairing whose time is over.
first-update :
    {A : Type 0} (p q : A → Bool) (f : A → A) (xs : List A) (row : A)
    → ((x : A) → p (f x) ≡ p x)
    → first p xs ≡ some row
    → q row ≡ true
    → first p (update_where (λ x. p x && q x) f xs) ≡ some (f row)
first-update p q f [] row k e y = cc
first-update p q f (x ∷ xs) row k e y = elim (Bool-cases (p x)) [
  | inl b ↦
      let same = some-injective x row (sym (rw b refl) ∙ e) in
      rw b (rw same (rw y (rw (k row) (rw (sym same) (rw b refl)))))
  | inr b ↦ rw b (rw b (first-update p q f xs row k (sym (rw b refl) ∙ e) y))
]

first-expire :
    (id : Uuid) (now : DateTime) (rows : List Pairing) (row : Pairing)
    → first (has_id id) rows ≡ some row
    → is_over now row ≡ true
    → first (has_id id) (update_where (λ p. has_id id p && is_pending p.status) (expire now) rows)
      ≡ some (expire now row)
first-expire id now rows row e y =
    first-update (has_id id) (λ p. is_pending p.status) (expire now) rows row (λ x. refl) e
      (ground arith)

module _ (sha256 : Text → List ℕ) where
  -- After a source was asked for its token, it has one.
  has_token :
      (source : Uuid) (raw : Text) (rows : List Source)
      → any
          (λ row. source_has_id source row && not (is_some row.token_hash))
          (update_where
            (λ row. source_has_id source row && not (is_some row.token_hash))
            (λ row. record row { token_hash = some (hash_secret sha256 raw) })
            rows)
        ≡ false
  has_token source raw rows =
      none_left (λ (row : Source). source_has_id source row && not (is_some row.token_hash))
        (λ (row : Source). record row { token_hash = some (hash_secret sha256 raw) }) rows
        (λ x. ground arith)

  token_for_twice :
      (status : PairingStatus) (source : Option Uuid) (raw raw' : Text) (s : Relay)
      → given (token_for sha256 status source raw' (token_for sha256 status source raw s).0).1
        ≡ none
  unfolding token_for ◌>>=◌ ◌>>◌ pure fail lift gets update require ensure
  token_for_twice approved none raw raw' s = refl
  token_for_twice approved (some id) raw raw' s = rw (has_token id raw s.sources) refl
  token_for_twice pending source raw raw' s = refl
  token_for_twice rejected source raw raw' s = refl
  token_for_twice expired source raw raw' s = refl

  pairings-token_for :
      (status : PairingStatus) (source : Option Uuid) (raw : Text) (s : Relay)
      → (token_for sha256 status source raw s).0.pairings ≡ s.pairings
  unfolding token_for give_token ◌>>=◌ ◌>>◌ pure fail lift gets update require ensure
  pairings-token_for approved none raw s = refl
  pairings-token_for approved (some id) raw s = refl
  pairings-token_for pending source raw s = refl
  pairings-token_for rejected source raw s = refl
  pairings-token_for expired source raw s = refl

  answers :
      (f : Option Text → PairingPollResponse) (r : Result AppError (Option Text)) (s : Relay)
      → ((x : Option Text) → (f x).source_token ≡ x)
      → token_of (continue r (λ x. pure (f x)) s).1 ≡ given r
  unfolding pure
  answers f (ok x) s h = h x
  answers f (err e) s h = refl

  state_after :
      (f : Option Text → PairingPollResponse) (r : Result AppError (Option Text)) (s : Relay)
      → (continue r (λ x. pure (f x)) s).0 ≡ s
  unfolding pure
  state_after f (ok x) s = refl
  state_after f (err e) s = refl

  -- A poll gives no token where the pairing's own status gives none.
  poll_none :
      (id : Uuid) (raw : Text) (now : DateTime) (s : Relay) (row : Pairing)
      → first (has_id id) s.pairings ≡ some row
      → given (token_for sha256 row.status row.source_id raw s).1 ≡ none
      → token_of (poll_pairing sha256 id raw now s).1 ≡ none
  unfolding poll_pairing ◌>>=◌ ◌>>◌ pure fail lift gets update require ensure
  poll_none id raw now s row e h = rw e (elim (Bool-cases (is_over now row)) [
    | inl y ↦ rw y refl
    | inr z ↦ rw z (
        answers (answer row) (token_for sha256 row.status row.source_id raw s).1
          (token_for sha256 row.status row.source_id raw s).0 (λ x. refl)
        ∙ h)
  ])

  poll_over :
      (id : Uuid) (raw : Text) (now : DateTime) (s : Relay) (row : Pairing)
      → first (has_id id) s.pairings ≡ some row
      → is_over now row ≡ true
      → (poll_pairing sha256 id raw now s).0.pairings
        ≡ update_where (λ p. has_id id p && is_pending p.status) (expire now) s.pairings
  unfolding poll_pairing ◌>>=◌ ◌>>◌ pure fail lift gets update require ensure
  poll_over id raw now s row e y = rw e (rw y refl)

  poll_open :
      (id : Uuid) (raw : Text) (now : DateTime) (s : Relay) (row : Pairing)
      → first (has_id id) s.pairings ≡ some row
      → is_over now row ≡ false
      → (poll_pairing sha256 id raw now s).0 ≡ (token_for sha256 row.status row.source_id raw s).0
  unfolding poll_pairing ◌>>=◌ ◌>>◌ pure fail lift gets update require ensure
  poll_open id raw now s row e z = rw e (
      rw z (
        state_after (answer row) (token_for sha256 row.status row.source_id raw s).1
          (token_for sha256 row.status row.source_id raw s).0))

  poll_missing :
      (id : Uuid) (raw : Text) (now : DateTime) (s : Relay)
      → first (has_id id) s.pairings ≡ none
      → poll_pairing sha256 id raw now s ≡ (s, err not_found)
  unfolding poll_pairing ◌>>=◌ ◌>>◌ pure fail lift gets update require ensure
  poll_missing id raw now s n = rw n refl

  -- Of two polls of one pairing, one right after the other, the second gives no token, whatever the
  -- first one gave and whenever they come.
  pub poll_once :
      (id : Uuid) (raw raw' : Text) (now now' : DateTime) (s : Relay)
      → token_of (poll_pairing sha256 id raw' now' (poll_pairing sha256 id raw now s).0).1 ≡ none
  unfolding token_for ◌>>=◌ ◌>>◌ pure fail lift gets update require ensure
  poll_once id raw raw' now now' s = elim (Option-cases (first (has_id id) s.pairings)) [
    | inl n ↦ rw (poll_missing id raw now s n) (rw (poll_missing id raw' now' s n) refl)
    | inr (row, e) ↦ elim (Bool-cases (is_over now row)) [
      | inl y ↦
          poll_none id raw' now' _ (expire now row)
            (rw (poll_over id raw now s row e y) (first-expire id now s.pairings row e y)) refl
      | inr z ↦ rw (poll_open id raw now s row e z) (
          poll_none id raw' now' _ row (rw (pairings-token_for row.status row.source_id raw s) e)
            (token_for_twice row.status row.source_id raw raw' s))
    ]
  ]
