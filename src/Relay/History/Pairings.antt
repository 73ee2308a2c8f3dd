-- ===== src/Relay/History/Pairings.antt =====
-- The handlers of pairings and sources.
use shellbell.Base.Int.{ltb_ℤ}
use shellbell.Base.{
  any, ℕ, ◌≡◌, refl, List, [], ◌∷◌, ◌++◌, Option, none, some, Bool, true, ◌&&◌, arith, Bool-cases,
  inl, inr,
}
use shellbell.Base.Text.{Text}
use shellbell.Activity.Session.{Uuid}
use shellbell.Relay.State.{
  TimeOrder, DateTime, Headers, Source, Pairing, Relay, update_where, PairingStatus, pending,
  approved, rejected, expired,
}
use shellbell.Relay.Pairing.{
  list_sources, has_id, source_has_id, is_pending, is_over, expire, decide, live, create_pairing,
  give_token, token_for, poll_pairing, list_pairings, approve, approve_pairing, reject_pairing,
  source_self, rename_source, revoke_source,
}
use shellbell.Relay.History.{
  Advances-append, Advances-update_where, SourceLater, PairingLater, source_same, pairing_same,
  Evolves, Evolves-trans,
}
use shellbell.Relay.History.Moves.{
  Moves, moves, change_sources-Moves, add_pairing-Moves, change_pairings-Moves, sources-Evolves,
  pairings-Evolves,
}
use shellbell.Relay.History.Auth.{limit_rate-Moves, owner_auth-Moves, source_auth-Moves}

-- Only a pending pairing is changed.
expired_later :
    (id : Uuid) (now : DateTime) (p : Pairing)
    → (has_id id p && is_pending p.status) ≡ true
    → PairingLater p (expire now p)
expired_later id now p h = (refl, refl, refl, λ n. ground (arith, h, n))

over_later : (now : DateTime) (p : Pairing) → is_over now p ≡ true → PairingLater p (expire now p)
over_later now p h = (refl, refl, refl, λ n. ground (arith, h, n))

over_later_of :
    (id : Uuid) (now : DateTime) (p : Pairing)
    → (has_id id p && is_over now p) ≡ true
    → PairingLater p (expire now p)
over_later_of id now p h = (refl, refl, refl, λ n. ground (arith, h, n))

decided_later :
    (id : Uuid) (now : DateTime) (p : Pairing)
    → (has_id id p && is_pending p.status) ≡ true
    → PairingLater p (decide now p)
decided_later id now p h = (refl, refl, refl, λ n. ground (arith, h, n))

renamed_later :
    (id : Uuid) (name : Text) (x : Source)
    → source_has_id id x ≡ true
    → SourceLater x (record x { display_name = name })
renamed_later id name x h = (refl, refl, λ r. refl)

-- Only a source that is not revoked is revoked.
revoked_later :
    (id : Uuid) (now : DateTime) (x : Source)
    → live id x ≡ true
    → SourceLater x (record x { revoked_at = some now; token_hash = none })
revoked_later id now x h = (refl, refl, λ r. ground (arith, h, r))

abbrev is_open : Uuid → DateTime → Pairing → Bool
is_open id now p = has_id id p && is_pending p.status && ltb_ℤ now p.expires_at

approved_later :
    (id source_id : Uuid) (now : DateTime) (p : Pairing)
    → is_open id now p ≡ true
    → PairingLater p
        (record p { status = approved; decided_at = some now; source_id = some source_id })
approved_later id source_id now p h = (refl, refl, refl, λ n. ground (arith, h, n))

abbrev new_source : Uuid → Text → DateTime → Source
new_source source_id name now = record {
  id = source_id;
  display_name = name;
  token_hash = none;
  created_at = now;
  last_seen_at = none;
  revoked_at = none;
}

approved-Evolves :
    (id source_id : Uuid) (name : Text) (now : DateTime) (s : Relay)
    → Evolves s (record s {
      sources = s.sources ++ (new_source source_id name now ∷ []);
      pairings =
          update_where
            (is_open id now)
            (λ p. record p { status = approved; decided_at = some now; source_id = some source_id })
            s.pairings;
    })
approved-Evolves id source_id name now s =
    Evolves-trans s (record s { sources = s.sources ++ (new_source source_id name now ∷ []) }) _
      (sources-Evolves s _ (Advances-append SourceLater source_same s.sources _))
      (pairings-Evolves _ _ (
        Advances-update_where PairingLater pairing_same _ _ (approved_later id source_id now)
          s.pairings))

module _ (sha256 : Text → List ℕ) where
  pub create_pairing-Moves :
      (headers : Headers) (name : Text) (id : Uuid) (code : Text) (now : DateTime) (mono : ℕ)
      (ttl : DateTime)
      → Moves (create_pairing headers name id code now mono ttl)
  unfolding create_pairing
  create_pairing-Moves headers name id code now mono ttl =
      search (moves, limit_rate-Moves, add_pairing-Moves)

  give_token-Moves : (source : Uuid) (raw : Text) → Moves (give_token sha256 source raw)
  unfolding give_token
  give_token-Moves source raw = record {
    at = λ s. sources-Evolves s _ (
        Advances-update_where SourceLater source_same _ _ (λ x y. (refl, refl, λ r. refl))
          s.sources);
  }

  token_for-Moves :
      (status : PairingStatus) (source : Option Uuid) (raw : Text)
      → Moves (token_for sha256 status source raw)
  unfolding token_for
  token_for-Moves approved none raw = search moves
  token_for-Moves approved (some id) raw = search (moves, give_token-Moves)
  token_for-Moves pending source raw = search moves
  token_for-Moves rejected source raw = search moves
  token_for-Moves expired source raw = search moves

  pub poll_pairing-Moves :
      (id : Uuid) (raw : Text) (now : DateTime) → Moves (poll_pairing sha256 id raw now)
  unfolding poll_pairing
  poll_pairing-Moves id raw now =
      search (moves, token_for-Moves, change_pairings-Moves, expired_later id now)

  pub list_pairings-Moves :
      (order : TimeOrder) (headers : Headers) (now : DateTime)
      → Moves (list_pairings sha256 order headers now)
  unfolding list_pairings
  list_pairings-Moves order headers now =
      search (moves, owner_auth-Moves, change_pairings-Moves, over_later now)

  approve-Moves :
      (id source_id : Uuid) (name : Text) (now : DateTime)
      → Moves (approve sha256 id source_id name now)
  unfolding approve
  approve-Moves id source_id name now = record {
    at = λ s. elim (Bool-cases (any (λ p. is_open id now p) s.pairings)) [
      | inl y ↦ rw y (approved-Evolves id source_id name now s)
      | inr n ↦ rw n (
          pairings-Evolves s _
            (Advances-update_where PairingLater pairing_same _ _ (over_later_of id now) s.pairings))
    ];
  }

  pub approve_pairing-Moves :
      (headers : Headers) (id source_id : Uuid) (now : DateTime)
      → Moves (approve_pairing sha256 headers id source_id now)
  unfolding approve_pairing
  approve_pairing-Moves headers id source_id now = search (moves, owner_auth-Moves, approve-Moves)

  pub reject_pairing-Moves :
      (headers : Headers) (id : Uuid) (now : DateTime)
      → Moves (reject_pairing sha256 headers id now)
  unfolding reject_pairing
  reject_pairing-Moves headers id now =
      search (moves, owner_auth-Moves, change_pairings-Moves, decided_later id now)

  pub source_self-Moves : (headers : Headers) → Moves (source_self sha256 headers)
  unfolding source_self
  source_self-Moves headers = search (moves, source_auth-Moves)

  pub rename_source-Moves :
      (headers : Headers) (id : Uuid) (name : Text) (now : DateTime)
      → Moves (rename_source sha256 headers id name now)
  unfolding rename_source
  rename_source-Moves headers id name now =
      search (moves, owner_auth-Moves, change_sources-Moves, renamed_later id) depth 9

  pub revoke_source-Moves :
      (headers : Headers) (id : Uuid) (now : DateTime) → Moves (revoke_source sha256 headers id now)
  unfolding revoke_source
  revoke_source-Moves headers id now =
      search (moves, owner_auth-Moves, change_sources-Moves, revoked_later id now) depth 9

  pub list_sources-Moves :
      (order : TimeOrder) (headers : Headers) (now : DateTime)
      → Moves (list_sources sha256 order headers now)
  unfolding list_sources
  list_sources-Moves order headers now = search (moves, owner_auth-Moves)
