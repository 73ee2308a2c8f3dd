-- ===== src/Relay/History/Moves.antt =====
-- Handlers that only let the tables move on, by their parts.
use shellbell.Base.{◌≡◌, List, [], ◌∷◌, ◌++◌, Option, none, some, Bool, true, false, if◌then◌else◌}
use shellbell.Base.Result.{Result, ok, err}
use shellbell.Relay.State.{
  AppError, OwnerSession, Source, Pairing, Receiver, PullReceiver, Relay, Handler, continue, ◌>>=◌,
  ◌>>◌, pure, fail, lift, gets, update, require, ensure, update_where,
}
use shellbell.Relay.History.{
  Advances, SessionLater, SourceLater, PairingLater, ReceiverLater, PullReceiverLater, Evolves,
  Evolves-trans, Evolves-refl, Advances-append, Advances-update_where, session_same, source_same,
  pairing_same, receiver_same, pull_receiver_same,
}

-- Whatever its result, the handler leaves a later state.
pub record Moves {A : Type 0} (m : Handler A) : Type 0 where
  pub at : (s : Relay) → Evolves s (m s).0

module _ {A : Type 0} where
  pub Moves-pure : (a : A) → Moves (pure a)
  unfolding pure
  Moves-pure a = record { at = Evolves-refl }

  pub Moves-fail : (e : AppError) → Moves (fail {A = A} e)
  unfolding fail
  Moves-fail e = record { at = Evolves-refl }

  pub Moves-lift : (r : Result AppError A) → Moves (lift r)
  unfolding lift
  Moves-lift r = record { at = Evolves-refl }

  pub Moves-gets : (f : Relay → A) → Moves (gets f)
  unfolding gets
  Moves-gets f = record { at = Evolves-refl }

  pub Moves-require : (o : Option A) (e : AppError) → Moves (require o e)
  unfolding require
  Moves-require none e = record { at = Evolves-refl }
  Moves-require (some a) e = record { at = Evolves-refl }

  pub Moves-if : (b : Bool) (m n : Handler A) → Moves m → Moves n → Moves (if b then m else n)
  Moves-if true m n h k = h
  Moves-if false m n h k = k

pub Moves-ensure : (b : Bool) (e : AppError) → Moves (ensure b e)
unfolding ensure
Moves-ensure true e = record { at = Evolves-refl }
Moves-ensure false e = record { at = Evolves-refl }

pub Moves-update : (f : Relay → Relay) → ((s : Relay) → Evolves s (f s)) → Moves (update f)
unfolding update
Moves-update f h = record { at = h }

continue-Evolves :
    {A B : Type 0} (r : Result AppError A) (f : A → Handler B) (s t : Relay)
    → Evolves s t
    → ((a : A) → Moves (f a))
    → Evolves s (continue r f t).0
continue-Evolves (ok a) f s t h k = Evolves-trans s t (f a t).0 h ((k a).at t)
continue-Evolves (err e) f s t h k = h

module _ {A B : Type 0} where
  pub Moves-bind :
      (m : Handler A) (f : A → Handler B) → Moves m → ((a : A) → Moves (f a)) → Moves (m >>= f)
  unfolding ◌>>=◌
  Moves-bind m f h k = record { at = λ s. continue-Evolves (m s).1 f s (m s).0 (h.at s) k }

  pub Moves-then : (m : Handler A) (n : Handler B) → Moves m → Moves n → Moves (m >> n)
  unfolding ◌>>◌ ◌>>=◌
  Moves-then m n h k = record {
    at = λ s. continue-Evolves (m s).1 (λ _. n) s (m s).0 (h.at s) (λ _. k);
  }

pub ruleset moves = (
  Moves-pure, Moves-fail, Moves-lift, Moves-gets, Moves-require, Moves-ensure, Moves-if, Moves-bind,
  Moves-then,
)

pub owner_sessions-Evolves :
    (s : Relay) (xs : List OwnerSession)
    → Advances SessionLater s.owner_sessions xs
    → Evolves s (record s { owner_sessions = xs })
owner_sessions-Evolves s xs h =
    let e = Evolves-refl s in
    record {
      bootstrapped = e.bootstrapped;
      sessions = h;
      sources = e.sources;
      pairings = e.pairings;
      receivers = e.receivers;
      pull_receivers = e.pull_receivers;
      ring_ids = e.ring_ids;
    }

pub sources-Evolves :
    (s : Relay) (xs : List Source)
    → Advances SourceLater s.sources xs
    → Evolves s (record s { sources = xs })
sources-Evolves s xs h =
    let e = Evolves-refl s in
    record {
      bootstrapped = e.bootstrapped;
      sessions = e.sessions;
      sources = h;
      pairings = e.pairings;
      receivers = e.receivers;
      pull_receivers = e.pull_receivers;
      ring_ids = e.ring_ids;
    }

pub pairings-Evolves :
    (s : Relay) (xs : List Pairing)
    → Advances PairingLater s.pairings xs
    → Evolves s (record s { pairings = xs })
pairings-Evolves s xs h =
    let e = Evolves-refl s in
    record {
      bootstrapped = e.bootstrapped;
      sessions = e.sessions;
      sources = e.sources;
      pairings = h;
      receivers = e.receivers;
      pull_receivers = e.pull_receivers;
      ring_ids = e.ring_ids;
    }

pub receivers-Evolves :
    (s : Relay) (xs : List Receiver)
    → Advances ReceiverLater s.receivers xs
    → Evolves s (record s { receivers = xs })
receivers-Evolves s xs h =
    let e = Evolves-refl s in
    record {
      bootstrapped = e.bootstrapped;
      sessions = e.sessions;
      sources = e.sources;
      pairings = e.pairings;
      receivers = h;
      pull_receivers = e.pull_receivers;
      ring_ids = e.ring_ids;
    }

pub pull_receivers-Evolves :
    (s : Relay) (xs : List PullReceiver)
    → Advances PullReceiverLater s.pull_receivers xs
    → Evolves s (record s { pull_receivers = xs })
pull_receivers-Evolves s xs h =
    let e = Evolves-refl s in
    record {
      bootstrapped = e.bootstrapped;
      sessions = e.sessions;
      sources = e.sources;
      pairings = e.pairings;
      receivers = e.receivers;
      pull_receivers = h;
      ring_ids = e.ring_ids;
    }

pub add_session-Moves :
    (x : OwnerSession)
    → Moves (update (λ s. record s { owner_sessions = s.owner_sessions ++ (x ∷ []) }))
add_session-Moves x = Moves-update _ (λ s.
    owner_sessions-Evolves s _
      (Advances-append SessionLater session_same s.owner_sessions (x ∷ [])))

pub change_sessions-Moves :
    (p : OwnerSession → Bool) (f : OwnerSession → OwnerSession)
    → ((x : OwnerSession) → p x ≡ true → SessionLater x (f x))
    → Moves (update (λ s. record s { owner_sessions = update_where p f s.owner_sessions }))
change_sessions-Moves p f h = Moves-update _ (λ s.
    owner_sessions-Evolves s _
      (Advances-update_where SessionLater session_same p f h s.owner_sessions))

pub add_source-Moves :
    (x : Source) → Moves (update (λ s. record s { sources = s.sources ++ (x ∷ []) }))
add_source-Moves x =
    Moves-update _
      (λ s. sources-Evolves s _ (Advances-append SourceLater source_same s.sources (x ∷ [])))

pub change_sources-Moves :
    (p : Source → Bool) (f : Source → Source)
    → ((x : Source) → p x ≡ true → SourceLater x (f x))
    → Moves (update (λ s. record s { sources = update_where p f s.sources }))
change_sources-Moves p f h =
    Moves-update _
      (λ s. sources-Evolves s _ (Advances-update_where SourceLater source_same p f h s.sources))

pub add_pairing-Moves :
    (x : Pairing) → Moves (update (λ s. record s { pairings = s.pairings ++ (x ∷ []) }))
add_pairing-Moves x =
    Moves-update _
      (λ s. pairings-Evolves s _ (Advances-append PairingLater pairing_same s.pairings (x ∷ [])))

pub change_pairings-Moves :
    (p : Pairing → Bool) (f : Pairing → Pairing)
    → ((x : Pairing) → p x ≡ true → PairingLater x (f x))
    → Moves (update (λ s. record s { pairings = update_where p f s.pairings }))
change_pairings-Moves p f h =
    Moves-update _
      (λ s. pairings-Evolves s _ (Advances-update_where PairingLater pairing_same p f h s.pairings))

pub change_receivers-Moves :
    (p : Receiver → Bool) (f : Receiver → Receiver)
    → ((x : Receiver) → p x ≡ true → ReceiverLater x (f x))
    → Moves (update (λ s. record s { receivers = update_where p f s.receivers }))
change_receivers-Moves p f h = Moves-update _ (λ s.
    receivers-Evolves s _ (Advances-update_where ReceiverLater receiver_same p f h s.receivers))

pub add_pull_receiver-Moves :
    (x : PullReceiver)
    → Moves (update (λ s. record s { pull_receivers = s.pull_receivers ++ (x ∷ []) }))
add_pull_receiver-Moves x = Moves-update _ (λ s.
    pull_receivers-Evolves s _
      (Advances-append PullReceiverLater pull_receiver_same s.pull_receivers (x ∷ [])))

pub change_pull_receivers-Moves :
    (p : PullReceiver → Bool) (f : PullReceiver → PullReceiver)
    → ((x : PullReceiver) → p x ≡ true → PullReceiverLater x (f x))
    → Moves (update (λ s. record s { pull_receivers = update_where p f s.pull_receivers }))
change_pull_receivers-Moves p f h = Moves-update _ (λ s.
    pull_receivers-Evolves s _
      (Advances-update_where PullReceiverLater pull_receiver_same p f h s.pull_receivers))
