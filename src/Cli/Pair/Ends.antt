-- ===== src/Cli/Pair/Ends.antt =====
-- The end of the loop of `pair` (crates/shellbell-cli/src/main.rs).
use shellbell.Base.{
  ℕ, zero, suc, ◌+◌, ◌*◌, ◌≡◌, ◌≤◌, ◌≢◌, refl, inl, inr, Option, none, some, Bool, true, false, leb,
  if◌then◌else◌, arith, Bool-cases,
}
use shellbell.Base.Result.{Result, ok, err, map_err}
use shellbell.Base.Step.{map_error}
use shellbell.Base.Text.{Text}
use shellbell.Activity.Session.{Uuid}
use shellbell.Relay.State.{PairingStatus, pending, approved, rejected, expired}
use shellbell.Relay.Pairing.{PairingPollResponse}
use shellbell.Cli.Http.{HttpError}
use shellbell.Cli.Http.Retry.{get_json_retry_keeps}
use shellbell.Cli.Pair.{
  Url, PairError, out_of_rounds, not_saved, no_endpoint, http_failed, Pairer, poll_pairing_once,
  poll_url, save_credentials, keep_approved, by_status, after_poll, poll_round, poll_loop,
}

-- The clock never goes back, and a pause takes its time.
pub record IsTimely (p : Pairer) : Type 0 where
  pub get : (url : Url) (s : p.State) → p.now s ≤ p.now (p.get url s).0
  pub sleep : (ms : ℕ) (s : p.State) → p.now s + ms ≤ p.now (p.sleep ms s)

http_failed-differs :
    {A : Type 0} (r : Result HttpError A) → map_err http_failed r ≢ err out_of_rounds
http_failed-differs (ok a) h = cc
http_failed-differs (err e) h = cc

module _ (p : Pairer) where
  poll_pairing_once-differs :
      (url : Url) (s : p.State) → (poll_pairing_once p url s).1 ≢ err out_of_rounds
  unfolding poll_pairing_once map_error
  poll_pairing_once-differs url s = http_failed-differs _

  poll_pairing_once-now :
      (url : Url) (s : p.State) (time : ℕ)
      → IsTimely p
      → time ≤ p.now s
      → time ≤ p.now (poll_pairing_once p url s).0
  unfolding poll_pairing_once map_error
  poll_pairing_once-now url s time timely h =
      get_json_retry_keeps p.read_error p.read_poll (p.get url) p.sleep (λ t. time ≤ p.now t) s
        (λ t k. omega (arith, timely.get url t, k)) (λ ms t k. omega (arith, timely.sleep ms t, k))
        h

  keep_approved-differs :
      (url : Url) (id : Option Uuid) (token : Option Text) (s : p.State)
      → (keep_approved p url id token s).1 ≢ err out_of_rounds
  unfolding keep_approved save_credentials
  keep_approved-differs url none token s h = cc
  keep_approved-differs url (some id) none s h = cc
  keep_approved-differs url (some id) (some token) s h =
      either (p.save (record { relay_url = url; source_id = id; source_token = token }) s).1 h
    where
      either : (b : Bool) → (if b then ok tt else err not_saved) ≢ err out_of_rounds
      either true h = cc
      either false h = cc

  by_status-differs :
      (url : Url) (next : p.State → p.State × Result PairError (Unit {0}))
      (poll : PairingPollResponse) (status : PairingStatus) (s : p.State)
      → (next s).1 ≢ err out_of_rounds
      → (by_status p url next poll status s).1 ≢ err out_of_rounds
  unfolding by_status
  by_status-differs url next poll pending s k = k
  by_status-differs url next poll rejected s k = λ h. cc
  by_status-differs url next poll expired s k = λ h. cc
  by_status-differs url next poll approved s k =
      keep_approved-differs url poll.source_id poll.source_token s

  after_poll-differs :
      (url : Url) (next : p.State → p.State × Result PairError (Unit {0}))
      (r : p.State × Result PairError PairingPollResponse)
      → r.1 ≢ err out_of_rounds
      → (next r.0).1 ≢ err out_of_rounds
      → (after_poll p url next r).1 ≢ err out_of_rounds
  unfolding after_poll
  after_poll-differs url next (t, err e) h k = λ q. h (cc)
  after_poll-differs url next (t, ok poll) h k = by_status-differs url next poll poll.status t k

  after_poll-cong :
      (url : Url) (next next' : p.State → p.State × Result PairError (Unit {0}))
      (r : p.State × Result PairError PairingPollResponse)
      → next r.0 ≡ next' r.0
      → after_poll p url next r ≡ after_poll p url next' r
  unfolding after_poll
  after_poll-cong url next next' (t, err e) h = refl
  after_poll-cong url next next' (t, ok poll) h = settled poll.status
    where
      settled :
          (status : PairingStatus)
          → by_status p url next poll status t ≡ by_status p url next' poll status t
      settled pending = h
      settled rejected = refl
      settled expired = refl
      settled approved = refl

  poll_url-differs : (url : Url) (id : Uuid) → poll_url p url id ≢ err out_of_rounds
  unfolding poll_url
  poll_url-differs url id = either (p.join url _)
    where
      either :
          (found : Option Url)
          → elim found as (λ x. Result PairError Url) [ none ↦ err no_endpoint | some u ↦ ok u ]
            ≢ err out_of_rounds
      either none h = cc
      either (some u) h = cc

  round-cong :
      (url : Url) (next next' : p.State → p.State × Result PairError (Unit {0}))
      (found : Result PairError Url) (s : p.State)
      → ((u : Url) → next (poll_pairing_once p u s).0 ≡ next' (poll_pairing_once p u s).0)
      → poll_round p url next found s ≡ poll_round p url next' found s
  unfolding poll_round
  round-cong url next next' (err e) s k = refl
  round-cong url next next' (ok found) s k =
      after_poll-cong url next next' (poll_pairing_once p found s) (k found)

  round-differs :
      (url : Url) (next : p.State → p.State × Result PairError (Unit {0}))
      (found : Result PairError Url) (s : p.State)
      → found ≢ err out_of_rounds
      → ((u : Url) → (next (poll_pairing_once p u s).0).1 ≢ err out_of_rounds)
      → (poll_round p url next found s).1 ≢ err out_of_rounds
  unfolding poll_round
  round-differs url next (err e) s h k = λ q. h (cc)
  round-differs url next (ok found) s h k =
      after_poll-differs url next (poll_pairing_once p found s) (poll_pairing_once-differs found s)
        (k found)

  -- The deadline is one pause nearer after a round.
  nearer :
      (n deadline : ℕ) (u : Url) (s : p.State)
      → IsTimely p
      → deadline ≤ p.now s + 2000 * suc n
      → deadline ≤ p.now (poll_pairing_once p u (p.sleep 2000 s)).0 + 2000 * n
  nearer n deadline u s timely l =
      let h =
        poll_pairing_once-now u (p.sleep 2000 s) (p.now s + 2000) timely (timely.sleep 2000 s) in
      omega (arith, h, l)

  more_rounds :
      (n k : ℕ) (url : Url) (id : Uuid) (deadline : ℕ) (s : p.State)
      → IsTimely p
      → deadline ≤ p.now s + 2000 * n
      → n ≤ k
      → poll_loop p (suc k) url id deadline s ≡ poll_loop p (suc n) url id deadline s
  unfolding poll_loop
  more_rounds zero k url id deadline s timely l m =
      let over : leb deadline (p.now s) ≡ true = ground (arith, l) in rw over refl
  more_rounds (suc n) zero url id deadline s timely l m = absurd (omega (arith, m))
  more_rounds (suc n) (suc k) url id deadline s timely l m =
      elim (Bool-cases (leb deadline (p.now s))) [
        | inl y ↦ rw y refl
        | inr z ↦ rw z (
            round-cong url (poll_loop p (suc k) url id deadline)
              (poll_loop p (suc n) url id deadline) (poll_url p url id) (p.sleep 2000 s)
              (λ u.
                more_rounds n k url id deadline _ timely (nearer n deadline u s timely l)
                  (omega (arith, m))))
      ]

  rounds_left :
      (n : ℕ) (url : Url) (id : Uuid) (deadline : ℕ) (s : p.State)
      → IsTimely p
      → deadline ≤ p.now s + 2000 * n
      → (poll_loop p (suc n) url id deadline s).1 ≢ err out_of_rounds
  unfolding poll_loop
  rounds_left zero url id deadline s timely l h =
      let over : leb deadline (p.now s) ≡ true = ground (arith, l) in cc (rw over at h)
  rounds_left (suc n) url id deadline s timely l h = elim (Bool-cases (leb deadline (p.now s))) [
    | inl y ↦ cc (rw y at h)
    | inr z ↦
        round-differs url (poll_loop p (suc n) url id deadline) (poll_url p url id) (p.sleep 2000 s)
          (poll_url-differs url id)
          (λ u. rounds_left n url id deadline _ timely (nearer n deadline u s timely l)) (rw z at h)
  ]

  -- Where the clock does not go back and a pause takes its time, and the deadline is at most so
  -- many pauses of two seconds away: one round more than these is enough, that is, the loop of
  -- `pair` comes to its end within them, and with any more rounds to the same end.
  pub enough_rounds :
      (n k : ℕ) (url : Url) (id : Uuid) (deadline : ℕ) (s : p.State)
      → IsTimely p
      → deadline ≤ p.now s + 2000 * n
      → n ≤ k
      → ((poll_loop p (suc n) url id deadline s).1 ≢ err out_of_rounds)
        × (poll_loop p (suc k) url id deadline s ≡ poll_loop p (suc n) url id deadline s)
  enough_rounds n k url id deadline s timely l m =
      (rounds_left n url id deadline s timely l, more_rounds n k url id deadline s timely l m)
