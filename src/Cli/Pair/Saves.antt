-- ===== src/Cli/Pair/Saves.antt =====
-- What `pair` leaves in the file of the credentials (crates/shellbell-cli/src/main.rs).
use shellbell.Base.{
  ℕ, zero, suc, ◌+◌, ◌≡◌, ◌≢◌, ◌⊎◌, refl, ◌∙◌, inl, inr, Option, none, some, true, leb, Bool-cases,
  Option-cases,
}
use shellbell.Base.Result.{Result, ok, err}
use shellbell.Base.Step.{map_error, proceed, ◌>>=◌, lift, require}
use shellbell.Base.Text.{Text, codes}
use shellbell.Activity.Session.{Uuid}
use shellbell.Relay.State.{PairingStatus, pending, approved, rejected, expired}
use shellbell.Relay.Pairing.{PairingPollResponse}
use shellbell.Ipc.Accepts.{Result-cases}
use shellbell.Cli.Http.Retry.{get_json_retry_keeps}
use shellbell.Cli.Pair.{
  Url, PairError, not_saved, StoredCredentials, Created, Pairer, validate_relay_url, machine_name,
  create, poll_pairing_once, poll_url, save_credentials, keep_approved, by_status, after_poll,
  poll_round, poll_loop, pair,
}

-- A file that only `save` writes.
pub record IsStorage (p : Pairer) (file : p.State → Option StoredCredentials) : Type 0 where
  pub post : (url : Url) (name : Text) (s : p.State) → file (p.post url name s).0 ≡ file s
  pub get : (url : Url) (s : p.State) → file (p.get url s).0 ≡ file s
  pub sleep : (ms : ℕ) (s : p.State) → file (p.sleep ms s) ≡ file s
  pub save :
      (c : StoredCredentials) (s : p.State) → (p.save c s).1 ≡ true → file (p.save c s).0 ≡ some c

module _ (p : Pairer) (file : p.State → Option StoredCredentials) where
  -- A poll was answered with this identity and this token.
  pub record IsApproved (c : StoredCredentials) : Type 0 where
    pub asked : Url
    pub asked_in : p.State
    pub poll : PairingPollResponse
    pub answer : (poll_pairing_once p asked asked_in).1 ≡ ok poll
    pub is_approved : poll.status ≡ approved
    pub identity : poll.source_id ≡ some c.source_id
    pub token : poll.source_token ≡ some c.source_token

  -- Success, with what was approved in the file, or an error; the file is then as before, but where it
  -- could not be saved.
  abbrev pub Outcome :
      Url → Option StoredCredentials → p.State × Result PairError (Unit {0}) → Type 0
  Outcome url old r =
      ((r.1 ≡ ok tt)
        × ((c : StoredCredentials) × (c.relay_url ≡ url) × (file r.0 ≡ some c) × IsApproved c))
      ⊎ ((e : PairError) × (r.1 ≡ err e) × (e ≢ not_saved → file r.0 ≡ old))

  module _ (laws : IsStorage p file) (url : Url) (old : Option StoredCredentials) where
    poll_pairing_once-file :
        (u : Url) (s : p.State) → file s ≡ old → file (poll_pairing_once p u s).0 ≡ old
    unfolding poll_pairing_once map_error
    poll_pairing_once-file u s h =
        get_json_retry_keeps p.read_error p.read_poll (p.get u) p.sleep (λ t. file t ≡ old) s
          (λ t k. laws.get u t ∙ k) (λ ms t k. laws.sleep ms t ∙ k) h

    saved :
        (c : StoredCredentials) (s : p.State)
        → c.relay_url ≡ url
        → IsApproved c
        → Outcome url old (save_credentials p c s)
    unfolding save_credentials
    saved c s u a = elim (Bool-cases (p.save c s).1) [
      | inl y ↦ rw y (inl (refl, (c, u, laws.save c s y, a)))
      | inr n ↦ rw n (inr (not_saved, refl, λ d. absurd (d refl)))
    ]

    keep_approved-Outcome :
        (asked : Url) (t : p.State) (poll : PairingPollResponse) (id : Option Uuid)
        (token : Option Text) (s : p.State)
        → (poll_pairing_once p asked t).1 ≡ ok poll
        → poll.status ≡ approved
        → poll.source_id ≡ id
        → poll.source_token ≡ token
        → file s ≡ old
        → Outcome url old (keep_approved p url id token s)
    unfolding keep_approved
    keep_approved-Outcome asked t poll none token s e a i k h = inr (_, refl, λ d. h)
    keep_approved-Outcome asked t poll (some id) none s e a i k h = inr (_, refl, λ d. h)
    keep_approved-Outcome asked t poll (some id) (some token) s e a i k h =
        saved (record { relay_url = url; source_id = id; source_token = token }) s refl
          (record {
            asked = asked;
            asked_in = t;
            poll = poll;
            answer = e;
            is_approved = a;
            identity = i;
            token = k;
          })

    by_status-Outcome :
        (asked : Url) (t : p.State) (next : p.State → p.State × Result PairError (Unit {0}))
        (poll : PairingPollResponse) (status : PairingStatus) (s : p.State)
        → (poll_pairing_once p asked t).1 ≡ ok poll
        → poll.status ≡ status
        → file s ≡ old
        → Outcome url old (next s)
        → Outcome url old (by_status p url next poll status s)
    unfolding by_status
    by_status-Outcome asked t next poll pending s e a h o = o
    by_status-Outcome asked t next poll rejected s e a h o = inr (_, refl, λ d. h)
    by_status-Outcome asked t next poll expired s e a h o = inr (_, refl, λ d. h)
    by_status-Outcome asked t next poll approved s e a h o =
        keep_approved-Outcome asked t poll poll.source_id poll.source_token s e a refl refl h

    after_poll-Outcome :
        (asked : Url) (t : p.State) (next : p.State → p.State × Result PairError (Unit {0}))
        (r : p.State × Result PairError PairingPollResponse)
        → (poll_pairing_once p asked t).1 ≡ r.1
        → file r.0 ≡ old
        → Outcome url old (next r.0)
        → Outcome url old (after_poll p url next r)
    unfolding after_poll
    after_poll-Outcome asked t next (s, err e) q h o = inr (e, refl, λ d. h)
    after_poll-Outcome asked t next (s, ok poll) q h o =
        by_status-Outcome asked t next poll poll.status s q refl h o

    round-Outcome :
        (next : p.State → p.State × Result PairError (Unit {0})) (found : Result PairError Url)
        (s : p.State)
        → file s ≡ old
        → ((t : p.State) → file t ≡ old → Outcome url old (next t))
        → Outcome url old (poll_round p url next found s)
    unfolding poll_round
    round-Outcome next (err e) s h o = inr (e, refl, λ d. h)
    round-Outcome next (ok u) s h o =
        let k = poll_pairing_once-file u s h in
        after_poll-Outcome u s next (poll_pairing_once p u s) refl k
          (o (poll_pairing_once p u s).0 k)

    loop-Outcome :
        (rounds : ℕ) (id : Uuid) (deadline : ℕ) (s : p.State)
        → file s ≡ old
        → Outcome url old (poll_loop p rounds url id deadline s)
    unfolding poll_loop
    loop-Outcome zero id deadline s h = inr (_, refl, λ d. h)
    loop-Outcome (suc n) id deadline s h = elim (Bool-cases (leb deadline (p.now s))) [
      | inl y ↦ rw y (inr (_, refl, λ d. h))
      | inr z ↦ rw z (
          round-Outcome (poll_loop p n url id deadline) (poll_url p url id) (p.sleep 2000 s)
            (laws.sleep 2000 s ∙ h) (λ t k. loop-Outcome n id deadline t k))
    ]

  create-file :
      (found : Url) (name : Text) (s : p.State)
      → IsStorage p file
      → file (create p found name s).0 ≡ file s
  unfolding create map_error lift
  create-file found name s laws = laws.post found name s

  created-Outcome :
      (rounds : ℕ) (url : Url) (old : Option StoredCredentials)
      (r : p.State × Result PairError Created)
      → IsStorage p file
      → file r.0 ≡ old
      → Outcome url old
          (proceed r.1 (λ c t. poll_loop p rounds url c.id (p.now t + c.remaining_ms) t) r.0)
  created-Outcome rounds url old (s, err e) laws h = inr (e, refl, λ d. h)
  created-Outcome rounds url old (s, ok c) laws h =
      loop-Outcome laws url old rounds c.id (p.now s + c.remaining_ms) s h

  -- Where only `save` writes the file of the credentials: the given URL is refused before anything
  -- is done, or pairing succeeds, and then the file holds the validated URL with the identity and
  -- the token of a poll that was answered as approved, or it fails, and then the file is as it was,
  -- but where it could not be saved.
  pub pair_saves :
      (rounds : ℕ) (given : Url) (s : p.State)
      → IsStorage p file
      → ((url : Url) × (validate_relay_url given ≡ ok url)
          × Outcome url (file s) (pair p rounds given s))
        ⊎ ((e : PairError) × (validate_relay_url given ≡ err e)
            × (pair p rounds given s ≡ (s, err e)))
  unfolding pair ◌>>=◌ lift require
  pair_saves rounds given s laws = elim (Result-cases (validate_relay_url given)) [
    | inr (e, v) ↦ inr (e, v, rw v refl)
    | inl (url, v) ↦ inl (
      url,
      v,
      rw v (elim (Option-cases (p.hostname s)) [
        | inl n ↦ rw n (inr (_, refl, λ d. refl))
        | inr (host, k) ↦ rw k (elim (Option-cases (p.join url (codes "api/pairings"))) [
          | inl n ↦ rw n (inr (_, refl, λ d. refl))
          | inr (found, l) ↦ rw l (
              created-Outcome rounds url (file s) (create p found (machine_name host) s) laws
                (create-file found (machine_name host) s laws))
        ])
      ]),
    )
  ]
