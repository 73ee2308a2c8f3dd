-- ===== src/Tests/Relay.antt =====
-- The relay with one source, one receiver and one pairing.
use shellbell.Base.{
  ℕ, ◌+◌, ◌*◌, ◌≡◌, ◌≤◌, refl, List, [], ◌∷◌, ◌++◌, none, some, true, false, length, arith, is_some,
  if◌then◌else◌,
}
use shellbell.Base.Int.{pos}
use shellbell.Base.Result.{ok}
use shellbell.Base.Text.{Text, codes, text_eq}
use shellbell.Activity.Session.{Uuid}
use shellbell.Relay.State.{Entry, Headers, Ring, Relay, Source, Receiver, Pairing, approved, first}
use shellbell.Relay.Limiter.Keys.{LimiterCall, allowed_of, at_most_twice_each}
use shellbell.Relay.Owner.{RelayConfig}
use shellbell.Relay.Pairing.{poll_pairing}
use shellbell.Relay.Pairing.Tokens.{token_of, poll_once}
use shellbell.Relay.Rings.{
  delivered_ok, feed_loop, feed_page, is_ring, accept_ring, take_ring, DeliveryOutcome,
  RingAcceptedResponse,
}
use shellbell.Relay.Rings.Feed.{wanted}
use shellbell.Relay.Rings.Rising.{IsRising, newer, accept_ring-IsRising, feed_page_resumes}
use shellbell.Relay.Rings.Submit.{take_ring_twice}

abbrev fresh_entry : Entry
fresh_entry = record { key = codes "pair:local"; start = 0; count = 0 }

-- Three calls with one key, and one with another key between them.
abbrev limiter_calls : List LimiterCall
limiter_calls =
    record { key = codes "ring:1"; limit = 2; window = 60; now = 100 }
    ∷ record { key = codes "pair:local"; limit = 10; window = 5; now = 7 }
    ∷ record { key = codes "ring:1"; limit = 2; window = 60; now = 101 }
    ∷ record { key = codes "ring:1"; limit = 2; window = 60; now = 102 }
    ∷ []

at_most_twice_each_example : allowed_of (codes "ring:1") (fresh_entry ∷ []) limiter_calls ≤ 2 * 2
unfolding text_eq
at_most_twice_each_example =
    at_most_twice_each (codes "ring:1") 2 60 100 (fresh_entry ∷ []) limiter_calls (omega arith)
      (
        λ h. (refl, refl, omega arith, omega arith),
        (
          λ h. cc,
          (
            λ h. (refl, refl, omega arith, omega arith),
            (λ h. (refl, refl, omega arith, omega arith), tt),
          ),
        ),
      )
      (omega arith)

abbrev pub source : Source
source = record {
  id = 3;
  display_name = codes "laptop";
  token_hash = none;
  created_at = pos 0;
  last_seen_at = none;
  revoked_at = none;
}

abbrev pub receiver : Receiver
receiver = record {
  id = 4;
  name = codes "my phone";
  tags = codes "phone" ∷ [];
  endpoint = codes "https://push.example/4";
  p256dh = codes "k";
  auth = codes "a";
  enabled = true;
  created_at = pos 0;
  updated_at = pos 0;
  revoked_at = none;
}

abbrev pub pairing : Pairing
pairing = record {
  id = 5;
  code = codes "ABCD-EFGH";
  display_name = codes "laptop";
  status = approved;
  created_at = pos 0;
  expires_at = pos 600;
  decided_at = some (pos 10);
  source_id = some 3;
}

abbrev ring : ℕ → List Text → Ring
ring id tags = record {
  id = id;
  event_id = 100 + id;
  source_id = 3;
  source_name = codes "laptop";
  message = none;
  target_tags = tags;
  created_at = pos id;
  matched_receivers = 1;
}

abbrev pub relay : Relay
relay = record {
  bootstrapped_at = none;
  owner_sessions = [];
  sources = source ∷ [];
  pairings = pairing ∷ [];
  receivers = receiver ∷ [];
  pull_receivers = [];
  rings = ring 1 [] ∷ [];
  last_ring_id = 1;
  deliveries = [];
  history_retention_days = 14;
  entries = [];
}

abbrev pub digest : Text → List ℕ
digest t = []

abbrev pub uuid_text : Uuid → Text
uuid_text id = id ∷ []

abbrev three_rings : List Ring
three_rings = ring 1 (codes "phone" ∷ []) ∷ ring 2 (codes "pc" ∷ []) ∷ ring 3 [] ∷ []

feed_page_resumes_example :
    (seen : List Ring) × (rest : List Ring) × (newer 0 three_rings ≡ seen ++ rest)
    × ((feed_page three_rings (codes "pc" ∷ []) 0 1).0 ≡ wanted (codes "pc" ∷ []) seen)
    × (newer (feed_page three_rings (codes "pc" ∷ []) 0 1).1 three_rings ≡ rest)
feed_page_resumes_example =
    feed_page_resumes three_rings (codes "pc" ∷ []) 0 1 3
      (omega arith, (omega arith, (omega arith, omega arith)))

-- The first poll ends at the second ring, the first that its tags match.
feed_page_test : (feed_page three_rings (codes "pc" ∷ []) 0 1).1 ≡ 2
unfolding feed_page shellbell.Relay.Rings.tags_match shellbell.Base.any shellbell.Base.keep_if
    shellbell.Base.Text.text_eq
feed_page_test = refl

accept_ring-IsRising_example :
    let t =
      (accept_ring digest uuid_text (λ r. delivered_ok) source 200 none [] (pos 50) relay).0 in
    IsRising 0 t.last_ring_id t.rings
accept_ring-IsRising_example =
    accept_ring-IsRising digest uuid_text (λ r. delivered_ok) source 200 none [] (pos 50) relay
      (omega arith, omega arith)

abbrev no_push : Receiver → DeliveryOutcome
no_push r = delivered_ok

take_ring_twice_example :
    (a : RingAcceptedResponse) × ((take_ring digest uuid_text no_push source 200 none []
        (pos 50)
        relay).1
      ≡ ok (if a.duplicate then 200 else 202, a))
    × (a.duplicate ≡ is_some (first (is_ring 3 200) relay.rings))
    × (take_ring digest uuid_text no_push source 200
          (some (codes "again"))
          []
          (pos 60)
          (take_ring digest uuid_text no_push source 200 none [] (pos 50) relay).0
        ≡ (
          (take_ring digest uuid_text no_push source 200 none [] (pos 50) relay).0,
          ok (200, record a { duplicate = true }),
        ))
take_ring_twice_example =
    take_ring_twice digest uuid_text no_push no_push source source 200 none (some (codes "again"))
      [] [] (pos 50) (pos 60) relay refl

poll_once_example :
    token_of
      (poll_pairing digest 5
        (codes "t2")
        (pos 21)
        (poll_pairing digest 5 (codes "t1") (pos 20) relay).0).1
    ≡ none
poll_once_example = poll_once digest 5 (codes "t1") (codes "t2") (pos 20) (pos 21) relay

-- The hash of the bootstrap token, with the digest of this module.
abbrev pub config : RelayConfig
config = record { bootstrap_token_hash = []; session_ttl = pos 1000; vapid_public_key = [] }

abbrev pub no_headers : Headers
no_headers = record { cookie = none; csrf_token = none; authorization = none; forwarded_for = none }
