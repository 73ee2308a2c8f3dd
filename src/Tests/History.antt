-- ===== src/Tests/History.antt =====
-- The relay of `Tests.Relay`, with a pull receiver and a revoked source, over a few requests.
use shellbell.Base.{◌≡◌, refl, List, [], ◌∷◌, Option, none, some, true, false}
use shellbell.Base.Int.{pos}
use shellbell.Base.Text.{Text, codes}
use shellbell.Relay.State.{PullReceiver, Relay, Source, first}
use shellbell.Relay.Auth.{opens_source}
use shellbell.Relay.Pairing.{source_has_id}
use shellbell.Relay.Rings.{delivered_ok}
use shellbell.Relay.History.{Evolves}
use shellbell.Relay.History.Requests.{
  Request, bootstraps, polls_pairing, acknowledges, lists_sources, submits, serve_all,
  serve_all-Evolves,
}
use shellbell.Relay.History.Stays.{revoked_source_shut_out}
use shellbell.Tests.Relay.{digest, uuid_text, relay, config, no_headers, source}
use shellbell.Tests.Sorting.{by_insertion}

abbrev pull_receiver : PullReceiver
pull_receiver = record {
  id = 8;
  name = codes "desk";
  tags = codes "desk" ∷ [];
  token_hash = some [];
  enabled = true;
  acked_ring_id = 1;
  created_at = pos 0;
  updated_at = pos 0;
  revoked_at = none;
}

abbrev revoked : Source
revoked = record source { id = 9; revoked_at = some (pos 5) }

abbrev busy : Relay
busy = record relay { pull_receivers = pull_receiver ∷ []; sources = source ∷ revoked ∷ [] }

abbrev requests : List Request
requests =
    bootstraps (codes "secret") (codes "t1") 1 (pos 1)
    ∷ polls_pairing 5 (codes "t2") (pos 20)
    ∷ acknowledges (record no_headers { authorization = some (codes "Bearer t3") }) (codes "1") 30
        (pos 30)
    ∷ submits (λ r. delivered_ok) (record no_headers { authorization = some (codes "Bearer t2") })
        (record { event_id = 200; message = none; target_tags = [] }) 40 (pos 40)
    ∷ lists_sources no_headers (pos 50)
    ∷ []

abbrev no_scheme : Text → Option Text
no_scheme t = none

abbrev after : Relay
after = serve_all digest uuid_text no_scheme by_insertion config requests busy

serve_all-Evolves_example : Evolves busy after
serve_all-Evolves_example =
    serve_all-Evolves digest uuid_text no_scheme by_insertion config requests busy

revoked_source_shut_out_example :
    (y : Source) × (first (source_has_id 9) after.sources ≡ some y)
    × (y.revoked_at ≡ some (pos 5))
    × ((token : Text) → opens_source digest token y ≡ false)
revoked_source_shut_out_example =
    revoked_source_shut_out digest uuid_text no_scheme by_insertion config requests busy 9 revoked
      refl refl
