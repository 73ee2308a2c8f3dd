-- ===== src/Tests/Pairing.antt =====
-- A relay that is out of order at first and approves at the second poll, and the command that pairs.
use shellbell.Base.{
  ℕ, suc, ◌+◌, ◌*◌, ◌≡◌, ◌≢◌, ◌≤◌, ◌⊎◌, refl, List, [], ◌∷◌, ◌++◌, Option, none, some, Bool, true,
  false, if◌then◌else◌, arith, leb, ◌==◌,
}
use shellbell.Base.Result.{ok, err}
use shellbell.Base.Text.{Text, codes, text_eq}
use shellbell.Relay.State.{pending, approved}
use shellbell.Relay.Pairing.{PairingPollResponse}
use shellbell.Cli.Http.{Reply, answered, timed_out, get_json_retry}
use shellbell.Cli.Pair.{
  Url, PairError, StoredCredentials, Pairer, validate_relay_url, out_of_rounds, poll_loop, pair,
}
use shellbell.Cli.Pair.Addresses.{IsSafe, validate_relay_url-IsSafe}
use shellbell.Cli.Pair.Ends.{IsTimely, enough_rounds}
use shellbell.Cli.Pair.Saves.{IsStorage, Outcome, pair_saves}

-- The clock, the requests so far, and the file of the credentials.
pub record World : Type 0 where
  pub clock : ℕ
  pub requests : ℕ
  pub file : Option StoredCredentials

abbrev reply_to : ℕ → Reply
reply_to n =
    if n == 0
    then timed_out
    else if n == 1
    then answered 200 (codes "pending")
    else answered 200 (codes "approved")

abbrev poll_of : Text → Option PairingPollResponse
poll_of body =
    if text_eq body (codes "pending")
    then some (record { status = pending; source_id = none; source_token = none })
    else some (record { status = approved; source_id = some 4; source_token = some (codes "t") })

abbrev pairer : Pairer
pairer = record {
  State = World;
  hostname = λ s. some (codes "desk");
  join = λ url path. some (record url { path = url.path ++ path });
  uuid_text = λ id. codes "4";
  post = λ url name s. (s, answered 201 (codes "created"));
  get = λ url s. (record s { requests = suc s.requests }, reply_to s.requests);
  read_created = λ body. some (record { id = 4; remaining_ms = 6000 });
  read_poll = poll_of;
  read_error = λ body. none;
  now = λ s. s.clock;
  sleep = λ ms s. record s { clock = s.clock + ms };
  save = λ c s. (record s { file = some c }, true);
}

abbrev address : Url
address = record {
  scheme = codes "https";
  host = some (codes "relay.example");
  path = codes "/bell";
  query = some (codes "x=1");
  fragment = none;
  cannot_be_a_base = false;
}

abbrev world : World
world = record { clock = 0; requests = 0; file = none }

timely : IsTimely pairer
timely = record { get = λ url s. omega arith; sleep = λ ms s. omega arith }

enough_rounds_example :
    ((poll_loop pairer 4 address 4 6000 world).1 ≢ err out_of_rounds)
    × (poll_loop pairer 10 address 4 6000 world ≡ poll_loop pairer 4 address 4 6000 world)
enough_rounds_example =
    enough_rounds pairer 3 9 address 4 6000 world timely (omega arith) (omega arith)

storage : IsStorage pairer (λ s. s.file)
storage = record {
  post = λ url name s. refl;
  get = λ url s. refl;
  sleep = λ ms s. refl;
  save = λ c s h. refl;
}

pair_saves_example :
    ((url : Url) × (validate_relay_url address ≡ ok url)
      × Outcome pairer (λ s. s.file) url none (pair pairer 4 address world))
    ⊎ ((e : PairError) × (validate_relay_url address ≡ err e)
        × (pair pairer 4 address world ≡ (world, err e)))
pair_saves_example = pair_saves pairer (λ s. s.file) 4 address world storage

abbrev cleaned : Url
cleaned = record address { query = none; path = codes "/bell/" }

validate_relay_url-IsSafe_example :
    IsSafe cleaned
    × (cleaned.scheme ≡ address.scheme)
    × (cleaned.host ≡ address.host)
    × (validate_relay_url cleaned ≡ ok cleaned)
unfolding validate_relay_url text_eq
validate_relay_url-IsSafe_example = validate_relay_url-IsSafe address cleaned refl

-- The run ends with the credentials in the file.
paired :
    (pair pairer 4 address world).0.file
    ≡ some (record { relay_url = cleaned; source_id = 4; source_token = codes "t" })
unfolding pair validate_relay_url text_eq shellbell.Cli.Pair.create shellbell.Base.Step.map_error
    shellbell.Cli.Http.send_json poll_loop shellbell.Cli.Pair.poll_url
    shellbell.Cli.Pair.poll_pairing_once get_json_retry shellbell.Cli.Pair.keep_approved
paired = refl
