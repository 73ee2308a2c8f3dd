-- ===== src/Config.antt =====
-- The daemon's configuration (crates/shellbell-local/src/config.rs, lines 28 to 198). What TOML and
-- serde make of a text, with the defaults of missing fields, and what humantime makes of a duration, in
-- nanoseconds, are parameters. A duration of the result is kept to the millisecond, which is all that
-- the daemon reads of it.
pub mod Bounds
use shellbell.Base.{
  ℕ, ◌/◌, ◌*◌, List, [], ◌∷◌, Option, none, some, Bool, not, ◌&&◌, leb, unwrap_or, if◌then◌else◌,
}
use shellbell.Base.Words.{u64_max, u64_try_from}
use shellbell.Base.Int.{pos}
use shellbell.Base.Result.{Result, ok, err, map_err, ◌>>=◌, ◌>>◌}
use shellbell.Base.Text.{Text, codes, is_empty}
use shellbell.Protocol.{Invalid, validate_tags, validate_message}

pub record EffectiveConfig : Type 0 where
  pub minimum_active_ms : ℕ
  pub idle_for_ms : ℕ
  pub targets : List Text
  pub automatic_message : Text
  pub queue_limit : ℕ
  pub event_max_age_ms : ℕ

-- `EffectiveConfig::default`
abbrev pub default_config : EffectiveConfig
default_config = record {
  minimum_active_ms = 120000;
  idle_for_ms = 45000;
  targets = codes "phone" ∷ [];
  automatic_message = codes "Shell is ready";
  queue_limit = 100;
  event_max_age_ms = 86400000;
}

-- `RawConfig` with its four tables.
pub record RawConfig : Type 0 where
  pub minimum_active : Text
  pub idle_for : Text
  pub targets : List Text
  pub automatic_message : Text
  pub queue_limit : ℕ
  pub event_max_age : Text

-- The defaults of the four tables.
abbrev pub default_raw : RawConfig
default_raw = record {
  minimum_active = codes "2m";
  idle_for = codes "45s";
  targets = codes "phone" ∷ [];
  automatic_message = codes "Shell is ready";
  queue_limit = 100;
  event_max_age = codes "24h";
}

pub data ConfigError : Type 0 where
  unreadable not_toml not_a_duration duration_out_of_bounds queue_limit_out_of_bounds : ConfigError
  bad_targets bad_message : Invalid → ConfigError
  empty_message : ConfigError

unfoldable pub check : Bool → ConfigError → Result ConfigError (Unit {0})
check b e = if b then ok tt else err e

unfoldable pub require_some : {A : Type 0} → Option A → ConfigError → Result ConfigError A
require_some none e = err e
require_some (some a) e = ok a

-- Nanoseconds.
abbrev pub second : ℕ
second = 1000000000

abbrev pub hundred_ms : ℕ
hundred_ms = 100000000

abbrev pub a_day : ℕ
a_day = 86400000000000

-- `duration_ms` of daemon.rs: `u64::try_from(value.as_millis()).unwrap_or(u64::MAX)`
unfoldable pub duration_ms : ℕ → ℕ
duration_ms value = unwrap_or (u64_try_from (pos (value / 1000000))) u64_max

-- The end of `EffectiveConfig::parse`: the message must not be empty.
unfoldable pub configured :
    RawConfig → ℕ → ℕ → ℕ → List Text → Option Text → Result ConfigError EffectiveConfig
unfolding check
configured raw minimum_active idle_for event_max_age targets message = do
  let automatic_message = unwrap_or message []
  check (not (is_empty automatic_message)) empty_message
  ok (record {
    minimum_active_ms = duration_ms minimum_active;
    idle_for_ms = duration_ms idle_for;
    targets = targets;
    automatic_message = automatic_message;
    queue_limit = raw.queue_limit;
    event_max_age_ms = duration_ms event_max_age;
  })

module _ (humantime : Text → Option ℕ) where
  unfoldable pub parse_bounded_duration : Text → ℕ → ℕ → Result ConfigError ℕ
  unfolding check require_some
  parse_bounded_duration value minimum maximum = do
    duration ← require_some (humantime value) not_a_duration
    check (leb minimum duration && leb duration maximum) duration_out_of_bounds
    ok duration

  unfoldable pub parse_session_duration : Text → Result ConfigError ℕ
  unfolding parse_bounded_duration
  parse_session_duration value = parse_bounded_duration value hundred_ms (7 * a_day)

  -- `EffectiveConfig::parse`, once the text is read as TOML.
  unfoldable pub effective : RawConfig → Result ConfigError EffectiveConfig
  unfolding parse_bounded_duration check configured
  effective raw = do
    minimum_active ← parse_bounded_duration raw.minimum_active hundred_ms (7 * a_day)
    idle_for ← parse_bounded_duration raw.idle_for hundred_ms a_day
    event_max_age ← parse_bounded_duration raw.event_max_age (60 * second) (30 * a_day)
    check (leb 1 raw.queue_limit && leb raw.queue_limit 10000) queue_limit_out_of_bounds
    targets ← map_err bad_targets (validate_tags raw.targets)
    message ← map_err bad_message (validate_message (some raw.automatic_message))
    configured raw minimum_active idle_for event_max_age targets message

  module _ (toml : Text → Option RawConfig) where
    unfoldable pub parse : Text → Result ConfigError EffectiveConfig
    unfolding require_some effective
    parse value = do raw ← require_some (toml value) not_toml; effective raw

    -- `EffectiveConfig::load`: no file, a file that cannot be read, or its text.
    unfoldable pub load : Option (Option Text) → Result ConfigError EffectiveConfig
    unfolding parse
    load none = ok default_config
    load (some none) = err unreadable
    load (some (some value)) = parse value
