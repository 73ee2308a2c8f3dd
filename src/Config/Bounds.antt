-- ===== src/Config/Bounds.antt =====
-- What every configuration that the daemon loads satisfies.
use shellbell.Base.{
  ℕ, ◌*◌, ◌≡◌, ◌≤◌, refl, sym, ◌∙◌, inl, inr, List, [], ◌∷◌, Option, none, some, Bool, true, false,
  all, any, leb, ◌&&◌, length, unwrap_or, arith, Bool-cases,
}
use mathlib.Core.Path.{subst}
use shellbell.Base.Words.{u64_max}
use shellbell.Base.Result.{ok-same, Result, ok, err, map_err, ◌>>=◌, ◌>>◌}
use shellbell.Base.Text.{Text, is_empty, text_eq, text_eq_iff}
use shellbell.Protocol.{
  validate_tags, validate_message, validate_text, allowed_tags, contains, message_max,
}
use shellbell.Protocol.Laws.{validate_tags_result, IsRising}
use shellbell.Config.{
  EffectiveConfig, RawConfig, ConfigError, check, require_some, duration_ms, parse_bounded_duration,
  effective, parse, load, not_a_duration, duration_out_of_bounds, not_toml, hundred_ms, a_day,
  second, bad_targets, bad_message, default_config, configured, queue_limit_out_of_bounds,
}

-- The limits of the settings; durations are in milliseconds.
pub record IsUsable (c : EffectiveConfig) : Type 0 where
  pub active : (100 ≤ c.minimum_active_ms) × (c.minimum_active_ms ≤ 604800000)
  pub idle : (100 ≤ c.idle_for_ms) × (c.idle_for_ms ≤ 86400000)
  pub age : (60000 ≤ c.event_max_age_ms) × (c.event_max_age_ms ≤ 2592000000)
  pub limit : (1 ≤ c.queue_limit) × (c.queue_limit ≤ 10000)
  pub known : (u : Text) → contains c.targets u ≡ true → contains allowed_tags u ≡ true
  pub rising : IsRising c.targets
  pub message : (is_empty c.automatic_message ≡ false) × (length c.automatic_message ≤ message_max)

pub bind-ok :
    {E A B : Type 0} (m : Result E A) (f : A → Result E B) (b : B)
    → (m >>= f) ≡ ok b
    → (a : A) × (m ≡ ok a) × (f a ≡ ok b)
bind-ok (ok a) f b h = (a, refl, h)
bind-ok (err e) f b h = cc

pub duration_ms-bounds :
    (low high d : ℕ)
    → low * 1000000 ≤ d
    → d ≤ high * 1000000
    → high ≤ u64_max
    → (low ≤ duration_ms d) × (duration_ms d ≤ high)
unfolding duration_ms
duration_ms-bounds low high d l h u = (ground arith, ground arith)

pub check-true : (b : Bool) (e : ConfigError) → check b e ≡ ok tt → b ≡ true
unfolding check
check-true b e h = ground arith

pub within :
    (found : Option ℕ) (low high d : ℕ)
    → (do
      duration ← require_some found not_a_duration
      check (leb low duration && leb duration high) duration_out_of_bounds
      ok duration)
      ≡ ok d
    → (low ≤ d) × (d ≤ high)
unfolding require_some check
within none low high d h = cc
within (some n) low high d h = ground arith

all-contains :
    (p : Text → Bool) (ts : List Text) (u : Text)
    → all p ts ≡ true
    → contains ts u ≡ true
    → p u ≡ true
unfolding all any
all-contains p [] u a h = cc
all-contains p (t ∷ ts) u a h = ground (arith, text_eq_iff u t, all-contains p ts u)

targets-known :
    (values tags : List Text)
    → validate_tags values ≡ ok tags
    → ((u : Text) → contains tags u ≡ true → contains allowed_tags u ≡ true) × IsRising tags
targets-known values tags h = elim (Bool-cases (all (contains allowed_tags) values)) [
  | inl a ↦
      let (ts, e, same, rising) = (validate_tags_result values).0 a in
      let eq = ok-same (validate_tags values) ts tags e h in
      (
        λ u k. all-contains (contains allowed_tags) values u a (sym (same u) ∙ cc),
        subst IsRising eq rising,
      )
  | inr n ↦ absurd (cc ((validate_tags_result values).1 n))
]

text-fits : (value v : Text) → validate_text value ≡ ok v → length v ≤ message_max
unfolding validate_text
text-fits value v h = ground arith

message-fits :
    (value : Text) (found : Option Text)
    → validate_message (some value) ≡ ok found
    → length (unwrap_or found []) ≤ message_max
unfolding validate_message
message-fits value found h =
    let (v, e, k) = bind-ok (validate_text value) (λ v. ok (some v)) found h in
    let fits = text-fits value v e in
    subst (λ f. length (unwrap_or f []) ≤ message_max) (ok-same _ (some v) found refl k) fits

-- What each step of a chain gave.
chain-ok :
    {E A B C D F G : Type 0} (a : Result E A) (b : Result E B) (c : Result E C) (q : Result E D)
    (t : Result E F) (m : Result E G) (k : A → B → C → F → G → Result E EffectiveConfig)
    (config : EffectiveConfig)
    → (do x ← a; y ← b; z ← c; q; ts ← t; msg ← m; k x y z ts msg) ≡ ok config
    → (x : A) × (y : B) × (z : C) × (u : D) × (ts : F) × (msg : G) × (a ≡ ok x)
      × (b ≡ ok y)
      × (c ≡ ok z)
      × (q ≡ ok u)
      × (t ≡ ok ts)
      × (m ≡ ok msg)
      × (k x y z ts msg ≡ ok config)
chain-ok (ok a) (ok b) (ok c) (ok q) (ok t) (ok m) k config h =
    (a, b, c, q, t, m, refl, refl, refl, refl, refl, refl, h)
chain-ok (err e) b c q t m k config h = cc
chain-ok (ok a) (err e) c q t m k config h = cc
chain-ok (ok a) (ok b) (err e) q t m k config h = cc
chain-ok (ok a) (ok b) (ok c) (err e) t m k config h = cc
chain-ok (ok a) (ok b) (ok c) (ok q) (err e) m k config h = cc
chain-ok (ok a) (ok b) (ok c) (ok q) (ok t) (err e) k config h = cc

pub map_err-ok :
    {E F A : Type 0} (f : E → F) (m : Result E A) (a : A) → map_err f m ≡ ok a → m ≡ ok a
map_err-ok f (ok b) a h = cc
map_err-ok f (err e) a h = cc

abbrev built : RawConfig → ℕ → ℕ → ℕ → List Text → Option Text → EffectiveConfig
built raw x y z ts msg = record {
  minimum_active_ms = duration_ms x;
  idle_for_ms = duration_ms y;
  targets = ts;
  automatic_message = unwrap_or msg [];
  queue_limit = raw.queue_limit;
  event_max_age_ms = duration_ms z;
}

configured-ok :
    (raw : RawConfig) (x y z : ℕ) (ts : List Text) (msg : Option Text) (c : EffectiveConfig)
    → configured raw x y z ts msg ≡ ok c
    → (is_empty (unwrap_or msg []) ≡ false) × (built raw x y z ts msg ≡ c)
unfolding configured check
configured-ok raw x y z ts msg c h = elim (Bool-cases (is_empty (unwrap_or msg []))) [
  | inl a ↦ absurd (cc (rw a at h))
  | inr n ↦ (n, ok-same _ (built raw x y z ts msg) c refl (rw n at h))
]

check_limit :
    (n : ℕ) (u : Unit {0})
    → check (leb 1 n && leb n 10000) queue_limit_out_of_bounds ≡ ok u
    → (1 ≤ n) × (n ≤ 10000)
unfolding check
check_limit n u h = ground arith

-- A configuration that is read from settings keeps to the limits: its durations between 100 ms and
-- seven days, a day, and between a minute and thirty days, a queue of 1 to 10000 rings, targets
-- that are known tags in rising order, and a message that is not empty and has at most 240
-- characters.
pub effective-IsUsable :
    (humantime : Text → Option ℕ) (raw : RawConfig) (c : EffectiveConfig)
    → effective humantime raw ≡ ok c
    → IsUsable c
unfolding effective parse_bounded_duration
effective-IsUsable humantime raw c h =
    let (x, y, z, u, ts, msg, ex, ey, ez, eu, et, em, k) =
      chain-ok (parse_bounded_duration humantime raw.minimum_active hundred_ms (7 * a_day))
        (parse_bounded_duration humantime raw.idle_for hundred_ms a_day)
        (parse_bounded_duration humantime raw.event_max_age (60 * second) (30 * a_day))
        (check (leb 1 raw.queue_limit && leb raw.queue_limit 10000) queue_limit_out_of_bounds)
        (map_err bad_targets (validate_tags raw.targets))
        (map_err bad_message (validate_message (some raw.automatic_message))) (configured raw) c
        h in
    let (full, e) = configured-ok raw x y z ts msg c k in
    let (ax, bx) = within (humantime raw.minimum_active) hundred_ms (7 * a_day) x ex in
    let (ay, by) = within (humantime raw.idle_for) hundred_ms a_day y ey in
    let (az, bz) = within (humantime raw.event_max_age) (60 * second) (30 * a_day) z ez in
    let (known, rising) =
      targets-known raw.targets ts (map_err-ok bad_targets (validate_tags raw.targets) ts et) in
    subst IsUsable e (record {
      active = duration_ms-bounds 100 604800000 x ax bx (omega arith);
      idle = duration_ms-bounds 100 86400000 y ay by (omega arith);
      age = duration_ms-bounds 60000 2592000000 z az bz (omega arith);
      limit = check_limit raw.queue_limit u eu;
      known = known;
      rising = rising;
      message = (
        full,
        message-fits raw.automatic_message msg
            (map_err-ok bad_message (validate_message (some raw.automatic_message)) msg em),
      );
    })

default-IsUsable : IsUsable default_config
unfolding any text_eq
default-IsUsable = record {
  active = (omega arith, omega arith);
  idle = (omega arith, omega arith);
  age = (omega arith, omega arith);
  limit = (omega arith, omega arith);
  known = λ u h. ground arith;
  rising = tt;
  message = (refl, omega arith);
}

-- Whatever is in the file of the configuration, and also where there is none: a configuration that
-- is loaded keeps to the limits: its durations lie between 100 ms and seven days, a day, and
-- between a minute and thirty days, its queue holds 1 to 10000 rings, its targets are known tags in
-- rising order, and its message is not empty and has at most 240 characters.
pub load-IsUsable :
    (humantime : Text → Option ℕ) (toml : Text → Option RawConfig) (file : Option (Option Text))
    (c : EffectiveConfig)
    → load humantime toml file ≡ ok c
    → IsUsable c
unfolding load parse require_some
load-IsUsable humantime toml none c h =
    subst IsUsable (ok-same _ default_config c refl h) default-IsUsable
load-IsUsable humantime toml (some none) c h = cc
load-IsUsable humantime toml (some (some text)) c h = read (toml text) h
  where
    read :
        (found : Option RawConfig)
        → (do raw ← require_some found not_toml; effective humantime raw) ≡ ok c
        → IsUsable c
    read none k = cc
    read (some raw) k = effective-IsUsable humantime raw c k
