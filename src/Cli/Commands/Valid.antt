-- ===== src/Cli/Commands/Valid.antt =====
-- What the commands send (crates/shellbell-cli/src/main.rs, `arm` and `name`) passes the daemon's
-- validation (crates/shellbell-local/src/ipc.rs).
use shellbell.Base.{
  ℕ, ◌*◌, ◌≡◌, refl, sym, List, [], ◌∷◌, Option, none, some, Bool, true, false, all, any, leb, ◌&&◌,
  arith,
}
use mathlib.Core.Path.{subst}
use shellbell.Base.Result.{ok-same, ok, map_err}
use shellbell.Base.Text.{Text, text_eq, text_eq_refl}
use shellbell.Activity.Session.{Uuid}
use shellbell.Protocol.{allowed_tags, contains}
use shellbell.Protocol.Laws.{validate_tags_result, IsRising}
use shellbell.Config.{
  load, duration_ms, parse_session_duration, parse_bounded_duration, hundred_ms, a_day,
}
use shellbell.Config.Bounds.{load-IsUsable, within, duration_ms-bounds, bind-ok, map_err-ok}
use shellbell.Ipc.{IpcCommand, validate_duration, validate_arming, validate_command}
use shellbell.Ipc.Accepts.{InSpan, AreKnown}
use shellbell.Cli.{config_failed, Parsers}
use shellbell.Cli.Commands.{
  Target, phone, pc, all as everything, targets, ArmCommand, targets_or, duration_or, arm_request,
  arm_command,
}

session-InSpan :
    (humantime : Text → Option ℕ) (value : Text) (n : ℕ)
    → parse_session_duration humantime value ≡ ok n
    → InSpan (duration_ms n)
unfolding parse_session_duration parse_bounded_duration
session-InSpan humantime value n h =
    let (low, high) = within (humantime value) hundred_ms (7 * a_day) n h in
    duration_ms-bounds 100 604800000 n low high (omega arith)

duration_or-InSpan :
    (parsers : Parsers) (value : Option Text) (configured d : ℕ)
    → InSpan configured
    → duration_or parsers value configured ≡ ok d
    → InSpan d
unfolding duration_or
duration_or-InSpan parsers none configured d s h = subst InSpan (ok-same _ configured d refl h) s
duration_or-InSpan parsers (some value) configured d s h =
    let parsed = parse_session_duration parsers.humantime value in
    let (n, e, k) = bind-ok (map_err config_failed parsed) (λ d. ok (duration_ms d)) d h in
    subst InSpan (ok-same _ (duration_ms n) d refl k)
      (session-InSpan parsers.humantime value n (map_err-ok config_failed parsed n e))

contained :
    (ts : List Text)
    → ((u : Text) → contains ts u ≡ true → contains allowed_tags u ≡ true)
    → AreKnown ts
unfolding all any
contained [] h = refl
contained (t ∷ ts) h =
    let first = h t (ground (arith, text_eq_refl t)) in
    let rest = contained ts (λ u k. h u (ground (arith, k))) in ground (arith, first, rest)

-- What a request to arm satisfies.
abbrev pub ArmsWithin : Bool → Uuid → IpcCommand → Type 0
ArmsWithin is_once id c =
    (minimum : ℕ) × (idle : ℕ) × (targets : List Text) × (c
      ≡ arm_request is_once id minimum idle targets)
    × InSpan minimum
    × InSpan idle
    × AreKnown targets
    × IsRising targets

targets_or-known :
    (to : Option Target) (configured : List Text)
    → AreKnown configured
    → IsRising configured
    → AreKnown (targets_or to configured) × IsRising (targets_or to configured)
unfolding targets_or targets all any text_eq
targets_or-known none configured k r = (k, r)
targets_or-known (some phone) configured k r = (refl, tt)
targets_or-known (some pc) configured k r = (refl, tt)
targets_or-known (some everything) configured k r = (refl, tt)

arm_command-ArmsWithin :
    (parsers : Parsers) (file : Option (Option Text)) (options : ArmCommand) (is_once : Bool)
    (id : Uuid) (c : IpcCommand)
    → arm_command parsers file options is_once id ≡ ok c
    → ArmsWithin is_once id c
unfolding arm_command
arm_command-ArmsWithin parsers file options is_once id c h =
    let loaded = load parsers.humantime parsers.toml file in
    let (config, e, k) = bind-ok (map_err config_failed loaded) _ c h in
    let usable =
      load-IsUsable parsers.humantime parsers.toml file config
        (map_err-ok config_failed loaded config e) in
    let (minimum, e', k') =
      bind-ok (duration_or parsers options.minimum_active config.minimum_active_ms) _ c k in
    let (idle, e'', k'') =
      bind-ok (duration_or parsers options.idle_for config.idle_for_ms) _ c k' in
    let (known, rising) =
      targets_or-known options.to config.targets (contained config.targets usable.known)
        usable.rising in
    let idle_span : InSpan config.idle_for_ms = (usable.idle.0, omega (arith, usable.idle.1)) in
    (
      minimum,
      idle,
      targets_or options.to config.targets,
      sym (ok-same _ _ c refl k''),
      duration_or-InSpan parsers options.minimum_active _ minimum usable.active e',
      duration_or-InSpan parsers options.idle_for _ idle idle_span e'',
      known,
      rising,
    )

validate_arming-ok :
    (minimum idle : ℕ) (targets : List Text)
    → InSpan minimum
    → InSpan idle
    → AreKnown targets
    → validate_arming minimum idle targets ≡ ok tt
unfolding validate_arming validate_duration
validate_arming-ok minimum idle ts m i k =
    let (tags, e, _, _) = (validate_tags_result ts).0 k in
    let x : (leb 100 minimum && leb minimum 604800000) ≡ true = ground arith in
    let y : (leb 100 idle && leb idle 604800000) ≡ true = ground arith in rw x (rw y (rw e refl))

-- The request that `on` or `once` sends is to arm that session in that mode, with durations between
-- 100 ms and seven days and known tags as targets, and the daemon's validation accepts it.
pub arm_command-IsValid :
    (parsers : Parsers) (file : Option (Option Text)) (options : ArmCommand) (is_once : Bool)
    (id : Uuid) (c : IpcCommand)
    → arm_command parsers file options is_once id ≡ ok c
    → ArmsWithin is_once id c × (validate_command c ≡ ok tt)
unfolding validate_command arm_request
arm_command-IsValid parsers file options true id c h =
    let (minimum, idle, ts, e, m, i, k, r) =
      arm_command-ArmsWithin parsers file options true id c h in
    ((minimum, idle, ts, e, m, i, k, r), rw e (validate_arming-ok minimum idle ts m i k))
arm_command-IsValid parsers file options false id c h =
    let (minimum, idle, ts, e, m, i, k, r) =
      arm_command-ArmsWithin parsers file options false id c h in
    ((minimum, idle, ts, e, m, i, k, r), rw e (validate_arming-ok minimum idle ts m i k))
