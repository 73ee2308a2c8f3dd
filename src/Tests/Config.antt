-- ===== src/Tests/Config.antt =====
-- The default configuration, read from its own text, and a daemon that runs with it.
use shellbell.Base.{
  ℕ, ◌*◌, ◌≡◌, ◌≤◌, refl, List, [], ◌∷◌, Option, none, some, length, arith, if◌then◌else◌,
}
use shellbell.Base.Text.{Text, codes, text_eq}
use shellbell.Config.{RawConfig, default_raw, default_config, second}
use shellbell.Config.Bounds.{IsUsable, load-IsUsable}
use shellbell.Daemon.{Daemon}
use shellbell.Daemon.Configured.{configured_daemon-IsSound}
use shellbell.Daemon.Requests.{IsSound}
use shellbell.Daemon.Run.{run_daemon}
use shellbell.Tests.Daemon.{empty_daemon, events}
use shellbell.Tests.LocalStore.{oldest_first}

-- The durations of the defaults, in nanoseconds.
abbrev pub humantime : Text → Option ℕ
humantime t =
    if text_eq t (codes "2m")
    then some (120 * second)
    else if text_eq t (codes "45s")
    then some (45 * second)
    else if text_eq t (codes "24h")
    then some (86400 * second)
    else none

-- Every text stands for the defaults.
abbrev pub toml : Text → Option RawConfig
toml t = some default_raw

load-IsUsable_example : IsUsable default_config
unfolding shellbell.Config.load shellbell.Config.parse shellbell.Config.effective
    shellbell.Config.configured shellbell.Config.check shellbell.Config.require_some
    shellbell.Config.parse_bounded_duration shellbell.Config.duration_ms
    shellbell.Protocol.validate_tags shellbell.Protocol.collect_tags shellbell.Protocol.set_insert
    shellbell.Protocol.validate_message shellbell.Protocol.validate_text shellbell.Base.Text.text_eq
    shellbell.Base.Text.trim shellbell.Base.Text.trim_end shellbell.Base.Text.trim_start
    shellbell.Base.Text.is_whitespace shellbell.Base.Text.is_control shellbell.Base.any
load-IsUsable_example = load-IsUsable humantime toml (some (some [])) default_config refl

configured_daemon-IsSound_example :
    (d' : Daemon) × (run_daemon oldest_first default_config empty_daemon events ≡ some d')
    × IsSound default_config.queue_limit d'
    × (length d'.store.queue.rows ≤ 10000)
unfolding shellbell.Config.load
configured_daemon-IsSound_example =
    configured_daemon-IsSound humantime toml none default_config oldest_first empty_daemon events
      refl (record { engine = record { sorted = tt; every = tt }; saved = tt; queue = omega arith })
