-- ===== src/Daemon/Configured.antt =====
-- The daemon with the configuration that it loads at its start
-- (crates/shellbell-local/src/daemon.rs, `run_daemon_until`, and config.rs, `EffectiveConfig::load`).
use shellbell.Base.{ℕ, ◌≡◌, ◌≤◌, List, Option, some, length, arith}
use shellbell.Base.Text.{Text}
use shellbell.Base.Result.{ok}
use shellbell.Config.{EffectiveConfig, RawConfig, load}
use shellbell.Config.Bounds.{load-IsUsable}
use shellbell.LocalStore.Queue.{OldestFirst}
use shellbell.Daemon.{Daemon}
use shellbell.Daemon.Requests.{IsSound}
use shellbell.Daemon.Run.{Event, run_daemon, run_daemon_sound}

-- Where the configuration loads and the daemon is sound: whatever then happens to it, no call
-- panics, it is sound at the end, and its queue then holds at most 10000 rings.
pub configured_daemon-IsSound :
    (humantime : Text → Option ℕ) (toml : Text → Option RawConfig) (file : Option (Option Text))
    (config : EffectiveConfig) (o : OldestFirst) (d : Daemon) (events : List Event)
    → load humantime toml file ≡ ok config
    → IsSound config.queue_limit d
    → (d' : Daemon) × (run_daemon o config d events ≡ some d')
      × IsSound config.queue_limit d'
      × (length d'.store.queue.rows ≤ 10000)
configured_daemon-IsSound humantime toml file config o d events h s =
    let usable = load-IsUsable humantime toml file config h in
    let (d', e, s') = run_daemon_sound o config d events usable.limit.0 s in
    (d', e, s', omega (arith, s'.queue, usable.limit.1))
