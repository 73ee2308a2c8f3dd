-- ===== src/Daemon/Recovery.antt =====
-- What the daemon loads after a restart.
use mathlib.Core.List.{foldl}
use shellbell.Base.{ℕ, ◌≡◌, refl, List, [], ◌∷◌, map, Bool, All, All-keep_if, keep_if}
use shellbell.Base.Int.{ℤ}
use shellbell.Base.OrderedMap.{OrderedMap, IsSorted, insert, insert-IsSorted, values}
use shellbell.Base.OrderedMap.Entries.{Every, Every-insert}
use shellbell.Activity.Session.{Session, recover_live_timing, persisted}
use shellbell.Activity.Engine.{from_sessions}
use shellbell.Activity.Invariant.{IsConsistent, recover-IsConsistent}
use shellbell.Activity.Keeps.{Holds}
use shellbell.Activity.WellFormed.{IsGood}
use shellbell.LocalStore.Store.{Store, load_sessions}
use shellbell.Daemon.{start, is_recoverable}

-- The saved form of a consistent session.
abbrev pub IsSaved : Session → Type 0
IsSaved s = (t : Session) × IsConsistent t × (s ≡ persisted t)

pub save-IsSaved :
    (m : OrderedMap Session) → Every IsGood m → All IsSaved (map persisted (values m))
unfolding values
save-IsSaved [] h = tt
save-IsSaved ((k, s) ∷ m) h = ((s, h.0.1, refl), save-IsSaved m h.1)

collect-IsSorted :
    (sessions : List Session) (m : OrderedMap Session)
    → IsSorted m
    → IsSorted (foldl (λ m s. insert m s.id s) m sessions)
collect-IsSorted [] m h = h
collect-IsSorted (s ∷ sessions) m h =
    collect-IsSorted sessions (insert m s.id s) (insert-IsSorted m s.id s h)

collect-Every :
    (sessions : List Session) (m : OrderedMap Session)
    → All IsConsistent sessions
    → Every IsGood m
    → Every IsGood (foldl (λ m s. insert m s.id s) m sessions)
collect-Every [] m c h = h
collect-Every (s ∷ sessions) m c h =
    collect-Every sessions (insert m s.id s) c.1 (Every-insert IsGood m s.id s (refl, c.0) h)

recovered :
    (now : ℤ) (sessions : List Session)
    → All IsSaved sessions
    → All IsConsistent (map (λ s. recover_live_timing s 0 now) sessions)
recovered now [] h = tt
recovered now (s ∷ sessions) ((t, c, e), h) =
    (rw e (recover-IsConsistent 0 now t c), recovered now sessions h)

pub start-Holds :
    (pid_is_alive : ℕ → Bool) (now : ℤ) (store : Store)
    → All IsSaved store.saved
    → Holds IsGood (start pid_is_alive now store).engine
unfolding start from_sessions load_sessions
start-Holds pid_is_alive now store h = record {
  sorted =
      collect-IsSorted
        (map (λ s. recover_live_timing s 0 now)
          (keep_if (is_recoverable pid_is_alive now) store.saved))
        [] tt;
  every =
      collect-Every
        (map (λ s. recover_live_timing s 0 now)
          (keep_if (is_recoverable pid_is_alive now) store.saved))
        []
        (recovered now (keep_if (is_recoverable pid_is_alive now) store.saved)
          (All-keep_if IsSaved (is_recoverable pid_is_alive now) store.saved h))
        tt;
}
