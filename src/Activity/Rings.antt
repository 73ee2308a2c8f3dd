-- ===== src/Activity/Rings.antt =====
-- The operations that ring or drop sessions (crates/shellbell-local/src/activity.rs, lines 354 to
-- 460). `none` as the result of `tick` is the panic of its `expect`.
use shellbell.Base.{
  ℕ, List, [], ◌∷◌, ◌++◌, map, Option, none, some, Bool, true, false, not, ◌&&◌, ◌||◌, leb,
  if◌then◌else◌, is_some, is_some_and, unwrap_or, length, keep_if,
}
use mathlib.Core.Option
use shellbell.Base.Int.{ℤ, ltb_ℤ}
use shellbell.Base.Text.{Text, codes, is_empty}
use shellbell.Base.OrderedMap.{OrderedMap, modify, remove, values}
use shellbell.Activity.Session.{
  Uuid, off, disarmed, Session, is_once, is_active, is_settling, displayed_active_ms, reset_burst,
  reset_after_burst,
}
use shellbell.Activity.Engine.{ActivityAction, ActivityEngine, find}

-- The burst that a manual ring belongs to: one under way, in `Active` or `Settling`.
unfoldable pub is_associated : Session → Bool
is_associated s = is_some s.burst_id && (is_active s.state || is_settling s.state)

-- What an associated ring leaves of its session.
unfoldable pub mark_rung : Session → Session
unfolding reset_burst
mark_rung s =
    let t = record s { burst_notified = true } in
    if is_once t.mode then reset_burst (record t { mode = off; state = disarmed }) else t

abbrev pub manual_action : Uuid → Option Uuid → Option Text → List Text → Option ℕ → ActivityAction
manual_action event_id session_id message targets active_duration_ms = record {
  event_id = event_id;
  session_id = session_id;
  message = message;
  targets = targets;
  automatic = false;
  active_duration_ms = active_duration_ms;
}

-- The part of `manual_ring` below the two lookups; the session is already marked as seen.
unfoldable pub ring_session :
    Uuid → Uuid → Option Text → List Text → ℕ → Session → Session × Option ActivityAction
unfolding is_associated mark_rung displayed_active_ms
ring_session fresh id message targets now_mono_ms s =
    let associated = is_associated s in
    if associated && s.burst_notified then (s, none) else (
      if associated then mark_rung s else s,
      some (
          manual_action fresh (some id) message targets
            (if associated then some (displayed_active_ms s now_mono_ms) else none)),
    )

abbrev pub put : ActivityEngine → Uuid → Session → ActivityEngine
put e id s = record { sessions = modify e.sessions id (λ _. s) }

unfoldable pub manual_ring :
    ActivityEngine
    → Uuid
    → Option Uuid
    → Option Text
    → List Text
    → ℕ
    → ℤ
    → ActivityEngine × Option ActivityAction
unfolding find ring_session
manual_ring e fresh none message targets now_mono_ms now_wall_ms =
    (e, some (manual_action fresh none message targets none))
manual_ring e fresh (some id) message targets now_mono_ms now_wall_ms = elim (find e id) [
  | none ↦ (e, some (manual_action fresh (some id) message targets none))
  | some s ↦
      let seen = record s { last_seen_wall_ms = now_wall_ms } in
      let (t, action) = ring_session fresh id message targets now_mono_ms seen in
      (put e id t, action)
]

unfoldable pub is_due : ℕ → Session → Bool
is_due now_mono_ms s =
    is_settling s.state
    && is_some_and s.settling_deadline_mono_ms (λ deadline. leb deadline now_mono_ms)

-- The test under which a due session rings.
unfoldable pub rings : Session → Bool
rings s = leb s.minimum_active_ms s.accumulated_active_ms && not s.burst_notified

abbrev non_empty : Option Text → Option Text
non_empty none = none
non_empty (some value) = if is_empty value then none else some value

abbrev pub ready_message : Option Text → Text
ready_message label =
    unwrap_or (Option.map (λ value. value ++ codes " is ready") (non_empty label))
      (codes "Shell is ready")

unfoldable pub automatic_action : Uuid → Session → ActivityAction
automatic_action fresh s = record {
  event_id = fresh;
  session_id = some s.id;
  message = some (ready_message s.label);
  targets = s.targets;
  automatic = true;
  active_duration_ms = some s.accumulated_active_ms;
}

-- What the loop of `tick` leaves of a due session.
unfoldable pub settle : ℤ → Session → Session
unfolding rings reset_after_burst
settle now_wall_ms s =
    let t = record s { last_seen_wall_ms = now_wall_ms } in
    reset_after_burst (
      if rings t
      then record t { burst_notified = true; mode = if is_once t.mode then off else t.mode }
      else t)

-- What it pushes for it.
unfoldable pub ring_of : (ℕ → Uuid) → Session → List ActivityAction → List ActivityAction
unfolding rings automatic_action
ring_of uuids s actions =
    if rings s then actions ++ (automatic_action (uuids (length actions)) s ∷ []) else actions

unfoldable pub tick_loop :
    (ℕ → Uuid)
    → ℤ
    → List Uuid
    → ActivityEngine
    → List ActivityAction
    → Option (ActivityEngine × List ActivityAction)
unfolding find
tick_loop uuids now_wall_ms [] e actions = some (e, actions)
tick_loop uuids now_wall_ms (id ∷ due) e actions = elim (find e id) [
  | none ↦ none
  | some s ↦
      tick_loop uuids now_wall_ms due (put e id (settle now_wall_ms s)) (ring_of uuids s actions)
]

unfoldable pub tick :
    ActivityEngine → (ℕ → Uuid) → ℕ → ℤ → Option (ActivityEngine × List ActivityAction)
unfolding tick_loop is_due
tick e uuids now_mono_ms now_wall_ms =
    tick_loop uuids now_wall_ms (map (λ s. s.id) (keep_if (is_due now_mono_ms) (values e.sessions)))
      e []

unfoldable pub remove_all : OrderedMap Session → List Uuid → OrderedMap Session
remove_all m [] = m
remove_all m (id ∷ ids) = remove_all (remove m id) ids

unfoldable pub cleanup_stale : ActivityEngine → ℤ → ActivityEngine × List Uuid
unfolding remove_all
cleanup_stale e older_than_wall_ms =
    let stale =
      map (λ s. s.id)
        (keep_if (λ s. ltb_ℤ s.last_seen_wall_ms older_than_wall_ms) (values e.sessions)) in
    (record { sessions = remove_all e.sessions stale }, stale)
