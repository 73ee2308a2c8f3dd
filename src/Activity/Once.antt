-- ===== src/Activity/Once.antt =====
-- A session armed once, when it is due, and after.
use shellbell.Base.{
  ℕ, ◌≡◌, sym, ◌∙◌, inl, inr, List, [], ◌∷◌, some, true, false, All, if◌then◌else◌, Bool-cases,
}
use shellbell.Base.Int.{ℤ}
use shellbell.Base.OrderedMap.{OrderedMap}
use shellbell.Base.OrderedMap.Entries.{Every}
use shellbell.Activity.Session.{Uuid, Session, is_once}
use shellbell.Activity.Engine.{ActivityAction, ActivityEngine}
use shellbell.Activity.Rings.{is_due, rings, settle, tick}
use shellbell.Activity.Tick.{settle_all, IsKeyed, tick-eq-settle_all}
use shellbell.Activity.Trace.{Call, run}
use shellbell.Activity.Keeps.{Holds, settle_all-IsSorted}
use shellbell.Activity.Keeps.Steps.{Safe}
use shellbell.Activity.WellFormed.{IsGood, IsGood-kept}
use shellbell.Activity.Quiet.{IsQuiet, is_ring_for, ArmsOther, run-IsQuiet, settle_once}

-- The session `k`, if the engine has it, is armed once, due, and qualifies to ring.
abbrev pub IsOnceDue : Uuid → ℕ → Uuid → Session → Type 0
IsOnceDue k mono j s =
    IsGood j s × (j ≡ k → (is_once s.mode ≡ true) × (rings s ≡ true) × (is_due mono s ≡ true))

settled-IsQuiet :
    (k : Uuid) (mono : ℕ) (wall : ℤ) (j : Uuid) (s : Session)
    → IsOnceDue k mono j s
    → IsQuiet k j (if is_due mono s then settle wall s else s)
settled-IsQuiet k mono wall j s g = elim (Bool-cases (is_due mono s)) [
  | inl y ↦ rw y (IsGood-kept.settled wall j s g.0, λ e. (settle_once wall s (g.1 e).0 (g.1 e).1).1)
  | inr n ↦ rw n (g.0, λ e. let c = sym n ∙ (g.1 e).2 in cc)
]

settle_all-IsQuiet :
    (k : Uuid) (mono : ℕ) (wall : ℤ) (m : OrderedMap Session)
    → Every (IsOnceDue k mono) m
    → Every (IsQuiet k) (settle_all mono wall m)
unfolding settle_all
settle_all-IsQuiet k mono wall [] h = tt
settle_all-IsQuiet k mono wall ((j, s) ∷ m) h =
    (settled-IsQuiet k mono wall j s h.0, settle_all-IsQuiet k mono wall m h.1)

IsKeyed-IsOnceDue :
    (k : Uuid) (mono : ℕ) (m : OrderedMap Session) → Every (IsOnceDue k mono) m → IsKeyed m
IsKeyed-IsOnceDue k mono [] h = tt
IsKeyed-IsOnceDue k mono ((j, s) ∷ m) h = (h.0.0.0, IsKeyed-IsOnceDue k mono m h.1)

-- In a well-formed engine where the session `k` is armed once, due and qualifies to ring: a tick
-- does not panic, and whatever proper calls come after it that never arm `k`, none of them panics
-- or makes an automatic ring for `k`.
pub tick_once :
    (k : Uuid) (e : ActivityEngine) (uuids : ℕ → Uuid) (mono : ℕ) (wall : ℤ) (calls : List Call)
    → All (ArmsOther k) calls
    → Holds (IsOnceDue k mono) e
    → (e' : ActivityEngine) × (actions : List ActivityAction) × (tick e uuids mono wall
        ≡ some (e', actions))
      × Safe (IsQuiet k) (λ a. is_ring_for k a ≡ false) (run e' calls)
tick_once k e uuids mono wall calls p w = (
  _,
  _,
  tick-eq-settle_all e uuids mono wall w.sorted (IsKeyed-IsOnceDue k mono e.sessions w.every),
  run-IsQuiet k (record { sessions = settle_all mono wall e.sessions }) calls p
      (record {
        sorted = settle_all-IsSorted mono wall e.sessions w.sorted;
        every = settle_all-IsQuiet k mono wall e.sessions w.every;
      }),
)
