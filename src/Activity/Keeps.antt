-- ===== src/Activity/Keeps.antt =====
-- A condition on sessions that each operation on one session keeps is kept by the whole engine.
pub mod Steps
use shellbell.Base.{
  ℕ, ◌<◌, ◌≡◌, inl, inr, List, [], ◌∷◌, Option, some, All, Option-cases, Bool-cases, if◌then◌else◌,
  ◌+◌, none, true, false, refl, arith,
}
use shellbell.Base.Int.{ℤ}
use shellbell.Base.Text.{Text}
use shellbell.Base.OrderedMap.{
  OrderedMap, IsSorted, remove, remove-IsSorted, modify-IsSorted, modify,
}
use shellbell.Base.OrderedMap.Entries.{Every, Every-remove, Every-modify}
use shellbell.Activity.Session.{Uuid, Session, Mode, ShellType, new}
use shellbell.Activity.Engine.{
  ActivityAction, ActivityEngine, find, with_session, reopen_session, arm_session, disarm_session,
  label_session, start_session, ready_session,
}
use shellbell.Activity.Rings.{
  ring_session, remove_all, settle, is_due, rings, automatic_action, manual_ring,
}
use shellbell.Activity.Trace.{to_list}
use shellbell.Activity.Tick.{IsKeyed, settle_all, all_rings}

-- Each operation on a session keeps `P`; arming does where `may_arm` allows it.
pub record IsKept (P : Uuid → Session → Type 0) (may_arm : Uuid → Mode → Type 0) : Type 0 where
  pub keyed : (k : Uuid) (s : Session) → P k s → s.id ≡ k
  pub opened :
      (k : Uuid) (pid : ℕ) (shell : ShellType) (tty : Option Text) (minimum idle : ℕ)
      (targets : List Text) (wall : ℤ)
      → P k (new k pid shell tty minimum idle targets wall)
  pub reopened :
      (pid : ℕ) (shell : ShellType) (tty : Option Text) (wall : ℤ) (k : Uuid) (s : Session)
      → P k s
      → P k (reopen_session pid shell tty wall s)
  pub armed :
      (mode : Mode) (minimum idle : ℕ) (targets : List Text) (wall : ℤ) (k : Uuid) (s : Session)
      → may_arm k mode
      → P k s
      → P k (arm_session mode minimum idle targets wall s)
  pub disarmed : (wall : ℤ) (k : Uuid) (s : Session) → P k s → P k (disarm_session wall s)
  pub labelled :
      (label : Option Text) (wall : ℤ) (k : Uuid) (s : Session)
      → P k s
      → P k (label_session label wall s)
  pub started :
      (fresh : Uuid) (mono : ℕ) (wall : ℤ) (k : Uuid) (s : Session)
      → P k s
      → P k (start_session fresh mono wall s)
  pub readied :
      (mono : ℕ) (wall : ℤ) (k : Uuid) (s : Session) → P k s → P k (ready_session mono wall s)
  pub rung :
      (fresh id : Uuid) (message : Option Text) (targets : List Text) (mono : ℕ) (k : Uuid)
      (s : Session)
      → P k s
      → P k (ring_session fresh id message targets mono s).0
  pub settled : (wall : ℤ) (k : Uuid) (s : Session) → P k s → P k (settle wall s)

-- Every ring satisfies `A`: one by hand, and one that `tick` makes for a session where `P` holds.
pub record IsHeard (P : Uuid → Session → Type 0) (A : ActivityAction → Type 0) : Type 0 where
  pub by_hand : (a : ActivityAction) → a.automatic ≡ false → A a
  pub by_tick :
      (fresh mono : ℕ) (k : Uuid) (s : Session)
      → P k s
      → is_due mono s ≡ true
      → rings s ≡ true
      → A (automatic_action fresh s)

-- The engine's map is sorted, and `P` holds of every session in it.
pub record Holds (P : Uuid → Session → Type 0) (e : ActivityEngine) : Type 0 where
  pub sorted : IsSorted e.sessions
  pub every : Every P e.sessions

settle_all_above :
    (mono : ℕ) (wall : ℤ) (m : OrderedMap Session) (k : ℕ)
    → All (λ e. k < e.0) m
    → All (λ e. k < e.0) (settle_all mono wall m)
unfolding settle_all
settle_all_above mono wall [] k h = tt
settle_all_above mono wall (x ∷ m) k h = (h.0, settle_all_above mono wall m k h.1)

pub settle_all-IsSorted :
    (mono : ℕ) (wall : ℤ) (m : OrderedMap Session) → IsSorted m → IsSorted (settle_all mono wall m)
unfolding settle_all
settle_all-IsSorted mono wall [] h = tt
settle_all-IsSorted mono wall (x ∷ m) h =
    (settle_all_above mono wall m x.0 h.0, settle_all-IsSorted mono wall m h.1)

module _ {P : Uuid → Session → Type 0} {may_arm : Uuid → Mode → Type 0}
    (kept : IsKept P may_arm) where
  pub Every-IsKeyed : (m : OrderedMap Session) → Every P m → IsKeyed m
  Every-IsKeyed [] h = tt
  Every-IsKeyed ((k, s) ∷ m) h = (kept.keyed k s h.0, Every-IsKeyed m h.1)

  settle_one :
      (mono : ℕ) (wall : ℤ) (k : Uuid) (s : Session)
      → P k s
      → P k (if is_due mono s then settle wall s else s)
  settle_one mono wall k s p = elim (Bool-cases (is_due mono s)) [
    | inl h ↦ rw h (kept.settled wall k s p)
    | inr h ↦ rw h p
  ]

  pub settle_all-Every :
      (mono : ℕ) (wall : ℤ) (m : OrderedMap Session) → Every P m → Every P (settle_all mono wall m)
  unfolding settle_all
  settle_all-Every mono wall [] h = tt
  settle_all-Every mono wall ((k, s) ∷ m) h =
      (settle_one mono wall k s h.0, settle_all-Every mono wall m h.1)

module _ (P : Uuid → Session → Type 0) where
  pub modify-Holds :
      (e : ActivityEngine) (id : Uuid) (f : Session → Session)
      → ((s : Session) → P id s → P id (f s))
      → Holds P e
      → Holds P (record { sessions = modify e.sessions id f })
  modify-Holds e id f h w = record {
    sorted = modify-IsSorted e.sessions id f w.sorted;
    every = Every-modify P e.sessions id f h w.every;
  }

  pub with_session-Holds :
      (e : ActivityEngine) (id : Uuid) (f : Session → Session)
      → ((s : Session) → P id s → P id (f s))
      → Holds P e
      → Holds P (with_session e id f).0
  unfolding with_session
  with_session-Holds e id f h w = elim (Option-cases (find e id)) [
    | inl n ↦ rw (n, with_session) w
    | inr (s, q) ↦ rw (q, with_session) (modify-Holds e id f h w)
  ]

  pub remove_all-Holds :
      (m : OrderedMap Session) (ids : List Uuid)
      → IsSorted m
      → Every P m
      → Holds P (record { sessions = remove_all m ids })
  unfolding remove_all
  remove_all-Holds m [] o g = record { sorted = o; every = g }
  remove_all-Holds m (id ∷ ids) o g =
      remove_all-Holds (remove m id) ids (remove-IsSorted m id o) (Every-remove P m id g)

manual :
    (e : ActivityEngine) (fresh : Uuid) (id : Option Uuid) (message : Option Text)
    (targets : List Text) (mono : ℕ) (wall : ℤ) (a : ActivityAction)
    → (manual_ring e fresh id message targets mono wall).1 ≡ some a
    → a.automatic ≡ false
unfolding manual_ring ring_session
manual e fresh none message targets mono wall a h = ground arith
manual e fresh (some id) message targets mono wall a h = ground arith

module _ {P : Uuid → Session → Type 0} {A : ActivityAction → Type 0} (heard : IsHeard P A) where
  pub all_rings-All :
      (uuids : ℕ → Uuid) (mono : ℕ) (m : OrderedMap Session) (n : ℕ)
      → Every P m
      → All A (all_rings uuids mono m n)
  unfolding all_rings
  all_rings-All uuids mono [] n h = tt
  all_rings-All uuids mono ((k, s) ∷ m) n h =
      let rest = λ (j : ℕ). all_rings-All uuids mono m j h.1 in
      elim (Bool-cases (is_due mono s)) [
        | inr e ↦ rw e (rest n)
        | inl e ↦ elim (Bool-cases (rings s)) [
          | inl r ↦ rw (e, r) (heard.by_tick (uuids n) mono k s h.0 e r, rest (n + 1))
          | inr r ↦ rw (e, r) (rest n)
        ]
      ]

  by_hand_list :
      (o : Option ActivityAction)
      → ((a : ActivityAction) → o ≡ some a → a.automatic ≡ false)
      → All A (to_list o)
  by_hand_list none h = tt
  by_hand_list (some a) h = (heard.by_hand a (h a refl), tt)

  pub manual_ring-All :
      (e : ActivityEngine) (fresh : Uuid) (id : Option Uuid) (message : Option Text)
      (targets : List Text) (mono : ℕ) (wall : ℤ)
      → All A (to_list (manual_ring e fresh id message targets mono wall).1)
  unfolding manual_ring ring_session
  manual_ring-All e fresh id message targets mono wall =
      by_hand_list (manual_ring e fresh id message targets mono wall).1
        (λ a. manual e fresh id message targets mono wall a)
