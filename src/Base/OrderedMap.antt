-- ===== src/Base/OrderedMap.antt =====
-- Rust's `BTreeMap` with `Uuid` keys. A key is the number that the sixteen bytes of the `Uuid`
-- spell, so the order of the numbers is the map's order; the entries stand in that order.
pub mod Entries
pub mod Middle
use Prim.Native.Nat.{ℕ, ◌≤◌, ◌<◌}
use mathlib.Core.Path.{◌≡◌}
use mathlib.Core.List.{List, [], ◌∷◌}
use mathlib.Core.Option
use mathlib.Core.Option.{Option, none, some}
use native.Mathlib.Omega.{arith}
use shellbell.Base.Tests.{ltb, ◌==◌, if◌then◌else◌}
use shellbell.Base.Lists.{All}

abbrev pub OrderedMap {ℓ} : Type ℓ → Type ℓ
OrderedMap V = List (ℕ × V)

module _ {ℓ} {V : Type ℓ} where
  unfoldable pub get : OrderedMap V → ℕ → Option V
  get [] k = none
  get ((j, v) ∷ m) k = if j == k then some v else get m k

  unfoldable pub insert : OrderedMap V → ℕ → V → OrderedMap V
  insert [] k v = (k, v) ∷ []
  insert ((j, w) ∷ m) k v =
      let rest = insert m k v in
      if ltb k j then (k, v) ∷ (j, w) ∷ m else if k == j then (k, v) ∷ m else (j, w) ∷ rest

  unfoldable pub remove : OrderedMap V → ℕ → OrderedMap V
  remove [] k = []
  remove ((j, v) ∷ m) k = let rest = remove m k in if j == k then rest else (j, v) ∷ rest

  -- What a write through `get_mut` leaves.
  unfoldable pub modify : OrderedMap V → ℕ → (V → V) → OrderedMap V
  modify [] k f = []
  modify ((j, v) ∷ m) k f = (j, if j == k then f v else v) ∷ modify m k f

  unfoldable pub values : OrderedMap V → List V
  values [] = []
  values ((k, v) ∷ m) = v ∷ values m

  -- The keys rise along the map.
  abbrev pub IsSorted : OrderedMap V → Type 0
  IsSorted [] = Unit
  IsSorted ((k, v) ∷ m) = All (λ e. k < e.0) m × IsSorted m

  pub get-insert :
      (m : OrderedMap V) (k j : ℕ) (v : V)
      → get (insert m k v) j ≡ (if k == j then some v else get m j)
  unfolding get insert
  get-insert [] k j v = ground arith
  get-insert ((i, w) ∷ m) k j v = ground (arith, get-insert m k j v)

  pub get-remove :
      (m : OrderedMap V) (k j : ℕ) → get (remove m k) j ≡ (if k == j then none else get m j)
  unfolding get remove
  get-remove [] k j = ground arith
  get-remove ((i, w) ∷ m) k j = ground (arith, get-remove m k j)

  pub get-modify :
      (m : OrderedMap V) (k j : ℕ) (f : V → V)
      → get (modify m k f) j ≡ (if k == j then Option.map f (get m j) else get m j)
  unfolding get modify
  get-modify [] k j f = ground arith
  get-modify ((i, w) ∷ m) k j f = ground (arith, get-modify m k j f)

  All-above : (m : OrderedMap V) (k j : ℕ) → k ≤ j → All (λ e. j < e.0) m → All (λ e. k < e.0) m
  All-above [] k j h a = tt
  All-above (e ∷ m) k j h a = (omega arith, All-above m k j h a.1)

  insert_above :
      (m : OrderedMap V) (i k : ℕ) (v : V)
      → i < k
      → All (λ e. i < e.0) m
      → All (λ e. i < e.0) (insert m k v)
  unfolding insert
  insert_above [] i k v h a = (h, tt)
  insert_above ((j, w) ∷ m) i k v h a = ground (arith, insert_above m i k v h a.1)

  pub insert-IsSorted : (m : OrderedMap V) (k : ℕ) (v : V) → IsSorted m → IsSorted (insert m k v)
  unfolding insert
  insert-IsSorted [] k v s = (tt, tt)
  insert-IsSorted ((j, w) ∷ m) k v s =
      ground (arith, insert-IsSorted m k v s.1, insert_above m j k v, All-above m k j)

  remove_above :
      (m : OrderedMap V) (i k : ℕ) → All (λ e. i < e.0) m → All (λ e. i < e.0) (remove m k)
  unfolding remove
  remove_above [] i k a = tt
  remove_above ((j, w) ∷ m) i k a = ground (arith, remove_above m i k a.1)

  pub remove-IsSorted : (m : OrderedMap V) (k : ℕ) → IsSorted m → IsSorted (remove m k)
  unfolding remove
  remove-IsSorted [] k s = tt
  remove-IsSorted ((j, w) ∷ m) k s = ground (arith, remove-IsSorted m k s.1, remove_above m j k s.0)

  modify_above :
      (m : OrderedMap V) (i k : ℕ) (f : V → V)
      → All (λ e. i < e.0) m
      → All (λ e. i < e.0) (modify m k f)
  unfolding modify
  modify_above [] i k f a = tt
  modify_above ((j, w) ∷ m) i k f a = (a.0, modify_above m i k f a.1)

  pub modify-IsSorted :
      (m : OrderedMap V) (k : ℕ) (f : V → V) → IsSorted m → IsSorted (modify m k f)
  unfolding modify
  modify-IsSorted [] k f s = tt
  modify-IsSorted ((j, w) ∷ m) k f s = (modify_above m j k f s.0, modify-IsSorted m k f s.1)

  pub ruleset map_laws = (get-insert, get-remove, get-modify)
