-- ===== src/Base/OrderedMap/Entries.antt =====
-- A predicate on every entry of a map, through each operation.
use Prim.Native.Nat.{ℕ}
use mathlib.Core.Path.{◌≡◌}
use mathlib.Core.Option.{some}
use mathlib.Core.List.{[], ◌∷◌}
use native.Mathlib.Omega.{arith}
use shellbell.Base.Lists.{All}
use shellbell.Base.OrderedMap.{OrderedMap, get, insert, remove, modify, values}

module _ {ℓ κ} {V : Type ℓ} (P : ℕ → V → Type κ) where
  abbrev pub Every : OrderedMap V → Type κ
  Every [] = Unit
  Every ((k, v) ∷ m) = P k v × Every m

  pub Every-insert : (m : OrderedMap V) (k : ℕ) (v : V) → P k v → Every m → Every (insert m k v)
  unfolding insert
  Every-insert [] k v p a = (p, tt)
  Every-insert ((j, w) ∷ m) k v p a = ground (arith, Every-insert m k v p a.1)

  pub Every-remove : (m : OrderedMap V) (k : ℕ) → Every m → Every (remove m k)
  unfolding remove
  Every-remove [] k a = tt
  Every-remove ((j, w) ∷ m) k a = ground (arith, Every-remove m k a.1)

  pub Every-modify :
      (m : OrderedMap V) (k : ℕ) (f : V → V)
      → ((v : V) → P k v → P k (f v))
      → Every m
      → Every (modify m k f)
  unfolding modify
  Every-modify [] k f h a = tt
  Every-modify ((j, w) ∷ m) k f h a = ground (arith, h w, Every-modify m k f h a.1)

  pub Every-get : (m : OrderedMap V) (k : ℕ) (v : V) → get m k ≡ some v → Every m → P k v
  unfolding get
  Every-get [] k v e a = cc
  Every-get ((j, w) ∷ m) k v e a = ground (arith, Every-get m k v)

  -- The same of what `get` finds.
  pub Every-values : (m : OrderedMap V) → Every m → All (λ v. (k : ℕ) × P k v) (values m)
  unfolding values
  Every-values [] a = tt
  Every-values ((k, v) ∷ m) a = ((k, a.0), Every-values m a.1)
