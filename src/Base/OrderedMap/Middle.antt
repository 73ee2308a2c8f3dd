-- ===== src/Base/OrderedMap/Middle.antt =====
-- An entry in the middle of a sorted map: what `get` and `modify` do at it.
use Prim.Native.Nat.{ℕ, ◌<◌}
use mathlib.Core.Path.{◌≡◌, refl}
use mathlib.Core.Option.{some}
use mathlib.Core.List.{[], ◌∷◌, ◌++◌}
use native.Mathlib.Omega.{arith}
use shellbell.Base.Lists.{All, All-append, All-map_imp}
use shellbell.Base.OrderedMap.{OrderedMap, get, modify, IsSorted}

module _ {ℓ} {V : Type ℓ} where
  pub get-middle :
      (m n : OrderedMap V) (k j : ℕ) (v : V)
      → j ≡ k
      → All (λ e. e.0 < k) m
      → get (m ++ (k, v) ∷ n) j ≡ some v
  unfolding get
  get-middle [] n k j v e a = ground arith
  get-middle ((i, w) ∷ m) n k j v e a = ground (arith, get-middle m n k j v e a.1)

  modify_above :
      (n : OrderedMap V) (k j : ℕ) (f : V → V) → j ≡ k → All (λ e. k < e.0) n → modify n j f ≡ n
  unfolding modify
  modify_above [] k j f e a = refl
  modify_above ((i, w) ∷ n) k j f e a = ground (arith, modify_above n k j f e a.1)

  pub modify-middle :
      (m n : OrderedMap V) (k j : ℕ) (v : V) (f : V → V)
      → j ≡ k
      → All (λ e. e.0 < k) m
      → All (λ e. k < e.0) n
      → modify (m ++ (k, v) ∷ n) j f ≡ m ++ (k, f v) ∷ n
  unfolding modify
  modify-middle [] n k j v f e a b = ground (arith, modify_above n k j f e b)
  modify-middle ((i, w) ∷ m) n k j v f e a b = ground (arith, modify-middle m n k j v f e a.1 b)

  -- The keys of the first map lie below the first key of the second.
  abbrev pub Below : OrderedMap V → OrderedMap V → Type 0
  Below m [] = Unit
  Below m ((k, v) ∷ n) = All (λ e. e.0 < k) m

  pub Below-next :
      (m n : OrderedMap V) (k : ℕ) (v w : V)
      → All (λ e. e.0 < k) m
      → IsSorted ((k, v) ∷ n)
      → Below (m ++ (k, w) ∷ []) n
  Below-next m [] k v w a s = tt
  Below-next m ((j, u) ∷ n) k v w a s =
      All-append (λ e. e.0 < j) m ((k, w) ∷ [])
        (All-map_imp (λ e. e.0 < k) (λ e. e.0 < j) m (λ e h. omega arith) a) (s.0.0, tt)
