-- ===== src/Tests/Sorting.antt =====
-- A sort by insertion, as an instance of what the database's ORDER BY gives.
use mathlib.Core.List.Perm
use mathlib.Core.List.{Perm}
use shellbell.Base.{
  ◌≡◌, inl, inr, List, [], ◌∷◌, Bool, true, false, All, All-map_imp, if◌then◌else◌, Bool-cases,
  arith,
}
use shellbell.Base.Int.{leb_ℤ, ◌≤ℤ◌}
use shellbell.Relay.State.{InOrder, TimeOrder}

module _ {A : Type 0} (before : A → A → Bool) where
  insert : A → List A → List A
  insert x [] = x ∷ []
  insert x (y ∷ ys) = let rest = insert x ys in if before x y then x ∷ y ∷ ys else y ∷ rest

  sort : List A → List A
  sort [] = []
  sort (x ∷ xs) = insert x (sort xs)

  insert-Perm : (x : A) (ys : List A) → Perm (insert x ys) (x ∷ ys)
  unfolding insert
  insert-Perm x [] = Perm.refl (x ∷ [])
  insert-Perm x (y ∷ ys) = elim (Bool-cases (before x y)) [
    | inl b ↦ rw b (Perm.refl (x ∷ y ∷ ys))
    | inr b ↦ rw b (Perm.trans (Perm.cons y (insert-Perm x ys)) (Perm.swap x y ys))
  ]

  sort-Perm : (xs : List A) → Perm (sort xs) xs
  unfolding sort
  sort-Perm [] = Perm.refl []
  sort-Perm (x ∷ xs) = Perm.trans (insert-Perm x (sort xs)) (Perm.cons x (sort-Perm xs))

  module _ (R : A → A → Type 0) (yes_R : (x y : A) → before x y ≡ true → R x y)
      (no_R : (x y : A) → before x y ≡ false → R y x)
      (R_trans : (x y z : A) → R x y → R y z → R x z) where
    All-insert : (a x : A) (ys : List A) → R a x → All (R a) ys → All (R a) (insert x ys)
    unfolding insert
    All-insert a x [] r h = (r, tt)
    All-insert a x (y ∷ ys) r h = elim (Bool-cases (before x y)) [
      | inl b ↦ rw b (r, h)
      | inr b ↦ rw b (h.0, All-insert a x ys r h.1)
    ]

    insert-InOrder : (x : A) (ys : List A) → InOrder R ys → InOrder R (insert x ys)
    unfolding insert
    insert-InOrder x [] h = (tt, tt)
    insert-InOrder x (y ∷ ys) h = elim (Bool-cases (before x y)) [
      | inl b ↦
          rw b (
            (yes_R x y b, All-map_imp (R y) (R x) ys (λ z r. R_trans x y z (yes_R x y b) r) h.0),
            h,
          )
      | inr b ↦ rw b (All-insert y x ys (no_R x y b) h.0, insert-InOrder x ys h.1)
    ]

    sort-InOrder : (xs : List A) → InOrder R (sort xs)
    unfolding sort
    sort-InOrder [] = tt
    sort-InOrder (x ∷ xs) = insert-InOrder x (sort xs) (sort-InOrder xs)

pub by_insertion : TimeOrder
by_insertion = record {
  oldest = λ time xs. sort (λ a b. leb_ℤ (time a) (time b)) xs;
  newest = λ time xs. sort (λ a b. leb_ℤ (time b) (time a)) xs;
  oldest_perm = λ time xs. sort-Perm (λ a b. leb_ℤ (time a) (time b)) xs;
  newest_perm = λ time xs. sort-Perm (λ a b. leb_ℤ (time b) (time a)) xs;
  oldest_order = λ time xs.
      sort-InOrder (λ a b. leb_ℤ (time a) (time b)) (λ a b. time a ≤ℤ time b)
        (λ a b h. ground arith) (λ a b h. ground arith) (λ a b c h k. omega arith) xs;
  newest_order = λ time xs.
      sort-InOrder (λ a b. leb_ℤ (time b) (time a)) (λ a b. time b ≤ℤ time a)
        (λ a b h. ground arith) (λ a b h. ground arith) (λ a b c h k. omega arith) xs;
}
