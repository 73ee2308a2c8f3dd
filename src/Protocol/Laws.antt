-- ===== src/Protocol/Laws.antt =====
-- What the validators accept and return.
use shellbell.Base.{
  ◌≡◌, ◌≤◌, refl, inl, inr, List, [], ◌∷◌, Bool, true, false, ◌||◌, any, length, arith, Bool-cases,
  ◌↔◌, all, ◌&&◌,
}
use mathlib.Core.Path.{subst}
use shellbell.Base.Result.{ok, err}
use shellbell.Base.Text.{Text, text_eq, text_lt, is_empty, is_control, trim, text_eq_iff}
use shellbell.Protocol.{
  unknown_tag, allowed_tags, contains, set_insert, collect_tags, validate_tags, validate_name,
  name_max,
}

-- A name is accepted exactly when its trimmed text is not empty, has at most 64 characters and no
-- control character, and the result is the trimmed text.
pub validate_name_iff :
    (value name : Text)
    → (validate_name value ≡ ok name) ↔ (
        (trim value ≡ name)
        × (is_empty name ≡ false)
        × (length name ≤ name_max)
        × (any is_control name ≡ false))
unfolding validate_name
validate_name_iff value name = (λ h. ground arith, λ h. ground (arith, h.0, h.1))

-- What an insertion adds.
set_insert-contains :
    (t u : Text) (us : List Text) → contains (set_insert t us) u ≡ (text_eq u t || contains us u)
unfolding set_insert any
set_insert-contains t u [] = refl
set_insert-contains t u (v ∷ us) = ground (arith, set_insert-contains t u us, text_eq_iff t v)

collect_tags_ok :
    (values unique : List Text)
    → all (contains allowed_tags) values ≡ true
    → (tags : List Text) × (collect_tags unique values ≡ ok tags)
      × ((u : Text) → contains tags u ≡ (contains values u || contains unique u))
unfolding collect_tags all any
collect_tags_ok [] unique h = (unique, refl, λ u. refl)
collect_tags_ok (v ∷ values) unique h =
    let (first, others) = and_true (contains allowed_tags v) _ h in
    let (tags, e, same) = collect_tags_ok values (set_insert v unique) others in
    (tags, rw first e, λ u. ground (arith, same u, set_insert-contains v u unique))
  where
    and_true : (a b : Bool) → (a && b) ≡ true → (a ≡ true) × (b ≡ true)
    and_true a b k = (ground arith, ground arith)

collect_tags_err :
    (values unique : List Text)
    → all (contains allowed_tags) values ≡ false
    → collect_tags unique values ≡ err unknown_tag
unfolding collect_tags all
collect_tags_err [] unique h = cc
collect_tags_err (v ∷ values) unique h = elim (Bool-cases (contains allowed_tags v)) [
  | inl a ↦ rw a (collect_tags_err values (set_insert v unique) (rw a at h))
  | inr n ↦ rw n refl
]

text_lt_total : (t u : Text) → text_lt t u ≡ false → text_eq t u ≡ false → text_lt u t ≡ true
unfolding text_lt text_eq
text_lt_total [] [] h k = cc
text_lt_total [] (b ∷ u) h k = cc
text_lt_total (a ∷ t) [] h k = refl
text_lt_total (a ∷ t) (b ∷ u) h k = ground (arith, text_lt_total t u)

-- Each text is below the next.
abbrev pub IsRising : List Text → Type 0
IsRising [] = Unit
IsRising (t ∷ []) = Unit
IsRising (t ∷ u ∷ us) = (text_lt t u ≡ true) × IsRising (u ∷ us)

set_insert-IsRising_under :
    (w t : Text) (us : List Text)
    → text_lt w t ≡ true
    → IsRising (w ∷ us)
    → IsRising (w ∷ set_insert t us)
unfolding set_insert
set_insert-IsRising_under w t [] h r = (h, tt)
set_insert-IsRising_under w t (u ∷ us) h r =
    ground (arith, text_lt_total t u, set_insert-IsRising_under u t us, h, r)

set_insert-IsRising : (t : Text) (us : List Text) → IsRising us → IsRising (set_insert t us)
unfolding set_insert
set_insert-IsRising t [] r = tt
set_insert-IsRising t (u ∷ us) r =
    ground (arith, text_lt_total t u, set_insert-IsRising_under u t us, r)

collect_tags-IsRising :
    (values unique tags : List Text)
    → collect_tags unique values ≡ ok tags
    → IsRising unique
    → IsRising tags
unfolding collect_tags
collect_tags-IsRising [] unique tags h r = subst IsRising (cc) r
collect_tags-IsRising (v ∷ values) unique tags h r = elim (Bool-cases (contains allowed_tags v)) [
  | inl a ↦
      collect_tags-IsRising values (set_insert v unique) tags (rw a at h)
        (set_insert-IsRising v unique r)
  | inr n ↦ absurd (cc (rw n at h))
]

-- Tags are accepted exactly when all of them are known; the result has the same tags, each once, in
-- rising order, and one unknown tag makes the answer `unknown_tag`.
pub validate_tags_result :
    (values : List Text)
    → (all (contains allowed_tags) values ≡ true
        → (tags : List Text) × (validate_tags values ≡ ok tags)
          × ((u : Text) → contains tags u ≡ contains values u)
          × IsRising tags)
      × (all (contains allowed_tags) values ≡ false → validate_tags values ≡ err unknown_tag)
unfolding validate_tags any
validate_tags_result values = (
  λ h.
      let (tags, e, same) = collect_tags_ok values [] h in
      (tags, e, λ u. ground (arith, same u), collect_tags-IsRising values [] tags e tt),
  λ h. collect_tags_err values [] h,
)
