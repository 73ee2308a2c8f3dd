-- ===== src/Relay/Rings/Feed.antt =====
-- What a pull receiver gets over all its polls.
use shellbell.Base.{
  ℕ, ◌-◌, ◌≡◌, ◌≤◌, refl, sym, ◌∙◌, ap, keep_if-yes, keep_if-no, inl, inr, List, [], ◌∷◌, ◌++◌,
  true, false, leb, keep_if, length, arith, Bool-cases,
}
use shellbell.Base.Text.{Text}
use shellbell.Relay.State.{Ring}
use shellbell.Relay.Rings.{tags_match, feed_loop}

-- The identifier of the last row, or the given one where there is none.
unfoldable pub last_id : ℕ → List Ring → ℕ
last_id floor [] = floor
last_id floor (r ∷ rows) = last_id r.id rows

-- The rings that a receiver with these tags is to get.
abbrev pub wanted : List Text → List Ring → List Ring
wanted tags rows = keep_if (λ r. tags_match tags r.target_tags) rows

wanted_yes :
    (tags : List Text) (r : Ring) (rows : List Ring)
    → tags_match tags r.target_tags ≡ true
    → wanted tags (r ∷ rows) ≡ r ∷ wanted tags rows
wanted_yes tags r rows y = keep_if-yes (λ r. tags_match tags r.target_tags) r rows y

wanted_no :
    (tags : List Text) (r : Ring) (rows : List Ring)
    → tags_match tags r.target_tags ≡ false
    → wanted tags (r ∷ rows) ≡ wanted tags rows
wanted_no tags r rows n = keep_if-no (λ r. tags_match tags r.target_tags) r rows n

-- A page and its cursor cover a first part of the rows: the page is what is wanted of that part, and
-- the cursor stands at its end.
abbrev pub Covers : List Text → ℕ → List Ring → List Ring × ℕ → Type 0
Covers tags floor rows page =
    (seen : List Ring) × (rest : List Ring) × (rows ≡ seen ++ rest)
    × (page.0 ≡ wanted tags seen)
    × (page.1 ≡ last_id floor seen)

skip-Covers :
    (tags : List Text) (floor : ℕ) (r : Ring) (rows : List Ring) (page : List Ring × ℕ)
    → tags_match tags r.target_tags ≡ false
    → Covers tags r.id rows page
    → Covers tags floor (r ∷ rows) page
unfolding last_id
skip-Covers tags floor r rows page n (seen, rest, e, p, c) =
    (r ∷ seen, rest, ap (λ x. r ∷ x) e, p ∙ sym (wanted_no tags r seen n), c)

take-Covers :
    (tags : List Text) (floor : ℕ) (r : Ring) (rows : List Ring) (page : List Ring × ℕ)
    → tags_match tags r.target_tags ≡ true
    → Covers tags r.id rows page
    → Covers tags floor (r ∷ rows) (r ∷ page.0, page.1)
unfolding last_id
take-Covers tags floor r rows page y (seen, rest, e, p, c) =
    (r ∷ seen, rest, ap (λ x. r ∷ x) e, ap (λ x. r ∷ x) p ∙ sym (wanted_yes tags r seen y), c)

-- Whatever the receiver's tags and the number of rings that it asks for, a poll covers a first part
-- of the rows that it scans: the page holds all the rings of that part that the tags match, in their
-- order and no others, and the cursor is the last identifier of that part, so that no ring before the
-- cursor is left out.
pub feed_loop-Covers :
    (tags : List Text) (room floor : ℕ) (rows : List Ring)
    → Covers tags floor rows (feed_loop tags room floor rows)
unfolding feed_loop last_id keep_if
feed_loop-Covers tags room floor [] = ([], [], refl, refl, refl)
feed_loop-Covers tags room floor (r ∷ rows) = elim (Bool-cases (tags_match tags r.target_tags)) [
  | inl y ↦ rw y (elim (Bool-cases (leb room 1)) [
    | inl z ↦ rw z (r ∷ [], rows, refl, sym (wanted_yes tags r [] y), refl)
    | inr z ↦ rw z (take-Covers tags floor r rows _ y (feed_loop-Covers tags (room - 1) r.id rows))
  ])
  | inr n ↦ rw n (skip-Covers tags floor r rows _ n (feed_loop-Covers tags room r.id rows))
]

-- A page holds no more rings than were asked for, where at least one was.
pub feed_loop-le :
    (tags : List Text) (room floor : ℕ) (rows : List Ring)
    → 1 ≤ room
    → length (feed_loop tags room floor rows).0 ≤ room
unfolding feed_loop
feed_loop-le tags room floor [] h = omega arith
feed_loop-le tags room floor (r ∷ rows) h =
    ground (arith, feed_loop-le tags room r.id rows h, feed_loop-le tags (room - 1) r.id rows)
