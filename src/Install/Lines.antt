-- ===== src/Install/Lines.antt =====
-- Lines and newlines: what the lines of a text are, once it is written line by line.
use shellbell.Base.{
  ℕ, ◌≡◌, All, refl, sym, ◌∙◌, ap, List, [], ◌∷◌, ◌++◌, Bool, true, false, not, ◌&&◌, ◌==◌, any,
  arith,
}
use mathlib.Core.List.{append_assoc, append-nil}
use shellbell.Base.Text.{Text}
use shellbell.Install.{
  lines, line_step, onto_line, starts_with_lf, has_crlf, ends_with_lf, newline_of,
}

abbrev pub has_lf : Text → Bool
has_lf l = any (λ c. c == 10) l

unfoldable pub ends_with_cr : Text → Bool
ends_with_cr [] = false
ends_with_cr (c ∷ []) = c == 13
ends_with_cr (c ∷ d ∷ ds) = ends_with_cr (d ∷ ds)

-- Each line with a newline after it.
unfoldable pub written : Text → List Text → Text
written newline [] = []
written newline (l ∷ ls) = l ++ (newline ++ written newline ls)

-- A line of a file with this newline: no line feed is in it, and a bare line feed does not follow a
-- carriage return.
abbrev pub IsLine : Bool → Text → Type 0
IsLine crlf l = (has_lf l ≡ false) × ((not crlf && ends_with_cr l) ≡ false)

-- A line, its newline and a text after it.
pub lines-line :
    (crlf : Bool) (l t : Text) → IsLine crlf l → lines (l ++ (newline_of crlf ++ t)) ≡ l ∷ lines t
unfolding lines line_step starts_with_lf onto_line ends_with_cr any
lines-line true [] t h = refl
lines-line false [] t h = refl
lines-line true (c ∷ []) t h = ground arith
lines-line false (c ∷ []) t h = ground arith
lines-line crlf (c ∷ d ∷ l) t h = ground (arith, lines-line crlf (d ∷ l) t)

pub lines-written :
    (crlf : Bool) (ls : List Text)
    → All (IsLine crlf) ls
    → lines (written (newline_of crlf) ls) ≡ ls
unfolding lines written
lines-written crlf [] h = refl
lines-written crlf (l ∷ ls) h =
    lines-line crlf l (written (newline_of crlf) ls) h.0
    ∙ ap (λ x. l ∷ x) (lines-written crlf ls h.1)

pub written-snoc :
    (newline : Text) (ls : List Text) (l : Text)
    → written newline (ls ++ l ∷ []) ≡ written newline ls ++ (l ++ newline)
unfolding written
written-snoc newline [] l = ap (λ x. l ++ x) (append-nil newline)
written-snoc newline (m ∷ ls) l = rw (written-snoc newline ls l) (
    sym (
      append_assoc m (newline ++ written newline ls) (l ++ newline)
      ∙ ap (λ x. m ++ x) (append_assoc newline (written newline ls) (l ++ newline))))

has_crlf-line : (l t : Text) → IsLine false l → has_crlf (l ++ 10 ∷ t) ≡ has_crlf t
unfolding has_crlf starts_with_lf ends_with_cr any
has_crlf-line [] t h = refl
has_crlf-line (c ∷ []) t h = ground arith
has_crlf-line (c ∷ d ∷ l) t h = ground (arith, has_crlf-line (d ∷ l) t)

has_crlf-written_lf :
    (ls : List Text) → All (IsLine false) ls → has_crlf (written (newline_of false) ls) ≡ false
unfolding has_crlf written
has_crlf-written_lf [] h = refl
has_crlf-written_lf (l ∷ ls) h =
    rw (has_crlf-line l (written (newline_of false) ls) h.0) (has_crlf-written_lf ls h.1)

has_crlf-crlf : (l t : Text) → has_crlf (l ++ 13 ∷ 10 ∷ t) ≡ true
unfolding has_crlf starts_with_lf
has_crlf-crlf [] t = refl
has_crlf-crlf (c ∷ l) t = ground (arith, has_crlf-crlf l t)

-- The newline of a text that is not empty is found again.
pub has_crlf-written :
    (crlf : Bool) (l : Text) (ls : List Text)
    → All (IsLine crlf) (l ∷ ls)
    → has_crlf (written (newline_of crlf) (l ∷ ls)) ≡ crlf
unfolding written
has_crlf-written true l ls h = rw (has_crlf-crlf l (written (newline_of true) ls)) refl
has_crlf-written false l ls h = has_crlf-written_lf (l ∷ ls) h

pub ends_with_lf-append :
    (a : Text) (c : ℕ) (b : Text) → ends_with_lf (a ++ c ∷ b) ≡ ends_with_lf (c ∷ b)
unfolding ends_with_lf
ends_with_lf-append [] c b = refl
ends_with_lf-append (d ∷ []) c b = refl
ends_with_lf-append (d ∷ e ∷ a) c b = ends_with_lf-append (e ∷ a) c b
