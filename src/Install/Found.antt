-- ===== src/Install/Found.antt =====
-- A source line that was added is found again, whatever was in the file.
use mathlib.Core.List.{append_assoc, append-nil}
use shellbell.Base.{
  ℕ, ◌≡◌, refl, sym, ◌∙◌, ap, inl, inr, List, [], ◌∷◌, ◌++◌, Bool, true, false, ◌&&◌, ◌||◌, ◌==◌,
  any, arith, Bool-cases,
}
use shellbell.Base.Text.{Text, text_eq, text_eq_refl}
use shellbell.Install.{
  lines, newline_of, append_line, source_line, onto_line, line_step, starts_with_lf, ends_with_lf,
  has_crlf,
}
use shellbell.Install.Lines.{has_lf, IsLine, lines-line, ends_with_lf-append}
use shellbell.Install.RoundTrip.{append_line-at_lf}
use shellbell.Install.Restores.{source_line-IsLine}

line_step-cons :
    (c : ℕ) (b : Bool) (m : Text) (ms : List Text)
    → (l : Text) × (ls : List Text) × (line_step c b (m ∷ ms) ≡ l ∷ ls)
unfolding line_step onto_line
line_step-cons c b m ms = elim (Bool-cases (c == 10)) [
  | inl a ↦ ([], m ∷ ms, rw a refl)
  | inr n ↦ elim (Bool-cases (c == 13 && b)) [
    | inl a ↦ (m, ms, rw (n, a) refl)
    | inr n' ↦ (c ∷ m, ms, rw (n, n') refl)
  ]
]

line_step-last : (c : ℕ) → (l : Text) × (line_step c false [] ≡ l ∷ [])
unfolding line_step onto_line
line_step-last c = elim (Bool-cases (c == 10)) [
  | inl a ↦ ([], rw a refl)
  | inr n ↦ (c ∷ [], ground arith)
]

lines-cons : (c : ℕ) (cs : Text) → (l : Text) × (ls : List Text) × (lines (c ∷ cs) ≡ l ∷ ls)
unfolding lines
lines-cons c [] = let (l, e) = line_step-last c in (l, [], e)
lines-cons c (d ∷ ds) =
    let (m, ms, e) = lines-cons d ds in
    let (l, ls, e') = line_step-cons c (starts_with_lf (d ∷ ds)) m ms in
    (l, ls, ap (line_step c (starts_with_lf (d ∷ ds))) e ∙ e')

line_step-append :
    (c : ℕ) (at_lf : Bool) (m : Text) (ms b : List Text)
    → line_step c at_lf ((m ∷ ms) ++ b) ≡ line_step c at_lf (m ∷ ms) ++ b
unfolding line_step onto_line
line_step-append c at_lf m ms b = ground arith

lines-append : (t b : Text) → ends_with_lf t ≡ true → lines (t ++ b) ≡ lines t ++ lines b
unfolding lines ends_with_lf line_step
lines-append [] b h = cc
lines-append (c ∷ []) b h = at_lf c (starts_with_lf b) (lines b) h
  where
    at_lf :
        (c : ℕ) (b : Bool) (ls : List Text)
        → (c == 10) ≡ true
        → line_step c b ls ≡ line_step c false [] ++ ls
    at_lf c b ls h = rw h refl
lines-append (c ∷ d ∷ t) b h =
    let (m, ms, e) = lines-cons d t in
    ap (line_step c (starts_with_lf (d ∷ t))) (lines-append (d ∷ t) b h ∙ ap (λ x. x ++ lines b) e)
    ∙ line_step-append c (starts_with_lf (d ∷ t)) m ms (lines b)
    ∙ ap (λ x. line_step c (starts_with_lf (d ∷ t)) x ++ lines b) (sym e)

any-append : (p : Text → Bool) (a b : List Text) → any p (a ++ b) ≡ (any p a || any p b)
unfolding any
any-append p [] b = refl
any-append p (x ∷ a) b = ground (arith, any-append p a b)

-- A line on its own.
pub one_line :
    (line : Text) (crlf : Bool) → IsLine crlf line → lines (line ++ newline_of crlf) ≡ line ∷ []
unfolding lines
one_line line crlf is =
    ap (λ t. lines (line ++ t)) (sym (append-nil (newline_of crlf))) ∙ lines-line crlf line [] is

found-after :
    (t line : Text) (crlf : Bool)
    → ends_with_lf t ≡ true
    → IsLine crlf line
    → any (text_eq line) (lines (t ++ (line ++ newline_of crlf))) ≡ true
unfolding any lines
found-after t line crlf h is =
    ap (any (text_eq line)) (lines-append t (line ++ newline_of crlf) h)
    ∙ any-append (text_eq line) (lines t) (lines (line ++ newline_of crlf))
    ∙ rw (one_line line crlf is, text_eq_refl line) (or_true (any (text_eq line) (lines t)))
  where
    or_true : (b : Bool) → (b || true) ≡ true
    or_true true = refl
    or_true false = refl

append_line-no_lf :
    (c : ℕ) (text line : Text)
    → ends_with_lf (c ∷ text) ≡ false
    → append_line (c ∷ text) line
      ≡ ((c ∷ text) ++ newline_of (has_crlf (c ∷ text)))
        ++ (line ++ newline_of (has_crlf (c ∷ text)))
unfolding append_line
append_line-no_lf c text line h =
    rw h (sym (append_assoc (c ∷ text) (newline_of (has_crlf (c ∷ text))) _))

ends_with_lf-newline : (t : Text) (crlf : Bool) → ends_with_lf (t ++ newline_of crlf) ≡ true
unfolding ends_with_lf
ends_with_lf-newline t true = ends_with_lf-append t 13 (10 ∷ [])
ends_with_lf-newline t false = ends_with_lf-append t 10 []

-- Whatever is in the startup file: after the source line of a hook is added, it is one of the
-- lines, so that a second installation does not add it again.
pub source_line_found :
    (text hook : Text)
    → has_lf hook ≡ false
    → any (text_eq (source_line hook)) (lines (append_line text (source_line hook))) ≡ true
unfolding append_line lines any
source_line_found [] hook h =
    rw
      (
        one_line (source_line hook) false (source_line-IsLine false hook h),
        text_eq_refl (source_line hook),
      )
      refl
source_line_found (c ∷ text) hook h = elim (Bool-cases (ends_with_lf (c ∷ text))) [
  | inl a ↦
      ap found (append_line-at_lf (c ∷ text) (source_line hook) a)
      ∙ found-after (c ∷ text) (source_line hook) crlf a (source_line-IsLine crlf hook h)
  | inr n ↦
      ap found (append_line-no_lf c text (source_line hook) n)
      ∙ found-after ((c ∷ text) ++ newline_of crlf) (source_line hook) crlf
          (ends_with_lf-newline (c ∷ text) crlf) (source_line-IsLine crlf hook h)
]
  where
    crlf : Bool
    crlf = has_crlf (c ∷ text)

    found : Text → Bool
    found t = any (text_eq (source_line hook)) (lines t)
