-- ===== src/Install/RoundTrip.antt =====
-- A managed line is added to a startup file and removed again.
use mathlib.Core.List.{append_assoc, append-nil}
use shellbell.Base.{
  ◌≡◌, ◌≢◌, refl, sym, ◌∙◌, ap, List, [], ◌∷◌, ◌++◌, Bool, true, false, not, keep_if, keep_if-yes,
  keep_if-no, All, if◌then◌else◌,
}
use shellbell.Base.Text.{Text, is_empty}
use shellbell.Install.{
  has_crlf, ends_with_lf, newline_of, join, append_line, without_managed, is_managed,
}
use shellbell.Install.Lines.{
  written, IsLine, lines-written, written-snoc, has_crlf-written, ends_with_lf-append,
}

join-written :
    (newline l : Text) (ls : List Text)
    → join newline (l ∷ ls) ++ newline ≡ written newline (l ∷ ls)
unfolding join written
join-written newline l [] = ap (λ x. l ++ x) (sym (append-nil newline))
join-written newline l (m ∷ ls) =
    append_assoc l (newline ++ join newline (m ∷ ls)) newline
    ∙ ap (λ x. l ++ x)
        (append_assoc newline (join newline (m ∷ ls)) newline
          ∙ ap (λ x. newline ++ x) (join-written newline m ls))

is_empty-join :
    (crlf : Bool) (l : Text) (ls : List Text)
    → l ∷ ls ≢ [] ∷ []
    → is_empty (join (newline_of crlf) (l ∷ ls)) ≡ false
unfolding join
is_empty-join crlf [] [] h = absurd (h refl)
is_empty-join true [] (m ∷ ls) h = refl
is_empty-join false [] (m ∷ ls) h = refl
is_empty-join crlf (c ∷ l) [] h = refl
is_empty-join crlf (c ∷ l) (m ∷ ls) h = refl

ends_with_lf-written :
    (crlf : Bool) (l : Text) (ls : List Text)
    → ends_with_lf (written (newline_of crlf) (l ∷ ls)) ≡ true
unfolding ends_with_lf
ends_with_lf-written true l ls =
    rw (sym (join-written (newline_of true) l ls))
      (ends_with_lf-append (join (newline_of true) (l ∷ ls)) 13 (10 ∷ []))
ends_with_lf-written false l ls =
    rw (sym (join-written (newline_of false) l ls))
      (ends_with_lf-append (join (newline_of false) (l ∷ ls)) 10 [])

pub append_line-at_lf :
    (text line : Text)
    → ends_with_lf text ≡ true
    → append_line text line ≡ text ++ (line ++ newline_of (has_crlf text))
unfolding append_line ends_with_lf
append_line-at_lf [] line h = cc
append_line-at_lf (c ∷ text) line h = rw h refl

-- Adding a line.
pub append_line-written :
    (crlf : Bool) (l : Text) (ls : List Text) (line : Text)
    → All (IsLine crlf) (l ∷ ls)
    → append_line (written (newline_of crlf) (l ∷ ls)) line
      ≡ written (newline_of crlf) ((l ∷ ls) ++ (line ∷ []))
append_line-written crlf l ls line h =
    append_line-at_lf (written (newline_of crlf) (l ∷ ls)) line (ends_with_lf-written crlf l ls)
    ∙ rw (has_crlf-written crlf l ls h) (sym (written-snoc (newline_of crlf) (l ∷ ls) line))

drops-managed :
    (ls : List Text) (line : Text)
    → All (λ l. is_managed l ≡ false) ls
    → is_managed line ≡ true
    → keep_if (λ l. not (is_managed l)) (ls ++ (line ∷ [])) ≡ ls
unfolding keep_if
drops-managed [] line h k = keep_if-no (λ l. not (is_managed l)) line [] (rw k refl)
drops-managed (l ∷ ls) line h k =
    keep_if-yes _ l (ls ++ (line ∷ [])) (rw h.0 refl)
    ∙ ap (λ x. l ∷ x) (drops-managed ls line h.1 k)

-- What the removal makes of a written file.
without_managed-lines :
    (crlf : Bool) (l : Text) (ls : List Text)
    → All (IsLine crlf) (l ∷ ls)
    → without_managed (written (newline_of crlf) (l ∷ ls)) ≡ (
        let output = join (newline_of crlf) (keep_if (λ m. not (is_managed m)) (l ∷ ls)) in
        if not (is_empty output) then output ++ newline_of crlf else output)
unfolding without_managed
without_managed-lines crlf l ls h =
    rw (ends_with_lf-written crlf l ls, has_crlf-written crlf l ls h, lines-written crlf (l ∷ ls) h)
      refl

rejoined :
    (crlf : Bool) (ls : List Text)
    → ls ≢ [] ∷ []
    → (let output = join (newline_of crlf) ls in
        if not (is_empty output) then output ++ newline_of crlf else output)
      ≡ written (newline_of crlf) ls
unfolding join written
rejoined crlf [] h = refl
rejoined crlf (l ∷ ls) h = rw (is_empty-join crlf l ls h) (join-written (newline_of crlf) l ls)

pub without_managed-snoc :
    (crlf : Bool) (ls : List Text) (line : Text)
    → All (IsLine crlf) (ls ++ (line ∷ []))
    → All (λ l. is_managed l ≡ false) ls
    → is_managed line ≡ true
    → ls ≢ [] ∷ []
    → without_managed (written (newline_of crlf) (ls ++ (line ∷ []))) ≡ written (newline_of crlf) ls
without_managed-snoc crlf [] line h n m one =
    without_managed-lines crlf line [] h ∙ rw (drops-managed [] line n m) (rejoined crlf [] one)
without_managed-snoc crlf (l ∷ ls) line h n m one =
    without_managed-lines crlf l (ls ++ (line ∷ [])) h
    ∙ rw (drops-managed (l ∷ ls) line n m) (rejoined crlf (l ∷ ls) one)
