-- ===== src/Install/Restores.antt =====
-- The source line of a hook, and what is left of a startup file after it came and went.
use mathlib.Core.List.{append_assoc}
use shellbell.Base.{
  ℕ, zero, suc, ◌≡◌, ◌≢◌, refl, sym, ◌∙◌, ap, List, [], ◌∷◌, ◌++◌, Option, none, some, Bool, true,
  false, not, ◌&&◌, ◌||◌, leb, any, All, All-append, arith, if◌then◌else◌,
}
use shellbell.Base.Text.{Text, is_empty, strip_prefix, codes}
use shellbell.Install.{
  newline_of, append_line, without_managed, is_managed, startup_marker, source_line, shell_quote,
  escape_quotes, contains_text, is_utf8, is_utf8_from, after_lead, ends_with_lf, has_crlf,
}
use shellbell.Install.Lines.{has_lf, ends_with_cr, written, IsLine}
use shellbell.Install.RoundTrip.{append_line-written, without_managed-snoc}

has_lf-append : (a b : Text) → has_lf (a ++ b) ≡ (has_lf a || has_lf b)
unfolding any
has_lf-append [] b = refl
has_lf-append (c ∷ a) b = ground (arith, has_lf-append a b)

has_lf-escape_quotes : (a : Text) → has_lf a ≡ false → has_lf (escape_quotes a) ≡ false
unfolding any escape_quotes
has_lf-escape_quotes [] h = refl
has_lf-escape_quotes (c ∷ a) h = ground (arith, has_lf-escape_quotes a)

has_lf-source_line : (hook : Text) → has_lf hook ≡ false → has_lf (source_line hook) ≡ false
unfolding any source_line shell_quote
has_lf-source_line hook h =
    rw
      (
        has_lf-append (escape_quotes hook ++ (39 ∷ [])) (32 ∷ startup_marker),
        has_lf-append (escape_quotes hook) (39 ∷ []),
        has_lf-escape_quotes hook h,
      )
      refl

ends_with_cr-append :
    (a : Text) (c : ℕ) (b : Text) → ends_with_cr (a ++ (c ∷ b)) ≡ ends_with_cr (c ∷ b)
unfolding ends_with_cr
ends_with_cr-append [] c b = refl
ends_with_cr-append (d ∷ []) c b = refl
ends_with_cr-append (d ∷ e ∷ a) c b = ends_with_cr-append (e ∷ a) c b

before_marker : Text → Text
before_marker hook = codes "source " ++ (shell_quote hook ++ (32 ∷ []))

abbrev after_hash : Text
after_hash = codes " shellbell managed integration"

source_line-eq : (hook : Text) → source_line hook ≡ before_marker hook ++ startup_marker
unfolding source_line before_marker
source_line-eq hook = sym (
    append_assoc (codes "source ") (shell_quote hook ++ (32 ∷ [])) startup_marker
    ∙ ap (λ t. codes "source " ++ t) (append_assoc (shell_quote hook) (32 ∷ []) startup_marker))

ends_with_cr-source_line : (hook : Text) → ends_with_cr (source_line hook) ≡ false
unfolding ends_with_cr
ends_with_cr-source_line hook =
    ap ends_with_cr (source_line-eq hook)
    ∙ ends_with_cr-append (before_marker hook) 35 after_hash
    ∙ marked
  where
    marked : ends_with_cr startup_marker ≡ false
    marked = refl

pub source_line-IsLine :
    (crlf : Bool) (hook : Text) → has_lf hook ≡ false → IsLine crlf (source_line hook)
source_line-IsLine true hook h = (has_lf-source_line hook h, refl)
source_line-IsLine false hook h = (has_lf-source_line hook h, ends_with_cr-source_line hook)

strip_prefix_self : (part : Text) → strip_prefix part part ≡ some []
unfolding strip_prefix
strip_prefix_self [] = refl
strip_prefix_self (c ∷ part) = ground (arith, strip_prefix_self part)

contains_text-append :
    (a : Text) (c : ℕ) (part : Text) → contains_text (c ∷ part) (a ++ (c ∷ part)) ≡ true
unfolding contains_text
contains_text-append [] c part = rw (strip_prefix_self (c ∷ part)) refl
contains_text-append (d ∷ a) c part = ground (arith, contains_text-append a c part)

pub source_line-is_managed : (hook : Text) → is_managed (source_line hook) ≡ true
source_line-is_managed hook =
    ap (contains_text startup_marker) (source_line-eq hook)
    ∙ contains_text-append (before_marker hook) 35 after_hash

-- `String::from_utf8` accepts a text that is put together from two that it accepts.
is_utf8_from-append :
    (n low high : ℕ) (a b : Text)
    → is_utf8_from n low high a ≡ true
    → is_utf8 b ≡ true
    → is_utf8_from n low high (a ++ b) ≡ true
unfolding is_utf8 is_utf8_from
is_utf8_from-append zero low high [] [] h k = refl
is_utf8_from-append zero low high [] (c ∷ b) h k = k
is_utf8_from-append (suc n) low high [] b h k = cc
is_utf8_from-append zero low high (c ∷ a) b h k =
    lead (after_lead c) (λ n from to e. is_utf8_from-append n from to a b e k) h
  where
    lead :
        (asks : Option (ℕ × ℕ × ℕ))
        → ((n from to : ℕ)
            → is_utf8_from n from to a ≡ true
            → is_utf8_from n from to (a ++ b) ≡ true)
        → elim asks [ none ↦ false | some (n, from, to) ↦ is_utf8_from n from to a ] ≡ true
        → elim asks [ none ↦ false | some (n, from, to) ↦ is_utf8_from n from to (a ++ b) ] ≡ true
    lead none f e = cc
    lead (some (n, from, to)) f e = f n from to e
is_utf8_from-append (suc n) low high (c ∷ a) b h k =
    also (leb low c && leb c high) (is_utf8_from n 0x80 0xbf a) (is_utf8_from n 0x80 0xbf (a ++ b))
      (λ e. is_utf8_from-append n 0x80 0xbf a b e k) h
  where
    also : (p q r : Bool) → (q ≡ true → r ≡ true) → (p && q) ≡ true → (p && r) ≡ true
    also true q r f e = f e
    also false q r f e = cc

pub is_utf8-append : (a b : Text) → is_utf8 a ≡ true → is_utf8 b ≡ true → is_utf8 (a ++ b) ≡ true
unfolding is_utf8
is_utf8-append a b h k = is_utf8_from-append 0 0x80 0xbf a b h k

is_utf8-newline : (crlf : Bool) → is_utf8 (newline_of crlf) ≡ true
unfolding is_utf8 is_utf8_from after_lead
is_utf8-newline true = refl
is_utf8-newline false = refl

pub is_utf8-nil : is_utf8 [] ≡ true
unfolding is_utf8 is_utf8_from
is_utf8-nil = refl

pub is_utf8-append_line :
    (text line : Text)
    → is_utf8 text ≡ true
    → is_utf8 line ≡ true
    → is_utf8 (append_line text line) ≡ true
unfolding append_line
is_utf8-append_line text line h k = is_utf8-append text _ h (
    is_utf8-append _ (line ++ newline_of (has_crlf text))
      (separated (not (is_empty text) && not (ends_with_lf text)))
      (is_utf8-append line _ k (is_utf8-newline (has_crlf text))))
  where
    separated : (b : Bool) → is_utf8 (if b then newline_of (has_crlf text) else []) ≡ true
    separated true = is_utf8-newline (has_crlf text)
    separated false = is_utf8-nil

-- The text of a startup file whose lines end in one kind of newline, have no managed line among
-- them and are more than one empty line: after the source line of a hook is added and the managed
-- lines are removed, the text is what it was, to the byte.
pub removal_restores :
    (crlf : Bool) (ls : List Text) (hook : Text)
    → has_lf hook ≡ false
    → All (IsLine crlf) ls
    → All (λ l. is_managed l ≡ false) ls
    → ls ≢ [] ∷ []
    → without_managed (append_line (written (newline_of crlf) ls) (source_line hook))
      ≡ written (newline_of crlf) ls
unfolding append_line written has_crlf
removal_restores crlf [] hook h is un one =
    without_managed-snoc false [] (source_line hook) (source_line-IsLine false hook h, tt) tt
      (source_line-is_managed hook) one
removal_restores crlf (l ∷ ls) hook h is un one =
    ap without_managed (append_line-written crlf l ls (source_line hook) is)
    ∙ without_managed-snoc crlf (l ∷ ls) (source_line hook)
        (All-append (IsLine crlf) (l ∷ ls) _ is (source_line-IsLine crlf hook h, tt)) un
        (source_line-is_managed hook) one
