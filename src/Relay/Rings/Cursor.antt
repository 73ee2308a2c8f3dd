-- ===== src/Relay/Rings/Cursor.antt =====
-- The cursor of a poll (crates/shellbell-relay/src/lib.rs, lines 897 to 911).
use shellbell.Base.{
  ℕ, ◌+◌, ◌-◌, ◌*◌, [], ◌∷◌, Option, none, some, Bool, ◌&&◌, ◌==◌, leb, if◌then◌else◌,
}
use shellbell.Base.Words.{i64_max}
use shellbell.Base.Result.{Result, ok, err}
use shellbell.Base.Text.{Text}
use shellbell.Relay.State.{AppError, bad_cursor}

-- `str::parse::<i64>` for a text of digits behind an optional sign.
unfoldable pub digits : Text → ℕ → Option ℕ
digits [] n = some n
digits (c ∷ s) n =
    let rest = digits s (n * 10 + (c - b'0')) in if leb b'0' c && leb c b'9' then rest else none

abbrev pub number : Text → Option ℕ
number [] = none
number (c ∷ s) = digits (c ∷ s) 0

abbrev keep_number : (ℕ → Bool) → Option ℕ → Option ℕ
keep_number p none = none
keep_number p (some n) = if p n then some n else none

-- A cursor is a number that is no less than zero and fits an i64; a minus sign fits zero only.
unfoldable pub parse_cursor_text : Text → Option ℕ
unfolding digits
parse_cursor_text [] = none
parse_cursor_text (c ∷ s) =
    let signed = keep_number (λ n. leb n i64_max) (number s) in
    let negative = keep_number (λ n. n == 0) (number s) in
    let unsigned = keep_number (λ n. leb n i64_max) (number (c ∷ s)) in
    if c == b'+' then signed else if c == b'-' then negative else unsigned

unfoldable pub parse_cursor : Option Text → Result AppError (Option ℕ)
unfolding parse_cursor_text
parse_cursor none = ok none
parse_cursor (some raw) = elim (parse_cursor_text raw) [
  | none ↦ err bad_cursor
  | some n ↦ ok (some n)
]
