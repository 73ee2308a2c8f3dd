-- ===== src/Install.antt =====
-- The edits of a startup file (crates/shellbell-local/src/install.rs, lines 16 and 250 to 347). A file
-- is its bytes and its mode; the umask is an argument, as what it leaves of a mode.
pub mod DryRun
pub mod Found
pub mod Home
pub mod Lines
pub mod Removal
pub mod Restores
pub mod Setup
pub mod Twice
pub mod Undone
pub mod RoundTrip
use shellbell.Base.{
  ℕ, zero, suc, ◌%◌, List, [], ◌∷◌, ◌++◌, Option, none, some, Bool, true, false, not, ◌&&◌, ◌||◌,
  ◌==◌, leb, ltb, if◌then◌else◌, any, keep_if, is_some,
}
use shellbell.Base.Result.{Result, ok, err}
use shellbell.Base.Text.{Text, codes, text_eq, is_empty, strip_prefix}
use shellbell.Activity.Session.{ShellType, bash, zsh, fish, shell_type_display}

pub record File : Type 0 where
  pub bytes : Text
  pub mode : ℕ

abbrev pub startup_marker : Text
startup_marker = codes "# shellbell managed integration"

-- What the first byte of a character asks for: how many more bytes, and the range of the next one.
unfoldable pub after_lead : ℕ → Option (ℕ × ℕ × ℕ)
after_lead b =
    if ltb b 0x80
    then some (0, 0x80, 0xbf)
    else if leb 0xc2 b && leb b 0xdf
    then some (1, 0x80, 0xbf)
    else if b == 0xe0
    then some (2, 0xa0, 0xbf)
    else if b == 0xed
    then some (2, 0x80, 0x9f)
    else if leb 0xe1 b && leb b 0xef
    then some (2, 0x80, 0xbf)
    else if b == 0xf0
    then some (3, 0x90, 0xbf)
    else if leb 0xf1 b && leb b 0xf3
    then some (3, 0x80, 0xbf)
    else if b == 0xf4
    then some (3, 0x80, 0x8f)
    else none

-- `String::from_utf8` as a test, with as many bytes missing, the next one in a range.
unfoldable pub is_utf8_from : ℕ → ℕ → ℕ → Text → Bool
unfolding after_lead
is_utf8_from zero low high [] = true
is_utf8_from (suc n) low high [] = false
is_utf8_from (suc n) low high (b ∷ bs) =
    let rest = is_utf8_from n 0x80 0xbf bs in leb low b && leb b high && rest
is_utf8_from zero low high (b ∷ bs) = elim (after_lead b) [
  | none ↦ false
  | some (n, from, to) ↦ is_utf8_from n from to bs
]

unfoldable pub is_utf8 : Text → Bool
unfolding is_utf8_from
is_utf8 = is_utf8_from 0 0x80 0xbf

unfoldable pub starts_with_lf : Text → Bool
starts_with_lf [] = false
starts_with_lf (c ∷ cs) = c == 10

-- `windows(2).any(..)` for a carriage return and a line feed.
unfoldable pub has_crlf : Text → Bool
unfolding starts_with_lf
has_crlf [] = false
has_crlf (c ∷ cs) = (c == 13 && starts_with_lf cs) || has_crlf cs

unfoldable pub ends_with_lf : Text → Bool
ends_with_lf [] = false
ends_with_lf (c ∷ []) = c == 10
ends_with_lf (c ∷ d ∷ ds) = ends_with_lf (d ∷ ds)

abbrev pub newline_of : Bool → Text
newline_of true = 13 ∷ 10 ∷ []
newline_of false = 10 ∷ []

unfoldable pub onto_line : ℕ → List Text → List Text
onto_line c [] = (c ∷ []) ∷ []
onto_line c (l ∷ ls) = (c ∷ l) ∷ ls

-- `str::lines`: a line ends before a line feed, and before the carriage return in front of it. A
-- character in front of the lines after it, of which the first may be the end of its own line:
unfoldable pub line_step : ℕ → Bool → List Text → List Text
unfolding onto_line
line_step c at_lf rest =
    if c == 10 then [] ∷ rest else if c == 13 && at_lf then rest else onto_line c rest

unfoldable pub lines : Text → List Text
unfolding starts_with_lf line_step
lines [] = []
lines (c ∷ cs) = line_step c (starts_with_lf cs) (lines cs)

-- `str::contains`
unfoldable pub contains_text : Text → Text → Bool
unfolding strip_prefix
contains_text part [] = is_empty part
contains_text part (c ∷ cs) = is_some (strip_prefix part (c ∷ cs)) || contains_text part cs

-- `[&str]::join`
unfoldable pub join : Text → List Text → Text
join separator [] = []
join separator (l ∷ []) = l
join separator (l ∷ m ∷ ms) = l ++ (separator ++ join separator (m ∷ ms))

-- What `append_line_preserving_format` makes of the bytes, those of a missing file being empty.
unfoldable pub append_line : Text → Text → Text
unfolding has_crlf ends_with_lf
append_line existing line =
    let newline = newline_of (has_crlf existing) in
    existing
    ++ ((if not (is_empty existing) && not (ends_with_lf existing) then newline else [])
        ++ (line ++ newline))

unfoldable pub append_line_preserving_format : (ℕ → ℕ) → Option File → Text → File
unfolding append_line
append_line_preserving_format umasked none line = record {
  bytes = append_line [] line;
  mode = umasked 420;
}
append_line_preserving_format umasked (some f) line = record {
  bytes = append_line f.bytes line;
  mode = f.mode % 512;
}

-- Whether the marker of a managed line is in the line.
abbrev pub is_managed : Text → Bool
is_managed line = contains_text startup_marker line

-- What `remove_managed_lines` makes of the bytes, once they are valid UTF-8.
unfoldable pub without_managed : Text → Text
unfolding has_crlf ends_with_lf lines contains_text join
without_managed text =
    let newline = newline_of (has_crlf text) in
    let output = join newline (keep_if (λ line. not (is_managed line)) (lines text)) in
    if ends_with_lf text && not (is_empty output) then output ++ newline else output

-- `str::replace` of the single quote by a closing quote, an escaped one and an opening one.
unfoldable pub escape_quotes : Text → Text
escape_quotes [] = []
escape_quotes (c ∷ cs) =
    let rest = escape_quotes cs in if c == 39 then 39 ∷ 92 ∷ 39 ∷ 39 ∷ rest else c ∷ rest

unfoldable pub shell_quote : Text → Text
unfolding escape_quotes
shell_quote path = 39 ∷ (escape_quotes path ++ (39 ∷ []))

-- It is the same for each shell. The path's text is what `to_string_lossy` makes of it, which is UTF-8:
-- a theorem about the file that is read back has that as a hypothesis.
unfoldable pub source_line : Text → Text
unfolding shell_quote
source_line hook = codes "source " ++ (shell_quote hook ++ (32 ∷ startup_marker))

pub data InstallError : Type 0 where
  home_not_absolute no_shell bad_config not_utf8 systemctl_failed : InstallError

unfoldable pub remove_managed_lines : File → Result InstallError File
unfolding is_utf8 without_managed
remove_managed_lines f =
    if is_utf8 f.bytes
    then ok (record { bytes = without_managed f.bytes; mode = f.mode % 512 })
    else err not_utf8

unfoldable pub startup_contains_line : Option File → Text → Result InstallError Bool
unfolding is_utf8 lines
startup_contains_line none expected = ok false
startup_contains_line (some f) expected =
    if is_utf8 f.bytes then ok (any (text_eq expected) (lines f.bytes)) else err not_utf8

unfoldable pub startup_has_marker : Option File → Result InstallError Bool
unfolding is_utf8 lines contains_text
startup_has_marker none = ok false
startup_has_marker (some f) =
    if is_utf8 f.bytes then ok (any is_managed (lines f.bytes)) else err not_utf8
