-- ===== src/Cli/Doctor/Approves.antt =====
-- The doctor on the files that the installer left (crates/shellbell-cli/src/main.rs, `inspect_hooks`,
-- and crates/shellbell-local/src/install.rs).
use shellbell.Base.{
  ℕ, ◌≡◌, refl, ◌∙◌, ap, List, [], ◌∷◌, ◌++◌, ◌%◌, Option, some, Bool, true, false, All, count_if,
}
use shellbell.Base.Text.{Text}
use shellbell.Base.Result.{ok}
use shellbell.Activity.Session.{ShellType}
use shellbell.Install.Home.{Change, back_up, add_line, ShellFiles, hook_path}
use shellbell.Install.Setup.{place_line, after_search, install_shell}
use shellbell.Install.Undone.{startup_of, hook_is_placed, startup_lacks}
use shellbell.Install.{
  append_line_preserving_format, has_crlf, File, is_utf8, lines, is_managed, newline_of,
  append_line, source_line,
}
use shellbell.Install.Lines.{has_lf, IsLine, written, lines-written}
use shellbell.Install.RoundTrip.{append_line-written}
use shellbell.Install.Restores.{is_utf8-append_line, source_line-IsLine, source_line-is_managed}
use shellbell.Install.Found.{one_line}
use shellbell.Cli.Doctor.{fine, warning, entries_of, level_of, inspect_shell}

none_managed : (ls : List Text) → All (λ l. is_managed l ≡ false) ls → count_if is_managed ls ≡ 0
unfolding count_if
none_managed [] h = refl
none_managed (l ∷ ls) h = rw (h.0, count_if) (none_managed ls h.1)

one_managed :
    (ls : List Text) (line : Text)
    → All (λ l. is_managed l ≡ false) ls
    → is_managed line ≡ true
    → count_if is_managed (ls ++ (line ∷ [])) ≡ 1
unfolding count_if
one_managed [] line h m = rw (m, count_if) refl
one_managed (l ∷ ls) line h m = rw (h.0, count_if) (one_managed ls line h.1 m)

all-snoc :
    (P : Text → Type 0) (ls : List Text) (line : Text)
    → All P ls
    → P line
    → All P (ls ++ (line ∷ []))
all-snoc P [] line h k = (k, tt)
all-snoc P (l ∷ ls) line h k = (h.0, all-snoc P ls line h.1 k)

added_lines :
    (crlf : Bool) (ls : List Text) (hook : Text)
    → has_lf hook ≡ false
    → All (IsLine crlf) ls
    → lines (append_line (written (newline_of crlf) ls) (source_line hook))
      ≡ ls ++ (source_line hook ∷ [])
unfolding written append_line has_crlf
added_lines crlf [] hook h is = one_line (source_line hook) false (source_line-IsLine false hook h)
added_lines crlf (l ∷ ls) hook h is =
    ap lines (append_line-written crlf l ls (source_line hook) is)
    ∙ lines-written crlf ((l ∷ ls) ++ (source_line hook ∷ []))
        (all-snoc (IsLine crlf) (l ∷ ls) (source_line hook) is (source_line-IsLine crlf hook h))

entries_added :
    (crlf : Bool) (ls : List Text) (hook : Text) (mode : ℕ)
    → has_lf hook ≡ false
    → is_utf8 (source_line hook) ≡ true
    → is_utf8 (written (newline_of crlf) ls) ≡ true
    → All (IsLine crlf) ls
    → All (λ l. is_managed l ≡ false) ls
    → entries_of (
        some (record {
          bytes = append_line (written (newline_of crlf) ls) (source_line hook);
          mode = mode;
        }))
      ≡ 1
unfolding entries_of
entries_added crlf ls hook mode h k u is un =
    rw
      (
        is_utf8-append_line (written (newline_of crlf) ls) (source_line hook) u k,
        added_lines crlf ls hook h is,
      )
      (one_managed ls (source_line hook) un (source_line-is_managed hook))

entries_kept :
    (crlf : Bool) (ls : List Text) (mode : ℕ)
    → is_utf8 (written (newline_of crlf) ls) ≡ true
    → All (IsLine crlf) ls
    → All (λ l. is_managed l ≡ false) ls
    → entries_of (some (startup_of crlf ls mode)) ≡ 0
unfolding entries_of
entries_kept crlf ls mode u is un = rw (u, lines-written crlf ls is) (none_managed ls un)

-- A startup file that is valid UTF-8 and whose lines end in one kind of newline and are none of
-- them managed, and a hook whose path has no line feed and is valid UTF-8: the doctor finds the
-- shell not integrated, and after an installation for the shell, which succeeds, it finds the shell
-- in order.
pub doctor_approves_install :
    (umasked : ℕ → ℕ) (hook_content : ShellType → Text) (home : Text) (s : ShellType)
    (hook : Option File) (backups : List File) (crlf : Bool) (ls : List Text) (mode : ℕ)
    → has_lf (hook_path home s) ≡ false
    → is_utf8 (source_line (hook_path home s)) ≡ true
    → is_utf8 (written (newline_of crlf) ls) ≡ true
    → All (IsLine crlf) ls
    → All (λ l. is_managed l ≡ false) ls
    → (inspect_shell
          (record { hook = hook; startup = some (startup_of crlf ls mode); backups = backups })
        ≡ warning)
      × ((f : ShellFiles) × (report : List Change) × (install_shell false umasked hook_content home
              s
              (record { hook = hook; startup = some (startup_of crlf ls mode); backups = backups })
            ≡ (f, ok report))
          × (inspect_shell f ≡ fine))
unfolding inspect_shell level_of install_shell after_search place_line append_line_preserving_format
doctor_approves_install umasked hook_content home s hook backups crlf ls mode h k u is un =
    let path = hook_path home s in
    let (g, changes, placed) =
      hook_is_placed hook_content s hook (some (startup_of crlf ls mode)) backups in
    let with_line =
      append_line_preserving_format umasked (some (startup_of crlf ls mode)) (source_line path) in
    (
      rw (entries_kept crlf ls mode u is un) refl,
      (
        record {
          hook = some g;
          startup = some with_line;
          backups = backups ++ (startup_of crlf ls mode ∷ []);
        },
        changes ++ (back_up s ∷ add_line s ∷ []),
        rw (placed, startup_lacks crlf ls mode path u is un) refl,
        rw (entries_added crlf ls path (mode % 512) h k u is un) refl,
      ),
    )
