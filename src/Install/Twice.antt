-- ===== src/Install/Twice.antt =====
-- An installation that is repeated, for one shell.
use shellbell.Base.{
  ℕ, ◌≡◌, refl, sym, inl, inr, List, [], ◌++◌, Option, none, some, Bool, true, false, Bool-cases,
  any,
}
use mathlib.Core.Path.{subst}
use shellbell.Base.Result.{ok}
use shellbell.Base.Text.{Text, text_eq, text_eq_refl}
use shellbell.Activity.Session.{ShellType}
use shellbell.Install.{
  File, startup_contains_line, source_line, is_utf8, lines, append_line_preserving_format,
}
use shellbell.Install.Home.{Change, ShellFiles, hook_path, differs}
use shellbell.Install.Lines.{has_lf}
use shellbell.Install.Setup.{place_hook, place_line, after_search, install_shell}
use shellbell.Install.Restores.{is_utf8-nil, is_utf8-append_line}
use shellbell.Install.Found.{source_line_found}

-- The file is missing or valid UTF-8.
abbrev pub IsReadable : Option File → Type 0
IsReadable none = Unit
IsReadable (some f) = is_utf8 f.bytes ≡ true

-- The hook is in place, and the startup file has its line.
abbrev pub IsInstalled : Text → Text → ShellFiles → Type 0
IsInstalled content line f =
    (differs f.hook content ≡ false) × (startup_contains_line f.startup line ≡ ok true)

installed_stays :
    (umasked : ℕ → ℕ) (hook_content : ShellType → Text) (home : Text) (s : ShellType)
    (f : ShellFiles) (dry_run : Bool)
    → IsInstalled (hook_content s) (source_line (hook_path home s)) f
    → install_shell dry_run umasked hook_content home s f ≡ (f, ok [])
unfolding install_shell place_hook after_search place_line
installed_stays umasked hook_content home s f dry_run (placed, found) = rw (placed, found) refl

pub place_hook_placed :
    (hook_content : ShellType → Text) (s : ShellType) (f : ShellFiles)
    → (differs (place_hook false hook_content s f).0.hook (hook_content s) ≡ false)
      × ((place_hook false hook_content s f).0.startup ≡ f.startup)
unfolding place_hook differs
place_hook_placed hook_content s f = elim (Bool-cases (differs f.hook (hook_content s))) [
  | inl a ↦ rw (a, text_eq_refl (hook_content s)) (refl, refl)
  | inr n ↦ rw n (n, refl)
]

append_line_found :
    (umasked : ℕ → ℕ) (startup : Option File) (hook : Text)
    → has_lf hook ≡ false
    → is_utf8 (source_line hook) ≡ true
    → IsReadable startup
    → startup_contains_line
        (some (append_line_preserving_format umasked startup (source_line hook)))
        (source_line hook)
      ≡ ok true
unfolding append_line_preserving_format startup_contains_line
append_line_found umasked none hook h u r =
    rw (is_utf8-append_line [] (source_line hook) is_utf8-nil u, source_line_found [] hook h) refl
append_line_found umasked (some f) hook h u r =
    rw (is_utf8-append_line f.bytes (source_line hook) r u, source_line_found f.bytes hook h) refl

pub searched :
    (startup : Option File) (line : Text)
    → IsReadable startup
    → (b : Bool) × (startup_contains_line startup line ≡ ok b)
unfolding startup_contains_line
searched none line r = (false, refl)
searched (some f) line r = (any (text_eq line) (lines f.bytes), rw r refl)

line_placed :
    (umasked : ℕ → ℕ) (content hook : Text) (s : ShellType) (g : ShellFiles) (changes : List Change)
    (b : Bool)
    → has_lf hook ≡ false
    → is_utf8 (source_line hook) ≡ true
    → IsReadable g.startup
    → differs g.hook content ≡ false
    → startup_contains_line g.startup (source_line hook) ≡ ok b
    → (f : ShellFiles) × (report : List Change) × (after_search false umasked
          (source_line hook)
          s
          (g, changes)
          (ok b)
        ≡ (f, ok report))
      × IsInstalled content (source_line hook) f
unfolding after_search place_line
line_placed umasked content hook s g changes true h u r placed found =
    (g, changes ++ [], refl, (placed, found))
line_placed umasked content hook s g changes false h u r placed found =
    (_, _, refl, (placed, append_line_found umasked g.startup hook h u r))

-- Where the startup file of a shell is missing or valid UTF-8, the path of the hook has no line
-- feed, and the line that loads the hook is valid UTF-8: the installation for the shell succeeds,
-- and after it another one, also a dry run, changes nothing and has nothing to report.
pub install_shell_twice :
    (umasked : ℕ → ℕ) (hook_content : ShellType → Text) (home : Text) (s : ShellType)
    (f : ShellFiles)
    → has_lf (hook_path home s) ≡ false
    → is_utf8 (source_line (hook_path home s)) ≡ true
    → IsReadable f.startup
    → (f' : ShellFiles) × (report : List Change) × (install_shell false umasked hook_content home s
          f
        ≡ (f', ok report))
      × ((dry_run : Bool) → install_shell dry_run umasked hook_content home s f' ≡ (f', ok []))
unfolding install_shell
install_shell_twice umasked hook_content home s f h u r =
    let (placed, same) = place_hook_placed hook_content s f in
    let p = place_hook false hook_content s f in
    let r' = subst IsReadable (sym same) r in
    let (b, found) = searched p.0.startup (source_line (hook_path home s)) r' in
    let (f', report, e, installed) =
      line_placed umasked (hook_content s) (hook_path home s) s p.0 p.1 b h u r' placed found in
    (
      f',
      report,
      rw found e,
      λ dry_run. installed_stays umasked hook_content home s f' dry_run installed,
    )
