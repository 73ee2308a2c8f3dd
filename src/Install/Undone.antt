-- ===== src/Install/Undone.antt =====
-- An installation that is undone, for one shell.
use shellbell.Base.{
  ℕ, ◌%◌, ◌≡◌, ◌≢◌, refl, sym, ◌∙◌, inl, inr, List, [], ◌∷◌, ◌++◌, Option, none, some, Bool, true,
  false, Bool-cases, any, All, ◌≤◌, arith,
}
use mathlib.Core.Bool.{true≢false}
use shellbell.Base.Result.{ok}
use shellbell.Base.Text.{Text, text_eq, text_eq_iff}
use shellbell.Activity.Session.{ShellType}
use shellbell.Install.{
  File, startup_contains_line, source_line, is_utf8, append_line, append_line_preserving_format,
  remove_managed_lines, startup_has_marker, is_managed, newline_of,
}
use shellbell.Install.Home.{
  Change, back_up, add_line, remove_line, remove_hook, write_hook, ShellFiles, hook_path, differs,
}
use shellbell.Install.Lines.{has_lf, IsLine, written, lines-written}
use shellbell.Install.Setup.{place_hook, place_line, after_search, install_shell}
use shellbell.Install.Removal.{uninstall_shell, remove_lines, remove_hook_file}
use shellbell.Install.Restores.{is_utf8-append_line, removal_restores, source_line-is_managed}
use shellbell.Install.Found.{source_line_found}

-- A line that is in a list of lines, and managed.
any_managed :
    (line : Text) (ls : List Text)
    → is_managed line ≡ true
    → any (text_eq line) ls ≡ true
    → any is_managed ls ≡ true
unfolding any
any_managed line [] m h = cc
any_managed line (l ∷ ls) m h = ground (arith, text_eq_iff line l, any_managed line ls m)

not_managed : (ls : List Text) → All (λ l. is_managed l ≡ false) ls → any is_managed ls ≡ false
unfolding any
not_managed [] h = refl
not_managed (l ∷ ls) h = rw h.0 (not_managed ls h.1)

-- The source line is not one of these.
not_found :
    (line : Text) (ls : List Text)
    → is_managed line ≡ true
    → All (λ l. is_managed l ≡ false) ls
    → any (text_eq line) ls ≡ false
not_found line ls m un = elim (Bool-cases (any (text_eq line) ls)) [
  | inr n ↦ n
  | inl a ↦ absurd (true≢false (sym (any_managed line ls m a) ∙ not_managed ls un))
]

-- A startup file of these lines.
abbrev pub startup_of : Bool → List Text → ℕ → File
startup_of crlf ls mode = record { bytes = written (newline_of crlf) ls; mode = mode }

pub hook_is_placed :
    (hook_content : ShellType → Text) (s : ShellType) (hook startup : Option File)
    (backups : List File)
    → (g : File) × (changes : List Change) × (place_hook false hook_content s
          (record { hook = hook; startup = startup; backups = backups })
        ≡ (record { hook = some g; startup = startup; backups = backups }, changes))
unfolding place_hook differs
hook_is_placed hook_content s none startup backups = (_, _, refl)
hook_is_placed hook_content s (some g) startup backups =
    elim (Bool-cases (text_eq g.bytes (hook_content s))) [
      | inl a ↦ (g, [], rw a refl)
      | inr n ↦ (record { bytes = hook_content s; mode = 384 }, write_hook s ∷ [], rw n refl)
    ]

pub startup_lacks :
    (crlf : Bool) (ls : List Text) (mode : ℕ) (hook : Text)
    → is_utf8 (written (newline_of crlf) ls) ≡ true
    → All (IsLine crlf) ls
    → All (λ l. is_managed l ≡ false) ls
    → startup_contains_line (some (startup_of crlf ls mode)) (source_line hook) ≡ ok false
unfolding startup_contains_line
startup_lacks crlf ls mode hook u is un =
    rw
      (
        u,
        lines-written crlf ls is,
        not_found (source_line hook) ls (source_line-is_managed hook) un,
      )
      refl

line_is_marked :
    (text hook : Text) (mode : ℕ)
    → has_lf hook ≡ false
    → is_utf8 text ≡ true
    → is_utf8 (source_line hook) ≡ true
    → startup_has_marker
        (some (record { bytes = append_line text (source_line hook); mode = mode }))
      ≡ ok true
unfolding startup_has_marker
line_is_marked text hook mode h u k =
    rw
      (
        is_utf8-append_line text (source_line hook) u k,
        any_managed (source_line hook) _ (source_line-is_managed hook)
            (source_line_found text hook h),
      )
      refl

line_is_removed :
    (crlf : Bool) (ls : List Text) (mode : ℕ) (hook : Text)
    → has_lf hook ≡ false
    → is_utf8 (source_line hook) ≡ true
    → is_utf8 (written (newline_of crlf) ls) ≡ true
    → All (IsLine crlf) ls
    → All (λ l. is_managed l ≡ false) ls
    → ls ≢ [] ∷ []
    → mode ≤ 511
    → remove_managed_lines (record {
      bytes = append_line (written (newline_of crlf) ls) (source_line hook);
      mode = mode % 512;
    })
      ≡ ok (startup_of crlf ls mode)
unfolding remove_managed_lines
line_is_removed crlf ls mode hook h k u is un one small =
    rw
      (
        is_utf8-append_line (written (newline_of crlf) ls) (source_line hook) u k,
        removal_restores crlf ls hook h is un one,
        same_mode,
      )
      refl
  where
    same_mode : mode % 512 % 512 ≡ mode
    same_mode = omega (arith, small)

uninstall_marked :
    (s : ShellType) (g startup startup' : File) (backups : List File)
    → startup_has_marker (some startup) ≡ ok true
    → remove_managed_lines startup ≡ ok startup'
    → uninstall_shell false s (record { hook = some g; startup = some startup; backups = backups })
      ≡ (
        record { hook = none; startup = some startup'; backups = backups ++ (startup ∷ []) },
        ok (back_up s ∷ remove_line s ∷ remove_hook s ∷ []),
      )
unfolding uninstall_shell remove_lines remove_hook_file
uninstall_marked s g startup startup' backups marked removed =
    rw (marked, removed, uninstall_shell, remove_lines) refl

-- A hook whose path has no line feed and whose line for the startup file is valid UTF-8, and a
-- startup file that is valid UTF-8 with a mode of permission bits, whose lines end in one kind of
-- newline, are none of them managed and are more than one empty line: an installation for its shell
-- and then a removal both succeed, and the startup file is what it was. The hook is gone, and the
-- file is in the backups as it was before each of the two.
pub uninstall_undoes_install :
    (umasked : ℕ → ℕ) (hook_content : ShellType → Text) (home : Text) (s : ShellType)
    (hook : Option File) (backups : List File) (crlf : Bool) (ls : List Text) (mode : ℕ)
    → has_lf (hook_path home s) ≡ false
    → is_utf8 (source_line (hook_path home s)) ≡ true
    → is_utf8 (written (newline_of crlf) ls) ≡ true
    → All (IsLine crlf) ls
    → All (λ l. is_managed l ≡ false) ls
    → ls ≢ [] ∷ []
    → mode ≤ 511
    → (f : ShellFiles) × (first second : List Change) × (with_line : File) × (install_shell false
          umasked hook_content home s
          (record { hook = hook; startup = some (startup_of crlf ls mode); backups = backups })
        ≡ (f, ok first))
      × (f.startup ≡ some with_line)
      × (uninstall_shell false s f ≡ (
        record {
          hook = none;
          startup = some (startup_of crlf ls mode);
          backups = (backups ++ (startup_of crlf ls mode ∷ [])) ++ (with_line ∷ []);
        },
        ok second,
      ))
unfolding install_shell after_search place_line append_line_preserving_format
uninstall_undoes_install umasked hook_content home s hook backups crlf ls mode h k u is un one
      small =
    let path = hook_path home s in
    let text = written (newline_of crlf) ls in
    let (g, changes, placed) =
      hook_is_placed hook_content s hook (some (startup_of crlf ls mode)) backups in
    let with_line =
      append_line_preserving_format umasked (some (startup_of crlf ls mode)) (source_line path) in
    (
      record {
        hook = some g;
        startup = some with_line;
        backups = backups ++ (startup_of crlf ls mode ∷ []);
      },
      changes ++ (back_up s ∷ add_line s ∷ []),
      back_up s ∷ remove_line s ∷ remove_hook s ∷ [],
      with_line,
      rw (placed, startup_lacks crlf ls mode path u is un) refl,
      refl,
      uninstall_marked s g with_line (startup_of crlf ls mode)
          (backups ++ (startup_of crlf ls mode ∷ [])) (line_is_marked text path (mode % 512) h u k)
          (line_is_removed crlf ls mode path h k u is un one small),
    )
