-- ===== src/Install/Removal.antt =====
-- `uninstall` (crates/shellbell-local/src/install.rs, lines 136 to 199).
use shellbell.Base.{List, [], ◌∷◌, ◌++◌, none, some, Bool, true, false, not, if◌then◌else◌}
use shellbell.Base.Result.{Result, ok, err}
use shellbell.Base.Text.{Text}
use shellbell.Activity.Session.{ShellType, bash, zsh, fish}
use shellbell.Install.{InstallError, home_not_absolute, startup_has_marker, remove_managed_lines}
use shellbell.Install.Home.{
  Change, remove_unit, remove_config, remove_data, nothing_found, back_up, remove_line, remove_hook,
  ShellFiles, Home, Outcome, then_shell, get_files, is_absolute, is_owned_service,
}
use shellbell.Install.Setup.{kept}

-- The hook.
unfoldable pub remove_hook_file : Bool → ShellType → ShellFiles → List Change → Outcome ShellFiles
remove_hook_file dry_run shell f report = elim f.hook [
  | none ↦ (f, ok report)
  | some hook ↦
      (if dry_run then f else record f { hook = none }, ok (report ++ (remove_hook shell ∷ [])))
]

-- The managed lines of a startup file that has some; the backup comes first.
unfoldable pub remove_lines : Bool → ShellType → ShellFiles → Outcome ShellFiles
unfolding remove_managed_lines
remove_lines dry_run shell f = elim f.startup [
  | none ↦ (f, ok [])
  | some startup ↦
      let report = back_up shell ∷ remove_line shell ∷ [] in
      if dry_run
      then (f, ok report)
      else (let f' = record f { backups = f.backups ++ kept f.startup } in
          elim (remove_managed_lines startup) [
            | err e ↦ (f', err e)
            | ok startup' ↦ (record f' { startup = some startup' }, ok report)
          ])
]

abbrev then_hook : Bool → ShellType → Outcome ShellFiles → Outcome ShellFiles
then_hook dry_run shell (f, err e) = (f, err e)
then_hook dry_run shell (f, ok report) = remove_hook_file dry_run shell f report

-- One round of the loop over the shells.
unfoldable pub uninstall_shell : Bool → ShellType → ShellFiles → Outcome ShellFiles
unfolding remove_lines startup_has_marker remove_hook_file
uninstall_shell dry_run shell f = elim (startup_has_marker f.startup) [
  | err e ↦ (f, err e)
  | ok marked ↦
      then_hook dry_run shell (if marked then remove_lines dry_run shell f else (f, ok []))
]

unfoldable pub uninstall_shells : Bool → List ShellType → Home → List Change → Outcome Home
unfolding uninstall_shell
uninstall_shells dry_run [] h report = (h, ok report)
uninstall_shells dry_run (s ∷ ss) h report =
    then_shell h s report (uninstall_shell dry_run s (get_files h s))
      (λ h' report'. uninstall_shells dry_run ss h' report')

unfoldable pub if_owned : Bool → Home → Result InstallError Bool → Outcome Home
if_owned dry_run h (err e) = (h, err e)
if_owned dry_run h (ok false) = (h, ok [])
if_owned dry_run h (ok true) =
    (if dry_run then h else record h { unit = none }, ok (remove_unit ∷ []))

-- The unit file, where it is one of the installer's.
unfoldable pub remove_service : Bool → Home → Outcome Home
unfolding is_owned_service if_owned
remove_service dry_run h = elim h.unit [
  | none ↦ (h, ok [])
  | some f ↦ if_owned dry_run h (is_owned_service f)
]

abbrev without_hook : ShellFiles → ShellFiles
without_hook f = record f { hook = none }

-- The two directories of a purge, each with all that is in it.
abbrev purge_config : Bool → Home → Home × List Change
purge_config dry_run h =
    if h.config_dir
    then (
      if dry_run then h else record h {
        config = none;
        config_dir = false;
        of_bash = without_hook h.of_bash;
        of_zsh = without_hook h.of_zsh;
        of_fish = without_hook h.of_fish;
      },
      remove_config ∷ [],
    )
    else (h, [])

abbrev purge_data : Bool → Home → Home × List Change
purge_data dry_run h =
    if h.data_dir
    then (if dry_run then h else record h { data_dir = false }, remove_data ∷ [])
    else (h, [])

unfoldable pub purge_all : Bool → Home → Home × List Change
purge_all dry_run h =
    let (h₁, first) = purge_config dry_run h in
    let (h₂, second) = purge_data dry_run h₁ in (h₂, first ++ second)

abbrev pub or_nothing : List Change → List Change
or_nothing [] = nothing_found ∷ []
or_nothing (c ∷ cs) = c ∷ cs

abbrev pub then_purge : Bool → Bool → Outcome Home → Outcome Home
then_purge dry_run purge (h, err e) = (h, err e)
then_purge dry_run false (h, ok report) = (h, ok (or_nothing report))
then_purge dry_run true (h, ok report) =
    let (h', more) = purge_all dry_run h in (h', ok (or_nothing (report ++ more)))

abbrev pub then_shells : Bool → Outcome Home → Outcome Home
then_shells dry_run (h, err e) = (h, err e)
then_shells dry_run (h, ok report) = uninstall_shells dry_run (bash ∷ zsh ∷ fish ∷ []) h report

-- What systemctl answers has no effect on the files or the report.
unfoldable pub uninstall : Text → Bool → Bool → Home → Outcome Home
unfolding remove_service uninstall_shells purge_all
uninstall home dry_run purge h =
    if not (is_absolute home)
    then (h, err home_not_absolute)
    else then_purge dry_run purge (then_shells dry_run (remove_service dry_run h))
