-- ===== src/Install/Setup.antt =====
-- `install` (crates/shellbell-local/src/install.rs, lines 50 to 134).
use shellbell.Base.{
  ℕ, List, [], ◌∷◌, ◌++◌, Option, none, some, Bool, true, false, not, ◌&&◌, if◌then◌else◌, is_some,
}
use shellbell.Base.Result.{Result, ok, err}
use shellbell.Base.Text.{Text}
use shellbell.Activity.Session.{ShellType}
use shellbell.Config.{EffectiveConfig, RawConfig, ConfigError, load}
use shellbell.Install.{
  File, InstallError, home_not_absolute, no_shell, bad_config, systemctl_failed, source_line,
  startup_contains_line, append_line_preserving_format,
}
use shellbell.Install.Home.{
  Change, create_config, write_unit, enable_service, would_enable_service, lazy_activation,
  write_hook, back_up, add_line, ShellFiles, Home, get_files, default_config_text, Outcome,
  then_shell, InstallOptions, selected_shells, hook_path, systemd_unit, is_absolute, differs,
}

-- The file of the hook.
unfoldable pub place_hook :
    Bool → (ShellType → Text) → ShellType → ShellFiles → ShellFiles × List Change
unfolding differs
place_hook dry_run hook_content shell f =
    if differs f.hook (hook_content shell)
    then (
      if dry_run
          then f
          else record f { hook = some (record { bytes = hook_content shell; mode = 384 }) },
      write_hook shell ∷ [],
    )
    else (f, [])

abbrev pub kept : Option File → List File
kept none = []
kept (some f) = f ∷ []

-- The startup file, once it is known whether the line is in it.
unfoldable pub place_line :
    Bool → (ℕ → ℕ) → Text → ShellType → ShellFiles → Bool → ShellFiles × List Change
unfolding append_line_preserving_format
place_line dry_run umasked line shell f true = (f, [])
place_line dry_run umasked line shell f false = (
  if dry_run then f else record f {
    startup = some (append_line_preserving_format umasked f.startup line);
    backups = f.backups ++ kept f.startup;
  },
  (if is_some f.startup then back_up shell ∷ [] else []) ++ (add_line shell ∷ []),
)

abbrev pub with_report : List Change → ShellFiles × List Change → Outcome ShellFiles
with_report changes (f, more) = (f, ok (changes ++ more))

-- What the search for the line gives, and the rest of the round.
unfoldable pub after_search :
    Bool
    → (ℕ → ℕ)
    → Text
    → ShellType
    → ShellFiles × List Change
    → Result InstallError Bool
    → Outcome ShellFiles
unfolding place_line
after_search dry_run umasked line shell (f, changes) (err e) = (f, err e)
after_search dry_run umasked line shell (f, changes) (ok found) =
    with_report changes (place_line dry_run umasked line shell f found)

-- One round of the loop over the shells.
unfoldable pub install_shell :
    Bool → (ℕ → ℕ) → (ShellType → Text) → Text → ShellType → ShellFiles → Outcome ShellFiles
unfolding place_hook after_search startup_contains_line
install_shell dry_run umasked hook_content home shell f =
    let line = source_line (hook_path home shell) in
    let placed = place_hook dry_run hook_content shell f in
    after_search dry_run umasked line shell placed (startup_contains_line placed.0.startup line)

unfoldable pub install_shells :
    Bool → (ℕ → ℕ) → (ShellType → Text) → Text → List ShellType → Home → List Change → Outcome Home
unfolding install_shell
install_shells dry_run umasked hook_content home [] h report = (h, ok report)
install_shells dry_run umasked hook_content home (s ∷ ss) h report =
    then_shell h s report (install_shell dry_run umasked hook_content home s (get_files h s))
      (λ h' report'. install_shells dry_run umasked hook_content home ss h' report')

-- What the installer finds of systemd: whether its user manager is usable, and whether its reload and
-- its enabling succeed.
pub record Systemd : Type 0 where
  pub available : Bool
  pub reloads : Bool
  pub enables : Bool

-- The end of `install`: the service.
unfoldable pub install_service : Systemd → InstallOptions → Home → List Change → Outcome Home
unfolding differs
install_service systemd options h report =
    let content = systemd_unit options.executable in
    let stale = differs h.unit content in
    let report' = report ++ (if stale then write_unit ∷ [] else []) in
    let h' =
      if stale && not options.dry_run
      then record h { unit = some (record { bytes = content; mode = 384 }) }
      else h in
    if not (options.manage_service && systemd.available)
    then (h, ok (report ++ (lazy_activation ∷ [])))
    else if options.dry_run
    then (h', ok (report' ++ (would_enable_service ∷ [])))
    else if systemd.reloads && systemd.enables
    then (h', ok (report' ++ (enable_service ∷ [])))
    else (h', err systemctl_failed)

abbrev pub then_service : Systemd → InstallOptions → Outcome Home → Outcome Home
then_service systemd options (h, err e) = (h, err e)
then_service systemd options (h, ok report) = install_service systemd options h report

unfoldable pub if_loads : Bool → Home → Result ConfigError EffectiveConfig → Outcome Home
if_loads dry_run h (err e) = (h, err bad_config)
if_loads dry_run h (ok config) = (if dry_run then h else record h { config_dir = true }, ok [])

abbrev pub none_of : List ShellType → Bool
none_of [] = true
none_of (s ∷ ss) = false

-- The loop over the shells, and the service.
unfoldable pub after_config :
    (ShellType → Text)
    → (ℕ → ℕ)
    → Systemd
    → InstallOptions
    → List ShellType
    → Outcome Home
    → Outcome Home
unfolding install_shells install_service
after_config hook_content umasked systemd options shells (h, err e) = (h, err e)
after_config hook_content umasked systemd options shells (h, ok report) =
    then_service systemd options
      (install_shells options.dry_run umasked hook_content options.home shells h report)

module _ (humantime : Text → Option ℕ) (toml : Text → Option RawConfig) where
  -- The configuration, and the directory of the hooks.
  unfoldable pub install_config : Bool → Home → Option (Option Text) → Outcome Home
  unfolding load if_loads
  install_config true h none = (h, ok (create_config ∷ []))
  install_config false h none = (
    record h { config = some (some (default_config_text ++ (10 ∷ []))); config_dir = true },
    ok (create_config ∷ []),
  )
  install_config dry_run h (some text) = if_loads dry_run h (load humantime toml (some text))

  unfoldable pub install :
      (ShellType → Bool)
      → (ShellType → Text)
      → (ℕ → ℕ)
      → Systemd
      → InstallOptions
      → Home
      → Outcome Home
  unfolding install_config after_config selected_shells
  install executable_on_path hook_content umasked systemd options h =
      let shells = selected_shells executable_on_path options in
      if not (is_absolute options.home)
      then (h, err home_not_absolute)
      else if none_of shells
      then (h, err no_shell)
      else after_config hook_content umasked systemd options shells
          (install_config options.dry_run h h.config)
