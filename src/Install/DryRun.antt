-- ===== src/Install/DryRun.antt =====
-- A dry run changes nothing.
use shellbell.Base.{
  ℕ, ◌≡◌, refl, sym, ◌∙◌, ap, inl, inr, List, [], ◌∷◌, ◌++◌, Option, none, some, Bool, true, false,
  Bool-cases, arith,
}
use mathlib.Core.Path.{subst}
use shellbell.Base.Result.{Result, ok, err}
use shellbell.Base.Text.{Text}
use shellbell.Activity.Session.{ShellType, bash, zsh, fish}
use shellbell.Config.{EffectiveConfig, RawConfig, ConfigError, load}
use shellbell.Install.{File, InstallError, startup_contains_line, source_line}
use shellbell.Install.Home.{
  Change, ShellFiles, Home, get_files, set_files, Outcome, then_shell, InstallOptions, hook_path,
  is_owned_service, differs, is_absolute, selected_shells,
}
use shellbell.Install.Setup.{
  after_search, if_loads, after_config, then_service, none_of, place_hook, place_line,
  install_shell, install_shells, install_service, install_config, install, Systemd,
}
use shellbell.Install.Removal.{
  if_owned, then_purge, then_shells, remove_hook_file, remove_lines, uninstall_shell,
  uninstall_shells, remove_service, purge_all, uninstall,
}

-- What is written back as it was read.
pub set_files_same : (h : Home) (s : ShellType) → set_files h s (get_files h s) ≡ h
set_files_same h bash = refl
set_files_same h zsh = refl
set_files_same h fish = refl

-- A part of a dry run on the files of one shell, and a rest that is a dry run, are one together.
then_shell_same :
    (h : Home) (s : ShellType) (report : List Change) (o : Outcome ShellFiles)
    (next : Home → List Change → Outcome Home)
    → o.0 ≡ get_files h s
    → ((r : List Change) → (next h r).0 ≡ h)
    → (then_shell h s report o next).0 ≡ h
then_shell_same h s report (f, err e) next same rest = ap (set_files h s) same ∙ set_files_same h s
then_shell_same h s report (f, ok changes) next same rest =
    subst (λ g. (next (set_files h s g) (report ++ changes)).0 ≡ h) (sym same)
      (subst (λ g. (next g (report ++ changes)).0 ≡ h) (sym (set_files_same h s))
        (rest (report ++ changes)))

place_hook_same :
    (hook_content : ShellType → Text) (s : ShellType) (f : ShellFiles)
    → (place_hook true hook_content s f).0 ≡ f
unfolding place_hook
place_hook_same hook_content s f = elim (Bool-cases (differs f.hook (hook_content s))) [
  | inl a ↦ rw a refl
  | inr n ↦ rw n refl
]

after_search_same :
    (umasked : ℕ → ℕ) (line : Text) (s : ShellType) (placed : ShellFiles × List Change)
    (r : Result InstallError Bool)
    → (after_search true umasked line s placed r).0 ≡ placed.0
unfolding after_search place_line
after_search_same umasked line s (f, changes) (err e) = refl
after_search_same umasked line s (f, changes) (ok true) = refl
after_search_same umasked line s (f, changes) (ok false) = refl

install_shell_same :
    (umasked : ℕ → ℕ) (hook_content : ShellType → Text) (home : Text) (s : ShellType)
    (f : ShellFiles)
    → (install_shell true umasked hook_content home s f).0 ≡ f
unfolding install_shell
install_shell_same umasked hook_content home s f =
    after_search_same umasked (source_line (hook_path home s)) s (place_hook true hook_content s f)
      (startup_contains_line (place_hook true hook_content s f).0.startup
        (source_line (hook_path home s)))
    ∙ place_hook_same hook_content s f

install_shells_same :
    (umasked : ℕ → ℕ) (hook_content : ShellType → Text) (home : Text) (ss : List ShellType)
    (h : Home) (report : List Change)
    → (install_shells true umasked hook_content home ss h report).0 ≡ h
unfolding install_shells
install_shells_same umasked hook_content home [] h report = refl
install_shells_same umasked hook_content home (s ∷ ss) h report =
    then_shell_same h s report (install_shell true umasked hook_content home s (get_files h s))
      (install_shells true umasked hook_content home ss)
      (install_shell_same umasked hook_content home s (get_files h s))
      (install_shells_same umasked hook_content home ss h)

install_service_same :
    (systemd : Systemd) (options : InstallOptions) (h : Home) (report : List Change)
    → (install_service systemd (record options { dry_run = true }) h report).0 ≡ h
unfolding install_service
install_service_same systemd options h report = ground arith

remove_hook_same :
    (s : ShellType) (f : ShellFiles) (report : List Change)
    → (remove_hook_file true s f report).0 ≡ f
unfolding remove_hook_file
remove_hook_same s f report = ground arith

uninstall_shell_same : (s : ShellType) (f : ShellFiles) → (uninstall_shell true s f).0 ≡ f
unfolding uninstall_shell remove_lines
uninstall_shell_same s f = ground arith

uninstall_shells_same :
    (ss : List ShellType) (h : Home) (report : List Change)
    → (uninstall_shells true ss h report).0 ≡ h
unfolding uninstall_shells
uninstall_shells_same [] h report = refl
uninstall_shells_same (s ∷ ss) h report =
    then_shell_same h s report (uninstall_shell true s (get_files h s)) (uninstall_shells true ss)
      (uninstall_shell_same s (get_files h s)) (uninstall_shells_same ss h)

remove_service_same : (h : Home) → (remove_service true h).0 ≡ h
unfolding remove_service if_owned
remove_service_same h = unit_same h.unit
  where
    owned_same : (r : Result InstallError Bool) → (if_owned true h r).0 ≡ h
    owned_same (err e) = refl
    owned_same (ok true) = refl
    owned_same (ok false) = refl

    unit_same :
        (o : Option File)
        → (elim o as (λ p. Outcome Home) [
          | none ↦ (h, ok [])
          | some f ↦ if_owned true h (is_owned_service f)
        ]).0
          ≡ h
    unit_same none = refl
    unit_same (some f) = owned_same (is_owned_service f)

purge_all_same : (h : Home) → (purge_all true h).0 ≡ h
unfolding purge_all
purge_all_same h = ground arith

install_config_same :
    (humantime : Text → Option ℕ) (toml : Text → Option RawConfig) (h : Home)
    (found : Option (Option Text))
    → (install_config humantime toml true h found).0 ≡ h
unfolding install_config if_loads
install_config_same humantime toml h none = refl
install_config_same humantime toml h (some text) = loaded (load humantime toml (some text))
  where
    loaded : (r : Result ConfigError EffectiveConfig) → (if_loads true h r).0 ≡ h
    loaded (err e) = refl
    loaded (ok config) = refl

after_config_same :
    (hook_content : ShellType → Text) (umasked : ℕ → ℕ) (systemd : Systemd)
    (options : InstallOptions) (shells : List ShellType) (h : Home) (o : Outcome Home)
    → o.0 ≡ h
    → (after_config hook_content umasked systemd (record options { dry_run = true }) shells o).0 ≡ h
unfolding after_config
after_config_same hook_content umasked systemd options shells h (h', err e) same = same
after_config_same hook_content umasked systemd options shells h (h', ok report) same =
    service_same (install_shells true umasked hook_content options.home shells h' report)
      (install_shells_same umasked hook_content options.home shells h' report)
    ∙ same
  where
    service_same :
        (o : Outcome Home)
        → o.0 ≡ h'
        → (then_service systemd (record options { dry_run = true }) o).0 ≡ h'
    service_same (g, err e) k = k
    service_same (g, ok r) k = install_service_same systemd options g r ∙ k

install_same :
    (humantime : Text → Option ℕ) (toml : Text → Option RawConfig)
    (executable_on_path : ShellType → Bool) (hook_content : ShellType → Text) (umasked : ℕ → ℕ)
    (systemd : Systemd) (options : InstallOptions) (h : Home)
    → (install humantime toml executable_on_path hook_content umasked systemd
        (record options { dry_run = true })
        h).0
      ≡ h
unfolding install
install_same humantime toml executable_on_path hook_content umasked systemd options h =
    elim (Bool-cases (is_absolute options.home)) [
      | inr n ↦ rw n refl
      | inl a ↦
          elim (Bool-cases
            (none_of (selected_shells executable_on_path (record options { dry_run = true })))) [
              | inl b ↦ rw (a, b) refl
              | inr n ↦
                  rw (a, n)
                    (after_config_same hook_content umasked systemd options
                      (selected_shells executable_on_path (record options { dry_run = true })) h
                      (install_config humantime toml true h h.config)
                      (install_config_same humantime toml h h.config))
            ]
    ]

uninstall_same : (home : Text) (purge : Bool) (h : Home) → (uninstall home true purge h).0 ≡ h
unfolding uninstall
uninstall_same home purge h = elim (Bool-cases (is_absolute home)) [
  | inr n ↦ rw n refl
  | inl a ↦
      rw a (purge_same purge (then_shells true (remove_service true h)))
      ∙ shells_same (remove_service true h)
      ∙ remove_service_same h
]
  where
    shells_same : (o : Outcome Home) → (then_shells true o).0 ≡ o.0
    shells_same (g, err e) = refl
    shells_same (g, ok report) = uninstall_shells_same (bash ∷ zsh ∷ fish ∷ []) g report

    purge_same : (purge : Bool) (o : Outcome Home) → (then_purge true purge o).0 ≡ o.0
    purge_same b (g, err e) = refl
    purge_same false (g, ok report) = refl
    purge_same true (g, ok report) = purge_all_same g

-- A dry run, of an installation and of a removal with or without a purge, leaves the home as it
-- was, whether it succeeds or fails.
pub dry_run_same :
    (humantime : Text → Option ℕ) (toml : Text → Option RawConfig)
    (executable_on_path : ShellType → Bool) (hook_content : ShellType → Text) (umasked : ℕ → ℕ)
    (systemd : Systemd) (options : InstallOptions) (purge : Bool) (h : Home)
    → ((install humantime toml executable_on_path hook_content umasked systemd
          (record options { dry_run = true })
          h).0
        ≡ h)
      × ((uninstall options.home true purge h).0 ≡ h)
dry_run_same humantime toml executable_on_path hook_content umasked systemd options purge h = (
  install_same humantime toml executable_on_path hook_content umasked systemd options h,
  uninstall_same options.home purge h,
)
