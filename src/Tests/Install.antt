-- ===== src/Tests/Install.antt =====
-- A home with a startup file of one line for bash, and the installer there.
use shellbell.Base.{
  ℕ, ◌≡◌, ◌≢◌, refl, List, [], ◌∷◌, ◌++◌, Option, none, some, Bool, true, false, arith,
}
use shellbell.Base.Result.{ok}
use shellbell.Base.Text.{Text, codes}
use shellbell.Activity.Session.{ShellType, bash}
use shellbell.Install.{File}
use shellbell.Install.DryRun.{dry_run_same}
use shellbell.Install.Home.{Change, ShellFiles, Home, InstallOptions, set_files}
use shellbell.Install.Removal.{uninstall, uninstall_shell}
use shellbell.Install.Setup.{Systemd, install, install_shell}
use shellbell.Cli.Doctor.{fine, warning, inspect_shell}
use shellbell.Cli.Doctor.Approves.{doctor_approves_install}
use shellbell.Install.Twice.{install_shell_twice}
use shellbell.Install.Undone.{startup_of, uninstall_undoes_install}
use shellbell.Tests.Config.{humantime, toml}

abbrev hook_content : ShellType → Text
hook_content s = codes "# hook\n"

abbrev umasked : ℕ → ℕ
umasked mode = mode

abbrev kept_lines : List Text
kept_lines = codes "export KEEP=yes" ∷ []

abbrev before : ShellFiles
before = record { hook = none; startup = some (startup_of true kept_lines 420); backups = [] }

abbrev nothing : ShellFiles
nothing = record { hook = none; startup = none; backups = [] }

abbrev home : Home
home = record {
  config = none;
  config_dir = false;
  data_dir = true;
  of_bash = before;
  of_zsh = nothing;
  of_fish = nothing;
  unit = none;
}

abbrev options : InstallOptions
options = record {
  home = codes "/h";
  shells = bash ∷ [];
  all_shells = false;
  dry_run = true;
  executable = codes "/usr/bin/shellbell";
  manage_service = true;
}

abbrev systemd : Systemd
systemd = record { available = true; reloads = true; enables = true }

dry_run_same_example :
    ((install humantime toml (λ s. true) hook_content umasked systemd options home).0 ≡ home)
    × ((uninstall (codes "/h") true true home).0 ≡ home)
dry_run_same_example =
    dry_run_same humantime toml (λ s. true) hook_content umasked systemd options true home

install_shell_twice_example :
    (f' : ShellFiles) × (report : List Change) × (install_shell false umasked hook_content
        (codes "/h")
        bash
        before
      ≡ (f', ok report))
    × ((dry_run : Bool)
        → install_shell dry_run umasked hook_content (codes "/h") bash f' ≡ (f', ok []))
unfolding shellbell.Base.any shellbell.Activity.Session.shell_type_display
    shellbell.Install.Home.hook_path shellbell.Install.Home.join_path
    shellbell.Install.escape_quotes shellbell.Install.shell_quote shellbell.Install.source_line
    shellbell.Install.is_utf8 shellbell.Install.is_utf8_from shellbell.Install.after_lead
    shellbell.Install.Lines.written
install_shell_twice_example =
    install_shell_twice umasked hook_content (codes "/h") bash before refl refl refl

uninstall_undoes_install_example :
    (f : ShellFiles) × (first second : List Change) × (with_line : File) × (install_shell false
        umasked hook_content
        (codes "/h")
        bash
        before
      ≡ (f, ok first))
    × (f.startup ≡ some with_line)
    × (uninstall_shell false bash f ≡ (
      record {
        hook = none;
        startup = some (startup_of true kept_lines 420);
        backups = ([] ++ (startup_of true kept_lines 420 ∷ [])) ++ (with_line ∷ []);
      },
      ok second,
    ))
unfolding shellbell.Base.any shellbell.Activity.Session.shell_type_display
    shellbell.Install.Home.hook_path shellbell.Install.Home.join_path
    shellbell.Install.escape_quotes shellbell.Install.shell_quote shellbell.Install.source_line
    shellbell.Install.is_utf8 shellbell.Install.is_utf8_from shellbell.Install.after_lead
    shellbell.Install.Lines.written shellbell.Install.contains_text shellbell.Base.Text.strip_prefix
uninstall_undoes_install_example =
    uninstall_undoes_install umasked hook_content (codes "/h") bash none [] true kept_lines 420 refl
      refl refl ((refl, refl), tt) (refl, tt) some_characters (omega arith)
  where
    some_characters : kept_lines ≢ [] ∷ []
    some_characters e = cc

doctor_approves_install_example :
    (inspect_shell before ≡ warning)
    × ((f : ShellFiles) × (report : List Change) × (install_shell false umasked hook_content
            (codes "/h")
            bash
            before
          ≡ (f, ok report))
        × (inspect_shell f ≡ fine))
unfolding shellbell.Base.any shellbell.Activity.Session.shell_type_display
    shellbell.Install.Home.hook_path shellbell.Install.Home.join_path
    shellbell.Install.escape_quotes shellbell.Install.shell_quote shellbell.Install.source_line
    shellbell.Install.is_utf8 shellbell.Install.is_utf8_from shellbell.Install.after_lead
    shellbell.Install.Lines.written shellbell.Install.contains_text shellbell.Base.Text.strip_prefix
doctor_approves_install_example =
    doctor_approves_install umasked hook_content (codes "/h") bash none [] true kept_lines 420 refl
      refl refl ((refl, refl), tt) (refl, tt)
