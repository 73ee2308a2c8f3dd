-- ===== src/Install/Home.antt =====
-- The installer (crates/shellbell-local/src/install.rs, lines 19 to 33, 201 to 248 and 427 to 444) and the default
-- configuration (config.rs, `ensure_default_config`). What it reads and writes below the user's home
-- is a record; the lines of its report are constructors. The text of a shell's hook, the answers of
-- systemctl, the search of PATH and the umask are arguments. Errors of the file system and the modes
-- of directories are not modelled.
use shellbell.Base.{
  ℕ, List, [], ◌∷◌, ◌++◌, Option, none, some, Bool, true, false, not, ◌==◌, if◌then◌else◌, keep_if,
}
use shellbell.Base.Result.{Result, ok, err}
use shellbell.Base.Text.{Text, codes, text_eq, text_lt}
use shellbell.Activity.Session.{ShellType, bash, zsh, fish, shell_type_display}
use shellbell.Install.{File, InstallError, not_utf8, lines, is_utf8}

-- The lines of a `ChangeReport`.
pub data Change : Type 0 where
  create_config write_unit enable_service would_enable_service lazy_activation : Change
  remove_unit remove_config remove_data nothing_found : Change
  write_hook back_up add_line remove_line remove_hook : ShellType → Change

pub record ShellFiles : Type 0 where
  pub hook : Option File
  pub startup : Option File
  pub backups : List File

-- `config` is missing, not readable as text, or its text.
pub record Home : Type 0 where
  pub config : Option (Option Text)
  pub config_dir : Bool
  pub data_dir : Bool
  pub of_bash : ShellFiles
  pub of_zsh : ShellFiles
  pub of_fish : ShellFiles
  pub unit : Option File

abbrev pub get_files : Home → ShellType → ShellFiles
get_files h bash = h.of_bash
get_files h zsh = h.of_zsh
get_files h fish = h.of_fish

abbrev pub set_files : Home → ShellType → ShellFiles → Home
set_files h bash f = record h { of_bash = f }
set_files h zsh f = record h { of_zsh = f }
set_files h fish f = record h { of_fish = f }

abbrev pub default_config_text : Text
default_config_text =
    codes
      "[activity]\nminimum_active = \"2m\"\nidle_for = \"45s\"\n\n[delivery]\ntargets = [\"phone\"]\n\n[display]\nautomatic_message = \"Shell is ready\"\n\n[daemon]\nqueue_limit = 100\nevent_max_age = \"24h\"\n"

pub record InstallOptions : Type 0 where
  pub home : Text
  pub shells : List ShellType
  pub all_shells : Bool
  pub dry_run : Bool
  pub executable : Text
  pub manage_service : Bool

abbrev all_of_them : List ShellType
all_of_them = bash ∷ zsh ∷ fish ∷ []

abbrev same_shell : ShellType → ShellType → Bool
same_shell s t = text_eq (shell_type_display s) (shell_type_display t)

-- `sort_by_key` by the name; it is stable.
unfoldable pub insert_shell : ShellType → List ShellType → List ShellType
insert_shell s [] = s ∷ []
insert_shell s (t ∷ ts) =
    let rest = insert_shell s ts in
    if text_lt (shell_type_display t) (shell_type_display s) then t ∷ rest else s ∷ t ∷ ts

unfoldable pub sort_shells : List ShellType → List ShellType
unfolding insert_shell
sort_shells [] = []
sort_shells (s ∷ ss) = insert_shell s (sort_shells ss)

-- `dedup`
unfoldable pub dedup : List ShellType → List ShellType
dedup [] = []
dedup (s ∷ []) = s ∷ []
dedup (s ∷ t ∷ ts) = let rest = dedup (t ∷ ts) in if same_shell s t then rest else s ∷ rest

unfoldable pub selected_shells : (ShellType → Bool) → InstallOptions → List ShellType
unfolding sort_shells dedup
selected_shells executable_on_path options = dedup (
    sort_shells (
      if options.all_shells
      then all_of_them
      else if not (null options.shells)
      then options.shells
      else keep_if executable_on_path all_of_them))
  where
    null : List ShellType → Bool
    null [] = true
    null (s ∷ ss) = false

-- `Path::join`
unfoldable pub join_path : Text → Text → Text
join_path a b = if ends_with_slash a then a ++ b else a ++ (47 ∷ b)
  where
    ends_with_slash : Text → Bool
    ends_with_slash [] = true
    ends_with_slash (c ∷ []) = c == 47
    ends_with_slash (c ∷ d ∷ ds) = ends_with_slash (d ∷ ds)

abbrev hook_extension : ShellType → Text
hook_extension fish = codes "fish"
hook_extension bash = codes "sh"
hook_extension zsh = codes "sh"

-- The path of a shell's hook.
unfoldable pub hook_path : Text → ShellType → Text
unfolding join_path
hook_path home shell =
    join_path (join_path (join_path home (codes ".config/shellbell")) (codes "hooks"))
      (shell_type_display shell ++ (46 ∷ hook_extension shell))

-- Two `str::replace`: of the backslash, and of the double quote.
unfoldable pub escape : ℕ → Text → Text
escape d [] = []
escape d (c ∷ cs) = let rest = escape d cs in if c == d then 92 ∷ d ∷ rest else c ∷ rest

unfoldable pub systemd_quote : Text → Text
unfolding escape
systemd_quote path = 34 ∷ (escape 34 (escape 92 path) ++ (34 ∷ []))

abbrev pub service_marker : Text
service_marker = codes "# Managed by Shellbell"

unfoldable pub systemd_unit : Text → Text
unfolding systemd_quote
systemd_unit executable =
    service_marker
    ++ (codes
          "\n[Unit]\nDescription=Shellbell per-user activity daemon\nAfter=network-online.target\nWants=network-online.target\nStartLimitIntervalSec=60\nStartLimitBurst=5\n\n[Service]\nType=simple\nExecStart="
        ++ (systemd_quote executable
            ++ codes
                " __daemon\nRestart=on-failure\nRestartSec=5s\nNoNewPrivileges=true\n\n[Install]\nWantedBy=default.target\n"))

first_is : Text → List Text → Bool
first_is t [] = false
first_is t (l ∷ ls) = text_eq l t

unfoldable pub is_owned_service : File → Result InstallError Bool
unfolding is_utf8 lines first_is
is_owned_service f =
    if is_utf8 f.bytes then ok (first_is service_marker (lines f.bytes)) else err not_utf8

-- `validate_home`
unfoldable pub is_absolute : Text → Bool
is_absolute [] = false
is_absolute (c ∷ cs) = c == 47

-- Whether a file is missing or has another text.
unfoldable pub differs : Option File → Text → Bool
differs none content = true
differs (some f) content = not (text_eq f.bytes content)

-- What a part of the installer leaves, and its report or its error.
abbrev pub Outcome : Type 0 → Type 0
Outcome S = S × Result InstallError (List Change)

-- The next part, after one on the files of a shell.
abbrev pub then_shell :
    Home
    → ShellType
    → List Change
    → Outcome ShellFiles
    → (Home → List Change → Outcome Home)
    → Outcome Home
then_shell h s report (f, err e) next = (set_files h s f, err e)
then_shell h s report (f, ok changes) next = next (set_files h s f) (report ++ changes)
