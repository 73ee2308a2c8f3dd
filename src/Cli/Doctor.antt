-- ===== src/Cli/Doctor.antt =====
-- The check of an installation (crates/shellbell-cli/src/main.rs, lines 699 to 898). What it finds out
-- about the configuration, the credentials, the relay, the daemon, systemd and the session is a record;
-- the lines that it prints are their level and their subject.
pub mod Approves
use shellbell.Base.{
  ℕ, ◌+◌, ◌%◌, List, [], ◌∷◌, ◌++◌, Option, none, some, Bool, true, false, not, ◌==◌, ltb,
  if◌then◌else◌, count_if,
}
use shellbell.Base.Result.{Result, ok, err}
use shellbell.Activity.Session.{ShellType, bash, zsh, fish}
use shellbell.LocalStore.Store.{DaemonStatus}
use shellbell.Install.{File, is_utf8, lines, is_managed}
use shellbell.Install.Home.{ShellFiles, Home}

pub data Level : Type 0 where
  fine warning failure : Level

pub data Subject : Type 0 where
  configuration credentials permissions connectivity token daemon queue authorization : Subject
  service session : Subject
  hooks : ShellType → Subject

abbrev pub Line : Type 0
Line = Level × Subject

pub data DoctorError : Type 0 where
  no_endpoint no_home : DoctorError
  failed : ℕ → DoctorError

-- What is found out: whether the settings load and the machine is paired, the mode of the file of the
-- credentials, whether their URL has endpoints, whether the relay answers and knows the token, the
-- daemon's status, systemd, the home, and whether the daemon knows the session, if there is one.
pub record Findings : Type 0 where
  pub config_loads : Bool
  pub is_paired : Bool
  pub mode : Option ℕ
  pub has_endpoints : Bool
  pub relay_answers : Bool
  pub token_is_valid : Bool
  pub ping : Option DaemonStatus
  pub systemd_available : Bool
  pub service_active : Bool
  pub home : Option Home
  pub session_known : Option Bool

abbrev if_failed : Bool → Level
if_failed b = if b then fine else failure

abbrev if_warned : Bool → Level
if_warned b = if b then fine else warning

-- The managed lines of a startup file that can be read as text.
unfoldable pub entries_of : Option File → ℕ
entries_of none = 0
entries_of (some f) = if is_utf8 f.bytes then count_if is_managed (lines f.bytes) else 0

unfoldable pub level_of : ℕ → Bool → Level
level_of entries is_file =
    if entries == 1 then if_failed is_file else if entries == 0 then warning else failure

abbrev is_some_file : Option File → Bool
is_some_file none = false
is_some_file (some f) = true

-- One round of `inspect_hooks`.
unfoldable pub inspect_shell : ShellFiles → Level
unfolding entries_of level_of
inspect_shell f = level_of (entries_of f.startup) (is_some_file f.hook)

unfoldable pub inspect_hooks : Home → List Line
unfolding inspect_shell
inspect_hooks h =
    (inspect_shell h.of_bash, hooks bash)
    ∷ (inspect_shell h.of_zsh, hooks zsh)
    ∷ (inspect_shell h.of_fish, hooks fish)
    ∷ []

-- No bit for the group or for others.
unfoldable pub permissions_level : Option ℕ → Level
permissions_level none = failure
permissions_level (some mode) = if_failed (mode % 64 == 0)

unfoldable pub inspect_credentials : Findings → List Line
unfolding permissions_level
inspect_credentials c =
    if c.is_paired
    then (fine, credentials)
      ∷ (permissions_level c.mode, permissions)
      ∷ (if_failed c.relay_answers, connectivity)
      ∷ (if_failed c.token_is_valid, token)
      ∷ []
    else (failure, credentials) ∷ []

unfoldable pub inspect_daemon : Option DaemonStatus → List Line
inspect_daemon none = (failure, daemon) ∷ []
inspect_daemon (some status) =
    (fine, daemon)
    ∷ (fine, queue)
    ∷ (if ltb 0 status.authorization_failures then (failure, authorization) ∷ [] else [])

unfoldable pub inspect_service : Findings → List Line
inspect_service c =
    (if c.systemd_available then if_warned c.service_active else warning, service) ∷ []

unfoldable pub inspect_session : Option Bool → List Line
inspect_session none = (warning, session) ∷ []
inspect_session (some known) = (if_warned known, session) ∷ []

unfoldable pub inspect : Findings → Home → List Line
unfolding inspect_credentials inspect_daemon inspect_service inspect_hooks inspect_session
inspect c h =
    (if_failed c.config_loads, configuration)
    ∷ (inspect_credentials c
        ++ (inspect_daemon c.ping
            ++ (inspect_service c ++ (inspect_hooks h ++ inspect_session c.session_known))))

abbrev pub is_failure : Line → Bool
is_failure (failure, s) = true
is_failure (fine, s) = false
is_failure (warning, s) = false

-- The counter of the failures is read at the end.
unfoldable pub summary : List Line → Result DoctorError (Unit {0})
summary printed =
    let failures = count_if is_failure printed in
    if ltb 0 failures then err (failed failures) else ok tt

-- `inspect_hooks(&resolve_home(None)?, …)`
unfoldable pub doctor_at : Findings → Option Home → Result DoctorError (Unit {0})
unfolding inspect summary
doctor_at c none = err no_home
doctor_at c (some h) = summary (inspect c h)

unfoldable pub doctor : Findings → Result DoctorError (Unit {0})
unfolding doctor_at
doctor c =
    if c.is_paired
    then (if c.has_endpoints then doctor_at c c.home else err no_endpoint)
    else doctor_at c c.home
