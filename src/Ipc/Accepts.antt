-- ===== src/Ipc/Accepts.antt =====
-- Valid requests.
use shellbell.Base.{
  ℕ, ◌≡◌, ◌≤◌, ◌<◌, refl, sym, ◌∙◌, ◌⊎◌, inl, inr, List, Option, none, some, true, false, ◌==◌, all,
  length, arith, Bool-cases,
}
use shellbell.Base.Result.{Result, ok, err}
use shellbell.Base.Text.{Text, trim, utf8_len, is_empty}
use shellbell.Protocol.{
  validate_name, validate_text, validate_message, validate_tags, allowed_tags, contains, name_max,
  message_max,
}
use shellbell.Protocol.Laws.{validate_tags_result}
use shellbell.Ipc.{
  IpcCommand, IpcRequest, session_open, command_start, prompt_ready, session_close, arm_persistent,
  arm_once, disarm, set_label, status, manual_ring, daemon_ping, daemon_shutdown, validate_duration,
  validate_arming, validate_command, validate, ipc_version,
}

-- From 100 ms to seven days.
abbrev pub InSpan : ℕ → Type 0
InSpan value = (100 ≤ value) × (value ≤ 604800000)

abbrev pub AreKnown : List Text → Type 0
AreKnown targets = all (contains allowed_tags) targets ≡ true

abbrev pub FitsLabel : Option Text → Type 0
FitsLabel none = Unit
FitsLabel (some label) = (is_empty (trim label) ≡ false) × (length (trim label) ≤ name_max)

abbrev pub FitsMessage : Option Text → Type 0
FitsMessage none = Unit
FitsMessage (some message) = length (trim message) ≤ message_max

abbrev pub FitsTty : Option Text → Type 0
FitsTty none = Unit
FitsTty (some tty) = utf8_len tty ≤ 256

-- What the engine may take for granted of a command.
abbrev pub IsAcceptable : IpcCommand → Type 0
IsAcceptable (session_open id pid shell tty) = (0 < pid) × FitsTty tty
IsAcceptable (arm_persistent id minimum idle targets) =
    InSpan minimum × InSpan idle × AreKnown targets
IsAcceptable (arm_once id minimum idle targets) = InSpan minimum × InSpan idle × AreKnown targets
IsAcceptable (set_label id label) = FitsLabel label
IsAcceptable (manual_ring id message targets) = FitsMessage message × AreKnown targets
IsAcceptable _ = Unit

pub Result-cases :
    {E A : Type 0} (r : Result E A) → ((a : A) × (r ≡ ok a)) ⊎ ((e : E) × (r ≡ err e))
Result-cases (ok a) = inl (a, refl)
Result-cases (err e) = inr (e, refl)

AreKnown-validate_tags :
    (targets : List Text) (tags : List Text) → validate_tags targets ≡ ok tags → AreKnown targets
AreKnown-validate_tags targets tags h = elim (Bool-cases (all (contains allowed_tags) targets)) [
  | inl y ↦ y
  | inr n ↦ let e = sym h ∙ (validate_tags_result targets).1 n in cc
]

arming-AreKnown :
    (minimum idle : ℕ) (targets : List Text)
    → validate_arming minimum idle targets ≡ ok tt
    → AreKnown targets
unfolding validate_arming validate_duration
arming-AreKnown minimum idle targets h = elim (Result-cases (validate_tags targets)) [
  | inl (tags, e) ↦ AreKnown-validate_tags targets tags e
  | inr (x, e) ↦ ground (arith, h, e)
]

arming-IsAcceptable :
    (minimum idle : ℕ) (targets : List Text)
    → validate_arming minimum idle targets ≡ ok tt
    → InSpan minimum × InSpan idle × AreKnown targets
unfolding validate_arming validate_duration
arming-IsAcceptable minimum idle targets h =
    (ground (arith, h), ground (arith, h), arming-AreKnown minimum idle targets h)

FitsLabel-validate_command :
    (id : ℕ) (label : Option Text) → validate_command (set_label id label) ≡ ok tt → FitsLabel label
unfolding validate_command validate_name
FitsLabel-validate_command id none h = tt
FitsLabel-validate_command id (some label) h = (ground (arith, h), ground (arith, h))

manual_ring-IsAcceptable :
    (id : Option ℕ) (message : Option Text) (targets : List Text)
    → validate_command (manual_ring id message targets) ≡ ok tt
    → FitsMessage message × AreKnown targets
unfolding validate_command validate_message validate_text
manual_ring-IsAcceptable id none targets h = elim (Result-cases (validate_tags targets)) [
  | inl (tags, e) ↦ (tt, AreKnown-validate_tags targets tags e)
  | inr (x, e) ↦ ground (arith, h, e)
]
manual_ring-IsAcceptable id (some message) targets h = elim (Result-cases (validate_tags targets)) [
  | inl (tags, e) ↦ (ground (arith, h), AreKnown-validate_tags targets tags e)
  | inr (x, e) ↦ ground (arith, h, e)
]

command-IsAcceptable : (c : IpcCommand) → validate_command c ≡ ok tt → IsAcceptable c
unfolding validate_command
command-IsAcceptable (session_open id pid shell none) h = (ground (arith, h), tt)
command-IsAcceptable (session_open id pid shell (some tty)) h =
    (ground (arith, h), ground (arith, h))
command-IsAcceptable (arm_persistent id minimum idle targets) h =
    arming-IsAcceptable minimum idle targets h
command-IsAcceptable (arm_once id minimum idle targets) h =
    arming-IsAcceptable minimum idle targets h
command-IsAcceptable (set_label id label) h = FitsLabel-validate_command id label h
command-IsAcceptable (manual_ring id message targets) h =
    manual_ring-IsAcceptable id message targets h
command-IsAcceptable (command_start id) h = tt
command-IsAcceptable (prompt_ready id) h = tt
command-IsAcceptable (session_close id) h = tt
command-IsAcceptable (disarm id) h = tt
command-IsAcceptable (status id) h = tt
command-IsAcceptable daemon_ping h = tt
command-IsAcceptable daemon_shutdown h = tt

-- A request that is valid is of this version, with a command that is acceptable: a shell has a
-- process number, durations lie between 100 ms and seven days, targets are known tags, and the
-- trimmed label, the trimmed message and the terminal's name are within their lengths.
pub validate-IsAcceptable :
    (r : IpcRequest) → validate r ≡ ok tt → (r.version ≡ ipc_version) × IsAcceptable r.command
unfolding validate
validate-IsAcceptable r h = elim (Bool-cases (r.version == ipc_version)) [
  | inl y ↦ (ground (arith, y), command-IsAcceptable r.command (sym (rw y refl) ∙ h))
  | inr n ↦ ground (arith, h, n)
]
