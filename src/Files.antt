-- ===== src/Files.antt =====
-- The atomic writes (crates/shellbell-local/src/config.rs, lines 322 to 361, and install.rs, lines 349 to
-- 369) on a small file system: a path has a file or none, and any call may fail, a write after it has
-- written some of its bytes.
pub mod Atomic
pub mod Progress
use shellbell.Base.{
  ℕ, suc, ◌+◌, List, [], ◌∷◌, ◌++◌, Option, none, some, Bool, true, false, if◌then◌else◌, is_some,
  take,
}
use shellbell.Base.Result.{Result, ok, err}
use shellbell.Base.Step.{Step, ◌>>=◌, ◌>>◌}
use shellbell.Base.Text.{Text, codes, text_eq}
use shellbell.Activity.Session.{Uuid}
use shellbell.Install.{File}

-- The files, and the number of calls so far.
pub record Disk : Type 0 where
  pub files : Text → Option File
  pub calls : ℕ

pub data FileError : Type 0 where
  failed exists missing : FileError

unfoldable pub put_file : (Text → Option File) → Text → Option File → Text → Option File
put_file files path f q = if text_eq q path then f else files q

abbrev pub append_to : Text → Option File → Option File
append_to bytes none = none
append_to bytes (some f) = some (record f { bytes = f.bytes ++ bytes })

abbrev pub with_mode : ℕ → Option File → Option File
with_mode mode none = none
with_mode mode (some f) = some (record f { mode = mode })

-- `.{name}.{uuid}.tmp` beside the file, from the text of the Uuid.
unfoldable pub private_temporary : Text → Text → Text → Text
private_temporary directory name uuid =
    directory ++ (codes "/." ++ (name ++ (codes "." ++ (uuid ++ codes ".tmp"))))

unfoldable pub managed_temporary : Text → Text → Text
managed_temporary directory uuid = directory ++ (codes "/.shellbell-" ++ (uuid ++ codes ".tmp"))

-- What the calls change.
abbrev pub FileChange : Type 0
FileChange = (Text → Option File) → Text → Option File

abbrev pub unchanged : FileChange
unchanged files = files

abbrev pub appended : Text → Text → FileChange
appended path bytes files = put_file files path (append_to bytes (files path))

abbrev pub placed : Text → Option File → FileChange
placed path f files = put_file files path f

abbrev pub moved : Text → Text → FileChange
moved from to files = put_file (put_file files to (files from)) from none

abbrev pub changed_mode : Text → ℕ → FileChange
changed_mode path mode files = put_file files path (with_mode mode (files path))

-- Which calls fail, how much a write that fails has written, and what the umask leaves of a mode.
module _ (fails : ℕ → Bool) (torn : ℕ → ℕ) (umasked : ℕ → ℕ) where
  -- A call that changes the files, or fails and may have changed them in part.
  unfoldable pub call : FileChange → FileChange → Step Disk FileError (Unit {0})
  call change partly s =
      if fails s.calls
      then (record { files = partly s.files; calls = suc s.calls }, err failed)
      else (record { files = change s.files; calls = suc s.calls }, ok tt)

  -- `create_new(true).mode(mode).open(path)`
  unfoldable pub create_new : Text → ℕ → Step Disk FileError (Unit {0})
  create_new path mode s =
      if is_some (s.files path)
      then (record s { calls = suc s.calls }, err exists)
      else call (placed path (some (record { bytes = []; mode = umasked mode }))) unchanged s

  unfoldable pub write_all : Text → Text → Step Disk FileError (Unit {0})
  write_all path bytes s = call (appended path bytes) (appended path (take (torn s.calls) bytes)) s

  unfoldable pub sync_all : Step Disk FileError (Unit {0})
  sync_all = call unchanged unchanged

  unfoldable pub rename : Text → Text → Step Disk FileError (Unit {0})
  rename from to = call (moved from to) unchanged

  unfoldable pub set_permissions : Text → ℕ → Step Disk FileError (Unit {0})
  set_permissions path mode = call (changed_mode path mode) unchanged

  -- `let _ = fs::remove_file(…)` after an error.
  unfoldable pub clean_up :
      Text → Disk × Result FileError (Unit {0}) → Disk × Result FileError (Unit {0})
  clean_up temporary (s, ok u) = (s, ok u)
  clean_up temporary (s, err e) = ((call (placed temporary none) unchanged s).0, err e)

  -- From the rename on.
  unfoldable pub install_file : Text → Text → ℕ → Step Disk FileError (Unit {0})
  unfolding ◌>>◌
  install_file temporary path mode = do rename temporary path; set_permissions path mode

  unfoldable pub write_private : Text → Text → Text → Step Disk FileError (Unit {0})
  unfolding ◌>>◌
  write_private temporary path bytes = do
    write_all temporary bytes
    write_all temporary (10 ∷ [])
    sync_all
    install_file temporary path 384

  unfoldable pub write_managed : Text → Text → Text → ℕ → Step Disk FileError (Unit {0})
  unfolding ◌>>◌
  write_managed temporary path bytes mode = do
    write_all temporary bytes
    sync_all
    install_file temporary path mode

  unfoldable pub atomic_private_write : Text → Text → Text → Step Disk FileError (Unit {0})
  unfolding ◌>>◌
  atomic_private_write temporary path bytes = do
    create_new temporary 384
    λ s. clean_up temporary (write_private temporary path bytes s)

  unfoldable pub atomic_managed_write : Text → Text → Text → ℕ → Step Disk FileError (Unit {0})
  unfolding ◌>>◌
  atomic_managed_write temporary path bytes mode = do
    create_new temporary mode
    λ s. clean_up temporary (write_managed temporary path bytes mode s)
