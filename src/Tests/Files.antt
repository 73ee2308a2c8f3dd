-- ===== src/Tests/Files.antt =====
-- A disk with one file, where the fourth call fails.
use shellbell.Base.{ℕ, ◌≡◌, ◌==◌, refl, none, some, Bool, if◌then◌else◌}
use shellbell.Base.Text.{Text, codes, text_eq}
use shellbell.Files.{Disk, private_temporary, atomic_private_write}
use shellbell.Files.Atomic.{Outcome, atomic_private_write-Outcome}

abbrev path : Text
path = codes "/c/config.json"

abbrev disk : Disk
disk = record {
  files = λ q. if text_eq q path then some (record { bytes = codes "old"; mode = 420 }) else none;
  calls = 0;
}

abbrev fails : ℕ → Bool
fails n = n == 3

abbrev temporary : Text
temporary = codes "/c/.config.json.1.tmp"

-- The temporary file of the source.
temporary_name : private_temporary (codes "/c") (codes "config.json") (codes "1") ≡ temporary
unfolding private_temporary
temporary_name = refl

atomic_private_write-Outcome_example :
    Outcome temporary path disk
      (record { bytes = codes "new\n"; mode = 384 })
      (record { bytes = codes "new\n"; mode = 384 })
      (atomic_private_write fails (λ n. 1) (λ mode. mode) temporary path (codes "new") disk)
unfolding text_eq
atomic_private_write-Outcome_example =
    atomic_private_write-Outcome fails (λ n. 1) (λ mode. mode) temporary path refl disk
      (codes "new")
