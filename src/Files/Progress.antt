-- ===== src/Files/Progress.antt =====
-- The steps of an atomic write up to the rename: each leaves the temporary file with its content, or
-- stops, and touches no other file (crates/shellbell-local/src/config.rs and install.rs).
use shellbell.Base.{
  ℕ, suc, ◌≡◌, ◌⊎◌, refl, ◌∙◌, ap, inl, inr, [], ◌++◌, Option, some, Bool, false, is_some, take,
  Bool-cases,
}
use shellbell.Base.Result.{Result, ok, err}
use shellbell.Base.Text.{Text, text_eq, text_eq_refl}
use shellbell.Install.{File}
use shellbell.Files.{
  Disk, FileError, failed, exists, put_file, append_to, FileChange, appended, placed, call,
  unchanged, create_new, write_all, sync_all,
}

pub put_file_at :
    (files : Text → Option File) (p : Text) (f : Option File) → put_file files p f p ≡ f
unfolding put_file
put_file_at files p f = rw (text_eq_refl p) refl

pub put_file_off :
    (files : Text → Option File) (p q : Text) (f : Option File)
    → text_eq q p ≡ false
    → put_file files p f q ≡ files q
unfolding put_file
put_file_off files p q f h = rw h refl

-- Two disks that differ in one file at most.
abbrev pub SameBut : Text → Disk → Disk → Type 0
SameBut temporary s t = (q : Text) → text_eq q temporary ≡ false → t.files q ≡ s.files q

-- The temporary file has this content, and the others are as they were.
abbrev pub InProgress : Text → Disk → File → Disk → Type 0
InProgress temporary s c t = SameBut temporary s t × (t.files temporary ≡ some c)

-- A step goes on in progress, or stops with the other files as they were.
abbrev pub Goes : Text → Disk → File → Disk × Result FileError (Unit {0}) → Type 0
Goes temporary s c r =
    ((t : Disk) × (r ≡ (t, ok tt)) × InProgress temporary s c t)
    ⊎ ((t : Disk) × (e : FileError) × (r ≡ (t, err e)) × SameBut temporary s t)

module _ (fails : ℕ → Bool) (torn : ℕ → ℕ) (umasked : ℕ → ℕ) where
  -- A call leaves its change, or what it did in part.
  pub call-cases :
      (change partly : FileChange) (s : Disk)
      → (call fails torn umasked change partly s
          ≡ (record { files = change s.files; calls = suc s.calls }, ok tt))
        ⊎ ((e : FileError) × (call fails torn umasked change partly s
              ≡ (record { files = partly s.files; calls = suc s.calls }, err e)))
  unfolding call
  call-cases change partly s = elim (Bool-cases (fails s.calls)) [
    | inl y ↦ inr (failed, rw y refl)
    | inr n ↦ inl (rw n refl)
  ]

  module _ (temporary : Text) (s : Disk) where
    pub write_all-Goes :
        (bytes : Text) (c : File) (t : Disk)
        → InProgress temporary s c t
        → Goes temporary s
            (record c { bytes = c.bytes ++ bytes })
            (write_all fails torn umasked temporary bytes t)
    unfolding write_all
    write_all-Goes bytes c t (same, h) =
        elim (call-cases (appended temporary bytes) (appended temporary (take (torn t.calls) bytes))
          t) [
            | inl e ↦ inl (
              _,
              e,
              (
                λ q n. put_file_off t.files temporary q _ n ∙ same q n,
                put_file_at t.files temporary _ ∙ ap (append_to bytes) h,
              ),
            )
            | inr (x, e) ↦ inr (_, x, e, λ q n. put_file_off t.files temporary q _ n ∙ same q n)
          ]

    pub sync_all-Goes :
        (c : File) (t : Disk)
        → InProgress temporary s c t
        → Goes temporary s c (sync_all fails torn umasked t)
    unfolding sync_all
    sync_all-Goes c t (same, h) = elim (call-cases unchanged unchanged t) [
      | inl e ↦ inl (_, e, (same, h))
      | inr (x, e) ↦ inr (_, x, e, same)
    ]

    pub create_new-Goes :
        (mode : ℕ)
        → Goes temporary s
            (record { bytes = []; mode = umasked mode })
            (create_new fails torn umasked temporary mode s)
    unfolding create_new
    create_new-Goes mode = elim (Bool-cases (is_some (s.files temporary))) [
      | inl y ↦ rw y (inr (_, exists, refl, λ q n. refl))
      | inr z ↦
          rw z
            (elim (call-cases (placed temporary (some (record { bytes = []; mode = umasked mode })))
              unchanged s) [
                | inl e ↦ inl (
                  _,
                  e,
                  (λ q n. put_file_off s.files temporary q _ n, put_file_at s.files temporary _),
                )
                | inr (x, e) ↦ inr (_, x, e, λ q n. refl)
              ])
    ]
