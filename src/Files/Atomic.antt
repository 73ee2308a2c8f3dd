-- ===== src/Files/Atomic.antt =====
-- What an atomic write leaves (crates/shellbell-local/src/config.rs and install.rs).
use shellbell.Base.{
  ℕ, suc, ◌≡◌, ◌⊎◌, refl, sym, ◌∙◌, ap, inl, inr, [], ◌∷◌, ◌++◌, Option, none, some, Bool, false,
  Bool-cases,
}
use mathlib.Core.Bool.{true≢false}
use shellbell.Base.Result.{Result, ok, err}
use shellbell.Base.Step.{proceed, ◌>>=◌, ◌>>◌}
use shellbell.Base.Text.{Text, text_eq, text_eq_refl, text_eq_iff}
use shellbell.Install.{File}
use shellbell.Files.Progress.{
  put_file_at, put_file_off, SameBut, InProgress, Goes, call-cases, write_all-Goes, sync_all-Goes,
  create_new-Goes,
}
use shellbell.Files.{
  Disk, FileError, put_file, with_mode, placed, moved, changed_mode, unchanged, create_new,
  write_all, sync_all, rename, set_permissions, clean_up, install_file, write_private,
  write_managed, atomic_private_write, atomic_managed_write,
}

-- Success, with the new file in place and no temporary one, or an error, with the old file or the whole
-- of the new one in place; the other files are as they were.
abbrev pub Outcome : Text → Text → Disk → File → File → Disk × Result FileError (Unit {0}) → Type 0
Outcome temporary path s new renamed r =
    (((r.1 ≡ ok tt) × (r.0.files path ≡ some new) × (r.0.files temporary ≡ none))
      ⊎ ((e : FileError) × (r.1 ≡ err e)
          × ((r.0.files path ≡ s.files path) ⊎ (r.0.files path ≡ some renamed))))
    × ((q : Text) → text_eq q path ≡ false → text_eq q temporary ≡ false → r.0.files q ≡ s.files q)

module _ (fails : ℕ → Bool) (torn : ℕ → ℕ) (umasked : ℕ → ℕ) where
  module _ (temporary path : Text) (apart : text_eq path temporary ≡ false) (s : Disk) where
    stopped :
        (new renamed : File) (t : Disk) (e : FileError)
        → SameBut temporary s t
        → Outcome temporary path s new renamed (t, err e)
    stopped new renamed t e same = (inr (e, refl, inl (same path apart)), λ q n m. same q m)

    clean_up-Outcome :
        (new renamed : File) (r : Disk × Result FileError (Unit {0}))
        → Outcome temporary path s new renamed r
        → Outcome temporary path s new renamed (clean_up fails torn umasked temporary r)
    unfolding clean_up
    clean_up-Outcome new renamed (t, ok u) h = h
    clean_up-Outcome new renamed (t, err e) (inl (bad, _, _), others) = absurd (cc)
    clean_up-Outcome new renamed (t, err e) (inr (x, k, old), others) =
        elim (call-cases fails torn umasked (placed temporary none) unchanged t) [
          | inl c ↦ rw c (
            inr (e, refl, kept old),
            λ q n m. put_file_off t.files temporary q none m ∙ others q n m,
          )
          | inr (y, c) ↦ rw c (inr (e, refl, old), others)
        ]
      where
        kept :
            (t.files path ≡ s.files path) ⊎ (t.files path ≡ some renamed)
            → (put_file t.files temporary none path ≡ s.files path)
              ⊎ (put_file t.files temporary none path ≡ some renamed)
        kept (inl a) = inl (put_file_off t.files temporary path none apart ∙ a)
        kept (inr a) = inr (put_file_off t.files temporary path none apart ∙ a)

    in_place : (files : Text → Option File) → moved temporary path files path ≡ files temporary
    in_place files =
        put_file_off (put_file files path (files temporary)) temporary path none apart
        ∙ put_file_at files path (files temporary)

    off_both :
        (files : Text → Option File) (q : Text)
        → text_eq q path ≡ false
        → text_eq q temporary ≡ false
        → moved temporary path files q ≡ files q
    off_both files q n m =
        put_file_off (put_file files path (files temporary)) temporary q none m
        ∙ put_file_off files path q (files temporary) n

    -- After the rename: the mode.
    set_permissions-Outcome :
        (c : File) (mode : ℕ) (t u : Disk)
        → InProgress temporary s c t
        → u.files ≡ moved temporary path t.files
        → Outcome temporary path s
            (record c { mode = mode })
            c
            (set_permissions fails torn umasked path mode u)
    unfolding set_permissions
    set_permissions-Outcome c mode t u (same, h) e =
        let there : u.files path ≡ some c = ap (λ f. f path) e ∙ in_place t.files ∙ h in
        let rest = λ (q : Text) (n : text_eq q path ≡ false) (m : text_eq q temporary ≡ false).
          ap (λ f. f q) e ∙ off_both t.files q n m ∙ same q m in
        elim (call-cases fails torn umasked (changed_mode path mode) unchanged u) [
          | inl k ↦ rw k (
            inl (
              refl,
              put_file_at u.files path _ ∙ ap (with_mode mode) there,
              put_file_off u.files path temporary _ apart'
                  ∙ ap (λ f. f temporary) e
                  ∙ put_file_at (put_file t.files path (t.files temporary)) temporary none,
            ),
            λ q n m. put_file_off u.files path q _ n ∙ rest q n m,
          )
          | inr (x, k) ↦ rw k (inr (x, refl, inr there), rest)
        ]
      where
        apart' : text_eq temporary path ≡ false
        apart' = elim (Bool-cases (text_eq temporary path)) [
          | inr n ↦ n
          | inl y ↦ absurd (
              true≢false (
                sym (text_eq_refl path)
                ∙ ap (text_eq path) (sym ((text_eq_iff temporary path).0 y))
                ∙ apart))
        ]

    install_file-Outcome :
        (c : File) (mode : ℕ) (t : Disk)
        → InProgress temporary s c t
        → Outcome temporary path s
            (record c { mode = mode })
            c
            (install_file fails torn umasked temporary path mode t)
    unfolding install_file rename ◌>>=◌ ◌>>◌
    install_file-Outcome c mode t h =
        elim (call-cases fails torn umasked (moved temporary path) unchanged t) [
          | inl e ↦ rw e (
              set_permissions-Outcome c mode t
                (record { files = moved temporary path t.files; calls = suc t.calls }) h refl)
          | inr (x, e) ↦ rw e (
              stopped (record c { mode = mode }) c (record { files = t.files; calls = suc t.calls })
                x h.0)
        ]

    -- A step that goes on, and what comes after it.
    then-Outcome :
        (new renamed c : File) (r : Disk × Result FileError (Unit {0}))
        (next : Disk → Disk × Result FileError (Unit {0}))
        → Goes temporary s c r
        → ((t : Disk) → InProgress temporary s c t → Outcome temporary path s new renamed (next t))
        → Outcome temporary path s new renamed (proceed r.1 (λ u. next) r.0)
    then-Outcome new renamed c r next (inl (t, e, h)) k = rw e (k t h)
    then-Outcome new renamed c r next (inr (t, x, e, same)) k = rw e (stopped new renamed t x same)

    write_managed-Outcome :
        (bytes : Text) (c : File) (mode : ℕ) (t : Disk)
        → InProgress temporary s c t
        → Outcome temporary path s
            (record { bytes = c.bytes ++ bytes; mode = mode })
            (record c { bytes = c.bytes ++ bytes })
            (write_managed fails torn umasked temporary path bytes mode t)
    unfolding write_managed ◌>>=◌ ◌>>◌
    write_managed-Outcome bytes c mode t h =
        let c' = record c { bytes = c.bytes ++ bytes } in
        let new = record c' { mode = mode } in
        then-Outcome new c' c' (write_all fails torn umasked temporary bytes t) _
          (write_all-Goes fails torn umasked temporary s bytes c t h)
          (λ u i.
            then-Outcome new c' c' (sync_all fails torn umasked u) _
              (sync_all-Goes fails torn umasked temporary s c' u i)
              (λ v j. install_file-Outcome c' mode v j))

    write_private-Outcome :
        (bytes : Text) (c : File) (t : Disk)
        → InProgress temporary s c t
        → Outcome temporary path s
            (record { bytes = (c.bytes ++ bytes) ++ (10 ∷ []); mode = 384 })
            (record c { bytes = (c.bytes ++ bytes) ++ (10 ∷ []) })
            (write_private fails torn umasked temporary path bytes t)
    unfolding write_private ◌>>=◌ ◌>>◌
    write_private-Outcome bytes c t h =
        let c' = record c { bytes = c.bytes ++ bytes } in
        let d = record c' { bytes = c'.bytes ++ (10 ∷ []) } in
        let new = record d { mode = 384 } in
        then-Outcome new d c' (write_all fails torn umasked temporary bytes t) _
          (write_all-Goes fails torn umasked temporary s bytes c t h)
          (λ u i.
            then-Outcome new d d (write_all fails torn umasked temporary (10 ∷ []) u) _
              (write_all-Goes fails torn umasked temporary s (10 ∷ []) c' u i)
              (λ v j.
                then-Outcome new d d (sync_all fails torn umasked v) _
                  (sync_all-Goes fails torn umasked temporary s d v j)
                  (λ w k. install_file-Outcome d 384 w k)))

    -- Where the temporary file has another path, a private file is replaced as a whole or not at
    -- all, whatever calls fail: after a success it has the bytes with a newline and the mode 600,
    -- and there is no temporary file; after an error it is as it was, or has all of these bytes,
    -- with what the umask leaves of that mode. No other file changes but the temporary one.
    pub atomic_private_write-Outcome :
        (bytes : Text)
        → Outcome temporary path s
            (record { bytes = bytes ++ (10 ∷ []); mode = 384 })
            (record { bytes = bytes ++ (10 ∷ []); mode = umasked 384 })
            (atomic_private_write fails torn umasked temporary path bytes s)
    unfolding atomic_private_write ◌>>=◌ ◌>>◌
    atomic_private_write-Outcome bytes =
        then-Outcome _ _ (record { bytes = []; mode = umasked 384 })
          (create_new fails torn umasked temporary 384 s) _
          (create_new-Goes fails torn umasked temporary s 384)
          (λ t h.
            clean_up-Outcome _ _ (write_private fails torn umasked temporary path bytes t)
              (write_private-Outcome bytes _ t h))

    -- The same with a mode that is given and without a newline.
    pub atomic_managed_write-Outcome :
        (bytes : Text) (mode : ℕ)
        → Outcome temporary path s
            (record { bytes = bytes; mode = mode })
            (record { bytes = bytes; mode = umasked mode })
            (atomic_managed_write fails torn umasked temporary path bytes mode s)
    unfolding atomic_managed_write ◌>>=◌ ◌>>◌
    atomic_managed_write-Outcome bytes mode =
        then-Outcome _ _ (record { bytes = []; mode = umasked mode })
          (create_new fails torn umasked temporary mode s) _
          (create_new-Goes fails torn umasked temporary s mode)
          (λ t h.
            clean_up-Outcome _ _ (write_managed fails torn umasked temporary path bytes mode t)
              (write_managed-Outcome bytes _ mode t h))
