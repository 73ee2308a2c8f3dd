-- ===== src/Cli/Ready/Waits.antt =====
-- When a command finds or starts its daemon (crates/shellbell-cli/src/main.rs, `ensure_daemon`).
use shellbell.Base.{
  ℕ, zero, suc, ◌≡◌, ◌<◌, ◌↔◌, ◌⊎◌, inl, inr, refl, sym, ◌∙◌, Bool, true, false, arith, Bool-cases,
}
use shellbell.Base.Result.{ok}
use shellbell.Base.Step.{◌>>=◌, ◌>>◌}
use shellbell.Cli.{CliError, Host}
use shellbell.Cli.Ready.{
  answers, perform, await_daemon, limit_of, attempts_of, not_ready_error, start_daemon,
  ensure_daemon,
}

module _ (host : Host) where
  -- The host after as many attempts without an answer.
  unfoldable pub waited : ℕ → ℕ → host.State → host.State
  unfolding answers
  waited limit zero s = s
  waited limit (suc k) s = waited limit k (answers host limit (host.sleep 15 s)).0

  -- An attempt, of so many, is answered.
  abbrev pub AnswersWithin : ℕ → ℕ → host.State → Type 0
  AnswersWithin limit attempts s =
      (k : ℕ) × (k < attempts) × ((answers host limit (host.sleep 15 (waited limit k s))).1 ≡ true)

  await-answers :
      (limit attempts : ℕ) (e : CliError) (s : host.State)
      → AnswersWithin limit attempts s
      → (await_daemon host limit e attempts s).1 ≡ ok tt
  unfolding await_daemon waited
  await-answers limit zero e s (k, l, h) = absurd (omega (arith, l))
  await-answers limit (suc n) e s (zero, l, h) = rw h refl
  await-answers limit (suc n) e s (suc k, l, h) =
      elim (Bool-cases (answers host limit (host.sleep 15 s)).1) [
        | inl y ↦ rw y refl
        | inr z ↦ rw z (await-answers limit n e _ (k, omega (arith, l), h))
      ]

  answers-await :
      (limit attempts : ℕ) (e : CliError) (s : host.State)
      → (await_daemon host limit e attempts s).1 ≡ ok tt
      → AnswersWithin limit attempts s
  unfolding await_daemon waited
  answers-await limit zero e s h = cc
  answers-await limit (suc n) e s h = elim (Bool-cases (answers host limit (host.sleep 15 s)).1) [
    | inl y ↦ (zero, omega arith, y)
    | inr z ↦
        let (k, l, a) = answers-await limit n e _ (sym (rw z refl) ∙ h) in
        (suc k, omega (arith, l), a)
  ]

  -- After the directories and the start of a process.
  abbrev pub started : host.State → host.State
  started s = (host.spawn_daemon (host.make_private_dirs s).0).0

  abbrev pub Starts : ℕ → ℕ → host.State → Type 0
  Starts limit attempts s =
      ((host.make_private_dirs s).1 ≡ true)
      × ((host.spawn_daemon (host.make_private_dirs s).0).1 ≡ true)
      × AnswersWithin limit attempts (started s)

  -- A daemon answers at once, or after it was started.
  abbrev pub HasDaemon : ℕ → ℕ → host.State → Type 0
  HasDaemon limit attempts s =
      ((answers host limit s).1 ≡ true) ⊎ Starts limit attempts (answers host limit s).0

  start_daemon-Starts :
      (hook : Bool) (s : host.State)
      → Starts (limit_of hook) (attempts_of hook) s
      → (start_daemon host hook s).1 ≡ ok tt
  unfolding start_daemon perform ◌>>=◌ ◌>>◌
  start_daemon-Starts hook s (d, p, w) =
      rw d (
        rw p
          (await-answers (limit_of hook) (attempts_of hook) (not_ready_error hook) (started s) w))

  Starts-start_daemon :
      (hook : Bool) (s : host.State)
      → (start_daemon host hook s).1 ≡ ok tt
      → Starts (limit_of hook) (attempts_of hook) s
  unfolding start_daemon perform ◌>>=◌ ◌>>◌
  Starts-start_daemon hook s h = elim (Bool-cases (host.make_private_dirs s).1) [
    | inr z ↦ absurd (cc (rw z at h))
    | inl d ↦ elim (Bool-cases (host.spawn_daemon (host.make_private_dirs s).0).1) [
      | inr z ↦ absurd (cc (rw z at (rw d at h)))
      | inl p ↦ (
        d,
        p,
        answers-await (limit_of hook) (attempts_of hook) (not_ready_error hook) (started s)
            (rw p at (rw d at h)),
      )
    ]
  ]

  ensure_daemon-HasDaemon :
      (hook : Bool) (s : host.State)
      → ((ensure_daemon host hook s).1 ≡ ok tt) ↔ HasDaemon (limit_of hook) (attempts_of hook) s
  unfolding ensure_daemon
  ensure_daemon-HasDaemon hook s = elim (Bool-cases (answers host (limit_of hook) s).1) [
    | inl y ↦ (λ h. inl y, λ c. rw y refl)
    | inr z ↦ (
      λ h. inr (Starts-start_daemon hook (answers host (limit_of hook) s).0 (sym (rw z refl) ∙ h)),
      λ c. elim c [
        | inl y ↦ absurd (cc)
        | inr w ↦ rw z (start_daemon-Starts hook (answers host (limit_of hook) s).0 w)
      ],
    )
  ]

  -- A hook has its daemon exactly where a daemon answers a ping within 90 ms at once, or the
  -- directories can be made, a process can be started, and one of eight more pings is answered
  -- within 90 ms, each sent after a pause of 15 ms. For any other command these are pings within
  -- 200 ms, and up to fifty of them.
  pub ensure_daemon_iff :
      (s : host.State)
      → (((ensure_daemon host true s).1 ≡ ok tt) ↔ HasDaemon 90 8 s)
        × (((ensure_daemon host false s).1 ≡ ok tt) ↔ HasDaemon 200 50 s)
  ensure_daemon_iff s = (ensure_daemon-HasDaemon true s, ensure_daemon-HasDaemon false s)
