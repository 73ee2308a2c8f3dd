-- ===== src/Cli/Http/Retry.antt =====
-- The repeated request (crates/shellbell-cli/src/main.rs, `get_json_retry`).
use shellbell.Base.{
  ℕ, zero, suc, ◌+◌, ◌*◌, ◌≡◌, ◌≤◌, refl, inl, inr, Option, none, some, true, false, ◌&&◌, ltb,
  arith, Bool-cases,
}
use shellbell.Base.Result.{Result}
use shellbell.Base.Text.{Text}
use shellbell.Cli.Http.{
  Reply, HttpError, is_transient, error_of, send_json, attempt_from, get_json_retry,
}

module _ (api : Text → Option (Text × Text)) {A : Type 0} (parse : Text → Option A) {S : Type 0}
    (get : S → S × Reply) (sleep : ℕ → S → S) where
  -- The state after this attempt and its pause.
  abbrev pub paused : ℕ → S → S
  paused attempt s = sleep (250 * (attempt + 1)) (get s).0

  -- The state in front of a later attempt.
  unfoldable pub before : ℕ → ℕ → S → S
  before attempt zero s = s
  before attempt (suc k) s = before (suc attempt) k (paused attempt s)

  -- As many attempts are worth another one.
  unfoldable pub AreTransient : ℕ → ℕ → S → Type 0
  AreTransient attempt zero s = Unit
  AreTransient attempt (suc k) s =
      (is_transient (get s).1 ≡ true) × AreTransient (suc attempt) k (paused attempt s)

  -- The outcome of the loop is that of attempt `k` from this one on.
  abbrev pub SettledBy : ℕ → S → S × Result HttpError A → ℕ → Type 0
  SettledBy attempt s r k =
      AreTransient attempt k s
      × (is_transient (get (before attempt k s)).1 ≡ true → attempt + k ≡ 2)
      × (r ≡ ((get (before attempt k s)).0, send_json api parse (get (before attempt k s)).1))

  settles_from :
      (n attempt : ℕ) (last : Option HttpError) (s : S)
      → n + attempt ≡ 2
      → (k : ℕ) × (k ≤ n)
        × SettledBy attempt s (attempt_from api parse get sleep (suc n) attempt last s) k
  unfolding attempt_from before AreTransient
  settles_from zero attempt last s e =
      let full : ltb attempt 2 ≡ false = ground arith in
      elim (Bool-cases (is_transient (get s).1)) [
        | inl y ↦ (0, omega arith, (tt, λ h. omega (arith, e), rw y (rw full refl)))
        | inr n ↦ (0, omega arith, (tt, λ h. omega (arith, e), rw n refl))
      ]
  settles_from (suc n) attempt last s e = elim (Bool-cases (is_transient (get s).1)) [
    | inr z ↦ (0, omega arith, (tt, λ h. cc, rw z refl))
    | inl y ↦
        let room : ltb attempt 2 ≡ true = ground arith in
        let (k, l, w) =
          settles_from n (suc attempt) (some (error_of api (get s).1)) (paused attempt s)
            (omega (arith, e)) in
        let (t, c, r) = w in
        (suc k, omega (arith, l), ((y, t), λ h. omega (arith, c h), rw y (rw room r)))
  ]

  -- The loop ends after one, two or three requests: with the outcome of the first one that is not
  -- worth another attempt, or else of the third.
  pub get_json_retry_settles :
      (s : S) → (k : ℕ) × (k ≤ 2) × SettledBy 0 s (get_json_retry api parse get sleep s) k
  unfolding get_json_retry
  get_json_retry_settles s = settles_from 2 0 none s refl

  -- What a request and a pause keep, the loop keeps.
  kept_from :
      (P : S → Type 0) (rounds attempt : ℕ) (last : Option HttpError) (s : S)
      → ((t : S) → P t → P (get t).0)
      → ((ms : ℕ) (t : S) → P t → P (sleep ms t))
      → P s
      → P (attempt_from api parse get sleep rounds attempt last s).0
  unfolding attempt_from
  kept_from P zero attempt last s g w h = h
  kept_from P (suc n) attempt last s g w h =
      elim (Bool-cases (is_transient (get s).1 && ltb attempt 2)) [
        | inl y ↦ rw y (
            kept_from P n (suc attempt) (some (error_of api (get s).1)) (paused attempt s) g w
              (w (250 * (attempt + 1)) (get s).0 (g s h)))
        | inr n ↦ rw n (g s h)
      ]

  pub get_json_retry_keeps :
      (P : S → Type 0) (s : S)
      → ((t : S) → P t → P (get t).0)
      → ((ms : ℕ) (t : S) → P t → P (sleep ms t))
      → P s
      → P (get_json_retry api parse get sleep s).0
  unfolding get_json_retry
  get_json_retry_keeps P s g w h = kept_from P 3 0 none s g w h
