-- ===== src/Relay/History/Stays.antt =====
-- Revoked sources, seen again after any sequence of requests (crates/shellbell-relay/src/lib.rs).
use shellbell.Base.{
  ℕ, ◌≡◌, refl, sym, ◌∙◌, inl, inr, List, [], ◌∷◌, Option, some, true, false, is_some, ◌==◌,
  Bool-cases,
}
use mathlib.Core.Option.{some-injective}
use shellbell.Base.Text.{Text}
use shellbell.Activity.Session.{Uuid}
use shellbell.Relay.State.{TimeOrder, Source, Relay, first}
use shellbell.Relay.Owner.{RelayConfig}
use shellbell.Relay.Auth.{opens_source}
use shellbell.Relay.Pairing.{source_has_id}
use shellbell.Relay.History.{Advances, SourceLater}
use shellbell.Relay.History.Requests.{Request, serve_all, serve_all-Evolves}

-- The row that is found by its identifier is found again, in its later form.
first-Advances :
    {A : Type 0} (R : A → A → Type 0) (key : A → Uuid) (id : Uuid)
    → ((x y : A) → R x y → key y ≡ key x)
    → (xs ys : List A) (x : A) → Advances R xs ys
    → first (λ a. key a == id) xs ≡ some x
    → (y : A) × (first (λ a. key a == id) ys ≡ some y) × R x y
first-Advances R key id keep [] ys x h e = cc
first-Advances R key id keep (a ∷ xs) [] x h e = absurd h
first-Advances R key id keep (a ∷ xs) (b ∷ ys) x h e = elim (Bool-cases (key a == id)) [
  | inl t ↦
      let same = some-injective a x (sym (rw t refl) ∙ e) in
      (b, rw (keep a b h.0) (rw t refl), rw (← same) h.0)
  | inr f ↦
      let (y, found, r) = first-Advances R key id keep xs ys x h.1 (sym (rw f refl) ∙ e) in
      (y, rw (keep a b h.0) (rw f found), r)
]

module _ (sha256 : Text → List ℕ) (uuid_text : Uuid → Text) (url_scheme : Text → Option Text)
    (order : TimeOrder) (config : RelayConfig) where
  -- A source that is revoked is found after any requests still revoked, and no token opens it.
  pub revoked_source_shut_out :
      (rs : List Request) (s : Relay) (id : Uuid) (x : Source)
      → first (source_has_id id) s.sources ≡ some x
      → is_some x.revoked_at ≡ true
      → (y : Source) × (first
            (source_has_id id)
            (serve_all sha256 uuid_text url_scheme order config rs s).sources
          ≡ some y)
        × (y.revoked_at ≡ x.revoked_at)
        × ((token : Text) → opens_source sha256 token y ≡ false)
  unfolding opens_source
  revoked_source_shut_out rs s id x e r =
      let (y, found, later) =
        first-Advances SourceLater (λ q. q.id) id (λ a b h. h.0) s.sources _ x
          (serve_all-Evolves sha256 uuid_text url_scheme order config rs s).sources e in
      (y, found, later.2 r, λ token. rw (later.2 r) (rw r refl))
