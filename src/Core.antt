-- ===== src/Core.antt =====
-- Secrets (crates/shellbell-core/src/lib.rs, lines 34 to 51). SHA-256 is a parameter: the digest, as
-- bytes, of the UTF-8 bytes of a text. `ct_eq` compares two byte strings for equality.
pub mod Password
use shellbell.Base.{
  ℕ, ◌≡◌, ◌<◌, ◌/◌, ◌%◌, ◌+◌, ◌-◌, refl, ap, ◌↔◌, List, [], ◌∷◌, Bool, true, ltb, if◌then◌else◌,
  All, arith,
}
use shellbell.Base.Text.{Text, text_eq, text_eq_iff}

-- The digit of "0123456789abcdef" at an index.
abbrev pub hex_char : ℕ → ℕ
hex_char n = if ltb n 10 then b'0' + n else b'a' + (n - 10)

unfoldable pub hex_digest : List ℕ → Text
hex_digest [] = []
hex_digest (byte ∷ bytes) = hex_char (byte / 16) ∷ hex_char (byte % 16) ∷ hex_digest bytes

module _ (sha256 : Text → List ℕ) where
  unfoldable pub hash_secret : Text → Text
  hash_secret secret = hex_digest (sha256 secret)

  unfoldable pub verify_secret : Text → Text → Bool
  unfolding hash_secret
  verify_secret secret expected_hash = text_eq (hash_secret secret) expected_hash

hex_byte :
    (a b : ℕ)
    → a < 256
    → b < 256
    → hex_char (a / 16) ≡ hex_char (b / 16)
    → hex_char (a % 16) ≡ hex_char (b % 16)
    → a ≡ b
hex_byte a b h k p q = ground arith

hex_digest_injective :
    (xs ys : List ℕ)
    → All (λ x. x < 256) xs
    → All (λ y. y < 256) ys
    → hex_digest xs ≡ hex_digest ys
    → xs ≡ ys
unfolding hex_digest
hex_digest_injective [] [] h k e = refl
hex_digest_injective [] (y ∷ ys) h k e = cc
hex_digest_injective (x ∷ xs) [] h k e = cc
hex_digest_injective (x ∷ xs) (y ∷ ys) h k e =
    ground (arith, hex_byte x y h.0 k.0, hex_digest_injective xs ys h.1 k.1)

-- Where the digest is made of bytes: a secret is verified against the stored hash of another exactly
-- when the two have one digest.
pub verify_secret_iff :
    (sha256 : Text → List ℕ) (secret stored : Text)
    → ((t : Text) → All (λ b. b < 256) (sha256 t))
    → (verify_secret sha256 secret (hash_secret sha256 stored) ≡ true)
      ↔ (sha256 secret ≡ sha256 stored)
unfolding verify_secret
verify_secret_iff sha256 secret stored bytes = (
  λ h.
      hex_digest_injective (sha256 secret) (sha256 stored) (bytes secret) (bytes stored)
        ((text_eq_iff _ _).0 h),
  λ e. (text_eq_iff _ _).1 (ap hex_digest e),
)
