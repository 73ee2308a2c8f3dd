-- ===== src/Tests/Password.antt =====
-- A password and another one's hash, with a digest that cuts or fills its text to 32 bytes and an
-- encoding that moves each byte.
use shellbell.Base.{
  ℕ, zero, suc, ◌+◌, ◌-◌, ◌≡◌, ◌↔◌, refl, ap, [], ◌∷◌, Option, some, true, false, any, length, map,
  arith,
}
use shellbell.Base.Text.{Text, codes}
use shellbell.Core.Password.{
  Bytes, padded, pbkdf2_sha256, hash_password, verify_password, iterations,
}
use shellbell.Core.Password.Verifies.{has, verify_password_iff}

abbrev pub sha256 : Bytes → Bytes
sha256 b = padded 32 b

abbrev pub encode : Bytes → Text
encode b = map (λ x. x + 100) b

abbrev pub decode : Text → Option Bytes
decode t = some (map (λ x. x - 100) t)

abbrev pub salt : Bytes
salt = codes "12345678"

pub length-padded : (n : ℕ) (b : Bytes) → length (padded n b) ≡ n
unfolding padded
length-padded zero b = refl
length-padded (suc n) [] = omega (arith, length-padded n [])
length-padded (suc n) (x ∷ b) = omega (arith, length-padded n b)

pub moved_back : (b : Bytes) → map (λ x. x - 100) (encode b) ≡ b
moved_back [] = refl
moved_back (x ∷ b) = ground (arith, moved_back b)

pub no_dollar : (b : Bytes) → has 36 (encode b) ≡ false
unfolding any
no_dollar [] = refl
no_dollar (x ∷ b) = ground (arith, no_dollar b)

verify_password_iff_example :
    (verify_password sha256 decode
        (codes "guess")
        (hash_password sha256 encode salt (codes "secret"))
      ≡ true)
    ↔ (pbkdf2_sha256 sha256 (codes "guess") salt iterations
        ≡ pbkdf2_sha256 sha256 (codes "secret") salt iterations)
verify_password_iff_example =
    verify_password_iff sha256 encode decode (codes "guess") (codes "secret") salt
      (λ b. ap some (moved_back b)) no_dollar (length-padded 32) (omega arith)
