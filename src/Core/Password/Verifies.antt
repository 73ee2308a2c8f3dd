-- ===== src/Core/Password/Verifies.antt =====
-- A password against the hash of one.
use shellbell.Base.{
  ℕ, zero, suc, ◌-◌, ◌≡◌, ◌≤◌, ◌↔◌, refl, sym, ◌∙◌, ap, [], ◌∷◌, ◌++◌, Option, some, Bool, true,
  false, ◌==◌, length, any, arith,
}
use shellbell.Base.Text.{Text, codes, text_eq, text_eq_iff, split}
use shellbell.Core.Password.{
  Bytes, xor_all, hmac_sha256, pbkdf2_loop, pbkdf2_sha256, hash_password, parse_u32, verify_parts,
  verify_split, verify_password, iterations,
}

length-xor_all : (a b : Bytes) → length (xor_all a b) ≡ length a
unfolding xor_all
length-xor_all [] [] = refl
length-xor_all [] (y ∷ ys) = refl
length-xor_all (x ∷ xs) [] = refl
length-xor_all (x ∷ xs) (y ∷ ys) = omega (arith, length-xor_all xs ys)

length-pbkdf2_loop :
    (sha256 : Bytes → Bytes) (n : ℕ) (password u derived : Bytes)
    → length (pbkdf2_loop sha256 n password u derived) ≡ length derived
unfolding pbkdf2_loop
length-pbkdf2_loop sha256 zero password u derived = refl
length-pbkdf2_loop sha256 (suc n) password u derived =
    length-pbkdf2_loop sha256 n password (hmac_sha256 sha256 password u)
      (xor_all derived (hmac_sha256 sha256 password u))
    ∙ length-xor_all derived (hmac_sha256 sha256 password u)

hmac_sha256-size :
    (sha256 : Bytes → Bytes) (key message : Bytes)
    → ((b : Bytes) → length (sha256 b) ≡ 32)
    → length (hmac_sha256 sha256 key message) ≡ 32
unfolding hmac_sha256
hmac_sha256-size sha256 key message h = h _

length-pbkdf2_sha256 :
    (sha256 : Bytes → Bytes) (password salt : Bytes) (n : ℕ)
    → ((b : Bytes) → length (sha256 b) ≡ 32)
    → length (pbkdf2_sha256 sha256 password salt n) ≡ 32
unfolding pbkdf2_sha256
length-pbkdf2_sha256 sha256 password salt n h =
    length-pbkdf2_loop sha256 (n - 1) password first first ∙ length-hmac
  where
    first : Bytes
    first = hmac_sha256 sha256 password (salt ++ (0 ∷ 0 ∷ 0 ∷ 1 ∷ []))

    length-hmac : length first ≡ 32
    length-hmac = hmac_sha256-size sha256 password (salt ++ (0 ∷ 0 ∷ 0 ∷ 1 ∷ [])) h

abbrev pub has : ℕ → Text → Bool
has d t = any (λ c. c == d) t

split-append : (d : ℕ) (a b : Text) → has d a ≡ false → split d (a ++ (d ∷ b)) ≡ a ∷ split d b
unfolding split any
split-append d [] b h = ground arith
split-append d (c ∷ a) b h = ground (arith, split-append d a b)

split-alone : (d : ℕ) (a : Text) → has d a ≡ false → split d a ≡ a ∷ []
unfolding split any
split-alone d [] h = refl
split-alone d (c ∷ a) h = ground (arith, split-alone d a)

split-hash :
    (salt key : Text)
    → has 36 salt ≡ false
    → has 36 key ≡ false
    → split 36 (codes "pbkdf2-sha256$600000$" ++ (salt ++ (36 ∷ key)))
      ≡ codes "pbkdf2-sha256" ∷ codes "600000" ∷ salt ∷ key ∷ []
unfolding any
split-hash salt key h k =
    split-append 36 (codes "pbkdf2-sha256") (codes "600000$" ++ (salt ++ (36 ∷ key))) refl
    ∙ ap (λ r. codes "pbkdf2-sha256" ∷ r)
        (split-append 36 (codes "600000") (salt ++ (36 ∷ key)) refl
          ∙ ap (λ r. codes "600000" ∷ r)
              (split-append 36 salt key h ∙ ap (λ r. salt ∷ r) (split-alone 36 key k)))

-- A number of iterations, a salt and a key that are within their limits.
verify_parts-known :
    (sha256 : Bytes → Bytes) (decode : Text → Option Bytes) (password salt key : Bytes) (n : ℕ)
    → (100000 ≤ n) × (n ≤ 1000000)
    → 8 ≤ length salt
    → length key ≡ 32
    → verify_parts sha256 decode password (some n) (some salt) (some key)
      ≡ text_eq (pbkdf2_sha256 sha256 password salt n) key
unfolding verify_parts
verify_parts-known sha256 decode password salt key n bounds long size = ground arith

verify_split-known :
    (sha256 : Bytes → Bytes) (decode : Text → Option Bytes) (password salt key : Bytes) (n : ℕ)
    (n_text salt_text key_text : Text)
    → parse_u32 n_text ≡ some n
    → decode salt_text ≡ some salt
    → decode key_text ≡ some key
    → verify_split sha256 decode password
        (codes "pbkdf2-sha256" ∷ n_text ∷ salt_text ∷ key_text ∷ [])
      ≡ verify_parts sha256 decode password (some n) (some salt) (some key)
unfolding verify_split text_eq
verify_split-known sha256 decode password salt key n n_text salt_text key_text p d e =
    rw (p, d, e) refl

parse_iterations : parse_u32 (codes "600000") ≡ some iterations
unfolding parse_u32
parse_iterations = refl

-- Where base64 decodes what it encodes and makes no dollar sign, the digest has 32 bytes and the
-- salt at least 8, a password is verified against the hash of another exactly when the two derive
-- the same key with its salt.
pub verify_password_iff :
    (sha256 : Bytes → Bytes) (encode : Bytes → Text) (decode : Text → Option Bytes)
    (password stored salt : Bytes)
    → ((b : Bytes) → decode (encode b) ≡ some b)
    → ((b : Bytes) → has 36 (encode b) ≡ false)
    → ((b : Bytes) → length (sha256 b) ≡ 32)
    → 8 ≤ length salt
    → (verify_password sha256 decode password (hash_password sha256 encode salt stored) ≡ true) ↔ (
        pbkdf2_sha256 sha256 password salt iterations ≡ pbkdf2_sha256 sha256 stored salt iterations)
unfolding verify_password hash_password
verify_password_iff sha256 encode decode password stored salt back clean size long =
    let key = pbkdf2_sha256 sha256 stored salt iterations in
    let e =
      ap (verify_split sha256 decode password)
        (split-hash (encode salt) (encode key) (clean salt) (clean key))
      ∙ verify_split-known sha256 decode password salt key iterations (codes "600000") (encode salt)
          (encode key) parse_iterations (back salt) (back key)
      ∙ verify_parts-known sha256 decode password salt key iterations (omega arith, omega arith)
          long (length-pbkdf2_sha256 sha256 stored salt iterations size) in
    (
      λ h. (text_eq_iff (pbkdf2_sha256 sha256 password salt iterations) key).0 (sym e ∙ h),
      λ h. e ∙ (text_eq_iff (pbkdf2_sha256 sha256 password salt iterations) key).1 h,
    )
