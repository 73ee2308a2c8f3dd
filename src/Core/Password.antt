-- ===== src/Core/Password.antt =====
-- Passwords (crates/shellbell-core/src/lib.rs, lines 8 to 12 and 53 to 135). A password and a salt are
-- their bytes. SHA-256 on bytes and the URL-safe base64 are parameters; the random salt is an argument.
pub mod Verifies
use Prim.Native.Nat.{bit_xor}
use shellbell.Base.{
  ℕ, zero, suc, ◌+◌, ◌*◌, ◌-◌, ◌/◌, ◌%◌, List, [], ◌∷◌, ◌++◌, Option, none, some, Bool, true, false,
  not, ◌&&◌, ◌||◌, ◌==◌, leb, ltb, if◌then◌else◌, length, map,
}
use shellbell.Base.Words.{u32_max}
use shellbell.Base.Text.{Text, codes, text_eq, split}

abbrev pub Bytes : Type 0
Bytes = List ℕ

abbrev pub iterations : ℕ
iterations = 600000

-- `iter_mut().zip(..)` with `^=`: what has no partner stays.
unfoldable pub xor_all : Bytes → Bytes → Bytes
xor_all (x ∷ xs) (y ∷ ys) = bit_xor x y ∷ xor_all xs ys
xor_all xs ys = xs

-- The first `n` of the bytes, with zeros after them.
unfoldable pub padded : ℕ → Bytes → Bytes
padded zero bytes = []
padded (suc n) [] = 0 ∷ padded n []
padded (suc n) (b ∷ bs) = b ∷ padded n bs

module _ (sha256 : Bytes → Bytes) where
  unfoldable pub hmac_sha256 : Bytes → Bytes → Bytes
  unfolding padded
  hmac_sha256 key message =
      let key_block = padded 64 (if ltb 64 (length key) then sha256 key else key) in
      let inner_pad = map (bit_xor 0x36) key_block in
      let outer_pad = map (bit_xor 0x5c) key_block in
      sha256 (outer_pad ++ sha256 (inner_pad ++ message))

  -- The loop of `pbkdf2_sha256`.
  unfoldable pub pbkdf2_loop : ℕ → Bytes → Bytes → Bytes → Bytes
  unfolding hmac_sha256 xor_all
  pbkdf2_loop zero password u derived = derived
  pbkdf2_loop (suc n) password u derived =
      let u' = hmac_sha256 password u in pbkdf2_loop n password u' (xor_all derived u')

  unfoldable pub pbkdf2_sha256 : Bytes → Bytes → ℕ → Bytes
  unfolding pbkdf2_loop
  pbkdf2_sha256 password salt n =
      let u = hmac_sha256 password (salt ++ (0 ∷ 0 ∷ 0 ∷ 1 ∷ [])) in
      pbkdf2_loop (n - 1) password u u

  module _ (encode : Bytes → Text) where
    unfoldable pub hash_password : Bytes → Bytes → Text
    unfolding pbkdf2_sha256
    hash_password salt password =
        codes "pbkdf2-sha256$600000$"
        ++ (encode salt ++ (36 ∷ encode (pbkdf2_sha256 password salt iterations)))

-- `str::parse` for a u32: a sign, perhaps, and digits, at least one, of a number in range.
unfoldable pub parse_digits : ℕ → Text → Option ℕ
parse_digits n [] = some n
parse_digits n (c ∷ cs) =
    let rest = parse_digits (n * 10 + (c - 48)) cs in
    if leb 48 c && leb c 57 && leb (n * 10 + (c - 48)) u32_max then rest else none

unfoldable pub parse_u32 : Text → Option ℕ
unfolding parse_digits
parse_u32 [] = none
parse_u32 (c ∷ []) = parse_digits 0 (c ∷ [])
parse_u32 (c ∷ d ∷ ds) = if c == 43 then parse_digits 0 (d ∷ ds) else parse_digits 0 (c ∷ d ∷ ds)

module _ (sha256 : Bytes → Bytes) (decode : Text → Option Bytes) where
  -- The end of `verify_password`, with what was read of the parts.
  unfoldable pub verify_parts : Bytes → Option ℕ → Option Bytes → Option Bytes → Bool
  unfolding pbkdf2_sha256
  verify_parts password (some n) (some salt) (some expected) =
      leb 100000 n
      && leb n 1000000
      && leb 8 (length salt)
      && length expected == 32
      && text_eq (pbkdf2_sha256 sha256 password salt n) expected
  verify_parts password _ _ _ = false

  -- The parts at the dollar signs: there are exactly four.
  unfoldable pub verify_split : Bytes → List Text → Bool
  unfolding verify_parts parse_u32
  verify_split password (kind ∷ n ∷ salt ∷ expected ∷ []) =
      text_eq kind (codes "pbkdf2-sha256")
      && verify_parts password (parse_u32 n) (decode salt) (decode expected)
  verify_split password _ = false

  unfoldable pub verify_password : Bytes → Text → Bool
  unfolding verify_split
  verify_password password encoded = verify_split password (split 36 encoded)
