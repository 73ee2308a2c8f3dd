-- ===== src/Tests/Protocol.antt =====
-- The validators and the hashed secrets on small texts.
use shellbell.Base.{ℕ, ◌%◌, List, [], ◌∷◌, length}
use shellbell.Base.Text.{Text, codes}

abbrev asked : List Text
asked = codes "phone" ∷ codes "desk" ∷ codes "phone" ∷ []

-- A digest of one byte, in place of SHA-256.
abbrev short_digest : Text → List ℕ
short_digest t = length t % 256 ∷ []
