-- ===== src/Protocol.antt =====
-- Validation of names, messages, tags and push subscriptions
-- (crates/shellbell-protocol/src/lib.rs, lines 8 to 13 and 214 to 283). The URL parser of the `url`
-- crate is a parameter: it returns a URL's scheme, or nothing where the text is no URL.
pub mod Laws
use shellbell.Base.{
  ℕ, ◌≡◌, List, [], ◌∷◌, Option, none, some, Bool, true, false, not, ◌&&◌, ◌||◌, ◌==◌, ltb,
  if◌then◌else◌, length, any, all,
}
use shellbell.Base.Result.{Result, ok, err, ◌>>=◌}
use shellbell.Base.Text.{Text, codes, text_eq, text_lt, is_empty, utf8_len, is_control, trim}

abbrev pub message_max : ℕ
message_max = 240

abbrev pub name_max : ℕ
name_max = 64

abbrev pub endpoint_max : ℕ
endpoint_max = 2048

abbrev pub key_max : ℕ
key_max = 512

abbrev pub allowed_tags : List Text
allowed_tags = codes "phone" ∷ codes "pc" ∷ codes "mobile" ∷ codes "desktop" ∷ codes "desk" ∷ []

pub data Invalid : Type 0 where
  name_empty name_too_long name_control : Invalid
  message_too_long message_control : Invalid
  unknown_tag : Invalid
  field_too_long invalid_endpoint not_https keys_required : Invalid

unfoldable pub validate_name : Text → Result Invalid Text
validate_name value =
    let v = trim value in
    if is_empty v
    then err name_empty
    else if ltb name_max (length v)
    then err name_too_long
    else if any is_control v
    then err name_control
    else ok v

-- A control character that a message may not have.
abbrev pub is_bad_control : ℕ → Bool
is_bad_control c = is_control c && not (c == 10) && not (c == 9)

unfoldable pub validate_text : Text → Result Invalid Text
validate_text value =
    let v = trim value in
    if ltb message_max (length v)
    then err message_too_long
    else if any is_bad_control v
    then err message_control
    else ok v

unfoldable pub validate_message : Option Text → Result Invalid (Option Text)
unfolding validate_text
validate_message none = ok none
validate_message (some value) = do v ← validate_text value; ok (some v)

-- `BTreeSet::insert`
unfoldable pub set_insert : Text → List Text → List Text
set_insert t [] = t ∷ []
set_insert t (u ∷ us) =
    let rest = set_insert t us in
    if text_lt t u then t ∷ u ∷ us else if text_eq t u then u ∷ us else u ∷ rest

abbrev pub contains : List Text → Text → Bool
contains tags t = any (text_eq t) tags

-- The loop of `validate_tags`, over the set so far.
unfoldable pub collect_tags : List Text → List Text → Result Invalid (List Text)
unfolding set_insert
collect_tags unique [] = ok unique
collect_tags unique (value ∷ values) =
    let rest = collect_tags (set_insert value unique) values in
    if not (contains allowed_tags value) then err unknown_tag else rest

unfoldable pub validate_tags : List Text → Result Invalid (List Text)
unfolding collect_tags
validate_tags values = collect_tags [] values

pub record PushSubscriptionInput : Type 0 where
  pub endpoint : Text
  pub p256dh : Text
  pub auth : Text

unfoldable pub validate_subscription :
    (Text → Option Text) → PushSubscriptionInput → Result Invalid (Unit {0})
validate_subscription url_scheme value =
    if ltb endpoint_max (utf8_len value.endpoint)
      || ltb key_max (utf8_len value.p256dh)
      || ltb key_max (utf8_len value.auth)
    then err field_too_long
    else elim (url_scheme value.endpoint) [
      | none ↦ err invalid_endpoint
      | some scheme ↦
          if not (text_eq scheme (codes "https"))
          then err not_https
          else if is_empty value.p256dh || is_empty value.auth
          then err keys_required
          else ok tt
    ]
