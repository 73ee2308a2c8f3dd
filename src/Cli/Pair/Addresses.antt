-- ===== src/Cli/Pair/Addresses.antt =====
-- The address of the relay (crates/shellbell-cli/src/main.rs, `validate_relay_url`).
use shellbell.Base.{
  ◌≡◌, refl, inl, inr, [], ◌∷◌, ◌++◌, Option, none, some, true, false, not, ◌||◌, is_some, any,
  Bool-cases, arith,
}
use mathlib.Core.Path.{subst}
use shellbell.Base.Result.{ok-same, ok}
use shellbell.Base.Text.{Text, codes, text_eq, text_eq_iff}
use shellbell.Cli.Pair.{Url, is_secure, with_slash, ends_with_slash, validate_relay_url}

closed : (path : Text) → ends_with_slash (path ++ codes "/") ≡ true
unfolding ends_with_slash text_eq
closed [] = refl
closed (c ∷ []) = refl
closed (c ∷ d ∷ ds) = closed (d ∷ ds)

with_slash-ends : (path : Text) → ends_with_slash (with_slash path) ≡ true
unfolding with_slash
with_slash-ends path = elim (Bool-cases (ends_with_slash path)) [
  | inl y ↦ rw y y
  | inr n ↦ rw n (closed path)
]

with_slash_twice : (path : Text) → with_slash (with_slash path) ≡ with_slash path
unfolding with_slash
with_slash_twice path = rw (with_slash-ends path) refl

-- The names of this machine itself.
pub data IsThisMachine : Option Text → Type 0 where
  by_name : IsThisMachine (some (codes "localhost"))
  by_ipv4 : IsThisMachine (some (codes "127.0.0.1"))
  by_bracketed_ipv6 : IsThisMachine (some (codes "[::1]"))
  by_ipv6 : IsThisMachine (some (codes "::1"))

-- HTTPS to any host, or HTTP to this machine.
pub data IsEncryptedOrLocal : Text → Option Text → Type 0 where
  by_https : (host : Option Text) → IsEncryptedOrLocal (codes "https") host
  by_http : (host : Option Text) → IsThisMachine host → IsEncryptedOrLocal (codes "http") host

-- Equal texts, from the first of two tests that holds.
this_machine :
    (host : Text)
    → any (text_eq host) (codes "localhost" ∷ codes "127.0.0.1" ∷ codes "[::1]" ∷ codes "::1" ∷ [])
      ≡ true
    → IsThisMachine (some host)
unfolding any
this_machine host h = elim (Bool-cases (text_eq host (codes "localhost"))) [
  | inl y ↦ rw ((text_eq_iff host (codes "localhost")).0 y) by_name
  | inr a ↦ elim (Bool-cases (text_eq host (codes "127.0.0.1"))) [
    | inl y ↦ rw ((text_eq_iff host (codes "127.0.0.1")).0 y) by_ipv4
    | inr b ↦ elim (Bool-cases (text_eq host (codes "[::1]"))) [
      | inl y ↦ rw ((text_eq_iff host (codes "[::1]")).0 y) by_bracketed_ipv6
      | inr c ↦ elim (Bool-cases (text_eq host (codes "::1"))) [
        | inl y ↦ rw ((text_eq_iff host (codes "::1")).0 y) by_ipv6
        | inr d ↦ absurd (ground arith)
      ]
    ]
  ]
]

-- The scheme and the host that the test lets through.
is_secure-IsEncryptedOrLocal :
    (scheme : Text) (host : Option Text)
    → is_secure scheme host ≡ true
    → IsEncryptedOrLocal scheme host
unfolding is_secure
is_secure-IsEncryptedOrLocal scheme none h = elim (Bool-cases (text_eq scheme (codes "https"))) [
  | inl y ↦ rw ((text_eq_iff scheme (codes "https")).0 y) (by_https none)
  | inr n ↦ absurd (ground (arith))
]
is_secure-IsEncryptedOrLocal scheme (some host) h =
    elim (Bool-cases (text_eq scheme (codes "https"))) [
      | inl y ↦ rw ((text_eq_iff scheme (codes "https")).0 y) (by_https (some host))
      | inr n ↦ elim (Bool-cases (text_eq scheme (codes "http"))) [
        | inr m ↦ absurd (ground arith)
        | inl y ↦
            rw ((text_eq_iff scheme (codes "http")).0 y)
              (by_http (some host) (this_machine host (rw y at (rw n at h))))
      ]
    ]

-- What holds of an address that requests may go to.
pub record IsSafe (url : Url) : Type 0 where
  pub secure : IsEncryptedOrLocal url.scheme url.host
  pub absolute : (url.cannot_be_a_base || not (is_some url.host)) ≡ false
  pub bare : (url.query ≡ none) × (url.fragment ≡ none)
  pub slash : ends_with_slash url.path ≡ true

abbrev cleaned : Url → Url
cleaned url = record url { query = none; fragment = none; path = with_slash url.path }

accepted :
    (given url : Url)
    → validate_relay_url given ≡ ok url
    → (is_secure given.scheme given.host ≡ true)
      × ((given.cannot_be_a_base || not (is_some given.host)) ≡ false)
      × (cleaned given ≡ url)
unfolding validate_relay_url
accepted given url h = elim (Bool-cases (is_secure given.scheme given.host)) [
  | inr n ↦ absurd (cc (rw n at h))
  | inl y ↦ elim (Bool-cases (given.cannot_be_a_base || not (is_some given.host))) [
    | inl z ↦ absurd (cc (rw z at (rw y at h)))
    | inr z ↦ (y, z, ok-same _ (cleaned given) url refl (rw z at (rw y at h)))
  ]
]

cleaned_again :
    (given : Url)
    → is_secure given.scheme given.host ≡ true
    → (given.cannot_be_a_base || not (is_some given.host)) ≡ false
    → validate_relay_url (cleaned given) ≡ ok (cleaned given)
unfolding validate_relay_url
cleaned_again given y z = rw y (rw z (rw (with_slash_twice given.path) refl))

-- A relay's URL that is accepted uses HTTPS, or HTTP to this machine itself, is absolute, has no
-- query and no fragment, and its path ends in a slash; its scheme and host are the given ones, and
-- it is accepted again as it is.
pub validate_relay_url-IsSafe :
    (given url : Url)
    → validate_relay_url given ≡ ok url
    → IsSafe url
      × (url.scheme ≡ given.scheme)
      × (url.host ≡ given.host)
      × (validate_relay_url url ≡ ok url)
validate_relay_url-IsSafe given url h =
    let (y, z, e) = accepted given url h in
    subst
      (λ u.
        IsSafe u
        × (u.scheme ≡ given.scheme)
        × (u.host ≡ given.host)
        × (validate_relay_url u ≡ ok u))
      e
      (
        record {
          secure = is_secure-IsEncryptedOrLocal given.scheme given.host y;
          absolute = z;
          bare = (refl, refl);
          slash = with_slash-ends given.path;
        },
        refl,
        refl,
        cleaned_again given y z,
      )
