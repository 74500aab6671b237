-- ===== src/Security/Tokens.antt =====
-- The tokens of OIDC in crates/gaugemesh-core/src/security.rs.
mod Tests
use gaugemesh.Base.{
  ℕ, ◌+◌, ◌≤◌, ◌≡◌, ◌↔◌, ◌⊎◌, refl, ap, ◌∙◌, subst, arith, String, Bool, true, false, not, ◌||◌,
  Option, none, some, List, ltb, any, u64_max, saturating_add, Result, ok, err, ◌>>=◌, ◌>>◌,
  reject_if, ok_or, ok_or_ok, reject_if_ok, reject_if_pass, last_reject_if_ok, >>=_ok, >>_ok, ◌==◌,
  ◌!=◌, string_eq,
}
use text.Mathlib.TextEquality.{eq_iff}
use gaugemesh.Security.ApiKeys.{
  AuthError, token_header, token_algorithm, token_key, token_signature, token_issuer,
  token_audience, token_resource, token_expired, token_not_yet_valid,
}

pub data Audience : Type 0 where
  one : String → Audience
  many : List String → Audience

-- A missing scope is an empty one, as serde fills it in.
pub record OidcClaims : Type 0 where
  pub sub : String
  pub iss : String
  pub aud : Audience
  pub exp : ℕ
  pub nbf : Option ℕ
  pub resource : String
  pub tenant : String
  pub scope : String

pub record OidcBinding : Type 0 where
  pub issuer : String
  pub audience : String
  pub resource : String
  pub clock_skew_seconds : ℕ

abbrev pub audience_contains : Audience → String → Bool
audience_contains (one value) expected = value == expected
audience_contains (many values) expected = any (λ value. value == expected) values

-- The algorithms of the crate jsonwebtoken, those that are not accepted as one
pub data Algorithm : Type 0 where
  rs256 ps256 es256 ed_dsa another_algorithm : Algorithm

abbrev pub is_accepted : Algorithm → Bool
is_accepted another_algorithm = false
is_accepted other = true

pub record TokenHeader : Type 0 where
  pub alg : Algorithm
  pub kid : Option String

-- What the program takes from the crate jsonwebtoken: the header of a token, the key of a set under
-- an identifier, and the claims of a token whose signature by a key and an algorithm holds.
pub record TokenDecoding : Type 1 where
  pub JwkSet : Type 0
  pub Jwk : Type 0
  pub DecodingKey : Type 0
  pub decode_header : String → Option TokenHeader
  pub find_key : JwkSet → String → Option Jwk
  pub from_jwk : Jwk → Option DecodingKey
  pub decode : String → DecodingKey → Algorithm → Option OidcClaims

-- `unwrap_or(0)`
abbrev pub not_before : Option ℕ → ℕ
not_before none = 0
not_before (some time) = time

unfoldable pub validate_claims : OidcClaims → OidcBinding → ℕ → Result AuthError (Unit {0})
validate_claims claims binding now = do
  reject_if (claims.iss != binding.issuer) token_issuer
  reject_if (not (audience_contains claims.aud binding.audience)) token_audience
  reject_if (claims.resource != binding.resource) token_resource
  reject_if (ltb (saturating_add u64_max claims.exp binding.clock_skew_seconds) now) token_expired
  reject_if (ltb (saturating_add u64_max now binding.clock_skew_seconds) (not_before claims.nbf))
      token_not_yet_valid

module _ (d : TokenDecoding) where
  unfoldable pub verify_oidc_token :
      String → d.JwkSet → OidcBinding → ℕ → Result AuthError OidcClaims
  unfolding validate_claims
  verify_oidc_token token keys binding now = do
    header ← ok_or (d.decode_header token) token_header
    reject_if (not (is_accepted header.alg)) token_algorithm
    key_id ← ok_or header.kid token_key
    jwk ← ok_or (d.find_key keys key_id) token_key
    key ← ok_or (d.from_jwk jwk) token_key
    claims ← ok_or (d.decode token key header.alg) token_signature
    validate_claims claims binding now
    ok claims

-- The claims are for this issuer, audience and resource, and the time is within their window, each
-- end moved by the skew.
abbrev pub AreCurrent : OidcClaims → OidcBinding → ℕ → Type 0
AreCurrent claims binding now =
    (claims.iss ≡ binding.issuer)
    × (audience_contains claims.aud binding.audience ≡ true)
    × (claims.resource ≡ binding.resource)
    × (now ≤ claims.exp + binding.clock_skew_seconds)
    × (not_before claims.nbf ≤ now + binding.clock_skew_seconds)

in_window :
    (exp skew now : ℕ)
    → now ≤ u64_max
    → ltb (saturating_add u64_max exp skew) now ≡ false
    → now ≤ exp + skew
in_window exp skew now range e = ground arith

within_window :
    (exp skew now : ℕ)
    → now ≤ u64_max
    → now ≤ exp + skew
    → ltb (saturating_add u64_max exp skew) now ≡ false
within_window exp skew now range e = ground arith

-- Where the time and the not-before time fit in their words, the claims of a token are accepted exactly
-- when they are for the issuer, audience and resource of the binding and the time is in their window; the sums
-- that the code saturates decide as the exact ones do.
pub validate_claims_iff :
    (claims : OidcClaims) (binding : OidcBinding) (now : ℕ)
    → now ≤ u64_max
    → not_before claims.nbf ≤ u64_max
    → (validate_claims claims binding now ≡ ok tt) ↔ AreCurrent claims binding now
unfolding validate_claims
validate_claims_iff claims binding now range start_range = (accepted, λ current. passes current)
  where
    accepted : validate_claims claims binding now ≡ ok tt → AreCurrent claims binding now
    accepted e =
        let (issuer, e1) = reject_if_ok (claims.iss != binding.issuer) _ _ e in
        let (audience, e2) =
          reject_if_ok (not (audience_contains claims.aud binding.audience)) _ _ e1 in
        let (resource, e3) = reject_if_ok (claims.resource != binding.resource) _ _ e2 in
        let (live, e4) =
          reject_if_ok (ltb (saturating_add u64_max claims.exp binding.clock_skew_seconds) now) _ _
            e3 in
        let started =
          last_reject_if_ok
            (ltb (saturating_add u64_max now binding.clock_skew_seconds) (not_before claims.nbf)) _
            e4 in
        (
          ground (arith, issuer, eq_iff claims.iss binding.issuer),
          ground (arith, audience),
          ground (arith, resource, eq_iff claims.resource binding.resource),
          in_window claims.exp binding.clock_skew_seconds now range live,
          in_window now binding.clock_skew_seconds (not_before claims.nbf) start_range started,
        )

    passes : AreCurrent claims binding now → validate_claims claims binding now ≡ ok tt
    passes (issuer, audience, resource, live, started) =
        let live_test = within_window claims.exp binding.clock_skew_seconds now range live in
        let start_test =
          within_window now binding.clock_skew_seconds (not_before claims.nbf) start_range
            started in
        ground (
          arith,
          eq_iff claims.iss binding.issuer,
          issuer,
          eq_iff claims.resource binding.resource,
          resource,
          audience,
          live_test,
          start_test,
        )

pub verify_oidc_token_sound :
    (d : TokenDecoding) (token : String) (keys : d.JwkSet) (binding : OidcBinding) (now : ℕ)
    (claims : OidcClaims)
    → verify_oidc_token d token keys binding now ≡ ok claims
    → (header : TokenHeader) × (key_id : String) × (jwk : d.Jwk) × (key : d.DecodingKey)
      × (d.decode_header token ≡ some header)
      × (is_accepted header.alg ≡ true)
      × (header.kid ≡ some key_id)
      × (d.find_key keys key_id ≡ some jwk)
      × (d.from_jwk jwk ≡ some key)
      × (d.decode token key header.alg ≡ some claims)
      × (validate_claims claims binding now ≡ ok tt)
unfolding verify_oidc_token
verify_oidc_token_sound d token keys binding now claims e =
    let (header, a, e1) = >>=_ok (ok_or (d.decode_header token) token_header) _ e in
    let (accepted, e2) = reject_if_ok (not (is_accepted header.alg)) _ _ e1 in
    let (key_id, b, e3) = >>=_ok (ok_or header.kid token_key) _ e2 in
    let (jwk, c, e4) = >>=_ok (ok_or (d.find_key keys key_id) token_key) _ e3 in
    let (key, f, e5) = >>=_ok (ok_or (d.from_jwk jwk) token_key) _ e4 in
    let (decoded, g, e6) = >>=_ok (ok_or (d.decode token key header.alg) token_signature) _ e5 in
    let (valid, e7) = >>_ok (validate_claims decoded binding now) _ e6 in
    let same : decoded ≡ claims = cc e7 in
    (
      header,
      key_id,
      jwk,
      key,
      ok_or_ok (d.decode_header token) token_header a,
      ground (arith, accepted),
      ok_or_ok header.kid token_key b,
      ok_or_ok (d.find_key keys key_id) token_key c,
      ok_or_ok (d.from_jwk jwk) token_key f,
      ok_or_ok (d.decode token key header.alg) token_signature g ∙ ap (λ x. some x) same,
      subst (λ x. validate_claims x binding now ≡ ok tt) same valid,
    )
