-- ===== src/Security/Tokens/Tests.antt =====
-- A token of security.rs that is accepted.
use gaugemesh.Base.{◌≡◌, refl, String, true, some, ok}
use gaugemesh.Security.Tokens.{
  one, OidcClaims, OidcBinding, rs256, is_accepted, TokenHeader, TokenDecoding, validate_claims,
  verify_oidc_token, verify_oidc_token_sound,
}

abbrev claims : OidcClaims
claims = record {
  sub = "alice";
  iss = "https://issuer";
  aud = one "mesh";
  exp = 1000;
  nbf = some 900;
  resource = "mcp";
  tenant = "a";
  scope = "read";
}

abbrev binding : OidcBinding
binding = record {
  issuer = "https://issuer";
  audience = "mesh";
  resource = "mcp";
  clock_skew_seconds = 30;
}

-- Each token is signed and carries the claims above.
abbrev decoding : TokenDecoding
decoding = record {
  JwkSet = String;
  Jwk = String;
  DecodingKey = String;
  decode_header = λ token. some (record { alg = rs256; kid = some "k1" });
  find_key = λ keys id. some keys;
  from_jwk = λ jwk. some jwk;
  decode = λ token key alg. some claims;
}

accepts : verify_oidc_token decoding "token" "keys" binding 1020 ≡ ok claims
unfolding verify_oidc_token
accepts = refl

verify_oidc_token_sound_example :
    (header : TokenHeader) × (key_id : String) × (jwk : String) × (key : String) × (some
        (record { alg = rs256; kid = some "k1" })
      ≡ some header)
    × (is_accepted header.alg ≡ true)
    × (header.kid ≡ some key_id)
    × (some "keys" ≡ some jwk)
    × (some jwk ≡ some key)
    × (some claims ≡ some claims)
    × (validate_claims claims binding 1020 ≡ ok tt)
verify_oidc_token_sound_example =
    verify_oidc_token_sound decoding "token" "keys" binding 1020 claims accepts
