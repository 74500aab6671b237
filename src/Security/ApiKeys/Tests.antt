-- ===== src/Security/ApiKeys/Tests.antt =====
-- Runs of the key store of security.rs: a key that is issued, used and revoked.
use gaugemesh.Base.{
  ◌≡◌, refl, String, true, some, [], ◌∷◌, inl, inr, sort, sort_by_key, dedup, ok, err, ◌==◌,
  string_eq,
}
use text.Mathlib.TextEquality.{eq_iff}
use gaugemesh.Security.ApiKeys.{
  PasswordHashing, IssuedApiKey, ApiKeyStore, api_key_revoked, issue_key, verify_key, revoke,
  issued,
}
use gaugemesh.Security.ApiKeys.Access.{verify_key-issue_key, verify_key-revoke}

-- A password is its own hash.
abbrev plain : PasswordHashing
plain = record { hash_password = λ s. some s; verify_password = λ s h. s == h }

abbrev no_keys : ApiKeyStore
no_keys = record { records = [] }

abbrev given : IssuedApiKey × ApiKeyStore
given = issued no_keys "a" ("write" ∷ "read" ∷ "write" ∷ []) "k1" "gm_live_k1_s" "gm_live_k1_s"

issues :
    issue_key plain no_keys "a" ("write" ∷ "read" ∷ "write" ∷ []) "k1" "s" ≡ ok (given.0, given.1)
unfolding issue_key
issues = refl

same_password :
    (plaintext password_hash : String)
    → plain.hash_password plaintext ≡ some password_hash
    → plain.verify_password plaintext password_hash ≡ true
same_password plaintext password_hash e =
    let same : plaintext ≡ password_hash = cc e in (eq_iff plaintext password_hash).1 same

verify_key-issue_key_example :
    verify_key plain given.1 "k1" "gm_live_k1_s" "a" "read" ≡ ok given.0.stored
verify_key-issue_key_example =
    verify_key-issue_key plain no_keys given.1 "a" ("write" ∷ "read" ∷ "write" ∷ []) "k1" "s" "read"
      given.0 same_password issues (inr (inl refl))

opens : verify_key plain given.1 "k1" "gm_live_k1_s" "a" "write" ≡ ok given.0.stored
unfolding verify_key dedup sort sort_by_key
opens = refl

abbrev closed : ApiKeyStore
closed = record { records = ("k1", record given.0.stored { revoked = true }) ∷ [] }

revokes : revoke given.1 "k1" ≡ ok closed
unfolding revoke
revokes = refl

verify_key-revoke_example :
    (verify_key plain closed "k1" "gm_live_k1_s" "a" "read" ≡ err api_key_revoked)
    × (verify_key plain closed "k2" "gm_live_k1_s" "a" "read"
        ≡ verify_key plain given.1 "k2" "gm_live_k1_s" "a" "read")
verify_key-revoke_example =
    verify_key-revoke plain given.1 closed "k1" "k2" "gm_live_k1_s" "a" "read" revokes refl
