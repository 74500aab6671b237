-- ===== src/Security/ApiKeys.antt =====
-- `ApiKeyStore` of crates/gaugemesh-core/src/security.rs.
pub mod Access
mod Tests
use Prim.Native.String.{◌++◌ as ◌+++◌}
use gaugemesh.Base.{
  String, Bool, true, false, not, Option, none, some, List, [], ◌∷◌, if◌then◌else◌, any, sort,
  dedup, Result, ok, err, ◌>>=◌, ◌>>◌, reject_if, ok_or, ◌==◌, ◌!=◌, string_eq, string_ord, get,
  insert,
}
use gaugemesh.Context.{TenantId}

-- What the program takes from the crate argon2: a hash of a password, and whether a password is
-- that of a hash, which a text that is no hash is of none.
pub record PasswordHashing : Type 0 where
  pub hash_password : String → Option String
  pub verify_password : String → String → Bool

pub record StoredApiKey : Type 0 where
  pub id : String
  pub tenant : TenantId
  pub scopes : List String
  pub password_hash : String
  pub revoked : Bool

pub record IssuedApiKey : Type 0 where
  pub plaintext : String
  pub stored : StoredApiKey

pub record ApiKeyStore : Type 0 where
  pub records : List (String × StoredApiKey)

pub data AuthError : Type 0 where
  api_key_invalid api_key_revoked tenant_mismatch scope_denied token_header token_algorithm :
      AuthError
  token_key token_signature token_issuer token_audience token_resource token_expired : AuthError
  token_not_yet_valid : AuthError

abbrev pub new_key : TenantId → List String → String → String → StoredApiKey
new_key tenant scopes id password_hash = record {
  id = id;
  tenant = tenant;
  scopes = dedup (sort scopes);
  password_hash = password_hash;
  revoked = false;
}

-- The key that is issued, and the store that holds it
abbrev pub issued :
    ApiKeyStore → TenantId → List String → String → String → String → IssuedApiKey × ApiKeyStore
issued store tenant scopes id plaintext password_hash =
    let stored = new_key tenant scopes id password_hash in
    (
      (record { plaintext = plaintext; stored = stored }),
      (record { records = insert store.records id stored }),
    )

module _ (p : PasswordHashing) where
  -- The random identifier and the encoded random bytes are arguments.
  unfoldable pub issue_key :
      ApiKeyStore
      → TenantId
      → List String
      → String
      → String
      → Result AuthError (IssuedApiKey × ApiKeyStore)
  issue_key store tenant scopes id secret =
      let plaintext = "gm_live_" +++ id +++ "_" +++ secret in
      do
        password_hash ← ok_or (p.hash_password plaintext) api_key_invalid
        ok (issued store tenant scopes id plaintext password_hash)

  unfoldable pub verify_key :
      ApiKeyStore → String → String → TenantId → String → Result AuthError StoredApiKey
  verify_key store id plaintext tenant required_scope = do
    stored ← ok_or (get store.records id) api_key_invalid
    reject_if stored.revoked api_key_revoked
    reject_if (stored.tenant != tenant) tenant_mismatch
    reject_if (not (any (λ scope. scope == required_scope) stored.scopes)) scope_denied
    reject_if (not (p.verify_password plaintext stored.password_hash)) api_key_invalid
    ok stored

unfoldable pub revoke : ApiKeyStore → String → Result AuthError ApiKeyStore
revoke store id = do
  stored ← ok_or (get store.records id) api_key_invalid
  ok (record { records = insert store.records id (record stored { revoked = true }) })
