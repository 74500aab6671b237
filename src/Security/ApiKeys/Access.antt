-- ===== src/Security/ApiKeys/Access.antt =====
-- Who gets access by an API key of security.rs.
use Prim.Native.String.{◌++◌ as ◌+++◌}
use gaugemesh.Base.{
  ◌≡◌, refl, subst, arith, String, true, false, not, some, List, Bool-cases, inl, inr, any,
  any-false, All_elem, Elem, sort, sort_by_key, dedup, dedup-All_inv, sort-All_inv, ok, err, >>=_ok,
  reject_if_ok, ok_or, ok_or_ok, ok_pair, eq_self, ◌==◌, ◌!=◌, string_eq, string_ord, get, insert,
  get-insert_self, get-insert_other,
}
use text.Mathlib.TextEquality.{eq_iff}
use gaugemesh.Context.{TenantId}
use gaugemesh.Security.ApiKeys.{
  PasswordHashing, StoredApiKey, IssuedApiKey, ApiKeyStore, api_key_invalid, api_key_revoked,
  new_key, issued, issue_key, verify_key, revoke,
}

has_scope :
    (scopes : List String) (scope : String)
    → Elem scope scopes
    → any (λ s. s == scope) (dedup (sort scopes)) ≡ true
unfolding sort
has_scope scopes scope held = elim (Bool-cases (any (λ s. s == scope) (dedup (sort scopes)))) [
  | inl found ↦ found
  | inr missing ↦
      let absent = any-false (λ s. s == scope) (dedup (sort scopes)) missing in
      let all_absent =
        sort-All_inv (λ s. s) (λ s. (s == scope) ≡ false) scopes
          (dedup-All_inv (λ s. (s == scope) ≡ false) (sort_by_key (λ s. s) scopes) absent) in
      let apart = All_elem (λ s. (s == scope) ≡ false) scopes all_absent held in
      ground (arith, apart, eq_self scope)
]

module _ (p : PasswordHashing) where
  -- The conditions of access.
  abbrev pub Admits : ApiKeyStore → String → String → TenantId → String → StoredApiKey → Type 0
  Admits store id plaintext tenant scope stored =
      (get store.records id ≡ some stored)
      × (stored.revoked ≡ false)
      × (stored.tenant ≡ tenant)
      × (any (λ s. s == scope) stored.scopes ≡ true)
      × (p.verify_password plaintext stored.password_hash ≡ true)

  -- Whoever gets access by a key presents the password of a key that the store holds under the
  -- identifier, that is not revoked, and that is of the tenant and the scope that are asked for.
  pub verify_key_sound :
      (store : ApiKeyStore) (id plaintext : String) (tenant : TenantId) (scope : String)
      (stored : StoredApiKey)
      → verify_key p store id plaintext tenant scope ≡ ok stored
      → Admits store id plaintext tenant scope stored
  unfolding verify_key
  verify_key_sound store id plaintext tenant scope stored e =
      let (found, f, e1) = >>=_ok (ok_or (get store.records id) api_key_invalid) _ e in
      let (live, e2) = reject_if_ok found.revoked _ _ e1 in
      let (mine, e3) = reject_if_ok (found.tenant != tenant) _ _ e2 in
      let (allowed, e4) = reject_if_ok (not (any (λ s. s == scope) found.scopes)) _ _ e3 in
      let (known, e5) =
        reject_if_ok (not (p.verify_password plaintext found.password_hash)) _ _ e4 in
      let same : found ≡ stored = cc e5 in
      subst (Admits store id plaintext tenant scope) same (
        ok_or_ok (get store.records id) api_key_invalid f,
        live,
        (ground (arith, mine, eq_iff found.tenant tenant)),
        (ground (arith, allowed)),
        (ground (arith, known)),
      )

  verify_new :
      (store : ApiKeyStore) (tenant : TenantId) (scopes : List String)
      (id plaintext password_hash scope : String)
      → p.verify_password plaintext password_hash ≡ true
      → Elem scope scopes
      → verify_key p
          (issued store tenant scopes id plaintext password_hash).1
          id
          plaintext
          tenant
          scope
        ≡ ok (new_key tenant scopes id password_hash)
  unfolding verify_key
  verify_new store tenant scopes id plaintext password_hash scope verified held =
      rw
        (
          get-insert_self store.records id (new_key tenant scopes id password_hash),
          eq_self tenant,
          has_scope scopes scope held,
          verified,
        )
        refl

  -- When every password has the hash that is made of it, a key that was issued gives access to its
  -- tenant for each scope it was issued for.
  pub verify_key-issue_key :
      (store after : ApiKeyStore) (tenant : TenantId) (scopes : List String)
      (id secret scope : String) (key : IssuedApiKey)
      → ((plaintext password_hash : String)
          → p.hash_password plaintext ≡ some password_hash
          → p.verify_password plaintext password_hash ≡ true)
      → issue_key p store tenant scopes id secret ≡ ok (key, after)
      → Elem scope scopes
      → verify_key p after id key.plaintext tenant scope ≡ ok key.stored
  unfolding issue_key
  verify_key-issue_key store after tenant scopes id secret scope key verifies e held =
      let plaintext = "gm_live_" +++ id +++ "_" +++ secret in
      let (password_hash, f, e1) = >>=_ok (ok_or (p.hash_password plaintext) api_key_invalid) _ e in
      let (same_key, same_store) =
        ok_pair (issued store tenant scopes id plaintext password_hash).0 key
          (issued store tenant scopes id plaintext password_hash).1 after e1 in
      rw (same_key, same_store)
        (verify_new store tenant scopes id plaintext password_hash scope
          (verifies plaintext password_hash
            (ok_or_ok (p.hash_password plaintext) api_key_invalid f))
          held)

-- A revoked key gives no access, whatever is presented with it, and the other keys give the access
-- that they gave before.
pub verify_key-revoke :
    (p : PasswordHashing) (store after : ApiKeyStore) (id other plaintext : String)
    (tenant : TenantId) (scope : String)
    → revoke store id ≡ ok after
    → (id == other) ≡ false
    → (verify_key p after id plaintext tenant scope ≡ err api_key_revoked)
      × (verify_key p after other plaintext tenant scope
          ≡ verify_key p store other plaintext tenant scope)
unfolding revoke verify_key
verify_key-revoke p store after id other plaintext tenant scope e apart =
    let (stored, _, e1) = >>=_ok (ok_or (get store.records id) api_key_invalid) _ e in
    let same : record { records = insert store.records id (record stored { revoked = true }) }
        ≡ after =
      cc e1 in
    let revoked_now = get-insert_self store.records id (record stored { revoked = true }) in
    let unchanged =
      get-insert_other store.records id other (record stored { revoked = true }) apart in
    (rw (← same, revoked_now) refl, rw (← same, unchanged) refl)
