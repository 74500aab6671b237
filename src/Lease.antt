-- ===== src/Lease.antt =====
-- crates/gaugemesh-core/src/lease.rs: the capability leases that callers present.
pub mod Grants
pub mod Seal
mod Tests
use gaugemesh.Base.{
  ℕ, String, Bool, true, false, not, ◌&&◌, Option, none, some, List, [], ◌∷◌, map, if◌then◌else◌,
  leb, find, contains, Result, ok, err, ◌>>◌, reject_if, sort_by_key, dedup, ◌==◌, ◌!=◌, string_eq,
  nat_eq, string_ord, nat_ord, pair_ord,
}
use gaugemesh.Digest.{Json, string, number, array, Hashing, of_json, json, items, Sha256Digest}
use gaugemesh.Capability.{
  CapabilityId, CapabilityKind, tool, resource, resource_template, prompt, model, kind_eq,
  capability_eq, capability_key,
}
use gaugemesh.Context.{
  PrincipalId, TenantId, CapabilityScope, SideEffectClass, read_only, idempotent_write,
  non_idempotent_write, side_effect_eq,
}
use gaugemesh.Context.Json.{side_effect_name, capability_json}

abbrev pub LeaseId : Type 0
LeaseId = String

-- The ten terms that the manifest digest covers. `side_effects` is the ascending list of its set.
pub record LeaseTerms : Type 0 where
  pub principal : PrincipalId
  pub tenant : TenantId
  pub request_identity : String
  pub capabilities : List CapabilityId
  pub scope : CapabilityScope
  pub expires_at_monotonic_ms : ℕ
  pub monetary_budget : ℕ
  pub token_budget : ℕ
  pub retry_budget : ℕ
  pub side_effects : List SideEffectClass

pub record CapabilityLease : Type 0 where
  pub id : LeaseId
  pub terms : LeaseTerms
  pub manifest_digest : Sha256Digest

pub data LeaseError : Type 0 where
  expired principal tenant capability stale_schema manifest : LeaseError

-- The same capability by name: its source, its kind and its native identity.
abbrev pub same_identity : CapabilityId → CapabilityId → Bool
same_identity wanted candidate =
    candidate.source == wanted.source
    && candidate.kind == wanted.kind
    && candidate.native_identity_digest == wanted.native_identity_digest

abbrev pub sorted_capabilities : LeaseTerms → LeaseTerms
sorted_capabilities t = record t {
  capabilities = dedup (sort_by_key capability_key t.capabilities);
}

abbrev pub match_capability : Option CapabilityId → CapabilityId → Result LeaseError (Unit {0})
match_capability none wanted = err capability
match_capability (some stored) wanted =
    if stored.schema_digest != wanted.schema_digest
    then err stale_schema
    else if stored != wanted
    then err capability
    else ok tt

module _ (h : Hashing) where
  abbrev pub manifest_json : LeaseTerms → Json
  manifest_json t = json (
      ("principal", string t.principal)
      ∷ ("tenant", string t.tenant)
      ∷ ("requestIdentity", string t.request_identity)
      ∷ ("capabilities", array (items (map (capability_json h) t.capabilities)))
      ∷ ("scope", array (items (map string t.scope)))
      ∷ ("expiresAtUnixMs", number t.expires_at_monotonic_ms)
      ∷ ("monetaryBudget", number t.monetary_budget)
      ∷ ("tokenBudget", number t.token_budget)
      ∷ ("retryBudget", number t.retry_budget)
      ∷ ("sideEffects", array (items (map (λ s. string (side_effect_name s)) t.side_effects)))
      ∷ [])

  -- The function `manifest_digest`
  unfoldable pub digest_of_terms : LeaseTerms → Sha256Digest
  digest_of_terms t = of_json h (manifest_json t)

  -- The random identifier is an argument.
  unfoldable pub issue_with_side_effects : LeaseId → LeaseTerms → CapabilityLease
  issue_with_side_effects id t = record {
    id = id;
    terms = sorted_capabilities t;
    manifest_digest = digest_of_terms (sorted_capabilities t);
  }

  -- `issue`: for reading only
  unfoldable pub issue : LeaseId → LeaseTerms → CapabilityLease
  issue id t = issue_with_side_effects id (record t { side_effects = read_only ∷ [] })

  unfoldable pub authorize :
      CapabilityLease → PrincipalId → TenantId → CapabilityId → ℕ → Result LeaseError (Unit {0})
  authorize lease caller from wanted now_unix_ms = do
    reject_if (leb lease.terms.expires_at_monotonic_ms now_unix_ms) expired
    reject_if (caller != lease.terms.principal) principal
    reject_if (from != lease.terms.tenant) tenant
    reject_if (digest_of_terms lease.terms != lease.manifest_digest) manifest
    match_capability (find (same_identity wanted) lease.terms.capabilities) wanted

  unfoldable pub authorize_invocation :
      CapabilityLease
      → PrincipalId
      → TenantId
      → CapabilityId
      → SideEffectClass
      → ℕ
      → Result LeaseError (Unit {0})
  authorize_invocation lease caller from wanted side_effect now_unix_ms = do
    authorize lease caller from wanted now_unix_ms
    if contains lease.terms.side_effects side_effect then ok tt else err capability
