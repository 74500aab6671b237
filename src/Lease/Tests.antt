-- ===== src/Lease/Tests.antt =====
-- Runs of lease.rs: a lease for two capabilities.
use gaugemesh.Base.{
  ℕ, ◌≡◌, ◌≢◌, ◌<◌, ◌↔◌, refl, eqb, false, ap, arith, inl, inr, [], ◌∷◌, ok, Elem, sort_by_key,
  dedup,
}
use gaugemesh.Digest.{of_json, canonical_json, insert_field}
use gaugemesh.Digest.Samples.{tally_hashing, tally, tally_inj, weigh}
use gaugemesh.Capability.{CapabilityId, tool, capability_eq, capability_beq}
use gaugemesh.Context.{read_only, idempotent_write}
use gaugemesh.Lease.{
  LeaseTerms, digest_of_terms, sorted_capabilities, issue_with_side_effects, authorize,
  authorize_invocation,
}
use gaugemesh.Lease.Grants.{
  Grants, authorize_lem, authorize_invocation_sound, authorize_invocation-issue,
}
use gaugemesh.Lease.Seal.{authorize-changed}

abbrev named : ℕ → CapabilityId
named n = record {
  source = "docs";
  kind = tool;
  native_identity_digest = n;
  schema_digest = 1;
  revision = "r";
  source_configuration_digest = 2;
}

abbrev terms : LeaseTerms
terms = record {
  principal = "alice";
  tenant = "a";
  request_identity = "request";
  capabilities = named 2 ∷ named 1 ∷ named 2 ∷ [];
  scope = [];
  expires_at_monotonic_ms = 100;
  monetary_budget = 10;
  token_budget = 20;
  retry_budget = 1;
  side_effects = read_only ∷ idempotent_write ∷ [];
}

abbrev changed_terms : LeaseTerms
changed_terms = record (sorted_capabilities terms) { expires_at_monotonic_ms = 200 }

authorize_invocation-issue_example :
    authorize_invocation tally_hashing
      (issue_with_side_effects tally_hashing "id" terms)
      "alice"
      "a"
      (named 1)
      read_only
      99
    ≡ ok tt
authorize_invocation-issue_example =
    authorize_invocation-issue tally_hashing "id" terms (named 1) read_only 99 (inr (inl refl))
      ((λ e. cc), ((λ e. refl), ((λ e. cc), tt))) (inl refl) (ground arith)

grants_named_1 :
    authorize_invocation tally_hashing
      (issue_with_side_effects tally_hashing "id" terms)
      "alice"
      "a"
      (named 1)
      read_only
      99
    ≡ ok tt
unfolding authorize_invocation authorize issue_with_side_effects sort_by_key dedup digest_of_terms
    of_json weigh canonical_json insert_field capability_beq
grants_named_1 = refl

authorize_invocation_sound_example :
    Elem (named 1) terms.capabilities
    × Elem read_only terms.side_effects
    × (terms.principal ≡ "alice")
    × (terms.tenant ≡ "a")
    × (99 < 100)
authorize_invocation_sound_example =
    authorize_invocation_sound tally_hashing "id" terms "alice" "a" (named 1) read_only 99
      grants_named_1

authorize_lem_example :
    (authorize tally_hashing
        (issue_with_side_effects tally_hashing "id" terms)
        "alice"
        "a"
        (named 1)
        99
      ≡ ok tt)
    ↔ Grants tally_hashing
        (issue_with_side_effects tally_hashing "id" terms)
        "alice"
        "a"
        (named 1)
        99
authorize_lem_example =
    authorize_lem tally_hashing (issue_with_side_effects tally_hashing "id" terms) "alice" "a"
      (named 1) 99

numbers_differ : (m n : ℕ) → eqb m n ≡ false → m ≢ n
numbers_differ m n apart e = ground arith

digests_apart :
    digest_of_terms tally_hashing changed_terms
    ≢ digest_of_terms tally_hashing (sorted_capabilities terms)
unfolding digest_of_terms of_json canonical_json insert_field weigh tally sort_by_key dedup
    capability_beq
digests_apart =
    numbers_differ (digest_of_terms tally_hashing changed_terms)
      (digest_of_terms tally_hashing (sorted_capabilities terms)) refl

authorize-changed_example :
    authorize tally_hashing
      (record (issue_with_side_effects tally_hashing "id" terms) { terms = changed_terms })
      "alice"
      "a"
      (named 1)
      150
    ≢ ok tt
authorize-changed_example =
    authorize-changed tally_hashing tally_inj "id" terms changed_terms "alice" "a" (named 1) 150
      (λ e. absurd (digests_apart e)) (λ e. digests_apart (ap (digest_of_terms tally_hashing) e))
