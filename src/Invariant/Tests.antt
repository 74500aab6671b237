-- ===== src/Invariant/Tests.antt =====
-- Runs of invariant.rs: a context that is handed on twice.
use gaugemesh.Base.{
  ◌≡◌, ◌↔◌, refl, [], ◌∷◌, true, false, dedup, sort, sort_by_key, string_eq, nat_eq,
}
use gaugemesh.Digest.Samples.{sample_hashing}
use gaugemesh.Context.{RequestContext, DelegationLink, confidential, is_subset_of}
use gaugemesh.Context.Samples.{sample_context}
use gaugemesh.Invariant.{
  passed, conserve, append_only, valid_delegation_extension, follow, has_repeats,
}
use gaugemesh.Invariant.Conditions.{IsConserved}
use gaugemesh.Invariant.Conserved.{passed-conserve}

abbrev sent : RequestContext
sent = record sample_context { scope = "read" ∷ "write" ∷ []; causal_observations = 5 ∷ [] }

abbrev to_worker : DelegationLink
to_worker = record { from = "alice"; to = "worker"; scope = "read" ∷ []; proof_digest = 9 }

abbrev received : RequestContext
received = record sent {
  principal = record { id = "worker"; groups = [] };
  delegation = to_worker ∷ [];
  scope = "read" ∷ [];
  causal_observations = 5 ∷ 6 ∷ [];
  deadline = 900;
}

abbrev finished : RequestContext
finished = record received { monetary_budget = 60; data_classification = confidential }

passes_received : passed (conserve sample_hashing sent received) ≡ true
unfolding conserve append_only valid_delegation_extension follow has_repeats dedup sort sort_by_key
    is_subset_of
passes_received = refl

passes_finished : passed (conserve sample_hashing received finished) ≡ true
unfolding conserve append_only valid_delegation_extension follow has_repeats dedup sort sort_by_key
    is_subset_of
passes_finished = refl

other_tenant_fails :
    passed (conserve sample_hashing sent (record received { tenant = "b" })) ≡ false
unfolding conserve append_only valid_delegation_extension follow has_repeats dedup sort sort_by_key
    is_subset_of
other_tenant_fails = refl

passed-conserve_example :
    (passed (conserve sample_hashing sent received) ≡ true) ↔ IsConserved sent received
passed-conserve_example = passed-conserve sample_hashing sent received
