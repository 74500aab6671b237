-- ===== src/Invariant/Conditions.antt =====
-- What it means that a request context is conserved.
use gaugemesh.Base.{
  ◌≤◌, ◌≡◌, ◌≢◌, ◌⊎◌, true, false, not, ◌&&◌, some, length, ltb, starts_with, string_eq, nat_eq,
  list_eq, option_eq,
}
use gaugemesh.Capability.{capability_eq}
use gaugemesh.Context.{RequestContext, is_subset_of, classification_rank}
use gaugemesh.Context.Equality.{principal_eq, link_eq, contract_eq, classification_eq}
use gaugemesh.Invariant.{valid_delegation_extension, has_repeats}

-- The fields that no adapter may change.
abbrev pub IsSameRequest : RequestContext → RequestContext → Type 0
IsSameRequest s t =
    (s.request_id ≡ t.request_id)
    × (s.tenant ≡ t.tenant)
    × (s.causal_root ≡ t.causal_root)
    × (s.causal_parent ≡ t.causal_parent)
    × (s.side_effect ≡ t.side_effect)
    × (s.schema_digest ≡ t.schema_digest)
    × (s.trace_parent ≡ t.trace_parent)
    × (s.data_provenance_digest ≡ t.data_provenance_digest)
    × (s.route_policy_digest ≡ t.route_policy_digest)
    × (s.capability ≡ t.capability)

-- The records to which an adapter may only append.
abbrev pub IsAppended : RequestContext → RequestContext → Type 0
IsAppended s t =
    (starts_with t.delegation s.delegation ≡ true)
    × (starts_with t.causal_observations s.causal_observations ≡ true)
    × (starts_with t.route_decisions s.route_decisions ≡ true)
    × (starts_with t.policy_decisions s.policy_decisions ≡ true)
    × (starts_with t.retry_attempts s.retry_attempts ≡ true)
    × (starts_with t.budget_debits s.budget_debits ≡ true)

-- The powers that an adapter may only reduce.
abbrev pub IsBounded : RequestContext → RequestContext → Type 0
IsBounded s t =
    (is_subset_of t.scope s.scope ≡ true)
    × (t.deadline ≤ s.deadline)
    × (t.monetary_budget ≤ s.monetary_budget)
    × (t.token_budget ≤ s.token_budget)
    × (t.retry_budget ≤ s.retry_budget)
    × (classification_rank s.data_classification ≤ classification_rank t.data_classification)

abbrev pub IsDelegated : RequestContext → RequestContext → Type 0
IsDelegated s t =
    ((s.principal ≡ t.principal) ⊎ (valid_delegation_extension s t ≡ true))
    × ((ltb (length s.delegation) (length t.delegation) && not (valid_delegation_extension s t))
        ≡ false)

abbrev pub IsAcyclic : RequestContext → Type 0
IsAcyclic t = (has_repeats t.causal_observations ≡ false) × (t.causal_parent ≢ some t.causal_root)

abbrev pub IsConserved : RequestContext → RequestContext → Type 0
IsConserved s t = IsDelegated s t × IsSameRequest s t × IsAppended s t × IsAcyclic t × IsBounded s t
