-- ===== src/Invariant.antt =====
-- crates/gaugemesh-core/src/invariant.rs: what an adapter must conserve of a request context.
pub mod Conditions
pub mod Verdicts
pub mod Conserved
pub mod Chain
mod Tests
use gaugemesh.Base.{
  ℕ, String, Bool, true, false, not, ◌&&◌, ◌||◌, Option, none, some, List, [], ◌∷◌, ◌++◌, length,
  is_empty, ltb, leb, eqb, if◌then◌else◌, starts_with, contains, dedup, sort, Eq, ◌==◌, ◌!=◌,
  string_eq, nat_eq, list_eq, option_eq, nat_ord,
}
use gaugemesh.Digest.{Hashing, of_json, Sha256Digest}
use gaugemesh.Capability.{capability_eq}
use gaugemesh.Context.{
  PrincipalId, CapabilityScope, DelegationLink, RequestContext, is_subset_of, classification_rank,
}
use gaugemesh.Context.Equality.{principal_eq, link_eq, contract_eq, classification_eq}
use gaugemesh.Context.Json.{context_json}

pub data InvariantId : Type 0 where
  request principal tenant scope deadline monetary_budget token_budget retry_budget
        data_classification :
      InvariantId
  causal_root causal_parent capability side_effect schema trace_parent data_provenance
        route_policy :
      InvariantId
  delegation causal_observations route_decisions policy_decisions retry_attempts budget_debits :
      InvariantId

pub data InvariantErrorCode : Type 0 where
  principal_lost tenant_changed scope_expanded deadline_extended budget_increased :
      InvariantErrorCode
  retry_amplified data_downgraded causality_broken schema_unbound translation_loss_exceeded :
      InvariantErrorCode

pub record SemanticLoss : Type 0 where
  pub field : String
  pub reason : String
  pub weight : ℕ

-- Without the text `detail`, which is for the reader.
pub record InvariantViolation : Type 0 where
  pub invariant : InvariantId
  pub code : InvariantErrorCode

pub record ConservationReport : Type 0 where
  pub preserved : List InvariantId
  pub strengthened : List InvariantId
  pub optional_losses : List SemanticLoss
  pub semantic_loss_score : ℕ
  pub violations : List InvariantViolation
  pub source_digest : Sha256Digest
  pub target_digest : Option Sha256Digest

abbrev pub passed : ConservationReport → Bool
passed r = is_empty r.violations

-- One `push` to one of the three lists.
pub data Verdict : Type 0 where
  preserves : InvariantId → Verdict
  strengthens : InvariantId → Verdict
  violates : InvariantId → InvariantErrorCode → Verdict

abbrev pub preserved_of : List Verdict → List InvariantId
preserved_of [] = []
preserved_of (preserves id ∷ vs) = id ∷ preserved_of vs
preserved_of (strengthens id ∷ vs) = preserved_of vs
preserved_of (violates id code ∷ vs) = preserved_of vs

abbrev pub strengthened_of : List Verdict → List InvariantId
strengthened_of [] = []
strengthened_of (preserves id ∷ vs) = strengthened_of vs
strengthened_of (strengthens id ∷ vs) = id ∷ strengthened_of vs
strengthened_of (violates id code ∷ vs) = strengthened_of vs

abbrev pub violations_of : List Verdict → List InvariantViolation
violations_of [] = []
violations_of (preserves id ∷ vs) = violations_of vs
violations_of (strengthens id ∷ vs) = violations_of vs
violations_of (violates id code ∷ vs) = (record { invariant = id; code = code }) ∷ violations_of vs

-- The macro `equal!`
abbrev pub equal : Bool → InvariantId → InvariantErrorCode → Verdict
equal same id code = if same then preserves id else violates id code

abbrev pub monotone : Bool → Bool → InvariantId → InvariantErrorCode → Verdict
monotone valid same id code =
    if same then preserves id else if valid then strengthens id else violates id code

unfoldable pub append_only :
    {A : Type 0} ⦃e : Eq A⦄ → List A → List A → InvariantId → InvariantErrorCode → Verdict
append_only source target id code =
    if target == source
    then preserves id
    else if starts_with target source
    then strengthens id
    else violates id code

-- A block that only pushes a violation
abbrev pub forbid : Bool → InvariantId → InvariantErrorCode → List Verdict
forbid broken id code = if broken then violates id code ∷ [] else []

-- The two ends of each link
abbrev pub ends_of : List DelegationLink → List PrincipalId
ends_of [] = []
ends_of (l ∷ ls) = l.from ∷ l.to ∷ ends_of ls

-- `target[source.len()..]`
abbrev pub after : {A B : Type 0} → List A → List B → List B
after [] ys = ys
after (x ∷ xs) [] = []
after (x ∷ xs) (y ∷ ys) = after xs ys

-- The loop on the extension, and the test after it
unfoldable pub follow :
    PrincipalId → CapabilityScope → List PrincipalId → List DelegationLink → RequestContext → Bool
follow current bound seen [] target =
    current == target.principal.id && is_subset_of target.scope bound
follow current bound seen (l ∷ ls) target =
    let rest = follow l.to l.scope (l.to ∷ seen) ls target in
    if l.from != current || not (is_subset_of l.scope bound) || contains seen l.to
    then false
    else rest

unfoldable pub valid_delegation_extension : RequestContext → RequestContext → Bool
unfolding follow
valid_delegation_extension source target =
    let extension = after source.delegation target.delegation in
    starts_with target.delegation source.delegation
    && not (is_empty extension)
    && follow source.principal.id source.scope (source.principal.id ∷ ends_of source.delegation)
        extension target

unfoldable pub has_repeats : List Sha256Digest → Bool
has_repeats ds = not (length (dedup (sort ds)) == length ds)

abbrev pub principal_verdict : RequestContext → RequestContext → Verdict
principal_verdict s t =
    if s.principal == t.principal
    then preserves principal
    else if valid_delegation_extension s t
    then strengthens principal
    else violates principal principal_lost

abbrev pub faults : RequestContext → RequestContext → List Verdict
faults s t =
    forbid (ltb (length s.delegation) (length t.delegation) && not (valid_delegation_extension s t))
      delegation principal_lost

abbrev pub cycles : RequestContext → List Verdict
cycles t =
    forbid (has_repeats t.causal_observations || t.causal_parent == some t.causal_root)
      causal_observations causality_broken

-- The fields that are compared by the macro
abbrev pub identities : RequestContext → RequestContext → List Verdict
identities s t =
    equal (s.request_id == t.request_id) request causality_broken
    ∷ equal (s.tenant == t.tenant) tenant tenant_changed
    ∷ equal (s.causal_root == t.causal_root) causal_root causality_broken
    ∷ equal (s.causal_parent == t.causal_parent) causal_parent causality_broken
    ∷ equal (s.side_effect == t.side_effect) side_effect causality_broken
    ∷ equal (s.schema_digest == t.schema_digest) schema schema_unbound
    ∷ equal (s.trace_parent == t.trace_parent) trace_parent causality_broken
    ∷ equal (s.data_provenance_digest == t.data_provenance_digest) data_provenance causality_broken
    ∷ equal (s.route_policy_digest == t.route_policy_digest) route_policy causality_broken
    ∷ equal (s.capability == t.capability) capability schema_unbound
    ∷ []

-- The records that are compared after the delegations
abbrev pub records : RequestContext → RequestContext → List Verdict
records s t =
    append_only s.causal_observations t.causal_observations causal_observations causality_broken
    ∷ append_only s.route_decisions t.route_decisions route_decisions causality_broken
    ∷ append_only s.policy_decisions t.policy_decisions policy_decisions causality_broken
    ∷ append_only s.retry_attempts t.retry_attempts retry_attempts retry_amplified
    ∷ append_only s.budget_debits t.budget_debits budget_debits budget_increased
    ∷ []

abbrev pub powers : RequestContext → RequestContext → List Verdict
powers s t =
    monotone (is_subset_of t.scope s.scope) (t.scope == s.scope) scope scope_expanded
    ∷ monotone (leb t.deadline s.deadline) (t.deadline == s.deadline) deadline deadline_extended
    ∷ monotone (leb t.monetary_budget s.monetary_budget) (t.monetary_budget == s.monetary_budget)
        monetary_budget budget_increased
    ∷ monotone (leb t.token_budget s.token_budget) (t.token_budget == s.token_budget) token_budget
        budget_increased
    ∷ monotone (leb t.retry_budget s.retry_budget) (t.retry_budget == s.retry_budget) retry_budget
        retry_amplified
    ∷ monotone
        (leb (classification_rank s.data_classification)
          (classification_rank t.data_classification))
        (t.data_classification == s.data_classification) data_classification data_downgraded
    ∷ []

-- The pushes of `conserve`, in their order
abbrev pub verdicts : RequestContext → RequestContext → List Verdict
verdicts s t =
    principal_verdict s t
    ∷ (identities s t
        ++ (append_only s.delegation t.delegation delegation causality_broken
            ∷ (faults s t ++ (cycles t ++ (records s t ++ powers s t)))))

unfoldable pub conserve : Hashing → RequestContext → RequestContext → ConservationReport
conserve h source target = record {
  preserved = preserved_of (verdicts source target);
  strengthened = strengthened_of (verdicts source target);
  optional_losses = [];
  semantic_loss_score = 0;
  violations = violations_of (verdicts source target);
  source_digest = of_json h (context_json h source);
  target_digest = some (of_json h (context_json h target));
}
