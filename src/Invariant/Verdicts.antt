-- ===== src/Invariant/Verdicts.antt =====
-- When a verdict of `conserve` of invariant.rs is no violation.
use gaugemesh.Base.{
  ℕ, ◌≤◌, ◌≡◌, subst, is_subset, is_subset_self, starts_with_self, ◌↔◌, ◌⊎◌, refl, sym, arith, Bool,
  true, false, ◌||◌, List, [], ◌∷◌, is_empty, leb, all, All, Bool-cases, inl, inr, starts_with, Eq,
  ◌==◌, string_eq, nat_eq, list_eq, option_eq, list_beq_iff,
}
use gaugemesh.Capability.{capability_eq}
use gaugemesh.Context.{CapabilityScope, RequestContext, is_subset_of, classification_rank}
use gaugemesh.Context.Equality.{
  principal_eq, principal_beq_iff, link_eq, contract_eq, classification_eq,
}
use gaugemesh.Invariant.{
  identities, records, powers, budget_debits, budget_increased, capability, causal_parent,
  causal_root, data_classification, data_downgraded, data_provenance, deadline, deadline_extended,
  monetary_budget, policy_decisions, request, retry_amplified, retry_attempts, retry_budget,
  route_decisions, route_policy, schema, schema_unbound, scope, scope_expanded, side_effect, tenant,
  tenant_changed, token_budget, trace_parent, principal, principal_lost, causal_observations,
  causality_broken, InvariantId, InvariantErrorCode, Verdict, preserves, strengthens, violates,
  violations_of, equal, monotone, append_only, forbid, principal_verdict,
  valid_delegation_extension,
}
use gaugemesh.Invariant.Conditions.{IsSameRequest, IsBounded}

abbrev pub harmless : Verdict → Bool
harmless (preserves id) = true
harmless (strengthens id) = true
harmless (violates id code) = false

pub violations_of-all : (vs : List Verdict) → is_empty (violations_of vs) ≡ all harmless vs
violations_of-all [] = refl
violations_of-all (preserves id ∷ vs) = violations_of-all vs
violations_of-all (strengthens id ∷ vs) = violations_of-all vs
violations_of-all (violates id code ∷ vs) = refl

abbrev pub IsHarmless : Verdict → Type 0
IsHarmless v = harmless v ≡ true

same_or_starts :
    {A : Type 0} ⦃e : Eq A⦄ (source target : List A)
    → (target == source || starts_with target source) ≡ true
    → starts_with target source ≡ true
same_or_starts ⦃e⦄ source target h = elim (Bool-cases (target == source)) [
  | inl same ↦
      subst (λ xs. starts_with xs source ≡ true) (sym ((list_beq_iff target source).0 same))
        (starts_with_self source)
  | inr other ↦ ground (arith, h, other)
]

same_or_subset :
    (s t : CapabilityScope) → (t == s || is_subset_of t s) ≡ true → is_subset_of t s ≡ true
unfolding is_subset_of
same_or_subset s t h = elim (Bool-cases (t == s)) [
  | inl same ↦
      subst (λ xs. is_subset xs s ≡ true) (sym ((list_beq_iff t s).0 same)) (is_subset_self s)
  | inr other ↦ ground (arith, h, other)
]

module _ (id : InvariantId) (code : InvariantErrorCode) where
  pub equal-IsHarmless :
      {A : Type 0} ⦃e : Eq A⦄ (x y : A) → IsHarmless (equal (x == y) id code) ↔ (x ≡ y)
  equal-IsHarmless ⦃e⦄ x y = elim (Bool-cases (x == y)) [
    | inl same ↦ ((λ h. (e.same_iff x y).0 same), (λ h. rw same refl))
    | inr other ↦ (
      (λ h. let bad : false ≡ true = (rw other at h) in cc),
      (λ h. let bad = (e.same_iff x y).1 h in ground (arith, bad, other)),
    )
  ]

  pub monotone-IsHarmless :
      (valid same : Bool) → IsHarmless (monotone valid same id code) ↔ ((same || valid) ≡ true)
  monotone-IsHarmless true true = ((λ h. h), (λ h. h))
  monotone-IsHarmless true false = ((λ h. h), (λ h. h))
  monotone-IsHarmless false true = ((λ h. h), (λ h. h))
  monotone-IsHarmless false false = ((λ h. h), (λ h. h))

  pub forbid-IsHarmless :
      (broken : Bool) → All IsHarmless (forbid broken id code) ↔ (broken ≡ false)
  forbid-IsHarmless true = ((λ h. absurd (ground (arith, h.0))), (λ h. cc))
  forbid-IsHarmless false = ((λ h. refl), (λ h. tt))

  pub append_only-IsHarmless :
      {A : Type 0} ⦃e : Eq A⦄ (source target : List A)
      → IsHarmless (append_only source target id code) ↔ (starts_with target source ≡ true)
  unfolding append_only
  append_only-IsHarmless ⦃e⦄ source target =
      let (there, back) = monotone-IsHarmless (starts_with target source) (target == source) in
      ((λ h. same_or_starts source target (there h)), (λ h. back (ground (arith, h))))

  pub at_most-IsHarmless :
      (new old : ℕ) → IsHarmless (monotone (leb new old) (new == old) id code) ↔ (new ≤ old)
  at_most-IsHarmless new old =
      let (there, back) = monotone-IsHarmless (leb new old) (new == old) in
      ((λ h. ground (arith, there h)), (λ h. back (ground (arith, h))))

scope-IsHarmless :
    (s t : RequestContext)
    → IsHarmless (monotone (is_subset_of t.scope s.scope) (t.scope == s.scope) scope scope_expanded)
      ↔ (is_subset_of t.scope s.scope ≡ true)
scope-IsHarmless s t =
    let (there, back) =
      monotone-IsHarmless scope scope_expanded (is_subset_of t.scope s.scope)
        (t.scope == s.scope) in
    ((λ h. same_or_subset s.scope t.scope (there h)), (λ h. back (ground (arith, h))))

class-IsHarmless :
    (s t : RequestContext)
    → IsHarmless (
        monotone
          (leb
            (classification_rank s.data_classification)
            (classification_rank t.data_classification))
          (t.data_classification == s.data_classification)
          data_classification
          data_downgraded)
      ↔ (classification_rank s.data_classification ≤ classification_rank t.data_classification)
class-IsHarmless s t =
    let (there, back) =
      monotone-IsHarmless data_classification data_downgraded
        (leb (classification_rank s.data_classification)
          (classification_rank t.data_classification))
        (t.data_classification == s.data_classification) in
    ((λ h. ground (arith, there h)), (λ h. back (ground (arith, h))))

pub principal-IsHarmless :
    (s t : RequestContext)
    → IsHarmless (principal_verdict s t)
      ↔ ((s.principal ≡ t.principal) ⊎ (valid_delegation_extension s t ≡ true))
principal-IsHarmless s t =
    let (there, back) =
      monotone-IsHarmless principal principal_lost (valid_delegation_extension s t)
        (s.principal == t.principal) in
    (
      (λ h. ground (arith, there h, principal_beq_iff s.principal t.principal)),
      (λ h. back (ground (arith, h, principal_beq_iff s.principal t.principal))),
    )

pub identities-IsSameRequest :
    (s t : RequestContext) → All IsHarmless (identities s t) ↔ IsSameRequest s t
identities-IsSameRequest s t = (
  (λ (a, (b, (c, (d, (e, (f, (g, (i, (j, (k, _)))))))))). (
    (equal-IsHarmless request causality_broken s.request_id t.request_id).0 a,
    (equal-IsHarmless tenant tenant_changed s.tenant t.tenant).0 b,
    (equal-IsHarmless causal_root causality_broken s.causal_root t.causal_root).0 c,
    (equal-IsHarmless causal_parent causality_broken s.causal_parent t.causal_parent).0 d,
    (equal-IsHarmless side_effect causality_broken s.side_effect t.side_effect).0 e,
    (equal-IsHarmless schema schema_unbound s.schema_digest t.schema_digest).0 f,
    (equal-IsHarmless trace_parent causality_broken s.trace_parent t.trace_parent).0 g,
    (equal-IsHarmless data_provenance causality_broken s.data_provenance_digest
          t.data_provenance_digest).0
        i,
    (equal-IsHarmless route_policy causality_broken s.route_policy_digest t.route_policy_digest).0
        j,
    (equal-IsHarmless capability schema_unbound s.capability t.capability).0 k,
  )),
  (λ (a, b, c, d, e, f, g, i, j, k). (
    (equal-IsHarmless request causality_broken s.request_id t.request_id).1 a,
    (
      (equal-IsHarmless tenant tenant_changed s.tenant t.tenant).1 b,
      (
        (equal-IsHarmless causal_root causality_broken s.causal_root t.causal_root).1 c,
        (
          (equal-IsHarmless causal_parent causality_broken s.causal_parent t.causal_parent).1 d,
          (
            (equal-IsHarmless side_effect causality_broken s.side_effect t.side_effect).1 e,
            (
              (equal-IsHarmless schema schema_unbound s.schema_digest t.schema_digest).1 f,
              (
                (equal-IsHarmless trace_parent causality_broken s.trace_parent t.trace_parent).1 g,
                (
                  (equal-IsHarmless data_provenance causality_broken s.data_provenance_digest
                        t.data_provenance_digest).1
                      i,
                  (
                    (equal-IsHarmless route_policy causality_broken s.route_policy_digest
                          t.route_policy_digest).1
                        j,
                    (
                      (equal-IsHarmless capability schema_unbound s.capability t.capability).1 k,
                      tt,
                    ),
                  ),
                ),
              ),
            ),
          ),
        ),
      ),
    ),
  )),
)

pub records-IsAppended :
    (s t : RequestContext)
    → All IsHarmless (records s t) ↔ (
        (starts_with t.causal_observations s.causal_observations ≡ true)
        × (starts_with t.route_decisions s.route_decisions ≡ true)
        × (starts_with t.policy_decisions s.policy_decisions ≡ true)
        × (starts_with t.retry_attempts s.retry_attempts ≡ true)
        × (starts_with t.budget_debits s.budget_debits ≡ true))
records-IsAppended s t = (
  (λ (a, (b, (c, (d, (e, _))))). (
    (append_only-IsHarmless causal_observations causality_broken s.causal_observations
          t.causal_observations).0
        a,
    (append_only-IsHarmless route_decisions causality_broken s.route_decisions t.route_decisions).0
        b,
    (append_only-IsHarmless policy_decisions causality_broken s.policy_decisions
          t.policy_decisions).0
        c,
    (append_only-IsHarmless retry_attempts retry_amplified s.retry_attempts t.retry_attempts).0 d,
    (append_only-IsHarmless budget_debits budget_increased s.budget_debits t.budget_debits).0 e,
  )),
  (λ (a, b, c, d, e). (
    (append_only-IsHarmless causal_observations causality_broken s.causal_observations
          t.causal_observations).1
        a,
    (
      (append_only-IsHarmless route_decisions causality_broken s.route_decisions
            t.route_decisions).1
          b,
      (
        (append_only-IsHarmless policy_decisions causality_broken s.policy_decisions
              t.policy_decisions).1
            c,
        (
          (append_only-IsHarmless retry_attempts retry_amplified s.retry_attempts
                t.retry_attempts).1
              d,
          (
            (append_only-IsHarmless budget_debits budget_increased s.budget_debits
                  t.budget_debits).1
                e,
            tt,
          ),
        ),
      ),
    ),
  )),
)

pub powers-IsBounded : (s t : RequestContext) → All IsHarmless (powers s t) ↔ IsBounded s t
powers-IsBounded s t = (
  (λ (a, (b, (c, (d, (e, (f, _)))))). (
    (scope-IsHarmless s t).0 a,
    (at_most-IsHarmless deadline deadline_extended t.deadline s.deadline).0 b,
    (at_most-IsHarmless monetary_budget budget_increased t.monetary_budget s.monetary_budget).0 c,
    (at_most-IsHarmless token_budget budget_increased t.token_budget s.token_budget).0 d,
    (at_most-IsHarmless retry_budget retry_amplified t.retry_budget s.retry_budget).0 e,
    (class-IsHarmless s t).0 f,
  )),
  (λ (a, b, c, d, e, f). (
    (scope-IsHarmless s t).1 a,
    (
      (at_most-IsHarmless deadline deadline_extended t.deadline s.deadline).1 b,
      (
        (at_most-IsHarmless monetary_budget budget_increased t.monetary_budget s.monetary_budget).1
            c,
        (
          (at_most-IsHarmless token_budget budget_increased t.token_budget s.token_budget).1 d,
          (
            (at_most-IsHarmless retry_budget retry_amplified t.retry_budget s.retry_budget).1 e,
            ((class-IsHarmless s t).1 f, tt),
          ),
        ),
      ),
    ),
  )),
)
