-- ===== src/Invariant/Conserved.antt =====
-- When a report of `conserve` of invariant.rs passes.
use gaugemesh.Base.{
  ◌≡◌, ◌≢◌, All-append, All-append_inv, all-All, ◌↔◌, sym, ◌∙◌, arith, true, false, not, ◌&&◌, ◌||◌,
  some, ◌∷◌, ◌++◌, length, ltb, All, all-true, Bool-cases, inl, inr, ◌==◌, string_eq, nat_eq,
  list_eq, option_eq, option_beq_iff,
}
use gaugemesh.Digest.{Hashing}
use gaugemesh.Capability.{capability_eq}
use gaugemesh.Context.{RequestContext}
use gaugemesh.Context.Equality.{principal_eq, link_eq, contract_eq, classification_eq}
use gaugemesh.Invariant.{
  faults, cycles, identities, records, powers, principal_lost, delegation, causal_observations,
  causality_broken, passed, append_only, verdicts, valid_delegation_extension, has_repeats,
  conserve,
}
use gaugemesh.Invariant.Conditions.{IsConserved}
use gaugemesh.Invariant.Verdicts.{
  harmless, IsHarmless, violations_of-all, forbid-IsHarmless, append_only-IsHarmless,
  principal-IsHarmless, identities-IsSameRequest, records-IsAppended, powers-IsBounded,
}

no_self_edge :
    (t : RequestContext)
    → (has_repeats t.causal_observations || t.causal_parent == some t.causal_root) ≡ false
    → t.causal_parent ≢ some t.causal_root
no_self_edge t acyclic same =
    ground (arith, acyclic, (option_beq_iff t.causal_parent (some t.causal_root)).1 same)

no_cycle :
    (t : RequestContext)
    → has_repeats t.causal_observations ≡ false
    → t.causal_parent ≢ some t.causal_root
    → (has_repeats t.causal_observations || t.causal_parent == some t.causal_root) ≡ false
no_cycle t fresh apart = elim (Bool-cases (t.causal_parent == some t.causal_root)) [
  | inl same ↦ absurd (apart ((option_beq_iff t.causal_parent (some t.causal_root)).0 same))
  | inr other ↦ ground (arith, fresh, other)
]

module _ (s t : RequestContext) where
  verdicts-IsConserved : All IsHarmless (verdicts s t) → IsConserved s t
  verdicts-IsConserved (who, rest) =
      let (same, (chain, rest1)) =
        All-append_inv IsHarmless (identities s t)
          (append_only s.delegation t.delegation delegation causality_broken
            ∷ (faults s t ++ (cycles t ++ (records s t ++ powers s t))))
          rest in
      let (fault, rest2) =
        All-append_inv IsHarmless (faults s t) (cycles t ++ (records s t ++ powers s t)) rest1 in
      let (cycle, rest3) = All-append_inv IsHarmless (cycles t) (records s t ++ powers s t) rest2 in
      let (grown, bounded) = All-append_inv IsHarmless (records s t) (powers s t) rest3 in
      let acyclic =
        (forbid-IsHarmless causal_observations causality_broken
            (has_repeats t.causal_observations || t.causal_parent == some t.causal_root)).0
          cycle in
      let (a, b, c, d, e) = (records-IsAppended s t).0 grown in
      (
        (
          (principal-IsHarmless s t).0 who,
          (forbid-IsHarmless delegation principal_lost (
                ltb (length s.delegation) (length t.delegation)
                && not (valid_delegation_extension s t))).0
              fault,
        ),
        (identities-IsSameRequest s t).0 same,
        (
          (append_only-IsHarmless delegation causality_broken s.delegation t.delegation).0 chain,
          a,
          b,
          c,
          d,
          e,
        ),
        ((ground (arith, acyclic)), no_self_edge t acyclic),
        (powers-IsBounded s t).0 bounded,
      )

  IsConserved-verdicts : IsConserved s t → All IsHarmless (verdicts s t)
  IsConserved-verdicts ((who, fault), same, (chain, a, b, c, d, e), (fresh, apart), bounded) =
      let grown = (records-IsAppended s t).1 (a, b, c, d, e) in
      let later =
        All-append IsHarmless (records s t) (powers s t) grown ((powers-IsBounded s t).1 bounded) in
      let cycle =
        (forbid-IsHarmless causal_observations causality_broken
            (has_repeats t.causal_observations || t.causal_parent == some t.causal_root)).1
          (no_cycle t fresh apart) in
      let faultless =
        (forbid-IsHarmless delegation principal_lost (
            ltb (length s.delegation) (length t.delegation)
            && not (valid_delegation_extension s t))).1
          fault in
      let after_chain =
        All-append IsHarmless (faults s t) (cycles t ++ (records s t ++ powers s t)) faultless
          (All-append IsHarmless (cycles t) (records s t ++ powers s t) cycle later) in
      (
        (principal-IsHarmless s t).1 who,
        All-append IsHarmless (identities s t)
            (append_only s.delegation t.delegation delegation causality_broken
              ∷ (faults s t ++ (cycles t ++ (records s t ++ powers s t))))
            ((identities-IsSameRequest s t).1 same)
            (
              (append_only-IsHarmless delegation causality_broken s.delegation t.delegation).1
                  chain,
              after_chain,
            ),
      )

pub passed-conserve :
    (h : Hashing) (s t : RequestContext) → (passed (conserve h s t) ≡ true) ↔ IsConserved s t
unfolding conserve
passed-conserve h s t = (
  (λ p.
      verdicts-IsConserved s t
        (all-true harmless (verdicts s t) (sym (violations_of-all (verdicts s t)) ∙ p))),
  (λ c.
      violations_of-all (verdicts s t)
      ∙ all-All harmless (verdicts s t) (IsConserved-verdicts s t c)),
)
