-- ===== src/Policy/RuleOrder.antt =====
-- What `compile` of policy.rs accepts, and that the order of a document's rules plays no part.
use gaugemesh.Base.{
  ℕ, ◌≡◌, refl, ap, subst, false, ◌&&◌, List, [], ◌∷◌, if◌then◌else◌, if-cases, Bool-cases, inl,
  inr, is_empty, contains, or_false, All, All-map, HasDistinctKeys, HasDistinctKeys-Rearranged,
  All-Rearranged, Rearranged, sort_by_key, sort_by_key-Rearranged, ok, err, ◌>>◌, >>_ok, >>_pass,
  string_ord, nat_ord, pair_ord, string_eq, nat_eq, pair_eq, ◌==◌,
}
use gaugemesh.Policy.{
  PolicyRule, PolicyDocument, CompiledPolicy, unreachable_rule, phase_rank, same_phase, order_key,
  id_of, priority_of, check_rule, check_rules, check_reachable, compile,
}
use gaugemesh.Policy.Checks.{
  IsSensible, check_rule-IsSensible, IsDistinct, check_rules-IsDistinct, IsDistinct-check_rules,
}

-- No rule stands behind one of its phase that has no conditions.
abbrev pub IsReachable : List PolicyRule → Type 0
IsReachable [] = Unit
IsReachable (r ∷ rs) =
    All (λ s. (is_empty r.conditions && same_phase s.phase r.phase) ≡ false) rs × IsReachable rs

-- The phases that are closed after a rule.
abbrev closed_after : PolicyRule → List ℕ → List ℕ
closed_after r terminal_phases =
    if is_empty r.conditions then phase_rank r.phase ∷ terminal_phases else terminal_phases

still_open :
    (r s : PolicyRule) (terminal_phases : List ℕ)
    → contains (closed_after r terminal_phases) (phase_rank s.phase) ≡ false
    → contains terminal_phases (phase_rank s.phase) ≡ false
still_open r s terminal_phases q = elim (Bool-cases (is_empty r.conditions)) [
  | inl bare ↦
      (or_false (phase_rank s.phase == phase_rank r.phase)
        (contains terminal_phases (phase_rank s.phase)) (rw bare at q)).1
  | inr guarded ↦ rw guarded at q
]

not_hidden :
    (r s : PolicyRule) (terminal_phases : List ℕ)
    → contains (closed_after r terminal_phases) (phase_rank s.phase) ≡ false
    → (is_empty r.conditions && same_phase s.phase r.phase) ≡ false
not_hidden r s terminal_phases q = elim (Bool-cases (is_empty r.conditions)) [
  | inl bare ↦
      rw bare
        (or_false (phase_rank s.phase == phase_rank r.phase)
          (contains terminal_phases (phase_rank s.phase)) (rw bare at q)).0
  | inr guarded ↦ rw guarded refl
]

check_reachable-IsReachable :
    (terminal_phases : List ℕ) (rs : List PolicyRule)
    → check_reachable terminal_phases rs ≡ ok tt
    → All (λ r. contains terminal_phases (phase_rank r.phase) ≡ false) rs × IsReachable rs
unfolding check_reachable
check_reachable-IsReachable terminal_phases [] h = (tt, tt)
check_reachable-IsReachable terminal_phases (r ∷ rs) h =
    let phases = closed_after r terminal_phases in
    let branch =
      if-cases (contains terminal_phases (phase_rank r.phase)) (err (unreachable_rule r.id))
        (check_reachable phases rs) h in
    elim branch [
      | inl (_, bad) ↦ cc
      | inr (unclosed, passed) ↦
          let (each, later) = check_reachable-IsReachable phases rs passed in
          (
            (unclosed, All-map rs (λ s q. still_open r s terminal_phases q) each),
            (All-map rs (λ s q. not_hidden r s terminal_phases q) each, later),
          )
    ]

-- A compiled policy has rules of distinct identifiers, and of distinct priorities in each phase;
-- each rule's conditions name fields that are known at its phase and do not contradict each other,
-- and none of the sorted rules stands behind one of its phase that has no conditions.
pub compile_sound :
    (document : PolicyDocument) (policy : CompiledPolicy)
    → compile document ≡ ok policy
    → HasDistinctKeys id_of document.rules
      × HasDistinctKeys priority_of document.rules
      × All IsSensible document.rules
      × IsReachable policy.document.rules
unfolding compile
compile_sound document policy e =
    let (checked, e1) = >>_ok (check_rules [] [] document.rules) _ e in
    let (unclosed, e2) = >>_ok (check_reachable [] (sort_by_key order_key document.rules)) _ e1 in
    let same : record {
      document = record document { rules = sort_by_key order_key document.rules };
    }
        ≡ policy =
      cc e2 in
    let (each, ids, priorities) = check_rules-IsDistinct [] [] document.rules checked in
    (
      ids,
      priorities,
      All-map document.rules (λ r (_, _, passes). check_rule-IsSensible r passes) each,
      subst (λ q. IsReachable q.document.rules) same
          (check_reachable-IsReachable [] (sort_by_key order_key document.rules) unclosed).1,
    )

order_keys_differ : (rs : List PolicyRule) → HasDistinctKeys id_of rs → HasDistinctKeys order_key rs
order_keys_differ [] d = tt
order_keys_differ (r ∷ rs) d =
    (All-map rs (λ s apart same. apart (ap (λ k. k.1.1) same)) d.0, order_keys_differ rs d.1)

IsDistinct-Rearranged :
    {rs ss : List PolicyRule} → Rearranged rs ss → IsDistinct [] [] rs → IsDistinct [] [] ss
IsDistinct-Rearranged r (each, ids, priorities) = (
  All-Rearranged
      (λ r.
        (contains [] r.id ≡ false) × (contains [] (priority_of r) ≡ false) × (check_rule r ≡ ok tt))
      r each,
  HasDistinctKeys-Rearranged id_of r ids,
  HasDistinctKeys-Rearranged priority_of r priorities,
)

-- A document that compiles compiles to the same policy with its rules in any other order.
pub compile-Rearranged :
    (document : PolicyDocument) (rules : List PolicyRule) (policy : CompiledPolicy)
    → Rearranged document.rules rules
    → compile document ≡ ok policy
    → compile (record document { rules = rules }) ≡ ok policy
unfolding compile
compile-Rearranged document rules policy r e =
    let (checked, e1) = >>_ok (check_rules [] [] document.rules) _ e in
    let distinct = check_rules-IsDistinct [] [] document.rules checked in
    let sorted = sort_by_key-Rearranged order_key r (order_keys_differ document.rules distinct.1) in
    >>_pass (check_rules [] [] rules) _
      (IsDistinct-check_rules [] [] rules (IsDistinct-Rearranged r distinct))
      (subst
        (λ rs.
          (check_reachable [] rs >> ok (record { document = record document { rules = rs } }))
          ≡ ok policy)
        sorted e1)
