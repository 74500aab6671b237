-- ===== src/Policy/FirstMatch.antt =====
-- `evaluate` of policy.rs takes the effect of the first rule that matches.
use gaugemesh.Base.{
  ◌≡◌, refl, subst, ◌∙◌, ap, arith, String, Bool, true, ◌&&◌, some, Option-cases, List, [], ◌∷◌,
  leb, if-cases, Bool-cases, inl, inr, find, keep, All, IsSorted, at_most, sort-IsSorted,
  sort_by_key, ok, >>_ok, string_ord, nat_ord, pair_ord,
}
use gaugemesh.Policy.{
  PolicyPhase, PolicyEffect, PolicyRule, PolicyDocument, CompiledPolicy, phase_rank, same_phase,
  matches, lowest, effect_or, evaluate, order_key, check_rules, check_reachable, compile,
}

-- The rules of one phase that match, in one test.
abbrev pub applies : PolicyPhase → List (String × String) → PolicyRule → Bool
applies phase fields r = same_phase r.phase phase && matches fields r

-- The specification: the first rule of the document that applies decides.
abbrev pub first_match : CompiledPolicy → PolicyPhase → List (String × String) → PolicyEffect
first_match policy phase fields =
    effect_or policy.document.default (find (applies phase fields) policy.document.rules)

keep-keep :
    {A : Type 0} (p q : A → Bool) (xs : List A) → keep q (keep p xs) ≡ keep (λ x. p x && q x) xs
keep-keep p q [] = refl
keep-keep p q (x ∷ xs) = elim (Bool-cases (p x)) [
  | inl holds ↦ elim (Bool-cases (q x)) [
    | inl also ↦ rw (holds, also) (ap (λ ys. x ∷ ys) (keep-keep p q xs))
    | inr fails ↦ rw (holds, fails) (keep-keep p q xs)
  ]
  | inr fails ↦ rw fails (keep-keep p q xs)
]

-- In one phase the later rules of a sorted document have no lower priority.
priority_le :
    (r s : PolicyRule)
    → at_most (order_key r) (order_key s) ≡ true
    → phase_rank r.phase ≡ phase_rank s.phase
    → leb r.priority s.priority ≡ true
priority_le r s ordered same = ground (arith, ordered, same)

lowest-All :
    (P : PolicyRule → Type 0) (rs : List PolicyRule) {s : PolicyRule}
    → All P rs
    → lowest rs ≡ some s
    → P s
unfolding lowest
lowest-All P [] h f = cc
lowest-All P (r ∷ rs) {s} h f = elim (Option-cases (lowest rs)) [
  | inl nothing ↦
      let g : some r ≡ some s = (rw (nothing, lowest) at f) in
      let same : r ≡ s = cc g in subst P same h.0
  | inr (m, found) ↦
      elim (if-cases (leb r.priority m.priority) (some r) (some m) (rw (found, lowest) at f)) [
        | inl (_, g) ↦ let same : r ≡ s = cc g in subst P same h.0
        | inr (_, g) ↦ let same : m ≡ s = cc g in subst P same (lowest-All P rs h.1 found)
      ]
]

keep_above :
    (phase : PolicyPhase) (fields : List (String × String)) (r : PolicyRule) (rs : List PolicyRule)
    → applies phase fields r ≡ true
    → All (λ s. at_most (order_key r) (order_key s) ≡ true) rs
    → All (λ s. leb r.priority s.priority ≡ true) (keep (applies phase fields) rs)
keep_above phase fields r [] holds above = tt
keep_above phase fields r (s ∷ rs) holds above = elim (Bool-cases (applies phase fields s)) [
  | inl also ↦ rw also (
    priority_le r s above.0 (ground (arith, holds, also)),
    keep_above phase fields r rs holds above.1,
  )
  | inr fails ↦ rw fails (keep_above phase fields r rs holds above.1)
]

-- With a first rule that is not above the lowest of the others, the first rule is the lowest.
lowest_first :
    (r : PolicyRule) (rs : List PolicyRule)
    → All (λ s. leb r.priority s.priority ≡ true) rs
    → lowest (r ∷ rs) ≡ some r
unfolding lowest
lowest_first r rs above = elim (Option-cases (lowest rs)) [
  | inl nothing ↦ rw (nothing, lowest) refl
  | inr (s, found) ↦
      rw (found, lowest, lowest-All (λ s. leb r.priority s.priority ≡ true) rs above found) refl
]

lowest-keep :
    (phase : PolicyPhase) (fields : List (String × String)) (rs : List PolicyRule)
    → IsSorted order_key rs
    → lowest (keep (applies phase fields) rs) ≡ find (applies phase fields) rs
unfolding lowest
lowest-keep phase fields [] sorted = refl
lowest-keep phase fields (r ∷ rs) sorted = elim (Bool-cases (applies phase fields r)) [
  | inl holds ↦ rw holds (
      lowest_first r (keep (applies phase fields) rs) (keep_above phase fields r rs holds sorted.0))
  | inr fails ↦ rw fails (lowest-keep phase fields rs sorted.1)
]

-- Every compiled policy decides by the first of its rules, in its order of phases, priorities and
-- identifiers, whose phase is the wanted one and whose conditions all hold, and by the document's
-- default when there is none.
pub evaluate-compile :
    (document : PolicyDocument) (policy : CompiledPolicy) (phase : PolicyPhase)
    (fields : List (String × String))
    → compile document ≡ ok policy
    → evaluate policy phase fields ≡ first_match policy phase fields
unfolding evaluate compile
evaluate-compile document policy phase fields e =
    let (_, e1) = >>_ok (check_rules [] [] document.rules) _ e in
    let (_, e2) = >>_ok (check_reachable [] (sort_by_key order_key document.rules)) _ e1 in
    let same : record {
      document = record document { rules = sort_by_key order_key document.rules };
    }
        ≡ policy =
      cc e2 in
    subst (λ q. evaluate q phase fields ≡ first_match q phase fields) same
      (ap (effect_or document.default) (
        ap lowest (
          keep-keep (λ r. same_phase r.phase phase) (matches fields)
            (sort_by_key order_key document.rules))
        ∙ lowest-keep phase fields (sort_by_key order_key document.rules)
            (sort-IsSorted order_key document.rules)))
