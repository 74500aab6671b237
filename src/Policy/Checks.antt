-- ===== src/Policy/Checks.antt =====
-- What the checks of `compile` of policy.rs establish of a document's rules.
use gaugemesh.Base.{
  ◌≡◌, ◌≢◌, refl, sym, subst, arith, String, Bool, true, false, ◌||◌, none, some, Option-cases,
  List, [], ◌∷◌, map, ltb, leb, if-cases, Bool-cases, inl, inr, All, All-map, HasDistinctKeys,
  contains, ok, err, reject_if_ok, reject_if_pass, or_false, All-zip, >>_ok, >>_pass, Eq, ◌==◌,
  ◌!=◌, string_eq, nat_eq, pair_eq, string_ord, nat_ord, pair_ord, eq_self,
}
use text.Mathlib.TextEquality.{eq_iff}
use gaugemesh.Policy.{
  PolicyPhase, Condition, PolicyRule, unknown_field, field_unavailable, contradictory_rule,
  duplicate_rule, ambiguous_priority, phase_rank, lookup, field_availability, holds, check_fields,
  check_values, check_rule, check_rules, id_of, priority_of, Priority,
}

-- A condition's field is known at a phase.
abbrev pub is_available : PolicyPhase → Condition → Bool
is_available phase c = elim (lookup field_availability c.field) [
  | none ↦ false
  | some available ↦ leb (phase_rank available) (phase_rank phase)
]

check_fields-available :
    (phase : PolicyPhase) (cs : List Condition)
    → check_fields phase cs ≡ ok tt
    → All (λ c. is_available phase c ≡ true) cs
unfolding check_fields
check_fields-available phase [] h = tt
check_fields-available phase (c ∷ cs) h = elim (Option-cases (lookup field_availability c.field)) [
  | inl absent ↦
      let bad : err (unknown_field c.field) ≡ ok tt = (rw (absent, check_fields) at h) in cc
  | inr (available, known) ↦
      let branch =
        if-cases (ltb (phase_rank phase) (phase_rank available))
          (err (field_unavailable c.field phase)) (check_fields phase cs)
          (rw (known, check_fields) at h) in
      elim branch [
        | inl (_, bad) ↦ cc
        | inr (late, rest) ↦
            (rw (known, is_available) (ground (arith, late)), check_fields-available phase cs rest)
      ]
]

-- A value put before is no other than the condition's.
abbrev agrees : List (String × String) → Condition → Bool
agrees equalities c = elim (lookup equalities c.field) [
  | none ↦ true
  | some previous ↦ previous == c.equals
]

-- The fields that a list of conditions names, with their values.
abbrev pub fields_of : List Condition → List (String × String)
fields_of cs = map (λ c. (c.field, c.equals)) cs

agrees-cons :
    (c d : Condition) (equalities : List (String × String))
    → agrees equalities c ≡ true
    → agrees ((c.field, c.equals) ∷ equalities) d ≡ true
    → agrees equalities d ≡ true
agrees-cons c d equalities first_one later = elim (Bool-cases (c.field == d.field)) [
  | inl same ↦
      let field = (eq_iff c.field d.field).0 same in
      let value = (eq_iff c.equals d.equals).0 (rw (same, agrees) at later) in
      subst (λ v. agrees equalities (record { field = d.field; equals = v }) ≡ true) value
        (subst (λ f. agrees equalities (record { field = f; equals = c.equals }) ≡ true) field
          first_one)
  | inr other ↦ rw (other, agrees) at later
]

holds-cons :
    (c d : Condition) (equalities fields : List (String × String))
    → agrees ((c.field, c.equals) ∷ equalities) d ≡ true
    → holds fields d ≡ true
    → holds ((c.field, c.equals) ∷ fields) d ≡ true
holds-cons c d equalities fields agreed held = elim (Bool-cases (c.field == d.field)) [
  | inl same ↦ rw (same, holds) (rw (same, agrees) at agreed)
  | inr other ↦ rw (other, holds) held
]

check_values-holds :
    (id : String) (equalities : List (String × String)) (cs : List Condition)
    → check_values id equalities cs ≡ ok tt
    → All (λ c. (agrees equalities c ≡ true) × (holds (fields_of cs) c ≡ true)) cs
unfolding check_values
check_values-holds id equalities [] h = tt
check_values-holds id equalities (c ∷ cs) h =
    let rest_of = check_values id ((c.field, c.equals) ∷ equalities) cs in
    let (here, passed) : (agrees equalities c ≡ true) × (rest_of ≡ ok tt) =
      elim (Option-cases (lookup equalities c.field)) [
        | inl absent ↦ (rw (absent, agrees) refl, rw (absent, check_values) at h)
        | inr (previous, known) ↦
            elim (if-cases (previous != c.equals) (err (contradictory_rule id)) rest_of
              (rw (known, check_values) at h)) [
                | inl (_, bad) ↦ cc
                | inr (same, rest) ↦ (rw (known, agrees) (ground (arith, same)), rest)
              ]
      ] in
    (
      (here, (ground (arith, eq_self c.field, eq_self c.equals))),
      All-map cs
          (λ d (agreed, held). (
            agrees-cons c d equalities here agreed,
            holds-cons c d equalities (fields_of cs) agreed held,
          ))
          (check_values-holds id ((c.field, c.equals) ∷ equalities) cs passed),
    )

differ : {A : Type 0} ⦃e : Eq A⦄ (a b : A) → (b == a) ≡ false → a ≢ b
differ ⦃e⦄ a b apart same = ground (arith, apart, (e.same_iff b a).1 (sym same))

same_false : {A : Type 0} ⦃e : Eq A⦄ (a b : A) → b ≢ a → (a == b) ≡ false
same_false ⦃e⦄ a b apart = elim (Bool-cases (a == b)) [
  | inl same ↦ absurd (apart (sym ((e.same_iff a b).0 same)))
  | inr other ↦ other
]

or_of_false : {a b : Bool} → a ≡ false → b ≡ false → (a || b) ≡ false
or_of_false p q = ground (arith, p, q)

-- What a rule that passes satisfies: its fields are known at its phase, and it matches the fields
-- that its own conditions name.
abbrev pub IsSensible : PolicyRule → Type 0
IsSensible r =
    All (λ c. is_available r.phase c ≡ true) r.conditions
    × All (λ c. holds (fields_of r.conditions) c ≡ true) r.conditions

pub check_rule-IsSensible : (r : PolicyRule) → check_rule r ≡ ok tt → IsSensible r
unfolding check_rule
check_rule-IsSensible r h =
    let (known, values) = >>_ok (check_fields r.phase r.conditions) _ h in
    (
      check_fields-available r.phase r.conditions known,
      All-map r.conditions (λ c both. both.1) (check_values-holds r.id [] r.conditions values),
    )

-- What the loop on the rules checks, with the sets that it has gathered so far.
abbrev pub IsDistinct : List String → List Priority → List PolicyRule → Type 0
IsDistinct ids priorities rs =
    All
      (λ r.
        (contains ids r.id ≡ false)
        × (contains priorities (priority_of r) ≡ false)
        × (check_rule r ≡ ok tt))
      rs
    × HasDistinctKeys id_of rs
    × HasDistinctKeys priority_of rs

pub check_rules-IsDistinct :
    (ids : List String) (priorities : List Priority) (rs : List PolicyRule)
    → check_rules ids priorities rs ≡ ok tt
    → IsDistinct ids priorities rs
unfolding check_rules
check_rules-IsDistinct ids priorities [] h = (tt, tt, tt)
check_rules-IsDistinct ids priorities (r ∷ rs) h =
    let (new_id, h1) = reject_if_ok (contains ids r.id) _ _ h in
    let (new_priority, h2) = reject_if_ok (contains priorities (priority_of r)) _ _ h1 in
    let (passes, h3) = >>_ok (check_rule r) _ h2 in
    let (each, ids_apart, priorities_apart) =
      check_rules-IsDistinct (r.id ∷ ids) (priority_of r ∷ priorities) rs h3 in
    (
      (
        (new_id, new_priority, passes),
        All-map rs
            (λ s (i, p, q). (
              (or_false (s.id == r.id) (contains ids s.id) i).1,
              (or_false (priority_of s == priority_of r) (contains priorities (priority_of s)) p).1,
              q,
            ))
            each,
      ),
      (
        All-map rs
            (λ s (i, p, q). differ r.id s.id (or_false (s.id == r.id) (contains ids s.id) i).0)
            each,
        ids_apart,
      ),
      (
        All-map rs
            (λ s (i, p, q).
              differ (priority_of r) (priority_of s)
                (or_false (priority_of s == priority_of r) (contains priorities (priority_of s))
                  p).0)
            each,
        priorities_apart,
      ),
    )

pub IsDistinct-check_rules :
    (ids : List String) (priorities : List Priority) (rs : List PolicyRule)
    → IsDistinct ids priorities rs
    → check_rules ids priorities rs ≡ ok tt
unfolding check_rules
IsDistinct-check_rules ids priorities [] d = refl
IsDistinct-check_rules ids priorities (r ∷ rs) (each, ids_apart, priorities_apart) =
    let (new_id, new_priority, passes) = each.0 in
    let apart : All (λ s. (r.id ≢ s.id) × (priority_of r ≢ priority_of s)) rs =
      All-zip rs (λ s a b. (a, b)) ids_apart.0 priorities_apart.0 in
    reject_if_pass (contains ids r.id) (duplicate_rule r.id) _ new_id (
      reject_if_pass (contains priorities (priority_of r)) (ambiguous_priority r.priority) _
        new_priority
        (>>_pass (check_rule r) _ passes (
          IsDistinct-check_rules (r.id ∷ ids) (priority_of r ∷ priorities) rs (
            All-zip rs
                (λ s (i, p, q) (apart_id, apart_priority). (
                  or_of_false (same_false s.id r.id apart_id) i,
                  or_of_false (same_false (priority_of s) (priority_of r) apart_priority) p,
                  q,
                ))
                each.1 apart,
            ids_apart.1,
            priorities_apart.1,
          ))))
