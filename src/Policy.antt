-- ===== src/Policy.antt =====
-- crates/gaugemesh-core/src/policy.rs: the compiler of policy documents and their evaluation.
pub mod Checks
pub mod FirstMatch
pub mod RuleOrder
mod Tests
use gaugemesh.Base.{
  ℕ, ◌≡◌, ◌↔◌, String, Bool, true, false, not, ◌&&◌, Option, none, some, List, [], ◌∷◌, arith, ltb,
  leb, eqb, if◌then◌else◌, all, keep, is_empty, contains, Result, ok, err, ◌>>=◌, ◌>>◌, reject_if,
  sort_by_key, Eq, ◌==◌, ◌!=◌, string_eq, nat_eq, pair_eq, string_ord, nat_ord, pair_ord,
}

pub data PolicyPhase : Type 0 where
  discovery request_metadata request_body response_metadata response_body post_effect cleanup :
      PolicyPhase

pub data PolicyEffect : Type 0 where
  allow deny : PolicyEffect

pub record Condition : Type 0 where
  pub field : String
  pub equals : String

pub record PolicyRule : Type 0 where
  pub id : String
  pub phase : PolicyPhase
  pub priority : ℕ
  pub effect : PolicyEffect
  -- the field `all` of the source
  pub conditions : List Condition

pub record PolicyDocument : Type 0 where
  pub default : PolicyEffect
  pub rules : List PolicyRule

pub data PolicyCompileError : Type 0 where
  unknown_field : String → PolicyCompileError
  field_unavailable : String → PolicyPhase → PolicyCompileError
  ambiguous_priority : ℕ → PolicyCompileError
  duplicate_rule : String → PolicyCompileError
  contradictory_rule : String → PolicyCompileError
  unreachable_rule : String → PolicyCompileError

pub record CompiledPolicy : Type 0 where
  pub document : PolicyDocument

-- The variants' positions, by which the derived `Ord` compares.
abbrev pub phase_rank : PolicyPhase → ℕ
phase_rank discovery = 0
phase_rank request_metadata = 1
phase_rank request_body = 2
phase_rank response_metadata = 3
phase_rank response_body = 4
phase_rank post_effect = 5
phase_rank cleanup = 6

abbrev pub same_phase : PolicyPhase → PolicyPhase → Bool
same_phase a b = eqb (phase_rank a) (phase_rank b)

-- A `BTreeMap` that is only read: the value at a key. `insert` puts a value before the others.
abbrev pub lookup : {V : Type 0} → List (String × V) → String → Option V
lookup [] key = none
lookup ((k, v) ∷ rest) key = if k == key then some v else lookup rest key

abbrev pub field_availability : List (String × PolicyPhase)
field_availability =
    ("principal.id", discovery)
    ∷ ("principal.group", discovery)
    ∷ ("tenant.id", discovery)
    ∷ ("capability.source", discovery)
    ∷ ("capability.kind", discovery)
    ∷ ("request.protocol", request_metadata)
    ∷ ("request.data_classification", request_metadata)
    ∷ ("request.argument", request_body)
    ∷ ("response.status", response_metadata)
    ∷ ("response.body_classification", response_body)
    ∷ ("effect.observed", post_effect)
    ∷ ("cleanup.result", cleanup)
    ∷ []

-- The test of `evaluate` on one rule
abbrev pub holds : List (String × String) → Condition → Bool
holds fields condition = elim (lookup fields condition.field) [
  | none ↦ false
  | some value ↦ value == condition.equals
]

abbrev pub matches : List (String × String) → PolicyRule → Bool
matches fields rule = all (holds fields) rule.conditions

-- `min_by_key(|rule| rule.priority)`: of equal minima the first
unfoldable pub lowest : List PolicyRule → Option PolicyRule
lowest [] = none
lowest (r ∷ rs) = elim (lowest rs) [
  | none ↦ some r
  | some s ↦ if leb r.priority s.priority then some r else some s
]

abbrev pub effect_or : PolicyEffect → Option PolicyRule → PolicyEffect
effect_or default none = default
effect_or default (some r) = r.effect

unfoldable pub evaluate : CompiledPolicy → PolicyPhase → List (String × String) → PolicyEffect
evaluate policy phase fields =
    effect_or policy.document.default
      (lowest (keep (matches fields) (keep (λ r. same_phase r.phase phase) policy.document.rules)))

-- The loop of `compile` on the conditions' fields
unfoldable pub check_fields : PolicyPhase → List Condition → Result PolicyCompileError (Unit {0})
check_fields phase [] = ok tt
check_fields phase (c ∷ cs) = elim (lookup field_availability c.field) [
  | none ↦ err (unknown_field c.field)
  | some available ↦
      if ltb (phase_rank phase) (phase_rank available)
      then err (field_unavailable c.field phase)
      else check_fields phase cs
]

-- The loop of `compile` on the conditions' values
unfoldable pub check_values :
    String → List (String × String) → List Condition → Result PolicyCompileError (Unit {0})
check_values id equalities [] = ok tt
check_values id equalities (c ∷ cs) =
    let rest = check_values id ((c.field, c.equals) ∷ equalities) cs in
    elim (lookup equalities c.field) [
      | none ↦ rest
      | some previous ↦ if previous != c.equals then err (contradictory_rule id) else rest
    ]

abbrev pub Priority : Type 0
Priority = ℕ × ℕ

abbrev pub priority_of : PolicyRule → Priority
priority_of r = (phase_rank r.phase, r.priority)

abbrev pub id_of : PolicyRule → String
id_of r = r.id

-- The body of the loop of `compile` on the rules, after its tests on the sets
unfoldable pub check_rule : PolicyRule → Result PolicyCompileError (Unit {0})
unfolding check_fields check_values
check_rule r = do check_fields r.phase r.conditions; check_values r.id [] r.conditions

unfoldable pub check_rules :
    List String → List Priority → List PolicyRule → Result PolicyCompileError (Unit {0})
unfolding check_rule
check_rules ids priorities [] = ok tt
check_rules ids priorities (r ∷ rs) = do
  reject_if (contains ids r.id) (duplicate_rule r.id)
  reject_if (contains priorities (priority_of r)) (ambiguous_priority r.priority)
  check_rule r
  check_rules (r.id ∷ ids) (priority_of r ∷ priorities) rs

-- The loop of `compile` on the sorted rules, with the ranks of the terminal phases
unfoldable pub check_reachable : List ℕ → List PolicyRule → Result PolicyCompileError (Unit {0})
check_reachable terminal_phases [] = ok tt
check_reachable terminal_phases (r ∷ rs) =
    let rest =
      check_reachable
        (if is_empty r.conditions then phase_rank r.phase ∷ terminal_phases else terminal_phases)
        rs in
    if contains terminal_phases (phase_rank r.phase) then err (unreachable_rule r.id) else rest

abbrev pub order_key : PolicyRule → ℕ × (ℕ × String)
order_key r = (phase_rank r.phase, (r.priority, r.id))

unfoldable pub compile : PolicyDocument → Result PolicyCompileError CompiledPolicy
unfolding check_rules check_reachable
compile document = do
  check_rules [] [] document.rules
  let rules = sort_by_key order_key document.rules
  check_reachable [] rules
  ok (record { document = record document { rules = rules } })
