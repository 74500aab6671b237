-- ===== src/Route/Verifier.antt =====
-- The functions of crates/gaugemesh-core/src/route.rs that check a reported decision:
-- `verify_integrity` and `validate_explanations`.
pub mod Soundness
pub mod Agreement
mod Tests
use gaugemesh.Base.{
  ℕ, ◌≡◌, String, Bool, true, false, not, ◌&&◌, ◌||◌, Option, none, some, List, [], ◌∷◌, ltb, leb,
  if◌then◌else◌, any, find, first, is_empty, is_blank, is_empty_text, Result, ok, err, ◌>>=◌, ◌>>◌,
  reject_if, ok_or, sort, any_window, at_most, ◌==◌, ◌!=◌, string_eq, nat_eq, string_ord, nat_ord,
  pair_ord,
}
use gaugemesh.Digest.{Hashing}
use gaugemesh.Route.{
  RouteId, ScoreTerms, CandidateExplanation, RoutePlan, RouteDenial, RouteDecision, RouteError,
  selected, denied, decision_digest_mismatch, decision_contract_invalid,
  decision_score_out_of_range, unsupported_decision_schema, max_action_score, stable_tie_breaker,
}
use gaugemesh.Route.Json.{selected_digest, denied_digest}
use gaugemesh.Route.Planner.{total, Eligible}

-- The loop that ranks the explained candidates that have terms.
unfoldable pub rank : List CandidateExplanation → Result RouteError Eligible
rank [] = ok []
rank (e ∷ es) =
    let rest = rank es in
    elim e.terms [
      | none ↦ rest
      | some terms ↦ (do score ← total terms; ranked ← rest; ok ((score, e.route_id) ∷ ranked))
    ]

-- The body of the loop of `validate_explanations`
unfoldable pub validate_explanation : Bool → CandidateExplanation → Result RouteError (Unit {0})
validate_explanation require_all_denied e =
    if is_empty_text e.route_id
    then err decision_contract_invalid
    else if e.allowed
    then (do
      reject_if require_all_denied decision_contract_invalid
      reject_if (not (is_empty e.rejections)) decision_contract_invalid
      reject_if (elim e.terms [ none ↦ true | some t ↦ false ]) decision_contract_invalid)
    else (do
      reject_if (elim e.terms [ none ↦ false | some t ↦ true ]) decision_contract_invalid
      reject_if (is_empty e.rejections) decision_contract_invalid
      reject_if (any is_blank e.rejections) decision_contract_invalid
      reject_if (any_window (λ (a b : String). at_most b a) e.rejections) decision_contract_invalid)

unfoldable pub validate_each : Bool → List CandidateExplanation → Result RouteError (Unit {0})
unfolding validate_explanation
validate_each require_all_denied [] = ok tt
validate_each require_all_denied (e ∷ es) =
    validate_explanation require_all_denied e >> validate_each require_all_denied es

abbrev pub explanation_id : CandidateExplanation → RouteId
explanation_id e = e.route_id

unfoldable pub validate_explanations :
    List CandidateExplanation → Bool → Result RouteError (Unit {0})
unfolding validate_each
validate_explanations es require_all_denied = do
  reject_if (any_window (λ a b. at_most (explanation_id b) (explanation_id a)) es)
      decision_contract_invalid
  validate_each require_all_denied es

-- The comparison of the first of `ranked` with the plan's score and route
abbrev pub is_first : Option (ℕ × RouteId) → ℕ → RouteId → Bool
is_first none score route = false
is_first (some (s, r)) score route = s == score && r == route

-- The checks of a selected decision before its schema version.
unfoldable pub verify_plan : RoutePlan → Result RouteError (Unit {0})
unfolding rank
verify_plan plan = do
  reject_if (ltb max_action_score plan.action_score) decision_score_out_of_range
  reject_if (plan.selected != plan.explanation.selected) decision_contract_invalid
  reject_if (plan.explanation.tie_breaker != stable_tie_breaker) decision_contract_invalid
  chosen ←
      ok_or (find (λ c. c.route_id == plan.selected) plan.explanation.candidates)
        decision_contract_invalid
  terms ← ok_or chosen.terms decision_contract_invalid
  selected_score ← total terms
  reject_if (not chosen.allowed) decision_contract_invalid
  reject_if (not (is_empty chosen.rejections)) decision_contract_invalid
  reject_if (selected_score != plan.action_score) decision_contract_invalid
  ranked ← rank plan.explanation.candidates
  reject_if (not (is_first (first (sort ranked)) plan.action_score plan.selected))
      decision_contract_invalid

module _ (h : Hashing) where
  -- `RouteDecision::verify_integrity`
  unfoldable pub verify_integrity : RouteDecision → Result RouteError (Unit {0})
  unfolding verify_plan validate_explanations
  verify_integrity (selected schema_version digest plan) = do
    reject_if (digest != selected_digest h schema_version plan) decision_digest_mismatch
    verify_plan plan
    reject_if (schema_version != 1) unsupported_decision_schema
    validate_explanations plan.explanation.candidates false
  verify_integrity (denied schema_version digest denial) = do
    reject_if (digest != denied_digest h schema_version denial) decision_digest_mismatch
    reject_if (schema_version != 1) unsupported_decision_schema
    validate_explanations denial.candidates true
