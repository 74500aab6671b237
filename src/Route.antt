-- ===== src/Route.antt =====
-- crates/gaugemesh-core/src/route.rs: candidates, scores and the decision that is reported.
pub mod Json
pub mod Planner
pub mod Verifier
use gaugemesh.Base.{ℕ, ◌*◌, String, Bool, Option, List, [], ◌∷◌}
use gaugemesh.Digest.{Sha256Digest}

-- Normalized weight 10_000 times normalized metric 10_000.
abbrev pub max_score_term : ℕ
max_score_term = 100000000

abbrev pub max_action_score : ℕ
max_action_score = 7 * max_score_term

abbrev pub RouteId : Type 0
RouteId = String

pub record ConstraintResult : Type 0 where
  pub allowed : Bool
  pub rejections : List String

pub record RouteMetricSnapshot : Type 0 where
  pub latency : ℕ
  pub cost : ℕ
  pub failure : ℕ
  pub pressure : ℕ
  pub exposure : ℕ
  pub switching : ℕ

pub record RouteWeights : Type 0 where
  pub latency : ℕ
  pub cost : ℕ
  pub failure : ℕ
  pub semantic_loss : ℕ
  pub pressure : ℕ
  pub exposure : ℕ
  pub switching : ℕ

pub record RouteCandidate : Type 0 where
  pub route_id : RouteId
  pub endpoint_id : String
  pub hard_constraints : ConstraintResult
  pub metrics : RouteMetricSnapshot
  pub semantic_loss : ℕ

pub record ScoreTerms : Type 0 where
  pub latency : ℕ
  pub cost : ℕ
  pub failure : ℕ
  pub semantic_loss : ℕ
  pub pressure : ℕ
  pub exposure : ℕ
  pub switching : ℕ

pub record CandidateExplanation : Type 0 where
  pub route_id : RouteId
  pub allowed : Bool
  pub rejections : List String
  pub terms : Option ScoreTerms

pub record RouteExplanation : Type 0 where
  pub candidates : List CandidateExplanation
  pub selected : RouteId
  pub tie_breaker : String

pub record RoutePlan : Type 0 where
  pub selected : RouteId
  pub action_score : ℕ
  pub explanation : RouteExplanation
  pub snapshot_digest : Sha256Digest
  pub route_policy_digest : Sha256Digest
  pub metric_snapshot_digest : Sha256Digest

pub data RouteDenialCode : Type 0 where
  no_eligible_candidate : RouteDenialCode

pub record RouteDenial : Type 0 where
  pub code : RouteDenialCode
  pub candidates : List CandidateExplanation
  pub snapshot_digest : Sha256Digest
  pub route_policy_digest : Sha256Digest
  pub metric_snapshot_digest : Sha256Digest

-- The schema version, the decision's digest, and its plan or its denial.
pub data RouteDecision : Type 0 where
  selected : ℕ → Sha256Digest → RoutePlan → RouteDecision
  denied : ℕ → Sha256Digest → RouteDenial → RouteDecision

pub data RouteError : Type 0 where
  no_candidate : RouteError
  metric_out_of_range : RouteError
  duplicate_route_id : RouteError
  invalid_route_id : RouteError
  rejection_required : RouteError
  decision_digest_mismatch : RouteError
  decision_contract_invalid : RouteError
  decision_score_out_of_range : RouteError
  unsupported_decision_schema : RouteError

abbrev pub stable_tie_breaker : String
stable_tie_breaker = "lexicographically smallest stable route_id"
