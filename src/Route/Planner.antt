-- ===== src/Route/Planner.antt =====
-- The functions of crates/gaugemesh-core/src/route.rs that plan: `decide` and `plan`.
pub mod Loops
pub mod Entries
pub mod InputOrder
use gaugemesh.Base.{
  ℕ, ◌+◌, ◌*◌, ◌≡◌, refl, String, Bool, true, false, not, ◌&&◌, ◌||◌, Option, none, some, List, [],
  ◌∷◌, arith, ltb, leb, if◌then◌else◌, any, all, first, is_empty, is_blank, is_empty_text, Result,
  ok, err, ◌>>=◌, ◌>>◌, reject_if, ok_or, checked_add, sort_by_key, sort, dedup, any_window,
  at_most, ◌==◌, string_eq, string_ord, nat_ord, pair_ord,
}
use gaugemesh.Digest.{Hashing}
use gaugemesh.Route.{
  ConstraintResult, RouteId, RouteMetricSnapshot, RouteWeights, RouteCandidate, ScoreTerms,
  CandidateExplanation, RouteExplanation, RoutePlan, RouteDenial, RouteDecision, RouteError,
  no_eligible_candidate, selected, denied, no_candidate, metric_out_of_range, duplicate_route_id,
  invalid_route_id, rejection_required, decision_score_out_of_range, max_score_term,
  stable_tie_breaker,
}
use gaugemesh.Route.Json.{
  selected_digest, denied_digest, snapshot_digest, metric_snapshot_digest, route_policy_digest,
}

-- `try_fold(sum, u64::checked_add)`
unfoldable pub checked_sum : ℕ → List ℕ → Option ℕ
checked_sum sum [] = some sum
checked_sum sum (t ∷ ts) = elim (checked_add sum t) [ none ↦ none | some s ↦ checked_sum s ts ]

abbrev pub terms_list : ScoreTerms → List ℕ
terms_list t =
    t.latency ∷ t.cost ∷ t.failure ∷ t.semantic_loss ∷ t.pressure ∷ t.exposure ∷ t.switching ∷ []

-- `ScoreTerms::total`
unfoldable pub total : ScoreTerms → Result RouteError ℕ
unfolding checked_sum
total t =
    if any (λ term. ltb max_score_term term) (terms_list t)
    then err decision_score_out_of_range
    else ok_or (checked_sum 0 (terms_list t)) decision_score_out_of_range

abbrev pub metrics_list : RouteMetricSnapshot → List ℕ
metrics_list m = m.latency ∷ m.cost ∷ m.failure ∷ m.pressure ∷ m.exposure ∷ m.switching ∷ []

-- `RouteMetricSnapshot::validate`
unfoldable pub validate : RouteMetricSnapshot → Result RouteError RouteMetricSnapshot
validate m =
    if all (λ metric. leb metric 10000) (metrics_list m) then ok m else err metric_out_of_range

abbrev pub weights_list : RouteWeights → List ℕ
weights_list w =
    w.latency ∷ w.cost ∷ w.failure ∷ w.semantic_loss ∷ w.pressure ∷ w.exposure ∷ w.switching ∷ []

abbrev pub out_of_range : List RouteCandidate → RouteWeights → Bool
out_of_range candidates weights =
    any (λ weight. ltb 10000 weight) (weights_list weights)
    || any (λ c. ltb 10000 c.semantic_loss) candidates

-- The loop that checks and normalizes the rejections of the candidates that are not allowed.
abbrev pub normalized : RouteCandidate → RouteCandidate
normalized c = record c {
  hard_constraints = record c.hard_constraints {
    rejections = dedup (sort c.hard_constraints.rejections);
  };
}

unfoldable pub normalize_rejections : List RouteCandidate → Result RouteError (List RouteCandidate)
normalize_rejections [] = ok []
normalize_rejections (c ∷ cs) =
    let rest = normalize_rejections cs in
    if c.hard_constraints.allowed
    then (do cs' ← rest; ok (c ∷ cs'))
    else if is_empty c.hard_constraints.rejections || any is_blank c.hard_constraints.rejections
    then err rejection_required
    else (do cs' ← rest; ok (normalized c ∷ cs'))

-- A product of two `u32` fits `u64`.
abbrev pub score_terms : RouteWeights → RouteMetricSnapshot → ℕ → ScoreTerms
score_terms weights metric semantic_loss = record {
  latency = weights.latency * metric.latency;
  cost = weights.cost * metric.cost;
  failure = weights.failure * metric.failure;
  semantic_loss = weights.semantic_loss * semantic_loss;
  pressure = weights.pressure * metric.pressure;
  exposure = weights.exposure * metric.exposure;
  switching = weights.switching * metric.switching;
}

-- A score with its route; the derived order compares the score first.
abbrev pub Scored : Type 0
Scored = ℕ × RouteId

abbrev pub scored_le : Scored → Scored → Bool
scored_le = at_most

abbrev pub Eligible : Type 0
Eligible = List Scored

abbrev pub denied_explanation : RouteCandidate → CandidateExplanation
denied_explanation c = record {
  route_id = c.route_id;
  allowed = false;
  rejections = c.hard_constraints.rejections;
  terms = none;
}

abbrev pub allowed_explanation : RouteCandidate → ScoreTerms → CandidateExplanation
allowed_explanation c terms = record {
  route_id = c.route_id;
  allowed = true;
  rejections = [];
  terms = some terms;
}

-- The loop that explains and scores the candidates.
unfoldable pub explain :
    RouteWeights → List RouteCandidate → Result RouteError (List CandidateExplanation × Eligible)
explain weights [] = ok ([], [])
explain weights (c ∷ cs) =
    let rest = explain weights cs in
    if not c.hard_constraints.allowed
    then (do (explanations, eligible) ← rest; ok (denied_explanation c ∷ explanations, eligible))
    else (do
      metric ← validate c.metrics
      let terms = score_terms weights metric c.semantic_loss
      score ← total terms
      (explanations, eligible) ← rest
      ok (allowed_explanation c terms ∷ explanations, (score, c.route_id) ∷ eligible))

abbrev pub same_id : RouteCandidate → RouteCandidate → Bool
same_id a b = a.route_id == b.route_id

module _ (h : Hashing) where
  abbrev pub denial_of :
      List RouteCandidate → RouteWeights → List CandidateExplanation → RouteDenial
  denial_of candidates weights explanation = record {
    code = no_eligible_candidate;
    candidates = explanation;
    snapshot_digest = snapshot_digest h candidates weights;
    route_policy_digest = route_policy_digest h weights;
    metric_snapshot_digest = metric_snapshot_digest h candidates;
  }

  abbrev pub plan_of :
      List RouteCandidate → RouteWeights → List CandidateExplanation → ℕ → RouteId → RoutePlan
  plan_of candidates weights explanation action_score route = record {
    selected = route;
    action_score = action_score;
    explanation = record {
      candidates = explanation;
      selected = route;
      tie_breaker = stable_tie_breaker;
    };
    snapshot_digest = snapshot_digest h candidates weights;
    route_policy_digest = route_policy_digest h weights;
    metric_snapshot_digest = metric_snapshot_digest h candidates;
  }

  -- `eligible.sort(); eligible.first()`, and the decision that this makes
  unfoldable pub choose :
      List RouteCandidate → RouteWeights → List CandidateExplanation → Eligible → RouteDecision
  choose candidates weights explanation eligible = elim (first (sort eligible)) [
    | none ↦
        let denial = denial_of candidates weights explanation in
        denied 1 (denied_digest h 1 denial) denial
    | some (action_score, route) ↦
        let plan = plan_of candidates weights explanation action_score route in
        selected 1 (selected_digest h 1 plan) plan
  ]

  unfoldable pub decide : List RouteCandidate → RouteWeights → Result RouteError RouteDecision
  unfolding choose
  decide candidates weights = do
    reject_if (out_of_range candidates weights) metric_out_of_range
    reject_if (any (λ c. is_empty_text c.route_id) candidates) invalid_route_id
    let ordered = sort_by_key (λ (c : RouteCandidate). c.route_id) candidates
    reject_if (any_window same_id ordered) duplicate_route_id
    checked ← normalize_rejections ordered
    (explanation, eligible) ← explain weights checked
    ok (choose checked weights explanation eligible)

  unfoldable pub plan : List RouteCandidate → RouteWeights → Result RouteError RoutePlan
  plan candidates weights = do
    decision ← decide candidates weights
    elim decision [ selected v d p ↦ ok p | denied v d n ↦ err no_candidate ]
