-- ===== src/Route/Json.antt =====
-- The JSON that route.rs hashes: the derived `Serialize` of its types, and the digests of a
-- decision.
use gaugemesh.Base.{ℕ, String, Option, none, some, List, [], ◌∷◌, map}
use gaugemesh.Digest.{
  Json, null, boolean, number, string, array, Hashing, of_json, json, items, Sha256Digest,
}
use gaugemesh.Route.{
  ConstraintResult, RouteMetricSnapshot, RouteWeights, RouteCandidate, ScoreTerms,
  CandidateExplanation, RouteExplanation, RoutePlan, RouteDenial,
}

abbrev pub texts_json : List String → Json
texts_json ss = array (items (map string ss))

abbrev pub constraint_json : ConstraintResult → Json
constraint_json c =
    json (("allowed", boolean c.allowed) ∷ ("rejections", texts_json c.rejections) ∷ [])

abbrev pub metrics_json : RouteMetricSnapshot → Json
metrics_json m = json (
    ("latency", number m.latency)
    ∷ ("cost", number m.cost)
    ∷ ("failure", number m.failure)
    ∷ ("pressure", number m.pressure)
    ∷ ("exposure", number m.exposure)
    ∷ ("switching", number m.switching)
    ∷ [])

abbrev pub weights_json : RouteWeights → Json
weights_json w = json (
    ("latency", number w.latency)
    ∷ ("cost", number w.cost)
    ∷ ("failure", number w.failure)
    ∷ ("semantic_loss", number w.semantic_loss)
    ∷ ("pressure", number w.pressure)
    ∷ ("exposure", number w.exposure)
    ∷ ("switching", number w.switching)
    ∷ [])

abbrev pub candidate_json : RouteCandidate → Json
candidate_json c = json (
    ("route_id", string c.route_id)
    ∷ ("endpoint_id", string c.endpoint_id)
    ∷ ("hard_constraints", constraint_json c.hard_constraints)
    ∷ ("metrics", metrics_json c.metrics)
    ∷ ("semantic_loss", number c.semantic_loss)
    ∷ [])

abbrev pub terms_json : Option ScoreTerms → Json
terms_json none = null
terms_json (some t) = json (
    ("latency", number t.latency)
    ∷ ("cost", number t.cost)
    ∷ ("failure", number t.failure)
    ∷ ("semantic_loss", number t.semantic_loss)
    ∷ ("pressure", number t.pressure)
    ∷ ("exposure", number t.exposure)
    ∷ ("switching", number t.switching)
    ∷ [])

abbrev pub candidate_explanation_json : CandidateExplanation → Json
candidate_explanation_json e = json (
    ("route_id", string e.route_id)
    ∷ ("allowed", boolean e.allowed)
    ∷ ("rejections", texts_json e.rejections)
    ∷ ("terms", terms_json e.terms)
    ∷ [])

abbrev pub explanation_json : RouteExplanation → Json
explanation_json e = json (
    ("candidates", array (items (map candidate_explanation_json e.candidates)))
    ∷ ("selected", string e.selected)
    ∷ ("tie_breaker", string e.tie_breaker)
    ∷ [])

module _ (h : Hashing) where
  abbrev pub plan_json : RoutePlan → Json
  plan_json p = json (
      ("selected", string p.selected)
      ∷ ("action_score", number p.action_score)
      ∷ ("explanation", explanation_json p.explanation)
      ∷ ("snapshot_digest", string (h.display p.snapshot_digest))
      ∷ ("route_policy_digest", string (h.display p.route_policy_digest))
      ∷ ("metric_snapshot_digest", string (h.display p.metric_snapshot_digest))
      ∷ [])

  abbrev pub denial_json : RouteDenial → Json
  denial_json d = json (
      ("code", string "GM_ROUTE_NO_ELIGIBLE_CANDIDATE")
      ∷ ("candidates", array (items (map candidate_explanation_json d.candidates)))
      ∷ ("snapshot_digest", string (h.display d.snapshot_digest))
      ∷ ("route_policy_digest", string (h.display d.route_policy_digest))
      ∷ ("metric_snapshot_digest", string (h.display d.metric_snapshot_digest))
      ∷ [])

  unfoldable pub selected_digest : ℕ → RoutePlan → Sha256Digest
  selected_digest schema_version plan = of_json h (
      json (
        ("status", string "selected")
        ∷ ("schema_version", number schema_version)
        ∷ ("plan", plan_json plan)
        ∷ []))

  unfoldable pub denied_digest : ℕ → RouteDenial → Sha256Digest
  denied_digest schema_version denial = of_json h (
      json (
        ("status", string "denied")
        ∷ ("schema_version", number schema_version)
        ∷ ("denial", denial_json denial)
        ∷ []))

  -- The digests of the candidates with the weights, and of the metrics alone.
  unfoldable pub snapshot_digest : List RouteCandidate → RouteWeights → Sha256Digest
  snapshot_digest candidates weights =
      of_json h
        (array (items (array (items (map candidate_json candidates)) ∷ weights_json weights ∷ [])))

  abbrev metric_row : RouteCandidate → Json
  metric_row c = array (
      items (
        string c.route_id
        ∷ string c.endpoint_id
        ∷ metrics_json c.metrics
        ∷ number c.semantic_loss
        ∷ []))

  unfoldable pub metric_snapshot_digest : List RouteCandidate → Sha256Digest
  metric_snapshot_digest candidates = of_json h (array (items (map metric_row candidates)))

  unfoldable pub route_policy_digest : RouteWeights → Sha256Digest
  route_policy_digest weights = of_json h (weights_json weights)
