-- ===== src/Route/Verifier/Soundness.antt =====
-- What a decision that passes `verify_integrity` of route.rs says.
use gaugemesh.Base.{
  ℕ, ◌≤◌, ◌≡◌, refl, ap, String, true, false, Option, none, some, List, [], ◌∷◌, arith, ltb, inl,
  inr, ◌==◌, ◌!=◌, not, find, first, Elem, All, ok, sort, first-sort_le, Bool-cases, Option-cases,
  string_eq, nat_eq, string_ord, nat_ord, pair_ord, is_empty, ok_or, ◌>>=◌, ◌∙◌, last_reject_if_ok,
  >>_ok, >>=_ok, reject_if_ok, ok_or_ok,
}
use text.Mathlib.TextEquality.{eq_iff}
use gaugemesh.Digest.{Hashing, Sha256Digest}
use gaugemesh.Route.{
  RouteId, ScoreTerms, CandidateExplanation, RoutePlan, selected, max_action_score,
  stable_tie_breaker, decision_contract_invalid,
}
use gaugemesh.Route.Json.{selected_digest}
use gaugemesh.Route.Planner.{total, Eligible, scored_le}
use gaugemesh.Route.Verifier.{rank, verify_plan, verify_integrity, is_first}

-- No candidate that was scored has a smaller score, or the same score and a smaller route.
abbrev pub NotBetter : ℕ → RouteId → CandidateExplanation → Type 0
NotBetter score route e =
    (t : ScoreTerms) (s : ℕ)
    → e.terms ≡ some t
    → total t ≡ ok s
    → scored_le (score, route) (s, e.route_id) ≡ true

-- The plan's route is an explained candidate, allowed, with no rejection, whose terms add up to
-- the plan's score; the score is in range and no scored candidate is better.
pub record IsJustified (plan : RoutePlan) : Type 0 where
  pub chosen : CandidateExplanation
  pub terms : ScoreTerms
  pub listed : Elem chosen plan.explanation.candidates
  pub same_route : chosen.route_id ≡ plan.selected
  pub allowed : chosen.allowed ≡ true
  pub no_rejection : chosen.rejections ≡ []
  pub has_terms : chosen.terms ≡ some terms
  pub same_score : total terms ≡ ok plan.action_score
  pub in_range : plan.action_score ≤ max_action_score
  pub least : All (NotBetter plan.action_score plan.selected) plan.explanation.candidates

find-some :
    (route : RouteId) (es : List CandidateExplanation) (e : CandidateExplanation)
    → find (λ c. c.route_id == route) es ≡ some e
    → Elem e es × (e.route_id ≡ route)
find-some route [] e h = cc
find-some route (x ∷ xs) e h = elim (Bool-cases (x.route_id == route)) [
  | inl same ↦
      let found : some x ≡ some e = rw same at h in
      let here : e ≡ x = cc in (inl here, rw here ((eq_iff x.route_id route).0 same))
  | inr other ↦
      let (there, at_route) = find-some route xs e (rw other at h) in (inr there, at_route)
]

-- What holds of the ranked entries holds of the candidates that were ranked.
rank-All :
    (score : ℕ) (route : RouteId) (es : List CandidateExplanation) (ranked : Eligible)
    → rank es ≡ ok ranked
    → All (λ r. scored_le (score, route) r ≡ true) ranked
    → All (NotBetter score route) es
unfolding rank
rank-All score route [] ranked r h = tt
rank-All score route (e ∷ es) ranked r h = elim (Option-cases e.terms) [
  | inl absent ↦ ((λ t s k _. cc), rank-All score route es ranked (ground arith) h)
  | inr (t, k) ↦
      let (s, scored, r') =
        >>=_ok (total t) (λ s. rank es >>= λ rs. ok ((s, e.route_id) ∷ rs)) (rw k at r) in
      let (rs, rest, r'') = >>=_ok (rank es) (λ rs. ok ((s, e.route_id) ∷ rs)) r' in
      let same : ranked ≡ (s, e.route_id) ∷ rs = cc r'' in
      let each : (scored_le (score, route) (s, e.route_id) ≡ true)
          × All (λ q. scored_le (score, route) q ≡ true) rs =
        rw same at h in
      (at_terms t s k scored each.0, rank-All score route es rs rest each.1)
]
  where
    at_terms :
        (t : ScoreTerms) (s : ℕ)
        → e.terms ≡ some t
        → total t ≡ ok s
        → scored_le (score, route) (s, e.route_id) ≡ true
        → NotBetter score route e
    at_terms t s k scored le u v p q =
        let tu : t ≡ u = cc in let vs : s ≡ v = cc (ap total tu) in rw (← vs) le

is_first-some :
    (o : Option (ℕ × RouteId)) (score : ℕ) (route : RouteId)
    → is_first o score route ≡ true
    → o ≡ some (score, route)
is_first-some none score route h = cc
is_first-some (some (s, r)) score route h = ground (arith, eq_iff r route)

IsJustified-verify_plan : (plan : RoutePlan) → verify_plan plan ≡ ok tt → IsJustified plan
unfolding verify_plan
IsJustified-verify_plan plan h =
    let (range, h1) = reject_if_ok (ltb max_action_score plan.action_score) _ _ h in
    let (same, h2) = reject_if_ok (plan.selected != plan.explanation.selected) _ _ h1 in
    let (tie, h3) = reject_if_ok (plan.explanation.tie_breaker != stable_tie_breaker) _ _ h2 in
    let (chosen, found, h4) =
      >>=_ok
        (ok_or (find (λ c. c.route_id == plan.selected) plan.explanation.candidates)
          decision_contract_invalid)
        _ h3 in
    let (terms, has, h5) = >>=_ok (ok_or chosen.terms decision_contract_invalid) _ h4 in
    let (score, scored, h6) = >>=_ok (total terms) _ h5 in
    let (allowed, h7) = reject_if_ok (not chosen.allowed) _ _ h6 in
    let (clean, h8) = reject_if_ok (not (is_empty chosen.rejections)) _ _ h7 in
    let (equal, h9) = reject_if_ok (score != plan.action_score) _ _ h8 in
    let (ranked, ranks, h10) = >>=_ok (rank plan.explanation.candidates) _ h9 in
    let top : is_first (first (sort ranked)) plan.action_score plan.selected ≡ true =
      ground (arith, last_reject_if_ok _ _ h10) in
    let (listed, at_route) = find-some plan.selected _ chosen (ok_or_ok _ _ found) in
    record {
      chosen = chosen;
      terms = terms;
      listed = listed;
      same_route = at_route;
      allowed = ground arith;
      no_rejection = none_of chosen.rejections clean;
      has_terms = ok_or_ok _ _ has;
      same_score = scored ∙ ap ok (score_eq score equal);
      in_range = ground (arith, range);
      least =
          rank-All plan.action_score plan.selected plan.explanation.candidates ranked ranks
            (first-sort_le ranked (plan.action_score, plan.selected) (is_first-some _ _ _ top));
    }
  where
    none_of : (l : List String) → not (is_empty l) ≡ false → l ≡ []
    none_of [] k = refl
    none_of (x ∷ xs) k = cc

    score_eq : (score : ℕ) → (score != plan.action_score) ≡ false → score ≡ plan.action_score
    score_eq score k = ground arith

-- A selected decision that passes `verify_integrity` has schema version 1, carries the digest of
-- its plan, and its plan is justified by its own explanation: the route is listed, allowed, without
-- rejections, has the score that is claimed, in range, and no scored candidate has a smaller pair
-- of score and route.
pub verify_integrity_sound :
    (h : Hashing) (version : ℕ) (digest : Sha256Digest) (plan : RoutePlan)
    → verify_integrity h (selected version digest plan) ≡ ok tt
    → (version ≡ 1) × (digest ≡ selected_digest h version plan) × IsJustified plan
unfolding verify_integrity
verify_integrity_sound h version digest plan v =
    let (sealed, h1) = reject_if_ok (digest != selected_digest h version plan) _ _ v in
    let (planned, h2) = >>_ok (verify_plan plan) _ h1 in
    let (schema, _) = reject_if_ok (version != 1) _ _ h2 in
    (ground (arith, schema), ground (arith, sealed), IsJustified-verify_plan plan planned)
