-- ===== src/Route/Planner/Loops.antt =====
-- The two loops of `decide` in route.rs as relations between their input and output.
use gaugemesh.Base.{
  ℕ, ◌≡◌, true, false, not, ◌||◌, inl, inr, List, [], ◌∷◌, if-cases, or_false, not-true, not-false,
  ok_pair, leb, all, any, is_empty, is_blank, ok, >>=_ok, string_ord, string_eq,
}
use gaugemesh.Route.{RouteWeights, RouteCandidate, CandidateExplanation, RouteMetricSnapshot}
use gaugemesh.Route.Planner.{
  total, metrics_list, validate, normalized, normalize_rejections, score_terms, denied_explanation,
  allowed_explanation, Eligible, explain,
}

-- `normalize_rejections` accepts the candidates `cs` and makes them `ds`.
pub data Normalizes : List RouteCandidate → List RouteCandidate → Type 0 where
  no_more : Normalizes [] []
  kept :
      {c : RouteCandidate} {cs ds : List RouteCandidate}
      → c.hard_constraints.allowed ≡ true
      → Normalizes cs ds
      → Normalizes (c ∷ cs) (c ∷ ds)
  cleaned :
      {c : RouteCandidate} {cs ds : List RouteCandidate}
      → c.hard_constraints.allowed ≡ false
      → is_empty c.hard_constraints.rejections ≡ false
      → any is_blank c.hard_constraints.rejections ≡ false
      → Normalizes cs ds
      → Normalizes (c ∷ cs) (normalized c ∷ ds)

pub Normalizes-normalize_rejections :
    (cs ds : List RouteCandidate) → normalize_rejections cs ≡ ok ds → Normalizes cs ds
unfolding normalize_rejections
Normalizes-normalize_rejections [] ds h = let same : ds ≡ [] = cc h in rw same no_more
Normalizes-normalize_rejections (c ∷ cs) ds h = elim (if-cases c.hard_constraints.allowed _ _ h) [
  | inl (yes_allowed, h1) ↦
      let (rest, r, k) = >>=_ok (normalize_rejections cs) (λ cs'. ok (c ∷ cs')) h1 in
      let same : ds ≡ c ∷ rest = cc k in
      rw same (kept yes_allowed (Normalizes-normalize_rejections cs rest r))
  | inr (not_allowed, h1) ↦
      elim (if-cases
        (is_empty c.hard_constraints.rejections || any is_blank c.hard_constraints.rejections) _ _
        h1) [
          | inl (bad, k) ↦ cc
          | inr (good, h2) ↦
              let (rest, r, k) =
                >>=_ok (normalize_rejections cs) (λ cs'. ok (normalized c ∷ cs')) h2 in
              let same : ds ≡ normalized c ∷ rest = cc k in
              let (full, clean) = or_false _ _ good in
              rw same (cleaned not_allowed full clean (Normalizes-normalize_rejections cs rest r))
        ]
]

-- `explain` accepts the candidates `cs` and gives the explanations `es` and the scores `rs`.
pub data Explains (weights : RouteWeights)
    : List RouteCandidate → List CandidateExplanation → Eligible → Type 0 where
  explained : Explains weights [] [] []
  refused :
      {c : RouteCandidate} {cs : List RouteCandidate} {es : List CandidateExplanation}
      {rs : Eligible}
      → c.hard_constraints.allowed ≡ false
      → Explains weights cs es rs
      → Explains weights (c ∷ cs) (denied_explanation c ∷ es) rs
  scored :
      {c : RouteCandidate} {cs : List RouteCandidate} {es : List CandidateExplanation}
      {rs : Eligible} (s : ℕ)
      → c.hard_constraints.allowed ≡ true
      → total (score_terms weights c.metrics c.semantic_loss) ≡ ok s
      → Explains weights cs es rs
      → Explains weights
          (c ∷ cs)
          (allowed_explanation c (score_terms weights c.metrics c.semantic_loss) ∷ es)
          ((s, c.route_id) ∷ rs)

validate_ok : (m n : RouteMetricSnapshot) → validate m ≡ ok n → m ≡ n
unfolding validate
validate_ok m n h = elim (if-cases (all (λ metric. leb metric 10000) (metrics_list m)) _ _ h) [
  | inl (_, k) ↦ cc k
  | inr (_, k) ↦ cc k
]

scored_entry :
    {weights : RouteWeights} (c : RouteCandidate) (m : RouteMetricSnapshot) (s : ℕ)
    {cs : List RouteCandidate} {es es' : List CandidateExplanation} {rs rs' : Eligible}
    → c.metrics ≡ m
    → c.hard_constraints.allowed ≡ true
    → total (score_terms weights m c.semantic_loss) ≡ ok s
    → es ≡ allowed_explanation c (score_terms weights m c.semantic_loss) ∷ es'
    → rs ≡ (s, c.route_id) ∷ rs'
    → Explains weights cs es' rs'
    → Explains weights (c ∷ cs) es rs
scored_entry {weights} c m s same entry scores e r rest =
    rw (e, r, ← same) (scored s entry (rw (← same) at scores) rest)

pub Explains-explain :
    (weights : RouteWeights) (cs : List RouteCandidate) (es : List CandidateExplanation)
    (rs : Eligible)
    → explain weights cs ≡ ok (es, rs)
    → Explains weights cs es rs
unfolding explain
Explains-explain weights [] es rs h = let (e, r) = ok_pair [] es [] rs h in rw (e, r) explained
Explains-explain weights (c ∷ cs) es rs h = elim (if-cases (not c.hard_constraints.allowed) _ _ h) [
  | inl (no_entry, h1) ↦
      let ((es', rs'), rest, k) = >>=_ok (explain weights cs) _ h1 in
      let (e, r) = ok_pair _ es _ rs k in
      rw (e, r) (refused (not-true _ no_entry) (Explains-explain weights cs es' rs' rest))
  | inr (entry, h1) ↦
      let (m, valid, h2) = >>=_ok (validate c.metrics) _ h1 in
      let (s, scores, h3) = >>=_ok (total (score_terms weights m c.semantic_loss)) _ h2 in
      let ((es', rs'), rest, k) = >>=_ok (explain weights cs) _ h3 in
      let (e, r) = ok_pair _ es _ rs k in
      scored_entry c m s (validate_ok c.metrics m valid) (not-false _ entry) scores e r
        (Explains-explain weights cs es' rs' rest)
]
