-- ===== src/Route/Verifier/Agreement.antt =====
-- Every decision that `decide` of route.rs makes passes `verify_integrity`.
use gaugemesh.Base.{
  ℕ, ◌+◌, ◌*◌, ◌≤◌, ◌≡◌, refl, Bool, true, false, inl, inr, none, some, List, [], ◌∷◌, arith, All,
  Elem, any, any-false, is_empty_text, ok, sort, any_window, at_most, first, if-cases, ok_or_ok,
  Option-cases, ltb, length, eq_self, ascending_windows, IsAscending, IsAscending-of_sorted,
  sort-All, sort-IsSorted, sort_by_key, first-sort_all, first-sort-none, string_ord, string_eq,
  nat_eq, nat_ord, pair_ord, >>=_ok, reject_if_ok,
}
use gaugemesh.Digest.{Hashing}
use gaugemesh.Route.{
  RouteId, RouteWeights, RouteCandidate, ScoreTerms, CandidateExplanation, RoutePlan, RouteDecision,
  selected, denied, max_score_term, max_action_score, stable_tie_breaker,
}
use gaugemesh.Route.Json.{selected_digest, denied_digest}
use gaugemesh.Route.Planner.{
  total, Eligible, Scored, checked_sum, terms_list, explain, normalize_rejections, out_of_range,
  same_id, choose, decide, plan_of, denial_of,
}
use gaugemesh.Route.Planner.Loops.{
  Normalizes-normalize_rejections, Explains, explained, refused, scored, Explains-explain,
}
use gaugemesh.Route.Planner.Entries.{
  candidate_id, IsClean, IsReady, IsFound, Normalizes-IsReady, Normalizes-IsAscending,
  Explains-IsAscending, Explains-IsFound, explained_id,
}
use gaugemesh.Route.Verifier.{rank, validate_each, verify_plan, verify_integrity, is_first}

module _ {weights : RouteWeights} where
  -- The verifier's ranking is the planner's.
  rank-Explains :
      {cs : List RouteCandidate} {es : List CandidateExplanation} {rs : Eligible}
      → Explains weights cs es rs
      → rank es ≡ ok rs
  unfolding rank
  rank-Explains explained = refl
  rank-Explains (refused d x) = rank-Explains x
  rank-Explains (scored s a t x) = rw (t, rank-Explains x)

  -- Each explanation is valid; where none must be allowed, no candidate was scored.
  validate_each-Explains :
      (all_denied : Bool) {cs : List RouteCandidate} {es : List CandidateExplanation}
      {rs : Eligible}
      → Explains weights cs es rs
      → All IsReady cs
      → (all_denied ≡ true → rs ≡ [])
      → validate_each all_denied es ≡ ok tt
  unfolding validate_each
  validate_each-Explains b explained h k = refl
  validate_each-Explains b (refused {c = c} d x) h k =
      let clean : IsClean c.hard_constraints.rejections = h.0.reasons d in
      rw (h.0.named, clean.some_reason, clean.no_blank, clean.ascending)
        (validate_each-Explains b x h.1 k)
  validate_each-Explains true (scored s a t x) h k = cc (k refl)
  validate_each-Explains false (scored s a t x) h k =
      rw h.0.named (validate_each-Explains false x h.1 (λ e. cc))

-- A total is at most seven maximal terms.
checked_sum_le :
    (acc : ℕ) (ts : List ℕ) (s : ℕ)
    → All (λ t. ltb max_score_term t ≡ false) ts
    → checked_sum acc ts ≡ some s
    → s ≤ acc + length ts * max_score_term
unfolding checked_sum
checked_sum_le acc [] s h e = ground arith
checked_sum_le acc (t ∷ ts) s h e = ground (arith, h.0, checked_sum_le (acc + t) ts s h.1)

total_le : (t : ScoreTerms) (s : ℕ) → total t ≡ ok s → s ≤ max_action_score
unfolding total
total_le t s h = elim (if-cases (any (λ term. ltb max_score_term term) (terms_list t)) _ _ h) [
  | inl (_, k) ↦ cc
  | inr (small, k) ↦ omega (
    arith,
    checked_sum_le 0 (terms_list t) s (any-false (ltb max_score_term) (terms_list t) small)
        (ok_or_ok (checked_sum 0 (terms_list t)) _ k),
  )
]

-- The verifier's checks of a plan for a scored route that comes first.
verify_plan-IsFound :
    (p : RoutePlan) (rs : Eligible)
    → p.explanation.selected ≡ p.selected
    → p.explanation.tie_breaker ≡ stable_tie_breaker
    → IsFound p.explanation.candidates p.action_score p.selected
    → rank p.explanation.candidates ≡ ok rs
    → first (sort rs) ≡ some (p.action_score, p.selected)
    → verify_plan p ≡ ok tt
unfolding verify_plan
verify_plan-IsFound p rs same tie f ranked top =
    let range : ltb max_action_score p.action_score ≡ false =
      ground (arith, total_le f.terms p.action_score f.adds_up) in
    let at_top : is_first (first (sort rs)) p.action_score p.selected ≡ true =
      rw top (simp (eq_self p.action_score, eq_self p.selected)) in
    simp (
      range,
      same,
      tie,
      eq_self p.selected,
      f.found,
      f.has_terms,
      f.adds_up,
      f.allowed,
      f.clean,
      eq_self p.action_score,
      ranked,
      at_top,
    )

self-All {ℓ} : (P : Scored → Type ℓ) (rs : Eligible) → ((r : Scored) → Elem r rs → P r) → All P rs
self-All P [] f = tt
self-All P (r ∷ rs) f = (f r (inl refl), self-All P rs (λ q m. f q (inr m)))

module _ (h : Hashing) where
  choose-none :
      (cs : List RouteCandidate) (weights : RouteWeights) (es : List CandidateExplanation)
      (rs : Eligible)
      → first (sort rs) ≡ none
      → choose h cs weights es rs
        ≡ denied 1 (denied_digest h 1 (denial_of h cs weights es)) (denial_of h cs weights es)
  unfolding choose
  choose-none cs weights es rs e = rw (e, choose)

  choose-some :
      (cs : List RouteCandidate) (weights : RouteWeights) (es : List CandidateExplanation)
      (rs : Eligible) (s : ℕ) (q : RouteId)
      → first (sort rs) ≡ some (s, q)
      → choose h cs weights es rs
        ≡ selected 1
            (selected_digest h 1 (plan_of h cs weights es s q))
            (plan_of h cs weights es s q)
  unfolding choose
  choose-some cs weights es rs s q e = rw (e, choose)

  -- The choice among the scored candidates passes the verifier.
  choose_verified :
      (weights : RouteWeights) (cs : List RouteCandidate) (es : List CandidateExplanation)
      (rs : Eligible)
      → Explains weights cs es rs
      → All IsReady cs
      → IsAscending candidate_id cs
      → verify_integrity h (choose h cs weights es rs) ≡ ok tt
  unfolding verify_integrity
  choose_verified weights cs es rs x ready order = elim (Option-cases (first (sort rs))) [
    | inl nothing ↦ rw (choose-none cs weights es rs nothing) (
        simp (
          eq_self (denied_digest h 1 (denial_of h cs weights es)),
          windows,
          validate_each-Explains true x ready (λ _. first-sort-none rs nothing),
        ))
    | inr ((s, q), top) ↦
        let found : IsFound es s q =
          first-sort_all (λ r. IsFound es r.0 r.1) rs (s, q)
            (self-All _ rs (λ r m. Explains-IsFound r.0 r.1 x order m)) top in
        let planned =
          verify_plan-IsFound (plan_of h cs weights es s q) rs refl refl found (rank-Explains x)
            top in
        rw (choose-some cs weights es rs s q top) (
          simp (
            eq_self (selected_digest h 1 (plan_of h cs weights es s q)),
            planned,
            windows,
            validate_each-Explains false x ready (λ e. cc),
          ))
  ]
    where
      windows : any_window (λ a b. at_most (explained_id b) (explained_id a)) es ≡ false
      windows = ascending_windows explained_id es (Explains-IsAscending x order)

  -- Every decision that the planner makes, a selection or a denial, passes the integrity check of
  -- decisions: its digest, schema version, score, ranking and explanations are as the check wants.
  pub verify_integrity-decide :
      (cs : List RouteCandidate) (weights : RouteWeights) (d : RouteDecision)
      → decide h cs weights ≡ ok d
      → verify_integrity h d ≡ ok tt
  unfolding decide
  verify_integrity-decide cs weights d e =
      let (range, e1) = reject_if_ok (out_of_range cs weights) _ _ e in
      let (named, e2) = reject_if_ok (any (λ c. is_empty_text c.route_id) cs) _ _ e1 in
      let (unique, e3) = reject_if_ok (any_window same_id (sort_by_key candidate_id cs)) _ _ e2 in
      let (ds, normal, e4) = >>=_ok (normalize_rejections (sort_by_key candidate_id cs)) _ e3 in
      let ((es, rs), explains, e5) = >>=_ok (explain weights ds) _ e4 in
      let made : choose h ds weights es rs ≡ d = cc e5 in
      let n = Normalizes-normalize_rejections (sort_by_key candidate_id cs) ds normal in
      let names : All (λ c. is_empty_text c.route_id ≡ false) (sort_by_key candidate_id cs) =
        sort-All candidate_id (λ c. is_empty_text c.route_id ≡ false) cs (any-false _ cs named) in
      rw (← made) (
        choose_verified weights ds es rs (Explains-explain weights ds es rs explains)
          (Normalizes-IsReady n names)
          (Normalizes-IsAscending n (
            IsAscending-of_sorted candidate_id (sort_by_key candidate_id cs)
              (sort-IsSorted candidate_id cs) unique)))
