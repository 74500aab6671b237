-- ===== src/Route/Planner/Entries.antt =====
-- What the loops of `decide` in route.rs keep: the order of the routes, and what makes an
-- explanation valid.
use gaugemesh.Base.{
  ℕ, ◌≡◌, refl, String, true, false, inl, inr, some, List, [], ◌∷◌, All, Elem, any, any-false,
  any-All, is_empty, is_blank, is_empty_text, ok, sort, dedup, dedup-All, dedup-IsAscending,
  dedup-sort_empty, sort-All, sort-IsSorted, any_window, at_most, less, ascending_windows,
  IsAscending, string_ord, string_eq, find, ◌==◌, Bool-cases, less_self, ap, ◌∙◌,
}
use text.Mathlib.TextEquality.{eq_iff}
use gaugemesh.Route.{RouteId, RouteWeights, RouteCandidate, ScoreTerms, CandidateExplanation}
use gaugemesh.Route.Planner.{
  total, Eligible, Scored, denied_explanation, allowed_explanation, score_terms,
}
use gaugemesh.Route.Planner.Loops.{
  Normalizes, no_more, kept, cleaned, Explains, explained, refused, scored,
}

abbrev pub candidate_id : RouteCandidate → RouteId
candidate_id c = c.route_id

abbrev pub explained_id : CandidateExplanation → RouteId
explained_id e = e.route_id

-- Rejections as a verifier wants them: some, none blank, in ascending order.
pub record IsClean (rejections : List String) : Type 0 where
  pub some_reason : is_empty rejections ≡ false
  pub no_blank : any is_blank rejections ≡ false
  pub ascending : any_window (λ (a b : String). at_most b a) rejections ≡ false

-- A candidate that the explaining loop may be given.
pub record IsReady (c : RouteCandidate) : Type 0 where
  pub named : is_empty_text c.route_id ≡ false
  pub reasons : c.hard_constraints.allowed ≡ false → IsClean c.hard_constraints.rejections

cleaned-IsClean :
    (rejections : List String)
    → is_empty rejections ≡ false
    → any is_blank rejections ≡ false
    → IsClean (dedup (sort rejections))
unfolding sort
cleaned-IsClean rejections full clean = record {
  some_reason = rw (dedup-sort_empty rejections) full;
  no_blank = any-All is_blank (dedup (sort rejections)) (
      dedup-All (λ r. is_blank r ≡ false) (sort rejections)
        (sort-All (λ (r : String). r) (λ r. is_blank r ≡ false) rejections
          (any-false is_blank rejections clean)));
  ascending =
      ascending_windows (λ (r : String). r) (dedup (sort rejections))
        (dedup-IsAscending (sort rejections) (sort-IsSorted (λ (r : String). r) rejections));
}

pub Normalizes-IsReady :
    {cs ds : List RouteCandidate}
    → Normalizes cs ds
    → All (λ c. is_empty_text c.route_id ≡ false) cs
    → All IsReady ds
Normalizes-IsReady no_more h = tt
Normalizes-IsReady (kept a n) h =
    (record { named = h.0; reasons = λ d. cc }, Normalizes-IsReady n h.1)
Normalizes-IsReady (cleaned {c = c} d full clean n) h = (
  record { named = h.0; reasons = λ _. cleaned-IsClean c.hard_constraints.rejections full clean },
  Normalizes-IsReady n h.1,
)

Normalizes-below :
    (r : RouteId) {cs ds : List RouteCandidate}
    → Normalizes cs ds
    → All (λ c. less r c.route_id ≡ true) cs
    → All (λ c. less r c.route_id ≡ true) ds
Normalizes-below r no_more h = tt
Normalizes-below r (kept a n) h = (h.0, Normalizes-below r n h.1)
Normalizes-below r (cleaned d full clean n) h = (h.0, Normalizes-below r n h.1)

pub Normalizes-IsAscending :
    {cs ds : List RouteCandidate}
    → Normalizes cs ds
    → IsAscending candidate_id cs
    → IsAscending candidate_id ds
Normalizes-IsAscending no_more h = tt
Normalizes-IsAscending (kept {c = c} a n) h =
    (Normalizes-below c.route_id n h.0, Normalizes-IsAscending n h.1)
Normalizes-IsAscending (cleaned {c = c} d full clean n) h =
    (Normalizes-below c.route_id n h.0, Normalizes-IsAscending n h.1)

-- The explanation that `find` gives for a scored route.
pub record IsFound (es : List CandidateExplanation) (s : ℕ) (q : RouteId) : Type 0 where
  pub entry : CandidateExplanation
  pub terms : ScoreTerms
  pub found : find (λ e. e.route_id == q) es ≡ some entry
  pub has_terms : entry.terms ≡ some terms
  pub adds_up : total terms ≡ ok s
  pub allowed : entry.allowed ≡ true
  pub clean : entry.rejections ≡ []

later-IsFound :
    (x : CandidateExplanation) (es : List CandidateExplanation) (s : ℕ) (q : RouteId)
    → less x.route_id q ≡ true
    → IsFound es s q
    → IsFound (x ∷ es) s q
later-IsFound x es s q below f = elim (Bool-cases (x.route_id == q)) [
  | inl same ↦ impossible ((eq_iff x.route_id q).0 same)
  | inr other ↦ record {
    entry = f.entry;
    terms = f.terms;
    found = rw other f.found;
    has_terms = f.has_terms;
    adds_up = f.adds_up;
    allowed = f.allowed;
    clean = f.clean;
  }
]
  where
    impossible : x.route_id ≡ q → IsFound (x ∷ es) s q
    impossible e = cc (less_self q, ap (λ r. less r q) e)

here-IsFound :
    (x : CandidateExplanation) (es : List CandidateExplanation) (s : ℕ) (q : RouteId)
    (t : ScoreTerms)
    → x.route_id ≡ q
    → x.terms ≡ some t
    → total t ≡ ok s
    → x.allowed ≡ true
    → x.rejections ≡ []
    → IsFound (x ∷ es) s q
here-IsFound x es s q t same has adds yes_allowed clean = record {
  entry = x;
  terms = t;
  found = rw ((eq_iff x.route_id q).1 same);
  has_terms = has;
  adds_up = adds;
  allowed = yes_allowed;
  clean = clean;
}

module _ {weights : RouteWeights} where
  Explains-below :
      (r : RouteId) {cs : List RouteCandidate} {es : List CandidateExplanation} {rs : Eligible}
      → Explains weights cs es rs
      → All (λ c. less r c.route_id ≡ true) cs
      → All (λ e. less r e.route_id ≡ true) es
  Explains-below r explained h = tt
  Explains-below r (refused d x) h = (h.0, Explains-below r x h.1)
  Explains-below r (scored s a t x) h = (h.0, Explains-below r x h.1)

  pub Explains-IsAscending :
      {cs : List RouteCandidate} {es : List CandidateExplanation} {rs : Eligible}
      → Explains weights cs es rs
      → IsAscending candidate_id cs
      → IsAscending explained_id es
  Explains-IsAscending explained h = tt
  Explains-IsAscending (refused {c = c} d x) h =
      (Explains-below c.route_id x h.0, Explains-IsAscending x h.1)
  Explains-IsAscending (scored {c = c} s a t x) h =
      (Explains-below c.route_id x h.0, Explains-IsAscending x h.1)

  below_scored :
      (r q : RouteId) (s : ℕ) {cs : List RouteCandidate} {es : List CandidateExplanation}
      {rs : Eligible}
      → Explains weights cs es rs
      → All (λ c. less r c.route_id ≡ true) cs
      → Elem (s, q) rs
      → less r q ≡ true
  below_scored r q s explained h m = absurd m
  below_scored r q s (refused d x) h m = below_scored r q s x h.1 m
  below_scored r q s (scored {c = c} s' a t x) h (inl e) =
      let same : q ≡ c.route_id = cc in rw same h.0
  below_scored r q s (scored s' a t x) h (inr m) = below_scored r q s x h.1 m

  pub Explains-IsFound :
      (s : ℕ) (q : RouteId) {cs : List RouteCandidate} {es : List CandidateExplanation}
      {rs : Eligible}
      → Explains weights cs es rs
      → IsAscending candidate_id cs
      → Elem (s, q) rs
      → IsFound es s q
  Explains-IsFound s q explained h m = absurd m
  Explains-IsFound s q (refused {c = c} d x) h m =
      later-IsFound (denied_explanation c) _ s q (below_scored c.route_id q s x h.0 m)
        (Explains-IsFound s q x h.1 m)
  Explains-IsFound s q (scored {c = c} s' a t x) h (inr m) =
      later-IsFound (allowed_explanation c (score_terms weights c.metrics c.semantic_loss)) _ s q
        (below_scored c.route_id q s x h.0 m) (Explains-IsFound s q x h.1 m)
  Explains-IsFound s q (scored {c = c} s' a t x) h (inl e) =
      here-IsFound (allowed_explanation c (score_terms weights c.metrics c.semantic_loss)) _ s q
        (score_terms weights c.metrics c.semantic_loss) (cc) refl (t ∙ ap ok (score_of e)) refl refl
    where
      score_of : ◌≡◌ {A = Scored} (s, q) (s', c.route_id) → s' ≡ s
      score_of k = cc
