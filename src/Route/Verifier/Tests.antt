-- ===== src/Route/Verifier/Tests.antt =====
-- Runs of route.rs: a decision among three candidates.
use gaugemesh.Base.{
  ℕ, ◌≡◌, ◌≢◌, refl, String, true, false, List, [], ◌∷◌, ok, err, heads_swapped, HasDistinctKeys,
  string_ord, arith, string_eq, ◌==◌, sort_by_key, sort, dedup, Option, some, none,
}
use text.Mathlib.TextEquality.{eq_iff}
use gaugemesh.Digest.Samples.{sample_hashing}
use gaugemesh.Digest.{Sha256Digest}
use gaugemesh.Route.{
  CandidateExplanation, RouteMetricSnapshot, RouteWeights, RouteCandidate, RoutePlan, RouteDecision,
  RouteId, selected, denied,
}
use gaugemesh.Route.Json.{selected_digest}
use gaugemesh.Route.Planner.{
  allowed_explanation, score_terms, decide, explain, normalize_rejections, total, validate, choose,
  plan_of,
}
use gaugemesh.Route.Planner.Entries.{candidate_id}
use gaugemesh.Route.Planner.InputOrder.{decide-Rearranged}
use gaugemesh.Route.Verifier.{verify_integrity}
use gaugemesh.Route.Verifier.Soundness.{IsJustified, verify_integrity_sound}
use gaugemesh.Route.Verifier.Agreement.{verify_integrity-decide}

abbrev weights : RouteWeights
weights = record {
  latency = 10;
  cost = 30;
  failure = 30;
  semantic_loss = 1000;
  pressure = 20;
  exposure = 50;
  switching = 10;
}

abbrev metrics : ℕ → RouteMetricSnapshot
metrics latency = record {
  latency = latency;
  cost = 1;
  failure = 1;
  pressure = 1;
  exposure = 1;
  switching = 1;
}

abbrev open_candidate : RouteId → ℕ → RouteCandidate
open_candidate id latency = record {
  route_id = id;
  endpoint_id = id;
  hard_constraints = record { allowed = true; rejections = [] };
  metrics = metrics latency;
  semantic_loss = 0;
}

abbrev barred : RouteCandidate
barred = record {
  route_id = "c";
  endpoint_id = "c";
  hard_constraints = record { allowed = false; rejections = "quota" ∷ "policy" ∷ "quota" ∷ [] };
  metrics = metrics 0;
  semantic_loss = 0;
}

abbrev given : List RouteCandidate
given = open_candidate "b" 1 ∷ open_candidate "a" 5 ∷ barred ∷ []

abbrev turned : List RouteCandidate
turned = open_candidate "a" 5 ∷ open_candidate "b" 1 ∷ barred ∷ []

abbrev chosen_route : RouteDecision → Option (RouteId × ℕ)
chosen_route (selected v d p) = some (p.selected, p.action_score)
chosen_route (denied v d n) = none

abbrev chosen_by : List RouteCandidate → Option (RouteId × ℕ)
chosen_by cs = elim (decide sample_hashing cs weights) [ ok d ↦ chosen_route d | err e ↦ none ]

picks_b : chosen_by given ≡ some ("b", 150)
unfolding decide explain normalize_rejections total validate sort_by_key sort
picks_b = refl

abbrev checked : List RouteCandidate
checked =
    open_candidate "a" 5
    ∷ open_candidate "b" 1
    ∷ (record barred {
      hard_constraints = record { allowed = false; rejections = "policy" ∷ "quota" ∷ [] };
    })
    ∷ []

abbrev explanations : List CandidateExplanation
explanations =
    allowed_explanation (open_candidate "a" 5) (score_terms weights (metrics 5) 0)
    ∷ allowed_explanation (open_candidate "b" 1) (score_terms weights (metrics 1) 0)
    ∷ (record {
      route_id = "c";
      allowed = false;
      rejections = "policy" ∷ "quota" ∷ [];
      terms = none;
    })
    ∷ []

abbrev plan_b : RoutePlan
plan_b = plan_of sample_hashing checked weights explanations 150 "b"

abbrev digest_b : Sha256Digest
digest_b = selected_digest sample_hashing 1 plan_b

decides_b : decide sample_hashing given weights ≡ ok (selected 1 digest_b plan_b)
unfolding decide explain normalize_rejections total validate sort_by_key sort dedup choose
decides_b = refl

verify_integrity-decide_example :
    verify_integrity sample_hashing (selected 1 digest_b plan_b) ≡ ok tt
verify_integrity-decide_example =
    verify_integrity-decide sample_hashing given weights (selected 1 digest_b plan_b) decides_b

verifies_b : verify_integrity sample_hashing (selected 1 digest_b plan_b) ≡ ok tt
verifies_b =
    verify_integrity-decide sample_hashing given weights (selected 1 digest_b plan_b) decides_b

verify_integrity_sound_example :
    (◌≡◌ {A = ℕ} 1 1) × (digest_b ≡ selected_digest sample_hashing 1 plan_b) × IsJustified plan_b
verify_integrity_sound_example = verify_integrity_sound sample_hashing 1 digest_b plan_b verifies_b

names_differ : (a b : String) → (a == b) ≡ false → a ≢ b
names_differ a b apart e = ground (arith, eq_iff a b, apart, e)

HasDistinctKeys-given : HasDistinctKeys candidate_id given
HasDistinctKeys-given = (
  (names_differ "b" "a" refl, (names_differ "b" "c" refl, tt)),
  ((names_differ "a" "c" refl, tt), (tt, tt)),
)

decide-Rearranged_example :
    decide sample_hashing given weights ≡ decide sample_hashing turned weights
decide-Rearranged_example =
    decide-Rearranged sample_hashing given turned weights
      (heads_swapped (open_candidate "b" 1) (open_candidate "a" 5) (barred ∷ []))
      HasDistinctKeys-given
