-- ===== src/Route/Planner/InputOrder.antt =====
-- `decide` of route.rs does not see the order in which the candidates are given.
use gaugemesh.Base.{
  ◌≡◌, List, Rearranged, any-Rearranged, sort_by_key-Rearranged, HasDistinctKeys, ltb,
  is_empty_text, string_ord,
}
use gaugemesh.Digest.{Hashing}
use gaugemesh.Route.{RouteWeights, RouteCandidate}
use gaugemesh.Route.Planner.{decide}
use gaugemesh.Route.Planner.Entries.{candidate_id}

-- For candidates with distinct routes, the planner's answer, a decision or an error, is the same
-- for every order in which they are given.
pub decide-Rearranged :
    (h : Hashing) (cs ds : List RouteCandidate) (weights : RouteWeights)
    → Rearranged cs ds
    → HasDistinctKeys candidate_id cs
    → decide h cs weights ≡ decide h ds weights
unfolding decide
decide-Rearranged h cs ds weights r distinct = simp (
  any-Rearranged (λ c. ltb 10000 c.semantic_loss) r,
  any-Rearranged (λ c. is_empty_text c.route_id) r,
  sort_by_key-Rearranged candidate_id r distinct,
)
