-- ===== src/Causal/Tests.antt =====
-- Runs of causal.rs: a root, its child, and observations that are refused.
use gaugemesh.Base.{◌≡◌, ◌↔◌, refl, Option, none, some, ok, err}
use gaugemesh.Context.{CausalId}
use gaugemesh.Causal.{
  CausalObservation, CausalGraph, duplicate, missing_parent, cycle, empty_graph, walk, append,
}
use gaugemesh.Causal.Acyclic.{Fits, extended, append_lem}

abbrev observed : CausalId → Option CausalId → CausalObservation
observed id parent = record { id = id; parent = parent; kind = "test"; evidence_digest = 1 }

abbrev one : CausalGraph
one = extended empty_graph (observed "root" none)

abbrev two : CausalGraph
two = extended one (observed "child" (some "root"))

appends : append one (observed "child" (some "root")) ≡ ok two
unfolding append walk
appends = refl

repeats : append two (observed "child" (some "root")) ≡ err duplicate
unfolding append
repeats = refl

orphan : append two (observed "orphan" (some "missing")) ≡ err missing_parent
unfolding append
orphan = refl

self_parent : append empty_graph (observed "self" (some "self")) ≡ err cycle
unfolding append
self_parent = refl

append_lem_example :
    (append one (observed "child" (some "root")) ≡ ok two)
    ↔ Fits one (observed "child" (some "root"))
append_lem_example = append_lem one (observed "child" (some "root")) (refl, tt, tt)
