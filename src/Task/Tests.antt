-- ===== src/Task/Tests.antt =====
-- Runs of task.rs: a route from its preparation to its end.
use gaugemesh.Base.{ℕ, ◌≡◌, refl, ok, some}
use gaugemesh.Digest.{string, of_json, canonical_json, insert_field}
use gaugemesh.Digest.Samples.{sample_hashing, weigh}
use gaugemesh.Task.{TaskRouteRecord, TaskRouteUpdate, phase_eq}
use gaugemesh.Task.Update
use gaugemesh.Task.Samples.{
  caller, binding, capability, signed, request_digest, route_0, route_1, verifies_0, dispatches,
}
use gaugemesh.Task.Shape.{
  validate_shape, validate_identifier, validate_terminal_state, validate_names, validate_binding,
  validate_times, validate_phase,
}
use gaugemesh.Task.Record.{
  prepare_with_id, expected_integrity_digest, transition, sealed, can_transition, moved,
  next_upstream,
}
use gaugemesh.Task.Record.Reachable.{Reaches, start, then_, IsRun, Reaches-IsRun, Reaches-terminal}
use gaugemesh.Task.Record.Sound.{IsTimely, IsStaged, verify_route_sound}

prepares :
    prepare_with_id sample_hashing "public" caller
      (some "key")
      request_digest
      binding
      capability
      "session"
      1000
      500
    ≡ ok route_0
unfolding prepare_with_id sealed validate_shape validate_identifier validate_names validate_binding
    validate_times validate_phase of_json canonical_json insert_field weigh
prepares = refl

abbrev route_2 : TaskRouteRecord
route_2 = signed (moved route_1 (Update.routed "upstream" 1002) (some "upstream") 2)

routes : transition sample_hashing route_1 (Update.routed "upstream" 1002) ≡ ok route_2
unfolding transition sealed validate_shape validate_identifier weigh canonical_json insert_field
    of_json expected_integrity_digest can_transition Update.routed Update.dispatching
routes = refl

abbrev finish : TaskRouteUpdate
finish = Update.terminal 1003 (string "done")

abbrev route_3 : TaskRouteRecord
route_3 = signed (moved route_2 finish (some "upstream") 3)

ends : transition sample_hashing route_2 finish ≡ ok route_3
unfolding transition sealed validate_shape validate_identifier weigh canonical_json insert_field
    of_json expected_integrity_digest can_transition Update.terminal next_upstream Update.routed
    validate_terminal_state
ends = refl

abbrev run : Reaches sample_hashing route_0 3 route_3
run =
    then_ finish
      (then_ (Update.routed "upstream" 1002)
        (then_ (Update.dispatching "owner" 1001) (start route_0) dispatches) routes)
      ends

Reaches-IsRun_example : IsRun sample_hashing route_0 3 route_3
Reaches-IsRun_example = Reaches-IsRun sample_hashing verifies_0 run

Reaches-terminal_example : (◌≡◌ {A = ℕ} 0 0) × (route_3 ≡ route_3)
unfolding Update.terminal
Reaches-terminal_example = Reaches-terminal sample_hashing refl (start route_3)

verify_route_sound_example :
    IsTimely route_0
    × IsStaged route_0
    × (request_digest ≡ of_json sample_hashing binding)
    × (route_0.integrity_digest ≡ expected_integrity_digest sample_hashing route_0)
verify_route_sound_example = verify_route_sound sample_hashing route_0 verifies_0
