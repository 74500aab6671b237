-- ===== src/Task/Samples.antt =====
-- A sample route for the tests.
use gaugemesh.Base.{◌≡◌, refl, [], ◌∷◌, ok, none, some}
use gaugemesh.Digest.{Json, string, json, of_json, canonical_json, insert_field, Sha256Digest}
use gaugemesh.Digest.Samples.{sample_hashing, weigh}
use gaugemesh.Capability.{CapabilityId, tool}
use gaugemesh.Task.{TaskRouteCaller, TaskRouteRecord}
use gaugemesh.Task.Update
use gaugemesh.Task.Shape.{validate_shape, validate_identifier}
use gaugemesh.Task.Record.{
  fresh_record, expected_integrity_digest, verify_route, transition, sealed, can_transition, moved,
}

abbrev pub caller : TaskRouteCaller
caller = record { principal = "alice"; tenant = "a" }

abbrev pub binding : Json
binding = json (("task_id", string "t") ∷ [])

abbrev pub capability : CapabilityId
capability = record {
  source = "worker";
  kind = tool;
  native_identity_digest = 1;
  schema_digest = 2;
  revision = "v1";
  source_configuration_digest = 3;
}

abbrev pub signed : TaskRouteRecord → TaskRouteRecord
signed r = record r { integrity_digest = expected_integrity_digest sample_hashing r }

abbrev pub request_digest : Sha256Digest
request_digest = of_json sample_hashing binding

abbrev pub route_0 : TaskRouteRecord
route_0 = signed (
    fresh_record "public" caller (some "key") request_digest binding capability "session" 1000 500
      1500)

abbrev pub route_1 : TaskRouteRecord
route_1 = signed (moved route_0 (Update.dispatching "owner" 1001) none 1)

pub verifies_0 : verify_route sample_hashing route_0 ≡ ok tt
unfolding verify_route validate_shape validate_identifier weigh canonical_json insert_field of_json
    expected_integrity_digest
verifies_0 = refl

pub dispatches : transition sample_hashing route_0 (Update.dispatching "owner" 1001) ≡ ok route_1
unfolding transition sealed validate_shape validate_identifier weigh canonical_json insert_field
    of_json expected_integrity_digest can_transition Update.dispatching
dispatches = refl
