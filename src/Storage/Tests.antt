-- ===== src/Storage/Tests.antt =====
-- Runs of the store of storage.rs.
use gaugemesh.Base.{
  ℕ, ◌≡◌, ◌≢◌, refl, List, [], ok, err, some, get, insert, if◌then◌else◌, ◌==◌, nat_eq, string_eq,
}
use gaugemesh.Digest.Samples.{sample_hashing, weigh}
use gaugemesh.Digest.{of_json, canonical_json, insert_field}
use gaugemesh.Task.{TaskRouteCaller}
use gaugemesh.Task.Update
use gaugemesh.Task.Samples.{caller, route_0, route_1}
use gaugemesh.Task.Record.{
  verify_route, verify_prepared_for_begin, expected_integrity_digest, transition, sealed,
  can_transition,
}
use gaugemesh.Task.Shape.{validate_shape, validate_identifier}
use gaugemesh.Storage.{
  MemoryTaskRoutes, with_route, begin_or_existing, inserted, existing, idempotency_conflict,
  task_route_integrity, find_task_route, get_task_route, compare_and_set_task_route,
  stale_transition, purge_expired_task_routes, purge_all, purge_one,
}
use gaugemesh.Storage.Consistent.{IsConsistent}
use gaugemesh.Storage.Sqlite as Sqlite
use gaugemesh.Storage.Sqlite.Table.{table}
use gaugemesh.Storage.Sqlite.Reading.{get_task_route-table}
use gaugemesh.Storage.Sqlite.Beginning.{on_table, begin_or_existing-table}
use gaugemesh.Storage.Sqlite.Updating.{compare_and_set_task_route-table}
use gaugemesh.Storage.Repeats.{begin-begin, IsReturned, existing_sound, begin_intact}
use gaugemesh.Storage.Access.{compare_and_set_race}
use gaugemesh.Storage.Purging.{IsPurged, purge_expired_task_routes-IsPurged}
use gaugemesh.Storage.Runs.{no_routes, Reached, at_start, after, begun, Reached-IsConsistent}

abbrev store_0 : MemoryTaskRoutes
store_0 = with_route no_routes route_0

begins : begin_or_existing sample_hashing no_routes route_0 ≡ ok (inserted route_0, store_0)
unfolding begin_or_existing verify_prepared_for_begin verify_route validate_shape
    validate_identifier weigh canonical_json insert_field of_json expected_integrity_digest
begins = refl

abbrev reached : Reached sample_hashing store_0
reached = after (at_start no_routes refl) (begun route_0 (inserted route_0) begins)

Reached-IsConsistent_example : IsConsistent sample_hashing store_0
Reached-IsConsistent_example = Reached-IsConsistent sample_hashing reached

consistent : IsConsistent sample_hashing store_0
consistent = Reached-IsConsistent sample_hashing reached

empty_consistent : IsConsistent sample_hashing no_routes
empty_consistent = Reached-IsConsistent sample_hashing (at_start no_routes refl)

prepared : verify_prepared_for_begin sample_hashing route_0 ≡ ok tt
unfolding verify_prepared_for_begin verify_route validate_shape validate_identifier weigh
    canonical_json insert_field of_json expected_integrity_digest
prepared = refl

begin-begin_example : begin_or_existing sample_hashing store_0 route_0 ≡ (
    if route_0.request_digest == route_0.request_digest
    then ok (existing route_0, store_0)
    else err idempotency_conflict)
begin-begin_example =
    begin-begin sample_hashing no_routes store_0 route_0 route_0 "key" empty_consistent begins refl
      refl refl prepared refl

again : begin_or_existing sample_hashing store_0 route_0 ≡ ok (existing route_0, store_0)
unfolding begin_or_existing verify_prepared_for_begin verify_route validate_shape
    validate_identifier weigh canonical_json insert_field of_json expected_integrity_digest
again = refl

existing_sound_example :
    (store_0 ≡ store_0) × IsReturned sample_hashing store_0 consistent route_0 route_0
existing_sound_example =
    existing_sound sample_hashing store_0 consistent route_0 route_0 store_0 again

begin_intact_example : begin_or_existing sample_hashing store_0 route_0 ≢ err task_route_integrity
begin_intact_example = begin_intact sample_hashing store_0 consistent route_0

abbrev stranger : TaskRouteCaller
stranger = record { principal = "bob"; tenant = "a" }

abbrev store_1 : MemoryTaskRoutes
store_1 = record store_0 { by_id = insert store_0.by_id "public" route_1 }

updates :
    compare_and_set_task_route sample_hashing store_0 caller "public" 0
      (Update.dispatching "owner" 1001)
    ≡ ok (some route_1, store_1)
unfolding compare_and_set_task_route transition sealed verify_route validate_shape
    validate_identifier weigh canonical_json insert_field of_json expected_integrity_digest
    can_transition Update.dispatching
updates = refl

compare_and_set_race_example :
    (get store_1.by_id "public" ≡ some route_1)
    × (◌≡◌ {A = ℕ} 1 1)
    × (compare_and_set_task_route sample_hashing store_1 caller "public" 0
          (Update.reconciliation_required 1002)
        ≡ err stale_transition)
unfolding Update.dispatching
compare_and_set_race_example =
    compare_and_set_race sample_hashing store_0 caller "public" 0 (Update.dispatching "owner" 1001)
      (Update.reconciliation_required 1002) route_1 store_1 updates

purge_expired_task_routes-IsPurged_example :
    IsPurged sample_hashing store_0 consistent 1500 10 1 no_routes
unfolding purge_expired_task_routes purge_all purge_one
purge_expired_task_routes-IsPurged_example =
    purge_expired_task_routes-IsPurged sample_hashing store_0 consistent 1500 10

get_task_route-table_example :
    (Sqlite.find_task_route sample_hashing (table store_0.by_id) caller "key"
      ≡ find_task_route sample_hashing store_0 caller "key")
    × (Sqlite.get_task_route sample_hashing (table store_0.by_id) caller "public"
        ≡ get_task_route sample_hashing store_0 caller "public")
get_task_route-table_example =
    get_task_route-table sample_hashing store_0 consistent caller "key" "public"

begin_or_existing-table_example :
    Sqlite.begin_or_existing sample_hashing (table store_0.by_id) route_0
    ≡ on_table (begin_or_existing sample_hashing store_0 route_0)
begin_or_existing-table_example = begin_or_existing-table sample_hashing store_0 consistent route_0

compare_and_set_task_route-table_example :
    Sqlite.compare_and_set_task_route sample_hashing
      (table store_0.by_id)
      caller
      "public"
      0
      (Update.dispatching "owner" 1001)
    ≡ on_table (
        compare_and_set_task_route sample_hashing store_0 caller "public" 0
          (Update.dispatching "owner" 1001))
compare_and_set_task_route-table_example =
    compare_and_set_task_route-table sample_hashing store_0 consistent caller "public" 0
      (Update.dispatching "owner" 1001)

-- Runs on the table itself
abbrev rows_0 : List Sqlite.StoredTaskRoute
rows_0 = table store_0.by_id

inserts : Sqlite.begin_or_existing sample_hashing [] route_0 ≡ ok (inserted route_0, rows_0)
unfolding Sqlite.begin_or_existing verify_prepared_for_begin verify_route validate_shape
    validate_identifier weigh canonical_json insert_field of_json expected_integrity_digest
inserts = refl
