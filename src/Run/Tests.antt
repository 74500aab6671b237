-- ===== src/Run/Tests.antt =====
-- Runs of run.rs: a run that is accepted and advanced.
use gaugemesh.Base.{
  ℕ, ◌≡◌, ◌⊎◌, refl, All, arith, ◌++◌, sort_by_key, [], ◌∷◌, ok, err, some, sort_by_key, ◌++◌,
}
use gaugemesh.Digest.{Json, string, json, of_json, canonical_json, insert_field}
use gaugemesh.Digest.Equality.{json_beq}
use gaugemesh.Digest.Samples.{sample_hashing, tally_hashing, tally_inj, weigh}
use gaugemesh.Task.{TaskRouteCaller}
use gaugemesh.Run.{
  RunRecord, invalid, next_event, verify_run, append_event, event_digest, state_digest,
  verify_journal,
}
use gaugemesh.Run.Chain.{SameState, Collides, verify_run-sealed}
use gaugemesh.Run.Appending.{appended, append_event_complete}
use gaugemesh.Run.Store.{
  RunTables, accepted_run, advanced, row_of, begin_run, advance_run, load, update_rows,
}
use gaugemesh.Run.Store.Loading.{IsFiled}
use gaugemesh.Run.Store.Reload.{load-advance_run, advance_run_race}

abbrev caller : TaskRouteCaller
caller = record { principal = "alice"; tenant = "a" }

abbrev plan : Json
plan = json (("runKey", string "key") ∷ [])

abbrev contents_0 : Json
contents_0 = json (("plan", plan) ∷ [])

abbrev contents_1 : Json
contents_1 = json (("state", string "done") ∷ ("plan", plan) ∷ [])

abbrev started : RunRecord
started = accepted_run caller "key" (of_json sample_hashing plan) "gmr_1" contents_0

abbrev run_0 : RunRecord
run_0 = appended sample_hashing started "accepted"

abbrev tables_0 : RunTables
tables_0 = record {
  runs = row_of run_0 ∷ [];
  run_journal =
      (record {
        run_id = "gmr_1";
        version = 0;
        event = next_event sample_hashing started "accepted";
      })
      ∷ [];
}

begins :
    begin_run sample_hashing
      (record { runs = []; run_journal = [] })
      caller
      "key"
      contents_0
      "gmr_1"
    ≡ ok (run_0, tables_0)
unfolding begin_run append_event verify_run verify_journal event_digest state_digest of_json
    canonical_json insert_field weigh
begins = refl

abbrev run_1 : RunRecord
run_1 = appended sample_hashing (advanced run_0 contents_1) "verified"

abbrev tables_1 : RunTables
tables_1 = record {
  runs = update_rows tables_0.runs run_1 0;
  run_journal =
      tables_0.run_journal
      ++ ((record {
        run_id = "gmr_1";
        version = 1;
        event = next_event sample_hashing (advanced run_0 contents_1) "verified";
      })
          ∷ []);
}

advances : advance_run sample_hashing tables_0 run_0 contents_1 "verified" ≡ ok (run_1, tables_1)
unfolding advance_run append_event verify_run verify_journal event_digest state_digest of_json
    canonical_json insert_field weigh sort_by_key json_beq
advances = refl

load-advance_run_example :
    (load sample_hashing tables_1 caller "gmr_1" ≡ ok (some run_1))
    × (◌≡◌ {A = ℕ} 1 1)
    × All IsFiled tables_1.run_journal
load-advance_run_example =
    load-advance_run sample_hashing tables_0 tables_1 run_0 run_1 contents_1 "verified" (refl, tt)
      advances

advance_run_race_example :
    advance_run sample_hashing tables_1 run_0 contents_0 "late"
    ≡ err (invalid "GM_RUN_STALE_DRIVER")
advance_run_race_example =
    advance_run_race sample_hashing tables_0 tables_1 run_0 run_1 contents_1 "verified" (refl, tt)
      advances contents_0 "late"

append_event_complete_example : append_event sample_hashing started "accepted" ≡ ok run_0
unfolding verify_journal of_json weigh
append_event_complete_example =
    append_event_complete sample_hashing started "accepted" refl refl refl refl refl (omega arith)
      (omega arith) (omega arith)

abbrev tallied : RunRecord
tallied =
    appended tally_hashing
      (accepted_run caller "key" (of_json tally_hashing plan) "gmr_1" contents_0) "accepted"

tallied_verifies : verify_run tally_hashing tallied ≡ ok tt
unfolding verify_run verify_journal event_digest state_digest of_json canonical_json insert_field
    weigh
tallied_verifies = refl

verify_run-sealed_example :
    ((tallied.journal ≡ tallied.journal) × SameState tally_hashing tallied tallied)
    ⊎ Collides tally_hashing
verify_run-sealed_example =
    verify_run-sealed tally_hashing tally_inj tallied tallied tallied_verifies tallied_verifies refl
