-- ===== src/Run/Store.antt =====
-- The runs in the store: `find_run`, `begin_run`, `get_run`, `advance_run`, `insert_event` and `load` of
-- crates/gaugemesh-core/src/run.rs. A table is the list of its rows; a column with the text of a
-- value or of a digest holds that value or digest. A transaction that fails leaves the tables as they were.
pub mod Selecting
pub mod Loading
pub mod Reload
use gaugemesh.Base.{
  ℕ, ◌+◌, String, len, Bool, true, false, not, ◌&&◌, ◌||◌, Option, none, some, List, [], ◌∷◌, ◌++◌,
  map, if◌then◌else◌, ltb, leb, length, find, any, keep, take, sort_by_key, nat_ord, is_empty_text,
  Result, ok, err, ◌>>=◌, ◌>>◌, reject_if, ok_or, ◌==◌, ◌!=◌, string_eq, nat_eq, option_eq,
}
use gaugemesh.Digest.{
  Json, null, boolean, number, string, array, object, Hashing, of_json, canonical_json,
  Sha256Digest,
}
use gaugemesh.Digest.Equality.{json_eq}
use gaugemesh.Task.{TaskRouteCaller}
use gaugemesh.Run.{
  RunError, sqlite, invalid, RunEvent, RunRecord, get_value, schema, verify_run, append_event,
}

-- A row of the table `runs`
pub record RunRow : Type 0 where
  pub run_id : String
  pub principal : String
  pub tenant : String
  pub run_key : String
  pub plan_digest : Sha256Digest
  pub version : ℕ
  pub document : Json

-- A row of the table `run_journal`
pub record JournalRow : Type 0 where
  pub run_id : String
  pub version : ℕ
  pub event : RunEvent

pub record RunTables : Type 0 where
  pub runs : List RunRow
  pub run_journal : List JournalRow

-- `WHERE principal=?1 AND tenant=?2 AND run_key=?3`
abbrev pub has_key : TaskRouteCaller → String → RunRow → Bool
has_key caller key row =
    row.principal == caller.principal && row.tenant == caller.tenant && row.run_key == key

-- `WHERE run_id=?1 AND principal=?2 AND tenant=?3`
abbrev pub is_owned : TaskRouteCaller → String → RunRow → Bool
is_owned caller id row =
    row.run_id == id && row.principal == caller.principal && row.tenant == caller.tenant

-- `SELECT event FROM run_journal WHERE run_id=?1 ORDER BY version LIMIT 514`
abbrev pub entries_of : List JournalRow → String → List JournalRow
entries_of rows id = keep (λ (row : JournalRow). row.run_id == id) rows

abbrev pub selected_events : List JournalRow → String → List RunEvent
selected_events rows id =
    map (λ (row : JournalRow). row.event)
      (take 514 (sort_by_key (λ (row : JournalRow). row.version) (entries_of rows id)))

abbrev pub record_of : RunRow → TaskRouteCaller → List RunEvent → RunRecord
record_of row caller events = record {
  schema_version = schema;
  run_id = row.run_id;
  caller = caller;
  run_key = row.run_key;
  plan_sha256 = row.plan_digest;
  version = row.version;
  contents = row.document;
  journal = events;
}

abbrev pub row_of : RunRecord → RunRow
row_of r = record {
  run_id = r.run_id;
  principal = r.caller.principal;
  tenant = r.caller.tenant;
  run_key = r.run_key;
  plan_digest = r.plan_sha256;
  version = r.version;
  document = r.contents;
}

abbrev pub last_entry : List RunEvent → Option RunEvent
last_entry [] = none
last_entry (e ∷ []) = some e
last_entry (e ∷ f ∷ rest) = last_entry (f ∷ rest)

abbrev pub is_object : Option Json → Bool
is_object (some (object fs)) = true
is_object other = false

-- The table has a primary key; a run without an event does not get here.
unfoldable pub insert_event : List JournalRow → RunRecord → Result RunError (List JournalRow)
insert_event rows r = do
  e ← ok_or (last_entry r.journal) sqlite
  reject_if (any (λ (row : JournalRow). row.run_id == r.run_id && row.version == r.version) rows)
      sqlite
  ok (rows ++ ((record { run_id = r.run_id; version = r.version; event = e }) ∷ []))

-- `UPDATE runs SET document=?1, version=?2 WHERE run_id=?3 AND version=?4`
abbrev pub is_at : String → ℕ → RunRow → Bool
is_at id version row = row.run_id == id && row.version == version

abbrev pub update_row : RunRecord → ℕ → RunRow → RunRow
update_row next version row =
    if is_at next.run_id version row
    then record row { version = next.version; document = next.contents }
    else row

abbrev pub update_rows : List RunRow → RunRecord → ℕ → List RunRow
update_rows [] next version = []
update_rows (row ∷ rest) next version = update_row next version row ∷ update_rows rest next version

abbrev pub accepted_run : TaskRouteCaller → String → Sha256Digest → String → Json → RunRecord
accepted_run caller run_key digest id contents = record {
  schema_version = schema;
  run_id = id;
  caller = caller;
  run_key = run_key;
  plan_sha256 = digest;
  version = 0;
  contents = contents;
  journal = [];
}

-- The record that `advance_run` seals
abbrev pub advanced : RunRecord → Json → RunRecord
advanced current contents = record current { version = current.version + 1; contents = contents }

-- `get("plan")`, in the form in which maps are compared
abbrev pub plan_of : Json → Option Json
plan_of contents = elim (get_value contents "plan") [
  | none ↦ none
  | some plan ↦ some (canonical_json plan)
]

module _ (h : Hashing) where
  unfoldable pub load_row :
      RunTables → TaskRouteCaller → RunRow → Result RunError (Option RunRecord)
  load_row tables caller row = do
    reject_if (ltb 2097152 (h.encoded_len row.document) || ltb 512 row.version)
        (invalid "GM_RUN_STORAGE_BOUND")
    let loaded : RunRecord = record_of row caller (selected_events tables.run_journal row.run_id)
    verify_run h loaded
    ok (some loaded)

  unfoldable pub load : RunTables → TaskRouteCaller → String → Result RunError (Option RunRecord)
  unfolding load_row
  load tables caller id = elim (find (is_owned caller id) tables.runs) [
    | none ↦ ok none
    | some row ↦ load_row tables caller row
  ]

  unfoldable pub find_run :
      RunTables → TaskRouteCaller → String → Result RunError (Option RunRecord)
  unfolding load
  find_run tables caller key = elim (find (has_key caller key) tables.runs) [
    | none ↦ ok none
    | some row ↦ load tables caller row.run_id
  ]

  unfoldable pub get_run : RunTables → TaskRouteCaller → String → Result RunError (Option RunRecord)
  unfolding load
  get_run tables caller id = load tables caller id

  -- The tables with a new run, whose random identifier is an argument
  unfoldable pub accept_run :
      RunTables
      → TaskRouteCaller
      → String
      → Sha256Digest
      → String
      → Json
      → Result RunError (RunRecord × RunTables)
  unfolding insert_event
  accept_run tables caller run_key digest id contents = do
    reject_if (leb 128 (length tables.runs)) (invalid "GM_RUN_STORAGE_CAPACITY")
    accepted ← append_event h (accepted_run caller run_key digest id contents) "accepted"
    reject_if (any (λ (row : RunRow). row.run_id == id || has_key caller run_key row) tables.runs)
        sqlite
    journal ← insert_event tables.run_journal accepted
    ok (accepted, record { runs = tables.runs ++ (row_of accepted ∷ []); run_journal = journal })

  unfoldable pub return_run :
      RunTables → TaskRouteCaller → Sha256Digest → RunRow → Result RunError (RunRecord × RunTables)
  unfolding load
  return_run tables caller digest row = do
    loaded ← load tables caller row.run_id
    existing ← ok_or loaded (invalid "GM_RUN_INTEGRITY")
    reject_if (existing.plan_sha256 != digest) (invalid "GM_RUN_IDEMPOTENCY_CONFLICT")
    ok (existing, tables)

  unfoldable pub begin_run :
      RunTables → TaskRouteCaller → String → Json → String → Result RunError (RunRecord × RunTables)
  unfolding accept_run return_run
  begin_run tables caller run_key contents id = do
    reject_if
        (is_empty_text run_key
          || ltb 128 (len run_key)
          || not (is_object (get_value contents "plan")))
        (invalid "GM_RUN_PLAN_INVALID")
    plan ← ok_or (get_value contents "plan") (invalid "GM_RUN_PLAN_INVALID")
    elim (find (has_key caller run_key) tables.runs) [
      | some row ↦ return_run tables caller (of_json h plan) row
      | none ↦ accept_run tables caller run_key (of_json h plan) id contents
    ]

  unfoldable pub advance_current :
      RunTables → RunRecord → RunRecord → Json → String → Result RunError (RunRecord × RunTables)
  unfolding insert_event
  advance_current tables old current contents kind = do
    reject_if (current.version != old.version) (invalid "GM_RUN_STALE_DRIVER")
    reject_if (plan_of contents != plan_of current.contents) (invalid "GM_RUN_PLAN_IMMUTABLE")
    next ← append_event h (advanced current contents) kind
    reject_if (not (any (is_at next.run_id old.version) tables.runs))
        (invalid "GM_RUN_STALE_DRIVER")
    journal ← insert_event tables.run_journal next
    ok (next, record { runs = update_rows tables.runs next old.version; run_journal = journal })

  unfoldable pub advance_run :
      RunTables → RunRecord → Json → String → Result RunError (RunRecord × RunTables)
  unfolding load advance_current
  advance_run tables old contents kind = do
    loaded ← load tables old.caller old.run_id
    current ← ok_or loaded (invalid "GM_RUN_NOT_FOUND")
    advance_current tables old current contents kind
