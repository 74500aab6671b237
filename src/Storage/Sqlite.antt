-- ===== src/Storage/Sqlite.antt =====
-- The task routes of `SqliteStorage` in crates/gaugemesh-core/src/storage.rs. The table is the list of
-- its rows, in the order of insertion; the columns with the text of a digest or of the record hold that
-- digest or record. A transaction that fails leaves the table as it was.
pub mod Table
pub mod Reading
pub mod Beginning
pub mod Updating
use gaugemesh.Base.{
  ℕ, ◌+◌, String, Bool, true, false, not, ◌&&◌, ◌||◌, Option, none, some, List, [], ◌∷◌, ◌++◌,
  if◌then◌else◌, ltb, leb, eqb, min, length, find, any, keep, map, contains, take, sort_by_key,
  pair_ord, nat_ord, string_ord, Result, ok, err, ◌>>=◌, ◌>>◌, reject_if, ◌==◌, ◌!=◌, string_eq,
  nat_eq, option_eq,
}
use gaugemesh.Digest.{Hashing, Sha256Digest}
use gaugemesh.Task.{
  TaskRouteCaller, TaskRouteRecord, TaskRouteUpdate, PublicTaskId, TaskRouteIdempotencyKey,
  max_sqlite_integer,
}
use gaugemesh.Task.Record.{
  verify_route, verify_prepared_for_begin, transition, is_expired, phase_name,
}
use gaugemesh.Storage.{
  TaskRouteStorageError, task_route_integrity, idempotency_conflict, public_task_id_collision,
  task_route_capacity, stale_transition, BeginTaskRouteResult, inserted, existing, from_task_route,
  max_stored_task_routes, max_active_task_routes_per_caller, bounded_task_route_purge_limit,
}

pub record StoredTaskRoute : Type 0 where
  pub public_task_id : String
  pub principal_id : String
  pub tenant_id : String
  pub idempotency_key : Option String
  pub request_digest : Sha256Digest
  pub capability_source : String
  pub upstream_task_id : Option String
  pub phase : String
  pub created_at_unix_ms : ℕ
  pub updated_at_unix_ms : ℕ
  pub ttl_ms : ℕ
  pub expires_at_unix_ms : ℕ
  pub transition_version : ℕ
  pub record_schema_version : ℕ
  pub integrity_digest : Sha256Digest
  pub document : TaskRouteRecord

-- The row of the `INSERT`
abbrev pub route_row : TaskRouteRecord → StoredTaskRoute
route_row r = record {
  public_task_id = r.public_task_id;
  principal_id = r.caller.principal;
  tenant_id = r.caller.tenant;
  idempotency_key = r.idempotency_key;
  request_digest = r.request_digest;
  capability_source = r.capability_source;
  upstream_task_id = r.upstream_task_id;
  phase = phase_name r.phase;
  created_at_unix_ms = r.created_at_unix_ms;
  updated_at_unix_ms = r.updated_at_unix_ms;
  ttl_ms = r.ttl_ms;
  expires_at_unix_ms = r.expires_at_unix_ms;
  transition_version = r.transition_version;
  record_schema_version = r.schema_version;
  integrity_digest = r.integrity_digest;
  document = r;
}

-- `i64::try_from`
abbrev pub to_sqlite_integer : ℕ → Result TaskRouteStorageError ℕ
to_sqlite_integer value =
    if leb value max_sqlite_integer then ok value else err task_route_integrity

unfoldable pub indexed_fields_match : StoredTaskRoute → Bool
indexed_fields_match stored =
    let r = stored.document in
    stored.public_task_id == r.public_task_id
    && stored.principal_id == r.caller.principal
    && stored.tenant_id == r.caller.tenant
    && stored.idempotency_key == r.idempotency_key
    && stored.request_digest == r.request_digest
    && stored.capability_source == r.capability_source
    && stored.upstream_task_id == r.upstream_task_id
    && stored.phase == phase_name r.phase
    && stored.created_at_unix_ms == r.created_at_unix_ms
    && stored.updated_at_unix_ms == r.updated_at_unix_ms
    && stored.ttl_ms == r.ttl_ms
    && stored.expires_at_unix_ms == r.expires_at_unix_ms
    && stored.transition_version == r.transition_version
    && stored.record_schema_version == r.schema_version
    && stored.integrity_digest == r.integrity_digest

-- `WHERE public_task_id=?1 AND principal_id=?2 AND tenant_id=?3`
abbrev pub is_row_of : TaskRouteCaller → PublicTaskId → StoredTaskRoute → Bool
is_row_of caller id row =
    row.public_task_id == id
    && row.principal_id == caller.principal
    && row.tenant_id == caller.tenant

-- `WHERE principal_id=?1 AND tenant_id=?2 AND idempotency_key=?3`
abbrev pub has_route_key : TaskRouteCaller → TaskRouteIdempotencyKey → StoredTaskRoute → Bool
has_route_key caller key row =
    row.principal_id == caller.principal
    && row.tenant_id == caller.tenant
    && row.idempotency_key == some key

-- `WHERE principal_id=?1 AND tenant_id=?2 AND expires_at_unix_ms>?3`
abbrev pub is_active_row : TaskRouteRecord → StoredTaskRoute → Bool
is_active_row r row =
    row.principal_id == r.caller.principal
    && row.tenant_id == r.caller.tenant
    && ltb r.created_at_unix_ms row.expires_at_unix_ms

-- `WHERE public_task_id=?1 AND principal_id=?2 AND tenant_id=?3 AND idempotency_key=?4`
abbrev pub is_expired_row : TaskRouteRecord → TaskRouteIdempotencyKey → StoredTaskRoute → Bool
is_expired_row found key row =
    row.public_task_id == found.public_task_id
    && row.principal_id == found.caller.principal
    && row.tenant_id == found.caller.tenant
    && row.idempotency_key == some key

-- `DELETE`, and the number of rows that it deletes
abbrev pub delete_rows : (StoredTaskRoute → Bool) → List StoredTaskRoute → List StoredTaskRoute
delete_rows p rows = keep (λ row. not (p row)) rows

abbrev pub deleted_rows : (StoredTaskRoute → Bool) → List StoredTaskRoute → ℕ
deleted_rows p rows = length (keep p rows)

abbrev pub matches_version : TaskRouteRecord → ℕ → StoredTaskRoute → Bool
matches_version next expected row =
    row.public_task_id == next.public_task_id
    && row.principal_id == next.caller.principal
    && row.tenant_id == next.caller.tenant
    && row.transition_version == expected

abbrev pub updated : TaskRouteRecord → StoredTaskRoute → StoredTaskRoute
updated next row = record row {
  upstream_task_id = next.upstream_task_id;
  phase = phase_name next.phase;
  updated_at_unix_ms = next.updated_at_unix_ms;
  transition_version = next.transition_version;
  integrity_digest = next.integrity_digest;
  document = next;
}

abbrev pub update_route : TaskRouteRecord → ℕ → StoredTaskRoute → StoredTaskRoute
update_route next expected row = if matches_version next expected row then updated next row else row

-- From the test on the identifier to the `INSERT`
unfoldable pub insert_route :
    List StoredTaskRoute
    → TaskRouteRecord
    → Result TaskRouteStorageError (BeginTaskRouteResult × List StoredTaskRoute)
insert_route rows r = do
  reject_if (any (λ (row : StoredTaskRoute). row.public_task_id == r.public_task_id) rows)
      public_task_id_collision
  created_at ← to_sqlite_integer r.created_at_unix_ms
  reject_if
      (leb max_stored_task_routes (length rows)
        || leb max_active_task_routes_per_caller (length (keep (is_active_row r) rows)))
      task_route_capacity
  updated_at ← to_sqlite_integer r.updated_at_unix_ms
  ttl ← to_sqlite_integer r.ttl_ms
  expires_at ← to_sqlite_integer r.expires_at_unix_ms
  version ← to_sqlite_integer r.transition_version
  ok (inserted r, rows ++ (route_row r ∷ []))

-- A route that the key finds is returned, a conflict, or deleted for the new one.
unfoldable pub begin_found :
    List StoredTaskRoute
    → TaskRouteRecord
    → TaskRouteIdempotencyKey
    → Option TaskRouteRecord
    → Result TaskRouteStorageError (BeginTaskRouteResult × List StoredTaskRoute)
unfolding insert_route
begin_found rows r key none = insert_route rows r
begin_found rows r key (some found) =
    if is_expired found r.created_at_unix_ms
    then (do
      reject_if (deleted_rows (is_expired_row found key) rows != 1) task_route_integrity
      insert_route (delete_rows (is_expired_row found key) rows) r)
    else (if found.request_digest != r.request_digest
        then err idempotency_conflict
        else ok (existing found, rows))

module _ (h : Hashing) where
  unfoldable pub decode_task_route : StoredTaskRoute → Result TaskRouteStorageError TaskRouteRecord
  unfolding indexed_fields_match
  decode_task_route stored = do
    from_task_route (verify_route h stored.document)
    reject_if (not (indexed_fields_match stored)) task_route_integrity
    ok stored.document

  -- `stored.map(decode_task_route).transpose()`
  abbrev pub decode_found :
      Option StoredTaskRoute → Result TaskRouteStorageError (Option TaskRouteRecord)
  decode_found none = ok none
  decode_found (some row) = do r ← decode_task_route row; ok (some r)

  unfoldable pub select_by_public_id :
      List StoredTaskRoute
      → TaskRouteCaller
      → PublicTaskId
      → Result TaskRouteStorageError (Option TaskRouteRecord)
  select_by_public_id rows caller id = decode_found (find (is_row_of caller id) rows)

  unfoldable pub select_by_idempotency :
      List StoredTaskRoute
      → TaskRouteCaller
      → TaskRouteIdempotencyKey
      → Result TaskRouteStorageError (Option TaskRouteRecord)
  select_by_idempotency rows caller key = decode_found (find (has_route_key caller key) rows)

  unfoldable pub find_task_route :
      List StoredTaskRoute
      → TaskRouteCaller
      → TaskRouteIdempotencyKey
      → Result TaskRouteStorageError (Option TaskRouteRecord)
  unfolding select_by_idempotency
  find_task_route rows caller key = select_by_idempotency rows caller key

  unfoldable pub get_task_route :
      List StoredTaskRoute
      → TaskRouteCaller
      → PublicTaskId
      → Result TaskRouteStorageError (Option TaskRouteRecord)
  unfolding select_by_public_id
  get_task_route rows caller id = select_by_public_id rows caller id

  unfoldable pub begin_by_key :
      List StoredTaskRoute
      → TaskRouteRecord
      → Option TaskRouteIdempotencyKey
      → Result TaskRouteStorageError (BeginTaskRouteResult × List StoredTaskRoute)
  unfolding begin_found select_by_idempotency
  begin_by_key rows r none = insert_route rows r
  begin_by_key rows r (some key) = do
    found ← select_by_idempotency rows r.caller key
    begin_found rows r key found

  unfoldable pub begin_or_existing :
      List StoredTaskRoute
      → TaskRouteRecord
      → Result TaskRouteStorageError (BeginTaskRouteResult × List StoredTaskRoute)
  unfolding begin_by_key
  begin_or_existing rows r = do
    from_task_route (verify_prepared_for_begin h r)
    begin_by_key rows r r.idempotency_key

  unfoldable pub update_current :
      List StoredTaskRoute
      → ℕ
      → TaskRouteUpdate
      → Option TaskRouteRecord
      → Result TaskRouteStorageError (Option TaskRouteRecord × List StoredTaskRoute)
  update_current rows expected update none = ok (none, rows)
  update_current rows expected update (some current) = do
    reject_if (current.transition_version != expected) stale_transition
    next ← from_task_route (transition h current update)
    updated_at ← to_sqlite_integer next.updated_at_unix_ms
    version ← to_sqlite_integer next.transition_version
    before ← to_sqlite_integer expected
    reject_if (deleted_rows (matches_version next expected) rows != 1) stale_transition
    ok (some next, map (update_route next expected) rows)

  unfoldable pub compare_and_set_task_route :
      List StoredTaskRoute
      → TaskRouteCaller
      → PublicTaskId
      → ℕ
      → TaskRouteUpdate
      → Result TaskRouteStorageError (Option TaskRouteRecord × List StoredTaskRoute)
  unfolding update_current select_by_public_id
  compare_and_set_task_route rows caller id expected update = do
    found ← select_by_public_id rows caller id
    update_current rows expected update found

-- The rows of the nested `SELECT`, and the `DELETE` of their identifiers
abbrev pub expired_rows : List StoredTaskRoute → ℕ → ℕ → List StoredTaskRoute
expired_rows rows now limit = take limit (
    sort_by_key {K = ℕ × String}
      (λ (row : StoredTaskRoute). (row.expires_at_unix_ms, row.public_task_id))
      (keep (λ (row : StoredTaskRoute). leb row.expires_at_unix_ms now) rows))

abbrev pub is_among : List StoredTaskRoute → StoredTaskRoute → Bool
is_among chosen row =
    any (λ (other : StoredTaskRoute). other.public_task_id == row.public_task_id) chosen

unfoldable pub purge_expired_task_routes : List StoredTaskRoute → ℕ → ℕ → ℕ × List StoredTaskRoute
unfolding bounded_task_route_purge_limit
purge_expired_task_routes rows now max_records =
    let limit = bounded_task_route_purge_limit max_records in
    if eqb limit 0
    then (0, rows)
    else (let chosen = expired_rows rows (min now max_sqlite_integer) limit in
        (deleted_rows (is_among chosen) rows, delete_rows (is_among chosen) rows))
