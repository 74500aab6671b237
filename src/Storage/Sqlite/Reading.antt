-- ===== src/Storage/Sqlite/Reading.antt =====
-- `find_task_route` and `get_task_route` of `SqliteStorage` beside those of `MemoryStorage`.
use gaugemesh.Base.{
  ◌≡◌, sym, ◌∙◌, subst, arith, true, false, ◌&&◌, none, some, ok, find, ◌==◌, string_eq, nat_eq,
  option_eq, eq_self, get, pair_eq, Option-cases, Bool-cases, inl, inr,
}
use gaugemesh.Digest.{Hashing}
use gaugemesh.Task.{TaskRouteCaller, TaskRouteRecord, PublicTaskId, TaskRouteIdempotencyKey}
use gaugemesh.Task.Record.{verify_route, phase_name}
use gaugemesh.Storage.{
  MemoryTaskRoutes, caller_eq, caller_beq_iff, verified, from_task_route, TaskRouteStorageError,
}
use gaugemesh.Storage.Repeats.{from_task_route_pass}
use gaugemesh.Storage.Consistent.{IsConsistent}
use gaugemesh.Storage.Access.{find_task_route_lem}
use gaugemesh.Storage.Sqlite.{
  route_row, indexed_fields_match, decode_task_route, decode_found, is_row_of, has_route_key,
  select_by_public_id, select_by_idempotency, find_task_route, get_task_route,
}
use gaugemesh.Storage.Sqlite.Table.{table, find-table, find-table-none}
use gaugemesh.Storage as Memory

indexed_fields_match-route_row : (r : TaskRouteRecord) → indexed_fields_match (route_row r) ≡ true
unfolding indexed_fields_match
indexed_fields_match-route_row r = ground (
  arith,
  eq_self r.public_task_id,
  eq_self r.caller.principal,
  eq_self r.caller.tenant,
  eq_self r.idempotency_key,
  eq_self r.request_digest,
  eq_self r.capability_source,
  eq_self r.upstream_task_id,
  eq_self (phase_name r.phase),
  eq_self r.created_at_unix_ms,
  eq_self r.updated_at_unix_ms,
  eq_self r.ttl_ms,
  eq_self r.expires_at_unix_ms,
  eq_self r.transition_version,
  eq_self r.schema_version,
  eq_self r.integrity_digest,
)

is_row_of_row :
    (caller : TaskRouteCaller) (id : PublicTaskId) (r : TaskRouteRecord)
    → is_row_of caller id (route_row r) ≡ (r.public_task_id == id && r.caller == caller)
is_row_of_row caller id r = ground arith

has_route_key_holds :
    (caller : TaskRouteCaller) (key : TaskRouteIdempotencyKey) (r : TaskRouteRecord)
    → has_route_key caller key (route_row r) ≡ true
    → (r.caller ≡ caller) × (r.idempotency_key ≡ some key)
has_route_key_holds caller key r holds = (
  (caller_beq_iff r.caller caller).0 (ground arith),
  (option_eq.same_iff r.idempotency_key (some key)).0 (ground arith),
)

has_route_key_of :
    (caller : TaskRouteCaller) (key : TaskRouteIdempotencyKey) (r : TaskRouteRecord)
    → r.caller ≡ caller
    → r.idempotency_key ≡ some key
    → has_route_key caller key (route_row r) ≡ true
has_route_key_of caller key r owner k =
    ground (arith, (caller_beq_iff r.caller caller).1 owner, k, eq_self key)

module _ (h : Hashing) where
  decode_task_route-route_row :
      (r : TaskRouteRecord) → verify_route h r ≡ ok tt → decode_task_route h (route_row r) ≡ ok r
  unfolding decode_task_route
  decode_task_route-route_row r v =
      ground (arith, from_task_route_pass (verify_route h r) v, indexed_fields_match-route_row r)

  module _ (s : MemoryTaskRoutes) (c : IsConsistent h s) where
    decode_stored :
        (id : PublicTaskId) (r : TaskRouteRecord)
        → get s.by_id id ≡ some r
        → decode_found h (some (route_row r)) ≡ ok (some r)
    decode_stored id r f = ground (arith, decode_task_route-route_row r (c.stored id r f).0)

    same_id :
        (caller : TaskRouteCaller) (key : TaskRouteIdempotencyKey) (id : PublicTaskId)
        (r : TaskRouteRecord) (j : PublicTaskId) (q : TaskRouteRecord)
        → get s.by_id id ≡ some r
        → r.caller ≡ caller
        → r.idempotency_key ≡ some key
        → get s.by_id j ≡ some q
        → q.caller ≡ caller
        → q.idempotency_key ≡ some key
        → j ≡ id
    same_id caller key id r j q f owner k g same named =
        let first = c.keyed id r key f k in
        let second = c.keyed j q key g named in
        let both : get s.by_idempotency (r.caller, key) ≡ some j =
          subst (λ x. get s.by_idempotency (x, key) ≡ some j) (same ∙ sym owner) second in
        cc

    -- The route that a key finds, if any
    pub select_by_idempotency-table :
        (caller : TaskRouteCaller) (key : TaskRouteIdempotencyKey)
        → select_by_idempotency h (table s.by_id) caller key ≡ Memory.find_task_route h s caller key
    unfolding select_by_idempotency
    select_by_idempotency-table caller key = elim (find_task_route_lem h s c caller key) [
      | inl (nothing, alone) ↦
          let missed : find (has_route_key caller key) (table s.by_id) ≡ none =
            find-table-none s.by_id c.unique (has_route_key caller key) (λ j q g.
              elim (Bool-cases (has_route_key caller key (route_row q))) [
                | inl holds ↦
                    let (owner, named) = has_route_key_holds caller key q holds in
                    absurd (alone j q g owner named)
                | inr fails ↦ fails
              ]) in
          rw missed (sym nothing)
      | inr (id, r, found, f, owner, k) ↦
          let hit : find (has_route_key caller key) (table s.by_id) ≡ some (route_row r) =
            find-table s.by_id c.unique (has_route_key caller key) id r f
              (has_route_key_of caller key r owner k)
              (λ j q g holds.
                let (same, named) = has_route_key_holds caller key q holds in
                same_id caller key id r j q f owner k g same named) in
          rw hit (decode_stored id r f ∙ sym found)
    ]

    find-stored :
        (caller : TaskRouteCaller) (id : PublicTaskId) (r : TaskRouteRecord)
        → get s.by_id id ≡ some r
        → r.caller ≡ caller
        → find (is_row_of caller id) (table s.by_id) ≡ some (route_row r)
    find-stored caller id r f owner =
        find-table s.by_id c.unique (is_row_of caller id) id r f
          (ground (
            arith,
            is_row_of_row caller id r,
            (c.stored id r f).1,
            eq_self id,
            (caller_beq_iff r.caller caller).1 owner,
          ))
          (λ j q g holds. ground (
            arith,
            is_row_of_row caller id q,
            (c.stored j q g).1,
            string_eq.same_iff q.public_task_id id,
          ))

    -- A row is of the caller and the identifier when the route of the identifier is of the caller.
    find-foreign :
        (caller : TaskRouteCaller) (id : PublicTaskId)
        → ((r : TaskRouteRecord) → get s.by_id id ≡ some r → (r.caller == caller) ≡ false)
        → find (is_row_of caller id) (table s.by_id) ≡ none
    find-foreign caller id other = find-table-none s.by_id c.unique (is_row_of caller id) (λ j q g.
        elim (Bool-cases (q.public_task_id == id)) [
          | inl same ↦
              let one : j ≡ id =
                sym (c.stored j q g).1 ∙ (string_eq.same_iff q.public_task_id id).0 same in
              let differs = other q (subst (λ x. get s.by_id x ≡ some q) one g) in
              ground (arith, is_row_of_row caller id q, differs)
          | inr apart ↦ ground (arith, is_row_of_row caller id q, apart)
        ])

    pub select_by_public_id-table :
        (caller : TaskRouteCaller) (id : PublicTaskId)
        → select_by_public_id h (table s.by_id) caller id ≡ Memory.get_task_route h s caller id
    unfolding select_by_public_id Memory.get_task_route
    select_by_public_id-table caller id = elim (Option-cases (get s.by_id id)) [
      | inl missing ↦
          let missed = find-foreign caller id (λ r f. cc) in ground (arith, missed, missing)
      | inr (r, f) ↦ elim (Bool-cases (r.caller == caller)) [
        | inl owner ↦
            let hit = find-stored caller id r f ((caller_beq_iff r.caller caller).0 owner) in
            ground (
              arith,
              hit,
              f,
              owner,
              decode_stored id r f,
              from_task_route_pass (verify_route h r) (c.stored id r f).0,
            )
        | inr other ↦
            let missed = find-foreign caller id (λ q g.
              let same : q ≡ r = cc in
              subst (λ x. (x.caller == caller) ≡ false) (sym same) other) in
            ground (arith, missed, f, other)
      ]
    ]

    pub get_task_route-table :
        (caller : TaskRouteCaller) (key : TaskRouteIdempotencyKey) (id : PublicTaskId)
        → (find_task_route h (table s.by_id) caller key ≡ Memory.find_task_route h s caller key)
          × (get_task_route h (table s.by_id) caller id ≡ Memory.get_task_route h s caller id)
    unfolding find_task_route get_task_route
    get_task_route-table caller key id =
        (select_by_idempotency-table caller key, select_by_public_id-table caller id)
