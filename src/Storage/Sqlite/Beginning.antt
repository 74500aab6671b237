-- ===== src/Storage/Sqlite/Beginning.antt =====
-- `begin_or_existing` of `SqliteStorage` beside that of `MemoryStorage`.
use gaugemesh.Base.{
  ℕ, ◌-◌, ◌≤◌, ◌≡◌, refl, ◌∙◌, subst, arith, Bool, true, false, not, ◌&&◌, ◌||◌, Option, none, some,
  List, length, All, Result, ok, err, ◌>>=◌, >>_ok, Result-cases, ◌==◌, ◌!=◌, if◌then◌else◌, leb,
  string_eq, nat_eq, pair_eq, option_eq, eq_self, get, remove, insert, get-remove, count_values,
  count_values-remove_skip, length-remove_unique, HasUniqueKeys-All, HasUniqueKeys-remove,
  Option-cases, Bool-cases, inl, inr,
}
use gaugemesh.Digest.{Hashing}
use gaugemesh.Task.{TaskRouteRecord, PublicTaskId, TaskRouteIdempotencyKey, max_sqlite_integer}
use gaugemesh.Task.Shape.{is_some}
use gaugemesh.Task.Record.{verify_route, verify_prepared_for_begin, is_expired}
use gaugemesh.Task.Record.Sound.{IsTimely, verify_route_sound}
use gaugemesh.Storage.{
  MemoryTaskRoutes, Scope, TaskRouteStorageError, BeginTaskRouteResult, inserted, existing, Earlier,
  returned, replaced, caller_eq, caller_beq_iff, public_task_id_collision, idempotency_conflict,
  task_route_capacity, max_stored_task_routes, max_active_task_routes_per_caller, is_of,
  is_active_for, without_expired, with_route, insert_prepared, finish_begin, find_by_key,
  find_bound, find_earlier, from_task_route,
}
use gaugemesh.Storage.Repeats.{from_task_route_pass}
use gaugemesh.Storage.Consistent.{IsConsistent}
use gaugemesh.Storage.Sqlite.{
  StoredTaskRoute, route_row, to_sqlite_integer, is_active_row, is_expired_row, insert_route,
  begin_found, begin_by_key, begin_or_existing, select_by_idempotency,
}
use gaugemesh.Storage.Sqlite.Table.{
  Routes, table, length-table, table-append, any-table, count-table, IsOf, delete_rows-table,
  deleted_rows-table,
}
use gaugemesh.Storage.Sqlite.Reading.{select_by_idempotency-table}
use gaugemesh.Storage as Memory

-- The answer, with the table of the routes that a store holds
abbrev pub on_table :
    {A : Type 0}
    → Result TaskRouteStorageError (A × MemoryTaskRoutes)
    → Result TaskRouteStorageError (A × List StoredTaskRoute)
on_table (err e) = err e
on_table (ok (answer, t)) = ok (answer, table t.by_id)

pub to_sqlite_integer_fits : (n : ℕ) → n ≤ max_sqlite_integer → to_sqlite_integer n ≡ ok n
to_sqlite_integer_fits n fits = ground (arith, fits)

is_active_row_lem : (r q : TaskRouteRecord) → is_active_row r (route_row q) ≡ is_active_for r q
is_active_row_lem r q = ground arith

abbrev is_full : Routes → TaskRouteRecord → Bool
is_full m r =
    leb max_stored_task_routes (length m)
    || leb max_active_task_routes_per_caller (count_values (is_active_for r) m)

is_some-none : {A : Type 0} (o : Option A) → is_some o ≡ false → o ≡ none
is_some-none none h = refl
is_some-none (some a) h = cc

module _ (m : Routes) (r : TaskRouteRecord)
    (named : All (λ (x : PublicTaskId × TaskRouteRecord). x.1.public_task_id ≡ x.0) m)
    (timely : IsTimely r) where
  insert_route-table : insert_route (table m) r ≡ (
      if is_some (get m r.public_task_id)
      then err public_task_id_collision
      else if is_full m r
      then err task_route_capacity
      else ok (inserted r, table (insert m r.public_task_id r)))
  unfolding insert_route
  insert_route-table = elim (Bool-cases (is_some (get m r.public_task_id))) [
    | inl there ↦ ground (arith, there, any-table m r.public_task_id named)
    | inr fresh ↦
        let appended =
          table-append m r.public_task_id r (is_some-none (get m r.public_task_id) fresh) in
        rw
          (
            any-table m r.public_task_id named,
            fresh,
            to_sqlite_integer_fits r.created_at_unix_ms (omega (arith, timely)),
            to_sqlite_integer_fits r.updated_at_unix_ms (omega (arith, timely)),
            to_sqlite_integer_fits r.ttl_ms (omega (arith, timely)),
            to_sqlite_integer_fits r.expires_at_unix_ms (omega (arith, timely)),
            to_sqlite_integer_fits r.transition_version (omega (arith, timely)),
            length-table m,
            count-table (is_active_row r) (is_active_for r) m (is_active_row_lem r),
            appended,
          )
          (elim (Bool-cases (is_full m r)) [
            | inl full ↦ ground (arith, full)
            | inr room ↦ ground (arith, room)
          ])
  ]

module _ (h : Hashing) (s : MemoryTaskRoutes) (c : IsConsistent h s) (r : TaskRouteRecord) where
  named : All (λ (x : PublicTaskId × TaskRouteRecord). x.1.public_task_id ≡ x.0) s.by_id
  named =
      HasUniqueKeys-All (λ (x : PublicTaskId × TaskRouteRecord). x.1.public_task_id ≡ x.0) s.by_id
        c.unique (λ id q f. (c.stored id q f).1)

  insert-table : IsTimely r → insert_route (table s.by_id) r ≡ on_table (insert_prepared s r none)
  unfolding insert_prepared
  insert-table timely =
      insert_route-table s.by_id r named timely
      ∙ (elim (Bool-cases (is_some (get s.by_id r.public_task_id))) [
        | inl there ↦ ground (arith, there)
        | inr fresh ↦ elim (Bool-cases (is_full s.by_id r)) [
          | inl full ↦ ground (arith, fresh, full)
          | inr room ↦ ground (arith, fresh, room)
        ]
      ])

  module _ (id : PublicTaskId) (found : TaskRouteRecord) (key : TaskRouteIdempotencyKey)
      (f : get s.by_id id ≡ some found) (k : found.idempotency_key ≡ some key)
      (expired : is_expired found r.created_at_unix_ms ≡ true) where
    rest-named :
        All (λ (x : PublicTaskId × TaskRouteRecord). x.1.public_task_id ≡ x.0) (remove s.by_id id)
    rest-named =
        HasUniqueKeys-All (λ (x : PublicTaskId × TaskRouteRecord). x.1.public_task_id ≡ x.0)
          (remove s.by_id id) (HasUniqueKeys-remove s.by_id id c.unique)
          (λ j q g. elim (Bool-cases (id == j)) [
            | inl same ↦ ground (arith, get-remove s.by_id id j, same)
            | inr apart ↦ (c.stored j q (ground (arith, get-remove s.by_id id j, apart))).1
          ])

    rest_full : is_full (remove s.by_id id) r ≡ (
        leb max_stored_task_routes (length s.by_id - 1)
        || leb max_active_task_routes_per_caller (count_values (is_active_for r) s.by_id))
    rest_full =
        let skip : is_active_for r found ≡ false = ground (arith, expired) in
        let fewer : length (remove s.by_id id) ≡ length s.by_id - 1 =
          omega (arith, length-remove_unique s.by_id id found c.unique f) in
        rw (count_values-remove_skip (is_active_for r) s.by_id id found c.unique f skip, fewer) refl

    replace-table :
        (scope : Scope)
        → IsTimely r
        → insert_route (table (remove s.by_id id)) r
          ≡ on_table (insert_prepared s r (some (scope, id)))
    unfolding insert_prepared
    replace-table scope timely =
        insert_route-table (remove s.by_id id) r rest-named timely
        ∙ (rw rest_full
            (elim (Bool-cases
              (is_some (get s.by_id r.public_task_id) && not (id == r.public_task_id))) [
                | inl there ↦ ground (arith, there, get-remove s.by_id id r.public_task_id)
                | inr fresh ↦ ground (arith, fresh, get-remove s.by_id id r.public_task_id)
              ]))

    expired_row : All (IsOf (is_expired_row found key) id) s.by_id
    expired_row = HasUniqueKeys-All (IsOf (is_expired_row found key) id) s.by_id c.unique (λ j q g.
        elim (Bool-cases (j == id)) [
          | inl same ↦
              let one : get s.by_id id ≡ some q =
                subst (λ x. get s.by_id x ≡ some q) ((string_eq.same_iff j id).0 same) g in
              let equal : q ≡ found = cc in
              ground (
                arith,
                same,
                equal,
                k,
                eq_self key,
                eq_self found.public_task_id,
                eq_self found.caller.principal,
                eq_self found.caller.tenant,
              )
          | inr apart ↦ ground (arith, apart, (c.stored id found f).1, (c.stored j q g).1)
        ])

    begin_found-expired :
        (scope : Scope)
        → IsTimely r
        → begin_found (table s.by_id) r key (some found)
          ≡ on_table (insert_prepared s r (some (scope, id)))
    unfolding begin_found
    begin_found-expired scope timely =
        rw
          (
            expired,
            deleted_rows-table (is_expired_row found key) id s.by_id found c.unique expired_row f,
            delete_rows-table (is_expired_row found key) id s.by_id expired_row,
          )
          (replace-table scope timely)

  begin_found_live :
      (id : PublicTaskId) (found : TaskRouteRecord) (key : TaskRouteIdempotencyKey)
      → is_expired found r.created_at_unix_ms ≡ false
      → begin_found (table s.by_id) r key (some found) ≡ (
          if found.request_digest != r.request_digest
          then err idempotency_conflict
          else ok (existing found, table s.by_id))
  unfolding begin_found
  begin_found_live id found key live = ground (arith, live)

  begin_found-table :
      (id : PublicTaskId) (found : TaskRouteRecord) (key : TaskRouteIdempotencyKey)
      → get s.by_id id ≡ some found
      → found.idempotency_key ≡ some key
      → IsTimely r
      → begin_found (table s.by_id) r key (some found)
        ≡ on_table (
            find_earlier h s r (r.caller, key) id (some found)
            >>= (λ earlier. finish_begin s r earlier))
  unfolding find_earlier finish_begin
  begin_found-table id found key f k timely =
      let verifies = from_task_route_pass (verify_route h found) (c.stored id found f).0 in
      elim (Bool-cases (is_expired found r.created_at_unix_ms)) [
        | inl expired ↦
            begin_found-expired id found key f k expired (r.caller, key) timely
            ∙ ground (arith, verifies, expired)
        | inr live ↦ begin_found_live id found key live ∙ ground (arith, verifies, live)
      ]

  find_task_route_bound :
      (key : TaskRouteIdempotencyKey) (id : PublicTaskId) (found : TaskRouteRecord)
      → get s.by_idempotency (r.caller, key) ≡ some id
      → get s.by_id id ≡ some found
      → Memory.find_task_route h s r.caller key ≡ ok (some found)
  unfolding Memory.find_task_route
  find_task_route_bound key id found index f =
      ground (arith, index, f, from_task_route_pass (verify_route h found) (c.stored id found f).0)

  find_task_route_unbound :
      (key : TaskRouteIdempotencyKey)
      → get s.by_idempotency (r.caller, key) ≡ none
      → Memory.find_task_route h s r.caller key ≡ ok none
  unfolding Memory.find_task_route
  find_task_route_unbound key unused = ground (arith, unused)

  begin_bound-table :
      (key : TaskRouteIdempotencyKey)
      → IsTimely r
      → (select_by_idempotency h (table s.by_id) r.caller key
          >>= (λ found. begin_found (table s.by_id) r key found))
        ≡ on_table (
            find_bound h s r (r.caller, key) (get s.by_idempotency (r.caller, key))
            >>= (λ earlier. finish_begin s r earlier))
  unfolding begin_found find_bound finish_begin
  begin_bound-table key timely = elim (Option-cases (get s.by_idempotency (r.caller, key))) [
    | inl unused ↦
        rw
          (
            select_by_idempotency-table h s c r.caller key,
            find_task_route_unbound key unused,
            unused,
          )
          (insert-table timely)
    | inr (id, index) ↦
        let (found, f, owner, k) = c.named (r.caller, key) id index in
        rw
          (
            select_by_idempotency-table h s c r.caller key,
            find_task_route_bound key id found index f,
            index,
            f,
          )
          (begin_found-table id found key f k timely)
  ]

  begin_by_key-table :
      (o : Option TaskRouteIdempotencyKey)
      → IsTimely r
      → begin_by_key h (table s.by_id) r o
        ≡ on_table (find_by_key h s r o >>= (λ earlier. finish_begin s r earlier))
  unfolding begin_by_key find_by_key finish_begin
  begin_by_key-table none timely = insert-table timely
  begin_by_key-table (some key) timely = begin_bound-table key timely

  pub begin_or_existing-table :
      begin_or_existing h (table s.by_id) r ≡ on_table (Memory.begin_or_existing h s r)
  unfolding begin_or_existing Memory.begin_or_existing verify_prepared_for_begin
  begin_or_existing-table = elim (Result-cases (verify_prepared_for_begin h r)) [
    | inl (e, bad) ↦ ground (arith, bad)
    | inr (t, prepared) ↦
        let (verifies, _) = >>_ok (verify_route h r) _ prepared in
        let (timely, _, _, _) = verify_route_sound h r verifies in
        ground (arith, prepared, begin_by_key-table r.idempotency_key timely)
  ]
