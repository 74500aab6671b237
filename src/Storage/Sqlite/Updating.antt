-- ===== src/Storage/Sqlite/Updating.antt =====
-- `compare_and_set_task_route` of `SqliteStorage` beside that of `MemoryStorage`.
use gaugemesh.Base.{
  ℕ, ◌≡◌, refl, ap, ◌∙◌, subst, arith, false, Option, none, some, ◌∷◌, [], All, map, Result, ok,
  ◌>>=◌, Result-cases, ◌==◌, ◌!=◌, string_eq, nat_eq, pair_eq, option_eq, eq_self, get, insert,
  HasUniqueKeys, HasUniqueKeys-All, Option-cases, Bool-cases, inl, inr,
}
use gaugemesh.Digest.{Hashing}
use gaugemesh.Task.{TaskRouteCaller, TaskRouteRecord, TaskRouteUpdate, PublicTaskId}
use gaugemesh.Task.Record.{verify_route, transition}
use gaugemesh.Task.Record.Sound.{verify_route_sound}
use gaugemesh.Task.Record.Steps.{transition-IsStep, transition_record, Binding}
use gaugemesh.Storage.{
  MemoryTaskRoutes, TaskRouteStorageError, caller_eq, caller_beq_iff, set_current, from_task_route,
  task_route, stale_transition,
}
use gaugemesh.Storage.Repeats.{from_task_route_pass}
use gaugemesh.Storage.Consistent.{IsConsistent}
use gaugemesh.Storage.Sqlite.{
  route_row, matches_version, updated, update_route, update_current, compare_and_set_task_route,
}
use gaugemesh.Storage.Sqlite.Table.{Routes, table, IsOf, deleted_rows-table}
use gaugemesh.Storage.Sqlite.Reading.{select_by_public_id-table}
use gaugemesh.Storage.Sqlite.Beginning.{on_table, to_sqlite_integer_fits}
use gaugemesh.Storage as Memory

module _ (next : TaskRouteRecord) (expected : ℕ) (id : PublicTaskId) where
  update-table-none :
      (m : Routes)
      → All (IsOf (matches_version next expected) id) m
      → get m id ≡ none
      → map (update_route next expected) (table m) ≡ table m
  update-table-none [] h f = refl
  update-table-none ((i, q) ∷ m) h f = elim (Bool-cases (i == id)) [
    | inl same ↦ ground (arith, same)
    | inr apart ↦
        rw (h.0, apart)
          (ap (λ rows. route_row q ∷ rows) (update-table-none m h.1 (ground (arith, apart))))
  ]

  update-table :
      (m : Routes) (current : TaskRouteRecord)
      → HasUniqueKeys m
      → All (IsOf (matches_version next expected) id) m
      → get m id ≡ some current
      → updated next (route_row current) ≡ route_row next
      → map (update_route next expected) (table m) ≡ table (insert m id next)
  update-table [] current u h f same_row = cc
  update-table ((i, q) ∷ m) current u h f same_row = elim (Bool-cases (i == id)) [
    | inl same ↦
        let gone : get m id ≡ none =
          subst (λ j. get m j ≡ none) ((string_eq.same_iff i id).0 same) u.0 in
        let equal : q ≡ current = ground (arith, same) in
        let row : updated next (route_row q) ≡ route_row next =
          ap (λ x. updated next (route_row x)) equal ∙ same_row in
        rw (h.0, same, row) (ap (λ rows. route_row next ∷ rows) (update-table-none m h.1 gone))
    | inr apart ↦
        rw (h.0, apart)
          (ap (λ rows. route_row q ∷ rows)
            (update-table m current u.1 h.1 (ground (arith, apart)) same_row))
  ]

module _ (h : Hashing) where
  updated-route_row :
      (current next : TaskRouteRecord) (update : TaskRouteUpdate)
      → transition h current update ≡ ok next
      → updated next (route_row current) ≡ route_row next
  updated-route_row current next update m =
      let (upstream, version, d, made) = transition_record h current update next m in
      subst (λ x. updated x (route_row current) ≡ route_row x) made refl

  module _ (s : MemoryTaskRoutes) (c : IsConsistent h s) (id : PublicTaskId) (expected : ℕ)
      (update : TaskRouteUpdate) (current : TaskRouteRecord) (f : get s.by_id id ≡ some current)
      (same_version : current.transition_version ≡ expected) where
    current_row :
        (next : TaskRouteRecord)
        → transition h current update ≡ ok next
        → All (IsOf (matches_version next expected) id) s.by_id
    current_row next m =
        let (_, (_, _, _, _, _, bound)) = transition-IsStep h current update next m in
        let by_id : next.public_task_id ≡ id =
          ap (λ (b : Binding). b.0) bound ∙ (c.stored id current f).1 in
        let by_caller : next.caller ≡ current.caller = ap (λ (b : Binding). b.1.0) bound in
        HasUniqueKeys-All (IsOf (matches_version next expected) id) s.by_id c.unique (λ j q g.
          elim (Bool-cases (j == id)) [
            | inl same ↦
                let one : get s.by_id id ≡ some q =
                  subst (λ x. get s.by_id x ≡ some q) ((string_eq.same_iff j id).0 same) g in
                let equal : q ≡ current = cc in
                ground (
                  arith,
                  same,
                  equal,
                  by_id,
                  by_caller,
                  same_version,
                  (c.stored id current f).1,
                  eq_self id,
                  eq_self current.caller.principal,
                  eq_self current.caller.tenant,
                  eq_self expected,
                )
            | inr apart ↦ ground (arith, apart, by_id, (c.stored j q g).1)
          ])

    update_current-moved :
        (next : TaskRouteRecord)
        → transition h current update ≡ ok next
        → update_current h (table s.by_id) expected update (some current)
          ≡ ok (some next, table (insert s.by_id id next))
    unfolding update_current
    update_current-moved next m =
        let (verifies, _) = transition-IsStep h current update next m in
        let (timely, _, _, _) = verify_route_sound h next verifies in
        let (before, _, _, _) = verify_route_sound h current (c.stored id current f).0 in
        let rows = current_row next m in
        let test : (current.transition_version != expected) ≡ false =
          ground (arith, same_version, eq_self expected) in
        rw
          (
            test,
            m,
            to_sqlite_integer_fits next.updated_at_unix_ms (omega (arith, timely)),
            to_sqlite_integer_fits next.transition_version (omega (arith, timely)),
            to_sqlite_integer_fits expected (omega (arith, before, same_version)),
            deleted_rows-table (matches_version next expected) id s.by_id current c.unique rows f,
            update-table next expected id s.by_id current c.unique rows f
                (updated-route_row current next update m),
          )
          refl

  module _ (s : MemoryTaskRoutes) (c : IsConsistent h s) where
    update_current-table :
        (id : PublicTaskId) (expected : ℕ) (update : TaskRouteUpdate) (current : TaskRouteRecord)
        → get s.by_id id ≡ some current
        → update_current h (table s.by_id) expected update (some current)
          ≡ on_table (set_current h s id expected update current)
    unfolding update_current set_current
    update_current-table id expected update current f =
        let verifies = from_task_route_pass (verify_route h current) (c.stored id current f).0 in
        elim (Bool-cases (current.transition_version != expected)) [
          | inl stale ↦ ground (arith, stale, verifies)
          | inr same ↦ elim (Result-cases (transition h current update)) [
            | inl (e, bad) ↦ ground (arith, same, verifies, bad)
            | inr (next, m) ↦
                update_current-moved s c id expected update current f (ground (arith, same)) next m
                ∙ ground (arith, same, verifies, m)
          ]
        ]

    moved-table :
        (caller : TaskRouteCaller) (id : PublicTaskId) (expected : ℕ) (update : TaskRouteUpdate)
        → (Memory.get_task_route h s caller id
            >>= (λ o. update_current h (table s.by_id) expected update o))
          ≡ on_table (Memory.compare_and_set_task_route h s caller id expected update)
    unfolding Memory.compare_and_set_task_route Memory.get_task_route update_current
    moved-table caller id expected update = elim (Option-cases (get s.by_id id)) [
      | inl missing ↦ ground (arith, missing)
      | inr (current, f) ↦ elim (Bool-cases (current.caller == caller)) [
        | inl owner ↦ ground (
          arith,
          f,
          owner,
          from_task_route_pass (verify_route h current) (c.stored id current f).0,
          update_current-table id expected update current f,
        )
        | inr other ↦ ground (arith, f, other)
      ]
    ]

    pub compare_and_set_task_route-table :
        (caller : TaskRouteCaller) (id : PublicTaskId) (expected : ℕ) (update : TaskRouteUpdate)
        → compare_and_set_task_route h (table s.by_id) caller id expected update
          ≡ on_table (Memory.compare_and_set_task_route h s caller id expected update)
    unfolding compare_and_set_task_route Memory.compare_and_set_task_route Memory.get_task_route
    compare_and_set_task_route-table caller id expected update =
        ap
          (λ (found : Result TaskRouteStorageError (Option TaskRouteRecord)).
            found >>= (λ o. update_current h (table s.by_id) expected update o))
          (select_by_public_id-table h s c caller id)
        ∙ moved-table caller id expected update
