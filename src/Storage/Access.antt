-- ===== src/Storage/Access.antt =====
-- Who reads and who moves a stored route: `find_task_route`, `get_task_route` and
-- `compare_and_set_task_route` of storage.rs.
use gaugemesh.Base.{
  ℕ, ◌+◌, ◌≡◌, ◌≢◌, ◌⊎◌, sym, ap, ◌∙◌, subst, arith, Option, none, some, ok, err, >>_ok, >>=_ok,
  reject_if_ok, ok_pair, ◌==◌, ◌!=◌, string_eq, nat_eq, pair_eq, get, insert, get-insert_self,
  Option-cases, Bool-cases, inl, inr,
}
use gaugemesh.Digest.{Hashing}
use gaugemesh.Task.{
  TaskRouteCaller, TaskRouteRecord, TaskRouteUpdate, PublicTaskId, TaskRouteIdempotencyKey,
}
use gaugemesh.Task.Record.{verify_route, transition}
use gaugemesh.Task.Record.Steps.{transition-IsStep, Binding}
use gaugemesh.Storage.{
  MemoryTaskRoutes, caller_eq, caller_beq_iff, verified, find_task_route, get_task_route,
  set_current, compare_and_set_task_route, from_task_route, stale_transition,
}
use gaugemesh.Storage.Consistent.{IsConsistent}
use gaugemesh.Storage.Adding.{replaced-IsConsistent}
use gaugemesh.Storage.Beginning.{from_task_route_ok}
use gaugemesh.Storage.Repeats.{from_task_route_pass}

module _ (h : Hashing) (s : MemoryTaskRoutes) where
  -- To a caller that does not own the route, a route looks like one that is not there: it is
  -- neither read nor moved, whatever the version and the update.
  pub other_caller :
      (caller : TaskRouteCaller) (id : PublicTaskId) (r : TaskRouteRecord) (expected : ℕ)
      (update : TaskRouteUpdate)
      → get s.by_id id ≡ some r
      → r.caller ≢ caller
      → (get_task_route h s caller id ≡ ok none)
        × (compare_and_set_task_route h s caller id expected update ≡ ok (none, s))
  unfolding get_task_route compare_and_set_task_route
  other_caller caller id r expected update f apart = (
    ground (arith, f, apart, caller_beq_iff r.caller caller),
    ground (arith, f, apart, caller_beq_iff r.caller caller),
  )

  -- A search by key finds a stored route of the caller and the key, or there is none.
  abbrev pub Finds : TaskRouteCaller → TaskRouteIdempotencyKey → Type 0
  Finds caller key =
      ((find_task_route h s caller key ≡ ok none)
        × ((id : PublicTaskId) (r : TaskRouteRecord)
            → get s.by_id id ≡ some r
            → r.caller ≡ caller
            → r.idempotency_key ≢ some key))
      ⊎ ((id : PublicTaskId) × (r : TaskRouteRecord) × (find_task_route h s caller key
            ≡ ok (some r))
          × (get s.by_id id ≡ some r)
          × (r.caller ≡ caller)
          × (r.idempotency_key ≡ some key))

  module _ (c : IsConsistent h s) where
    verified_stored :
        (id : PublicTaskId) (r : TaskRouteRecord)
        → get s.by_id id ≡ some r
        → verified h (some r) ≡ ok (some r)
    verified_stored id r f =
        ground (arith, from_task_route_pass (verify_route h r) (c.stored id r f).0)

    -- The owner of a stored route reads it.
    pub get_task_route-owner :
        (id : PublicTaskId) (r : TaskRouteRecord)
        → get s.by_id id ≡ some r
        → get_task_route h s r.caller id ≡ ok (some r)
    unfolding get_task_route
    get_task_route-owner id r f =
        ground (arith, f, caller_beq_iff r.caller r.caller, verified_stored id r f)

    -- In a store whose indexes agree a search by key finds a stored route of that caller and key, or
    -- finds nothing and there is no such route.
    pub find_task_route_lem :
        (caller : TaskRouteCaller) (key : TaskRouteIdempotencyKey) → Finds caller key
    unfolding find_task_route
    find_task_route_lem caller key = elim (Option-cases (get s.by_idempotency (caller, key))) [
      | inl unused ↦ inl (
        ground (arith, unused),
        λ id r f same k.
            let there = c.keyed id r key f k in
            let clash : none ≡ some id = cc (unused, there, same) in cc,
      )
      | inr (id, p) ↦
          let (r, f, same, k) = c.named (caller, key) id p in
          inr (id, r, ground (arith, p, f, verified_stored id r f), f, same, k)
    ]

  -- A compare-and-set that succeeds on a route
  abbrev pub IsUpdated :
      TaskRouteCaller
      → PublicTaskId
      → ℕ
      → TaskRouteUpdate
      → TaskRouteRecord
      → MemoryTaskRoutes
      → Type 0
  IsUpdated caller id expected update next t =
      (current : TaskRouteRecord) × (get s.by_id id ≡ some current)
      × (current.caller ≡ caller)
      × (current.transition_version ≡ expected)
      × (transition h current update ≡ ok next)
      × (t ≡ record s { by_id = insert s.by_id id next })

  set_current-IsUpdated :
      (caller : TaskRouteCaller) (id : PublicTaskId) (expected : ℕ) (update : TaskRouteUpdate)
      (current next : TaskRouteRecord) (t : MemoryTaskRoutes)
      → get s.by_id id ≡ some current
      → current.caller ≡ caller
      → set_current h s id expected update current ≡ ok (some next, t)
      → IsUpdated caller id expected update next t
  unfolding set_current
  set_current-IsUpdated caller id expected update current next t f owner e =
      let (_, e1) = >>_ok (from_task_route (verify_route h current)) _ e in
      let (version, e2) = reject_if_ok (current.transition_version != expected) _ _ e1 in
      let (moved, m, e3) = >>=_ok (from_task_route (transition h current update)) _ e2 in
      let (same, after) =
        ok_pair (some moved) (some next) (record s { by_id = insert s.by_id id moved }) t e3 in
      let equal : moved ≡ next = cc in
      (
        current,
        f,
        owner,
        ground (arith, version),
        from_task_route_ok (transition h current update) m ∙ ap (λ q. ok q) equal,
        after ∙ ap (λ q. record s { by_id = insert s.by_id id q }) equal,
      )

  pub compare_and_set-IsUpdated :
      (caller : TaskRouteCaller) (id : PublicTaskId) (expected : ℕ) (update : TaskRouteUpdate)
      (next : TaskRouteRecord) (t : MemoryTaskRoutes)
      → compare_and_set_task_route h s caller id expected update ≡ ok (some next, t)
      → IsUpdated caller id expected update next t
  unfolding compare_and_set_task_route
  compare_and_set-IsUpdated caller id expected update next t e =
      elim (Option-cases (get s.by_id id)) [
        | inl missing ↦ ground (arith, missing)
        | inr (current, f) ↦ elim (Bool-cases (current.caller == caller)) [
          | inl owner ↦
              set_current-IsUpdated caller id expected update current next t f
                ((caller_beq_iff current.caller caller).0 owner) (ground (arith, f, owner))
          | inr other ↦ ground (arith, f, other)
        ]
      ]

  none_kept :
      (caller : TaskRouteCaller) (id : PublicTaskId) (expected : ℕ) (update : TaskRouteUpdate)
      (t : MemoryTaskRoutes)
      → compare_and_set_task_route h s caller id expected update ≡ ok (none, t)
      → t ≡ s
  unfolding compare_and_set_task_route set_current
  none_kept caller id expected update t e = elim (Option-cases (get s.by_id id)) [
    | inl missing ↦ ground (arith, missing)
    | inr (current, f) ↦ elim (Bool-cases (current.caller == caller)) [
      | inl owner ↦
          let run : set_current h s id expected update current ≡ ok (none, t) =
            ground (arith, f, owner) in
          let (_, e1) = >>_ok (from_task_route (verify_route h current)) _ run in
          let (_, e2) = reject_if_ok (current.transition_version != expected) _ _ e1 in
          let (moved, _, e3) = >>=_ok (from_task_route (transition h current update)) _ e2 in
          let (bad, _) =
            ok_pair (some moved) none (record s { by_id = insert s.by_id id moved }) t e3 in
          cc
      | inr other ↦ ground (arith, f, other)
    ]
  ]

  pub compare_and_set-IsConsistent :
      (caller : TaskRouteCaller) (id : PublicTaskId) (expected : ℕ) (update : TaskRouteUpdate)
      (result : Option TaskRouteRecord) (t : MemoryTaskRoutes)
      → IsConsistent h s
      → compare_and_set_task_route h s caller id expected update ≡ ok (result, t)
      → IsConsistent h t
  compare_and_set-IsConsistent caller id expected update none t c e =
      rw (none_kept caller id expected update t e) c
  compare_and_set-IsConsistent caller id expected update (some next) t c e =
      let (current, f, _, _, m, after) =
        compare_and_set-IsUpdated caller id expected update next t e in
      let (verifies, (_, _, _, _, _, bound)) = transition-IsStep h current update next m in
      subst (IsConsistent h) (sym after)
        (replaced-IsConsistent h s c id current next f verifies bound)

  -- Of two writers that read the same version of a route one wins: once the first has moved the
  -- route, its version is the next one, and the other writer is told that its version is stale, whatever it would do.
  pub compare_and_set_race :
      (caller : TaskRouteCaller) (id : PublicTaskId) (expected : ℕ) (update other : TaskRouteUpdate)
      (next : TaskRouteRecord) (t : MemoryTaskRoutes)
      → compare_and_set_task_route h s caller id expected update ≡ ok (some next, t)
      → (get t.by_id id ≡ some next)
        × (next.transition_version ≡ expected + 1)
        × (compare_and_set_task_route h t caller id expected other ≡ err stale_transition)
  unfolding compare_and_set_task_route set_current
  compare_and_set_race caller id expected update other next t e =
      let (current, f, owner, version, m, after) =
        compare_and_set-IsUpdated caller id expected update next t e in
      let (verifies, (_, _, _, newer, _, bound)) = transition-IsStep h current update next m in
      let there : get t.by_id id ≡ some next = rw after (get-insert_self s.by_id id next) in
      let mine : next.caller ≡ caller = ap (λ (b : Binding). b.1.0) bound ∙ owner in
      let bumped : next.transition_version ≡ expected + 1 = omega (arith, version, newer) in
      (
        there,
        bumped,
        ground (
          arith,
          there,
          caller_beq_iff next.caller caller,
          mine,
          from_task_route_pass (verify_route h next) verifies,
          bumped,
        ),
      )
