-- ===== src/Storage/Adding.antt =====
-- The indexes of `MemoryTaskRoutes` after a new route, and after the next record of a route.
use gaugemesh.Base.{
  HasUniqueKeys-insert, ℕ, ◌<◌, ◌≡◌, refl, sym, ap, ◌∙◌, subst, arith, false, Option, none, some,
  length, Elem, ok, ◌==◌, string_eq, nat_eq, pair_eq, get, insert, get-insert_self,
  get-insert_other, get-insert-some, length-insert, length-insert_present, set_insert,
  Elem-set_insert, Elem-set_insert_self, Elem-set_insert_old, IsAscending-set_insert, pair_ord,
  nat_ord, string_ord, Bool-cases, inl, inr,
}
use gaugemesh.Digest.{Hashing}
use gaugemesh.Task.{TaskRouteRecord, PublicTaskId, TaskRouteIdempotencyKey}
use gaugemesh.Task.Record.{verify_route}
use gaugemesh.Storage.{
  MemoryTaskRoutes, Scope, caller_eq, max_stored_task_routes, with_route, with_key,
}
use gaugemesh.Storage.Consistent.{IsConsistent, eq_scope, eq_scope_iff}
use gaugemesh.Task.Record.Steps.{binding_of, Binding}

module _ (h : Hashing) where
  module _ (s : MemoryTaskRoutes) (c : IsConsistent h s) (r : TaskRouteRecord)
      (verifies : verify_route h r ≡ ok tt) (fresh : get s.by_id r.public_task_id ≡ none)
      (room : length s.by_id < max_stored_task_routes) where
    -- Another identifier than that of the new route
    is_apart :
        (j : PublicTaskId) (q : TaskRouteRecord)
        → get s.by_id j ≡ some q
        → (r.public_task_id == j) ≡ false
    is_apart j q old = elim (Bool-cases (r.public_task_id == j)) [
      | inl same ↦
          let clash : none ≡ some q =
            sym fresh ∙ ap (get s.by_id) ((string_eq.same_iff r.public_task_id j).0 same) ∙ old in
          cc
      | inr apart ↦ apart
    ]

    kept_route :
        (j : PublicTaskId) (q : TaskRouteRecord)
        → get s.by_id j ≡ some q
        → get (insert s.by_id r.public_task_id r) j ≡ some q
    kept_route j q old = get-insert_other s.by_id r.public_task_id j r (is_apart j q old) ∙ old

    added-keyed :
        (o : Option TaskRouteIdempotencyKey)
        → r.idempotency_key ≡ o
        → ((key : TaskRouteIdempotencyKey)
            → o ≡ some key
            → get s.by_idempotency (r.caller, key) ≡ none)
        → (j : PublicTaskId) (q : TaskRouteRecord) (key : TaskRouteIdempotencyKey)
        → get (insert s.by_id r.public_task_id r) j ≡ some q
        → q.idempotency_key ≡ some key
        → get (with_key s.by_idempotency r.caller o r.public_task_id) (q.caller, key) ≡ some j
    added-keyed none e unused j q key f g =
        elim (get-insert-some s.by_id r.public_task_id j r q f) [
          | inl (here, same) ↦ cc
          | inr (apart, old) ↦ c.keyed j q key old g
        ]
    added-keyed (some k) e unused j q key f g =
        elim (get-insert-some s.by_id r.public_task_id j r q f) [
          | inl (here, same) ↦
              let equal : k ≡ key = cc in
              cc (get-insert_self s.by_idempotency (r.caller, k) r.public_task_id)
          | inr (apart, old) ↦
              let there = c.keyed j q key old g in
              elim (Bool-cases (eq_scope (r.caller, k) (q.caller, key))) [
                | inl same ↦
                    let equal = (eq_scope_iff (r.caller, k) (q.caller, key)).0 same in
                    let clash : none ≡ some j =
                      sym (unused k refl) ∙ ap (get s.by_idempotency) equal ∙ there in
                    cc
                | inr different ↦
                    get-insert_other s.by_idempotency (r.caller, k) (q.caller, key) r.public_task_id
                      different
                    ∙ there
              ]
        ]

    added-IsNamed :
        (o : Option TaskRouteIdempotencyKey)
        → r.idempotency_key ≡ o
        → (scope : Scope) (j : PublicTaskId)
        → get (with_key s.by_idempotency r.caller o r.public_task_id) scope ≡ some j
        → (q : TaskRouteRecord) × (get (insert s.by_id r.public_task_id r) j ≡ some q)
          × (q.caller ≡ scope.0)
          × (q.idempotency_key ≡ some scope.1)
    added-IsNamed none e scope j f =
        let (q, old, caller, key) = c.named scope j f in (q, kept_route j q old, caller, key)
    added-IsNamed (some k) e scope j f =
        elim (get-insert-some s.by_idempotency (r.caller, k) scope r.public_task_id j f) [
          | inl (here, same) ↦ (
            r,
            subst (λ i. get (insert s.by_id r.public_task_id r) i ≡ some r) same
                (get-insert_self s.by_id r.public_task_id r),
            cc,
            cc,
          )
          | inr (different, before) ↦
              let (q, old, caller, key) = c.named scope j before in
              (q, kept_route j q old, caller, key)
        ]

    added-stored :
        (j : PublicTaskId) (q : TaskRouteRecord)
        → get (insert s.by_id r.public_task_id r) j ≡ some q
        → (verify_route h q ≡ ok tt) × (q.public_task_id ≡ j)
    added-stored j q f = elim (get-insert-some s.by_id r.public_task_id j r q f) [
      | inl (here, same) ↦ (subst (λ t. verify_route h t ≡ ok tt) same verifies, cc)
      | inr (apart, old) ↦ c.stored j q old
    ]

    added-expiring :
        (j : PublicTaskId) (q : TaskRouteRecord)
        → get (insert s.by_id r.public_task_id r) j ≡ some q
        → Elem
            (q.expires_at_unix_ms, j)
            (set_insert s.by_expiry (r.expires_at_unix_ms, r.public_task_id))
    added-expiring j q f = elim (get-insert-some s.by_id r.public_task_id j r q f) [
      | inl (here, same) ↦
          let entry : ◌≡◌ {A = ℕ × PublicTaskId} (r.expires_at_unix_ms, r.public_task_id)
              (q.expires_at_unix_ms, j) =
            cc in
          subst (λ x. Elem x (set_insert s.by_expiry (r.expires_at_unix_ms, r.public_task_id)))
            entry (Elem-set_insert_self s.by_expiry (r.expires_at_unix_ms, r.public_task_id))
      | inr (apart, old) ↦
          Elem-set_insert_old s.by_expiry (r.expires_at_unix_ms, r.public_task_id)
            (q.expires_at_unix_ms, j) (c.expiring j q old)
    ]

    added-listed :
        (time : ℕ) (j : PublicTaskId)
        → Elem (time, j) (set_insert s.by_expiry (r.expires_at_unix_ms, r.public_task_id))
        → (q : TaskRouteRecord) × (get (insert s.by_id r.public_task_id r) j ≡ some q)
          × (q.expires_at_unix_ms ≡ time)
    added-listed time j there =
        elim (Elem-set_insert s.by_expiry (r.expires_at_unix_ms, r.public_task_id) (time, j)
          there) [
            | inl same ↦ (
              r,
              subst (λ i. get (insert s.by_id r.public_task_id r) i ≡ some r)
                  (sym (ap (λ (x : ℕ × PublicTaskId). x.1) same))
                  (get-insert_self s.by_id r.public_task_id r),
              cc,
            )
            | inr before ↦
                let (q, old, expires) = c.listed time j before in (q, kept_route j q old, expires)
          ]

    -- A new route that verifies may be added where its identifier and its key are not in use.
    pub added-IsConsistent :
        ((key : TaskRouteIdempotencyKey)
          → r.idempotency_key ≡ some key
          → get s.by_idempotency (r.caller, key) ≡ none)
        → IsConsistent h (with_route s r)
    added-IsConsistent unused = record {
      stored = added-stored;
      keyed = added-keyed r.idempotency_key refl unused;
      named = added-IsNamed r.idempotency_key refl;
      expiring = added-expiring;
      listed = added-listed;
      ascending =
          IsAscending-set_insert s.by_expiry (r.expires_at_unix_ms, r.public_task_id) c.ascending;
      unique = HasUniqueKeys-insert s.by_id r.public_task_id r c.unique;
      bounded = omega (arith, room, length-insert s.by_id r.public_task_id r);
    }

  -- The record of a route with the same binding may take its place.
  module _ (s : MemoryTaskRoutes) (c : IsConsistent h s) (id : PublicTaskId)
      (before after : TaskRouteRecord) (found : get s.by_id id ≡ some before)
      (verifies : verify_route h after ≡ ok tt) (bound : binding_of after ≡ binding_of before) where
    next_route :
        (j : PublicTaskId) (q : TaskRouteRecord)
        → get (insert s.by_id id after) j ≡ some q
        → (old : TaskRouteRecord) × (get s.by_id j ≡ some old)
          × (binding_of q ≡ binding_of old)
          × (verify_route h q ≡ ok tt)
    next_route j q f = elim (get-insert-some s.by_id id j after q f) [
      | inl (here, same) ↦ (
        before,
        ap (get s.by_id) (sym here) ∙ found,
        ap binding_of (sym same) ∙ bound,
        subst (λ t. verify_route h t ≡ ok tt) same verifies,
      )
      | inr (apart, old) ↦ (q, old, refl, (c.stored j q old).0)
    ]

    after_route :
        (j : PublicTaskId) (old : TaskRouteRecord)
        → get s.by_id j ≡ some old
        → (q : TaskRouteRecord) × (get (insert s.by_id id after) j ≡ some q)
          × (binding_of q ≡ binding_of old)
    after_route j old f = elim (Bool-cases (id == j)) [
      | inl same ↦
          let here = (string_eq.same_iff id j).0 same in
          let equal : before ≡ old = cc (found, f, here) in
          (
            after,
            subst (λ i. get (insert s.by_id id after) i ≡ some after) here
                (get-insert_self s.by_id id after),
            bound ∙ ap binding_of equal,
          )
      | inr apart ↦ (old, get-insert_other s.by_id id j after apart ∙ f, refl)
    ]

    pub replaced-IsConsistent : IsConsistent h (record s { by_id = insert s.by_id id after })
    replaced-IsConsistent = record {
      stored =
          λ j q f. let (old, g, same, v) = next_route j q f in (v, cc (same, (c.stored j old g).1));
      keyed = λ j q key f g.
          let (old, before, same, _) = next_route j q f in
          let key_before : old.idempotency_key ≡ some key = cc (same, g) in
          cc (same, c.keyed j old key before key_before);
      named = λ scope j f.
          let (old, g, caller, key) = c.named scope j f in
          let (q, now, same) = after_route j old g in (q, now, cc (same, caller), cc (same, key));
      expiring = λ j q f.
          let (old, g, same, _) = next_route j q f in
          subst (λ t. Elem (t, j) s.by_expiry)
            (ap (λ (b : Binding). b.1.1.1.1.1.1.1.1.1) (sym same)) (c.expiring j old g);
      listed = λ time j there.
          let (old, g, expires) = c.listed time j there in
          let (q, now, same) = after_route j old g in (q, now, cc (same, expires));
      ascending = c.ascending;
      unique = HasUniqueKeys-insert s.by_id id after c.unique;
      bounded = omega (arith, c.bounded, length-insert_present s.by_id id after before found);
    }
