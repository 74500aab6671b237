-- ===== src/Storage/Consistent.antt =====
-- When the three indexes of `MemoryTaskRoutes` agree, and that they do without a route.
use gaugemesh.Base.{
  ℕ, ◌≤◌, ◌≡◌, ◌≢◌, ◌↔◌, refl, ap, ◌∙◌, arith, Bool, true, false, Option, none, some, List, length,
  get_apart, Elem, IsAscending, ok, eq_self, ◌==◌, string_eq, nat_eq, pair_eq, get, remove,
  HasUniqueKeys, HasUniqueKeys-remove, get-remove_other, get-remove-some, length-remove_le,
  set_remove, Elem-set_remove, Elem-set_remove_other, IsAscending-set_remove, pair_ord, nat_ord,
  string_ord, Bool-cases, inl, inr,
}
use gaugemesh.Digest.{Hashing}
use gaugemesh.Task.{TaskRouteRecord, PublicTaskId, TaskRouteIdempotencyKey}
use gaugemesh.Task.Record.{verify_route}
use gaugemesh.Storage.{MemoryTaskRoutes, Scope, caller_eq, max_stored_task_routes, without_key}

abbrev pub eq_scope : Scope → Scope → Bool
eq_scope a b = a == b

pub eq_scope_iff : (a b : Scope) → (eq_scope a b ≡ true) ↔ (a ≡ b)
eq_scope_iff a b = pair_eq.same_iff a b

module _ (h : Hashing) where
  -- Every stored route verifies and stands under its identifier; its idempotency key and its expiry
  -- lead to it, and the other two indexes lead nowhere else.
  pub record IsConsistent (s : MemoryTaskRoutes) : Type 0 where
    pub stored :
        (id : PublicTaskId) (r : TaskRouteRecord)
        → get s.by_id id ≡ some r
        → (verify_route h r ≡ ok tt) × (r.public_task_id ≡ id)
    pub keyed :
        (id : PublicTaskId) (r : TaskRouteRecord) (key : TaskRouteIdempotencyKey)
        → get s.by_id id ≡ some r
        → r.idempotency_key ≡ some key
        → get s.by_idempotency (r.caller, key) ≡ some id
    pub named :
        (scope : Scope) (id : PublicTaskId)
        → get s.by_idempotency scope ≡ some id
        → (r : TaskRouteRecord) × (get s.by_id id ≡ some r)
          × (r.caller ≡ scope.0)
          × (r.idempotency_key ≡ some scope.1)
    pub expiring :
        (id : PublicTaskId) (r : TaskRouteRecord)
        → get s.by_id id ≡ some r
        → Elem (r.expires_at_unix_ms, id) s.by_expiry
    pub listed :
        (time : ℕ) (id : PublicTaskId)
        → Elem (time, id) s.by_expiry
        → (r : TaskRouteRecord) × (get s.by_id id ≡ some r) × (r.expires_at_unix_ms ≡ time)
    pub ascending : IsAscending (λ x. x) s.by_expiry
    pub unique : HasUniqueKeys s.by_id
    pub bounded : length s.by_id ≤ max_stored_task_routes

  same_value : {A : Type 0} (o : Option A) {a b : A} → o ≡ some a → o ≡ some b → a ≡ b
  same_value o p q = cc

  apart-expiry :
      (id j : PublicTaskId) (time later : ℕ)
      → (id == j) ≡ false
      → ◌≢◌ {A = ℕ × PublicTaskId} (later, j) (time, id)
  apart-expiry id j time later apart same =
      ground (arith, ap (λ (x : ℕ × PublicTaskId). x.1) same, eq_self id)

  module _ (s : MemoryTaskRoutes) (c : IsConsistent s) (id : PublicTaskId) (r : TaskRouteRecord)
      (found : get s.by_id id ≡ some r) where
    dropped-keyed :
        (o : Option TaskRouteIdempotencyKey)
        → r.idempotency_key ≡ o
        → (j : PublicTaskId) (q : TaskRouteRecord) (key : TaskRouteIdempotencyKey)
        → get (remove s.by_id id) j ≡ some q
        → q.idempotency_key ≡ some key
        → get (without_key s.by_idempotency r.caller o) (q.caller, key) ≡ some j
    dropped-keyed none e j q key f g =
        let (_, old) = get-remove-some s.by_id id j q f in c.keyed j q key old g
    dropped-keyed (some k) e j q key f g =
        let (apart, old) = get-remove-some s.by_id id j q f in
        let there = c.keyed j q key old g in
        let different =
          get_apart s.by_idempotency (r.caller, k) (q.caller, key) id j (c.keyed id r k found e)
            there apart in
        get-remove_other s.by_idempotency (r.caller, k) (q.caller, key) different ∙ there

    abbrev IsNamed : List (PublicTaskId × TaskRouteRecord) → Scope → PublicTaskId → Type 0
    IsNamed by_id scope j =
        (q : TaskRouteRecord) × (get by_id j ≡ some q)
        × (q.caller ≡ scope.0)
        × (q.idempotency_key ≡ some scope.1)

    dropped-IsNamed :
        (o : Option TaskRouteIdempotencyKey)
        → r.idempotency_key ≡ o
        → (scope : Scope) (j : PublicTaskId)
        → get (without_key s.by_idempotency r.caller o) scope ≡ some j
        → IsNamed (remove s.by_id id) scope j
    dropped-IsNamed none e scope j f =
        let (q, old, caller, key) = c.named scope j f in
        elim (Bool-cases (id == j)) [
          | inl same ↦
              let other : q ≡ r =
                same_value (get s.by_id id)
                  (ap (get s.by_id) ((string_eq.same_iff id j).0 same) ∙ old) found in
              cc
          | inr apart ↦ (q, get-remove_other s.by_id id j apart ∙ old, caller, key)
        ]
    dropped-IsNamed (some k) e scope j f =
        let (different, before) = get-remove-some s.by_idempotency (r.caller, k) scope j f in
        let (q, old, caller, key) = c.named scope j before in
        elim (Bool-cases (id == j)) [
          | inl same ↦
              let other : q ≡ r =
                same_value (get s.by_id id)
                  (ap (get s.by_id) ((string_eq.same_iff id j).0 same) ∙ old) found in
              let equal : ◌≡◌ {A = Scope} (r.caller, k) scope = cc (other, caller, key, e) in
              let matched : eq_scope (r.caller, k) scope ≡ true =
                (eq_scope_iff (r.caller, k) scope).1 equal in
              cc
          | inr apart ↦ (q, get-remove_other s.by_id id j apart ∙ old, caller, key)
        ]

    -- The state without a stored route
    abbrev pub dropped : MemoryTaskRoutes
    dropped = record {
      by_id = remove s.by_id id;
      by_idempotency = without_key s.by_idempotency r.caller r.idempotency_key;
      by_expiry = set_remove s.by_expiry (r.expires_at_unix_ms, id);
    }

    dropped-listed :
        (time : ℕ) (j : PublicTaskId)
        → Elem (time, j) (set_remove s.by_expiry (r.expires_at_unix_ms, id))
        → (q : TaskRouteRecord) × (get (remove s.by_id id) j ≡ some q)
          × (q.expires_at_unix_ms ≡ time)
    dropped-listed time j there =
        let (before, other) =
          Elem-set_remove s.by_expiry (r.expires_at_unix_ms, id) (time, j) c.ascending there in
        let (q, old, expires) = c.listed time j before in
        elim (Bool-cases (id == j)) [
          | inl same ↦
              let here = (string_eq.same_iff id j).0 same in
              let equal : q ≡ r = same_value (get s.by_id id) (ap (get s.by_id) here ∙ old) found in
              absurd (other (cc (equal, expires, here)))
          | inr apart ↦ (q, get-remove_other s.by_id id j apart ∙ old, expires)
        ]

    pub dropped-IsConsistent : IsConsistent dropped
    dropped-IsConsistent = record {
      stored = λ j q f. c.stored j q (get-remove-some s.by_id id j q f).1;
      keyed = dropped-keyed r.idempotency_key refl;
      named = dropped-IsNamed r.idempotency_key refl;
      expiring = λ j q f.
          let (apart, old) = get-remove-some s.by_id id j q f in
          Elem-set_remove_other s.by_expiry (r.expires_at_unix_ms, id) (q.expires_at_unix_ms, j)
            (apart-expiry id j r.expires_at_unix_ms q.expires_at_unix_ms apart)
            (c.expiring j q old);
      listed = dropped-listed;
      ascending = IsAscending-set_remove s.by_expiry (r.expires_at_unix_ms, id) c.ascending;
      unique = HasUniqueKeys-remove s.by_id id c.unique;
      bounded = omega (arith, c.bounded, length-remove_le s.by_id id);
    }
