-- ===== src/Storage.antt =====
-- `MemoryStorage` of crates/gaugemesh-core/src/storage.rs. No lock is poisoned, since no holder
-- panics; the errors of SQLite and of parsing belong to the other store.
pub mod Consistent
pub mod Adding
pub mod Beginning
pub mod Repeats
pub mod Access
pub mod Purging
pub mod Runs
pub mod Sqlite
mod Tests
use gaugemesh.Base.{
  ℕ, ◌-◌, ◌≡◌, ◌↔◌, String, Bool, true, false, not, ◌&&◌, ◌||◌, Option, none, some, List, [], ◌∷◌,
  arith, if◌then◌else◌, leb, min, length, Result, ok, err, ◌>>=◌, ◌>>◌, reject_if, Eq, ◌==◌, ◌!=◌,
  string_eq, nat_eq, pair_eq, get, insert, remove, count_values, take, take_while, set_insert,
  set_remove, pair_ord, nat_ord, string_ord, eqb,
}
use text.Mathlib.TextEquality.{eq_iff}
use gaugemesh.Digest.{Hashing}
use gaugemesh.Lease.{CapabilityLease}
use gaugemesh.Task.{
  TaskRouteCaller, TaskRouteRecord, TaskRouteUpdate, TaskRouteError, PublicTaskId,
  TaskRouteIdempotencyKey,
}
use gaugemesh.Task.Shape.{is_some}
use gaugemesh.Task.Record.{verify_route, verify_prepared_for_begin, transition, is_expired}

abbrev pub max_task_route_purge_records_per_call : ℕ
max_task_route_purge_records_per_call = 10000

abbrev pub max_stored_task_routes : ℕ
max_stored_task_routes = 4096

abbrev pub max_active_task_routes_per_caller : ℕ
max_active_task_routes_per_caller = 256

abbrev pub caller_beq : TaskRouteCaller → TaskRouteCaller → Bool
caller_beq a b = a.principal == b.principal && a.tenant == b.tenant

pub caller_beq_iff : (a b : TaskRouteCaller) → (caller_beq a b ≡ true) ↔ (a ≡ b)
caller_beq_iff a b = ground (arith, eq_iff a.principal b.principal, eq_iff a.tenant b.tenant)

instance abbrev pub caller_eq : Eq TaskRouteCaller
caller_eq = record { same = caller_beq; same_iff = caller_beq_iff }

pub data TaskRouteStorageError : Type 0 where
  task_route : TaskRouteError → TaskRouteStorageError
  task_route_integrity idempotency_conflict public_task_id_collision task_route_capacity
        stale_transition :
      TaskRouteStorageError

pub data BeginTaskRouteResult : Type 0 where
  inserted existing : TaskRouteRecord → BeginTaskRouteResult

abbrev pub Scope : Type 0
Scope = TaskRouteCaller × TaskRouteIdempotencyKey

pub record MemoryTaskRoutes : Type 0 where
  pub by_id : List (PublicTaskId × TaskRouteRecord)
  pub by_idempotency : List (Scope × PublicTaskId)
  pub by_expiry : List (ℕ × PublicTaskId)

-- `LeaseStorage`
unfoldable pub put_lease :
    List (String × CapabilityLease) → CapabilityLease → List (String × CapabilityLease)
put_lease leases lease = insert leases lease.id lease

unfoldable pub get_lease : List (String × CapabilityLease) → String → Option CapabilityLease
get_lease leases id = get leases id

unfoldable pub remove_lease :
    List (String × CapabilityLease) → String → List (String × CapabilityLease)
remove_lease leases id = remove leases id

-- The `From` of `?`
abbrev pub from_task_route {ℓ} :
    {T : Type ℓ} → Result TaskRouteError T → Result TaskRouteStorageError T
from_task_route (err e) = err (task_route e)
from_task_route (ok t) = ok t

-- What `begin_or_existing` finds under the idempotency key: a route that is returned, or the
-- binding of an expired one, if there is any.
pub data Earlier : Type 0 where
  returned : TaskRouteRecord → Earlier
  replaced : Option (Scope × PublicTaskId) → Earlier

abbrev pub without_expired : MemoryTaskRoutes → Option (Scope × PublicTaskId) → MemoryTaskRoutes
without_expired routes none = routes
without_expired routes (some (scope, id)) = record {
  by_id = remove routes.by_id id;
  by_idempotency = remove routes.by_idempotency scope;
  by_expiry = elim (get routes.by_id id) [
    | none ↦ routes.by_expiry
    | some expired ↦
        set_remove routes.by_expiry (expired.expires_at_unix_ms, expired.public_task_id)
  ];
}

-- The index of idempotency keys, with the key of a route and without it
abbrev pub with_key :
    List (Scope × PublicTaskId)
    → TaskRouteCaller
    → Option TaskRouteIdempotencyKey
    → PublicTaskId
    → List (Scope × PublicTaskId)
with_key index caller none id = index
with_key index caller (some key) id = insert index (caller, key) id

abbrev pub without_key :
    List (Scope × PublicTaskId)
    → TaskRouteCaller
    → Option TaskRouteIdempotencyKey
    → List (Scope × PublicTaskId)
without_key index caller none = index
without_key index caller (some key) = remove index (caller, key)

abbrev pub with_route : MemoryTaskRoutes → TaskRouteRecord → MemoryTaskRoutes
with_route routes r = record {
  by_id = insert routes.by_id r.public_task_id r;
  by_idempotency = with_key routes.by_idempotency r.caller r.idempotency_key r.public_task_id;
  by_expiry = set_insert routes.by_expiry (r.expires_at_unix_ms, r.public_task_id);
}

-- `is_some_and(|(_, existing_id)| existing_id == id)`
abbrev pub is_of : Option (Scope × PublicTaskId) → PublicTaskId → Bool
is_of none id = false
is_of (some (scope, existing_id)) id = existing_id == id

abbrev pub is_active_for : TaskRouteRecord → TaskRouteRecord → Bool
is_active_for r other = other.caller == r.caller && not (is_expired other r.created_at_unix_ms)

unfoldable pub insert_prepared :
    MemoryTaskRoutes
    → TaskRouteRecord
    → Option (Scope × PublicTaskId)
    → Result TaskRouteStorageError (BeginTaskRouteResult × MemoryTaskRoutes)
insert_prepared routes r expired = do
  reject_if (is_some (get routes.by_id r.public_task_id) && not (is_of expired r.public_task_id))
      public_task_id_collision
  reject_if
      (leb max_stored_task_routes (length routes.by_id - (if is_some expired then 1 else 0))
        || leb max_active_task_routes_per_caller (count_values (is_active_for r) routes.by_id))
      task_route_capacity
  ok (inserted r, with_route (without_expired routes expired) r)

unfoldable pub finish_begin :
    MemoryTaskRoutes
    → TaskRouteRecord
    → Earlier
    → Result TaskRouteStorageError (BeginTaskRouteResult × MemoryTaskRoutes)
unfolding insert_prepared
finish_begin routes r (returned found) = ok (existing found, routes)
finish_begin routes r (replaced expired) = insert_prepared routes r expired

module _ (h : Hashing) where
  abbrev pub verified :
      Option TaskRouteRecord → Result TaskRouteStorageError (Option TaskRouteRecord)
  verified none = ok none
  verified (some r) = do from_task_route (verify_route h r); ok (some r)

  unfoldable pub find_task_route :
      MemoryTaskRoutes
      → TaskRouteCaller
      → TaskRouteIdempotencyKey
      → Result TaskRouteStorageError (Option TaskRouteRecord)
  find_task_route routes caller key = verified (elim (get routes.by_idempotency (caller, key)) [
    | none ↦ none
    | some id ↦ get routes.by_id id
  ])

  unfoldable pub find_earlier :
      MemoryTaskRoutes
      → TaskRouteRecord
      → Scope
      → PublicTaskId
      → Option TaskRouteRecord
      → Result TaskRouteStorageError Earlier
  find_earlier routes r scope id none = err task_route_integrity
  find_earlier routes r scope id (some found) = do
    from_task_route (verify_route h found)
    if is_expired found r.created_at_unix_ms
        then ok (replaced (some (scope, id)))
        else if found.request_digest != r.request_digest
        then err idempotency_conflict
        else ok (returned found)

  unfoldable pub find_bound :
      MemoryTaskRoutes
      → TaskRouteRecord
      → Scope
      → Option PublicTaskId
      → Result TaskRouteStorageError Earlier
  unfolding find_earlier
  find_bound routes r scope none = ok (replaced none)
  find_bound routes r scope (some id) = find_earlier routes r scope id (get routes.by_id id)

  unfoldable pub find_by_key :
      MemoryTaskRoutes
      → TaskRouteRecord
      → Option TaskRouteIdempotencyKey
      → Result TaskRouteStorageError Earlier
  unfolding find_bound
  find_by_key routes r none = ok (replaced none)
  find_by_key routes r (some key) =
      find_bound routes r (r.caller, key) (get routes.by_idempotency (r.caller, key))

  unfoldable pub begin_or_existing :
      MemoryTaskRoutes
      → TaskRouteRecord
      → Result TaskRouteStorageError (BeginTaskRouteResult × MemoryTaskRoutes)
  unfolding find_by_key finish_begin
  begin_or_existing routes r = do
    from_task_route (verify_prepared_for_begin h r)
    earlier ← find_by_key routes r r.idempotency_key
    finish_begin routes r earlier

  unfoldable pub get_task_route :
      MemoryTaskRoutes
      → TaskRouteCaller
      → PublicTaskId
      → Result TaskRouteStorageError (Option TaskRouteRecord)
  get_task_route routes caller id = elim (get routes.by_id id) [
    | none ↦ ok none
    | some r ↦ if r.caller != caller then ok none else verified (some r)
  ]

  unfoldable pub set_current :
      MemoryTaskRoutes
      → PublicTaskId
      → ℕ
      → TaskRouteUpdate
      → TaskRouteRecord
      → Result TaskRouteStorageError (Option TaskRouteRecord × MemoryTaskRoutes)
  set_current routes id expected update current = do
    from_task_route (verify_route h current)
    reject_if (current.transition_version != expected) stale_transition
    next ← from_task_route (transition h current update)
    ok (some next, record routes { by_id = insert routes.by_id id next })

  unfoldable pub compare_and_set_task_route :
      MemoryTaskRoutes
      → TaskRouteCaller
      → PublicTaskId
      → ℕ
      → TaskRouteUpdate
      → Result TaskRouteStorageError (Option TaskRouteRecord × MemoryTaskRoutes)
  unfolding set_current
  compare_and_set_task_route routes caller id expected update = elim (get routes.by_id id) [
    | none ↦ ok (none, routes)
    | some current ↦
        if current.caller != caller
        then ok (none, routes)
        else set_current routes id expected update current
  ]

-- One round of the loop of `purge_expired_task_routes`
unfoldable pub purge_one : MemoryTaskRoutes → ℕ × PublicTaskId → MemoryTaskRoutes
purge_one routes entry = record {
  by_id = remove routes.by_id entry.1;
  by_idempotency = elim (get routes.by_id entry.1) [
    | none ↦ routes.by_idempotency
    | some r ↦ without_key routes.by_idempotency r.caller r.idempotency_key
  ];
  by_expiry = set_remove routes.by_expiry entry;
}

unfoldable pub purge_all : MemoryTaskRoutes → List (ℕ × PublicTaskId) → MemoryTaskRoutes
purge_all routes [] = routes
purge_all routes (entry ∷ rest) = purge_all (purge_one routes entry) rest

unfoldable pub bounded_task_route_purge_limit : ℕ → ℕ
bounded_task_route_purge_limit max_records = min max_records max_task_route_purge_records_per_call

abbrev pub expired_at : ℕ → ℕ × PublicTaskId → Bool
expired_at now entry = leb entry.0 now

unfoldable pub purge_expired_task_routes : MemoryTaskRoutes → ℕ → ℕ → ℕ × MemoryTaskRoutes
unfolding bounded_task_route_purge_limit
purge_expired_task_routes routes now max_records =
    let limit = bounded_task_route_purge_limit max_records in
    if eqb limit 0
    then (0, routes)
    else (let expired = take limit (take_while (expired_at now) routes.by_expiry) in
        (length expired, purge_all routes expired))
