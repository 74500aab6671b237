-- ===== src/Storage/Runs.antt =====
-- The stores that calls of `MemoryStorage` of storage.rs reach.
use gaugemesh.Base.{ℕ, ◌≡◌, Option, [], ok, arith}
use gaugemesh.Digest.{Hashing}
use gaugemesh.Task.{TaskRouteCaller, TaskRouteRecord, TaskRouteUpdate, PublicTaskId}
use gaugemesh.Storage.{
  MemoryTaskRoutes, BeginTaskRouteResult, begin_or_existing, compare_and_set_task_route,
  purge_expired_task_routes,
}
use gaugemesh.Storage.Consistent.{IsConsistent}
use gaugemesh.Storage.Beginning.{begin-IsConsistent}
use gaugemesh.Storage.Access.{compare_and_set-IsConsistent}
use gaugemesh.Storage.Purging.{purge_expired_task_routes-IsPurged}

-- `MemoryTaskRoutes::default()`
abbrev pub no_routes : MemoryTaskRoutes
no_routes = record { by_id = []; by_idempotency = []; by_expiry = [] }

module _ (h : Hashing) where
  -- A call that succeeds and changes the store
  pub data Step : MemoryTaskRoutes → MemoryTaskRoutes → Type 0 where
    begun :
        {s t : MemoryTaskRoutes} (r : TaskRouteRecord) (result : BeginTaskRouteResult)
        → begin_or_existing h s r ≡ ok (result, t)
        → Step s t
    updated :
        {s t : MemoryTaskRoutes} (caller : TaskRouteCaller) (id : PublicTaskId) (expected : ℕ)
        (update : TaskRouteUpdate) (result : Option TaskRouteRecord)
        → compare_and_set_task_route h s caller id expected update ≡ ok (result, t)
        → Step s t
    purged :
        {s : MemoryTaskRoutes} (t : MemoryTaskRoutes) (now max_records : ℕ)
        → t ≡ (purge_expired_task_routes s now max_records).1
        → Step s t

  pub data Reached : MemoryTaskRoutes → Type 0 where
    at_start : (s : MemoryTaskRoutes) → s ≡ no_routes → Reached s
    after : {s t : MemoryTaskRoutes} → Reached s → Step s t → Reached t

  no_routes-IsConsistent : IsConsistent h no_routes
  no_routes-IsConsistent = record {
    stored = λ id r f. cc;
    keyed = λ id r key f k. cc;
    named = λ scope id f. cc;
    expiring = λ id r f. cc;
    listed = λ time id e. absurd e;
    ascending = tt;
    unique = tt;
    bounded = omega arith;
  }

  Step-IsConsistent : {s t : MemoryTaskRoutes} → IsConsistent h s → Step s t → IsConsistent h t
  Step-IsConsistent {s} {t} c (begun r result e) = begin-IsConsistent h s r result t c e
  Step-IsConsistent {s} {t} c (updated caller id expected update result e) =
      compare_and_set-IsConsistent h s caller id expected update result t c e
  Step-IsConsistent {s} c (purged t now max_records e) =
      rw e (purge_expired_task_routes-IsPurged h s c now max_records).consistent

  -- In every store that begins, updates and purges reach from the empty one the indexes agree.
  pub Reached-IsConsistent : {s : MemoryTaskRoutes} → Reached s → IsConsistent h s
  Reached-IsConsistent (at_start s e) = rw e no_routes-IsConsistent
  Reached-IsConsistent (after run step) = Step-IsConsistent (Reached-IsConsistent run) step
