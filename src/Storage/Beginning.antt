-- ===== src/Storage/Beginning.antt =====
-- What `begin_or_existing` of storage.rs leaves in the store.
use gaugemesh.Base.{
  ◌-◌, ◌≤◌, ◌<◌, ◌≡◌, ◌⊎◌, refl, sym, ◌∙◌, subst, arith, true, false, not, ◌&&◌, ◌||◌, Option, none,
  some, length, ok, err, Result, >>_ok, >>=_ok, reject_if_ok, ok_pair, if◌then◌else◌, if-cases, leb,
  ◌==◌, ◌!=◌, string_eq, nat_eq, pair_eq, get, remove, get-remove_self, get-remove_other,
  length-remove, count_values, count_values-insert, count_values-remove, Bool-cases, inl, inr,
}
use gaugemesh.Digest.{Hashing}
use gaugemesh.Task.{TaskRouteRecord, PublicTaskId, TaskRouteIdempotencyKey, TaskRouteError}
use gaugemesh.Task.Shape.{is_some}
use gaugemesh.Task.Record.{verify_route, verify_prepared_for_begin, is_expired}
use gaugemesh.Storage.{
  MemoryTaskRoutes, Scope, BeginTaskRouteResult, inserted, existing, Earlier, returned, replaced,
  caller_eq, max_stored_task_routes, max_active_task_routes_per_caller, with_route, without_expired,
  is_of, is_active_for, insert_prepared, find_earlier, find_bound, find_by_key, finish_begin,
  begin_or_existing, from_task_route, idempotency_conflict,
}
use gaugemesh.Storage.Consistent.{IsConsistent, dropped, dropped-IsConsistent}
use gaugemesh.Storage.Adding.{added-IsConsistent}

pub from_task_route_ok {ℓ} :
    {T : Type ℓ} (m : Result TaskRouteError T) {t : T} → from_task_route m ≡ ok t → m ≡ ok t
from_task_route_ok (err e) h = cc
from_task_route_ok (ok t) h = cc

not_some : {A : Type 0} (o : Option A) → is_some o ≡ false → o ≡ none
not_some none h = refl
not_some (some a) h = cc

module _ (h : Hashing) (s : MemoryTaskRoutes) (r : TaskRouteRecord) where
  -- The binding that a new route replaces is that of its caller and key, and has expired; where
  -- none is replaced the key is not in use.
  abbrev pub Frees : Option (Scope × PublicTaskId) → Type 0
  Frees none =
      (key : TaskRouteIdempotencyKey)
      → r.idempotency_key ≡ some key
      → get s.by_idempotency (r.caller, key) ≡ none
  Frees (some (scope, id)) =
      (found : TaskRouteRecord) × (key : TaskRouteIdempotencyKey) × (r.idempotency_key ≡ some key)
      × (scope ≡ (r.caller, key))
      × (get s.by_idempotency scope ≡ some id)
      × (get s.by_id id ≡ some found)
      × (is_expired found r.created_at_unix_ms ≡ true)

  find_earlier-Frees :
      (key : TaskRouteIdempotencyKey) (id : PublicTaskId) (o : Option TaskRouteRecord)
      (e : Option (Scope × PublicTaskId))
      → r.idempotency_key ≡ some key
      → get s.by_idempotency (r.caller, key) ≡ some id
      → get s.by_id id ≡ o
      → find_earlier h s r (r.caller, key) id o ≡ ok (replaced e)
      → Frees e
  unfolding find_earlier
  find_earlier-Frees key id none e k p q f = cc
  find_earlier-Frees key id (some found) e k p q f =
      let (_, g) = >>_ok (from_task_route (verify_route h found)) _ f in
      elim (if-cases (is_expired found r.created_at_unix_ms)
        (ok (replaced (some ((r.caller, key), id)))) _ g) [
          | inl (expired, here) ↦
              let same : some ((r.caller, key), id) ≡ e = cc in
              subst Frees same (found, key, k, refl, p, q, expired)
          | inr (live, there) ↦
              elim (if-cases (found.request_digest != r.request_digest) (err idempotency_conflict)
                (ok (returned found)) there) [ inl (other, bad) ↦ cc | inr (same, bad) ↦ cc ]
        ]

  find_bound-Frees :
      (key : TaskRouteIdempotencyKey) (o : Option PublicTaskId) (e : Option (Scope × PublicTaskId))
      → r.idempotency_key ≡ some key
      → get s.by_idempotency (r.caller, key) ≡ o
      → find_bound h s r (r.caller, key) o ≡ ok (replaced e)
      → Frees e
  unfolding find_bound
  find_bound-Frees key none e k p f =
      let same : none ≡ e = cc in
      let unused : Frees none = λ other q. let equal : key ≡ other = cc in cc (p, equal) in
      subst Frees same unused
  find_bound-Frees key (some id) e k p f = find_earlier-Frees key id (get s.by_id id) e k p refl f

  find_by_key-Frees :
      (o : Option TaskRouteIdempotencyKey) (e : Option (Scope × PublicTaskId))
      → r.idempotency_key ≡ o
      → find_by_key h s r o ≡ ok (replaced e)
      → Frees e
  unfolding find_by_key
  find_by_key-Frees none e k f =
      let same : none ≡ e = cc in let unused : Frees none = λ key p. cc in subst Frees same unused
  find_by_key-Frees (some key) e k f =
      find_bound-Frees key (get s.by_idempotency (r.caller, key)) e k refl f

  -- Room for one more route, in the store and for its caller
  abbrev pub HasRoom : Option (Scope × PublicTaskId) → Type 0
  HasRoom expired =
      (length s.by_id - (if is_some expired then 1 else 0) < max_stored_task_routes)
      × (count_values (is_active_for r) s.by_id < max_active_task_routes_per_caller)

  pub insert_prepared_ok :
      (expired : Option (Scope × PublicTaskId)) (result : BeginTaskRouteResult)
      (t : MemoryTaskRoutes)
      → insert_prepared s r expired ≡ ok (result, t)
      → ((is_some (get s.by_id r.public_task_id) && not (is_of expired r.public_task_id)) ≡ false)
        × HasRoom expired
        × (result ≡ inserted r)
        × (t ≡ with_route (without_expired s expired) r)
  unfolding insert_prepared
  insert_prepared_ok expired result t f =
      let (fresh, g) =
        reject_if_ok
          (is_some (get s.by_id r.public_task_id) && not (is_of expired r.public_task_id)) _ _ f in
      let (room, e) =
        reject_if_ok
          (leb max_stored_task_routes (length s.by_id - (if is_some expired then 1 else 0))
            || leb max_active_task_routes_per_caller (count_values (is_active_for r) s.by_id))
          _ _ g in
      let (same, next) =
        ok_pair (inserted r) result (with_route (without_expired s expired) r) t e in
      (fresh, (ground (arith, room), ground (arith, room)), same, next)

  -- What `added-IsConsistent` asks of the store
  abbrev IsReady : MemoryTaskRoutes → Type 0
  IsReady u =
      IsConsistent h u
      × (get u.by_id r.public_task_id ≡ none)
      × (length u.by_id < max_stored_task_routes)
      × ((key : TaskRouteIdempotencyKey)
          → r.idempotency_key ≡ some key
          → get u.by_idempotency (r.caller, key) ≡ none)

  without_expired-dropped :
      (c : IsConsistent h s) (scope : Scope) (id : PublicTaskId) (found : TaskRouteRecord)
      (f : get s.by_id id ≡ some found)
      → get s.by_idempotency scope ≡ some id
      → without_expired s (some (scope, id)) ≡ dropped h s c id found f
  without_expired-dropped c scope id found f p =
      let (q, g, caller, key) = c.named scope id p in
      let same : q ≡ found = cc (f, g) in
      let (_, named) = c.stored id found f in
      let by_caller : found.caller ≡ scope.0 = cc (same, caller) in
      let by_key : found.idempotency_key ≡ some scope.1 = cc (same, key) in
      rw (f, named, by_caller, by_key) refl

  without_expired-IsReady :
      (expired : Option (Scope × PublicTaskId))
      → IsConsistent h s
      → Frees expired
      → (is_some (get s.by_id r.public_task_id) && not (is_of expired r.public_task_id)) ≡ false
      → HasRoom expired
      → IsReady (without_expired s expired)
  without_expired-IsReady none c frees fresh room =
      (c, not_some (get s.by_id r.public_task_id) (ground arith), omega (arith, room.0), frees)
  without_expired-IsReady (some (scope, id)) c frees fresh room =
      let (found, key, k, by_scope, p, f, expired) = frees in
      let gone : get (remove s.by_id id) r.public_task_id ≡ none =
        elim (Bool-cases (id == r.public_task_id)) [
          | inl same ↦
              subst (λ i. get (remove s.by_id id) i ≡ none)
                ((string_eq.same_iff id r.public_task_id).0 same) (get-remove_self s.by_id id)
          | inr apart ↦
              get-remove_other s.by_id id r.public_task_id apart
              ∙ not_some (get s.by_id r.public_task_id) (ground arith)
        ] in
      (
        subst (IsConsistent h) (sym (without_expired-dropped c scope id found f p))
            (dropped-IsConsistent h s c id found f),
        gone,
        omega (arith, room.0, length-remove s.by_id id found f),
        λ other q.
            let equal : other ≡ key = cc in
            subst (λ x. get (remove s.by_idempotency scope) x ≡ none) (cc (by_scope, equal))
              (get-remove_self s.by_idempotency scope),
      )

  pub begin_ok :
      (result : BeginTaskRouteResult) (t : MemoryTaskRoutes)
      → begin_or_existing h s r ≡ ok (result, t)
      → (verify_prepared_for_begin h r ≡ ok tt)
        × (earlier : Earlier) × (find_by_key h s r r.idempotency_key ≡ ok earlier)
        × (finish_begin s r earlier ≡ ok (result, t))
  unfolding begin_or_existing
  begin_ok result t f =
      let (v, g) = >>_ok (from_task_route (verify_prepared_for_begin h r)) _ f in
      let (earlier, e, k) = >>=_ok (find_by_key h s r r.idempotency_key) _ g in
      (from_task_route_ok (verify_prepared_for_begin h r) v, earlier, e, k)

  -- Where a begin ends: at a route that is returned from the store as it is, or at the new route.
  abbrev pub IsBegun : BeginTaskRouteResult → MemoryTaskRoutes → Type 0
  IsBegun result t =
      ((found : TaskRouteRecord) × (result ≡ existing found) × (t ≡ s))
      ⊎ ((expired : Option (Scope × PublicTaskId)) × (result ≡ inserted r)
          × (t ≡ with_route (without_expired s expired) r)
          × (count_values (is_active_for r) s.by_id < max_active_task_routes_per_caller)
          × IsReady (without_expired s expired)
          × (verify_route h r ≡ ok tt))

  pub begin-IsBegun :
      (result : BeginTaskRouteResult) (t : MemoryTaskRoutes)
      → IsConsistent h s
      → begin_or_existing h s r ≡ ok (result, t)
      → IsBegun result t
  unfolding finish_begin verify_prepared_for_begin
  begin-IsBegun result t c f =
      let (prepared, earlier, e, k) = begin_ok result t f in
      let (verifies, _) = >>_ok (verify_route h r) _ prepared in go verifies earlier e k
    where
      go :
          verify_route h r ≡ ok tt
          → (earlier : Earlier) → find_by_key h s r r.idempotency_key ≡ ok earlier
          → finish_begin s r earlier ≡ ok (result, t)
          → IsBegun result t
      go v (returned found) e k =
          let (same, next) = ok_pair (existing found) result s t k in inl (found, same, next)
      go v (replaced expired) e k =
          let (fresh, room, same, next) = insert_prepared_ok expired result t k in
          let frees = find_by_key-Frees r.idempotency_key expired refl e in
          inr (expired, same, next, room.1, without_expired-IsReady expired c frees fresh room, v)

  pub begin-IsConsistent :
      (result : BeginTaskRouteResult) (t : MemoryTaskRoutes)
      → IsConsistent h s
      → begin_or_existing h s r ≡ ok (result, t)
      → IsConsistent h t
  begin-IsConsistent result t c f = elim (begin-IsBegun result t c f) [
    | inl (found, _, same) ↦ rw same c
    | inr (expired, _, next, _, (ready, fresh, room, unused), v) ↦
        subst (IsConsistent h) (sym next)
          (added-IsConsistent h (without_expired s expired) ready r v fresh room unused)
  ]

  -- A begin that inserts a route leaves no more than the stored routes allowed, and for the caller no more
  -- active routes than allowed at the time of the route.
  pub begin-bounded :
      (stored : TaskRouteRecord) (t : MemoryTaskRoutes)
      → IsConsistent h s
      → begin_or_existing h s r ≡ ok (inserted stored, t)
      → (length t.by_id ≤ max_stored_task_routes)
        × (count_values (is_active_for r) t.by_id ≤ max_active_task_routes_per_caller)
  begin-bounded stored t c f = (
    (begin-IsConsistent (inserted stored) t c f).bounded,
    elim (begin-IsBegun (inserted stored) t c f) [
      | inl (found, bad, _) ↦ cc
      | inr (expired, _, next, room, _, _) ↦ rw next (
          omega (
            arith,
            room,
            count_values-insert (is_active_for r) (without_expired s expired).by_id r.public_task_id
                r,
            fewer expired,
          ))
    ],
  )
    where
      fewer :
          (expired : Option (Scope × PublicTaskId))
          → count_values (is_active_for r) (without_expired s expired).by_id
            ≤ count_values (is_active_for r) s.by_id
      fewer none = omega arith
      fewer (some (scope, id)) = count_values-remove (is_active_for r) s.by_id id
