-- ===== src/Storage/Repeats.antt =====
-- The idempotency of `begin_or_existing` of storage.rs.
use gaugemesh.Base.{
  ◌≡◌, ◌≢◌, refl, subst, arith, false, Option, none, some, ok, err, Result, >>_ok, >>_err, >>=_err,
  ok_pair, if◌then◌else◌, if-cases, ◌==◌, ◌!=◌, string_eq, nat_eq, pair_eq, get, get-insert_self,
  inl, inr,
}
use gaugemesh.Digest.{Hashing}
use gaugemesh.Task.{TaskRouteRecord, PublicTaskId, TaskRouteIdempotencyKey, TaskRouteError}
use gaugemesh.Task.Record.{verify_route, verify_prepared_for_begin, is_expired}
use gaugemesh.Storage.{
  MemoryTaskRoutes, Scope, inserted, existing, Earlier, returned, replaced, caller_eq,
  without_expired, insert_prepared, find_earlier, find_bound, find_by_key, finish_begin,
  begin_or_existing, from_task_route, idempotency_conflict, task_route_integrity,
}
use gaugemesh.Storage.Consistent.{IsConsistent}
use gaugemesh.Storage.Beginning.{begin_ok, begin-IsBegun, begin-IsConsistent, insert_prepared_ok}

pub from_task_route_pass :
    (m : Result TaskRouteError (Unit {0})) → m ≡ ok tt → from_task_route m ≡ ok tt
from_task_route_pass (err e) p = cc
from_task_route_pass (ok t) p = refl

module _ (h : Hashing) (s : MemoryTaskRoutes) (c : IsConsistent h s) (r : TaskRouteRecord) where
  -- What a begin answers while the route of the key is not expired.
  repeated :
      (id : PublicTaskId) (found : TaskRouteRecord) (key : TaskRouteIdempotencyKey)
      → get s.by_id id ≡ some found
      → found.idempotency_key ≡ some key
      → found.caller ≡ r.caller
      → r.idempotency_key ≡ some key
      → verify_prepared_for_begin h r ≡ ok tt
      → is_expired found r.created_at_unix_ms ≡ false
      → begin_or_existing h s r ≡ (
          if found.request_digest == r.request_digest
          then ok (existing found, s)
          else err idempotency_conflict)
  unfolding begin_or_existing find_by_key find_bound find_earlier finish_begin
  repeated id found key f k caller k' prepared live =
      let (verifies, _) = c.stored id found f in
      let index : get s.by_idempotency (r.caller, key) ≡ some id =
        subst (λ x. get s.by_idempotency (x, key) ≡ some id) caller (c.keyed id found key f k) in
      ground (
        arith,
        k',
        index,
        f,
        live,
        from_task_route_pass (verify_route h found) verifies,
        from_task_route_pass (verify_prepared_for_begin h r) prepared,
      )

  -- The route that a begin returns is that of its caller and key.
  abbrev pub IsReturned : TaskRouteRecord → Type 0
  IsReturned found =
      (id : PublicTaskId) × (get s.by_id id ≡ some found)
      × (found.caller ≡ r.caller)
      × (r.idempotency_key ≡ found.idempotency_key)
      × (found.request_digest ≡ r.request_digest)
      × (is_expired found r.created_at_unix_ms ≡ false)

  find_earlier-IsReturned :
      (key : TaskRouteIdempotencyKey) (id : PublicTaskId) (o : Option TaskRouteRecord)
      (found : TaskRouteRecord)
      → r.idempotency_key ≡ some key
      → get s.by_idempotency (r.caller, key) ≡ some id
      → get s.by_id id ≡ o
      → find_earlier h s r (r.caller, key) id o ≡ ok (returned found)
      → IsReturned found
  unfolding find_earlier
  find_earlier-IsReturned key id none found k p q f = cc
  find_earlier-IsReturned key id (some stored) found k p q f =
      let (_, g) = >>_ok (from_task_route (verify_route h stored)) _ f in
      elim (if-cases (is_expired stored r.created_at_unix_ms)
        (ok (replaced (some ((r.caller, key), id)))) _ g) [
          | inl (expired, bad) ↦ cc
          | inr (live, there) ↦
              elim (if-cases (stored.request_digest != r.request_digest) (err idempotency_conflict)
                (ok (returned stored)) there) [
                  | inl (other, bad) ↦ cc
                  | inr (alike, here) ↦
                      let same : stored ≡ found = cc in
                      let (named, q', caller, key') = c.named (r.caller, key) id p in
                      let the_same : named ≡ stored = cc (q, q') in
                      subst IsReturned same (
                        id,
                        q,
                        cc (the_same, caller),
                        cc (the_same, key', k),
                        ground (arith, alike),
                        live,
                      )
                ]
        ]

  find_by_key-IsReturned :
      (o : Option TaskRouteIdempotencyKey) (found : TaskRouteRecord)
      → r.idempotency_key ≡ o
      → find_by_key h s r o ≡ ok (returned found)
      → IsReturned found
  unfolding find_by_key find_bound
  find_by_key-IsReturned none found k f = cc
  find_by_key-IsReturned (some key) found k f = go (get s.by_idempotency (r.caller, key)) refl f
    where
      go :
          (o : Option PublicTaskId)
          → get s.by_idempotency (r.caller, key) ≡ o
          → find_bound h s r (r.caller, key) o ≡ ok (returned found)
          → IsReturned found
      go none p g = cc
      go (some id) p g = find_earlier-IsReturned key id (get s.by_id id) found k p refl g

  -- Where a begin returns a route that exists, the store stays as it is and holds the route, which is of the same caller
  -- and key and for the same request, and has not expired.
  pub existing_sound :
      (found : TaskRouteRecord) (t : MemoryTaskRoutes)
      → begin_or_existing h s r ≡ ok (existing found, t)
      → (t ≡ s) × IsReturned found
  unfolding finish_begin
  existing_sound found t f =
      let (prepared, earlier, e, k) = begin_ok h s r (existing found) t f in go earlier e k
    where
      go :
          (earlier : Earlier)
          → find_by_key h s r r.idempotency_key ≡ ok earlier
          → finish_begin s r earlier ≡ ok (existing found, t)
          → (t ≡ s) × IsReturned found
      go (returned stored) e k =
          let (same, next) = ok_pair (existing stored) (existing found) s t k in
          let equal : stored ≡ found = cc in
          (next, subst IsReturned equal (find_by_key-IsReturned r.idempotency_key stored refl e))
      go (replaced expired) e k =
          let (_, _, same, _) = insert_prepared_ok h s r expired (existing found) t k in cc

  integrity_kept :
      {T : Type 0} (m : Result TaskRouteError T) → from_task_route m ≢ err task_route_integrity
  integrity_kept (err e) f = cc
  integrity_kept (ok t) f = cc

  find_earlier_intact :
      (scope : Scope) (id : PublicTaskId) (found : TaskRouteRecord)
      → find_earlier h s r scope id (some found) ≢ err task_route_integrity
  unfolding find_earlier
  find_earlier_intact scope id found f =
      elim (>>_err (from_task_route (verify_route h found)) _ f) [
        | inl bad ↦ integrity_kept (verify_route h found) bad
        | inr (_, g) ↦ ground arith
      ]

  find_by_key_intact :
      (o : Option TaskRouteIdempotencyKey) → find_by_key h s r o ≢ err task_route_integrity
  unfolding find_by_key find_bound
  find_by_key_intact none f = cc
  find_by_key_intact (some key) f = go (get s.by_idempotency (r.caller, key)) refl f
    where
      go :
          (o : Option PublicTaskId)
          → get s.by_idempotency (r.caller, key) ≡ o
          → find_bound h s r (r.caller, key) o ≢ err task_route_integrity
      go none p g = cc
      go (some id) p g =
          let (found, q, _, _) = c.named (r.caller, key) id p in
          find_earlier_intact (r.caller, key) id found (rw q at g)

  finish_begin_intact : (earlier : Earlier) → finish_begin s r earlier ≢ err task_route_integrity
  unfolding finish_begin insert_prepared
  finish_begin_intact (returned found) f = cc
  finish_begin_intact (replaced expired) f = ground arith

  -- On a store whose indexes agree no begin finds its integrity broken.
  pub begin_intact : begin_or_existing h s r ≢ err task_route_integrity
  unfolding begin_or_existing
  begin_intact f = elim (>>_err (from_task_route (verify_prepared_for_begin h r)) _ f) [
    | inl bad ↦ integrity_kept (verify_prepared_for_begin h r) bad
    | inr (_, g) ↦ elim (>>=_err (find_by_key h s r r.idempotency_key) _ g) [
      | inl bad ↦ find_by_key_intact r.idempotency_key bad
      | inr (earlier, _, k) ↦ finish_begin_intact earlier k
    ]
  ]

-- A begin that inserts a route, and then one by the same caller with the same key before the route
-- expires: it returns that route for the same request and is a conflict for another, and the store
-- stays as it is.
pub begin-begin :
    (h : Hashing) (s t : MemoryTaskRoutes) (earlier later : TaskRouteRecord)
    (key : TaskRouteIdempotencyKey)
    → IsConsistent h s
    → begin_or_existing h s earlier ≡ ok (inserted earlier, t)
    → earlier.idempotency_key ≡ some key
    → later.idempotency_key ≡ some key
    → earlier.caller ≡ later.caller
    → verify_prepared_for_begin h later ≡ ok tt
    → is_expired earlier later.created_at_unix_ms ≡ false
    → begin_or_existing h t later ≡ (
        if earlier.request_digest == later.request_digest
        then ok (existing earlier, t)
        else err idempotency_conflict)
begin-begin h s t earlier later key c f k l caller prepared live =
    elim (begin-IsBegun h s earlier (inserted earlier) t c f) [
      | inl (found, bad, _) ↦ cc
      | inr (expired, _, next, _, _, _) ↦
          let there : get t.by_id earlier.public_task_id ≡ some earlier =
            rw next
              (get-insert_self (without_expired s expired).by_id earlier.public_task_id earlier) in
          repeated h t (begin-IsConsistent h s earlier (inserted earlier) t c f) later
            earlier.public_task_id earlier key there k caller l prepared live
    ]
