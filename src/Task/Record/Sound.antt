-- ===== src/Task/Record/Sound.antt =====
-- What a task route that verifies is known to satisfy.
use gaugemesh.Base.{
  ◌+◌, ◌≤◌, ◌≡◌, refl, arith, Bool, true, false, not, ◌&&◌, ◌||◌, ltb, any, ok, reject_if_ok,
  last_reject_if_ok, ok_or, ok_or_ok, >>_ok, >>=_ok, checked_add, ◌==◌, ◌!=◌, nat_eq, string_eq,
}
use gaugemesh.Digest.{Hashing, of_json, canonical_json}
use gaugemesh.Task.{
  TaskRouteRecord, prepared, dispatching, routed, terminal, phase_eq, numeric_range,
  max_sqlite_integer, max_identifier_bytes, max_submission_binding_bytes,
}
use gaugemesh.Task.Shape.{
  validate_shape, validate_names, validate_binding, validate_times, validate_phase,
  validate_identifier, check_some, is_some, both_or_neither, times_of,
}
use gaugemesh.Task.Record.{verify_route, expected_integrity_digest}

-- The times of a route fit together and fit the database's integers.
abbrev pub IsTimely : TaskRouteRecord → Type 0
IsTimely r =
    (1 ≤ r.ttl_ms)
    × (r.expires_at_unix_ms ≡ r.created_at_unix_ms + r.ttl_ms)
    × (r.created_at_unix_ms ≤ r.updated_at_unix_ms)
    × (r.updated_at_unix_ms ≤ max_sqlite_integer)
    × (r.expires_at_unix_ms ≤ max_sqlite_integer)
    × (r.transition_version ≤ max_sqlite_integer)

-- Exactly the dispatching routes have an owner, exactly the terminal ones have a cached state, the
-- routed ones have an upstream task, and those before have none.
abbrev pub IsStaged : TaskRouteRecord → Type 0
IsStaged r =
    (is_some r.dispatch_owner_id ≡ (r.phase == dispatching))
    × (is_some r.cached_terminal_state ≡ (r.phase == terminal))
    × ((r.phase == routed && not (is_some r.upstream_task_id)) ≡ false)
    × (((r.phase == prepared || r.phase == dispatching) && is_some r.upstream_task_id) ≡ false)

both_or_neither_lem : (a b : Bool) → not (both_or_neither a b) ≡ false → b ≡ a
both_or_neither_lem true true h = refl
both_or_neither_lem true false h = cc
both_or_neither_lem false true h = cc
both_or_neither_lem false false h = refl

same_tests : (a b : Bool) → (not a && b) ≡ false → (a && not b) ≡ false → b ≡ a
same_tests true true h k = refl
same_tests true false h k = cc
same_tests false true h k = cc
same_tests false false h k = refl

validate_times-IsTimely : (r : TaskRouteRecord) → validate_times r ≡ ok tt → IsTimely r
unfolding validate_times
validate_times-IsTimely r v =
    let (positive, v1) = reject_if_ok (r.ttl_ms == 0) _ _ v in
    let (expiry, sum, v2) =
      >>=_ok (ok_or (checked_add r.created_at_unix_ms r.ttl_ms) numeric_range) _ v1 in
    let (expires, v3) = reject_if_ok (expiry != r.expires_at_unix_ms) _ _ v2 in
    let (fits, v4) =
      reject_if_ok (any (λ value. ltb max_sqlite_integer value) (times_of r)) _ _ v3 in
    let ordered = last_reject_if_ok (ltb r.updated_at_unix_ms r.created_at_unix_ms) _ v4 in
    let total = ok_or_ok (checked_add r.created_at_unix_ms r.ttl_ms) numeric_range sum in
    (
      ground (arith, positive),
      ground (arith, expires, total),
      ground (arith, ordered),
      ground (arith, fits),
      ground (arith, fits),
      ground (arith, fits),
    )

validate_phase-IsStaged : (r : TaskRouteRecord) → validate_phase r ≡ ok tt → IsStaged r
unfolding validate_phase
validate_phase-IsStaged r v =
    let (early, v1) =
      reject_if_ok ((r.phase == prepared || r.phase == dispatching) && is_some r.upstream_task_id) _
        _ v in
    let (routes, v2) =
      reject_if_ok (r.phase == routed && not (is_some r.upstream_task_id)) _ _ v1 in
    let (owned, v3) =
      reject_if_ok (not (both_or_neither (r.phase == dispatching) (is_some r.dispatch_owner_id))) _
        _ v2 in
    let (_, v4) =
      >>_ok
        (check_some r.dispatch_owner_id
          (λ id. validate_identifier id max_identifier_bytes "dispatch owner ID"))
        _ v3 in
    let (outside, v5) =
      reject_if_ok (r.phase != terminal && is_some r.cached_terminal_state) _ _ v4 in
    let missing =
      last_reject_if_ok (r.phase == terminal && not (is_some r.cached_terminal_state)) _ v5 in
    (
      both_or_neither_lem (r.phase == dispatching) (is_some r.dispatch_owner_id) owned,
      same_tests (r.phase == terminal) (is_some r.cached_terminal_state) outside missing,
      routes,
      early,
    )

module _ (h : Hashing) where
  -- A route that verifies has times that fit together and fit the database's integers, has an
  -- owner, a cached state and an upstream task in the phases that want them, carries the digest of
  -- its submission, and carries the digest of all its fields.
  pub verify_route_sound :
      (r : TaskRouteRecord)
      → verify_route h r ≡ ok tt
      → IsTimely r
        × IsStaged r
        × (r.request_digest ≡ of_json h r.submission_binding)
        × (r.integrity_digest ≡ expected_integrity_digest h r)
  unfolding verify_route validate_shape validate_binding
  verify_route_sound r v =
      let (shape, sealed) = >>_ok (validate_shape h r) _ v in
      let (_, w1) = >>_ok (validate_names r) _ shape in
      let (binding, w2) = >>_ok (validate_binding h r) _ w1 in
      let (times, w3) = >>_ok (validate_times r) _ w2 in
      let (phase, _) = >>_ok (validate_phase r) _ w3 in
      let (_, bound) =
        reject_if_ok
          (ltb max_submission_binding_bytes (h.encoded_len (canonical_json r.submission_binding))) _
          _ binding in
      (
        validate_times-IsTimely r times,
        validate_phase-IsStaged r phase,
        ground
            (arith, last_reject_if_ok (r.request_digest != of_json h r.submission_binding) _ bound),
        ground (
          arith,
          last_reject_if_ok (r.integrity_digest != expected_integrity_digest h r) _ sealed,
        ),
      )
