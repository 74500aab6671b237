-- ===== src/Task/Record/Steps.antt =====
-- What one `transition` of a task route does.
use gaugemesh.Base.{
  ℕ, ◌+◌, ◌≤◌, ◌≡◌, refl, ◌∙◌, arith, true, not, ◌&&◌, ◌||◌, ltb, Option, none, some, ok,
  reject_if_ok, >>_ok, >>=_ok, >>_pass, subst, not-false, String, ok_or, ok_or_ok, ◌==◌, nat_eq,
  string_eq,
}
use gaugemesh.Digest.{Hashing, Json, Sha256Digest}
use gaugemesh.Capability.{CapabilityId}
use gaugemesh.Task.{
  TaskRouteRecord, TaskRouteUpdate, TaskRouteCaller, PublicTaskId, UpstreamTaskId, routed,
  cancel_requested, phase_eq, numeric_range,
}
use gaugemesh.Task.Shape.{
  validate_shape, validate_names, validate_binding, validate_times, validate_phase, is_some,
}
use gaugemesh.Task.Record.{
  can_transition, next_upstream, next_version, moved, expected_integrity_digest, sealed,
  verify_route, transition,
}

-- An upstream task, once known, stays; a new one comes from the update.
abbrev pub IsUpstreamOf :
    Option UpstreamTaskId → Option UpstreamTaskId → Option UpstreamTaskId → Type 0
IsUpstreamOf (some current) update next = next ≡ some current
IsUpstreamOf none update next = next ≡ update

next_upstream-IsUpstreamOf :
    (current update : Option UpstreamTaskId) {next : Option UpstreamTaskId}
    → next_upstream current update ≡ ok next
    → IsUpstreamOf current update next
unfolding next_upstream
next_upstream-IsUpstreamOf (some current) (some update) e = ground (arith, e)
next_upstream-IsUpstreamOf (some current) none e = cc
next_upstream-IsUpstreamOf none update e = cc

next_version_lem : (version : ℕ) {next : ℕ} → next_version version ≡ some next → next ≡ version + 1
next_version_lem version e = ground (arith, e)

-- What identifies a route and its submission: no transition changes it.
abbrev pub Binding : Type 0
Binding =
    PublicTaskId
    × (TaskRouteCaller
        × (Option String × (Sha256Digest × (Json × (CapabilityId × (String × (ℕ × (ℕ × ℕ))))))))

abbrev pub binding_of : TaskRouteRecord → Binding
binding_of r = (
  r.public_task_id,
  (
    r.caller,
    (
      r.idempotency_key,
      (
        r.request_digest,
        (
          r.submission_binding,
          (
            r.capability,
            (r.upstream_session_id, (r.created_at_unix_ms, (r.ttl_ms, r.expires_at_unix_ms))),
          ),
        ),
      ),
    ),
  ),
)

abbrev pub IsMove : TaskRouteRecord → TaskRouteUpdate → TaskRouteRecord → Type 0
IsMove r update s =
    (can_transition r.phase s.phase ≡ true)
    × (s.phase ≡ update.phase)
    × (r.updated_at_unix_ms ≤ s.updated_at_unix_ms)
    × (s.transition_version ≡ r.transition_version + 1)
    × IsUpstreamOf r.upstream_task_id update.upstream_task_id s.upstream_task_id
    × (binding_of s ≡ binding_of r)

module _ (h : Hashing) where
  -- Neither the shape nor the digest of a record depends on the digest that it carries.
  validate_shape-digest :
      (r : TaskRouteRecord) (d : Sha256Digest)
      → validate_shape h (record r { integrity_digest = d }) ≡ validate_shape h r
  unfolding validate_shape validate_names validate_binding validate_times validate_phase
  validate_shape-digest r d = refl

  expected_integrity_digest-digest :
      (r : TaskRouteRecord) (d : Sha256Digest)
      → expected_integrity_digest h (record r { integrity_digest = d })
        ≡ expected_integrity_digest h r
  unfolding expected_integrity_digest
  expected_integrity_digest-digest r d = refl

  verify_route-sealed :
      (r : TaskRouteRecord)
      → validate_shape h r ≡ ok tt
      → verify_route h (record r { integrity_digest = expected_integrity_digest h r }) ≡ ok tt
  unfolding verify_route
  verify_route-sealed r shape =
      let d = expected_integrity_digest h r in
      >>_pass (validate_shape h (record r { integrity_digest = d })) _
        (validate_shape-digest r d ∙ shape) (ground (arith, expected_integrity_digest-digest r d))

  pub sealed_record :
      (r : TaskRouteRecord) {s : TaskRouteRecord}
      → sealed h r ≡ ok s
      → record r { integrity_digest = expected_integrity_digest h r } ≡ s
  unfolding sealed
  sealed_record r {s} e = let (_, same) = >>_ok (validate_shape h r) _ e in cc same

  -- A sealed record verifies.
  pub sealed-verify_route :
      (r : TaskRouteRecord) {s : TaskRouteRecord} → sealed h r ≡ ok s → verify_route h s ≡ ok tt
  unfolding sealed
  sealed-verify_route r {s} e =
      let (shape, _) = >>_ok (validate_shape h r) _ e in
      subst (λ t. verify_route h t ≡ ok tt) (sealed_record r e) (verify_route-sealed r shape)

  -- What a transition changes, and what stays.
  abbrev pub IsStep : TaskRouteRecord → TaskRouteUpdate → TaskRouteRecord → Type 0
  IsStep r update s = (verify_route h s ≡ ok tt) × IsMove r update s

  -- A transition that succeeds leaves a route that verifies, in the phase of the update, which the
  -- phase before allows, with a time not earlier and the next version; a known upstream task, and
  -- whatever identifies the route and its submission, stay.
  pub transition-IsStep :
      (r : TaskRouteRecord) (update : TaskRouteUpdate) (s : TaskRouteRecord)
      → transition h r update ≡ ok s
      → IsStep r update s
  unfolding transition
  transition-IsStep r update s e =
      let (verified, e1) = >>_ok (verify_route h r) _ e in
      let (allowed, e2) = reject_if_ok (not (can_transition r.phase update.phase)) _ _ e1 in
      let (later, e3) = reject_if_ok (ltb update.updated_at_unix_ms r.updated_at_unix_ms) _ _ e2 in
      let (_, e4) =
        reject_if_ok
          (not (is_some r.upstream_task_id)
            && is_some update.upstream_task_id
            && not (update.phase == routed || update.phase == cancel_requested))
          _ _ e3 in
      let (upstream, u, e5) =
        >>=_ok (next_upstream r.upstream_task_id update.upstream_task_id) _ e4 in
      let (version, v, e6) =
        >>=_ok (ok_or (next_version r.transition_version) numeric_range) _ e5 in
      let verifies = sealed-verify_route (moved r update upstream version) e6 in
      (
        verifies,
        subst (λ t. IsMove r update t) (sealed_record (moved r update upstream version) e6)
            (
              not-false (can_transition r.phase update.phase) allowed,
              refl,
              ground (arith, later),
              next_version_lem r.transition_version
                  (ok_or_ok (next_version r.transition_version) numeric_range v),
              next_upstream-IsUpstreamOf r.upstream_task_id update.upstream_task_id u,
              refl,
            ),
      )

  -- The record that a transition makes, up to its digest
  pub transition_record :
      (r : TaskRouteRecord) (update : TaskRouteUpdate) (s : TaskRouteRecord)
      → transition h r update ≡ ok s
      → (upstream : Option UpstreamTaskId) × (version : ℕ) × (d : Sha256Digest) × (record (moved r
            update upstream version) { integrity_digest = d }
          ≡ s)
  unfolding transition
  transition_record r update s e =
      let (_, e1) = >>_ok (verify_route h r) _ e in
      let (_, e2) = reject_if_ok (not (can_transition r.phase update.phase)) _ _ e1 in
      let (_, e3) = reject_if_ok (ltb update.updated_at_unix_ms r.updated_at_unix_ms) _ _ e2 in
      let (_, e4) =
        reject_if_ok
          (not (is_some r.upstream_task_id)
            && is_some update.upstream_task_id
            && not (update.phase == routed || update.phase == cancel_requested))
          _ _ e3 in
      let (upstream, _, e5) =
        >>=_ok (next_upstream r.upstream_task_id update.upstream_task_id) _ e4 in
      let (version, _, e6) =
        >>=_ok (ok_or (next_version r.transition_version) numeric_range) _ e5 in
      let made = moved r update upstream version in
      (upstream, version, expected_integrity_digest h made, sealed_record made e6)
