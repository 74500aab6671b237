-- ===== src/Task/Record/Reachable.antt =====
-- The runs of a task route: the records that a sequence of transitions reaches.
use gaugemesh.Base.{
  ℕ, suc, ◌+◌, ◌≤◌, ◌≡◌, refl, ap, ◌∙◌, arith, String, true, false, Option, none, some, subst, ok,
  reject_if, ok_or, >>=_ok, >>_pass, checked_add, eq_self, ◌==◌, nat_eq, string_eq,
}
use gaugemesh.Digest.{Hashing, Json, Sha256Digest}
use gaugemesh.Capability.{CapabilityId}
use gaugemesh.Task.{
  TaskRoutePhase, TaskRouteRecord, TaskRouteUpdate, TaskRouteCaller, PublicTaskId, UpstreamTaskId,
  terminal, phase_eq, numeric_range, not_prepared_for_begin,
}
use gaugemesh.Task.Record.{
  can_transition, verify_route, verify_prepared_for_begin, prepare_with_id, transition, sealed,
  not_fresh, fresh_record,
}
use gaugemesh.Task.Record.Steps.{
  IsUpstreamOf, binding_of, transition-IsStep, sealed-verify_route, sealed_record,
}

-- A known upstream task stays known.
abbrev pub StaysKnown : Option UpstreamTaskId → Option UpstreamTaskId → Type 0
StaysKnown none next = Unit
StaysKnown (some current) next = next ≡ some current

StaysKnown-step :
    (a b update c : Option UpstreamTaskId)
    → StaysKnown a b
    → IsUpstreamOf b update c
    → StaysKnown a c
StaysKnown-step none b update c known step = tt
StaysKnown-step (some current) b update c known step =
    let from_current : IsUpstreamOf (some current) update c =
      subst (λ x. IsUpstreamOf x update c) known step in
    from_current

-- No phase follows the terminal one.
terminal_is_last : (a b : TaskRoutePhase) → can_transition a b ≡ true → (a == terminal) ≡ false
unfolding can_transition
terminal_is_last a b allowed = ground arith

abbrev phase_of : TaskRouteRecord → TaskRoutePhase
phase_of r = r.phase

module _ (h : Hashing) where
  -- The record at the start, the number of transitions, and the record at the end.
  pub data Reaches : TaskRouteRecord → ℕ → TaskRouteRecord → Type 0 where
    start : (r : TaskRouteRecord) → Reaches r 0 r
    then_ :
        {r s t : TaskRouteRecord} {n : ℕ} (update : TaskRouteUpdate)
        → Reaches r n s
        → transition h s update ≡ ok t
        → Reaches r (suc n) t

  abbrev pub IsRun : TaskRouteRecord → ℕ → TaskRouteRecord → Type 0
  IsRun r n s =
      (verify_route h s ≡ ok tt)
      × (s.transition_version ≡ r.transition_version + n)
      × (r.updated_at_unix_ms ≤ s.updated_at_unix_ms)
      × StaysKnown r.upstream_task_id s.upstream_task_id
      × (binding_of s ≡ binding_of r)

  known_self : (o : Option UpstreamTaskId) → StaysKnown o o
  known_self none = tt
  known_self (some u) = refl

  -- Every record that transitions reach from a route that verifies is one that verifies; its
  -- version counts the transitions, its time is not earlier, an upstream task that was known is
  -- the same, and so is whatever identifies the route and its submission.
  pub Reaches-IsRun :
      {r s : TaskRouteRecord} {n : ℕ} → verify_route h r ≡ ok tt → Reaches r n s → IsRun r n s
  Reaches-IsRun v (start r) =
      (v, (ground arith), (ground arith), known_self r.upstream_task_id, refl)
  Reaches-IsRun {r} {s} v (then_ {s = m} {n = n} update run step) =
      let (_, version, time, known, binding) = Reaches-IsRun v run in
      let (verifies, (_, _, later, next, upstream, same)) = transition-IsStep h m update s step in
      (
        verifies,
        (ground (arith, version, next)),
        (ground (arith, time, later)),
        StaysKnown-step r.upstream_task_id m.upstream_task_id update.upstream_task_id
            s.upstream_task_id known upstream,
        same ∙ binding,
      )

  -- A terminal route is final: transitions reach nothing from it but itself.
  pub Reaches-terminal :
      {r s : TaskRouteRecord} {n : ℕ} → r.phase ≡ terminal → Reaches r n s → (n ≡ 0) × (s ≡ r)
  Reaches-terminal t (start r) = (refl, refl)
  Reaches-terminal {r} {s} t (then_ {s = m} update run step) =
      let (_, same) = Reaches-terminal t run in
      let (_, (allowed, _, _, _, _, _)) = transition-IsStep h m update s step in
      let ended : m.phase ≡ terminal = ap phase_of same ∙ t in
      let going = terminal_is_last m.phase s.phase allowed in
      ground (arith, (phase_eq.same_iff m.phase terminal).1 ended, going)

  -- A route that is prepared verifies, and verifies for the begin of its dispatch.
  pub verify_prepared_for_begin-prepare_with_id :
      (id : PublicTaskId) (caller : TaskRouteCaller) (key : Option String) (digest : Sha256Digest)
      (binding : Json) (capability : CapabilityId) (session : String) (created_at ttl : ℕ)
      (r : TaskRouteRecord)
      → prepare_with_id h id caller key digest binding capability session created_at ttl ≡ ok r
      → verify_prepared_for_begin h r ≡ ok tt
  unfolding prepare_with_id verify_prepared_for_begin sealed
  verify_prepared_for_begin-prepare_with_id id caller key digest binding capability session
        created_at ttl r e =
      let (expiry, _, e1) = >>=_ok (ok_or (checked_add created_at ttl) numeric_range) _ e in
      let verifies =
        sealed-verify_route h
          (fresh_record id caller key digest binding capability session created_at ttl expiry) e1 in
      >>_pass (verify_route h r) _ verifies (
        subst (λ t. reject_if (not_fresh t) not_prepared_for_begin ≡ ok tt)
          (sealed_record h
            (fresh_record id caller key digest binding capability session created_at ttl expiry) e1)
          (ground (arith, eq_self created_at)))
