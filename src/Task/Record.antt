-- ===== src/Task/Record.antt =====
-- `TaskRouteRecord` of crates/gaugemesh-core/src/task.rs: how a route is prepared, verified and
-- moved to its next phase.
pub mod Steps
pub mod Reachable
pub mod Sound
use gaugemesh.Base.{
  ℕ, ◌+◌, String, Bool, true, false, not, ◌&&◌, ◌||◌, Option, none, some, [], ◌∷◌, ltb, leb, Result,
  ok, err, ◌>>=◌, ◌>>◌, reject_if, ok_or, checked_add, ◌==◌, ◌!=◌, string_eq, nat_eq, if◌then◌else◌,
}
use gaugemesh.Digest.{Json, null, string, number, Hashing, of_json, json, Sha256Digest}
use gaugemesh.Capability.{CapabilityId}
use gaugemesh.Context.Json.{capability_json, optional_text}
use gaugemesh.Task.{
  TaskRoutePhase, prepared, dispatching, routed, terminal, reconciliation_required,
  cancel_requested, TaskRouteCaller, TaskRouteRecord, TaskRouteUpdate, TaskRouteError, PublicTaskId,
  UpstreamTaskId, TaskRouteIdempotencyKey, invalid_timestamp, numeric_range, not_prepared_for_begin,
  upstream_task_changed, upstream_task_assigned_outside_routed_transition, invalid_transition,
  integrity_mismatch, phase_eq, task_route_schema_version, max_sqlite_integer,
}
use gaugemesh.Task.Shape.{validate_shape, is_some}

abbrev pub phase_name : TaskRoutePhase → String
phase_name prepared = "prepared"
phase_name dispatching = "dispatching"
phase_name routed = "routed"
phase_name terminal = "terminal"
phase_name reconciliation_required = "reconciliation_required"
phase_name cancel_requested = "cancel_requested"

abbrev pub optional_json : Option Json → Json
optional_json none = null
optional_json (some j) = j

abbrev pub caller_json : TaskRouteCaller → Json
caller_json c = json (("principal", string c.principal) ∷ ("tenant", string c.tenant) ∷ [])

unfoldable pub can_transition : TaskRoutePhase → TaskRoutePhase → Bool
can_transition prepared to =
    to == dispatching || to == terminal || to == reconciliation_required || to == cancel_requested
can_transition dispatching to =
    to == routed || to == terminal || to == reconciliation_required || to == cancel_requested
can_transition routed to = to == terminal || to == reconciliation_required || to == cancel_requested
can_transition terminal to = false
can_transition reconciliation_required to = to == routed || to == terminal || to == cancel_requested
can_transition cancel_requested to = to == cancel_requested || to == terminal

-- The upstream task of the next record
unfoldable pub next_upstream :
    Option UpstreamTaskId → Option UpstreamTaskId → Result TaskRouteError (Option UpstreamTaskId)
next_upstream (some current) (some next) =
    if current != next then err upstream_task_changed else ok (some current)
next_upstream (some current) none = ok (some current)
next_upstream none next = ok next

-- `checked_add(1).filter(|version| version <= MAX_SQLITE_INTEGER)`
abbrev pub next_version : ℕ → Option ℕ
next_version version = elim (checked_add version 1) [
  | none ↦ none
  | some next ↦ if leb next max_sqlite_integer then some next else none
]

abbrev pub moved : TaskRouteRecord → TaskRouteUpdate → Option UpstreamTaskId → ℕ → TaskRouteRecord
moved r update upstream version = record r {
  upstream_task_id = upstream;
  dispatch_owner_id = update.dispatch_owner_id;
  phase = update.phase;
  updated_at_unix_ms = update.updated_at_unix_ms;
  transition_version = version;
  cached_terminal_state = update.cached_terminal_state;
  integrity_digest = 0;
}

abbrev pub not_fresh : TaskRouteRecord → Bool
not_fresh r =
    r.phase != prepared
    || r.transition_version != 0
    || is_some r.upstream_task_id
    || is_some r.cached_terminal_state
    || r.updated_at_unix_ms != r.created_at_unix_ms

-- The record that `prepare_with_id` checks and seals
abbrev pub fresh_record :
    PublicTaskId
    → TaskRouteCaller
    → Option TaskRouteIdempotencyKey
    → Sha256Digest
    → Json
    → CapabilityId
    → String
    → ℕ
    → ℕ
    → ℕ
    → TaskRouteRecord
fresh_record id caller key digest binding capability session created_at ttl expires_at = record {
  schema_version = task_route_schema_version;
  public_task_id = id;
  caller = caller;
  idempotency_key = key;
  request_digest = digest;
  submission_binding = binding;
  capability = capability;
  capability_source = capability.source;
  upstream_session_id = session;
  upstream_task_id = none;
  dispatch_owner_id = none;
  phase = prepared;
  created_at_unix_ms = created_at;
  updated_at_unix_ms = created_at;
  ttl_ms = ttl;
  expires_at_unix_ms = expires_at;
  transition_version = 0;
  cached_terminal_state = none;
  integrity_digest = 0;
}

module _ (h : Hashing) where
  unfoldable pub expected_integrity_digest : TaskRouteRecord → Sha256Digest
  expected_integrity_digest r = of_json h (
      json (
        ("schema_version", number r.schema_version)
        ∷ ("public_task_id", string r.public_task_id)
        ∷ ("caller", caller_json r.caller)
        ∷ ("idempotency_key", optional_text r.idempotency_key)
        ∷ ("request_digest", string (h.display r.request_digest))
        ∷ ("submission_binding", r.submission_binding)
        ∷ ("capability", capability_json h r.capability)
        ∷ ("capability_source", string r.capability_source)
        ∷ ("upstream_session_id", string r.upstream_session_id)
        ∷ ("upstream_task_id", optional_text r.upstream_task_id)
        ∷ ("dispatch_owner_id", optional_text r.dispatch_owner_id)
        ∷ ("phase", string (phase_name r.phase))
        ∷ ("created_at_unix_ms", number r.created_at_unix_ms)
        ∷ ("updated_at_unix_ms", number r.updated_at_unix_ms)
        ∷ ("ttl_ms", number r.ttl_ms)
        ∷ ("expires_at_unix_ms", number r.expires_at_unix_ms)
        ∷ ("transition_version", number r.transition_version)
        ∷ ("cached_terminal_state", optional_json r.cached_terminal_state)
        ∷ []))

  -- `validate_shape()?`, and the record with the digest of its fields
  unfoldable pub sealed : TaskRouteRecord → Result TaskRouteError TaskRouteRecord
  sealed r = do validate_shape h r; ok (record r { integrity_digest = expected_integrity_digest r })

  unfoldable pub prepare_with_id :
      PublicTaskId
      → TaskRouteCaller
      → Option TaskRouteIdempotencyKey
      → Sha256Digest
      → Json
      → CapabilityId
      → String
      → ℕ
      → ℕ
      → Result TaskRouteError TaskRouteRecord
  unfolding sealed
  prepare_with_id id caller key digest binding capability session created_at ttl = do
    expires_at ← ok_or (checked_add created_at ttl) numeric_range
    sealed (fresh_record id caller key digest binding capability session created_at ttl expires_at)

  unfoldable pub verify_route : TaskRouteRecord → Result TaskRouteError (Unit {0})
  verify_route r = do
    validate_shape h r
    reject_if (r.integrity_digest != expected_integrity_digest r) integrity_mismatch

  unfoldable pub verify_prepared_for_begin : TaskRouteRecord → Result TaskRouteError (Unit {0})
  unfolding verify_route
  verify_prepared_for_begin r = do verify_route r; reject_if (not_fresh r) not_prepared_for_begin

  unfoldable pub transition :
      TaskRouteRecord → TaskRouteUpdate → Result TaskRouteError TaskRouteRecord
  unfolding verify_route next_upstream sealed
  transition r update = do
    verify_route r
    reject_if (not (can_transition r.phase update.phase)) (invalid_transition r.phase update.phase)
    reject_if (ltb update.updated_at_unix_ms r.updated_at_unix_ms) invalid_timestamp
    reject_if
        (not (is_some r.upstream_task_id)
          && is_some update.upstream_task_id
          && not (update.phase == routed || update.phase == cancel_requested))
        upstream_task_assigned_outside_routed_transition
    upstream ← next_upstream r.upstream_task_id update.upstream_task_id
    version ← ok_or (next_version r.transition_version) numeric_range
    sealed (moved r update upstream version)

abbrev pub is_expired : TaskRouteRecord → ℕ → Bool
is_expired r now_unix_ms = leb r.expires_at_unix_ms now_unix_ms
