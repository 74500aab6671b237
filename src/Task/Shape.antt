-- ===== src/Task/Shape.antt =====
-- `validate_identifier` and `validate_shape` of crates/gaugemesh-core/src/task.rs.
use gaugemesh.Base.{
  ℕ, String, len, Bool, true, false, not, ◌&&◌, ◌||◌, Option, none, some, List, [], ◌∷◌, ltb, any,
  is_empty_text, any_char, is_control, Result, ok, ◌>>=◌, ◌>>◌, reject_if, ok_or, checked_add, ◌==◌,
  ◌!=◌, string_eq, nat_eq,
}
use gaugemesh.Digest.{Json, Hashing, of_json, canonical_json}
use gaugemesh.Task.{
  prepared, dispatching, routed, terminal, TaskRouteRecord, TaskRouteError, invalid_identifier,
  invalid_ttl, invalid_timestamp, numeric_range, capability_source_mismatch,
  request_digest_mismatch, submission_binding_too_large, terminal_state_too_large,
  terminal_state_outside_terminal_phase, terminal_state_missing, prepared_has_upstream_task,
  routed_without_upstream_task, integrity_mismatch, phase_eq, task_route_schema_version,
  max_submission_binding_bytes, max_cached_terminal_state_bytes, max_identifier_bytes,
  max_upstream_task_id_bytes, max_sqlite_integer,
}

abbrev pub is_some : {A : Type 0} → Option A → Bool
is_some none = false
is_some (some a) = true

-- `a == b` of two tests
abbrev pub both_or_neither : Bool → Bool → Bool
both_or_neither true b = b
both_or_neither false b = not b

-- `if let Some(a) = o { check(a)?; }`
abbrev pub check_some : {A E : Type 0} → Option A → (A → Result E (Unit {0})) → Result E (Unit {0})
check_some none check = ok tt
check_some (some a) check = check a

-- `len()` of a text is the length of its UTF-8 form.
unfoldable pub validate_identifier : String → ℕ → String → Result TaskRouteError (Unit {0})
validate_identifier value maximum_bytes name =
    reject_if (is_empty_text value || ltb maximum_bytes (len value) || any_char is_control value)
      (invalid_identifier name)

abbrev pub times_of : TaskRouteRecord → List ℕ
times_of r =
    r.created_at_unix_ms ∷ r.updated_at_unix_ms ∷ r.ttl_ms ∷ r.expires_at_unix_ms
    ∷ r.transition_version ∷ []

-- The identifiers' part of `validate_shape`
unfoldable pub validate_names : TaskRouteRecord → Result TaskRouteError (Unit {0})
validate_names r = do
  reject_if (r.schema_version != task_route_schema_version) integrity_mismatch
  validate_identifier r.public_task_id max_identifier_bytes "public task ID"
  validate_identifier r.caller.principal max_identifier_bytes "principal ID"
  validate_identifier r.caller.tenant max_identifier_bytes "tenant ID"
  check_some r.idempotency_key
      (λ key. validate_identifier key max_identifier_bytes "idempotency key")
  validate_identifier r.capability_source max_identifier_bytes "capability source"
  reject_if (r.capability.source != r.capability_source) capability_source_mismatch
  validate_identifier r.upstream_session_id max_identifier_bytes "upstream session ID"
  check_some r.upstream_task_id
      (λ id. validate_identifier id max_upstream_task_id_bytes "upstream task ID")

module _ (h : Hashing) where
  -- The binding's part
  unfoldable pub validate_binding : TaskRouteRecord → Result TaskRouteError (Unit {0})
  validate_binding r = do
    let binding_bytes = h.encoded_len (canonical_json r.submission_binding)
    reject_if (ltb max_submission_binding_bytes binding_bytes)
        (submission_binding_too_large binding_bytes max_submission_binding_bytes)
    reject_if (r.request_digest != of_json h r.submission_binding) request_digest_mismatch

  unfoldable pub validate_terminal_state : Json → Result TaskRouteError (Unit {0})
  validate_terminal_state value =
      let bytes = h.encoded_len (canonical_json value) in
      reject_if (ltb max_cached_terminal_state_bytes bytes)
        (terminal_state_too_large bytes max_cached_terminal_state_bytes)

-- The part on the times
unfoldable pub validate_times : TaskRouteRecord → Result TaskRouteError (Unit {0})
validate_times r = do
  reject_if (r.ttl_ms == 0) invalid_ttl
  expected_expiry ← ok_or (checked_add r.created_at_unix_ms r.ttl_ms) numeric_range
  reject_if (expected_expiry != r.expires_at_unix_ms) invalid_ttl
  reject_if (any (λ value. ltb max_sqlite_integer value) (times_of r)) numeric_range
  reject_if (ltb r.updated_at_unix_ms r.created_at_unix_ms) invalid_timestamp

-- The part on the phase, up to the size of the terminal state
unfoldable pub validate_phase : TaskRouteRecord → Result TaskRouteError (Unit {0})
validate_phase r = do
  reject_if ((r.phase == prepared || r.phase == dispatching) && is_some r.upstream_task_id)
      prepared_has_upstream_task
  reject_if (r.phase == routed && not (is_some r.upstream_task_id)) routed_without_upstream_task
  reject_if (not (both_or_neither (r.phase == dispatching) (is_some r.dispatch_owner_id)))
      (invalid_identifier "dispatch owner ID")
  check_some r.dispatch_owner_id
      (λ id. validate_identifier id max_identifier_bytes "dispatch owner ID")
  reject_if (r.phase != terminal && is_some r.cached_terminal_state)
      terminal_state_outside_terminal_phase
  reject_if (r.phase == terminal && not (is_some r.cached_terminal_state)) terminal_state_missing

module _ (h : Hashing) where
  unfoldable pub validate_shape : TaskRouteRecord → Result TaskRouteError (Unit {0})
  unfolding validate_names validate_binding validate_times validate_phase
  validate_shape r = do
    validate_names r
    validate_binding h r
    validate_times r
    validate_phase r
    check_some r.cached_terminal_state (validate_terminal_state h)
