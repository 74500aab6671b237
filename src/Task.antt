-- ===== src/Task.antt =====
-- crates/gaugemesh-core/src/task.rs: the durable routes of tasks that an upstream runs.
pub mod Update
pub mod Shape
pub mod Record
pub mod Samples
mod Tests
use gaugemesh.Base.{ℕ, ◌≡◌, ◌↔◌, String, Bool, true, Option, arith, eqb, Eq}
use gaugemesh.Digest.{Json, Sha256Digest}
use gaugemesh.Capability.{CapabilityId, SourceId}
use gaugemesh.Context.{PrincipalId, TenantId}

abbrev pub task_route_schema_version : ℕ
task_route_schema_version = 1

abbrev pub max_submission_binding_bytes : ℕ
max_submission_binding_bytes = 16384

abbrev pub max_cached_terminal_state_bytes : ℕ
max_cached_terminal_state_bytes = 65536

abbrev pub max_identifier_bytes : ℕ
max_identifier_bytes = 128

abbrev pub max_upstream_task_id_bytes : ℕ
max_upstream_task_id_bytes = 1024

-- `i64::MAX`
abbrev pub max_sqlite_integer : ℕ
max_sqlite_integer = 9223372036854775807

abbrev pub PublicTaskId : Type 0
PublicTaskId = String

abbrev pub TaskRouteIdempotencyKey : Type 0
TaskRouteIdempotencyKey = String

abbrev pub UpstreamTaskId : Type 0
UpstreamTaskId = String

pub record TaskRouteCaller : Type 0 where
  pub principal : PrincipalId
  pub tenant : TenantId

pub data TaskRoutePhase : Type 0 where
  prepared dispatching routed terminal reconciliation_required cancel_requested : TaskRoutePhase

pub record TaskRouteRecord : Type 0 where
  pub schema_version : ℕ
  pub public_task_id : PublicTaskId
  pub caller : TaskRouteCaller
  pub idempotency_key : Option TaskRouteIdempotencyKey
  pub request_digest : Sha256Digest
  pub submission_binding : Json
  pub capability : CapabilityId
  pub capability_source : SourceId
  pub upstream_session_id : String
  pub upstream_task_id : Option UpstreamTaskId
  pub dispatch_owner_id : Option String
  pub phase : TaskRoutePhase
  pub created_at_unix_ms : ℕ
  pub updated_at_unix_ms : ℕ
  pub ttl_ms : ℕ
  pub expires_at_unix_ms : ℕ
  pub transition_version : ℕ
  pub cached_terminal_state : Option Json
  pub integrity_digest : Sha256Digest

pub record TaskRouteUpdate : Type 0 where
  pub phase : TaskRoutePhase
  pub upstream_task_id : Option UpstreamTaskId
  pub dispatch_owner_id : Option String
  pub updated_at_unix_ms : ℕ
  pub cached_terminal_state : Option Json

pub data TaskRouteError : Type 0 where
  invalid_identifier : String → TaskRouteError
  invalid_ttl : TaskRouteError
  invalid_timestamp : TaskRouteError
  numeric_range : TaskRouteError
  capability_source_mismatch : TaskRouteError
  request_digest_mismatch : TaskRouteError
  -- the actual size and the maximum
  submission_binding_too_large : ℕ → ℕ → TaskRouteError
  terminal_state_too_large : ℕ → ℕ → TaskRouteError
  terminal_state_outside_terminal_phase : TaskRouteError
  terminal_state_missing : TaskRouteError
  prepared_has_upstream_task : TaskRouteError
  routed_without_upstream_task : TaskRouteError
  not_prepared_for_begin : TaskRouteError
  upstream_task_changed : TaskRouteError
  upstream_task_assigned_outside_routed_transition : TaskRouteError
  -- from the first phase to the second
  invalid_transition : TaskRoutePhase → TaskRoutePhase → TaskRouteError
  integrity_mismatch : TaskRouteError

-- The variants' positions, by which the derived `PartialEq` compares.
abbrev pub phase_rank : TaskRoutePhase → ℕ
phase_rank prepared = 0
phase_rank dispatching = 1
phase_rank routed = 2
phase_rank terminal = 3
phase_rank reconciliation_required = 4
phase_rank cancel_requested = 5

pub phase_beq_iff : (a b : TaskRoutePhase) → (eqb (phase_rank a) (phase_rank b) ≡ true) ↔ (a ≡ b)
phase_beq_iff a b = ground arith

instance abbrev pub phase_eq : Eq TaskRoutePhase
phase_eq = record { same = λ a b. eqb (phase_rank a) (phase_rank b); same_iff = phase_beq_iff }
