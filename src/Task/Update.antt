-- ===== src/Task/Update.antt =====
-- The constructors of `TaskRouteUpdate` of crates/gaugemesh-core/src/task.rs.
use gaugemesh.Base.{ℕ, String, none, some}
use gaugemesh.Digest.{Json}
use gaugemesh.Task.{TaskRoutePhase, TaskRouteUpdate, UpstreamTaskId}

unfoldable pub dispatching : String → ℕ → TaskRouteUpdate
dispatching owner now = record {
  phase = TaskRoutePhase.dispatching;
  upstream_task_id = none;
  dispatch_owner_id = some owner;
  updated_at_unix_ms = now;
  cached_terminal_state = none;
}

unfoldable pub routed : UpstreamTaskId → ℕ → TaskRouteUpdate
routed upstream now = record {
  phase = TaskRoutePhase.routed;
  upstream_task_id = some upstream;
  dispatch_owner_id = none;
  updated_at_unix_ms = now;
  cached_terminal_state = none;
}

unfoldable pub terminal : ℕ → Json → TaskRouteUpdate
terminal now state = record {
  phase = TaskRoutePhase.terminal;
  upstream_task_id = none;
  dispatch_owner_id = none;
  updated_at_unix_ms = now;
  cached_terminal_state = some state;
}

unfoldable pub reconciliation_required : ℕ → TaskRouteUpdate
reconciliation_required now = record {
  phase = TaskRoutePhase.reconciliation_required;
  upstream_task_id = none;
  dispatch_owner_id = none;
  updated_at_unix_ms = now;
  cached_terminal_state = none;
}

unfoldable pub cancel_requested : ℕ → TaskRouteUpdate
cancel_requested now = record {
  phase = TaskRoutePhase.cancel_requested;
  upstream_task_id = none;
  dispatch_owner_id = none;
  updated_at_unix_ms = now;
  cached_terminal_state = none;
}

unfoldable pub cancel_requested_with_upstream : UpstreamTaskId → ℕ → TaskRouteUpdate
cancel_requested_with_upstream upstream now = record {
  phase = TaskRoutePhase.cancel_requested;
  upstream_task_id = some upstream;
  dispatch_owner_id = none;
  updated_at_unix_ms = now;
  cached_terminal_state = none;
}
