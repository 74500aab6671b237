-- ===== src/Admission.antt =====
-- `AdmissionControl` of crates/gaugemesh/src/admission.rs. A call of `acquire` has stages, between which
-- other calls may come: the lookup of its tenant, the tenant's permit, the global permit. The test of a
-- permit and the change of the queue's counter that goes with it are one stage. The counts of an `Arc`
-- come from the stages of the calls that hold it; an ended call stays in the list of calls.
pub mod Moving
pub mod Stages
pub mod LookingUp
pub mod Interleaved
mod Tests
use gaugemesh.Base.{
  ℕ, ◌+◌, ◌-◌, String, Bool, true, false, not, ◌&&◌, ◌||◌, Option, none, some, List, [], ◌∷◌,
  if◌then◌else◌, ltb, leb, length, keep, ◌==◌, ◌!=◌, string_eq, nat_eq, get, insert, count_values,
}
use gaugemesh.Task.Shape.{is_some}

abbrev pub max_tracked_tenants : ℕ
max_tracked_tenants = 1024

abbrev pub max_global_inflight : ℕ
max_global_inflight = 256

-- What is behind an `Arc<TenantAdmission>`; `available` are the free permits of its semaphore.
pub record TenantAdmission : Type 0 where
  pub available : ℕ
  pub queued : ℕ
  pub capacity : ℕ

pub data Stage : Type 0 where
  looked_up waiting permitted running ended : Stage

pub record Call : Type 0 where
  pub tenant : String
  pub admission : ℕ
  pub stage : Stage

pub data Refusal : Type 0 where
  tenant_cardinality tenant_queue queue_timeout no_global : Refusal

-- `tenants` has the addresses that `admissions` resolves; `global` are the free global permits.
pub record AdmissionControl : Type 0 where
  pub tenants : List (String × ℕ)
  pub admissions : List (ℕ × TenantAdmission)
  pub next_admission : ℕ
  pub max_concurrent_per_tenant : ℕ
  pub max_queue_per_tenant : ℕ
  pub global : ℕ
  pub calls : List (ℕ × Call)

abbrev pub new : ℕ → ℕ → AdmissionControl
new max_concurrent max_queue = record {
  tenants = [];
  admissions = [];
  next_admission = 0;
  max_concurrent_per_tenant = max_concurrent;
  max_queue_per_tenant = max_queue;
  global = max_global_inflight;
  calls = [];
}

-- The stages in which `acquire` has its clone of the `Arc`
abbrev pub is_acquiring : Stage → Bool
is_acquiring looked_up = true
is_acquiring waiting = true
is_acquiring permitted = true
is_acquiring running = false
is_acquiring ended = false

abbrev pub is_waiting : Stage → Bool
is_waiting looked_up = false
is_waiting waiting = true
is_waiting permitted = false
is_waiting running = false
is_waiting ended = false

-- The stages that hold the tenant's permit
abbrev pub is_permitted : Stage → Bool
is_permitted looked_up = false
is_permitted waiting = false
is_permitted permitted = true
is_permitted running = true
is_permitted ended = false

abbrev pub is_running : Stage → Bool
is_running looked_up = false
is_running waiting = false
is_running permitted = false
is_running running = true
is_running ended = false

abbrev pub has_admission : (Stage → Bool) → ℕ → Call → Bool
has_admission p a c = c.admission == a && p c.stage

-- `Arc::strong_count(state)`, with the reference of the map itself
abbrev pub strong_count : AdmissionControl → ℕ → ℕ
strong_count s a = 1 + count_values (has_admission is_acquiring a) s.calls

abbrev pub is_in_use : AdmissionControl → ℕ → Option TenantAdmission → Bool
is_in_use s a none = true
is_in_use s a (some state) =
    ltb 1 (strong_count s a) || ltb 0 state.queued || state.available != state.capacity

abbrev pub is_retained : AdmissionControl → String × ℕ → Bool
is_retained s entry = is_in_use s entry.1 (get s.admissions entry.1)

abbrev pub is_crowded : AdmissionControl → String → Bool
is_crowded s tenant =
    leb max_tracked_tenants (length s.tenants) && not (is_some (get s.tenants tenant))

-- `retain`, where there are too many tenants
unfoldable pub make_room : AdmissionControl → String → AdmissionControl
make_room s tenant =
    if is_crowded s tenant then record s { tenants = keep (is_retained s) s.tenants } else s

abbrev pub start_call : AdmissionControl → ℕ → String → ℕ → AdmissionControl
start_call s id tenant a = record s {
  calls = insert s.calls id (record { tenant = tenant; admission = a; stage = looked_up });
}

-- `or_insert_with`
abbrev pub track : AdmissionControl → String → AdmissionControl
track s tenant = record s {
  tenants = insert s.tenants tenant s.next_admission;
  admissions = insert s.admissions s.next_admission (record {
    available = s.max_concurrent_per_tenant;
    queued = 0;
    capacity = s.max_concurrent_per_tenant;
  });
  next_admission = s.next_admission + 1;
}

unfoldable pub enter_tenant :
    AdmissionControl → ℕ → String → Option ℕ → Option Refusal × AdmissionControl
enter_tenant s id tenant (some a) = (none, start_call s id tenant a)
enter_tenant s id tenant none =
    if leb max_tracked_tenants (length s.tenants)
    then (some tenant_cardinality, s)
    else (none, start_call (track s tenant) id tenant s.next_admission)

-- From the lock of the map to the clone of the `Arc`
unfoldable pub look_up : AdmissionControl → ℕ → String → Option Refusal × AdmissionControl
unfolding make_room enter_tenant
look_up s id tenant =
    let room = make_room s tenant in enter_tenant room id tenant (get room.tenants tenant)

-- The call in its next stage, and what is behind its `Arc`
abbrev pub restaged : AdmissionControl → ℕ → Call → Stage → TenantAdmission → AdmissionControl
restaged s id c stage state = record s {
  calls = insert s.calls id (record c { stage = stage });
  admissions = insert s.admissions c.admission state;
}

-- `try_acquire_owned` of the tenant's semaphore, and the place in the queue
unfoldable pub try_permit :
    AdmissionControl → ℕ → Call → TenantAdmission → Option Refusal × AdmissionControl
try_permit s id c state =
    if ltb 0 state.available
    then (none, restaged s id c permitted (record state { available = state.available - 1 }))
    else (if ltb state.queued s.max_queue_per_tenant
        then (none, restaged s id c waiting (record state { queued = state.queued + 1 }))
        else (some tenant_queue, restaged s id c ended state))

-- `acquire_owned`, when a permit is free; the reservation of the queue is dropped. A call that would wait
-- leaves all as it is.
unfoldable pub await_permit :
    AdmissionControl → ℕ → Call → TenantAdmission → Option Refusal × AdmissionControl
await_permit s id c state =
    if ltb 0 state.available
    then (
      none,
      restaged s id c permitted
          (record state { available = state.available - 1; queued = state.queued - 1 }),
    )
    else (none, s)

-- The timeout of the wait
unfoldable pub time_out :
    AdmissionControl → ℕ → Call → TenantAdmission → Option Refusal × AdmissionControl
time_out s id c state =
    (some queue_timeout, restaged s id c ended (record state { queued = state.queued - 1 }))

abbrev pub returned_permit : TenantAdmission → TenantAdmission
returned_permit state = record state { available = state.available + 1 }

-- `try_acquire_owned` of the global semaphore; the tenant's permit is dropped when that fails.
unfoldable pub take_global :
    AdmissionControl → ℕ → Call → TenantAdmission → Option Refusal × AdmissionControl
take_global s id c state =
    if ltb 0 s.global
    then (none, record (restaged s id c running state) { global = s.global - 1 })
    else (some no_global, restaged s id c ended (returned_permit state))

-- The request has been answered: both permits are dropped.
unfoldable pub leave : AdmissionControl → ℕ → Call → TenantAdmission → AdmissionControl
leave s id c state = record (restaged s id c ended (returned_permit state)) {
  global = s.global + 1;
}
