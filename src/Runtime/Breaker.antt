-- ===== src/Runtime/Breaker.antt =====
-- crates/gaugemesh-core/src/runtime.rs, `CircuitBreaker`.
pub mod Hysteresis
mod Tests
use gaugemesh.Base.{
  ℕ, ◌-◌, ◌%◌, Bool, true, false, ◌&&◌, Option, none, some, leb, if◌then◌else◌, saturating_add,
  u16_max, List, [], ◌∷◌,
}

pub data BreakerState : Type 0 where
  closed opened half_open : BreakerState

pub record CircuitBreaker : Type 0 where
  pub state : BreakerState
  pub failures : ℕ
  pub successes : ℕ
  pub opened_at_ms : Option ℕ
  pub open_threshold : ℕ
  pub recovery_threshold : ℕ
  pub open_interval_ms : ℕ

-- The caller's `assert!` is `recovery_threshold < open_threshold` and `0 < recovery_threshold`.
abbrev pub new : ℕ → ℕ → ℕ → CircuitBreaker
new open_threshold recovery_threshold open_interval_ms = record {
  state = closed;
  failures = 0;
  successes = 0;
  opened_at_ms = none;
  open_threshold = open_threshold;
  recovery_threshold = recovery_threshold;
  open_interval_ms = open_interval_ms;
}

abbrev pub is_open : BreakerState → Bool
is_open opened = true
is_open _ = false

abbrev pub is_half_open : BreakerState → Bool
is_half_open half_open = true
is_half_open _ = false

-- `as_millis() as u64` keeps the low 64 bits.
elapsed : CircuitBreaker → ℕ → Bool
elapsed b now = elim b.opened_at_ms [
  | none ↦ false
  | some since ↦ leb (b.open_interval_ms % 18446744073709551616) (now - since)
]

-- `state(&mut self, now_ms)`: the breaker afterwards; the answer is its field `state`.
unfoldable pub state_at : CircuitBreaker → ℕ → CircuitBreaker
unfolding elapsed
state_at b now =
    if is_open b.state && elapsed b now then record b { state = half_open; successes = 0 } else b

unfoldable pub record_failure : CircuitBreaker → ℕ → CircuitBreaker
record_failure b now =
    let counted = record b { failures = saturating_add u16_max b.failures 1; successes = 0 } in
    if leb b.open_threshold counted.failures
    then record counted { state = opened; opened_at_ms = some now }
    else counted

unfoldable pub record_success : CircuitBreaker → CircuitBreaker
record_success b =
    let reset = record b { failures = 0 } in
    let counted = record reset { successes = saturating_add u16_max b.successes 1 } in
    if is_half_open b.state
    then (if leb b.recovery_threshold counted.successes
        then record counted { state = closed; opened_at_ms = none }
        else counted)
    else reset

-- The calls that a breaker receives, in their order.
pub data Event : Type 0 where
  observe : ℕ → Event
  failure : ℕ → Event
  success : Event

unfoldable pub step : CircuitBreaker → Event → CircuitBreaker
unfolding state_at record_failure record_success
step b (observe now) = state_at b now
step b (failure now) = record_failure b now
step b success = record_success b

unfoldable pub run : CircuitBreaker → List Event → CircuitBreaker
run b [] = b
run b (e ∷ es) = run (step b e) es
