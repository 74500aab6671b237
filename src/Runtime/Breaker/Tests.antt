-- ===== src/Runtime/Breaker/Tests.antt =====
-- Runs of `CircuitBreaker` of runtime.rs.
use gaugemesh.Base.{◌≤◌, ◌≡◌, ◌≢◌, refl, some, List, [], ◌∷◌, arith}
use gaugemesh.Runtime.Breaker.{
  CircuitBreaker, Event, closed, opened, half_open, observe, failure, success, step, run, new,
}
use gaugemesh.Runtime.Breaker.Hysteresis.{IsValid, opening_needs_failures, failures_in}

abbrev start : CircuitBreaker
start = new 3 2 10

abbrev three_failures : List Event
three_failures = failure 0 ∷ failure 1 ∷ failure 2 ∷ []

abbrev tripped : CircuitBreaker
tripped = record start { state = opened; failures = 3; opened_at_ms = some 2 }

abbrev recovery : List Event
recovery = observe 3 ∷ observe 12 ∷ success ∷ observe 13 ∷ success ∷ []

trips : run start three_failures ≡ tripped
unfolding run step
trips = refl

recovers : (run tripped recovery).state ≡ closed
unfolding run step
recovers = refl

half_way : (run tripped (observe 12 ∷ success ∷ [])).state ≡ half_open
unfolding run step
half_way = refl

start-IsValid : IsValid start
start-IsValid = ground arith

not_closed : opened ≢ closed
not_closed h = cc

opening_needs_failures_example : 3 ≤ failures_in three_failures
unfolding run step
opening_needs_failures_example = opening_needs_failures start three_failures refl not_closed
