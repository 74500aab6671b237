-- ===== src/Runtime/Breaker/Hysteresis.antt =====
-- `CircuitBreaker` of runtime.rs over every sequence of calls: how many failures open it and how
-- many successes close it.
use gaugemesh.Base.{
  ℕ, suc, ◌+◌, ◌-◌, ◌%◌, ◌≤◌, ◌<◌, ◌≡◌, refl, ◌≢◌, ◌⊎◌, inl, inr, All, ◌↔◌, Option, none, some,
  List, [], ◌∷◌, arith, u16_max,
}
use gaugemesh.Runtime.Breaker.{
  CircuitBreaker, Event, closed, opened, half_open, observe, failure, success, step, run, state_at,
}

-- What holds between two calls.
pub record IsValid (b : CircuitBreaker) : Type 0 where
  pub thresholds : b.recovery_threshold < b.open_threshold
  pub recovery_pos : 0 < b.recovery_threshold
  pub open_fits : b.open_threshold ≤ u16_max
  pub failures_below : b.state ≡ closed → b.failures < b.open_threshold
  pub successes_below : b.state ≡ half_open → b.successes < b.recovery_threshold
  pub opened_since : b.state ≡ opened → b.opened_at_ms ≢ none
  pub closed_since : b.state ≡ closed → b.opened_at_ms ≡ none

step-IsValid : (b : CircuitBreaker) (e : Event) → IsValid b → IsValid (step b e)
unfolding step
step-IsValid b (observe now) v = ground arith
step-IsValid b (failure now) v = ground arith
step-IsValid b success v = ground arith

-- Every sequence of calls keeps a breaker valid: a closed one has fewer failures on record than
-- open it, a half-open one has fewer successes than close it, and the time of opening is there
-- exactly when it is needed.
pub run-IsValid : (b : CircuitBreaker) (es : List Event) → IsValid b → IsValid (run b es)
unfolding run
run-IsValid b [] v = v
run-IsValid b (e ∷ es) v = run-IsValid (step b e) es (step-IsValid b e v)

abbrev pub failures_in : List Event → ℕ
failures_in [] = 0
failures_in (failure now ∷ es) = suc (failures_in es)
failures_in (observe now ∷ es) = failures_in es
failures_in (success ∷ es) = failures_in es

abbrev pub successes_in : List Event → ℕ
successes_in [] = 0
successes_in (success ∷ es) = suc (successes_in es)
successes_in (failure now ∷ es) = successes_in es
successes_in (observe now ∷ es) = successes_in es

abbrev fails : Event → ℕ
fails (failure now) = 1
fails _ = 0

abbrev succeeds : Event → ℕ
succeeds success = 1
succeeds _ = 0

failures_in_cons : (e : Event) (es : List Event) → failures_in (e ∷ es) ≡ fails e + failures_in es
failures_in_cons (observe now) es = omega arith
failures_in_cons (failure now) es = omega arith
failures_in_cons success es = omega arith

successes_in_cons :
    (e : Event) (es : List Event) → successes_in (e ∷ es) ≡ succeeds e + successes_in es
successes_in_cons (observe now) es = omega arith
successes_in_cons (failure now) es = omega arith
successes_in_cons success es = omega arith

opening_step :
    (b : CircuitBreaker) (e : Event)
    → b.state ≡ closed
    → ((step b e).state ≡ closed)
        × ((step b e).failures ≤ b.failures + fails e)
        × ((step b e).open_threshold ≡ b.open_threshold)
      ⊎ (b.open_threshold ≤ b.failures + fails e)
unfolding step
opening_step b (observe now) c = ground arith
opening_step b (failure now) c = ground arith
opening_step b success c = ground arith

-- A closed breaker that is no longer closed after some calls has seen enough failures: those on
-- its record and those among the calls are at least `open_threshold`.
pub opening_needs_failures :
    (b : CircuitBreaker) (es : List Event)
    → b.state ≡ closed
    → (run b es).state ≢ closed
    → b.open_threshold ≤ b.failures + failures_in es
unfolding run
opening_needs_failures b [] c n = absurd (n c)
opening_needs_failures b (e ∷ es) c n = elim (opening_step b e c) [
  | inl k ↦ counted k (opening_needs_failures (step b e) es k.0 n) (failures_in_cons e es)
  | inr k ↦ omega (arith, failures_in_cons e es)
]
  where
    counted :
        ((step b e).state ≡ closed)
          × ((step b e).failures ≤ b.failures + fails e)
          × ((step b e).open_threshold ≡ b.open_threshold)
        → (step b e).open_threshold ≤ (step b e).failures + failures_in es
        → failures_in (e ∷ es) ≡ fails e + failures_in es
        → b.open_threshold ≤ b.failures + failures_in (e ∷ es)
    counted k h r = omega arith

-- The successes that count towards closing.
abbrev pub credit : CircuitBreaker → ℕ
credit b = elim b.state [ half_open ↦ b.successes | _ ↦ 0 ]

closing_step :
    (b : CircuitBreaker) (e : Event)
    → b.state ≢ closed
    → ((step b e).state ≢ closed)
        × (credit (step b e) ≤ credit b + succeeds e)
        × ((step b e).recovery_threshold ≡ b.recovery_threshold)
      ⊎ (b.recovery_threshold ≤ credit b + succeeds e)
unfolding step
closing_step b (observe now) c = ground arith
closing_step b (failure now) c = ground arith
closing_step b success c = ground arith

-- A breaker that is open or half open and is closed after some calls has seen enough successes:
-- those that it has counted while half open and those among the calls are at least
-- `recovery_threshold`.
pub closing_needs_successes :
    (b : CircuitBreaker) (es : List Event)
    → b.state ≢ closed
    → (run b es).state ≡ closed
    → b.recovery_threshold ≤ credit b + successes_in es
unfolding run
closing_needs_successes b [] n c = absurd (n c)
closing_needs_successes b (e ∷ es) n c = elim (closing_step b e n) [
  | inl k ↦ counted k (closing_needs_successes (step b e) es k.0 c) (successes_in_cons e es)
  | inr k ↦ omega (arith, successes_in_cons e es)
]
  where
    counted :
        ((step b e).state ≢ closed)
          × (credit (step b e) ≤ credit b + succeeds e)
          × ((step b e).recovery_threshold ≡ b.recovery_threshold)
        → (step b e).recovery_threshold ≤ credit (step b e) + successes_in es
        → successes_in (e ∷ es) ≡ succeeds e + successes_in es
        → b.recovery_threshold ≤ credit b + successes_in (e ∷ es)
    counted k h r = omega arith

-- A call that comes before the open interval has passed since a time: an observation less than
-- the interval later, a failure at or after that time, or a success.
abbrev pub IsEarly : ℕ → ℕ → Event → Type 0
IsEarly since interval (observe now) = now < since + interval
IsEarly since interval (failure now) = since ≤ now
IsEarly since interval success = Unit

abbrev IsSince : ℕ → Option ℕ → Type 0
IsSince since none = ⊥
IsSince since (some t) = since ≤ t

record OpenSince (since interval : ℕ) (b : CircuitBreaker) : Type 0 where
  still_open : b.state ≡ opened
  since_then : IsSince since b.opened_at_ms
  same_interval : b.open_interval_ms % 18446744073709551616 ≡ interval

early_step :
    (since interval : ℕ) (b : CircuitBreaker) (e : Event)
    → 0 < interval
    → IsEarly since interval e
    → OpenSince since interval b
    → OpenSince since interval (step b e)
unfolding step
early_step since interval b (observe now) pos early o = ground arith
early_step since interval b (failure now) pos early o = ground arith
early_step since interval b success pos early o = ground arith

open_until :
    (since interval : ℕ) (b : CircuitBreaker) (es : List Event)
    → 0 < interval
    → All (IsEarly since interval) es
    → OpenSince since interval b
    → (run b es).state ≡ opened
unfolding run
open_until since interval b [] pos h o = o.still_open
open_until since interval b (e ∷ es) pos h o =
    open_until since interval (step b e) es pos h.1 (early_step since interval b e pos h.0 o)

-- A breaker that opened at the time `since` is still open after any calls that come before its
-- open interval has passed, whatever successes are among them.
pub open_for_interval :
    (since : ℕ) (b : CircuitBreaker) (es : List Event)
    → b.state ≡ opened
    → b.opened_at_ms ≡ some since
    → 0 < b.open_interval_ms % 18446744073709551616
    → All (IsEarly since (b.open_interval_ms % 18446744073709551616)) es
    → (run b es).state ≡ opened
open_for_interval since b es o at pos h =
    open_until since (b.open_interval_ms % 18446744073709551616) b es pos h
      (record { still_open = o; since_then = rw at (omega arith); same_interval = refl })

-- An open breaker answers `half_open` exactly when its open interval has passed.
pub half_open_after_interval :
    (b : CircuitBreaker) (since now : ℕ)
    → b.state ≡ opened
    → b.opened_at_ms ≡ some since
    → ((state_at b now).state ≡ half_open)
      ↔ (b.open_interval_ms % 18446744073709551616 ≤ now - since)
unfolding state_at
half_open_after_interval b since now o at = ground arith
