-- ===== src/Runtime/Queue/Tests.antt =====
-- Runs of `DeficitRoundRobin` of runtime.rs.
use gaugemesh.Base.{ℕ, ◌≡◌, ◌≢◌, refl, String, [], ◌∷◌, none, some, arith, ok, err, string_eq}
use text.Mathlib.TextEquality.{eq_iff}
use gaugemesh.Runtime.Queue.{DeficitRoundRobin, push, pop, overloaded, queue_len}
use gaugemesh.Runtime.Queue.Ring.{IsBounded}
use gaugemesh.Runtime.Queue.Turns.{Yields, pop-Yields}
use gaugemesh.Runtime.Queue.Progress.{pop_until, pop-progress}

-- Two tenants; the first item of `b` costs three turns.
abbrev busy : DeficitRoundRobin ℕ
busy = record {
  tenants =
      record { tenant = "a"; deficit = 0; quantum = 1; queued = (2, 11) ∷ (1, 12) ∷ [] }
      ∷ record { tenant = "b"; deficit = 0; quantum = 1; queued = (3, 21) ∷ [] }
      ∷ [];
  max_per_tenant = 2;
  max_tenants = 2;
  total_items = 3;
}

a-ne-b : ◌≢◌ {A = String} "b" "a"
a-ne-b p = cc ((eq_iff "b" "a").1 p)

busy-IsBounded : IsBounded busy
busy-IsBounded = record {
  limit_pos = omega arith;
  capacity = omega arith;
  tenants_within = omega arith;
  queues = (
    record {
      not_empty = omega arith;
      within = omega arith;
      costs = omega arith;
      unit_quantum = refl;
    },
    (
      record {
        not_empty = omega arith;
        within = omega arith;
        costs = omega arith;
        unit_quantum = refl;
      },
      tt,
    ),
  );
  distinct = ((a-ne-b, tt), (tt, tt));
  counted = refl;
}

full_tenant : (push busy "a" 1 13).1 ≡ err overloaded
unfolding push queue_len
full_tenant = refl

third_tenant : (push busy "c" 1 31).1 ≡ err overloaded
unfolding push queue_len
third_tenant = refl

accepted : (push busy "b" 1 22).1 ≡ ok tt
unfolding push queue_len
accepted = refl

first_round : (pop busy).1 ≡ none
unfolding pop
first_round = refl

second_round : pop_until 10 busy ≡ some 11
unfolding pop_until pop
second_round = refl

pop-Yields_example : Yields busy.tenants (pop busy).0.tenants (pop busy).1
pop-Yields_example = pop-Yields busy busy-IsBounded

pop-progress_example : (v : ℕ) × (pop_until 10000 busy ≡ some v)
pop-progress_example = pop-progress busy busy-IsBounded (omega arith)
