-- ===== src/Runtime/Queue/Bounds.antt =====
-- The bounds that `DeficitRoundRobin` of runtime.rs keeps over `push` and `pop`.
use gaugemesh.Base.{
  ℕ, zero, suc, ◌+◌, ◌-◌, ◌%◌, ◌<◌, String, ◌≡◌, refl, ap, subst, inl, inr, true, false, List, [],
  ◌∷◌, ◌++◌, arith, leb, ltb, length, length-append, All, string_eq, Bool-cases, All-append,
  is_empty_text, max,
}
use gaugemesh.Runtime.Queue.{
  TenantQueue, DeficitRoundRobin, new_queue, has_tenant, queue_len, append_to, push, charge,
  put_back, affordable, served, pop_rounds, pop,
}
use gaugemesh.Runtime.Queue.Ring.{
  stored, CostFits, IsQueue, IsBounded, stored-append, stored-le, snoc-IsDistinct,
  IsFresh-of_absent, append_to-new, length-append_to, stored-append_to, append_to-IsDistinct,
  append_to-IsQueue, queue_len-new,
}

module _ {A : Type 0} where
  -- A push to a tenant that has a queue with room.
  push_old-IsBounded :
      (d : DeficitRoundRobin A) (tenant : String) (item : ℕ × A)
      → CostFits item
      → has_tenant tenant d.tenants ≡ true
      → queue_len tenant d.tenants < d.max_per_tenant
      → IsBounded d
      → IsBounded (record d {
        tenants = append_to tenant item d.tenants;
        total_items = (d.total_items + 1) % 18446744073709551616;
      })
  push_old-IsBounded d tenant item c there room v =
      let kept = append_to-IsQueue d.max_per_tenant tenant item d.tenants c room v.queues in
      record {
        limit_pos = v.limit_pos;
        capacity = v.capacity;
        tenants_within = omega (arith, length-append_to tenant item d.tenants, v.tenants_within);
        queues = kept;
        distinct = append_to-IsDistinct tenant item d.tenants v.distinct;
        counted = counted_again kept;
      }
    where
      counted_again :
          All (IsQueue d.max_per_tenant) (append_to tenant item d.tenants)
          → (d.total_items + 1) % 18446744073709551616 ≡ stored (append_to tenant item d.tenants)
      counted_again kept = grind (
        arith,
        stored-le d.max_per_tenant (append_to tenant item d.tenants) kept,
        length-append_to tenant item d.tenants,
        stored-append_to tenant item d.tenants there,
        v.counted,
        v.capacity,
        v.tenants_within,
      )

  -- A push that makes the tenant's queue.
  push_new-IsBounded :
      (d : DeficitRoundRobin A) (tenant : String) (item : ℕ × A)
      → CostFits item
      → has_tenant tenant d.tenants ≡ false
      → length d.tenants < d.max_tenants
      → IsBounded d
      → IsBounded (record d {
        tenants = append_to tenant item (d.tenants ++ new_queue tenant ∷ []);
        total_items = (d.total_items + 1) % 18446744073709551616;
      })
  push_new-IsBounded d tenant item c absent room v =
      rw (append_to-new tenant item d.tenants absent) (record {
        limit_pos = v.limit_pos;
        capacity = v.capacity;
        tenants_within = omega (arith, length-append d.tenants (made ∷ []));
        queues = all_queues;
        distinct =
            snoc-IsDistinct made d.tenants (IsFresh-of_absent tenant d.tenants absent) v.distinct;
        counted = grind (
          arith,
          stored-le d.max_per_tenant (d.tenants ++ made ∷ []) all_queues,
          length-append d.tenants (made ∷ []),
          stored-append d.tenants (made ∷ []),
          v.counted,
          v.capacity,
        );
      })
    where
      made : TenantQueue A
      made = record (new_queue tenant) { queued = item ∷ [] }

      all_queues : All (IsQueue d.max_per_tenant) (d.tenants ++ made ∷ [])
      all_queues = All-append (IsQueue d.max_per_tenant) d.tenants (made ∷ []) v.queues (
        record {
          not_empty = omega arith;
          within = omega (arith, v.limit_pos);
          costs = (c, tt);
          unit_quantum = refl;
        },
        tt,
      )

  -- A push is refused, or it reaches a queue with room, or it makes a queue. (A new queue is
  -- never full, since `max_per_tenant` is positive.)
  push_cases :
      (P : DeficitRoundRobin A → Type 0) (d : DeficitRoundRobin A) (tenant : String) (cost : ℕ)
      (value : A)
      → 0 < d.max_per_tenant
      → P d
      → (CostFits (max cost 1, value)
          → has_tenant tenant d.tenants ≡ true
          → queue_len tenant d.tenants < d.max_per_tenant
          → P (record d {
            tenants = append_to tenant (max cost 1, value) d.tenants;
            total_items = (d.total_items + 1) % 18446744073709551616;
          }))
      → (CostFits (max cost 1, value)
          → has_tenant tenant d.tenants ≡ false
          → length d.tenants < d.max_tenants
          → P (record d {
            tenants = append_to tenant (max cost 1, value) (d.tenants ++ new_queue tenant ∷ []);
            total_items = (d.total_items + 1) % 18446744073709551616;
          }))
      → P (push d tenant cost value).0
  unfolding push
  push_cases P d tenant cost value pos same old fresh = elim (Bool-cases (is_empty_text tenant)) [
    | inl e ↦ rw e same
    | inr e ↦ elim (Bool-cases (ltb 10000 cost)) [
      | inl f ↦ rw (e, f) same
      | inr f ↦ elim (Bool-cases (has_tenant tenant d.tenants)) [
        | inl there ↦ elim (Bool-cases (leb d.max_per_tenant (queue_len tenant d.tenants))) [
          | inl full ↦ rw (e, f, there, full) same
          | inr room ↦ rw (e, f, there, room) (old (ground arith) there (ground arith))
        ]
        | inr absent ↦ elim (Bool-cases (leb d.max_tenants (length d.tenants))) [
          | inl full ↦ rw (e, f, absent, full) same
          | inr room ↦
              let some_room : leb d.max_per_tenant 0 ≡ false = ground arith in
              rw (e, f, absent, room, queue_len-new tenant d.tenants absent, some_room)
                (fresh (ground arith) absent (ground arith))
        ]
      ]
    ]
  ]

  -- A push keeps the scheduler's bounds, whether it is accepted or refused: at most `max_tenants`
  -- queues, one to a tenant, none empty, at most `max_per_tenant` items in each, every stored cost
  -- from 1 to 10000, and `total_items` the number of the items stored.
  pub push-IsBounded :
      (d : DeficitRoundRobin A) (tenant : String) (cost : ℕ) (value : A)
      → IsBounded d
      → IsBounded (push d tenant cost value).0
  push-IsBounded d tenant cost value v =
      push_cases IsBounded d tenant cost value v.limit_pos v
        (λ c there room. push_old-IsBounded d tenant _ c there room v)
        (λ c absent room. push_new-IsBounded d tenant _ c absent room v)

  rotate-IsBounded :
      (d : DeficitRoundRobin A) (q : TenantQueue A) (qs : List (TenantQueue A))
      → IsBounded (record d { tenants = q ∷ qs })
      → IsBounded (record d { tenants = qs ++ charge q ∷ [] })
  rotate-IsBounded d q qs v = record {
    limit_pos = v.limit_pos;
    capacity = v.capacity;
    tenants_within = omega (arith, length-append qs (charge q ∷ []), v.tenants_within);
    queues = All-append (IsQueue d.max_per_tenant) qs (charge q ∷ []) v.queues.1 (
      record {
        not_empty = v.queues.0.not_empty;
        within = v.queues.0.within;
        costs = v.queues.0.costs;
        unit_quantum = v.queues.0.unit_quantum;
      },
      tt,
    );
    distinct = snoc-IsDistinct (charge q) qs v.distinct.0 v.distinct.1;
    counted = omega (arith, stored-append qs (charge q ∷ []), v.counted);
  }

  serve-IsBounded :
      (d : DeficitRoundRobin A) (q : TenantQueue A) (qs : List (TenantQueue A))
      → affordable q ≡ true
      → IsBounded (record d { tenants = q ∷ qs })
      → IsBounded (record d { tenants = put_back (served q) qs; total_items = d.total_items - 1 })
  serve-IsBounded d q qs paid v = by_items q.queued refl
    where
      by_items :
          (l : List (ℕ × A))
          → q.queued ≡ l
          → IsBounded
              (record d { tenants = put_back (served q) qs; total_items = d.total_items - 1 })
      by_items [] e = absurd (omega (arith, v.queues.0.not_empty, ap length e))
      by_items (item ∷ []) e =
          rw (e, served, put_back)
            (record {
              limit_pos = v.limit_pos;
              capacity = v.capacity;
              tenants_within = omega (arith, v.tenants_within);
              queues = v.queues.1;
              distinct = v.distinct.1;
              counted = omega (arith, v.counted, ap length e);
            })
      by_items (item ∷ other ∷ rest) e =
          rw (e, served, put_back)
            (record {
              limit_pos = v.limit_pos;
              capacity = v.capacity;
              tenants_within = omega (arith, length-append qs (left ∷ []), v.tenants_within);
              queues = All-append (IsQueue d.max_per_tenant) qs (left ∷ []) v.queues.1 (
                record {
                  not_empty = omega arith;
                  within = omega (arith, v.queues.0.within, ap length e);
                  costs = (subst (All CostFits) e v.queues.0.costs).1;
                  unit_quantum = v.queues.0.unit_quantum;
                },
                tt,
              );
              distinct = snoc-IsDistinct left qs v.distinct.0 v.distinct.1;
              counted = omega (arith, stored-append qs (left ∷ []), v.counted, ap length e);
            })
        where
          left : TenantQueue A
          left = record q { deficit = q.deficit - item.0; queued = other ∷ rest }

  pop_rounds-IsBounded :
      (n : ℕ) (d : DeficitRoundRobin A) (qs : List (TenantQueue A))
      → IsBounded (record d { tenants = qs })
      → IsBounded (pop_rounds n d qs).0
  unfolding pop_rounds
  pop_rounds-IsBounded zero d qs v = v
  pop_rounds-IsBounded (suc n) d [] v = v
  pop_rounds-IsBounded (suc n) d (q ∷ qs) v = elim (Bool-cases (affordable (charge q))) [
    | inl paid ↦ rw paid (serve-IsBounded d (charge q) qs paid (charged v))
    | inr short ↦
        rw short (pop_rounds-IsBounded n d (qs ++ charge q ∷ []) (rotate-IsBounded d q qs v))
  ]
    where
      charged :
          IsBounded (record d { tenants = q ∷ qs })
          → IsBounded (record d { tenants = charge q ∷ qs })
      charged w = record {
        limit_pos = w.limit_pos;
        capacity = w.capacity;
        tenants_within = w.tenants_within;
        queues = (
          record {
            not_empty = w.queues.0.not_empty;
            within = w.queues.0.within;
            costs = w.queues.0.costs;
            unit_quantum = w.queues.0.unit_quantum;
          },
          w.queues.1,
        );
        distinct = w.distinct;
        counted = w.counted;
      }

  -- A pop keeps the scheduler's bounds, whether it yields a value or none.
  pub pop-IsBounded : (d : DeficitRoundRobin A) → IsBounded d → IsBounded (pop d).0
  unfolding pop
  pop-IsBounded d v = pop_rounds-IsBounded (length d.tenants) d d.tenants v
