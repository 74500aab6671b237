-- ===== src/Runtime/Queue/Ring.antt =====
-- The invariant of `DeficitRoundRobin` of runtime.rs, and what its list operations keep of it.
use gaugemesh.Base.{
  ℕ, ◌+◌, ◌*◌, ◌≤◌, ◌<◌, String, ◌≡◌, ◌≢◌, refl, inl, inr, true, false, List, [], ◌∷◌, ◌++◌, arith,
  length, length-append, All, ◌==◌, string_eq, Bool-cases, u64_max, All-append,
}
use text.Mathlib.TextEquality.{eq_iff}
use gaugemesh.Runtime.Queue.{
  TenantQueue, DeficitRoundRobin, new_queue, has_tenant, queue_len, append_to,
}

module _ {A : Type 0} where
  -- The items in all queues.
  abbrev pub stored : List (TenantQueue A) → ℕ
  stored [] = 0
  stored (q ∷ qs) = length q.queued + stored qs

  abbrev pub CostFits : ℕ × A → Type 0
  CostFits item = (1 ≤ item.0) × (item.0 ≤ 10000)

  -- A queue in the ring: not empty, within the limit, its costs in range, its quantum one.
  pub record IsQueue (limit : ℕ) (q : TenantQueue A) : Type 0 where
    pub not_empty : 0 < length q.queued
    pub within : length q.queued ≤ limit
    pub costs : All CostFits q.queued
    pub unit_quantum : q.quantum ≡ 1

  abbrev pub IsFresh : String → List (TenantQueue A) → Type 0
  IsFresh tenant qs = All (λ q. q.tenant ≢ tenant) qs

  -- Every tenant has one queue.
  abbrev pub IsDistinct : List (TenantQueue A) → Type 0
  IsDistinct [] = Unit
  IsDistinct (q ∷ qs) = IsFresh q.tenant qs × IsDistinct qs

  pub record IsBounded (d : DeficitRoundRobin A) : Type 0 where
    pub limit_pos : 0 < d.max_per_tenant
    pub capacity : d.max_tenants * d.max_per_tenant ≤ u64_max
    pub tenants_within : length d.tenants ≤ d.max_tenants
    pub queues : All (IsQueue d.max_per_tenant) d.tenants
    pub distinct : IsDistinct d.tenants
    pub counted : d.total_items ≡ stored d.tenants

  pub stored-append : (xs ys : List (TenantQueue A)) → stored (xs ++ ys) ≡ stored xs + stored ys
  stored-append [] ys = omega arith
  stored-append (x ∷ xs) ys = omega (arith, stored-append xs ys)

  pub stored-le :
      (limit : ℕ) (qs : List (TenantQueue A))
      → All (IsQueue limit) qs
      → stored qs ≤ length qs * limit
  stored-le limit [] h = omega arith
  stored-le limit (q ∷ qs) h = grind (arith, stored-le limit qs h.1, h.0.within)

  -- A new queue goes to the back of the ring.
  pub snoc-IsDistinct :
      (q : TenantQueue A) (qs : List (TenantQueue A))
      → IsFresh q.tenant qs
      → IsDistinct qs
      → IsDistinct (qs ++ q ∷ [])
  snoc-IsDistinct q [] f h = (tt, tt)
  snoc-IsDistinct q (r ∷ qs) f h = (
    All-append (λ s. s.tenant ≢ r.tenant) qs (q ∷ []) h.0 ((λ e. f.0 (cc e)), tt),
    snoc-IsDistinct q qs f.1 h.1,
  )

  pub IsFresh-of_absent :
      (tenant : String) (qs : List (TenantQueue A))
      → has_tenant tenant qs ≡ false
      → IsFresh tenant qs
  IsFresh-of_absent tenant [] h = tt
  IsFresh-of_absent tenant (q ∷ qs) h =
      (ground (arith, eq_iff q.tenant tenant), IsFresh-of_absent tenant qs (ground arith))

  -- `append_to` where the tenant has no queue but the new one at the back.
  pub append_to-new :
      (tenant : String) (item : ℕ × A) (qs : List (TenantQueue A))
      → has_tenant tenant qs ≡ false
      → append_to tenant item (qs ++ new_queue tenant ∷ [])
        ≡ qs ++ record (new_queue tenant) { queued = item ∷ [] } ∷ []
  unfolding append_to
  append_to-new tenant item [] h = ground (arith, eq_iff tenant tenant)
  append_to-new tenant item (q ∷ qs) h = ground (arith, append_to-new tenant item qs)

  pub length-append_to :
      (tenant : String) (item : ℕ × A) (qs : List (TenantQueue A))
      → length (append_to tenant item qs) ≡ length qs
  unfolding append_to
  length-append_to tenant item [] = refl
  length-append_to tenant item (q ∷ qs) = ground (arith, length-append_to tenant item qs)

  pub stored-append_to :
      (tenant : String) (item : ℕ × A) (qs : List (TenantQueue A))
      → has_tenant tenant qs ≡ true
      → stored (append_to tenant item qs) ≡ stored qs + 1
  unfolding append_to
  stored-append_to tenant item [] h = cc
  stored-append_to tenant item (q ∷ qs) h =
      ground (arith, length-append q.queued (item ∷ []), stored-append_to tenant item qs)

  append_to-IsFresh :
      (name tenant : String) (item : ℕ × A) (qs : List (TenantQueue A))
      → IsFresh name qs
      → IsFresh name (append_to tenant item qs)
  unfolding append_to
  append_to-IsFresh name tenant item [] h = tt
  append_to-IsFresh name tenant item (q ∷ qs) h = elim (Bool-cases (q.tenant == tenant)) [
    | inl e ↦ rw e (h.0, h.1)
    | inr e ↦ rw e (h.0, append_to-IsFresh name tenant item qs h.1)
  ]

  pub append_to-IsDistinct :
      (tenant : String) (item : ℕ × A) (qs : List (TenantQueue A))
      → IsDistinct qs
      → IsDistinct (append_to tenant item qs)
  unfolding append_to
  append_to-IsDistinct tenant item [] h = tt
  append_to-IsDistinct tenant item (q ∷ qs) h = elim (Bool-cases (q.tenant == tenant)) [
    | inl e ↦ rw e (h.0, h.1)
    | inr e ↦
        rw e
          (append_to-IsFresh q.tenant tenant item qs h.0, append_to-IsDistinct tenant item qs h.1)
  ]

  enqueue-IsQueue :
      (limit : ℕ) (item : ℕ × A) (q : TenantQueue A)
      → CostFits item
      → length q.queued < limit
      → IsQueue limit q
      → IsQueue limit (record q { queued = q.queued ++ item ∷ [] })
  enqueue-IsQueue limit item q c room v = record {
    not_empty = omega (arith, length-append q.queued (item ∷ []));
    within = omega (arith, length-append q.queued (item ∷ []));
    costs = All-append CostFits q.queued (item ∷ []) v.costs (c, tt);
    unit_quantum = v.unit_quantum;
  }

  pub append_to-IsQueue :
      (limit : ℕ) (tenant : String) (item : ℕ × A) (qs : List (TenantQueue A))
      → CostFits item
      → queue_len tenant qs < limit
      → All (IsQueue limit) qs
      → All (IsQueue limit) (append_to tenant item qs)
  unfolding append_to queue_len
  append_to-IsQueue limit tenant item [] c room h = tt
  append_to-IsQueue limit tenant item (q ∷ qs) c room h = elim (Bool-cases (q.tenant == tenant)) [
    | inl e ↦ rw e (enqueue-IsQueue limit item q c (rw e at room) h.0, h.1)
    | inr e ↦ rw e (h.0, append_to-IsQueue limit tenant item qs c (rw e at room) h.1)
  ]

  pub queue_len-new :
      (tenant : String) (qs : List (TenantQueue A))
      → has_tenant tenant qs ≡ false
      → queue_len tenant (qs ++ new_queue tenant ∷ []) ≡ 0
  unfolding queue_len
  queue_len-new tenant [] h = ground (arith, eq_iff tenant tenant)
  queue_len-new tenant (q ∷ qs) h = ground (arith, queue_len-new tenant qs)
