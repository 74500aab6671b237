-- ===== src/Runtime/Queue.antt =====
-- crates/gaugemesh-core/src/runtime.rs, `DeficitRoundRobin`: a bounded queue for each tenant, and
-- turns among the tenants by deficit.
pub mod Ring
pub mod Bounds
pub mod Turns
pub mod Progress
pub mod Arrivals
mod Tests
use gaugemesh.Base.{
  ℕ, zero, suc, ◌+◌, ◌-◌, String, Bool, true, false, not, ◌&&◌, ◌||◌, Option, none, some, List, [],
  ◌∷◌, ◌++◌, ltb, leb, if◌then◌else◌, length, any, is_empty, is_empty_text, ◌==◌, string_eq,
  add_u64, max, saturating_add, u64_max, Result, ok, err,
}

pub record TenantQueue (A : Type 0) : Type 0 where
  pub tenant : String
  pub deficit : ℕ
  pub quantum : ℕ
  pub queued : List (ℕ × A)

pub record DeficitRoundRobin (A : Type 0) : Type 0 where
  pub tenants : List (TenantQueue A)
  pub max_per_tenant : ℕ
  pub max_tenants : ℕ
  pub total_items : ℕ

pub record Overloaded : Type 0 where
  pub retry_after_ms : ℕ

abbrev pub overloaded : Overloaded
overloaded = record { retry_after_ms = 100 }

module _ {A : Type 0} where
  -- The caller's `assert!` is that both limits are positive.
  abbrev pub with_limits : ℕ → ℕ → DeficitRoundRobin A
  with_limits max_per_tenant max_tenants = record {
    tenants = [];
    max_per_tenant = max_per_tenant;
    max_tenants = max_tenants;
    total_items = 0;
  }

  abbrev pub new_queue : String → TenantQueue A
  new_queue tenant = record { tenant = tenant; deficit = 0; quantum = 1; queued = [] }

  abbrev pub has_tenant : String → List (TenantQueue A) → Bool
  has_tenant tenant qs = any (λ q. q.tenant == tenant) qs

  -- The tenant's queue is there, or a new one at the back.
  ensure_queue : String → List (TenantQueue A) → List (TenantQueue A)
  ensure_queue tenant qs = if has_tenant tenant qs then qs else qs ++ new_queue tenant ∷ []

  -- The length of the queue at `position(|queue| queue.tenant == tenant)`
  pub queue_len : String → List (TenantQueue A) → ℕ
  queue_len tenant [] = 0
  queue_len tenant (q ∷ qs) = if q.tenant == tenant then length q.queued else queue_len tenant qs

  -- `push_back` on that queue
  pub append_to : String → ℕ × A → List (TenantQueue A) → List (TenantQueue A)
  append_to tenant item [] = []
  append_to tenant item (q ∷ qs) =
      if q.tenant == tenant
      then record q { queued = q.queued ++ item ∷ [] } ∷ qs
      else q ∷ append_to tenant item qs

  -- `push(&mut self, …)`: a refusal of a full queue comes after the queue was made.
  unfoldable pub push :
      DeficitRoundRobin A → String → ℕ → A → DeficitRoundRobin A × Result Overloaded (Unit {0})
  unfolding ensure_queue
  push d tenant cost value =
      let refused =
        is_empty_text tenant
        || ltb 10000 cost
        || (not (has_tenant tenant d.tenants) && leb d.max_tenants (length d.tenants)) in
      let made = record d { tenants = ensure_queue tenant d.tenants } in
      let filled = record made {
        tenants = append_to tenant (max cost 1, value) made.tenants;
        total_items = add_u64 d.total_items 1;
      } in
      if refused
      then (d, err overloaded)
      else if leb d.max_per_tenant (queue_len tenant made.tenants)
      then (made, err overloaded)
      else (filled, ok tt)

  -- The turn of one queue: its deficit grows, and its first item goes out if it is paid for.
  abbrev pub charge : TenantQueue A → TenantQueue A
  charge q = record q { deficit = saturating_add u64_max q.deficit q.quantum }

  abbrev pub put_back : TenantQueue A → List (TenantQueue A) → List (TenantQueue A)
  put_back q qs = if is_empty q.queued then qs else qs ++ q ∷ []

  abbrev pub affordable : TenantQueue A → Bool
  affordable q = elim q.queued [ [] ↦ false | item ∷ rest ↦ leb item.0 q.deficit ]

  -- What a paid turn leaves of the queue, and the value that goes out.
  abbrev pub served : TenantQueue A → TenantQueue A
  served q = elim q.queued [
    | [] ↦ q
    | item ∷ rest ↦ record q { queued = rest; deficit = q.deficit - item.0 }
  ]

  abbrev pub front : TenantQueue A → Option A
  front q = elim q.queued [ [] ↦ none | item ∷ rest ↦ some item.1 ]

  -- The body of the `for` loop with the rounds that are left.
  unfoldable pub pop_rounds :
      ℕ → DeficitRoundRobin A → List (TenantQueue A) → DeficitRoundRobin A × Option A
  pop_rounds zero d qs = (record d { tenants = qs }, none)
  pop_rounds (suc n) d [] = (record d { tenants = [] }, none)
  pop_rounds (suc n) d (q ∷ qs) =
      let waiting = pop_rounds n d (qs ++ charge q ∷ []) in
      if affordable (charge q)
      then (
        record d { tenants = put_back (served (charge q)) qs; total_items = d.total_items - 1 },
        front (charge q),
      )
      else waiting

  unfoldable pub pop : DeficitRoundRobin A → DeficitRoundRobin A × Option A
  unfolding pop_rounds
  pop d = pop_rounds (length d.tenants) d d.tenants
