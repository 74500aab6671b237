-- ===== src/Admission/Moving.antt =====
-- The counts of `AdmissionControl` of admission.rs, and that the next stage of a call keeps them.
use gaugemesh.Base.{
  ℕ, ◌+◌, ◌≤◌, ◌<◌, ◌≡◌, sym, ap, ◌∙◌, subst, arith, String, Bool, true, false, ◌&&◌, ◌||◌, some,
  length, All, All-map, ◌==◌, nat_eq, string_eq, eq_self, get, insert, get-insert_self,
  get-insert_other, get-insert-some, count_values, count_values-insert_present, bit, HasUniqueKeys,
  HasUniqueKeys-insert, Bool-cases, inl, inr,
}
use gaugemesh.Admission.{
  AdmissionControl, TenantAdmission, Call, Stage, max_tracked_tenants, max_global_inflight,
  is_acquiring, is_waiting, is_permitted, is_running, has_admission, restaged,
}

abbrev pub is_live : Stage → Bool
is_live stage = is_acquiring stage || is_running stage

abbrev pub runs : Call → Bool
runs c = is_running c.stage

-- The permits and the queue of the tenant's state at an address
abbrev pub IsBalanced : AdmissionControl → ℕ → TenantAdmission → Type 0
IsBalanced s a state =
    (state.available + count_values (has_admission is_permitted a) s.calls ≡ state.capacity)
    × (state.capacity ≡ s.max_concurrent_per_tenant)
    × (state.queued ≡ count_values (has_admission is_waiting a) s.calls)
    × (state.queued ≤ s.max_queue_per_tenant)

-- The free permits and those that calls hold are all there are, the queue counts the calls that wait,
-- and every call that has not ended stands under its tenant in the map.
pub record IsSound (s : AdmissionControl) : Type 0 where
  pub unique : HasUniqueKeys s.calls
  pub fresh :
      (a : ℕ) (state : TenantAdmission) → get s.admissions a ≡ some state → a < s.next_admission
  pub tracked :
      All
        (λ (x : String × ℕ). (state : TenantAdmission) × (get s.admissions x.1 ≡ some state))
        s.tenants
  pub linked :
      (id : ℕ) (c : Call)
      → get s.calls id ≡ some c
      → is_live c.stage ≡ true
      → get s.tenants c.tenant ≡ some c.admission
  pub permits :
      (a : ℕ) (state : TenantAdmission) → get s.admissions a ≡ some state → IsBalanced s a state
  pub global_permits : s.global + count_values runs s.calls ≡ max_global_inflight
  pub few : length s.tenants ≤ max_tracked_tenants

module _ (s : AdmissionControl) (i : IsSound s) (id : ℕ) (c : Call) (state : TenantAdmission)
    (f : get s.calls id ≡ some c) (g : get s.admissions c.admission ≡ some state)
    (stage : Stage) where
  abbrev next_call : Call
  next_call = record c { stage = stage }

  counted :
      (p : Stage → Bool) (a : ℕ)
      → count_values (has_admission p a) (insert s.calls id next_call)
          + bit (c.admission == a && p c.stage)
        ≡ count_values (has_admission p a) s.calls + bit (c.admission == a && p stage)
  counted p a = count_values-insert_present (has_admission p a) s.calls id next_call c f

  -- The counts of the call's own tenant, and of another one
  counted_own :
      (p : Stage → Bool)
      → count_values (has_admission p c.admission) (insert s.calls id next_call) + bit (p c.stage)
        ≡ count_values (has_admission p c.admission) s.calls + bit (p stage)
  counted_own p = ground (arith, counted p c.admission, eq_self c.admission)

  counted_other :
      (p : Stage → Bool) (a : ℕ)
      → (c.admission == a) ≡ false
      → count_values (has_admission p a) (insert s.calls id next_call)
        ≡ count_values (has_admission p a) s.calls
  counted_other p a apart = ground (arith, counted p a, apart)

  -- What the next stage, the tenant's state and the number of free global permits have to fit.
  pub restaged-IsSound :
      (next : TenantAdmission) (free : ℕ)
      → (is_live stage ≡ true → is_live c.stage ≡ true)
      → next.available + bit (is_permitted stage) ≡ state.available + bit (is_permitted c.stage)
      → next.capacity ≡ state.capacity
      → next.queued + bit (is_waiting c.stage) ≡ state.queued + bit (is_waiting stage)
      → next.queued ≤ s.max_queue_per_tenant
      → free + bit (is_running stage) ≡ s.global + bit (is_running c.stage)
      → IsSound (record (restaged s id c stage next) { global = free })
  restaged-IsSound next free live available capacity queued bound global = record {
    unique = HasUniqueKeys-insert s.calls id next_call i.unique;
    fresh = λ a q h. elim (get-insert-some s.admissions c.admission a next q h) [
      | inl (same, _) ↦ subst (λ b. b < s.next_admission) same (i.fresh c.admission state g)
      | inr (_, old) ↦ i.fresh a q old
    ];
    tracked =
        All-map s.tenants
          (λ x (q, h). elim (Bool-cases (c.admission == x.1)) [
            | inl same ↦ (
              next,
              subst (λ b. get (insert s.admissions c.admission next) b ≡ some next)
                  ((nat_eq.same_iff c.admission x.1).0 same)
                  (get-insert_self s.admissions c.admission next),
            )
            | inr apart ↦ (q, get-insert_other s.admissions c.admission x.1 next apart ∙ h)
          ])
          i.tracked;
    linked = λ j d h alive. elim (get-insert-some s.calls id j next_call d h) [
      | inl (_, same) ↦
          subst (λ (x : Call). get s.tenants x.tenant ≡ some x.admission) same
            (i.linked id c f (live (ap (λ (x : Call). is_live x.stage) same ∙ alive)))
      | inr (_, old) ↦ i.linked j d old alive
    ];
    permits = λ a q h. elim (get-insert-some s.admissions c.admission a next q h) [
      | inl (own, same) ↦
          let (permits, full, waits, _) = i.permits c.admission state g in
          let t = record (restaged s id c stage next) { global = free } in
          subst (λ b. IsBalanced t b q) own
            (subst (IsBalanced t c.admission) same (
              omega (arith, permits, available, capacity, counted_own is_permitted),
              capacity ∙ full,
              omega (arith, waits, queued, counted_own is_waiting),
              bound,
            ))
      | inr (apart, old) ↦
          let (permits, full, waits, within) = i.permits a q old in
          (
            ap (λ n. q.available + n) (counted_other is_permitted a apart) ∙ permits,
            full,
            waits ∙ sym (counted_other is_waiting a apart),
            within,
          )
    ];
    global_permits = omega (
      arith,
      i.global_permits,
      global,
      count_values-insert_present runs s.calls id next_call c f,
    );
    few = i.few;
  }
