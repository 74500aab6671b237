-- ===== src/Admission/Interleaved.antt =====
-- The calls of `AdmissionControl` of admission.rs in any order, stage by stage.
use gaugemesh.Base.{
  ℕ, ◌≤◌, ◌≡◌, refl, sym, ◌∙◌, subst, arith, String, Bool, true, ◌&&◌, none, some, length, ◌==◌,
  string_eq, nat_eq, eq_self, get, count_values, count_values-follows, count_values-none,
  Option-cases, Bool-cases, inl, inr, get-All,
}
use gaugemesh.Admission.{
  AdmissionControl, TenantAdmission, Call, Stage, looked_up, waiting, permitted, running,
  max_tracked_tenants, max_global_inflight, new, is_waiting, is_permitted, has_admission, look_up,
  try_permit, await_permit, time_out, take_global, leave,
}
use gaugemesh.Admission.Moving.{IsSound, is_live, runs}
use gaugemesh.Admission.Stages.{
  try_permit-IsSound, await_permit-IsSound, time_out-IsSound, take_global-IsSound, leave-IsSound,
}
use gaugemesh.Admission.LookingUp.{permitted-live, waiting-live, look_up-IsSound}

-- A call in a stage, with what is behind its `Arc`
abbrev pub IsIn : AdmissionControl → ℕ → Stage → Call → TenantAdmission → Type 0
IsIn s id stage c state =
    (get s.calls id ≡ some c) × (get s.admissions c.admission ≡ some state) × (c.stage ≡ stage)

-- One stage of one call
pub data Step : AdmissionControl → AdmissionControl → Type 0 where
  looks_up :
      {s : AdmissionControl} (t : AdmissionControl) (id : ℕ) (tenant : String)
      → get s.calls id ≡ none
      → t ≡ (look_up s id tenant).1
      → Step s t
  tries :
      {s : AdmissionControl} (t : AdmissionControl) (id : ℕ) (c : Call) (state : TenantAdmission)
      → IsIn s id looked_up c state
      → t ≡ (try_permit s id c state).1
      → Step s t
  awaits :
      {s : AdmissionControl} (t : AdmissionControl) (id : ℕ) (c : Call) (state : TenantAdmission)
      → IsIn s id waiting c state
      → t ≡ (await_permit s id c state).1
      → Step s t
  times_out :
      {s : AdmissionControl} (t : AdmissionControl) (id : ℕ) (c : Call) (state : TenantAdmission)
      → IsIn s id waiting c state
      → t ≡ (time_out s id c state).1
      → Step s t
  takes_global :
      {s : AdmissionControl} (t : AdmissionControl) (id : ℕ) (c : Call) (state : TenantAdmission)
      → IsIn s id permitted c state
      → t ≡ (take_global s id c state).1
      → Step s t
  leaves :
      {s : AdmissionControl} (t : AdmissionControl) (id : ℕ) (c : Call) (state : TenantAdmission)
      → IsIn s id running c state
      → t ≡ leave s id c state
      → Step s t

pub data Reached : AdmissionControl → Type 0 where
  at_start :
      (s : AdmissionControl) (max_concurrent max_queue : ℕ)
      → s ≡ new max_concurrent max_queue
      → Reached s
  after : {s t : AdmissionControl} → Reached s → Step s t → Reached t

new-IsSound : (max_concurrent max_queue : ℕ) → IsSound (new max_concurrent max_queue)
new-IsSound max_concurrent max_queue = record {
  unique = tt;
  fresh = λ a state g. cc;
  tracked = tt;
  linked = λ id c f live. cc;
  permits = λ a state g. cc;
  global_permits = refl;
  few = omega arith;
}

Step-IsSound : {s t : AdmissionControl} → IsSound s → Step s t → IsSound t
Step-IsSound {s} i (looks_up t id tenant unused e) = rw e (look_up-IsSound s id tenant i unused)
Step-IsSound {s} i (tries t id c state (f, g, k) e) = rw e (try_permit-IsSound s i id c state f g k)
Step-IsSound {s} i (awaits t id c state (f, g, k) e) =
    rw e (await_permit-IsSound s i id c state f g k)
Step-IsSound {s} i (times_out t id c state (f, g, k) e) =
    rw e (time_out-IsSound s i id c state f g k)
Step-IsSound {s} i (takes_global t id c state (f, g, k) e) =
    rw e (take_global-IsSound s i id c state f g k)
Step-IsSound {s} i (leaves t id c state (f, g, k) e) = rw e (leave-IsSound s i id c state f g k)

pub Reached-IsSound : {s : AdmissionControl} → Reached s → IsSound s
Reached-IsSound (at_start s max_concurrent max_queue e) =
    rw e (new-IsSound max_concurrent max_queue)
Reached-IsSound (after run step) = Step-IsSound (Reached-IsSound run) step

abbrev pub of_tenant : (Stage → Bool) → String → Call → Bool
of_tenant p tenant c = c.tenant == tenant && p c.stage

module _ (s : AdmissionControl) (i : IsSound s) (p : Stage → Bool)
    (alive : (stage : Stage) → p stage ≡ true → is_live stage ≡ true) (tenant : String) where
  -- The calls of a tenant that is in the map share the tenant's state.
  tracked_calls :
      (a : ℕ)
      → get s.tenants tenant ≡ some a
      → count_values (of_tenant p tenant) s.calls ≤ count_values (has_admission p a) s.calls
  tracked_calls a there =
      count_values-follows (of_tenant p tenant) (has_admission p a) s.calls i.unique
        (λ id c f holds.
          let live = alive c.stage (ground (arith, holds)) in
          let named : c.tenant ≡ tenant =
            (string_eq.same_iff c.tenant tenant).0 (ground (arith, holds)) in
          let linked =
            subst (λ t. get s.tenants t ≡ some c.admission) named (i.linked id c f live) in
          let same : c.admission ≡ a = cc in ground (arith, holds, same, eq_self a))

  untracked_calls : get s.tenants tenant ≡ none → count_values (of_tenant p tenant) s.calls ≡ 0
  untracked_calls missing = count_values-none (of_tenant p tenant) s.calls i.unique (λ id c f.
      elim (Bool-cases (of_tenant p tenant c)) [
        | inl holds ↦
            let live = alive c.stage (ground (arith, holds)) in
            let named : c.tenant ≡ tenant =
              (string_eq.same_iff c.tenant tenant).0 (ground (arith, holds)) in
            let linked =
              subst (λ t. get s.tenants t ≡ some c.admission) named (i.linked id c f live) in
            let bad : none ≡ some c.admission = sym missing ∙ linked in cc
        | inr fails ↦ fails
      ])

-- What the limits promise of a tenant, and of all
abbrev pub IsBounded : AdmissionControl → String → Type 0
IsBounded s tenant =
    (count_values (of_tenant is_permitted tenant) s.calls ≤ s.max_concurrent_per_tenant)
    × (count_values (of_tenant is_waiting tenant) s.calls ≤ s.max_queue_per_tenant)
    × (count_values runs s.calls ≤ max_global_inflight)
    × (length s.tenants ≤ max_tracked_tenants)

IsSound-IsBounded : (s : AdmissionControl) (tenant : String) → IsSound s → IsBounded s tenant
IsSound-IsBounded s tenant i = elim (Option-cases (get s.tenants tenant)) [
  | inl missing ↦ (
    omega (arith, untracked_calls s i is_permitted permitted-live tenant missing),
    omega (arith, untracked_calls s i is_waiting waiting-live tenant missing),
    omega (arith, i.global_permits),
    i.few,
  )
  | inr (a, there) ↦
      let (state, g) =
        get-All (λ b. (state : TenantAdmission) × (get s.admissions b ≡ some state)) s.tenants
          tenant a i.tracked there in
      let (permits, full, waits, within) = i.permits a state g in
      (
        omega (arith, permits, full, tracked_calls s i is_permitted permitted-live tenant a there),
        omega (arith, waits, within, tracked_calls s i is_waiting waiting-live tenant a there),
        omega (arith, i.global_permits),
        i.few,
      )
]

-- However the stages of the calls interleave, and whichever tenants are dropped from the map on the
-- way: no tenant has more calls with its permit than it may run at once nor more calls in its queue than
-- the queue holds, at most 256 requests run, and at most 1024 tenants are in the map.
pub Reached-IsBounded : {s : AdmissionControl} → Reached s → (tenant : String) → IsBounded s tenant
Reached-IsBounded {s} run tenant = IsSound-IsBounded s tenant (Reached-IsSound run)
