-- ===== src/Admission/LookingUp.antt =====
-- The lookup of a tenant in `acquire` of admission.rs: who is dropped for it, and the new entry.
use gaugemesh.Base.{
  ℕ, ◌+◌, ◌<◌, ◌≡◌, refl, sym, ap, ◌∙◌, subst, arith, String, Bool, true, false, leb, Option, none,
  some, length, All-map, ◌==◌, nat_eq, string_eq, eq_self, get, insert, get-insert_self,
  get-insert_other, get-insert-some, length-insert, All-insert, All-keep, get-All, get-keep,
  length-keep, count_values, count_values-insert_absent, count_values-get, count_values-none,
  HasUniqueKeys-insert, Bool-cases, inl, inr,
}
use gaugemesh.Admission.{
  AdmissionControl, TenantAdmission, Call, Stage, looked_up, waiting, permitted, running, ended,
  max_tracked_tenants, is_acquiring, is_waiting, is_permitted, has_admission, is_retained,
  is_crowded, make_room, start_call, track, enter_tenant, look_up,
}
use gaugemesh.Admission.Moving.{IsSound, IsBalanced, is_live, runs}

live_cases :
    (stage : Stage) → is_live stage ≡ true → is_acquiring stage ≡ false → is_permitted stage ≡ true
live_cases looked_up h k = cc
live_cases waiting h k = cc
live_cases permitted h k = refl
live_cases running h k = refl
live_cases ended h k = cc

pub permitted-live : (stage : Stage) → is_permitted stage ≡ true → is_live stage ≡ true
permitted-live looked_up h = refl
permitted-live waiting h = refl
permitted-live permitted h = refl
permitted-live running h = refl
permitted-live ended h = cc

pub waiting-live : (stage : Stage) → is_waiting stage ≡ true → is_live stage ≡ true
waiting-live looked_up h = refl
waiting-live waiting h = refl
waiting-live permitted h = refl
waiting-live running h = refl
waiting-live ended h = cc

module _ (s : AdmissionControl) (i : IsSound s) where
  -- The tenant of a call that has not ended is not dropped.
  live-is_retained :
      (id : ℕ) (c : Call)
      → get s.calls id ≡ some c
      → is_live c.stage ≡ true
      → is_retained s (c.tenant, c.admission) ≡ true
  live-is_retained id c f live =
      let linked = i.linked id c f live in
      let (state, g) =
        get-All (λ a. (state : TenantAdmission) × (get s.admissions a ≡ some state)) s.tenants
          c.tenant c.admission i.tracked linked in
      let (permits, _, _, _) = i.permits c.admission state g in
      elim (Bool-cases (is_acquiring c.stage)) [
        | inl acquiring ↦
            let counted =
              count_values-get (has_admission is_acquiring c.admission) s.calls id c f
                (ground (arith, acquiring, eq_self c.admission)) in
            ground (arith, g, counted)
        | inr after ↦
            let counted =
              count_values-get (has_admission is_permitted c.admission) s.calls id c f
                (ground (arith, live_cases c.stage live after, eq_self c.admission)) in
            let taken : (state.available == state.capacity) ≡ false =
              ground (arith, permits, counted) in
            ground (arith, g, taken)
      ]

  pub make_room-IsSound : (tenant : String) → IsSound (make_room s tenant)
  unfolding make_room
  make_room-IsSound tenant = elim (Bool-cases (is_crowded s tenant)) [
    | inl crowded ↦ rw crowded (record {
      unique = i.unique;
      fresh = i.fresh;
      tracked =
          All-keep
            (λ (x : String × ℕ). (state : TenantAdmission) × (get s.admissions x.1 ≡ some state))
            (is_retained s) s.tenants i.tracked;
      linked = λ id c f live.
          get-keep (is_retained s) s.tenants c.tenant c.admission (i.linked id c f live)
            (live-is_retained id c f live);
      permits = i.permits;
      global_permits = i.global_permits;
      few = omega (arith, length-keep (is_retained s) s.tenants, i.few);
    })
    | inr enough ↦ rw enough i
  ]

  module _ (id : ℕ) (tenant : String) (a : ℕ) (unused : get s.calls id ≡ none) where
    abbrev new_call : Call
    new_call = record { tenant = tenant; admission = a; stage = looked_up }

    uncounted :
        (p : Stage → Bool) (b : ℕ)
        → p looked_up ≡ false
        → count_values (has_admission p b) (insert s.calls id new_call)
          ≡ count_values (has_admission p b) s.calls
    uncounted p b out =
        ground
          (arith, count_values-insert_absent (has_admission p b) s.calls id new_call unused, out)

    start_call-IsSound : get s.tenants tenant ≡ some a → IsSound (start_call s id tenant a)
    start_call-IsSound there = record {
      unique = HasUniqueKeys-insert s.calls id new_call i.unique;
      fresh = i.fresh;
      tracked = i.tracked;
      linked = λ j d f live. elim (get-insert-some s.calls id j new_call d f) [
        | inl (_, same) ↦ subst (λ (x : Call). get s.tenants x.tenant ≡ some x.admission) same there
        | inr (_, old) ↦ i.linked j d old live
      ];
      permits = λ b q h.
          let (permits, full, waits, within) = i.permits b q h in
          (
            ap (λ n. q.available + n) (uncounted is_permitted b refl) ∙ permits,
            full,
            waits ∙ sym (uncounted is_waiting b refl),
            within,
          );
      global_permits =
          omega
            (arith, i.global_permits, count_values-insert_absent runs s.calls id new_call unused);
      few = i.few;
    }

  -- No call holds what is behind an address that is not in use.
  unheld :
      (p : Stage → Bool)
      → ((stage : Stage) → p stage ≡ true → is_live stage ≡ true)
      → count_values (has_admission p s.next_admission) s.calls ≡ 0
  unheld p alive = count_values-none (has_admission p s.next_admission) s.calls i.unique (λ id c f.
      elim (Bool-cases (has_admission p s.next_admission c)) [
        | inl holds ↦
            let linked = i.linked id c f (alive c.stage (ground (arith, holds))) in
            let (state, g) =
              get-All (λ a. (state : TenantAdmission) × (get s.admissions a ≡ some state)) s.tenants
                c.tenant c.admission i.tracked linked in
            let old = i.fresh c.admission state g in
            let here : (c.admission == s.next_admission) ≡ true = ground (arith, holds) in
            let same : c.admission ≡ s.next_admission =
              (nat_eq.same_iff c.admission s.next_admission).0 here in
            absurd (omega (arith, old, same))
        | inr fails ↦ fails
      ])

  untracked :
      (tenant : String) (id : ℕ) (c : Call)
      → get s.tenants tenant ≡ none
      → get s.tenants c.tenant ≡ some c.admission
      → (tenant == c.tenant) ≡ false
  untracked tenant id c missing there = elim (Bool-cases (tenant == c.tenant)) [
    | inl same ↦
        let clash : get s.tenants tenant ≡ some c.admission =
          subst (λ t. get s.tenants t ≡ some c.admission)
            (sym ((string_eq.same_iff tenant c.tenant).0 same)) there in
        let bad : none ≡ some c.admission = sym missing ∙ clash in cc
    | inr apart ↦ apart
  ]

  abbrev new_state : TenantAdmission
  new_state = record {
    available = s.max_concurrent_per_tenant;
    queued = 0;
    capacity = s.max_concurrent_per_tenant;
  }

  track-IsSound :
      (tenant : String)
      → get s.tenants tenant ≡ none
      → length s.tenants < max_tracked_tenants
      → IsSound (track s tenant)
  track-IsSound tenant missing room = record {
    unique = i.unique;
    fresh = λ a q h. elim (get-insert-some s.admissions s.next_admission a new_state q h) [
      | inl (same, _) ↦ omega (arith, same)
      | inr (_, old) ↦ omega (arith, i.fresh a q old)
    ];
    tracked =
        All-insert
          (λ (x : String × ℕ).
            (state : TenantAdmission) × (get (insert s.admissions s.next_admission new_state) x.1
              ≡ some state))
          s.tenants tenant s.next_admission
          (All-map s.tenants
            (λ x (q, h).
              let old = i.fresh x.1 q h in
              let apart : (s.next_admission == x.1) ≡ false = ground (arith, old) in
              (q, get-insert_other s.admissions s.next_admission x.1 new_state apart ∙ h))
            i.tracked)
          (new_state, get-insert_self s.admissions s.next_admission new_state);
    linked = λ id c f live.
        let there = i.linked id c f live in
        get-insert_other s.tenants tenant c.tenant s.next_admission
          (untracked tenant id c missing there)
        ∙ there;
    permits = λ a q h. elim (get-insert-some s.admissions s.next_admission a new_state q h) [
      | inl (own, same) ↦
          subst (λ b. IsBalanced (track s tenant) b q) own
            (subst (IsBalanced (track s tenant) s.next_admission) same (
              omega (arith, unheld is_permitted permitted-live),
              refl,
              sym (unheld is_waiting waiting-live),
              omega arith,
            ))
      | inr (_, old) ↦ i.permits a q old
    ];
    global_permits = i.global_permits;
    few = omega (arith, length-insert s.tenants tenant s.next_admission, room);
  }

module _ (s : AdmissionControl) (id : ℕ) (tenant : String) where
  make_room-calls : (make_room s tenant).calls ≡ s.calls
  unfolding make_room
  make_room-calls = elim (Bool-cases (is_crowded s tenant)) [
    | inl crowded ↦ rw crowded refl
    | inr enough ↦ rw enough refl
  ]

  enter_tenant-IsSound :
      (o : Option ℕ)
      → IsSound s
      → get s.calls id ≡ none
      → get s.tenants tenant ≡ o
      → IsSound (enter_tenant s id tenant o).1
  unfolding enter_tenant
  enter_tenant-IsSound (some a) i unused there = start_call-IsSound s i id tenant a unused there
  enter_tenant-IsSound none i unused missing =
      elim (Bool-cases (leb max_tracked_tenants (length s.tenants))) [
        | inl full ↦ rw full i
        | inr room ↦ rw room (
            start_call-IsSound (track s tenant)
              (track-IsSound s i tenant missing (ground (arith, room))) id tenant s.next_admission
              unused (get-insert_self s.tenants tenant s.next_admission))
      ]

pub look_up-IsSound :
    (s : AdmissionControl) (id : ℕ) (tenant : String)
    → IsSound s
    → get s.calls id ≡ none
    → IsSound (look_up s id tenant).1
unfolding look_up
look_up-IsSound s id tenant i unused =
    let room = make_room s tenant in
    enter_tenant-IsSound room id tenant (get room.tenants tenant) (make_room-IsSound s i tenant)
      (subst (λ m. get m id ≡ none) (sym (make_room-calls s id tenant)) unused) refl
