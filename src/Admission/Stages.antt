-- ===== src/Admission/Stages.antt =====
-- The stages of a call of `acquire` of admission.rs after the lookup of its tenant.
use gaugemesh.Base.{
  ℕ, ◌+◌, ◌-◌, ◌≤◌, ◌≡◌, refl, arith, true, ltb, ltb→lt, some, nat_eq, eq_self, get,
  count_values-get, Bool-cases, inl, inr,
}
use gaugemesh.Admission.{
  AdmissionControl, TenantAdmission, Call, looked_up, waiting, permitted, running, ended,
  has_admission, is_waiting, returned_permit, try_permit, await_permit, time_out, take_global,
  leave,
}
use gaugemesh.Admission.Moving.{IsSound, restaged-IsSound}

module _ (s : AdmissionControl) (i : IsSound s) (id : ℕ) (c : Call) (state : TenantAdmission)
    (f : get s.calls id ≡ some c) (g : get s.admissions c.admission ≡ some state) where
  queued_call : c.stage ≡ waiting → 1 ≤ state.queued
  queued_call at_stage =
      let (_, _, waits, _) = i.permits c.admission state g in
      let here : has_admission is_waiting c.admission c ≡ true =
        rw at_stage (ground (arith, eq_self c.admission)) in
      omega
        (arith, waits, count_values-get (has_admission is_waiting c.admission) s.calls id c f here)

  pub try_permit-IsSound : c.stage ≡ looked_up → IsSound (try_permit s id c state).1
  unfolding try_permit
  try_permit-IsSound at_stage =
      let (_, _, _, within) = i.permits c.admission state g in
      elim (Bool-cases (ltb 0 state.available)) [
        | inl free ↦
            let positive = ltb→lt 0 state.available free in
            rw free (
              restaged-IsSound s i id c state f g permitted
                (record state { available = state.available - 1 }) s.global (λ _. rw at_stage refl)
                (rw at_stage (omega (arith, positive))) refl (rw at_stage refl) within
                (rw at_stage refl))
        | inr taken ↦ elim (Bool-cases (ltb state.queued s.max_queue_per_tenant)) [
          | inl room ↦
              rw (taken, room)
                (restaged-IsSound s i id c state f g waiting
                  (record state { queued = state.queued + 1 }) s.global (λ _. rw at_stage refl)
                  (rw at_stage refl) refl (rw at_stage (omega arith))
                  (omega (arith, ltb→lt state.queued s.max_queue_per_tenant room))
                  (rw at_stage refl))
          | inr full ↦
              rw (taken, full)
                (restaged-IsSound s i id c state f g ended state s.global (λ live. absurd (cc))
                  (rw at_stage refl) refl (rw at_stage refl) within (rw at_stage refl))
        ]
      ]

  pub await_permit-IsSound : c.stage ≡ waiting → IsSound (await_permit s id c state).1
  unfolding await_permit
  await_permit-IsSound at_stage =
      let (_, _, _, within) = i.permits c.admission state g in
      let queued = queued_call at_stage in
      elim (Bool-cases (ltb 0 state.available)) [
        | inl free ↦
            let positive = ltb→lt 0 state.available free in
            rw free (
              restaged-IsSound s i id c state f g permitted
                (record state { available = state.available - 1; queued = state.queued - 1 })
                s.global (λ _. rw at_stage refl) (rw at_stage (omega (arith, positive))) refl
                (rw at_stage (omega (arith, queued))) (omega (arith, within)) (rw at_stage refl))
        | inr taken ↦ rw taken i
      ]

  pub time_out-IsSound : c.stage ≡ waiting → IsSound (time_out s id c state).1
  unfolding time_out
  time_out-IsSound at_stage =
      let (_, _, _, within) = i.permits c.admission state g in
      let queued = queued_call at_stage in
      restaged-IsSound s i id c state f g ended (record state { queued = state.queued - 1 })
        s.global (λ live. absurd (cc)) (rw at_stage refl) refl (rw at_stage (omega (arith, queued)))
        (omega (arith, within)) (rw at_stage refl)

  pub take_global-IsSound : c.stage ≡ permitted → IsSound (take_global s id c state).1
  unfolding take_global
  take_global-IsSound at_stage =
      let (_, _, _, within) = i.permits c.admission state g in
      elim (Bool-cases (ltb 0 s.global)) [
        | inl free ↦
            let positive = ltb→lt 0 s.global free in
            rw free (
              restaged-IsSound s i id c state f g running state (s.global - 1)
                (λ _. rw at_stage refl) (rw at_stage refl) refl (rw at_stage refl) within
                (rw at_stage (omega (arith, positive))))
        | inr taken ↦ rw taken (
            restaged-IsSound s i id c state f g ended (returned_permit state) s.global
              (λ live. absurd (cc)) (rw at_stage (omega arith)) refl (rw at_stage refl) within
              (rw at_stage refl))
      ]

  pub leave-IsSound : c.stage ≡ running → IsSound (leave s id c state)
  unfolding leave
  leave-IsSound at_stage =
      let (_, _, _, within) = i.permits c.admission state g in
      restaged-IsSound s i id c state f g ended (returned_permit state) (s.global + 1)
        (λ live. absurd (cc)) (rw at_stage (omega arith)) refl (rw at_stage refl) within
        (rw at_stage (omega arith))
