-- ===== src/Admission/Tests.antt =====
-- Runs of `AdmissionControl` of admission.rs, with one permit and one place in the queue for each tenant.
use gaugemesh.Base.{◌≡◌, refl, some}
use gaugemesh.Admission.{
  AdmissionControl, TenantAdmission, Call, Stage, tenant_queue, looked_up, permitted, running,
  waiting, ended, new, start_call, track, restaged, look_up, make_room, enter_tenant, try_permit,
  take_global,
}
use gaugemesh.Admission.Interleaved.{
  Reached, at_start, after, looks_up, tries, takes_global, IsBounded, Reached-IsBounded,
}

abbrev free : TenantAdmission
free = record { available = 1; queued = 0; capacity = 1 }

abbrev taken : TenantAdmission
taken = record { available = 0; queued = 0; capacity = 1 }

abbrev crowded : TenantAdmission
crowded = record { available = 0; queued = 1; capacity = 1 }

abbrev call_in : Stage → Call
call_in stage = record { tenant = "tenant-a"; admission = 0; stage = stage }

abbrev found : AdmissionControl
found = start_call (track (new 1 1) "tenant-a") 0 "tenant-a" 0

abbrev admitted : AdmissionControl
admitted = restaged found 0 (call_in looked_up) permitted taken

abbrev served : AdmissionControl
served = record (restaged admitted 0 (call_in permitted) running taken) { global = 255 }

abbrev second : AdmissionControl
second = start_call served 1 "tenant-a" 0

abbrev queue : AdmissionControl
queue = restaged second 1 (call_in looked_up) waiting crowded

abbrev third : AdmissionControl
third = start_call queue 2 "tenant-a" 0

reached : Reached queue
unfolding look_up make_room enter_tenant try_permit take_global
reached =
    after
      (after
        (after
          (after (after (at_start (new 1 1) 1 1 refl) (looks_up found 0 "tenant-a" refl refl))
            (tries admitted 0 (call_in looked_up) free (refl, refl, refl) refl))
          (takes_global served 0 (call_in permitted) taken (refl, refl, refl) refl))
        (looks_up second 1 "tenant-a" refl refl))
      (tries queue 1 (call_in looked_up) taken (refl, refl, refl) refl)

Reached-IsBounded_example : IsBounded queue "tenant-a"
Reached-IsBounded_example = Reached-IsBounded reached "tenant-a"

-- A third call finds the queue full.
refused :
    try_permit third 2 (call_in looked_up) crowded
    ≡ (some tenant_queue, restaged third 2 (call_in looked_up) ended crowded)
unfolding try_permit
refused = refl
