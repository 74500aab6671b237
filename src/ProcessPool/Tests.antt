-- ===== src/ProcessPool/Tests.antt =====
-- A run of the pool of process_pool.rs: a permit is taken, given back, and its entry reaped.
use gaugemesh.Base.{◌≡◌, refl, none, [], ◌∷◌}
use gaugemesh.ProcessPool.{
  ProcessKey, shareable_with_serialization, ProcessPool, new_entry, permit_of, with_entry,
  take_slot, enter, waiting, validate_key, needs_serialization, bounded,
}
use gaugemesh.ProcessPool.Slots.{
  PoolState, IsSound, Reached, at_start, then_, start_of, slot_taken, entered,
}
use gaugemesh.ProcessPool.Interleaved.{Reached-IsSound}

abbrev key : ProcessKey
key = record {
  server_configuration_digest = 1;
  executable_identity = "/reviewed/server";
  protocol_revision = "2026-07-28";
  tenant_security_partition = "tenant-a";
  upstream_credential_identity = 2;
  environment_digest = 3;
  shareability_class = shareable_with_serialization;
  principal_partition = none;
  instance_nonce = none;
}

abbrev taken : ProcessPool
taken = record { entries = []; free_slots = 1; idle_ttl = 30000 }

abbrev after : ProcessPool
after = with_entry taken key (new_entry key)

abbrev in_use : PoolState
in_use = record { pool = after; slots_in_hand = 0; permits = permit_of key (new_entry key) ∷ [] }

reached : Reached 2 in_use
unfolding take_slot enter bounded validate_key
reached = then_ (then_ (at_start (start_of 2) refl) (slot_taken {s = start_of 2} taken refl)) (
    entered {s = record { pool = taken; slots_in_hand = 1; permits = [] }} key
      (permit_of key (new_entry key)) after 0 refl refl refl)

Reached-IsSound_example : IsSound 2 in_use
Reached-IsSound_example = Reached-IsSound 2 reached

waits : enter (record after { free_slots = 0 }) key ≡ waiting
unfolding enter needs_serialization
waits = refl
