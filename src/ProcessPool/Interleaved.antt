-- ===== src/ProcessPool/Interleaved.antt =====
-- Every call of the pool of process_pool.rs keeps its counts, however the calls interleave.
use gaugemesh.Base.{
  ℕ, ◌+◌, ◌-◌, ◌≤◌, ◌≡◌, ◌≢◌, refl, ap, subst, arith, Bool, true, Option, none, some, List, [], ◌∷◌,
  ◌++◌, map, if◌then◌else◌, All, keep, ok, reject_if_ok, >>=_ok, ok_or, ok_or_ok, ok_pair,
  Bool-cases, Option-cases, inl, inr, ◌==◌, string_eq, nat_eq, eq_self, get, remove,
  get-remove_other, get-remove_self, length-insert_present, length-remove, HasUniqueKeys-insert,
  HasUniqueKeys-remove, HasUniqueKeys-get,
}
use gaugemesh.ProcessPool.{
  ProcessKey, given_back, bounded, process_count, key_eq, PoolEntry, ProcessPool, ProcessPermit,
  finished, validate_key, needs_serialization, join, acquire_existing, take_slot, new_entry,
  with_slot, enter, idle_at, released, release, is_reapable, permit_of, with_entry, remove_entry,
  remove_keys, reap_idle, restarted, record_crash,
}
use gaugemesh.ProcessPool.Slots.{
  permits_of, PoolState, Counts, IsSound, Step, joined, slot_taken, entered, returned, reaped,
  crashed, Counts-insert, finished_pair, join-IsSound, new-IsSound, Reached, at_start, then_,
  start_of,
}

permits_front :
    (front back : List ProcessPermit) (permit : ProcessPermit) (key : ProcessKey)
    → permits_of key (front ++ (permit ∷ back))
      ≡ (if permit.key == key then 1 else 0) + permits_of key (front ++ back)
permits_front [] back permit key = refl
permits_front (p ∷ front) back permit key = omega (arith, permits_front front back permit key)

idle_at-Counts :
    (key : ProcessKey) (entry : PoolEntry) (n now : ℕ)
    → Counts key (some entry) n
    → Counts key (some (idle_at now entry)) n
idle_at-Counts key entry n now counts = elim (Bool-cases (entry.references == 0)) [
  | inl idle ↦ rw idle counts
  | inr used ↦ rw used counts
]

released-Counts :
    (key : ProcessKey) (entry : PoolEntry) (n now : ℕ)
    → Counts key (some entry) (n + 1)
    → Counts key (some (released entry key now)) n
released-Counts key entry n now (references, budget, valid, serialized) =
    idle_at-Counts key (given_back entry key) n now (
      omega (arith, references),
      budget,
      valid,
      λ needs. elim (serialized needs) [
        | inl (held, one) ↦ inr (ground (arith, needs), omega (arith, one))
        | inr (held, none_out) ↦ absurd (omega (arith, none_out))
      ],
    )

release_found :
    (pool : ProcessPool) (permit : ProcessPermit) (entry : PoolEntry) (now : ℕ)
    → get pool.entries permit.key ≡ some entry
    → release pool permit now ≡ with_entry pool permit.key (released entry permit.key now)
unfolding release
release_found pool permit entry now found = rw (found, release) refl

remove_entry_found :
    (pool : ProcessPool) (key : ProcessKey) (entry : PoolEntry)
    → get pool.entries key ≡ some entry
    → remove_entry pool key ≡ with_slot (record pool { entries = remove pool.entries key })
unfolding remove_entry
remove_entry_found pool key entry found = rw (found, remove_entry) refl

remove_entry_missing :
    (pool : ProcessPool) (key : ProcessKey)
    → get pool.entries key ≡ none
    → remove_entry pool key ≡ pool
unfolding remove_entry
remove_entry_missing pool key missing = rw (missing, remove_entry) refl

module _ (max_processes : ℕ) where
  existing-IsSound :
      (s : PoolState) (key : ProcessKey) (permit : ProcessPermit) (after : ProcessPool)
      → IsSound max_processes s
      → acquire_existing s.pool key ≡ some (finished (permit, after))
      → IsSound max_processes (record s { pool = after; permits = permit ∷ s.permits })
  unfolding acquire_existing
  existing-IsSound s key permit after sound e = elim (Option-cases (get s.pool.entries key)) [
    | inl missing ↦ ground (arith, missing, e)
    | inr (entry, found) ↦
        let attempt : some (join s.pool key entry) ≡ some (finished (permit, after)) =
          ground (arith, found, e) in
        join-IsSound max_processes s s.pool after key permit entry s.slots_in_hand sound refl
          sound.slots found (cc attempt)
  ]

  enter-IsSound :
      (s : PoolState) (key : ProcessKey) (permit : ProcessPermit) (after : ProcessPool) (others : ℕ)
      → IsSound max_processes s
      → s.slots_in_hand ≡ others + 1
      → validate_key key ≡ ok tt
      → enter s.pool key ≡ finished (permit, after)
      → IsSound max_processes
          (record { pool = after; slots_in_hand = others; permits = permit ∷ s.permits })
  unfolding enter
  enter-IsSound s key permit after others sound hand valid e =
      elim (Option-cases (get s.pool.entries key)) [
        | inl missing ↦
            let run : finished
                  (permit_of key (new_entry key), with_entry s.pool key (new_entry key))
                ≡ finished (permit, after) =
              ground (arith, missing, e) in
            let (the_permit, the_pool) =
              finished_pair (permit_of key (new_entry key)) permit
                (with_entry s.pool key (new_entry key)) after run in
            rw (the_permit, the_pool)
              (new-IsSound max_processes s key others sound hand valid missing)
        | inr (entry, found) ↦
            let attempt : join (with_slot s.pool) key entry ≡ finished (permit, after) =
              ground (arith, found, e) in
            join-IsSound max_processes s (with_slot s.pool) after key permit entry others sound refl
              (omega (arith, sound.slots, hand)) found attempt
      ]

  release-IsSound :
      (s : PoolState) (permit : ProcessPermit) (front back : List ProcessPermit) (now : ℕ)
      → IsSound max_processes s
      → s.permits ≡ front ++ (permit ∷ back)
      → IsSound max_processes
          (record s { pool = release s.pool permit now; permits = front ++ back })
  release-IsSound s permit front back now sound here =
      let out : permits_of permit.key s.permits ≡ permits_of permit.key (front ++ back) + 1 =
        ground (
          arith,
          ap (permits_of permit.key) here,
          permits_front front back permit permit.key,
          eq_self permit.key,
        ) in
      elim (Option-cases (get s.pool.entries permit.key)) [
        | inl missing ↦
            let none_out : permits_of permit.key s.permits ≡ 0 =
              subst (λ o. Counts permit.key o (permits_of permit.key s.permits)) missing
                (sound.counts permit.key) in
            absurd (omega (arith, out, none_out))
        | inr (entry, found) ↦
            let before =
              subst (λ o. Counts permit.key o (permits_of permit.key s.permits)) found
                (sound.counts permit.key) in
            rw (release_found s.pool permit entry now found) (record {
              slots = omega (
                arith,
                sound.slots,
                length-insert_present s.pool.entries permit.key (released entry permit.key now)
                    entry found,
              );
              unique =
                  HasUniqueKeys-insert s.pool.entries permit.key (released entry permit.key now)
                    sound.unique;
              counts =
                  Counts-insert s.pool.entries permit.key (released entry permit.key now) s.permits
                    (front ++ back) sound.counts
                    (released-Counts permit.key entry (permits_of permit.key (front ++ back)) now
                      (subst (λ n. Counts permit.key (some entry) n) out before))
                    (λ other apart. ground (
                      arith,
                      apart,
                      ap (permits_of other) here,
                      permits_front front back permit other,
                    ));
            })
      ]

  crash-IsSound :
      (s : PoolState) (key : ProcessKey) (generation : ℕ) (after : ProcessPool)
      → IsSound max_processes s
      → record_crash s.pool key ≡ ok (generation, after)
      → IsSound max_processes (record s { pool = after }) × (generation ≤ 3)
  unfolding record_crash
  crash-IsSound s key generation after sound e =
      let (entry, f, e1) =
        >>=_ok (ok_or (get s.pool.entries key) "GM_POOL_PROCESS_NOT_FOUND") _ e in
      let found = ok_or_ok (get s.pool.entries key) "GM_POOL_PROCESS_NOT_FOUND" f in
      let (left, e2) = reject_if_ok (entry.restart_budget == 0) _ _ e1 in
      let (same, next) =
        ok_pair (entry.generation + 1) generation (with_entry s.pool key (restarted entry)) after
          e2 in
      let (references, budget, valid, serialized) =
        subst (λ o. Counts key o (permits_of key s.permits)) found (sound.counts key) in
      let some_left : entry.restart_budget ≢ 0 = λ gone. ground (arith, left, gone) in
      (
        rw next (record {
          slots = omega (
            arith,
            sound.slots,
            length-insert_present s.pool.entries key (restarted entry) entry found,
          );
          unique = HasUniqueKeys-insert s.pool.entries key (restarted entry) sound.unique;
          counts =
              Counts-insert s.pool.entries key (restarted entry) s.permits s.permits sound.counts
                (references, omega (arith, budget, some_left), valid, serialized)
                (λ other apart. refl);
        }),
        omega (arith, same, budget, some_left),
      )

  -- A key with no permit out
  remove_entry-IsSound :
      (s : PoolState) (key : ProcessKey)
      → IsSound max_processes s
      → permits_of key s.permits ≡ 0
      → IsSound max_processes (record s { pool = remove_entry s.pool key })
  remove_entry-IsSound s key sound none_out = elim (Option-cases (get s.pool.entries key)) [
    | inl missing ↦ rw (remove_entry_missing s.pool key missing) sound
    | inr (entry, found) ↦ rw (remove_entry_found s.pool key entry found) (record {
      slots = omega (arith, sound.slots, length-remove s.pool.entries key entry found);
      unique = HasUniqueKeys-remove s.pool.entries key sound.unique;
      counts = λ other. elim (Bool-cases (key == other)) [
        | inl same ↦
            subst (λ k. Counts k (get (remove s.pool.entries key) k) (permits_of k s.permits))
              ((key_eq.same_iff key other).0 same)
              (rw (get-remove_self s.pool.entries key) none_out)
        | inr apart ↦ rw (get-remove_other s.pool.entries key other apart) (sound.counts other)
      ];
    })
  ]

  remove_keys-IsSound :
      (s : PoolState) (keys : List ProcessKey)
      → IsSound max_processes s
      → All (λ key. permits_of key s.permits ≡ 0) keys
      → IsSound max_processes (record s { pool = remove_keys s.pool keys })
  unfolding remove_keys
  remove_keys-IsSound s [] sound h = sound
  remove_keys-IsSound s (key ∷ keys) sound h =
      remove_keys-IsSound (record s { pool = remove_entry s.pool key }) keys
        (remove_entry-IsSound s key sound h.0) h.1

  idle_keys :
      (s : PoolState) (p : ProcessKey × PoolEntry → Bool) (entries : List (ProcessKey × PoolEntry))
      → IsSound max_processes s
      → ((e : ProcessKey × PoolEntry) → p e ≡ true → e.1.references ≡ 0)
      → All (λ (e : ProcessKey × PoolEntry). get s.pool.entries e.0 ≡ some e.1) entries
      → All
          (λ key. permits_of key s.permits ≡ 0)
          (map (λ (e : ProcessKey × PoolEntry). e.0) (keep p entries))
  idle_keys s p [] sound idle h = tt
  idle_keys s p (e ∷ entries) sound idle h = elim (Bool-cases (p e)) [
    | inl reap ↦
        let (references, _, _, _) =
          subst (λ o. Counts e.0 o (permits_of e.0 s.permits)) h.0 (sound.counts e.0) in
        rw reap (omega (arith, references, idle e reap), idle_keys s p entries sound idle h.1)
    | inr keep_it ↦ rw keep_it (idle_keys s p entries sound idle h.1)
  ]

  reap-IsSound :
      (s : PoolState) (now : ℕ)
      → IsSound max_processes s
      → IsSound max_processes (record s { pool = (reap_idle s.pool now).1 })
  unfolding reap_idle
  reap-IsSound s now sound =
      remove_keys-IsSound s
        (map (λ (e : ProcessKey × PoolEntry). e.0)
          (keep (is_reapable now s.pool.idle_ttl) s.pool.entries))
        sound
        (idle_keys s (is_reapable now s.pool.idle_ttl) s.pool.entries sound
          (λ e reap. ground (arith, reap)) (HasUniqueKeys-get s.pool.entries sound.unique))

  slot-IsSound :
      (s : PoolState) (after : ProcessPool)
      → IsSound max_processes s
      → take_slot s.pool ≡ finished after
      → IsSound max_processes (record s { pool = after; slots_in_hand = s.slots_in_hand + 1 })
  unfolding take_slot
  slot-IsSound s after sound e = elim (Bool-cases (s.pool.free_slots == 0)) [
    | inl none_free ↦ ground (arith, none_free, e)
    | inr free ↦
        let run : finished (record s.pool { free_slots = s.pool.free_slots - 1 }) ≡ finished after =
          ground (arith, free, e) in
        let same : record s.pool { free_slots = s.pool.free_slots - 1 } ≡ after = cc run in
        let positive : s.pool.free_slots ≢ 0 = λ gone. ground (arith, free, gone) in
        rw (← same) (record {
          slots = omega (arith, sound.slots, positive);
          unique = sound.unique;
          counts = sound.counts;
        })
  ]

  Step-IsSound : {s t : PoolState} → IsSound max_processes s → Step s t → IsSound max_processes t
  Step-IsSound {s} sound (joined key permit after valid e) =
      existing-IsSound s key permit after sound e
  Step-IsSound {s} sound (slot_taken after e) = slot-IsSound s after sound e
  Step-IsSound {s} sound (entered key permit after others hand valid e) =
      enter-IsSound s key permit after others sound hand valid e
  Step-IsSound {s} sound (returned permit front back now here) =
      release-IsSound s permit front back now sound here
  Step-IsSound {s} sound (reaped now) = reap-IsSound s now sound
  Step-IsSound {s} sound (crashed key generation after e) =
      (crash-IsSound s key generation after sound e).0

  start-IsSound : (s : PoolState) → s ≡ start_of max_processes → IsSound max_processes s
  unfolding bounded
  start-IsSound s e = rw e (record { slots = omega arith; unique = tt; counts = λ key. refl })

  pub Reached-IsSound : {s : PoolState} → Reached max_processes s → IsSound max_processes s
  Reached-IsSound (at_start s e) = start-IsSound s e
  Reached-IsSound (then_ run step) = Step-IsSound (Reached-IsSound run) step

  -- At most as many processes as the pool is for, at most one permit out of a serialized key, and no
  -- generation beyond the third, whatever calls came before.
  pub Reached-bounds :
      {s : PoolState}
      → Reached max_processes s
      → (process_count s.pool ≤ max_processes)
        × ((key : ProcessKey) → needs_serialization key ≡ true → permits_of key s.permits ≤ 1)
        × ((key : ProcessKey) (generation : ℕ) (after : ProcessPool)
            → record_crash s.pool key ≡ ok (generation, after)
            → generation ≤ 3)
  unfolding process_count
  Reached-bounds {s} run =
      let sound = Reached-IsSound run in
      (
        omega (arith, sound.slots),
        λ key needs. serialized key (get s.pool.entries key) needs (sound.counts key),
        λ key generation after e. (crash-IsSound s key generation after sound e).1,
      )
    where
      serialized :
          (key : ProcessKey) (o : Option PoolEntry)
          → needs_serialization key ≡ true
          → Counts key o (permits_of key s.permits)
          → permits_of key s.permits ≤ 1
      serialized key none needs none_out = omega (arith, none_out)
      serialized key (some entry) needs (_, _, _, locked) = elim (locked needs) [
        | inl (_, one) ↦ omega (arith, one)
        | inr (_, none_out) ↦ omega (arith, none_out)
      ]
