-- ===== src/ProcessPool/Slots.antt =====
-- The pool of process_pool.rs under interleaved calls: its slots, references and restarts.
use gaugemesh.Base.{
  ℕ, ◌+◌, ◌≤◌, ◌≡◌, ◌⊎◌, refl, subst, arith, true, false, ◌&&◌, Option, none, some, List, [], ◌∷◌,
  ◌++◌, if◌then◌else◌, length, ok, Bool-cases, inl, inr, ◌==◌, string_eq, nat_eq, eq_self, get,
  insert, get-insert_self, get-insert_other, length-insert, length-insert_present, HasUniqueKeys,
  HasUniqueKeys-insert,
}
use gaugemesh.ProcessPool.{
  bounded, ProcessKey, key_eq, PoolEntry, ProcessPool, ProcessPermit, Attempt, finished,
  validate_key, needs_serialization, referenced, join, acquire_existing, take_slot, new_entry,
  enter, release, permit_of, with_entry, reap_idle, record_crash,
}

-- The permits of a key that are out
abbrev pub permits_of : ProcessKey → List ProcessPermit → ℕ
permits_of key [] = 0
permits_of key (p ∷ rest) = (if p.key == key then 1 else 0) + permits_of key rest

-- The pool, the slots that calls hold between the phases of `acquire`, and the permits that are out
pub record PoolState : Type 0 where
  pub pool : ProcessPool
  pub slots_in_hand : ℕ
  pub permits : List ProcessPermit

-- How an entry, or none, counts the permits of its key: a serialized one has at most one permit,
-- whose lock it holds; and what was restarted has been taken off the budget.
abbrev pub Counts : ProcessKey → Option PoolEntry → ℕ → Type 0
Counts key none permits = permits ≡ 0
Counts key (some entry) permits =
    (entry.references ≡ permits)
    × (entry.restart_budget + entry.generation ≡ 3)
    × (validate_key key ≡ ok tt)
    × (needs_serialization key ≡ true
        → ((entry.serialization_held ≡ true) × (permits ≡ 1))
          ⊎ ((entry.serialization_held ≡ false) × (permits ≡ 0)))

pub record IsSound (max_processes : ℕ) (s : PoolState) : Type 0 where
  pub slots : length s.pool.entries + s.pool.free_slots + s.slots_in_hand ≤ max_processes
  pub unique : HasUniqueKeys s.pool.entries
  pub counts : (key : ProcessKey) → Counts key (get s.pool.entries key) (permits_of key s.permits)

-- One call, or one phase of a call
pub data Step : PoolState → PoolState → Type 0 where
  joined :
      {s : PoolState} (key : ProcessKey) (permit : ProcessPermit) (after : ProcessPool)
      → validate_key key ≡ ok tt
      → acquire_existing s.pool key ≡ some (finished (permit, after))
      → Step s (record s { pool = after; permits = permit ∷ s.permits })
  slot_taken :
      {s : PoolState} (after : ProcessPool)
      → take_slot s.pool ≡ finished after
      → Step s (record s { pool = after; slots_in_hand = s.slots_in_hand + 1 })
  entered :
      {s : PoolState} (key : ProcessKey) (permit : ProcessPermit) (after : ProcessPool) (others : ℕ)
      → s.slots_in_hand ≡ others + 1
      → validate_key key ≡ ok tt
      → enter s.pool key ≡ finished (permit, after)
      → Step s (record { pool = after; slots_in_hand = others; permits = permit ∷ s.permits })
  returned :
      {s : PoolState} (permit : ProcessPermit) (front back : List ProcessPermit) (now : ℕ)
      → s.permits ≡ front ++ (permit ∷ back)
      → Step s (record s { pool = release s.pool permit now; permits = front ++ back })
  reaped : {s : PoolState} (now : ℕ) → Step s (record s { pool = (reap_idle s.pool now).1 })
  crashed :
      {s : PoolState} (key : ProcessKey) (generation : ℕ) (after : ProcessPool)
      → record_crash s.pool key ≡ ok (generation, after)
      → Step s (record s { pool = after })

abbrev pub start_of : ℕ → PoolState
start_of max_processes = record { pool = bounded max_processes; slots_in_hand = 0; permits = [] }

-- The states that calls reach from the new pool
pub data Reached (max_processes : ℕ) : PoolState → Type 0 where
  at_start : (s : PoolState) → s ≡ start_of max_processes → Reached max_processes s
  then_ : {s t : PoolState} → Reached max_processes s → Step s t → Reached max_processes t

-- The counts after the entry of one key has changed
pub Counts-insert :
    (entries : List (ProcessKey × PoolEntry)) (key : ProcessKey) (entry : PoolEntry)
    (before after : List ProcessPermit)
    → ((other : ProcessKey) → Counts other (get entries other) (permits_of other before))
    → Counts key (some entry) (permits_of key after)
    → ((other : ProcessKey)
        → (key == other) ≡ false
        → permits_of other after ≡ permits_of other before)
    → (other : ProcessKey)
    → Counts other (get (insert entries key entry) other) (permits_of other after)
Counts-insert entries key entry before after old here kept other =
    elim (Bool-cases (key == other)) [
      | inl same ↦
          subst (λ k. Counts k (get (insert entries key entry) k) (permits_of k after))
            ((key_eq.same_iff key other).0 same) (rw (get-insert_self entries key entry) here)
      | inr apart ↦
          rw (get-insert_other entries key other entry apart, kept other apart) (old other)
    ]

pub permits_other :
    (permit : ProcessPermit) (permits : List ProcessPermit) (other : ProcessKey)
    → (permit.key == other) ≡ false
    → permits_of other (permit ∷ permits) ≡ permits_of other permits
permits_other permit permits other apart = ground (arith, apart)

pub permits_self :
    (permit : ProcessPermit) (permits : List ProcessPermit)
    → permits_of permit.key (permit ∷ permits) ≡ permits_of permit.key permits + 1
permits_self permit permits = ground (arith, eq_self permit.key)

referenced-Counts :
    (key : ProcessKey) (entry : PoolEntry) (n : ℕ)
    → Counts key (some entry) n
    → (needs_serialization key && entry.serialization_held) ≡ false
    → Counts key (some (referenced entry key)) (n + 1)
referenced-Counts key entry n (references, budget, valid, serialized) free = (
  omega (arith, references),
  budget,
  valid,
  λ needs. elim (serialized needs) [
    | inl (held, one) ↦ ground (arith, held, needs, free)
    | inr (held, none_out) ↦ inl (ground (arith, needs), omega (arith, none_out))
  ],
)

pub finished_pair :
    (a c : ProcessPermit) (b d : ProcessPool)
    → ◌≡◌ {A = Attempt (ProcessPermit × ProcessPool)} (finished (a, b)) (finished (c, d))
    → (c ≡ a) × (d ≡ b)
finished_pair a c b d e = (cc e, cc e)

join_lem :
    (pool after : ProcessPool) (key : ProcessKey) (permit : ProcessPermit) (entry : PoolEntry)
    → join pool key entry ≡ finished (permit, after)
    → ((needs_serialization key && entry.serialization_held) ≡ false)
      × (permit ≡ permit_of key entry)
      × (after ≡ with_entry pool key (referenced entry key))
unfolding join
join_lem pool after key permit entry j =
    elim (Bool-cases (needs_serialization key && entry.serialization_held)) [
      | inl taken ↦ ground (arith, taken, j)
      | inr free ↦
          let run : finished (permit_of key entry, with_entry pool key (referenced entry key))
              ≡ finished (permit, after) =
            ground (arith, free, j) in
          let (same, next) =
            finished_pair (permit_of key entry) permit (with_entry pool key (referenced entry key))
              after run in
          (free, same, next)
    ]

abbrev with_permit : ProcessPool → ℕ → ProcessKey → PoolEntry → List ProcessPermit → PoolState
with_permit pool hand key entry permits = record {
  pool = pool;
  slots_in_hand = hand;
  permits = permit_of key entry ∷ permits;
}

module _ (max_processes : ℕ) where
  joined-IsSound :
      (s : PoolState) (pool : ProcessPool) (key : ProcessKey) (entry : PoolEntry) (hand : ℕ)
      → IsSound max_processes s
      → pool.entries ≡ s.pool.entries
      → length s.pool.entries + pool.free_slots + hand ≤ max_processes
      → get s.pool.entries key ≡ some entry
      → (needs_serialization key && entry.serialization_held) ≡ false
      → IsSound max_processes
          (with_permit (with_entry pool key (referenced entry key)) hand key entry s.permits)
  joined-IsSound s pool key entry hand sound same room found free = rw same (record {
    slots =
        omega (
          arith,
          room,
          length-insert_present s.pool.entries key (referenced entry key) entry found,
        );
    unique = HasUniqueKeys-insert s.pool.entries key (referenced entry key) sound.unique;
    counts =
        Counts-insert s.pool.entries key (referenced entry key) s.permits
          (permit_of key entry ∷ s.permits) sound.counts
          (rw (permits_self (permit_of key entry) s.permits) (
            referenced-Counts key entry (permits_of key s.permits)
              (subst (λ o. Counts key o (permits_of key s.permits)) found (sound.counts key)) free))
          (permits_other (permit_of key entry) s.permits);
  })

  pub join-IsSound :
      (s : PoolState) (pool after : ProcessPool) (key : ProcessKey) (permit : ProcessPermit)
      (entry : PoolEntry) (hand : ℕ)
      → IsSound max_processes s
      → pool.entries ≡ s.pool.entries
      → length s.pool.entries + pool.free_slots + hand ≤ max_processes
      → get s.pool.entries key ≡ some entry
      → join pool key entry ≡ finished (permit, after)
      → IsSound max_processes
          (record { pool = after; slots_in_hand = hand; permits = permit ∷ s.permits })
  join-IsSound s pool after key permit entry hand sound same room found j =
      let (free, the_permit, the_pool) = join_lem pool after key permit entry j in
      rw (the_permit, the_pool) (joined-IsSound s pool key entry hand sound same room found free)

  pub new-IsSound :
      (s : PoolState) (key : ProcessKey) (hand : ℕ)
      → IsSound max_processes s
      → s.slots_in_hand ≡ hand + 1
      → validate_key key ≡ ok tt
      → get s.pool.entries key ≡ none
      → IsSound max_processes
          (with_permit (with_entry s.pool key (new_entry key)) hand key (new_entry key) s.permits)
  new-IsSound s key hand sound taken valid missing =
      let none_out : permits_of key s.permits ≡ 0 =
        subst (λ o. Counts key o (permits_of key s.permits)) missing (sound.counts key) in
      record {
        slots = omega (arith, sound.slots, taken, length-insert s.pool.entries key (new_entry key));
        unique = HasUniqueKeys-insert s.pool.entries key (new_entry key) sound.unique;
        counts =
            Counts-insert s.pool.entries key (new_entry key) s.permits
              (permit_of key (new_entry key) ∷ s.permits) sound.counts
              (rw (permits_self (permit_of key (new_entry key)) s.permits, none_out)
                (refl, refl, valid, λ needs. inl (needs, refl)))
              (permits_other (permit_of key (new_entry key)) s.permits);
      }
