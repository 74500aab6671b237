-- ===== src/ProcessPool.antt =====
-- crates/gaugemesh-core/src/process_pool.rs: the pool of upstream processes. The source waits for locks
-- and for slots; here a call that would wait says so, and the two phases of `acquire` are two calls,
-- between which other calls may come. Times are milliseconds.
pub mod Slots
pub mod Interleaved
mod Tests
use gaugemesh.Base.{
  ℕ, ◌+◌, ◌-◌, ◌≡◌, ◌↔◌, ap, refl, arith, String, Bool, true, false, not, ◌&&◌, ◌||◌, Option, none,
  some, List, [], ◌∷◌, map, if◌then◌else◌, leb, eqb, keep, length, is_empty_text, Result, ok, err,
  ◌>>=◌, ◌>>◌, reject_if, ok_or, Eq, ◌==◌, ◌!=◌, string_eq, nat_eq, option_eq, pair_eq, get, insert,
  remove,
}
use gaugemesh.Digest.{Sha256Digest}

pub data ShareabilityClass : Type 0 where
  shareable_stateless shareable_with_serialization principal_isolated tenant_isolated
        non_shareable :
      ShareabilityClass

abbrev pub class_rank : ShareabilityClass → ℕ
class_rank shareable_stateless = 0
class_rank shareable_with_serialization = 1
class_rank principal_isolated = 2
class_rank tenant_isolated = 3
class_rank non_shareable = 4

pub class_rank_inj : (a b : ShareabilityClass) → class_rank a ≡ class_rank b → a ≡ b
class_rank_inj a b e = ground arith

pub record ProcessKey : Type 0 where
  pub server_configuration_digest : Sha256Digest
  pub executable_identity : String
  pub protocol_revision : String
  pub tenant_security_partition : String
  pub upstream_credential_identity : Sha256Digest
  pub environment_digest : Sha256Digest
  pub shareability_class : ShareabilityClass
  pub principal_partition : Option String
  pub instance_nonce : Option String

-- The fields by which the derived `PartialEq` compares
abbrev pub KeyFields : Type 0
KeyFields = ℕ × (String × (String × (String × (ℕ × (ℕ × (ℕ × (Option String × Option String)))))))

abbrev pub key_fields : ProcessKey → KeyFields
key_fields k = (
  k.server_configuration_digest,
  (
    k.executable_identity,
    (
      k.protocol_revision,
      (
        k.tenant_security_partition,
        (
          k.upstream_credential_identity,
          (
            k.environment_digest,
            (class_rank k.shareability_class, (k.principal_partition, k.instance_nonce)),
          ),
        ),
      ),
    ),
  ),
)

abbrev pub key_beq : ProcessKey → ProcessKey → Bool
key_beq a b = key_fields a == key_fields b

key_fields_inj : (a b : ProcessKey) → key_fields a ≡ key_fields b → a ≡ b
key_fields_inj a b e =
    let classes = class_rank_inj a.shareability_class b.shareability_class (cc e) in cc (e, classes)

pub key_beq_iff : (a b : ProcessKey) → (key_beq a b ≡ true) ↔ (a ≡ b)
key_beq_iff a b = (
  (λ e. key_fields_inj a b ((pair_eq.same_iff (key_fields a) (key_fields b)).0 e)),
  (λ e. (pair_eq.same_iff (key_fields a) (key_fields b)).1 (ap key_fields e)),
)

instance abbrev pub key_eq : Eq ProcessKey
key_eq = record { same = key_beq; same_iff = key_beq_iff }

-- Each entry holds one slot. Its lock is taken while a permit that serializes is out.
pub record PoolEntry : Type 0 where
  pub generation : ℕ
  pub references : ℕ
  pub restart_budget : ℕ
  pub last_idle_at : Option ℕ
  pub serialization_held : Bool

-- The semaphore is the number of slots that are free.
pub record ProcessPool : Type 0 where
  pub entries : List (ProcessKey × PoolEntry)
  pub free_slots : ℕ
  pub idle_ttl : ℕ

pub record ProcessPermit : Type 0 where
  pub key : ProcessKey
  pub generation : ℕ

abbrev pub is_some : {A : Type 0} → Option A → Bool
is_some none = false
is_some (some a) = true

abbrev pub validate_partition : ShareabilityClass → Bool → Bool → Result String (Unit {0})
validate_partition principal_isolated partition nonce =
    if not partition || nonce then err "GM_POOL_PRINCIPAL_PARTITION_REQUIRED" else ok tt
validate_partition non_shareable partition nonce =
    if not nonce then err "GM_POOL_INSTANCE_NONCE_REQUIRED" else ok tt
validate_partition shareable partition nonce =
    if partition || nonce then err "GM_POOL_PARTITION_CONTRADICTION" else ok tt

unfoldable pub validate_key : ProcessKey → Result String (Unit {0})
validate_key key = do
  reject_if
      (is_empty_text key.executable_identity
        || is_empty_text key.protocol_revision
        || is_empty_text key.tenant_security_partition)
      "GM_POOL_KEY_INCOMPLETE"
  validate_partition key.shareability_class (is_some key.principal_partition)
      (is_some key.instance_nonce)

unfoldable pub bounded : ℕ → ProcessPool
bounded max_processes = record { entries = []; free_slots = max_processes; idle_ttl = 30000 }

unfoldable pub needs_serialization : ProcessKey → Bool
needs_serialization key =
    class_rank key.shareability_class == class_rank shareable_with_serialization

-- A call that waits, or its result
pub data Attempt (A : Type 0) : Type 0 where
  waiting : Attempt A
  finished : A → Attempt A

abbrev pub referenced : PoolEntry → ProcessKey → PoolEntry
referenced entry key = record entry {
  references = entry.references + 1;
  last_idle_at = none;
  serialization_held = needs_serialization key || entry.serialization_held;
}

abbrev pub permit_of : ProcessKey → PoolEntry → ProcessPermit
permit_of key entry = record { key = key; generation = entry.generation }

abbrev pub with_entry : ProcessPool → ProcessKey → PoolEntry → ProcessPool
with_entry pool key entry = record pool { entries = insert pool.entries key entry }

-- One more permit of an entry that is there, for which a serialized one waits for its lock
unfoldable pub join : ProcessPool → ProcessKey → PoolEntry → Attempt (ProcessPermit × ProcessPool)
join pool key entry =
    if needs_serialization key && entry.serialization_held
    then waiting
    else finished (permit_of key entry, with_entry pool key (referenced entry key))

unfoldable pub acquire_existing :
    ProcessPool → ProcessKey → Option (Attempt (ProcessPermit × ProcessPool))
unfolding join
acquire_existing pool key = elim (get pool.entries key) [
  | none ↦ none
  | some entry ↦ some (join pool key entry)
]

-- `acquire_owned()` of the semaphore
unfoldable pub take_slot : ProcessPool → Attempt ProcessPool
take_slot pool =
    if pool.free_slots == 0
    then waiting
    else finished (record pool { free_slots = pool.free_slots - 1 })

abbrev pub new_entry : ProcessKey → PoolEntry
new_entry key = record {
  generation = 1;
  references = 1;
  restart_budget = 2;
  last_idle_at = none;
  serialization_held = needs_serialization key;
}

-- The slot of a permit that joins an entry goes back.
abbrev pub with_slot : ProcessPool → ProcessPool
with_slot pool = record pool { free_slots = pool.free_slots + 1 }

-- The second phase of `acquire`, with a slot in hand
unfoldable pub enter : ProcessPool → ProcessKey → Attempt (ProcessPermit × ProcessPool)
unfolding join
enter pool key = elim (get pool.entries key) [
  | some entry ↦ join (with_slot pool) key entry
  | none ↦ finished (permit_of key (new_entry key), with_entry pool key (new_entry key))
]

-- `acquire` where no other call comes between; a slot that does not become free is a timeout.
unfoldable pub acquire :
    ProcessPool → ProcessKey → Result String (Attempt (ProcessPermit × ProcessPool))
unfolding acquire_existing take_slot enter
acquire pool key = do
  validate_key key
  elim (acquire_existing pool key) [
    | some attempt ↦ ok attempt
    | none ↦ elim (take_slot pool) [
      | waiting ↦ err "GM_POOL_CAPACITY_TIMEOUT"
      | finished taken ↦ ok (enter taken key)
    ]
  ]

abbrev pub idle_at : ℕ → PoolEntry → PoolEntry
idle_at now entry =
    if entry.references == 0 then record entry { last_idle_at = some now } else entry

abbrev pub given_back : PoolEntry → ProcessKey → PoolEntry
given_back entry key = record entry {
  references = entry.references - 1;
  serialization_held = not (needs_serialization key) && entry.serialization_held;
}

abbrev pub released : PoolEntry → ProcessKey → ℕ → PoolEntry
released entry key now = idle_at now (given_back entry key)

unfoldable pub release : ProcessPool → ProcessPermit → ℕ → ProcessPool
release pool permit now = elim (get pool.entries permit.key) [
  | none ↦ pool
  | some entry ↦ with_entry pool permit.key (released entry permit.key now)
]

-- `is_some_and(|idle| now.saturating_duration_since(idle) >= ttl)`
abbrev pub idle_long : Option ℕ → ℕ → ℕ → Bool
idle_long none now ttl = false
idle_long (some idle) now ttl = leb ttl (now - idle)

abbrev pub is_reapable : ℕ → ℕ → ProcessKey × PoolEntry → Bool
is_reapable now ttl entry = entry.1.references == 0 && idle_long entry.1.last_idle_at now ttl

-- An entry that is removed gives its slot back.
unfoldable pub remove_entry : ProcessPool → ProcessKey → ProcessPool
remove_entry pool key = elim (get pool.entries key) [
  | none ↦ pool
  | some entry ↦ with_slot (record pool { entries = remove pool.entries key })
]

unfoldable pub remove_keys : ProcessPool → List ProcessKey → ProcessPool
unfolding remove_entry
remove_keys pool [] = pool
remove_keys pool (key ∷ rest) = remove_keys (remove_entry pool key) rest

unfoldable pub reap_idle : ProcessPool → ℕ → List ProcessKey × ProcessPool
unfolding remove_keys
reap_idle pool now =
    let expired =
      map (λ (e : ProcessKey × PoolEntry). e.0)
        (keep (is_reapable now pool.idle_ttl) pool.entries) in
    (expired, remove_keys pool expired)

unfoldable pub process_count : ProcessPool → ℕ
process_count pool = length pool.entries

abbrev pub restarted : PoolEntry → PoolEntry
restarted entry = record entry {
  restart_budget = entry.restart_budget - 1;
  generation = entry.generation + 1;
}

unfoldable pub record_crash : ProcessPool → ProcessKey → Result String (ℕ × ProcessPool)
record_crash pool key = do
  entry ← ok_or (get pool.entries key) "GM_POOL_PROCESS_NOT_FOUND"
  reject_if (entry.restart_budget == 0) "GM_POOL_RESTART_BUDGET_EXHAUSTED"
  ok (entry.generation + 1, with_entry pool key (restarted entry))
