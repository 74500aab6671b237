-- ===== src/Storage/Purging.antt =====
-- `purge_expired_task_routes` of storage.rs.
use gaugemesh.Base.{
  ℕ, zero, suc, ◌≤◌, ◌<◌, ◌≡◌, ◌⊎◌, refl, sym, ap, subst, arith, Bool, true, false, none, some,
  List, [], ◌∷◌, ◌++◌, if◌then◌else◌, any, length, All, All-map, All_elem, All-append_inv, Elem,
  IsAscending, less, Ord, take, take_while, length-take-le, eq_self, ◌==◌, string_eq, nat_eq,
  pair_eq, get, remove, get-remove, set_remove, set_remove_head, pair_ord, nat_ord, string_ord,
  Bool-cases, inl, inr, eqb,
}
use gaugemesh.Digest.{Hashing}
use gaugemesh.Task.{TaskRouteRecord, PublicTaskId}
use gaugemesh.Task.Record.{is_expired}
use gaugemesh.Storage.{
  MemoryTaskRoutes, caller_eq, without_key, purge_one, purge_all, expired_at,
  bounded_task_route_purge_limit, purge_expired_task_routes,
}
use gaugemesh.Storage.Consistent.{IsConsistent, dropped, dropped-IsConsistent}

module _ {A : Type 0} (p : A → Bool) where
  -- What is left of a list beside its first entries that pass the test.
  abbrev left : ℕ → List A → List A
  left zero xs = xs
  left (suc n) [] = []
  left (suc n) (x ∷ xs) = if p x then left n xs else x ∷ xs

  append-left : (n : ℕ) (xs : List A) → take n (take_while p xs) ++ left n xs ≡ xs
  append-left zero xs = refl
  append-left (suc n) [] = refl
  append-left (suc n) (x ∷ xs) = ground (arith, append-left n xs)

  taken-All : (n : ℕ) (xs : List A) → All (λ x. p x ≡ true) (take n (take_while p xs))
  taken-All zero xs = tt
  taken-All (suc n) [] = tt
  taken-All (suc n) (x ∷ xs) = elim (Bool-cases (p x)) [
    | inl passes ↦ rw passes (passes, taken-All n xs)
    | inr fails ↦ rw fails tt
  ]

  left-All :
      ⦃o : Ord A⦄ (n : ℕ) (xs : List A)
      → ((x y : A) → less x y ≡ true → p x ≡ false → p y ≡ false)
      → IsAscending (λ x. x) xs
      → length (take n (take_while p xs)) < n
      → All (λ x. p x ≡ false) (left n xs)
  left-All zero xs closed a short = absurd (omega (arith, short))
  left-All (suc n) [] closed a short = tt
  left-All (suc n) (x ∷ xs) closed a short = elim (Bool-cases (p x)) [
    | inl passes ↦ rw passes (left-All n xs closed a.1 (ground (arith, passes)))
    | inr fails ↦ rw fails (fails, All-map xs (λ y below. closed x y below fails) a.0)
  ]

module _ (h : Hashing) where
  purge_one-IsConsistent :
      (s : MemoryTaskRoutes) (entry : ℕ × PublicTaskId)
      → IsConsistent h s
      → Elem entry s.by_expiry
      → IsConsistent h (purge_one s entry)
  unfolding purge_one
  purge_one-IsConsistent s (time, id) c there =
      let (r, f, expires) = c.listed time id there in
      let same : purge_one s (time, id) ≡ dropped h s c id r f = rw f (
        ap
          (λ t. record {
            by_id = remove s.by_id id;
            by_idempotency = without_key s.by_idempotency r.caller r.idempotency_key;
            by_expiry = set_remove s.by_expiry (t, id);
          })
          (sym expires)) in
      subst (IsConsistent h) (sym same) (dropped-IsConsistent h s c id r f)

  purge_all-IsConsistent :
      (s : MemoryTaskRoutes) (pending rest : List (ℕ × PublicTaskId))
      → IsConsistent h s
      → s.by_expiry ≡ pending ++ rest
      → IsConsistent h (purge_all s pending) × ((purge_all s pending).by_expiry ≡ rest)
  unfolding purge_all purge_one
  purge_all-IsConsistent s [] rest c e = (c, e)
  purge_all-IsConsistent s (entry ∷ pending) rest c e =
      let here : Elem entry s.by_expiry = rw e (inl refl) in
      let next : (purge_one s entry).by_expiry ≡ pending ++ rest =
        rw e (set_remove_head entry (pending ++ rest)) in
      purge_all-IsConsistent (purge_one s entry) pending rest
        (purge_one-IsConsistent s entry c here) next

get-purge_all :
    (s : MemoryTaskRoutes) (pending : List (ℕ × PublicTaskId)) (id : PublicTaskId)
    → get (purge_all s pending).by_id id
      ≡ (if any (λ entry. entry.1 == id) pending then none else get s.by_id id)
unfolding purge_all purge_one
get-purge_all s [] id = refl
get-purge_all s (entry ∷ pending) id =
    ground (arith, get-purge_all (purge_one s entry) pending id, get-remove s.by_id entry.1 id)

-- Whatever expired before a later entry expired too.
expired_closed :
    (now : ℕ) (x y : ℕ × PublicTaskId)
    → less x y ≡ true
    → expired_at now x ≡ false
    → expired_at now y ≡ false
expired_closed now x y below late = ground arith

before_rest :
    (pending rest : List (ℕ × PublicTaskId)) (x y : ℕ × PublicTaskId)
    → IsAscending (λ x. x) (pending ++ rest)
    → Elem x pending
    → Elem y rest
    → less x y ≡ true
before_rest [] rest x y a e f = absurd e
before_rest (z ∷ pending) rest x y a (inl e) f =
    let below : All (λ y. less z y ≡ true) rest =
      (All-append_inv (λ y. less z y ≡ true) pending rest a.0).1 in
    rw e (All_elem (λ y. less z y ≡ true) rest below f)
before_rest (z ∷ pending) rest x y a (inr e) f = before_rest pending rest x y a.1 e f

Elem-append : {A : Type 0} (xs ys : List A) (x : A) → Elem x xs → Elem x (xs ++ ys)
Elem-append [] ys x e = absurd e
Elem-append (z ∷ xs) ys x (inl e) = inl e
Elem-append (z ∷ xs) ys x (inr e) = inr (Elem-append xs ys x e)

any_taken :
    (pending : List (ℕ × PublicTaskId)) (time : ℕ) (id : PublicTaskId)
    → Elem (time, id) pending
    → any (λ entry. entry.1 == id) pending ≡ true
any_taken [] time id e = absurd e
any_taken (x ∷ pending) time id (inl e) =
    ground (arith, eq_self id, ap (λ (y : ℕ × PublicTaskId). y.1) e)
any_taken (x ∷ pending) time id (inr e) = ground (arith, any_taken pending time id e)

less-le : (x y : ℕ × PublicTaskId) → less x y ≡ true → x.0 ≤ y.0
less-le x y below = ground arith

unless_taken :
    (pending : List (ℕ × PublicTaskId)) (id : PublicTaskId)
    → (any (λ entry. entry.1 == id) pending ≡ false) ⊎ ((time : ℕ) × Elem (time, id) pending)
unless_taken [] id = inl refl
unless_taken ((time, j) ∷ pending) id = elim (Bool-cases (j == id)) [
  | inl same ↦ inr (time, inl (cc ((string_eq.same_iff j id).0 same)))
  | inr apart ↦ elim (unless_taken pending id) [
    | inl rest ↦ inl (ground (arith, apart, rest))
    | inr (t, there) ↦ inr (t, inr there)
  ]
]

module _ (h : Hashing) (s : MemoryTaskRoutes) (c : IsConsistent h s) (now max_records : ℕ) where
  -- A store after a purge, and how many routes it dropped.
  pub record IsPurged (dropped_count : ℕ) (t : MemoryTaskRoutes) : Type 0 where
    pub consistent : IsConsistent h t
    pub at_most : dropped_count ≤ bounded_task_route_purge_limit max_records
    pub kept :
        (id : PublicTaskId) (r : TaskRouteRecord)
        → get s.by_id id ≡ some r
        → (get t.by_id id ≡ some r)
          ⊎ ((get t.by_id id ≡ none)
              × (is_expired r now ≡ true)
              × ((j : PublicTaskId) (q : TaskRouteRecord)
                  → get t.by_id j ≡ some q
                  → r.expires_at_unix_ms ≤ q.expires_at_unix_ms))
    pub nothing_new :
        (id : PublicTaskId) (r : TaskRouteRecord)
        → get t.by_id id ≡ some r
        → get s.by_id id ≡ some r
    pub complete :
        dropped_count < bounded_task_route_purge_limit max_records
        → (id : PublicTaskId) (r : TaskRouteRecord) → get t.by_id id ≡ some r
        → is_expired r now ≡ false

  module _ (limit : ℕ) where
    abbrev taken : List (ℕ × PublicTaskId)
    taken = take limit (take_while (expired_at now) s.by_expiry)

    rest_of : s.by_expiry ≡ taken ++ left (expired_at now) limit s.by_expiry
    rest_of = sym (append-left (expired_at now) limit s.by_expiry)

    after :
        IsConsistent h (purge_all s taken)
        × ((purge_all s taken).by_expiry ≡ left (expired_at now) limit s.by_expiry)
    after = purge_all-IsConsistent h s taken (left (expired_at now) limit s.by_expiry) c rest_of

    still_listed :
        (j : PublicTaskId) (q : TaskRouteRecord)
        → get (purge_all s taken).by_id j ≡ some q
        → Elem (q.expires_at_unix_ms, j) (left (expired_at now) limit s.by_expiry)
    still_listed j q f =
        subst (λ l. Elem (q.expires_at_unix_ms, j) l) after.1 (after.0.expiring j q f)

    oldest :
        (time : ℕ) (id j : PublicTaskId) (q : TaskRouteRecord)
        → Elem (time, id) taken
        → get (purge_all s taken).by_id j ≡ some q
        → time ≤ q.expires_at_unix_ms
    oldest time id j q there later =
        less-le (time, id) (q.expires_at_unix_ms, j)
          (before_rest taken (left (expired_at now) limit s.by_expiry) (time, id)
            (q.expires_at_unix_ms, j) (subst (IsAscending (λ x. x)) rest_of c.ascending) there
            (still_listed j q later))

    IsPurged-kept :
        (id : PublicTaskId) (r : TaskRouteRecord)
        → get s.by_id id ≡ some r
        → (get (purge_all s taken).by_id id ≡ some r)
          ⊎ ((get (purge_all s taken).by_id id ≡ none)
              × (is_expired r now ≡ true)
              × ((j : PublicTaskId) (q : TaskRouteRecord)
                  → get (purge_all s taken).by_id j ≡ some q
                  → r.expires_at_unix_ms ≤ q.expires_at_unix_ms))
    IsPurged-kept id r f = elim (unless_taken taken id) [
      | inl free ↦ inl (ground (arith, get-purge_all s taken id, free))
      | inr (time, there) ↦
          let stored =
            subst (λ l. Elem (time, id) l) (sym rest_of)
              (Elem-append taken (left (expired_at now) limit s.by_expiry) (time, id) there) in
          let (found, g, expires) = c.listed time id stored in
          let same : found ≡ r = cc (f, g) in
          let on_time : r.expires_at_unix_ms ≡ time = cc (same, expires) in
          let expired =
            All_elem (λ x. expired_at now x ≡ true) taken
              (taken-All (expired_at now) limit s.by_expiry) there in
          inr (
            ground (arith, get-purge_all s taken id, any_taken taken time id there),
            ground (arith, on_time, expired),
            λ j q later. omega (arith, on_time, oldest time id j q there later),
          )
    ]

    IsPurged-complete :
        length taken < limit
        → (id : PublicTaskId) (r : TaskRouteRecord) → get (purge_all s taken).by_id id ≡ some r
        → is_expired r now ≡ false
    IsPurged-complete short id r f =
        All_elem (λ x. expired_at now x ≡ false) (left (expired_at now) limit s.by_expiry)
          (left-All (expired_at now) limit s.by_expiry (expired_closed now) c.ascending short)
          (still_listed id r f)

    after-IsPurged :
        limit ≡ bounded_task_route_purge_limit max_records
        → IsPurged (length taken) (purge_all s taken)
    after-IsPurged e = record {
      consistent = after.0;
      at_most = omega (arith, e, length-take-le limit (take_while (expired_at now) s.by_expiry));
      kept = IsPurged-kept;
      nothing_new = λ id r f. ground (arith, get-purge_all s taken id, f);
      complete = λ short. IsPurged-complete (omega (arith, e, short));
    }

    IsPurged-unchanged :
        limit ≡ 0 → limit ≡ bounded_task_route_purge_limit max_records → IsPurged 0 s
    IsPurged-unchanged e e' = record {
      consistent = c;
      at_most = omega arith;
      kept = λ id r f. inl f;
      nothing_new = λ id r f. f;
      complete = λ short. absurd (omega (arith, e, e', short));
    }

  -- A purge of a store whose indexes agree drops no more routes than asked and than the bound of a
  -- call; what it drops has expired, and nothing that stays expires earlier; every other route stays
  -- as it is, the indexes still agree, and where it drops fewer than it may, no expired route is left.
  pub purge_expired_task_routes-IsPurged :
      IsPurged
        (purge_expired_task_routes s now max_records).0
        (purge_expired_task_routes s now max_records).1
  unfolding purge_expired_task_routes
  purge_expired_task_routes-IsPurged =
      elim (Bool-cases (eqb (bounded_task_route_purge_limit max_records) 0)) [
        | inl none_asked ↦ rw none_asked (
            IsPurged-unchanged (bounded_task_route_purge_limit max_records)
              (ground (arith, none_asked)) refl)
        | inr some_asked ↦
            rw some_asked (after-IsPurged (bounded_task_route_purge_limit max_records) refl)
      ]
