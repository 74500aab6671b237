-- ===== src/Runtime/Queue/Progress.antt =====
-- How long an item of `DeficitRoundRobin` in runtime.rs can wait.
use gaugemesh.Base.{
  ℕ, zero, suc, ◌+◌, ◌≤◌, ◌<◌, ◌≡◌, ◌≢◌, refl, sym, ◌∙◌, ap, subst, inl, inr, true, false, List, [],
  ◌∷◌, ◌++◌, map, arith, leb, length, All, string_eq, Bool-cases, Option-cases, Option, none, some,
  saturating_add, u64_max,
}
use mathlib.Core.List.{append_assoc, append-nil}
use gaugemesh.Runtime.Queue.{
  TenantQueue, DeficitRoundRobin, charge, affordable, front, pop_rounds, pop,
}
use gaugemesh.Runtime.Queue.Ring.{IsQueue, IsBounded, stored, CostFits}

module _ {A : Type 0} where
  front-some : (q : TenantQueue A) → affordable q ≡ true → front q ≢ none
  front-some q paid e = by_items q.queued refl
    where
      by_items : (l : List (ℕ × A)) → q.queued ≡ l → ⊥
      by_items [] k = cc (rw (k, affordable) at paid)
      by_items (item ∷ rest) k = cc (rw (k, front) at e)

  -- A round of turns that yields nothing: every queue was charged and none could pay.
  round-none :
      (d : DeficitRoundRobin A) (xs ys : List (TenantQueue A))
      → (pop_rounds (length xs) d (xs ++ ys)).1 ≡ none
      → ((pop_rounds (length xs) d (xs ++ ys)).0.tenants ≡ ys ++ map charge xs)
        × All (λ q. affordable (charge q) ≡ false) xs
  unfolding pop_rounds
  round-none d [] ys h = (sym (append-nil ys), tt)
  round-none d (x ∷ xs) ys h = elim (Bool-cases (affordable (charge x))) [
    | inl paid ↦ absurd (front-some (charge x) paid (rw paid at h))
    | inr short ↦
        rw (short, append_assoc xs ys (charge x ∷ []))
          (let later : (pop_rounds (length xs) d (xs ++ (ys ++ charge x ∷ []))).1 ≡ none =
              rw (short, append_assoc xs ys (charge x ∷ [])) at h in
            let (same, all_short) = round-none d xs (ys ++ charge x ∷ []) later in
            (same ∙ append_assoc ys (charge x ∷ []) (map charge xs), (refl, all_short)))
  ]

  -- The value of the first of `n` pops that yields one.
  unfoldable pub pop_until : ℕ → DeficitRoundRobin A → Option A
  pop_until zero d = none
  pop_until (suc n) d = elim (pop d).1 [ none ↦ pop_until n (pop d).0 | some v ↦ some v ]

  -- A pop that yields nothing has charged every queue, and none of them can pay.
  pop-none :
      (d : DeficitRoundRobin A)
      → (pop d).1 ≡ none
      → ((pop d).0.tenants ≡ map charge d.tenants)
        × All (λ q. affordable (charge q) ≡ false) d.tenants
  unfolding pop
  pop-none d = rw (append-nil d.tenants) at (round-none d d.tenants [])

  -- The queue can pay for its first item after `n` turns.
  abbrev IsDueIn : ℕ → TenantQueue A → Type 0
  IsDueIn n q = elim q.queued [ [] ↦ ⊥ | item ∷ rest ↦ (item.0 ≤ q.deficit + n) × (item.0 ≤ 10000) ]

  abbrev FirstIsDueIn : ℕ → List (TenantQueue A) → Type 0
  FirstIsDueIn n [] = ⊥
  FirstIsDueIn n (q ∷ qs) = IsDueIn n q × (q.quantum ≡ 1)

  due_after_charge :
      (n : ℕ) (q : TenantQueue A)
      → q.quantum ≡ 1
      → IsDueIn (suc n) q
      → affordable (charge q) ≡ false
      → IsDueIn n (charge q) × (0 < n)
  due_after_charge n q one due short = by_items q.queued refl
    where
      by_items : (l : List (ℕ × A)) → q.queued ≡ l → IsDueIn n (charge q) × (0 < n)
      by_items [] e = absurd (rw (e, IsDueIn) at due)
      by_items (item ∷ rest) e =
          let now_due : (item.0 ≤ q.deficit + suc n) × (item.0 ≤ 10000) = rw (e, IsDueIn) at due in
          let now_short : leb item.0 (saturating_add u64_max q.deficit q.quantum) ≡ false =
            rw (e, affordable) at short in
          rw (e, IsDueIn) (ground arith)

  pop_until-due :
      (n : ℕ) (d : DeficitRoundRobin A)
      → FirstIsDueIn n d.tenants
      → 0 < n
      → (v : A) × (pop_until n d ≡ some v)
  unfolding pop_until
  pop_until-due zero d due pos = absurd (omega arith)
  pop_until-due (suc n) d due pos = elim (Option-cases (pop d).1) [
    | inl e ↦
        let (same, all_short) = pop-none d e in
        let next : FirstIsDueIn n (pop d).0.tenants × (0 < n) =
          rw same (step d.tenants due all_short) in
        let (v, found) = pop_until-due n (pop d).0 next.0 next.1 in (v, rw (e, pop_until) found)
    | inr (v, e) ↦ (v, rw (e, pop_until))
  ]
    where
      step :
          (qs : List (TenantQueue A))
          → FirstIsDueIn (suc n) qs
          → All (λ q. affordable (charge q) ≡ false) qs
          → FirstIsDueIn n (map charge qs) × (0 < n)
      step [] h k = absurd h
      step (q ∷ qs) h k =
          let (due_now, more) = due_after_charge n q h.1 h.0 k.0 in ((due_now, h.1), more)

  first_is_due :
      (limit : ℕ) (qs : List (TenantQueue A))
      → All (IsQueue limit) qs
      → 0 < stored qs
      → FirstIsDueIn 10000 qs
  first_is_due limit [] h pos = absurd (omega arith)
  first_is_due limit (q ∷ qs) h pos = (by_items q.queued refl, h.0.unit_quantum)
    where
      by_items : (l : List (ℕ × A)) → q.queued ≡ l → IsDueIn 10000 q
      by_items [] e = absurd (omega (arith, h.0.not_empty, ap length e))
      by_items (item ∷ rest) e =
          let (fits, _) = subst (All CostFits) e h.0.costs in rw (e, IsDueIn) (omega arith)

  pub pop-progress :
      (d : DeficitRoundRobin A)
      → IsBounded d
      → 0 < d.total_items
      → (v : A) × (pop_until 10000 d ≡ some v)
  pop-progress d v pos =
      pop_until-due 10000 d
        (first_is_due d.max_per_tenant d.tenants v.queues (omega (arith, v.counted))) (omega arith)
