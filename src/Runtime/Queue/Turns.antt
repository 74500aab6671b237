-- ===== src/Runtime/Queue/Turns.antt =====
-- What `pop` of `DeficitRoundRobin` in runtime.rs takes from each tenant's items.
use gaugemesh.Base.{
  ℕ, zero, suc, ◌-◌, String, ◌≡◌, ◌≢◌, refl, sym, ◌∙◌, inl, inr, true, List, [], ◌∷◌, ◌++◌, arith,
  if◌then◌else◌, length, ◌==◌, string_eq, Bool-cases, Option, none, some,
}
use text.Mathlib.TextEquality.{eq_iff}
use gaugemesh.Runtime.Queue.{
  TenantQueue, DeficitRoundRobin, charge, put_back, affordable, served, front, pop_rounds, pop,
}
use gaugemesh.Runtime.Queue.Ring.{IsFresh, IsDistinct, IsBounded, snoc-IsDistinct}

module _ {A : Type 0} where
  -- The items that wait for a tenant, oldest first.
  abbrev pub contents : String → List (TenantQueue A) → List (ℕ × A)
  contents tenant [] = []
  contents tenant (q ∷ qs) = if q.tenant == tenant then q.queued else contents tenant qs

  contents-snoc :
      (tenant : String) (q : TenantQueue A) (qs : List (TenantQueue A))
      → IsFresh q.tenant qs
      → contents tenant (qs ++ q ∷ []) ≡ contents tenant (q ∷ qs)
  contents-snoc tenant q [] f = refl
  contents-snoc tenant q (r ∷ qs) f =
      ground
        (arith, contents-snoc tenant q qs f.1, eq_iff q.tenant tenant, eq_iff r.tenant tenant, f.0)

  contents-fresh :
      (tenant : String) (qs : List (TenantQueue A)) → IsFresh tenant qs → contents tenant qs ≡ []
  contents-fresh tenant [] f = refl
  contents-fresh tenant (q ∷ qs) f =
      ground (arith, contents-fresh tenant qs f.1, eq_iff q.tenant tenant, f.0)

  -- What a pop takes from the waiting items.
  abbrev pub Yields : List (TenantQueue A) → List (TenantQueue A) → Option A → Type 0
  Yields before after none = (tenant : String) → contents tenant after ≡ contents tenant before
  Yields before after (some value) =
      (tenant : String) × (cost : ℕ) × (contents tenant before
        ≡ (cost, value) ∷ contents tenant after)
      × ((other : String) → other ≢ tenant → contents other after ≡ contents other before)

  Yields-rotate :
      (q : TenantQueue A) (qs after : List (TenantQueue A)) (o : Option A)
      → IsFresh q.tenant qs
      → Yields (qs ++ charge q ∷ []) after o
      → Yields (q ∷ qs) after o
  Yields-rotate q qs after none f y = λ t. y t ∙ contents-snoc t (charge q) qs f
  Yields-rotate q qs after (some v) f (t, c, h, k) = (
    t,
    c,
    sym (contents-snoc t (charge q) qs f) ∙ h,
    λ u n. k u n ∙ contents-snoc u (charge q) qs f,
  )

  -- A tenant's contents after a paid turn of its queue.
  contents-served :
      (tenant : String) (q : TenantQueue A) (qs : List (TenantQueue A)) (item : ℕ × A)
      (rest : List (ℕ × A))
      → q.queued ≡ item ∷ rest
      → IsFresh q.tenant qs
      → contents tenant (put_back (served q) qs)
        ≡ (if q.tenant == tenant then rest else contents tenant qs)
  contents-served tenant q qs item [] e f =
      rw (e, served, put_back) (ground (arith, eq_iff q.tenant tenant, contents-fresh tenant qs))
  contents-served tenant q qs item (other ∷ rest) e f =
      rw (e, served, put_back)
        (contents-snoc tenant (record q { deficit = q.deficit - item.0; queued = other ∷ rest }) qs
          f)

  serve-Yields :
      (q : TenantQueue A) (qs : List (TenantQueue A))
      → affordable q ≡ true
      → IsFresh q.tenant qs
      → Yields (q ∷ qs) (put_back (served q) qs) (front q)
  serve-Yields q qs paid f = by_items q.queued refl
    where
      by_items :
          (l : List (ℕ × A)) → q.queued ≡ l → Yields (q ∷ qs) (put_back (served q) qs) (front q)
      by_items [] e = cc (rw (e, affordable) at paid)
      by_items (item ∷ rest) e =
          rw (e, front)
            (
              q.tenant,
              item.0,
              ground (arith, contents-served q.tenant q qs item rest e f, eq_iff q.tenant q.tenant),
              λ u n. ground (arith, contents-served u q qs item rest e f, eq_iff q.tenant u),
            )

  pop_rounds-Yields :
      (n : ℕ) (d : DeficitRoundRobin A) (qs : List (TenantQueue A))
      → IsDistinct qs
      → Yields qs (pop_rounds n d qs).0.tenants (pop_rounds n d qs).1
  unfolding pop_rounds
  pop_rounds-Yields zero d qs h = λ t. refl
  pop_rounds-Yields (suc n) d [] h = λ t. refl
  pop_rounds-Yields (suc n) d (q ∷ qs) h = elim (Bool-cases (affordable (charge q))) [
    | inl paid ↦ rw paid (serve-Yields (charge q) qs paid h.0)
    | inr short ↦ rw short (
        Yields-rotate q qs (pop_rounds n d (qs ++ charge q ∷ [])).0.tenants
          (pop_rounds n d (qs ++ charge q ∷ [])).1 h.0
          (pop_rounds-Yields n d (qs ++ charge q ∷ []) (snoc-IsDistinct (charge q) qs h.0 h.1)))
  ]

  -- A pop that yields a value takes the oldest item of one tenant and leaves the items of every
  -- other tenant as they were; a pop that yields none leaves the items of all tenants.
  pub pop-Yields :
      (d : DeficitRoundRobin A) → IsBounded d → Yields d.tenants (pop d).0.tenants (pop d).1
  unfolding pop
  pop-Yields d v = pop_rounds-Yields (length d.tenants) d d.tenants v.distinct
