-- ===== src/Runtime/Queue/Arrivals.antt =====
-- What an accepted `push` of `DeficitRoundRobin` in runtime.rs adds.
use gaugemesh.Base.{
  ℕ, String, ◌≡◌, true, List, [], ◌∷◌, ◌++◌, arith, if◌then◌else◌, ◌==◌, string_eq, ok, max,
}
use text.Mathlib.TextEquality.{eq_iff}
use gaugemesh.Runtime.Queue.{TenantQueue, DeficitRoundRobin, new_queue, has_tenant, append_to, push}
use gaugemesh.Runtime.Queue.Turns.{contents}

module _ {A : Type 0} where
  contents-append_to :
      (tenant other : String) (item : ℕ × A) (qs : List (TenantQueue A))
      → has_tenant tenant qs ≡ true
      → contents other (append_to tenant item qs)
        ≡ (if other == tenant then contents other qs ++ item ∷ [] else contents other qs)
  unfolding append_to
  contents-append_to tenant other item [] h = cc
  contents-append_to tenant other item (q ∷ qs) h = ground (
    arith,
    contents-append_to tenant other item qs,
    eq_iff q.tenant tenant,
    eq_iff q.tenant other,
    eq_iff other tenant,
  )

  contents-new :
      (tenant other : String) (qs : List (TenantQueue A))
      → contents other (qs ++ new_queue tenant ∷ []) ≡ contents other qs
  contents-new tenant other [] = ground arith
  contents-new tenant other (q ∷ qs) = ground (arith, contents-new tenant other qs)

  has_tenant-new :
      (tenant : String) (qs : List (TenantQueue A))
      → has_tenant tenant (qs ++ new_queue tenant ∷ []) ≡ true
  has_tenant-new tenant [] = ground (arith, eq_iff tenant tenant)
  has_tenant-new tenant (q ∷ qs) = ground (arith, has_tenant-new tenant qs)

  -- A push that is accepted puts the value, at a cost of at least one, behind the tenant's items
  -- and leaves the items of every other tenant.
  pub contents-push :
      (d : DeficitRoundRobin A) (tenant : String) (cost : ℕ) (value : A) (other : String)
      → (push d tenant cost value).1 ≡ ok tt
      → contents other (push d tenant cost value).0.tenants ≡ (
          if other == tenant
          then contents other d.tenants ++ (max cost 1, value) ∷ []
          else contents other d.tenants)
  unfolding push
  contents-push d tenant cost value other h = ground (
    arith,
    contents-append_to tenant other (max cost 1, value) d.tenants,
    contents-append_to tenant other (max cost 1, value) (d.tenants ++ new_queue tenant ∷ []),
    contents-new tenant other d.tenants,
    has_tenant-new tenant d.tenants,
  )
