-- ===== src/Lease/Grants.antt =====
-- What `authorize` and `authorize_invocation` of lease.rs grant, and that an issued lease grants it.
use gaugemesh.Base.{
  ℕ, ◌≡◌, ◌↔◌, ◌<◌, refl, ap, ◌∙◌, arith, true, false, Option, none, some, List, [], ◌∷◌, leb, find,
  contains, Elem, All, All-map, All_elem, find-Elem, find-none, Bool-cases, Option-cases, inl, inr,
  ok, reject_if_ok, reject_if_pass, >>_ok, sort_by_key, dedup, sort-All, sort-All_inv, dedup-All,
  dedup-All_inv, ◌==◌, ◌!=◌, Eq, eq_self, string_eq, nat_eq, string_ord, nat_ord, pair_ord,
}
use text.Mathlib.TextEquality.{eq_iff}
use gaugemesh.Digest.{Hashing}
use gaugemesh.Capability.{CapabilityId, capability_eq, capability_key, capability_beq_iff, kind_eq}
use gaugemesh.Context.{PrincipalId, TenantId, SideEffectClass, side_effect_eq}
use gaugemesh.Lease.{
  LeaseId, LeaseTerms, CapabilityLease, manifest, expired, principal, tenant, same_identity,
  digest_of_terms, sorted_capabilities, match_capability, issue_with_side_effects, authorize,
  authorize_invocation,
}

pub contains-Elem : {A : Type 0} ⦃e : Eq A⦄ (xs : List A) (a : A) → contains xs a ≡ true → Elem a xs
contains-Elem [] a h = cc
contains-Elem ⦃e⦄ (x ∷ xs) a h = elim (Bool-cases (a == x)) [
  | inl same ↦ inl ((e.same_iff a x).0 same)
  | inr other ↦ inr (contains-Elem xs a (ground (arith, h, other)))
]

pub Elem-contains : {A : Type 0} ⦃e : Eq A⦄ (xs : List A) (a : A) → Elem a xs → contains xs a ≡ true
Elem-contains [] a h = absurd h
Elem-contains ⦃e⦄ (x ∷ xs) a (inl same) = ground (arith, (e.same_iff a x).1 same)
Elem-contains (x ∷ xs) a (inr h) = ground (arith, Elem-contains xs a h)

-- The first capability that the lease holds under the name is the wanted one.
match_capability-ok :
    (o : Option CapabilityId) (wanted : CapabilityId)
    → match_capability o wanted ≡ ok tt
    → o ≡ some wanted
match_capability-ok none wanted h = cc
match_capability-ok (some stored) wanted h = ground (arith, h, capability_beq_iff stored wanted)

match_capability_self : (wanted : CapabilityId) → match_capability (some wanted) wanted ≡ ok tt
match_capability_self wanted = ground (arith, eq_self wanted.schema_digest, eq_self wanted)

each-Elem : {A : Type 0} (xs : List A) → All (λ x. Elem x xs) xs
each-Elem [] = tt
each-Elem (x ∷ xs) = (inl refl, All-map xs (λ y q. inr q) (each-Elem xs))

-- What holds of every capability a lease was issued for holds of each that it has.
from_issue :
    (P : CapabilityId → Type 0) (t : LeaseTerms) {c : CapabilityId}
    → All P t.capabilities
    → Elem c (sorted_capabilities t).capabilities
    → P c
from_issue P t hs held =
    All_elem P (dedup (sort_by_key capability_key t.capabilities))
      (dedup-All P (sort_by_key capability_key t.capabilities)
        (sort-All capability_key P t.capabilities hs))
      held

find_only :
    (t : LeaseTerms) (wanted : CapabilityId)
    → Elem wanted t.capabilities
    → All (λ c. same_identity wanted c ≡ true → c ≡ wanted) t.capabilities
    → find (same_identity wanted) (sorted_capabilities t).capabilities ≡ some wanted
find_only t wanted held alone =
    let sorted = sort_by_key capability_key t.capabilities in
    elim (Option-cases (find (same_identity wanted) (dedup sorted))) [
      | inl missing ↦
          let absent =
            sort-All_inv capability_key (λ c. same_identity wanted c ≡ false) t.capabilities
              (dedup-All_inv (λ c. same_identity wanted c ≡ false) sorted
                (find-none (same_identity wanted) (dedup sorted) missing)) in
          let apart = All_elem (λ c. same_identity wanted c ≡ false) t.capabilities absent held in
          ground (arith, apart, eq_iff wanted.source wanted.source)
      | inr (c, found) ↦
          let (named, has) = find-Elem (same_identity wanted) (dedup sorted) found in
          let same : c ≡ wanted =
            from_issue (λ c. same_identity wanted c ≡ true → c ≡ wanted) t alone has named in
          found ∙ ap some same
    ]

module _ (h : Hashing) where
  -- The conditions of a grant.
  abbrev pub Grants : CapabilityLease → PrincipalId → TenantId → CapabilityId → ℕ → Type 0
  Grants lease caller from wanted now =
      (now < lease.terms.expires_at_monotonic_ms)
      × (caller ≡ lease.terms.principal)
      × (from ≡ lease.terms.tenant)
      × (digest_of_terms h lease.terms ≡ lease.manifest_digest)
      × (find (same_identity wanted) lease.terms.capabilities ≡ some wanted)

  authorize_ok-Grants :
      (lease : CapabilityLease) (caller : PrincipalId) (from : TenantId) (wanted : CapabilityId)
      (now : ℕ)
      → authorize h lease caller from wanted now ≡ ok tt
      → Grants lease caller from wanted now
  unfolding authorize
  authorize_ok-Grants lease caller from wanted now a =
      let (time, h1) = reject_if_ok (leb lease.terms.expires_at_monotonic_ms now) _ _ a in
      let (who, h2) = reject_if_ok (caller != lease.terms.principal) _ _ h1 in
      let (where_from, h3) = reject_if_ok (from != lease.terms.tenant) _ _ h2 in
      let (sealed, h4) =
        reject_if_ok (digest_of_terms h lease.terms != lease.manifest_digest) _ _ h3 in
      (
        ground (arith, time),
        ground (arith, who, eq_iff caller lease.terms.principal),
        ground (arith, where_from, eq_iff from lease.terms.tenant),
        ground (arith, sealed),
        match_capability-ok (find (same_identity wanted) lease.terms.capabilities) wanted h4,
      )

  Grants-authorize_ok :
      (lease : CapabilityLease) (caller : PrincipalId) (from : TenantId) (wanted : CapabilityId)
      (now : ℕ)
      → Grants lease caller from wanted now
      → authorize h lease caller from wanted now ≡ ok tt
  unfolding authorize
  Grants-authorize_ok lease caller from wanted now (time, who, where_from, sealed, found) =
      reject_if_pass (leb lease.terms.expires_at_monotonic_ms now) expired _ (ground (arith, time))
        (reject_if_pass (caller != lease.terms.principal) principal _
          (ground (arith, who, eq_iff caller lease.terms.principal))
          (reject_if_pass (from != lease.terms.tenant) tenant _
            (ground (arith, where_from, eq_iff from lease.terms.tenant))
            (reject_if_pass (digest_of_terms h lease.terms != lease.manifest_digest) manifest _
              (ground (arith, sealed)) (rw found (match_capability_self wanted)))))

  -- A lease authorizes a call exactly when the call comes before its expiry from its principal and
  -- tenant, the manifest digest is the digest of its terms, and the first capability it holds
  -- under the wanted one's source, kind and native identity is the wanted one itself.
  pub authorize_lem :
      (lease : CapabilityLease) (caller : PrincipalId) (from : TenantId) (wanted : CapabilityId)
      (now : ℕ)
      → (authorize h lease caller from wanted now ≡ ok tt) ↔ Grants lease caller from wanted now
  authorize_lem lease caller from wanted now = (
    authorize_ok-Grants lease caller from wanted now,
    Grants-authorize_ok lease caller from wanted now,
  )

  -- Whatever invocation an issued lease authorizes, the capability is among those it was issued
  -- for, the side effect is in its set, the caller is its own, and its time is not over.
  pub authorize_invocation_sound :
      (id : LeaseId) (t : LeaseTerms) (caller : PrincipalId) (from : TenantId)
      (wanted : CapabilityId) (side_effect : SideEffectClass) (now : ℕ)
      → authorize_invocation h (issue_with_side_effects h id t) caller from wanted side_effect now
        ≡ ok tt
      → Elem wanted t.capabilities
        × Elem side_effect t.side_effects
        × (caller ≡ t.principal)
        × (from ≡ t.tenant)
        × (now < t.expires_at_monotonic_ms)
  unfolding authorize_invocation issue_with_side_effects
  authorize_invocation_sound id t caller from wanted side_effect now a =
      let (granted, b) =
        >>_ok (authorize h (issue_with_side_effects h id t) caller from wanted now) _ a in
      let (time, who, where_from, sealed, found) =
        authorize_ok-Grants (issue_with_side_effects h id t) caller from wanted now granted in
      let (_, held) =
        find-Elem (same_identity wanted) (dedup (sort_by_key capability_key t.capabilities))
          found in
      (
        from_issue (λ c. Elem c t.capabilities) t (each-Elem t.capabilities) held,
        contains-Elem t.side_effects side_effect (ground (arith, b)),
        who,
        where_from,
        time,
      )

  -- An issued lease authorizes, before its expiry, each capability it was issued for with each of
  -- its side effects, if no other capability it was issued for has the same source, kind and
  -- native identity.
  pub authorize_invocation-issue :
      (id : LeaseId) (t : LeaseTerms) (wanted : CapabilityId) (side_effect : SideEffectClass)
      (now : ℕ)
      → Elem wanted t.capabilities
      → All (λ c. same_identity wanted c ≡ true → c ≡ wanted) t.capabilities
      → Elem side_effect t.side_effects
      → now < t.expires_at_monotonic_ms
      → authorize_invocation h
          (issue_with_side_effects h id t)
          t.principal
          t.tenant
          wanted
          side_effect
          now
        ≡ ok tt
  unfolding authorize_invocation issue_with_side_effects
  authorize_invocation-issue id t wanted side_effect now held alone allowed time =
      let found = find_only t wanted held alone in
      let granted =
        Grants-authorize_ok (issue_with_side_effects h id t) t.principal t.tenant wanted now
          (time, refl, refl, refl, found) in
      rw (granted, Elem-contains t.side_effects side_effect allowed) refl
