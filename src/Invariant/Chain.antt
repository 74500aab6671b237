-- ===== src/Invariant/Chain.antt =====
-- What a chain of adapters conserves.
use gaugemesh.Base.{◌≡◌, ◌∙◌, arith, true, starts_with_trans, is_subset_trans, string_eq, nat_eq}
use gaugemesh.Digest.{Hashing}
use gaugemesh.Context.{RequestContext, is_subset_of}
use gaugemesh.Context.Equality.{link_eq}
use gaugemesh.Invariant.{passed, conserve}
use gaugemesh.Invariant.Conditions.{IsSameRequest, IsAppended, IsBounded}
use gaugemesh.Invariant.Conserved.{passed-conserve}

-- Whatever two adapters conserve one after the other they conserve from end to end: the identities
-- of the request, the records that only grow, and the bounds on its powers.
pub conserve-chain :
    (h : Hashing) (s t u : RequestContext)
    → passed (conserve h s t) ≡ true
    → passed (conserve h t u) ≡ true
    → IsSameRequest s u × IsAppended s u × IsBounded s u
unfolding is_subset_of
conserve-chain h s t u first_step second_step =
    let (_, (a, b, c, d, e, f, g, i, j, k), (l, m, n, o, p, q), _, (v, w, x, y, z, r)) =
      (passed-conserve h s t).0 first_step in
    let (
      _,
      (a2, b2, c2, d2, e2, f2, g2, i2, j2, k2),
      (l2, m2, n2, o2, p2, q2),
      _,
      (v2, w2, x2, y2, z2, r2),
    ) =
      (passed-conserve h t u).0 second_step in
    (
      (a ∙ a2, b ∙ b2, c ∙ c2, d ∙ d2, e ∙ e2, f ∙ f2, g ∙ g2, i ∙ i2, j ∙ j2, k ∙ k2),
      (
        starts_with_trans s.delegation t.delegation u.delegation l l2,
        starts_with_trans s.causal_observations t.causal_observations u.causal_observations m m2,
        starts_with_trans s.route_decisions t.route_decisions u.route_decisions n n2,
        starts_with_trans s.policy_decisions t.policy_decisions u.policy_decisions o o2,
        starts_with_trans s.retry_attempts t.retry_attempts u.retry_attempts p p2,
        starts_with_trans s.budget_debits t.budget_debits u.budget_debits q q2,
      ),
      (
        is_subset_trans u.scope t.scope s.scope v2 v,
        ground (arith, w, w2),
        ground (arith, x, x2),
        ground (arith, y, y2),
        ground (arith, z, z2),
        ground (arith, r, r2),
      ),
    )
