-- ===== src/Budget/Debits.antt =====
-- What `debit` of budget.rs takes and what it leaves.
use gaugemesh.Base.{
  ℕ, zero, suc, ◌+◌, ◌≡◌, ◌<◌, ◌⊎◌, refl, subst, arith, true, inl, [], ◌∷◌, length, length-append,
  ok, err, >>=_ok, ok_or, ok_or_ok, checked_sub, starts_with_self, starts_with-append,
  is_subset_self, string_eq, nat_eq,
}
use gaugemesh.Digest.{Hashing, Sha256Digest}
use gaugemesh.Context.{RequestContext, is_subset_of}
use gaugemesh.Context.Equality.{link_eq}
use gaugemesh.Invariant.{passed, conserve}
use gaugemesh.Invariant.Conditions.{IsConserved, IsAcyclic}
use gaugemesh.Invariant.Conserved.{passed-conserve}
use gaugemesh.Budget.{
  BudgetDebit, BudgetError, money, tokens, retries, deadline, retry_digests, debit, debited,
  digest_of_debit,
}

module _ (h : Hashing) where
  length-retry_digests :
      (d : Sha256Digest) (retry count : ℕ) → length (retry_digests h d retry count) ≡ count
  unfolding retry_digests
  length-retry_digests d retry zero = refl
  length-retry_digests d retry (suc count) =
      ground (arith, length-retry_digests d (suc retry) count)

  abbrev pub IsDebited : RequestContext → BudgetDebit → RequestContext → Type 0
  IsDebited c d e =
      (e.monetary_budget + d.money_micros ≡ c.monetary_budget)
      × (e.token_budget + d.tokens ≡ c.token_budget)
      × (e.retry_budget + d.retries ≡ c.retry_budget)
      × (e.deadline + d.elapsed_ms ≡ c.deadline)
      × (length e.budget_debits ≡ length c.budget_debits + 1)
      × (length e.retry_attempts ≡ length c.retry_attempts + d.retries)

  checked_sub_lem :
      (a b : ℕ) {c : ℕ} {E : Type 0} (e : E) → ok_or (checked_sub a b) e ≡ ok c → c + b ≡ a
  checked_sub_lem a b e p = ground (arith, ok_or_ok (checked_sub a b) e p)

  debited-IsDebited :
      (c : RequestContext) (d : BudgetDebit) (m t r w : ℕ)
      → m + d.money_micros ≡ c.monetary_budget
      → t + d.tokens ≡ c.token_budget
      → r + d.retries ≡ c.retry_budget
      → w + d.elapsed_ms ≡ c.deadline
      → IsDebited c d (debited h c d m t r w)
  debited-IsDebited c d m t r w pm pt pr pw =
      let digest = digest_of_debit h d (length c.budget_debits) in
      (
        pm,
        pt,
        pr,
        pw,
        length-append c.budget_debits (digest ∷ []),
        (ground (
          arith,
          length-append c.retry_attempts (retry_digests h digest 0 d.retries),
          length-retry_digests digest 0 d.retries,
        )),
      )

  debited-IsConserved :
      (c : RequestContext) (d : BudgetDebit) (m t r w : ℕ)
      → IsAcyclic c
      → IsDebited c d (debited h c d m t r w)
      → IsConserved c (debited h c d m t r w)
  unfolding is_subset_of
  debited-IsConserved c d m t r w acyclic (pm, pt, pr, pw, _, _) =
      let digest = digest_of_debit h d (length c.budget_debits) in
      (
        (inl refl, (ground arith)),
        (refl, refl, refl, refl, refl, refl, refl, refl, refl, refl),
        (
          starts_with_self c.delegation,
          starts_with_self c.causal_observations,
          starts_with_self c.route_decisions,
          starts_with_self c.policy_decisions,
          starts_with-append c.retry_attempts (retry_digests h digest 0 d.retries),
          starts_with-append c.budget_debits (digest ∷ []),
        ),
        acyclic,
        (
          is_subset_self c.scope,
          (ground (arith, pw)),
          (ground (arith, pm)),
          (ground (arith, pt)),
          (ground (arith, pr)),
          (ground arith),
        ),
      )

  debit_steps :
      (c : RequestContext) (d : BudgetDebit) (e : RequestContext)
      → debit h c d ≡ ok e
      → (m : ℕ) × (t : ℕ) × (r : ℕ) × (w : ℕ) × (debited h c d m t r w ≡ e)
        × IsDebited c d (debited h c d m t r w)
  unfolding debit
  debit_steps c d e p =
      let (m, pm, p1) = >>=_ok (ok_or (checked_sub c.monetary_budget d.money_micros) money) _ p in
      let (t, pt, p2) = >>=_ok (ok_or (checked_sub c.token_budget d.tokens) tokens) _ p1 in
      let (r, pr, p3) = >>=_ok (ok_or (checked_sub c.retry_budget d.retries) retries) _ p2 in
      let (w, pw, p4) = >>=_ok (ok_or (checked_sub c.deadline d.elapsed_ms) deadline) _ p3 in
      (
        m,
        t,
        r,
        w,
        cc p4,
        debited-IsDebited c d m t r w (checked_sub_lem c.monetary_budget d.money_micros money pm)
            (checked_sub_lem c.token_budget d.tokens tokens pt)
            (checked_sub_lem c.retry_budget d.retries retries pr)
            (checked_sub_lem c.deadline d.elapsed_ms deadline pw),
      )

  -- A debit that succeeds takes exactly its amounts from the four budgets, and records one debit
  -- and as many retries as it has.
  pub debit-IsDebited :
      (c : RequestContext) (d : BudgetDebit) (e : RequestContext)
      → debit h c d ≡ ok e
      → IsDebited c d e
  debit-IsDebited c d e p =
      let (m, t, r, w, same, taken) = debit_steps c d e p in subst (IsDebited c d) same taken

  -- A debit that succeeds conserves a context whose observations do not repeat and whose parent is
  -- not its root: the report on the context before and after passes.
  pub passed-conserve-debit :
      (c : RequestContext) (d : BudgetDebit) (e : RequestContext)
      → IsAcyclic c
      → debit h c d ≡ ok e
      → passed (conserve h c e) ≡ true
  passed-conserve-debit c d e acyclic p =
      let (m, t, r, w, same, taken) = debit_steps c d e p in
      subst (λ x. passed (conserve h c x) ≡ true) same
        ((passed-conserve h c (debited h c d m t r w)).1
          (debited-IsConserved c d m t r w acyclic taken))

  -- A debit fails only when one of its amounts is above the budget it is taken from.
  pub debit_fails :
      (c : RequestContext) (d : BudgetDebit) (why : BudgetError)
      → debit h c d ≡ err why
      → (c.monetary_budget < d.money_micros)
        ⊎ (c.token_budget < d.tokens)
        ⊎ (c.retry_budget < d.retries)
        ⊎ (c.deadline < d.elapsed_ms)
  unfolding debit
  debit_fails c d why p = ground (arith, p)
