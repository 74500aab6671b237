-- ===== src/Budget.antt =====
-- crates/gaugemesh-core/src/budget.rs: debits of a request's budgets.
pub mod Debits
mod Tests
use gaugemesh.Base.{
  ℕ, zero, suc, ◌-◌, ◌+◌, List, [], ◌∷◌, ◌++◌, length, Result, ok, err, ◌>>=◌, ok_or, checked_sub,
}
use gaugemesh.Digest.{Json, number, string, Hashing, of_json, json, Sha256Digest}
use gaugemesh.Context.{RequestContext}

pub record BudgetDebit : Type 0 where
  pub money_micros : ℕ
  pub tokens : ℕ
  pub retries : ℕ
  pub elapsed_ms : ℕ

pub data BudgetError : Type 0 where
  money tokens retries deadline : BudgetError

module _ (h : Hashing) where
  abbrev pub digest_of_debit : BudgetDebit → ℕ → Sha256Digest
  digest_of_debit d ordinal = of_json h (
      json (
        ("moneyMicros", number d.money_micros)
        ∷ ("tokens", number d.tokens)
        ∷ ("retries", number d.retries)
        ∷ ("elapsedMs", number d.elapsed_ms)
        ∷ ("ordinal", number ordinal)
        ∷ []))

  abbrev pub digest_of_retry : Sha256Digest → ℕ → Sha256Digest
  digest_of_retry debit retry =
      of_json h (json (("debit", string (h.display debit)) ∷ ("retry", number retry) ∷ []))

  -- The loop `for retry in 0..debit.retries`: the digests from `retry` on, `count` of them
  unfoldable pub retry_digests : Sha256Digest → ℕ → ℕ → List Sha256Digest
  retry_digests debit retry zero = []
  retry_digests debit retry (suc count) =
      digest_of_retry debit retry ∷ retry_digests debit (suc retry) count

  abbrev pub debited : RequestContext → BudgetDebit → ℕ → ℕ → ℕ → ℕ → RequestContext
  debited c d money_left tokens_left retries_left time_left =
      let digest = digest_of_debit d (length c.budget_debits) in
      record c {
        monetary_budget = money_left;
        token_budget = tokens_left;
        retry_budget = retries_left;
        deadline = time_left;
        budget_debits = c.budget_debits ++ digest ∷ [];
        retry_attempts = c.retry_attempts ++ retry_digests digest 0 d.retries;
      }

  unfoldable pub debit : RequestContext → BudgetDebit → Result BudgetError RequestContext
  debit c d = do
    money_left ← ok_or (checked_sub c.monetary_budget d.money_micros) money
    tokens_left ← ok_or (checked_sub c.token_budget d.tokens) tokens
    retries_left ← ok_or (checked_sub c.retry_budget d.retries) retries
    time_left ← ok_or (checked_sub c.deadline d.elapsed_ms) deadline
    ok (debited c d money_left tokens_left retries_left time_left)
