-- ===== src/Budget/Tests.antt =====
-- Runs of budget.rs: a debit of a context with small budgets.
use gaugemesh.Base.{◌≡◌, refl, true, ok, err, dedup, sort, sort_by_key}
use gaugemesh.Digest.Samples.{sample_hashing}
use gaugemesh.Context.{RequestContext}
use gaugemesh.Context.Samples.{sample_context}
use gaugemesh.Invariant.{passed, conserve, has_repeats}
use gaugemesh.Invariant.Conditions.{IsAcyclic}
use gaugemesh.Budget.{BudgetDebit, tokens, debit, debited}
use gaugemesh.Budget.Debits.{passed-conserve-debit}

abbrev taken : BudgetDebit
taken = record { money_micros = 40; tokens = 50; retries = 2; elapsed_ms = 250 }

abbrev left : RequestContext
left = debited sample_hashing sample_context taken 60 150 1 750

debits : debit sample_hashing sample_context taken ≡ ok left
unfolding debit
debits = refl

too_many_tokens : debit sample_hashing sample_context (record taken { tokens = 201 }) ≡ err tokens
unfolding debit
too_many_tokens = refl

acyclic : IsAcyclic sample_context
unfolding has_repeats dedup sort sort_by_key
acyclic = (refl, (λ e. cc))

passed-conserve-debit_example : passed (conserve sample_hashing sample_context left) ≡ true
passed-conserve-debit_example =
    passed-conserve-debit sample_hashing sample_context taken left acyclic debits
