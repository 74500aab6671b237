-- ===== src/Translation.antt =====
-- crates/gaugemesh-core/src/translation.rs: the report of an adapter's translation.
pub mod Losses
mod Tests
use gaugemesh.Base.{
  ℕ, ◌+◌, String, Bool, Option, none, some, List, [], ◌∷◌, ltb, first, if◌then◌else◌, Result, ok,
  err, ◌>>◌, reject_if,
}
use gaugemesh.Digest.{Json, Hashing, of_json}
use gaugemesh.Context.{RequestContext}
use gaugemesh.Invariant.{
  InvariantErrorCode, InvariantViolation, SemanticLoss, ConservationReport, conserve,
}

pub data TranslationError : Type 0 where
  invariant : InvariantErrorCode → TranslationError
  -- the score and the limit
  loss_exceeded : ℕ → ℕ → TranslationError
  required_field : String → TranslationError

abbrev pub require_representable : String → Bool → Result TranslationError (Unit {0})
require_representable field representable =
    if representable then ok tt else err (required_field field)

-- The sum of the weights. Weights are `u32`, so that the sum of fewer than 2^32 of them is a `u64`.
unfoldable pub score_of : List SemanticLoss → ℕ
score_of [] = 0
score_of (loss ∷ losses) = loss.weight + score_of losses

abbrev pub refuse_first : Option InvariantViolation → Result TranslationError (Unit {0})
refuse_first none = ok tt
refuse_first (some violation) = err (invariant violation.code)

-- `input` and `output` are the values that the adapter's types serialize to.
unfoldable pub report_translation :
    Hashing
    → Json
    → Json
    → RequestContext
    → RequestContext
    → List SemanticLoss
    → ℕ
    → Result TranslationError ConservationReport
report_translation h input output source target optional_losses max_loss = do
  let report = conserve h source target
  refuse_first (first report.violations)
  reject_if (ltb max_loss (score_of optional_losses))
      (loss_exceeded (score_of optional_losses) max_loss)
  ok (record report {
    optional_losses = optional_losses;
    semantic_loss_score = score_of optional_losses;
    source_digest = of_json h input;
    target_digest = some (of_json h output);
  })
