-- ===== src/Translation/Losses.antt =====
-- What a translation that is reported has conserved and lost.
use gaugemesh.Base.{
  ℕ, ◌≤◌, ◌≡◌, ◌↔◌, refl, arith, true, some, List, [], ◌∷◌, ltb, first, is_empty, ok, reject_if_ok,
  reject_if_pass, >>_ok, >>_pass,
}
use gaugemesh.Digest.{Json, Hashing, of_json}
use gaugemesh.Context.{RequestContext}
use gaugemesh.Invariant.{InvariantViolation, SemanticLoss, ConservationReport, conserve}
use gaugemesh.Invariant.Conditions.{IsConserved}
use gaugemesh.Invariant.Conserved.{passed-conserve}
use gaugemesh.Translation.{score_of, refuse_first, loss_exceeded, report_translation}

refuse_first-none :
    (vs : List InvariantViolation) → (refuse_first (first vs) ≡ ok tt) ↔ (is_empty vs ≡ true)
refuse_first-none [] = ((λ e. refl), (λ e. refl))
refuse_first-none (v ∷ vs) = ((λ e. cc), (λ e. cc))

module _ (h : Hashing) (input output : Json) (source target : RequestContext)
    (losses : List SemanticLoss) (max_loss : ℕ) where
  abbrev pub translated : ConservationReport
  translated = record (conserve h source target) {
    optional_losses = losses;
    semantic_loss_score = score_of losses;
    source_digest = of_json h input;
    target_digest = some (of_json h output);
  }

  -- A translation is reported exactly when the target conserves the source and the weights of the
  -- losses together stay within the limit; the report then has these losses, their sum, and the
  -- digests of the input and the output.
  pub report_translation_lem :
      (report_translation h input output source target losses max_loss ≡ ok translated)
      ↔ (IsConserved source target × (score_of losses ≤ max_loss))
  unfolding report_translation
  report_translation_lem = (
    (λ e.
        let (kept, e1) = >>_ok (refuse_first (first (conserve h source target).violations)) _ e in
        let (within, _) = reject_if_ok (ltb max_loss (score_of losses)) _ _ e1 in
        (
          (passed-conserve h source target).0
              ((refuse_first-none (conserve h source target).violations).0 kept),
          ground (arith, within),
        )),
    (λ (kept, within).
        >>_pass (refuse_first (first (conserve h source target).violations)) _
          ((refuse_first-none (conserve h source target).violations).1
            ((passed-conserve h source target).1 kept))
          (reject_if_pass (ltb max_loss (score_of losses))
            (loss_exceeded (score_of losses) max_loss) _ (ground (arith, within)) refl)),
  )
