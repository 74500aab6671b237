-- ===== src/Translation/Tests.antt =====
-- Runs of translation.rs: a context that is handed on with one loss.
use gaugemesh.Base.{◌≡◌, ◌↔◌, ◌≤◌, [], ◌∷◌, List, ok}
use gaugemesh.Digest.{number}
use gaugemesh.Digest.Samples.{sample_hashing}
use gaugemesh.Context.{RequestContext}
use gaugemesh.Context.Samples.{sample_context}
use gaugemesh.Invariant.{SemanticLoss}
use gaugemesh.Invariant.Conditions.{IsConserved}
use gaugemesh.Translation.{score_of, report_translation}
use gaugemesh.Translation.Losses.{translated, report_translation_lem}

abbrev received : RequestContext
received = record sample_context { deadline = 900 }

abbrev losses : List SemanticLoss
losses = (record { field = "logprobs"; reason = "no such field"; weight = 7 }) ∷ []

report_translation_lem_example :
    (report_translation sample_hashing (number 1) (number 2) sample_context received losses 10
      ≡ ok (translated sample_hashing (number 1) (number 2) sample_context received losses 10))
    ↔ (IsConserved sample_context received × (score_of losses ≤ 10))
report_translation_lem_example =
    report_translation_lem sample_hashing (number 1) (number 2) sample_context received losses 10
