-- ===== src/Transaction/Tests.antt =====
-- Runs of the decision to try a conflict again.
use artifact_system.Base.{◌<◌, ◌≡◌, refl, none, true, [], ◌∷◌, All, codes}
use artifact_system.Storage.State.{starts_with}
use artifact_system.Storage.Merge.{Conflict, has_no_entry}
use artifact_system.Transaction.Conflict.{
  ConflictType, classify, kinds_of, is_retryable_kind, default_path_conflict_classifier,
  evaluate_retry_decision,
}
use artifact_system.Transaction.Conflict.Retryable.{Retryable, evaluate_retry_decision-Retryable}

-- Two conflicts in non-unique indexes, after the first of five attempts.
abbrev two_indexes : Conflict
two_indexes = record {
  conflicting_paths = codes "idx/non_unique/a" ∷ codes "idx/non_unique/b" ∷ [];
  base_commit_id = [];
  source_commit_id = [];
  target_commit_id = [];
}

two_indexes_retryable : (evaluate_retry_decision two_indexes 1 5 none).retryable ≡ true
unfolding evaluate_retry_decision has_no_entry kinds_of classify is_retryable_kind
    default_path_conflict_classifier starts_with
two_indexes_retryable = refl

evaluate_retry_decision-Retryable_example :
    (1 < 5)
    × All (λ p. Retryable (classify none p)) two_indexes.conflicting_paths
    × ((evaluate_retry_decision two_indexes 1 5 none).conflict_type ≡ ConflictType.index_conflict)
evaluate_retry_decision-Retryable_example =
    evaluate_retry_decision-Retryable two_indexes 1 5 none two_indexes_retryable
