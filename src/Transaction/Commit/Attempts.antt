-- ===== src/Transaction/Commit/Attempts.antt =====
-- The loop of CommitTransactionImpl in transaction/transaction_manager.cpp: which attempts are followed
-- by another.
use artifact_system.Base.{
  ℕ, zero, suc, ◌+◌, ◌==◌, ◌<◌, ◌≡◌, refl, inl, inr, true, false, Text, text_key, arith, Bool-cases,
  Option-cases,
}
use artifact_system.Storage.Status.{StatusCode, StatusOr, ok, failed, StatusOr-cases}
use artifact_system.Storage.Merge.{Conflict, MergeResult, success, conflict}
use artifact_system.Storage.Interface.{StorageInterface}
use artifact_system.Transaction.Action.{TransactionRecord, World, Action}
use artifact_system.Transaction.Meta.{Formats}
use artifact_system.Transaction.Manager.{has_children}
use artifact_system.Transaction.Conflict.{evaluate_retry_decision}
use artifact_system.Transaction.Conflict.Retryable.{evaluate_retry_decision-Retryable}
use artifact_system.Transaction.ConflictDetail.{CommitConflict, build_commit_conflict}
use artifact_system.Transaction.Commit.{
  Options, CommitResult, pause, resolve_conflict, after_merge, commit_loop,
}

module _ (formats : Formats) {S : Type 0} (storage : StorageInterface S) (options : Options S)
    (transaction_id target_branch : Text) (transaction : TransactionRecord)
    (again again' : Action S CommitResult) (n : ℕ) where
  abbrev Same : Type 0
  Same = (w : World S) → again w ≡ again' w

  pause-Same :
      Same
      → (w : World S)
      → pause formats storage options transaction_id target_branch transaction again n w
        ≡ pause formats storage options transaction_id target_branch transaction again' n w
  unfolding pause
  pause-Same same w =
      let w' = options.sleep_for n w in
      elim (StatusOr-cases (storage.branch_exists transaction_id w'.storage)) [
        | inr (e, h) ↦ rw (h, pause) refl
        | inl (true, h) ↦ elim (Bool-cases (has_children transaction_id w'.transactions)) [
          | inl k ↦ rw (h, k, pause) refl
          | inr k ↦ rw (h, k, pause) (same w')
        ]
        | inl (false, h) ↦ rw (h, pause) refl
      ]

  resolve_conflict-Same :
      Same
      → (k : Conflict) (detail : CommitConflict) (w : World S)
      → resolve_conflict formats storage options transaction_id target_branch transaction again n k
          detail w
        ≡ resolve_conflict formats storage options transaction_id target_branch transaction again' n
            k detail w
  unfolding resolve_conflict
  resolve_conflict-Same same k detail w = elim (Option-cases options.retry_conflict_resolver) [
    | inl missing ↦ rw (missing, resolve_conflict) (pause-Same same w)
    | inr (resolver, found) ↦
        let r =
          resolver
            (record {
              merge_conflict = k;
              source_branch = transaction_id;
              target_branch = target_branch;
              attempts_performed = n;
            })
            w.storage in
        elim (StatusOr-cases r.0) [
          | inr (e, h) ↦ rw (found, h, resolve_conflict) refl
          | inl (true, h) ↦
              rw (found, h, resolve_conflict) (pause-Same same (record w { storage = r.1 }))
          | inl (false, h) ↦ rw (found, h, resolve_conflict) refl
        ]
  ]

  after_merge-Same :
      (n < options.max_attempts → Same)
      → (merged : StatusOr MergeResult) (w : World S)
      → after_merge formats storage options transaction_id target_branch transaction again n merged
          w
        ≡ after_merge formats storage options transaction_id target_branch transaction again' n
            merged w
  unfolding after_merge
  after_merge-Same same (failed e) w = refl
  after_merge-Same same (ok (success id)) w = refl
  after_merge-Same same (ok (conflict k)) w =
      let decision =
        evaluate_retry_decision k n options.max_attempts options.path_conflict_classifier in
      let detail =
        build_commit_conflict k n options.max_attempts options.path_conflict_classifier in
      elim (Bool-cases decision.retryable) [
        | inr stop ↦ rw (stop, after_merge) refl
        | inl retry ↦
            let below : n < options.max_attempts =
              (evaluate_retry_decision-Retryable k n options.max_attempts
                options.path_conflict_classifier retry).0 in
            rw (retry, after_merge) (resolve_conflict-Same (same below) k detail w)
      ]

module _ (formats : Formats) {S : Type 0} (storage : StorageInterface S) (options : Options S)
    (transaction_id target_branch : Text) (transaction : TransactionRecord)
    (e e' : StatusCode) where
  commit_loop-Same :
      (left n : ℕ) (w : World S)
      → n + left ≡ options.max_attempts
      → commit_loop formats storage options transaction_id target_branch transaction e
          (suc left)
          n
          w
        ≡ commit_loop formats storage options transaction_id target_branch transaction e'
            (suc left)
            n
            w
  unfolding commit_loop
  commit_loop-Same zero n w h =
      let merged = storage.merge transaction_id target_branch w.storage in
      after_merge-Same formats storage options transaction_id target_branch transaction
        (commit_loop formats storage options transaction_id target_branch transaction e 0 (n + 1))
        (commit_loop formats storage options transaction_id target_branch transaction e' 0 (n + 1))
        n (λ below w'. absurd (omega arith)) merged.0 (record w { storage = merged.1 })
  commit_loop-Same (suc left) n w h =
      let merged = storage.merge transaction_id target_branch w.storage in
      after_merge-Same formats storage options transaction_id target_branch transaction
        (commit_loop formats storage options transaction_id target_branch transaction e (suc left)
          (n + 1))
        (commit_loop formats storage options transaction_id target_branch transaction e' (suc left)
          (n + 1))
        n (λ below w'. commit_loop-Same left (n + 1) w' (omega arith)) merged.0
        (record w { storage = merged.1 })

attempts_lem :
    (formats : Formats) {S : Type 0} (storage : StorageInterface S) (options : Options S)
    (transaction_id target_branch : Text) (transaction : TransactionRecord) (e e' : StatusCode)
    (most : ℕ) (w : World S)
    → most ≡ options.max_attempts
    → (most == 0) ≡ false
    → commit_loop formats storage options transaction_id target_branch transaction e most 1 w
      ≡ commit_loop formats storage options transaction_id target_branch transaction e' most 1 w
attempts_lem formats storage options id target transaction e e' zero w h positive =
    absurd (ground (arith, positive))
attempts_lem formats storage options id target transaction e e' (suc left) w h positive =
    commit_loop-Same formats storage options id target transaction e e' left 1 w (omega arith)

-- Over any storage, and whatever the merges, the resolver and the pauses do: where at least one attempt
-- is allowed, the commit loop ends inside one of its attempts. The status that stands behind the loop
-- has no influence on what the commit returns, nor on the world that it leaves.
pub commit_loop_ends_inside :
    (formats : Formats) {S : Type 0} (storage : StorageInterface S) (options : Options S)
    (transaction_id target_branch : Text) (transaction : TransactionRecord) (e e' : StatusCode)
    (w : World S)
    → (options.max_attempts == 0) ≡ false
    → commit_loop formats storage options transaction_id target_branch transaction e
        options.max_attempts 1 w
      ≡ commit_loop formats storage options transaction_id target_branch transaction e'
          options.max_attempts 1 w
commit_loop_ends_inside formats storage options id target transaction e e' w positive =
    attempts_lem formats storage options id target transaction e e' options.max_attempts w refl
      positive
