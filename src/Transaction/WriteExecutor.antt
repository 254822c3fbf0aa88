-- ===== src/Transaction/WriteExecutor.antt =====
-- transaction/write_executor.cpp: a write is staged on a child branch, which is merged into the branch
-- of the transaction. `storage_` and the callback are not null; GenerateUUID's text is an argument.
pub mod Child
use artifact_system.Base.{
  ℕ, zero, suc, ◌+◌, ◌==◌, Bool, true, false, Option, none, some, ◌++◌, if◌then◌else◌, Text, codes,
}
use artifact_system.Storage.Status.{StatusCode, StatusOr, ok, failed}
use artifact_system.Storage.Merge.{Conflict, MergeResult, success, conflict}
use artifact_system.Storage.Interface.{StorageInterface}
use artifact_system.Transaction.Conflict.{PathConflictKind, evaluate_retry_decision}
use artifact_system.Transaction.ConflictDetail.{CommitConflict, build_commit_conflict}
use artifact_system.Transaction.Commit.{RetryResolutionContext}

-- `WriteExecutor::Options`. The pauses between attempts let other threads change the storage.
pub record WriteOptions (S : Type 0) : Type 0 where
  pub max_attempts : ℕ
  pub path_conflict_classifier : Option (Text → PathConflictKind)
  pub retry_conflict_resolver : Option (RetryResolutionContext → S → StatusOr Bool × S)
  pub sleep_for : ℕ → S → S

-- `std::variant<WriteSuccess, WriteConflict>`
pub data WriteResult : Type 0 where
  written : Text → ℕ → WriteResult
  write_conflict : Conflict → CommitConflict → ℕ → WriteResult

abbrev pub Write : Type 0 → Type 0
Write S = S → StatusOr WriteResult × S

unfoldable pub next_child_branch_name : Text → Text → Text
next_child_branch_name uuid transaction_branch = transaction_branch ++ (codes ".write-" ++ uuid)

module _ {S : Type 0} (storage : StorageInterface S) (options : WriteOptions S) where
  module _ (child_branch transaction_branch : Text) where
    -- The child branch is deleted, and the result is returned.
    unfoldable pub clean_up : StatusOr WriteResult → Write S
    clean_up result s = (result, (storage.delete_branch child_branch s).1)

    unfoldable pub after_resolver :
        Write S → ℕ → Conflict → CommitConflict → StatusOr Bool → Write S
    unfolding clean_up
    after_resolver again n k detail (failed e) s = clean_up (failed e) s
    after_resolver again n k detail (ok false) s =
        clean_up (ok (write_conflict k (record detail { retryable = false }) n)) s
    after_resolver again n k detail (ok true) s = again (options.sleep_for n s)

    unfoldable pub ask_resolver : Write S → ℕ → Conflict → CommitConflict → Write S
    unfolding after_resolver
    ask_resolver again n k detail s = elim options.retry_conflict_resolver [
      | none ↦ again (options.sleep_for n s)
      | some resolver ↦
          let r =
            resolver
              (record {
                merge_conflict = k;
                source_branch = child_branch;
                target_branch = transaction_branch;
                attempts_performed = n;
              })
              s in
          after_resolver again n k detail r.0 r.1
    ]

    unfoldable pub after_attempt : Write S → ℕ → StatusOr MergeResult → Write S
    unfolding ask_resolver clean_up
    after_attempt again n (failed e) s = clean_up (failed e) s
    after_attempt again n (ok (success commit_id)) s = clean_up (ok (written commit_id n)) s
    after_attempt again n (ok (conflict k)) s =
        let decision =
          evaluate_retry_decision k n options.max_attempts options.path_conflict_classifier in
        let detail =
          build_commit_conflict k n options.max_attempts options.path_conflict_classifier in
        elim decision.retryable [
          | false ↦ clean_up (ok (write_conflict k detail n)) s
          | true ↦ ask_resolver again n k detail s
        ]

    -- How many attempts are left, and which one is next. Behind the loop the child branch stays.
    unfoldable pub write_loop : ℕ → ℕ → Write S
    unfolding after_attempt
    write_loop zero n s = (failed StatusCode.internal, s)
    write_loop (suc left) n s =
        let merged = storage.merge child_branch transaction_branch s in
        after_attempt (write_loop left (n + 1)) n merged.0 merged.1

    unfoldable pub after_commit : StatusOr Text × S → StatusOr WriteResult × S
    unfolding write_loop clean_up
    after_commit (failed e, s) = clean_up (failed e) s
    after_commit (ok _, s) = write_loop options.max_attempts 1 s

    unfoldable pub after_staging : StatusOr (Unit {0}) × S → StatusOr WriteResult × S
    unfolding after_commit clean_up
    after_staging (failed e, s) = clean_up (failed e) s
    after_staging (ok _, s) = after_commit (storage.commit child_branch (codes "write attempt 1") s)

  unfoldable pub execute_write : Text → Text → (Text → S → StatusOr (Unit {0}) × S) → Write S
  unfolding after_staging next_child_branch_name
  execute_write uuid transaction_branch staging_callback s =
      if options.max_attempts == 0
      then (failed StatusCode.invalid_argument, s)
      else (elim (storage.get_branch_head transaction_branch s) [
        | failed e ↦ (failed e, s)
        | ok head ↦
            let child_branch = next_child_branch_name uuid transaction_branch in
            let created = storage.create_branch child_branch head s in
            elim created.0 [
              | failed e ↦ (failed e, created.1)
              | ok _ ↦
                  after_staging child_branch transaction_branch
                    (staging_callback child_branch created.1)
            ]
      ])
