-- ===== src/Transaction/Commit.antt =====
-- transaction/transaction_manager.cpp: the commit of a transaction, with merges that are tried again,
-- and implicit transactions. Where the lock is released, for the pause after an attempt and for the
-- write of a commit record, other threads change the world: these are arguments. The callbacks on a
-- failed cleanup change nothing.
pub mod Attempts
pub mod Restored
pub mod Conflicted
pub mod Unharmed
use artifact_system.Base.{
  ℕ, zero, suc, ◌+◌, ◌==◌, Bool, true, false, not, Option, none, some, List, [], ◌∷◌, ◌++◌,
  if◌then◌else◌, Text, codes, text_key, lookup, insert,
}
use artifact_system.Storage.Status.{StatusCode, StatusOr, ok, failed}
use artifact_system.Storage.Merge.{Conflict, MergeResult, success, conflict}
use artifact_system.Storage.Interface.{StorageInterface}
use artifact_system.Transaction.Action.{
  TransactionRecord, World, Action, ◌>>=◌, ◌>>◌, return, raise, raise_if, rewrite, asks, calls,
  attempt, ignore,
}
use artifact_system.Transaction.Meta.{Formats, write_txn_meta, cleanup_txn_meta}
use artifact_system.Transaction.Manager.{
  has_children, is_empty_set, resolve_transaction, forget, create_transaction, rollback_transaction,
}
use artifact_system.Transaction.Conflict.{PathConflictKind, evaluate_retry_decision}
use artifact_system.Transaction.ConflictDetail.{CommitConflict, build_commit_conflict}

-- `RetryResolutionContext`
pub record RetryResolutionContext : Type 0 where
  pub merge_conflict : Conflict
  pub source_branch : Text
  pub target_branch : Text
  pub attempts_performed : ℕ

-- `TransactionManager::Options`; `sleep_for n` is the pause after attempt `n`.
pub record Options (S : Type 0) : Type 0 where
  pub max_attempts : ℕ
  pub path_conflict_classifier : Option (Text → PathConflictKind)
  pub retry_conflict_resolver : Option (RetryResolutionContext → S → StatusOr Bool × S)
  pub sleep_for : ℕ → World S → World S
  pub create_commit_record : Option (Text → Action S (Unit {0}))

-- The constructor of `TransactionManager`: where no classifier is given, those of the index layer are
-- taken; they are arguments. A `sleep_for` that is not given is `absl::SleepFor`, and stands in it.
unfoldable pub construct :
    {S : Type 0}
    → (Text → PathConflictKind)
    → (RetryResolutionContext → S → StatusOr Bool × S)
    → Options S
    → Options S
construct index_classifier index_resolver options = elim options.path_conflict_classifier [
  | some classifier ↦ options
  | none ↦ record options {
    path_conflict_classifier = some index_classifier;
    retry_conflict_resolver = elim options.retry_conflict_resolver [
      | none ↦ some index_resolver
      | some resolver ↦ some resolver
    ];
  }
]

pub record CommitSuccess : Type 0 where
  pub transaction_id : Text
  pub commit_id : Text
  pub snapshot_id : Text

pub record CommitConflictResult : Type 0 where
  pub transaction_id : Text
  pub conflict_found : Conflict
  pub detail : CommitConflict

-- `std::variant<CommitSuccess, CommitConflict>`
pub data CommitResult : Type 0 where
  committed : CommitSuccess → CommitResult
  conflicted : CommitConflictResult → CommitResult

module _ (formats : Formats) {S : Type 0} (storage : StorageInterface S) (options : Options S) where
  module _ (transaction_id target_branch : Text) (transaction : TransactionRecord) where
    unfoldable pub restore_meta : Action S (Unit {0})
    restore_meta = ignore (write_txn_meta formats storage transaction_id transaction)

    unfoldable pub give_up : Conflict → CommitConflict → Action S CommitResult
    unfolding restore_meta
    give_up k detail = do
      _ ← restore_meta
      return (
          conflicted
            (record { transaction_id = transaction_id; conflict_found = k; detail = detail }))

    unfoldable pub fail : StatusCode → Action S CommitResult
    unfolding restore_meta
    fail e = do _ ← restore_meta; raise e

    -- The pause, and the checks behind it; `again` is the rest of the loop.
    unfoldable pub pause : Action S CommitResult → ℕ → Action S CommitResult
    unfolding fail
    pause again attempts_performed = do
      _ ← λ w. (ok tt, options.sleep_for attempts_performed w)
      exists ← attempt (asks (storage.branch_exists transaction_id))
      elim exists [
        | failed e ↦ fail e
        | ok false ↦ fail StatusCode.not_found
        | ok true ↦ λ w. elim (has_children transaction_id w.transactions) [
          | true ↦ fail StatusCode.invalid_argument w
          | false ↦ again w
        ]
      ]

    -- A conflict that may be tried again is put to the resolver, where there is one.
    unfoldable pub resolve_conflict :
        Action S CommitResult → ℕ → Conflict → CommitConflict → Action S CommitResult
    unfolding pause give_up fail
    resolve_conflict again attempts_performed k detail = elim options.retry_conflict_resolver [
      | none ↦ pause again attempts_performed
      | some resolver ↦ do
        resolved ← attempt (
            calls (
              resolver (record {
                merge_conflict = k;
                source_branch = transaction_id;
                target_branch = target_branch;
                attempts_performed = attempts_performed;
              })))
        elim resolved [
          | failed e ↦ fail e
          | ok false ↦ give_up k (record detail { retryable = false })
          | ok true ↦ pause again attempts_performed
        ]
    ]

    unfoldable pub finish_commit : Text → Action S CommitResult
    unfolding forget
    finish_commit commit_id = do
      _ ← forget formats storage transaction_id
      _ ← ignore (calls (storage.delete_branch transaction_id))
      λ w. (
        ok (
            committed (record {
              transaction_id = transaction_id;
              commit_id = commit_id;
              snapshot_id = commit_id;
            })),
        record w {
          snapshot_source_cache = insert commit_id (some transaction_id) w.snapshot_source_cache;
        },
      )

    unfoldable pub after_merge :
        Action S CommitResult → ℕ → StatusOr MergeResult → Action S CommitResult
    unfolding finish_commit resolve_conflict give_up fail
    after_merge again attempts_performed (failed e) = fail e
    after_merge again attempts_performed (ok (success commit_id)) = finish_commit commit_id
    after_merge again attempts_performed (ok (conflict k)) =
        let decision =
          evaluate_retry_decision k attempts_performed options.max_attempts
            options.path_conflict_classifier in
        let detail =
          build_commit_conflict k attempts_performed options.max_attempts
            options.path_conflict_classifier in
        elim decision.retryable [
          | false ↦ give_up k detail
          | true ↦ resolve_conflict again attempts_performed k detail
        ]

    -- The loop over the attempts: how many are left, and which one is next. Behind the loop the code
    -- fails with `after_loop`.
    unfoldable pub commit_loop : StatusCode → ℕ → ℕ → Action S CommitResult
    unfolding after_merge
    commit_loop after_loop zero attempts_performed = fail after_loop
    commit_loop after_loop (suc left) attempts_performed = do
      merged ← attempt (calls (storage.merge transaction_id target_branch))
      after_merge (commit_loop after_loop left (attempts_performed + 1)) attempts_performed merged

  -- The branch that the transaction is merged into.
  unfoldable pub target_of : TransactionRecord → S → StatusOr Text
  target_of transaction s = elim transaction.parent_transaction_id [
    | none ↦ ok storage.get_canonical_branch
    | some parent_id ↦ elim (storage.get_branch_head parent_id s) [
      | failed e ↦ rewrite StatusCode.not_found (failed e)
      | ok head ↦ ok parent_id
    ]
  ]

  -- The record of the commit is written with the lock released.
  unfoldable pub write_record : Bool → Text → Action S (Unit {0})
  write_record false transaction_id = return tt
  write_record true transaction_id = elim options.create_commit_record [
    | none ↦ return tt
    | some create ↦ do
      _ ← create transaction_id
      _ ← asks (λ s. rewrite StatusCode.not_found (storage.get_branch_head transaction_id s))
      return tt
  ]

  unfoldable pub commit_transaction_impl : Bool → Text → Action S CommitResult
  unfolding target_of write_record commit_loop has_children
  commit_transaction_impl write_commit_record transaction_id = do
    transaction ← resolve_transaction formats storage transaction_id
    _ ← raise_if (not (is_empty_set transaction.child_transaction_ids)) StatusCode.invalid_argument
    _ ← raise_if (options.max_attempts == 0) StatusCode.invalid_argument
    target_branch ← asks (target_of transaction)
    _ ← write_record write_commit_record transaction_id
    _ ← cleanup_txn_meta formats storage transaction_id
    commit_loop transaction_id target_branch transaction StatusCode.internal options.max_attempts 1

  unfoldable pub commit_transaction : Text → Action S CommitResult
  unfolding commit_transaction_impl
  commit_transaction = commit_transaction_impl true

  -- A failure is passed on after a rollback.
  unfoldable pub roll_back_and_fail : {A : Type 0} → Text → StatusCode → Action S A
  roll_back_and_fail transaction_id e = do
    rolled_back ← attempt (rollback_transaction formats storage transaction_id)
    elim rolled_back [ failed _ ↦ raise StatusCode.internal | ok _ ↦ raise e ]

  -- An implicit transaction that conflicts is rolled back, and the conflict is still the result.
  unfoldable pub settle : Text → StatusOr CommitResult → Action S CommitResult
  unfolding roll_back_and_fail
  settle transaction_id (failed e) = roll_back_and_fail transaction_id e
  settle transaction_id (ok (committed c)) = return (committed c)
  settle transaction_id (ok (conflicted c)) = do
    rolled_back ← attempt (rollback_transaction formats storage transaction_id)
    elim rolled_back [ failed _ ↦ raise StatusCode.internal | ok _ ↦ return (conflicted c) ]

  unfoldable pub run_implicit_transaction :
      Text → Option (Text → Action S (Unit {0})) → Option Text → Action S CommitResult
  unfolding commit_transaction_impl settle roll_back_and_fail
  run_implicit_transaction uuid none parent_id = raise StatusCode.invalid_argument
  run_implicit_transaction uuid (some callback) parent_id = do
    transaction_id ← create_transaction formats storage uuid parent_id none
    done ← attempt (callback transaction_id)
    elim done [
      | failed e ↦ roll_back_and_fail transaction_id e
      | ok _ ↦ do
        _ ← calls (storage.commit transaction_id (codes "implicit transaction " ++ transaction_id))
        result ← attempt (commit_transaction_impl false transaction_id)
        settle transaction_id result
    ]
