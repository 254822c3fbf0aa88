-- ===== src/Transaction/WriteExecutor/Child.antt =====
-- What execute_write of transaction/write_executor.cpp leaves of its child branch, over the storage in
-- memory.
use artifact_system.Base.{
  ℕ, zero, suc, ◌+◌, ◌==◌, ◌≡◌, ◌<◌, refl, ap, inl, inr, Bool, true, false, none, ◌++◌, length,
  length-append, Text, codes, text_eq, text_eq_iff, text_key, lookup, lookup-erase,
  contains-eq-false_of_none, contains-eq-true_of_some, arith, Bool-cases, Option-cases,
}
use artifact_system.Storage.Status.{StatusCode, StatusOr, ok, failed, StatusOr-cases}
use artifact_system.Storage.State.{MemoryStorage, canonical_branch}
use artifact_system.Storage.Memory.{delete_branch, get_branch_head, create_branch, commit}
use artifact_system.Storage.Merge.{Conflict, MergeResult, success, conflict, merge}
use artifact_system.Storage.Interface.{memory_storage}
use artifact_system.Transaction.Conflict.{evaluate_retry_decision}
use artifact_system.Transaction.Conflict.Retryable.{evaluate_retry_decision-Retryable}
use artifact_system.Transaction.ConflictDetail.{CommitConflict, build_commit_conflict}
use artifact_system.Transaction.WriteExecutor.{
  WriteOptions, WriteResult, written, write_conflict, Write, clean_up, after_resolver, ask_resolver,
  after_attempt, write_loop, after_commit, after_staging, next_child_branch_name, execute_write,
}

-- A branch that was deleted is gone.
pub lookup-delete_branch :
    (name : Text) (s : MemoryStorage)
    → text_eq name canonical_branch ≡ false
    → lookup name (delete_branch name s).1.branches ≡ none
unfolding delete_branch
lookup-delete_branch name s other = elim (Option-cases (lookup name s.branches)) [
  | inl missing ↦
      rw (other, contains-eq-false_of_none name s.branches missing, delete_branch) missing
  | inr (b, found) ↦ ground (
    arith,
    other,
    text_eq_iff name name,
    contains-eq-true_of_some name s.branches b found,
    lookup-erase name name s.branches,
  )
]

module _ (decimal : ℕ → Text) (options : WriteOptions MemoryStorage) (child branch : Text)
    (other : text_eq child canonical_branch ≡ false) where
  abbrev Gone : StatusOr WriteResult × MemoryStorage → Type 0
  Gone r = lookup child r.1.branches ≡ none

  clean_up-Gone :
      (result : StatusOr WriteResult) (s : MemoryStorage)
      → Gone (clean_up (memory_storage decimal) options child branch result s)
  unfolding clean_up
  clean_up-Gone result s = lookup-delete_branch child s other

  after_resolver-Gone :
      (again : Write MemoryStorage) (n : ℕ) (k : Conflict) (detail : CommitConflict)
      (r : StatusOr Bool) (s : MemoryStorage)
      → ((t : MemoryStorage) → Gone (again t))
      → Gone (after_resolver (memory_storage decimal) options child branch again n k detail r s)
  unfolding after_resolver
  after_resolver-Gone again n k detail (failed e) s h = clean_up-Gone (failed e) s
  after_resolver-Gone again n k detail (ok false) s h =
      clean_up-Gone (ok (write_conflict k (record detail { retryable = false }) n)) s
  after_resolver-Gone again n k detail (ok true) s h = h (options.sleep_for n s)

  ask_resolver-Gone :
      (again : Write MemoryStorage) (n : ℕ) (k : Conflict) (detail : CommitConflict)
      (s : MemoryStorage)
      → ((t : MemoryStorage) → Gone (again t))
      → Gone (ask_resolver (memory_storage decimal) options child branch again n k detail s)
  unfolding ask_resolver
  ask_resolver-Gone again n k detail s h = elim (Option-cases options.retry_conflict_resolver) [
    | inl missing ↦ rw (missing, ask_resolver) (h (options.sleep_for n s))
    | inr (resolver, found) ↦
        let r =
          resolver
            (record {
              merge_conflict = k;
              source_branch = child;
              target_branch = branch;
              attempts_performed = n;
            })
            s in
        rw (found, ask_resolver) (after_resolver-Gone again n k detail r.0 r.1 h)
  ]

  -- A retry happens only with attempts left.
  after_attempt-Gone :
      (again : Write MemoryStorage) (n : ℕ) (merged : StatusOr MergeResult) (s : MemoryStorage)
      → (n < options.max_attempts → (t : MemoryStorage) → Gone (again t))
      → Gone (after_attempt (memory_storage decimal) options child branch again n merged s)
  unfolding after_attempt ask_resolver
  after_attempt-Gone again n (failed e) s h = clean_up-Gone (failed e) s
  after_attempt-Gone again n (ok (success commit_id)) s h =
      clean_up-Gone (ok (written commit_id n)) s
  after_attempt-Gone again n (ok (conflict k)) s h =
      let decision =
        evaluate_retry_decision k n options.max_attempts options.path_conflict_classifier in
      let detail =
        build_commit_conflict k n options.max_attempts options.path_conflict_classifier in
      elim (Bool-cases decision.retryable) [
        | inr stop ↦ rw (stop, after_attempt) (clean_up-Gone (ok (write_conflict k detail n)) s)
        | inl retry ↦
            let below : n < options.max_attempts =
              (evaluate_retry_decision-Retryable k n options.max_attempts
                options.path_conflict_classifier retry).0 in
            rw (retry, after_attempt) (ask_resolver-Gone again n k detail s (h below))
      ]

  -- The last attempt is never followed by another.
  write_loop-Gone :
      (left n : ℕ) (s : MemoryStorage)
      → n + left ≡ options.max_attempts
      → Gone (write_loop (memory_storage decimal) options child branch (suc left) n s)
  unfolding write_loop
  write_loop-Gone zero n s e =
      let merged = merge decimal child branch s in
      after_attempt-Gone (write_loop (memory_storage decimal) options child branch 0 (n + 1)) n
        merged.0 merged.1 (λ below t. absurd (omega arith))
  write_loop-Gone (suc left) n s e =
      let merged = merge decimal child branch s in
      after_attempt-Gone
        (write_loop (memory_storage decimal) options child branch (suc left) (n + 1)) n merged.0
        merged.1 (λ below t. write_loop-Gone left (n + 1) t (omega arith))

  loop-Gone :
      (most : ℕ) (s : MemoryStorage)
      → most ≡ options.max_attempts
      → (most == 0) ≡ false
      → Gone (write_loop (memory_storage decimal) options child branch most 1 s)
  loop-Gone zero s e h = absurd (ground (arith, h))
  loop-Gone (suc left) s e h = write_loop-Gone left 1 s (omega arith)

  after_staging-Gone :
      (r : StatusOr (Unit {0}) × MemoryStorage)
      → (options.max_attempts == 0) ≡ false
      → Gone (after_staging (memory_storage decimal) options child branch r)
  unfolding after_staging after_commit
  after_staging-Gone (failed e, s) h = clean_up-Gone (failed e) s
  after_staging-Gone (ok _, s) h =
      elim (StatusOr-cases (commit decimal child (codes "write attempt 1") s).0) [
        | inr (e, stop) ↦
            rw (stop, after_staging, after_commit)
              (clean_up-Gone (failed e) (commit decimal child (codes "write attempt 1") s).1)
        | inl (id, made) ↦
            rw (made, after_staging, after_commit)
              (loop-Gone options.max_attempts (commit decimal child (codes "write attempt 1") s).1
                refl h)
      ]

-- A branch that is not created changes nothing.
refused_lem :
    (name base : Text) (s : MemoryStorage) (e : StatusCode)
    → (create_branch name base s).0 ≡ failed e
    → lookup name s.branches ≡ none
    → lookup name (create_branch name base s).1.branches ≡ none
unfolding create_branch
refused_lem name base s e refused fresh = ground (arith, refused, fresh)

name_is_other :
    (uuid branch : Text) → text_eq (next_child_branch_name uuid branch) canonical_branch ≡ false
unfolding next_child_branch_name
name_is_other uuid branch =
    elim (Bool-cases (text_eq (next_child_branch_name uuid branch) canonical_branch)) [
      | inr e ↦ e
      | inl e ↦ absurd (
          omega (
            arith,
            ap length ((text_eq_iff (next_child_branch_name uuid branch) canonical_branch).0 e),
            length-append branch (codes ".write-" ++ uuid),
          ))
    ]

-- Over the storage in memory, whatever the staging callback, the resolver and the pauses do, a write
-- whose child branch does not exist yet leaves no child branch behind, however it ends.
pub execute_write_cleans_up :
    (decimal : ℕ → Text) (options : WriteOptions MemoryStorage) (uuid branch : Text)
    (staging_callback : Text → MemoryStorage → StatusOr (Unit {0}) × MemoryStorage)
    (s : MemoryStorage)
    → lookup (next_child_branch_name uuid branch) s.branches ≡ none
    → lookup
        (next_child_branch_name uuid branch)
        (execute_write (memory_storage decimal) options uuid branch staging_callback s).1.branches
      ≡ none
unfolding execute_write
execute_write_cleans_up decimal options uuid branch staging_callback s fresh =
    let child = next_child_branch_name uuid branch in
    elim (Bool-cases (options.max_attempts == 0)) [
      | inl never ↦ rw (never, execute_write) fresh
      | inr some_attempts ↦ elim (StatusOr-cases (get_branch_head branch s)) [
        | inr (e, no_head) ↦ rw (some_attempts, no_head, execute_write) fresh
        | inl (head, found) ↦ elim (StatusOr-cases (create_branch child head s).0) [
          | inr (e, refused) ↦
              rw (some_attempts, found, refused, execute_write)
                (refused_lem child head s e refused fresh)
          | inl (name, created) ↦
              rw (some_attempts, found, created, execute_write)
                (after_staging-Gone decimal options child branch (name_is_other uuid branch)
                  (staging_callback child (create_branch child head s).1) some_attempts)
        ]
      ]
    ]
