-- ===== src/Storage/History.antt =====
-- The storage over a sequence of calls of any clients.
pub mod Kept
pub mod Merged
pub mod Immutable
use artifact_system.Base.{
  ℕ, ◌+◌, ◌%◌, ◌^◌, ◌<◌, ◌≤◌, ◌≡◌, refl, sym, ◌∙◌, true, false, none, some, if◌then◌else◌, if_both,
  [], ◌∷◌, List, Text, text_eq, text_eq_iff, text_key, Dict, lookup, contains, insert,
  lookup-insert, arith, Option-cases, Bool-cases, inl, inr, Ordered, All, length, insert-Ordered,
  contains-eq-false_of_none, contains-eq-true_of_some,
}
use artifact_system.Storage.Status.{StatusCode, StatusOr, ok, failed, StatusOr-cases}
use artifact_system.Storage.State.{
  CommitData, BranchData, MemoryStorage, is_reserved_commit_id_name, canonical_branch,
  resolve_state,
}
use artifact_system.Storage.Memory.{
  commit_id_of, next_commit_id, initial_storage, base_of, create_branch, delete_branch, put_object,
  delete_object, stage, advance, commit,
}
use artifact_system.Storage.Memory.Writes.{stage-WellFormed}
use artifact_system.Storage.Memory.Commits.{advance-WellFormed, resolve_state-Ordered}
use artifact_system.Storage.Invariant.{DecimalLaws, IsCommit, WellFormed, next_is_fresh}
use artifact_system.Storage.Invariant.Preserved.{
  insert-WellFormed, erase-WellFormed, with_commit-keeps,
}
use artifact_system.Storage.ThreeWay.{three_way, merge_paths, merge_path, put_value, all_paths}
use artifact_system.Storage.MergeBase.{find_merge_base}
use artifact_system.Storage.Merge.{
  Conflict, MergeResult, merge, merge_snapshots, finish, merge_message, has_no_entry,
}

-- The calls that may change the storage.
pub data Call : Type 0 where
  create : Text → Text → Call
  remove : Text → Call
  put : Text → Text → Text → Call
  unput : Text → Text → Call
  commit_on : Text → Text → Call
  merge_into : Text → Text → Call

module _ (decimal : ℕ → Text) where
  unfoldable pub apply_call : Call → MemoryStorage → MemoryStorage
  unfolding create_branch delete_branch put_object delete_object commit merge
  apply_call (create name base) s = (create_branch name base s).1
  apply_call (remove name) s = (delete_branch name s).1
  apply_call (put branch path content) s = (put_object branch path content s).1
  apply_call (unput branch path) s = (delete_object branch path s).1
  apply_call (commit_on branch message) s = (commit decimal branch message s).1
  apply_call (merge_into source target) s = (merge decimal source target s).1

  unfoldable pub apply_calls : List Call → MemoryStorage → MemoryStorage
  unfolding apply_call
  apply_calls [] s = s
  apply_calls (call ∷ calls) s = apply_calls calls (apply_call call s)
