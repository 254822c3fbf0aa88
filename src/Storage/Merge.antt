-- ===== src/Storage/Merge.antt =====
-- storage/memory_storage.cpp: Merge, and `struct MergeResult` of storage/storage_interface.h.
pub mod Outcome
pub mod Refused
use artifact_system.Base.{
  ℕ, Bool, true, false, none, some, List, [], ◌∷◌, ◌++◌, if◌then◌else◌, Text, codes, text_eq,
  text_key, Dict, lookup,
}
use artifact_system.Storage.Status.{StatusCode, StatusOr, ok, failed}
use artifact_system.Storage.State.{CommitData, BranchData, MemoryStorage}
use artifact_system.Storage.Memory.{advance}
use artifact_system.Storage.MergeBase.{find_merge_base}
use artifact_system.Storage.ThreeWay.{three_way, sorted}

-- `MergeResult::Conflict`
pub record Conflict : Type 0 where
  pub conflicting_paths : List Text
  pub base_commit_id : Text
  pub source_commit_id : Text
  pub target_commit_id : Text

-- `std::variant<Success, Conflict>`
pub data MergeResult : Type 0 where
  success : Text → MergeResult
  conflict : Conflict → MergeResult

-- `staging.empty()`
unfoldable pub has_no_entry {ℓ} : {A : Type ℓ} → List A → Bool
has_no_entry [] = true
has_no_entry (x ∷ xs) = false

unfoldable pub merge_message : Text → Text → Text
merge_message source target =
    codes "Merge '" ++ (source ++ (codes "' into '" ++ (target ++ codes "'")))

module _ (decimal : ℕ → Text) where
  -- Either the conflicts are reported, or a merge commit becomes the head of the target.
  unfoldable pub finish :
      Text
      → Text
      → BranchData
      → Conflict
      → Dict Text Text
      → MemoryStorage
      → StatusOr MergeResult × MemoryStorage
  unfolding merge_message
  finish source target b found merged s =
      if has_no_entry found.conflicting_paths
      then (let made =
            advance decimal target b (merge_message source target)
              (found.target_commit_id ∷ found.source_commit_id ∷ []) merged s in
          (ok (success made.0), made.1))
      else (ok (conflict (record found { conflicting_paths = sorted found.conflicting_paths })), s)

  -- The three snapshots are looked up and merged.
  unfoldable pub merge_snapshots :
      Text
      → Text
      → BranchData
      → Text
      → Text
      → Text
      → MemoryStorage
      → StatusOr MergeResult × MemoryStorage
  unfolding finish
  merge_snapshots source target b base_id source_head target_head s =
      elim (lookup base_id s.commits) [
        | none ↦ (failed StatusCode.internal, s)
        | some base ↦ elim (lookup source_head s.commits) [
          | none ↦ (failed StatusCode.internal, s)
          | some src ↦ elim (lookup target_head s.commits) [
            | none ↦ (failed StatusCode.internal, s)
            | some tgt ↦
                let result = three_way base.objects src.objects tgt.objects in
                finish source target b
                  (record {
                    conflicting_paths = result.1;
                    base_commit_id = base_id;
                    source_commit_id = source_head;
                    target_commit_id = target_head;
                  })
                  result.0 s
          ]
        ]
      ]

  unfoldable pub merge : Text → Text → MemoryStorage → StatusOr MergeResult × MemoryStorage
  unfolding merge_snapshots has_no_entry
  merge source target s =
      if text_eq source target
      then (failed StatusCode.invalid_argument, s)
      else (elim (lookup source s.branches) [
        | none ↦ (failed StatusCode.not_found, s)
        | some src ↦ elim (lookup target s.branches) [
          | none ↦ (failed StatusCode.not_found, s)
          | some tgt ↦
              (if has_no_entry src.staging
                then (if has_no_entry tgt.staging
                    then (elim (find_merge_base s src.head_commit_id tgt.head_commit_id) [
                      | failed e ↦ (failed e, s)
                      | ok base_id ↦
                          merge_snapshots source target tgt base_id src.head_commit_id
                            tgt.head_commit_id s
                    ])
                    else (failed StatusCode.failed_precondition, s))
                else (failed StatusCode.failed_precondition, s))
        ]
      ])
