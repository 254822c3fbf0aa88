-- ===== src/Storage/Interface.antt =====
-- storage/storage_interface.h: the interface of the storage layer, and its implementation in memory.
use artifact_system.Base.{ℕ, Bool, List, Text}
use artifact_system.Storage.Status.{StatusOr}
use artifact_system.Storage.State.{MemoryStorage, canonical_branch}
use artifact_system.Storage.Memory.{
  create_branch, delete_branch, get_branch_head, branch_exists, put_object, get_object,
  delete_object, object_exists, list_objects, commit, commit_exists,
}
use artifact_system.Storage.Merge.{MergeResult, merge}

-- `class StorageInterface`, over the state `S` of a storage. A read leaves the state alone.
pub record StorageInterface {ℓ} (S : Type ℓ) : Type ℓ where
  pub create_branch : Text → Text → S → StatusOr Text × S
  pub delete_branch : Text → S → StatusOr (Unit {0}) × S
  pub get_branch_head : Text → S → StatusOr Text
  pub branch_exists : Text → S → StatusOr Bool
  pub put_object : Text → Text → Text → S → StatusOr (Unit {0}) × S
  pub get_object : Text → Text → S → StatusOr Text
  pub delete_object : Text → Text → S → StatusOr (Unit {0}) × S
  pub object_exists : Text → Text → S → StatusOr Bool
  pub list_objects : Text → Text → S → StatusOr (List Text)
  pub commit : Text → Text → S → StatusOr Text × S
  pub merge : Text → Text → S → StatusOr MergeResult × S
  pub get_canonical_branch : Text
  pub commit_exists : Text → S → StatusOr Bool

-- `class MemoryStorage : public StorageInterface`
abbrev pub memory_storage : (ℕ → Text) → StorageInterface MemoryStorage
memory_storage decimal = record {
  create_branch = create_branch;
  delete_branch = delete_branch;
  get_branch_head = get_branch_head;
  branch_exists = branch_exists;
  put_object = put_object;
  get_object = get_object;
  delete_object = delete_object;
  object_exists = object_exists;
  list_objects = list_objects;
  commit = commit decimal;
  merge = merge decimal;
  get_canonical_branch = canonical_branch;
  commit_exists = commit_exists;
}
