-- ===== src/Storage/Memory.antt =====
-- storage/memory_storage.cpp: branch operations, object input and output, and commits. Each method
-- runs as one step; the storage is passed along explicitly.
pub mod Reads
pub mod Writes
pub mod Commits
pub mod Listing
pub mod Staged
use artifact_system.Base.{
  ℕ, ◌+◌, ◌%◌, ◌^◌, ◌≡◌, Bool, true, false, Option, none, some, List, [], ◌∷◌, ◌++◌, if◌then◌else◌,
  Text, codes, text_eq, text_key, Dict, lookup, contains, insert, erase,
}
use artifact_system.Storage.Status.{StatusCode, StatusOr, ok, failed}
use artifact_system.Storage.State.{
  CommitData, StagedChange, BranchData, MemoryStorage, canonical_branch, commit_prefix, starts_with,
  is_empty, is_reserved_commit_id_name, resolve_state, resolve_ref_state,
}

-- The branch that a base id names, and the empty text that stands for the canonical head.
unfoldable pub base_of : Text → MemoryStorage → StatusOr Text
base_of base_commit_id s =
    if is_empty base_commit_id
    then (elim (lookup canonical_branch s.branches) [
      | none ↦ failed StatusCode.internal
      | some b ↦ ok b.head_commit_id
    ])
    else ok base_commit_id

unfoldable pub create_branch : Text → Text → MemoryStorage → StatusOr Text × MemoryStorage
create_branch name base_commit_id s =
    if contains name s.branches
    then (failed StatusCode.already_exists, s)
    else (if is_reserved_commit_id_name name
        then (failed StatusCode.invalid_argument, s)
        else (elim (base_of base_commit_id s) [
          | failed e ↦ (failed e, s)
          | ok base ↦
              (if contains base s.commits
                then (
                  ok name,
                  record s {
                    branches =
                        insert name (record { head_commit_id = base; staging = [] }) s.branches;
                  },
                )
                else (failed StatusCode.not_found, s))
        ]))

unfoldable pub delete_branch : Text → MemoryStorage → StatusOr (Unit {0}) × MemoryStorage
delete_branch branch s =
    if text_eq branch canonical_branch
    then (failed StatusCode.failed_precondition, s)
    else (if contains branch s.branches
        then (ok tt, record s { branches = erase branch s.branches })
        else (failed StatusCode.not_found, s))

unfoldable pub get_branch_head : Text → MemoryStorage → StatusOr Text
get_branch_head branch s = elim (lookup branch s.branches) [
  | none ↦ failed StatusCode.not_found
  | some b ↦ ok b.head_commit_id
]

unfoldable pub branch_exists : Text → MemoryStorage → StatusOr Bool
branch_exists branch s = ok (contains branch s.branches)

-- `it->second.staging[path] = change`
unfoldable pub stage :
    Text → Text → StagedChange → MemoryStorage → StatusOr (Unit {0}) × MemoryStorage
stage branch path change s = elim (lookup branch s.branches) [
  | none ↦ (failed StatusCode.not_found, s)
  | some b ↦ (
    ok tt,
    record s {
      branches = insert branch (record b { staging = insert path change b.staging }) s.branches;
    },
  )
]

unfoldable pub put_object : Text → Text → Text → MemoryStorage → StatusOr (Unit {0}) × MemoryStorage
unfolding stage
put_object branch path content s = stage branch path (record { data_of = some content }) s

unfoldable pub delete_object : Text → Text → MemoryStorage → StatusOr (Unit {0}) × MemoryStorage
unfolding stage
delete_object branch path s = stage branch path (record { data_of = none }) s

unfoldable pub get_object : Text → Text → MemoryStorage → StatusOr Text
get_object ref path s = elim (resolve_ref_state s ref) [
  | failed e ↦ failed e
  | ok state ↦ elim (lookup path state) [
    | none ↦ failed StatusCode.not_found
    | some content ↦ ok content
  ]
]

unfoldable pub object_exists : Text → Text → MemoryStorage → StatusOr Bool
object_exists ref path s = elim (resolve_ref_state s ref) [
  | failed e ↦ failed e
  | ok state ↦ ok (contains path state)
]

-- The loop over the state.
unfoldable pub paths_under : Text → Dict Text Text → List Text
paths_under prefix [] = []
paths_under prefix ((path, content) ∷ state) =
    if starts_with path prefix then path ∷ paths_under prefix state else paths_under prefix state

unfoldable pub list_objects : Text → Text → MemoryStorage → StatusOr (List Text)
unfolding paths_under
list_objects ref prefix s = elim (resolve_ref_state s ref) [
  | failed e ↦ failed e
  | ok state ↦ ok (paths_under prefix state)
]

unfoldable pub commit_exists : Text → MemoryStorage → StatusOr Bool
commit_exists commit_id s = ok (contains commit_id s.commits)

-- `absl::StrCat` prints a number in decimal.
module _ (decimal : ℕ → Text) where
  unfoldable pub commit_id_of : ℕ → Text
  commit_id_of n = commit_prefix ++ decimal n

  unfoldable pub next_commit_id : MemoryStorage → Text × MemoryStorage
  unfolding commit_id_of
  next_commit_id s = (
    commit_id_of s.next_commit_seq,
    record s { next_commit_seq = (s.next_commit_seq + 1) % 2 ^ 64 },
  )

  -- The constructor.
  unfoldable pub initial_storage : MemoryStorage
  unfolding next_commit_id
  initial_storage =
      let next = next_commit_id (record { commits = []; branches = []; next_commit_seq = 0 }) in
      record next.1 {
        commits =
            insert next.0
              (record { id = next.0; message = codes "genesis"; parent_ids = []; objects = [] }) [];
        branches = insert canonical_branch (record { head_commit_id = next.0; staging = [] }) [];
      }

  -- A new commit becomes the head of a branch.
  unfoldable pub advance :
      Text → BranchData → Text → List Text → Dict Text Text → MemoryStorage → Text × MemoryStorage
  unfolding next_commit_id
  advance branch b message parent_ids objects s =
      let next = next_commit_id s in
      (
        next.0,
        record next.1 {
          commits =
              insert next.0
                (record {
                  id = next.0;
                  message = message;
                  parent_ids = parent_ids;
                  objects = objects;
                })
                s.commits;
          branches = insert branch (record b { head_commit_id = next.0 }) s.branches;
        },
      )

  unfoldable pub commit : Text → Text → MemoryStorage → StatusOr Text × MemoryStorage
  unfolding advance
  commit branch message s = elim (lookup branch s.branches) [
    | none ↦ (failed StatusCode.not_found, s)
    | some b ↦
        let made =
          advance branch (record b { staging = [] }) message (b.head_commit_id ∷ [])
            (resolve_state s b) s in
        (ok made.0, made.1)
  ]
