-- ===== src/Storage/State.antt =====
-- storage/memory_storage.h: the commits, the branches and their staged changes; the parts of
-- storage/memory_storage.cpp that read them.
use artifact_system.Base.{
  ℕ, Bool, true, false, ◌&&◌, Option, none, some, List, [], ◌∷◌, leb, ◌==◌, if◌then◌else◌, Text,
  codes, text_key, Dict, lookup, contains, insert, erase,
}
use artifact_system.Storage.Status.{StatusCode, StatusOr, ok, failed}

-- `MemoryStorage::CommitData`
pub record CommitData : Type 0 where
  pub id : Text
  pub message : Text
  pub parent_ids : List Text
  pub objects : Dict Text Text

-- `MemoryStorage::StagedChange`: no content is a tombstone.
pub record StagedChange : Type 0 where
  pub data_of : Option Text

-- `MemoryStorage::BranchData`
pub record BranchData : Type 0 where
  pub head_commit_id : Text
  pub staging : Dict Text StagedChange

-- `class MemoryStorage`
pub record MemoryStorage : Type 0 where
  pub commits : Dict Text CommitData
  pub branches : Dict Text BranchData
  pub next_commit_seq : ℕ

abbrev pub canonical_branch : Text
canonical_branch = codes "main"

abbrev pub commit_prefix : Text
commit_prefix = codes "commit-"

-- `std::string::starts_with`
unfoldable pub starts_with : Text → Text → Bool
starts_with s [] = true
starts_with [] (p ∷ prefix) = false
starts_with (c ∷ s) (p ∷ prefix) = (c == p) && starts_with s prefix

-- `std::isdigit`
unfoldable pub is_digit : ℕ → Bool
is_digit c = leb 48 c && leb c 57

unfoldable pub all_digits : Text → Bool
all_digits [] = true
all_digits (c ∷ s) = if is_digit c then all_digits s else false

-- What remains of the name behind the prefix.
unfoldable pub behind : Text → Text → Text
behind s [] = s
behind [] (p ∷ prefix) = []
behind (c ∷ s) (p ∷ prefix) = behind s prefix

unfoldable pub is_empty : Text → Bool
is_empty [] = true
is_empty (c ∷ s) = false

unfoldable pub is_reserved_commit_id_name : Text → Bool
is_reserved_commit_id_name name =
    if starts_with name commit_prefix
    then (if is_empty (behind name commit_prefix)
        then false
        else all_digits (behind name commit_prefix))
    else false

unfoldable pub apply_change : Text → StagedChange → Dict Text Text → Dict Text Text
apply_change path change state = elim (change.data_of) [
  | some content ↦ insert path content state
  | none ↦ erase path state
]

-- The loop over `branch.staging`.
unfoldable pub apply_staged : Dict Text StagedChange → Dict Text Text → Dict Text Text
apply_staged [] state = state
apply_staged ((path, change) ∷ staging) state =
    apply_staged staging (apply_change path change state)

unfoldable pub committed_objects : MemoryStorage → Text → Dict Text Text
committed_objects s commit_id = elim (lookup commit_id s.commits) [ none ↦ [] | some c ↦ c.objects ]

unfoldable pub resolve_state : MemoryStorage → BranchData → Dict Text Text
resolve_state s b = apply_staged b.staging (committed_objects s b.head_commit_id)

unfoldable pub resolve_ref_state : MemoryStorage → Text → StatusOr (Dict Text Text)
resolve_ref_state s ref = elim (lookup ref s.branches) [
  | some b ↦
      (if contains b.head_commit_id s.commits
        then ok (resolve_state s b)
        else failed StatusCode.internal)
  | none ↦ elim (lookup ref s.commits) [
    | some c ↦ ok c.objects
    | none ↦ failed StatusCode.not_found
  ]
]
