-- ===== src/Transaction/Conflict.antt =====
-- transaction/conflict_resolver.cpp and .h: the kind of a conflicting path, the type of a conflict,
-- and whether a commit is tried again. The pauses between attempts, which are floating-point
-- durations, and the message that BuildCommitConflict fills are left out.
pub mod Retryable
use artifact_system.Base.{
  ℕ, Bool, true, false, ◌&&◌, not, Option, none, some, List, [], ◌∷◌, ◌++◌, leb, if◌then◌else◌,
  Text, codes,
}
use artifact_system.Storage.State.{starts_with}
use artifact_system.Storage.Merge.{Conflict, has_no_entry}

pub data PathConflictKind : Type 0 where
  retryable_non_unique_index non_retryable_unique_index non_retryable_payload
        non_retryable_referential_integrity non_retryable_unknown :
      PathConflictKind

-- `CommitConflict::ConflictType`
pub data ConflictType : Type 0 where
  payload_conflict index_conflict referential_integrity_violation unspecified : ConflictType

-- What the loop of `ResolveConflictType` has seen; `saw_unknown_conflict` changes no result.
unfoldable pub resolve_from : List PathConflictKind → Bool → Bool → ConflictType
resolve_from [] saw_index_conflict saw_referential_conflict =
    if saw_index_conflict
    then ConflictType.index_conflict
    else (if saw_referential_conflict
        then ConflictType.referential_integrity_violation
        else ConflictType.unspecified)
resolve_from (PathConflictKind.non_retryable_payload ∷ kinds) i r = ConflictType.payload_conflict
resolve_from (PathConflictKind.retryable_non_unique_index ∷ kinds) i r = resolve_from kinds true r
resolve_from (PathConflictKind.non_retryable_unique_index ∷ kinds) i r = resolve_from kinds true r
resolve_from (PathConflictKind.non_retryable_referential_integrity ∷ kinds) i r =
    resolve_from kinds i true
resolve_from (PathConflictKind.non_retryable_unknown ∷ kinds) i r = resolve_from kinds i r

unfoldable pub resolve_conflict_type : List PathConflictKind → ConflictType
unfolding resolve_from
resolve_conflict_type kinds = resolve_from kinds false false

-- `path.rfind(prefix, 0) == 0` says that the path starts with the prefix.
unfoldable pub default_path_conflict_classifier : Text → PathConflictKind
default_path_conflict_classifier path =
    if starts_with path (codes "idx/non_unique/")
    then PathConflictKind.retryable_non_unique_index
    else (if starts_with path (codes "idx/unique/")
        then PathConflictKind.non_retryable_unique_index
        else (if starts_with path (codes "indexes/")
            then PathConflictKind.non_retryable_unique_index
            else (if starts_with path (codes "payload/")
                then PathConflictKind.non_retryable_payload
                else (if starts_with path (codes "artifacts/")
                    then PathConflictKind.non_retryable_payload
                    else (if starts_with path (codes "references/")
                        then PathConflictKind.non_retryable_referential_integrity
                        else PathConflictKind.non_retryable_unknown)))))

pub record RetryDecision : Type 0 where
  pub retryable : Bool
  pub conflict_type : ConflictType

unfoldable pub is_retryable_kind : PathConflictKind → Bool
is_retryable_kind PathConflictKind.retryable_non_unique_index = true
is_retryable_kind _ = false

-- A classifier may be missing.
unfoldable pub classify : Option (Text → PathConflictKind) → Text → PathConflictKind
unfolding default_path_conflict_classifier
classify none path = default_path_conflict_classifier path
classify (some classifier) path = classifier path

-- The loop over the paths: the kinds in order, and `all_retryable_non_unique`.
unfoldable pub kinds_of :
    Option (Text → PathConflictKind)
    → List Text
    → List PathConflictKind × Bool
    → List PathConflictKind × Bool
unfolding classify is_retryable_kind
kinds_of classifier [] state = state
kinds_of classifier (path ∷ paths) (kinds, all_retryable) = kinds_of classifier paths (
  kinds ++ (classify classifier path ∷ []),
  if is_retryable_kind (classify classifier path) then all_retryable else false,
)

-- The attempts that were made, and `options.max_attempts`.
unfoldable pub evaluate_retry_decision :
    Conflict → ℕ → ℕ → Option (Text → PathConflictKind) → RetryDecision
unfolding kinds_of resolve_conflict_type has_no_entry
evaluate_retry_decision merge_conflict attempts_performed max_attempts classifier =
    if has_no_entry merge_conflict.conflicting_paths
    then record { retryable = false; conflict_type = ConflictType.unspecified }
    else (let seen = kinds_of classifier merge_conflict.conflicting_paths ([], true) in
        record {
          retryable = seen.1 && not (leb max_attempts attempts_performed);
          conflict_type = resolve_conflict_type seen.0;
        })
