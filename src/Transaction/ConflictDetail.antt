-- ===== src/Transaction/ConflictDetail.antt =====
-- transaction/conflict_resolver.cpp: the report of a conflict that a client gets.
use artifact_system.Base.{
  ℕ, ◌+◌, ◌-◌, ◌*◌, ◌%◌, ◌^◌, ◌<◌, ◌≡◌, ap, Bool, true, false, Option, none, some, List, [], ◌∷◌,
  ltb, ◌==◌, if◌then◌else◌, length, Text, codes, arith,
}
use artifact_system.Encoding.Base64Url.{Decoded, ok, decode}
use artifact_system.Encoding.Base64Url.RoundTrip.{decode-encode}
use artifact_system.Encoding.Path.{uint64_big_endian_bytes, artifact_path}
use artifact_system.Encoding.Path.Injective.{uint64_big_endian_bytes-IsByte}
use artifact_system.Storage.State.{starts_with, behind}
use artifact_system.Storage.Merge.{Conflict}
use artifact_system.Transaction.Conflict.{
  PathConflictKind, ConflictType, classify, evaluate_retry_decision,
}

-- The loop of `ParseDecimalSuffix`; `value` is a `uint64_t`.
unfoldable pub parse_digits : ℕ → Text → Option ℕ
parse_digits value [] = some value
parse_digits value (c ∷ suffix) = elim (ltb c 48) [
  | true ↦ none
  | false ↦ elim (ltb 57 c) [
    | true ↦ none
    | false ↦ parse_digits ((value * 10 + (c - 48)) % 2 ^ 64) suffix
  ]
]

unfoldable pub parse_decimal_suffix : Text → Option ℕ
unfolding parse_digits
parse_decimal_suffix [] = none
parse_decimal_suffix (c ∷ suffix) = parse_digits 0 (c ∷ suffix)

-- `path.substr(path.find_last_of('/') + 1)`
unfoldable pub after_last_slash : Text → Option Text
after_last_slash [] = none
after_last_slash (c ∷ path) = elim (after_last_slash path) [
  | some part ↦ some part
  | none ↦ if c == 47 then some path else none
]

-- The loop over the bytes; the shift drops the high bits of the `uint64_t`.
unfoldable pub id_of_bytes : ℕ → List ℕ → ℕ
id_of_bytes artifact_id [] = artifact_id
id_of_bytes artifact_id (byte ∷ bytes) = id_of_bytes (artifact_id * 256 % 2 ^ 64 + byte) bytes

unfoldable pub id_of_decoded : Decoded → Option ℕ
unfolding id_of_bytes
id_of_decoded (ok bytes) = if length bytes == 8 then some (id_of_bytes 0 bytes) else none
id_of_decoded _ = none

unfoldable pub decode_artifact_id_from_path : Text → Option ℕ
unfolding parse_decimal_suffix after_last_slash id_of_decoded
decode_artifact_id_from_path path =
    if starts_with path (codes "payload/")
    then (elim (after_last_slash path) [ none ↦ none | some part ↦ parse_decimal_suffix part ])
    else (if starts_with path (codes "artifacts/")
        then id_of_decoded (decode (behind path (codes "artifacts/")))
        else none)

-- The detail of `CommitConflict`, a `oneof`.
pub data ConflictDetail : Type 0 where
  no_detail : ConflictDetail
  payload_detail : Option ℕ → ConflictDetail
  index_detail : Option Text → ConflictDetail
  referential_integrity_detail : ConflictDetail

-- `CommitConflict`
pub record CommitConflict : Type 0 where
  pub conflict_type : ConflictType
  pub retryable : Bool
  pub attempts : ℕ
  pub detail : ConflictDetail
  pub base_commit_id : Option Text
  pub ours_commit_id : Option Text
  pub theirs_commit_id : Option Text

-- The first path of the payload kind, and the id in it.
unfoldable pub payload_id : Option (Text → PathConflictKind) → List Text → Option ℕ
payload_id classifier [] = none
payload_id classifier (path ∷ paths) = elim (classify classifier path) [
  | PathConflictKind.non_retryable_payload ↦ decode_artifact_id_from_path path
  | PathConflictKind.retryable_non_unique_index ↦ payload_id classifier paths
  | PathConflictKind.non_retryable_unique_index ↦ payload_id classifier paths
  | PathConflictKind.non_retryable_referential_integrity ↦ payload_id classifier paths
  | PathConflictKind.non_retryable_unknown ↦ payload_id classifier paths
]

abbrev pub front : List Text → Option Text
front [] = none
front (path ∷ paths) = some path

unfoldable pub detail_of :
    ConflictType → Option (Text → PathConflictKind) → List Text → ConflictDetail
unfolding payload_id
detail_of ConflictType.payload_conflict classifier paths =
    payload_detail (payload_id classifier paths)
detail_of ConflictType.index_conflict classifier paths = index_detail (front paths)
detail_of ConflictType.referential_integrity_violation classifier paths =
    referential_integrity_detail
detail_of ConflictType.unspecified classifier paths = no_detail

-- A field that is set unless the text is empty.
unfoldable pub unless_empty : Text → Option Text
unless_empty [] = none
unless_empty (c ∷ s) = some (c ∷ s)

unfoldable pub build_commit_conflict :
    Conflict → ℕ → ℕ → Option (Text → PathConflictKind) → CommitConflict
unfolding detail_of unless_empty evaluate_retry_decision
build_commit_conflict merge_conflict attempts_performed max_attempts classifier =
    let decision =
      evaluate_retry_decision merge_conflict attempts_performed max_attempts classifier in
    record {
      conflict_type = decision.conflict_type;
      retryable = decision.retryable;
      attempts = attempts_performed;
      detail = detail_of decision.conflict_type classifier merge_conflict.conflicting_paths;
      base_commit_id = unless_empty merge_conflict.base_commit_id;
      ours_commit_id = unless_empty merge_conflict.source_commit_id;
      theirs_commit_id = unless_empty merge_conflict.target_commit_id;
    }

id_of_bytes-uint64 : (v : ℕ) → v < 2 ^ 64 → id_of_bytes 0 (uint64_big_endian_bytes v) ≡ v
unfolding id_of_bytes uint64_big_endian_bytes
id_of_bytes-uint64 v h = omega arith

-- The id that is read from the path of an artifact is the artifact's, for every `uint64_t`.
pub decode_artifact_id_from_path-artifact_path :
    (v : ℕ) → v < 2 ^ 64 → decode_artifact_id_from_path (artifact_path v) ≡ some v
unfolding decode_artifact_id_from_path artifact_path starts_with behind id_of_decoded
    uint64_big_endian_bytes
decode_artifact_id_from_path-artifact_path v h =
    rw ((decode-encode (uint64_big_endian_bytes v) (uint64_big_endian_bytes-IsByte v)).0)
      (ap some (id_of_bytes-uint64 v h))
