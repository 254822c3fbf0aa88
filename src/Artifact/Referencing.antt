-- ===== src/Artifact/Referencing.antt =====
-- artifact/referential_integrity.cpp: which artifacts reference another, by the covering indexes.
pub mod Active
use artifact_system.Base.{
  ℕ, ◌/◌, ◌%◌, ◌^◌, Bool, true, false, ◌||◌, Option, none, some, List, [], ◌∷◌, ◌++◌, map, length,
  if◌then◌else◌, ◌==◌, Text, codes, text_eq, text_key, nat_key, Dict, lookup, contains,
}
use artifact_system.Storage.Status.{StatusCode, StatusOr, ok, failed}
use artifact_system.Storage.State.{is_empty}
use artifact_system.Encoding.Path.{index_path}
use artifact_system.Encoding.Varint.{encode_varint}
use artifact_system.Index.Cell.{IndexRow}
use artifact_system.Index.Rows.{OrderBy, OrderDefinition, IndexDefinition}
use artifact_system.Artifact.Stored.{
  StoredArtifact, ReferenceDefinition, Messages, RefIntegrityContext,
  read_stored_artifact_if_exists,
}

-- An absent value ends the steps.
infixl 5 ◌>>=◌
abbrev ◌>>=◌ : {A B : Type 0} → Option A → (A → Option B) → Option B
none >>= f = none
some a >>= f = f a

unfoldable pub make_index_definition : Text → List Text → Bool → IndexDefinition
make_index_definition key_type key_fields unique = record {
  key_type = key_type;
  key = key_fields;
  order = record { field = codes "artifact_id"; direction = OrderBy.ascending } ∷ [];
  unique = unique;
}

unfoldable pub encode_uint64_key : ℕ → List ℕ
encode_uint64_key value =
    (value % 256)
    ∷ (value / 2 ^ 8 % 256)
    ∷ (value / 2 ^ 16 % 256)
    ∷ (value / 2 ^ 24 % 256)
    ∷ (value / 2 ^ 32 % 256)
    ∷ (value / 2 ^ 40 % 256)
    ∷ (value / 2 ^ 48 % 256)
    ∷ (value / 2 ^ 56 % 256)
    ∷ []

unfoldable pub encode_string_key : Text → List ℕ
encode_string_key value = encode_varint (length value) ++ value

-- `scheduled_deletes.count(id) == 0 && id != artifact_id`, over the ids of a list
unfoldable pub keep_active : ℕ → Dict ℕ (Unit {0}) → List ℕ → List ℕ
keep_active artifact_id scheduled_deletes [] = []
keep_active artifact_id scheduled_deletes (id ∷ ids) =
    let rest = keep_active artifact_id scheduled_deletes ids in
    if contains id scheduled_deletes || (id == artifact_id) then rest else id ∷ rest

-- A covering index that is not found or not valid has no rows.
unfoldable pub or_empty : StatusCode → StatusOr (List ℕ)
or_empty StatusCode.not_found = ok []
or_empty StatusCode.invalid_argument = ok []
or_empty e = failed e

module _ {Files D : Type 0} (messages : Messages Files D) (ctx : RefIntegrityContext) where
  -- The payload of an artifact, where it is there and not empty.
  unfoldable pub live_artifact : ℕ → Option StoredArtifact
  live_artifact artifact_id = elim (read_stored_artifact_if_exists messages ctx artifact_id) [
    | failed e ↦ none
    | ok none ↦ none
    | ok (some stored) ↦ if is_empty stored.payload then none else some stored
  ]

  unfoldable pub read_index_artifact_ids : ℕ → List ℕ → IndexDefinition → D → StatusOr (List ℕ)
  read_index_artifact_ids index_def_id encoded_key index_definition parent_descriptor =
      elim (ctx.get_object ctx.ref (index_path messages.sha256 index_def_id encoded_key)) [
        | failed StatusCode.not_found ↦ ok []
        | failed e ↦ failed e
        | ok data_read ↦
            elim (messages.read_index_object index_definition parent_descriptor data_read) [
              | failed e ↦ failed e
              | ok object ↦ ok (map (λ (row : IndexRow). row.artifact_id) object.rows)
            ]
      ]

  module _ (index_def_ids_by_key_type : Dict Text ℕ) where
    -- Step 1: the artifact of the type's definition.
    unfoldable pub type_definition_id : Text → Option ℕ
    unfolding read_index_artifact_ids encode_string_key make_index_definition
    type_definition_id referencing_type_name =
        elim (lookup (codes "type_name_unique") index_def_ids_by_key_type) [
          | none ↦ none
          | some index_def_id ↦
              elim (read_index_artifact_ids index_def_id (encode_string_key referencing_type_name)
                (make_index_definition (codes "type_name_unique") (codes "type_name" ∷ []) true)
                messages.type_definition_descriptor) [
                  | failed e ↦ none
                  | ok [] ↦ none
                  | ok (id ∷ _) ↦ some id
                ]
        ]

    -- Steps 2 and 3: the descriptor set of the type's current version.
    unfoldable pub current_descriptor_set : ℕ → Option Files
    unfolding live_artifact
    current_descriptor_set type_def_id = do
      td_stored ← live_artifact type_def_id
      version_id ← messages.parse_type_definition td_stored.payload
      tvd_stored ← live_artifact version_id
      messages.parse_type_version_definition tvd_stored.payload

    unfoldable pub resolve_referencing_type : Text → Option D
    unfolding type_definition_id current_descriptor_set
    resolve_referencing_type referencing_type_name = do
      type_def_id ← type_definition_id referencing_type_name
      files ← current_descriptor_set type_def_id
      messages.build_pool_and_find_message files referencing_type_name

    unfoldable pub find_active_referencing_artifacts :
        ℕ → ReferenceDefinition → Dict ℕ (Unit {0}) → StatusOr (List ℕ)
    unfolding encode_uint64_key make_index_definition resolve_referencing_type
        read_index_artifact_ids keep_active or_empty
    find_active_referencing_artifacts artifact_id ref_def scheduled_deletes =
        elim (lookup ref_def.covering_index_key_type index_def_ids_by_key_type) [
          | none ↦ ok []
          | some covering_idx_def_id ↦
              elim (resolve_referencing_type ref_def.referencing_type_name) [
                | none ↦ ok []
                | some descriptor ↦
                    elim (read_index_artifact_ids covering_idx_def_id
                      (encode_uint64_key artifact_id)
                      (make_index_definition ref_def.covering_index_key_type
                        (ref_def.field_name ∷ []) false)
                      descriptor) [
                        | failed e ↦ or_empty e
                        | ok ids ↦ ok (keep_active artifact_id scheduled_deletes ids)
                      ]
              ]
        ]
