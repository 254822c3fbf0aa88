-- ===== src/Artifact/Stored.antt =====
-- artifact/proto_utils.h: artifacts as they are stored, and the messages that the integrity of
-- references reads. Protobuf's parsers are arguments, and with them what its descriptors are read for:
-- the search for a message in a set of files, and the index objects of a generated schema.
use artifact_system.Base.{ℕ, Option, none, some, Text, List}
use artifact_system.Storage.Status.{StatusCode, StatusOr, ok, failed}
use artifact_system.Encoding.Path.{artifact_path}
use artifact_system.Index.Cell.{IndexObject}
use artifact_system.Index.Rows.{IndexDefinition}

-- `message StoredArtifact`, with the fields that are read.
pub record StoredArtifact : Type 0 where
  pub type_name : Text
  pub payload : Text

-- `enum OnDelete`
pub data OnDelete : Type 0 where
  on_delete_unspecified restrict cascade set_null : OnDelete

-- `message ReferenceDefinition`
pub record ReferenceDefinition : Type 0 where
  pub key_type : Text
  pub target_type_name : Text
  pub referencing_type_name : Text
  pub field_name : Text
  pub covering_index_key_type : Text
  pub on_delete : OnDelete

-- Files are descriptor sets, and `D` is the type of descriptors.
pub record Messages (Files D : Type 0) : Type 0 where
  pub parse_stored_artifact : Text → Option StoredArtifact
  -- A type's current version, and the version's descriptor set.
  pub parse_type_definition : Text → Option ℕ
  pub parse_type_version_definition : Text → Option Files
  pub parse_reference_definition : Text → Option ReferenceDefinition
  pub type_definition_descriptor : D
  pub reference_definition_descriptor : D
  pub build_pool_and_find_message : Files → Text → Option D
  -- GenerateIndexSchema, and then DeserializeIndexObject.
  pub read_index_object : IndexDefinition → D → Text → StatusOr IndexObject
  pub sha256 : List ℕ → List ℕ

-- `struct RefIntegrityContext`
pub record RefIntegrityContext : Type 0 where
  pub get_object : Text → Text → StatusOr Text
  pub ref : Text

module _ {Files D : Type 0} (messages : Messages Files D) (ctx : RefIntegrityContext) where
  unfoldable pub read_stored_artifact : ℕ → StatusOr StoredArtifact
  read_stored_artifact artifact_id = elim (ctx.get_object ctx.ref (artifact_path artifact_id)) [
    | failed e ↦ failed e
    | ok data_read ↦ elim (messages.parse_stored_artifact data_read) [
      | none ↦ failed StatusCode.internal
      | some stored ↦ ok stored
    ]
  ]

  unfoldable pub read_stored_artifact_if_exists : ℕ → StatusOr (Option StoredArtifact)
  unfolding read_stored_artifact
  read_stored_artifact_if_exists artifact_id = elim (read_stored_artifact artifact_id) [
    | ok stored ↦ ok (some stored)
    | failed StatusCode.not_found ↦ ok none
    | failed e ↦ failed e
  ]
