-- ===== src/Artifact/References.antt =====
-- artifact/referential_integrity.cpp: the check of the references in a message that is written. A
-- message is given by the fields of its descriptor with what protobuf's reflection reads of each.
pub mod Accepted
use artifact_system.Base.{
  ℕ, ◌≡◌, refl, inl, inr, Bool, true, false, Option, none, some, List, [], ◌∷◌, ◌++◌, if◌then◌else◌,
  Text, codes, text_eq, nat_key, Dict, contains, insert, All, arith, Bool-cases, Option-cases,
}
use artifact_system.Storage.Status.{StatusCode, StatusOr, ok, failed, StatusOr-cases}
use artifact_system.Storage.State.{is_empty}
use artifact_system.Artifact.Stored.{
  StoredArtifact, Messages, RefIntegrityContext, read_stored_artifact_if_exists,
}

-- `ArtifactWriteViolation::Category`, as far as it is used here.
pub data Category : Type 0 where
  target_not_found target_tombstoned target_wrong_type duplicate_value : Category

pub record Violation : Type 0 where
  pub category : Category
  pub subject : Text

mutual
  -- The fields of a message in order: the name, the target type of a `references` option, the value.
  pub data Fields : Type 0 where
    no_more : Fields
    field : Text → Option Text → Content → Fields → Fields

  -- `unset` is a field with presence that is not there. `map_of_messages` has the messages that are the
  -- values of a map; `other` is of any other type, a map of such values too.
  pub data Content : Type 0 where
    repeated_uint64 : List ℕ → Content
    scalar_uint64 : ℕ → Content
    repeated_message : Submessages → Content
    scalar_message : Fields → Content
    map_of_messages : Submessages → Content
    unset other : Content

  pub data Submessages : Type 0 where
    last : Submessages
    next : Fields → Submessages → Submessages

unfoldable pub make_violation : Category → Text → Violation
make_violation category field_path = record {
  category = category;
  subject = codes "field: " ++ field_path;
}

-- The loop over `seen`
unfoldable pub check_duplicates : Text → Dict ℕ (Unit {0}) → List ℕ → List Violation
unfolding make_violation
check_duplicates field_path seen [] = []
check_duplicates field_path seen (id ∷ ids) =
    let rest = check_duplicates field_path (insert id tt seen) ids in
    if contains id seen then make_violation duplicate_value field_path ∷ rest else rest

unfoldable pub field_path_of : Text → Text → Text
field_path_of prefix name = if is_empty prefix then name else prefix ++ (codes "." ++ name)

-- The violations of one part, and then those of the next, unless a part fails.
unfoldable pub both :
    StatusOr (List Violation) → StatusOr (List Violation) → StatusOr (List Violation)
both (failed e) r = failed e
both (ok vs) (failed e) = failed e
both (ok vs) (ok ws) = ok (vs ++ ws)

unfoldable pub to_list : Option Violation → List Violation
to_list none = []
to_list (some v) = v ∷ []

module _ {Files D : Type 0} (messages : Messages Files D) (ctx : RefIntegrityContext) where
  unfoldable pub validate_single_reference : ℕ → Text → Text → StatusOr (Option Violation)
  unfolding make_violation
  validate_single_reference ref_id field_name target_type_name =
      elim (read_stored_artifact_if_exists messages ctx ref_id) [
        | failed e ↦ failed e
        | ok none ↦ ok (some (make_violation target_not_found field_name))
        | ok (some stored) ↦
            if is_empty stored.payload
            then ok (some (make_violation target_tombstoned field_name))
            else (if text_eq stored.type_name target_type_name
                then ok none
                else ok (some (make_violation target_wrong_type field_name)))
      ]

  unfoldable pub validate_one : Text → Text → ℕ → StatusOr (List Violation)
  unfolding validate_single_reference to_list
  validate_one field_path target id = elim (validate_single_reference id field_path target) [
    | failed e ↦ failed e
    | ok o ↦ ok (to_list o)
  ]

  -- The loop over `validated`
  unfoldable pub validate_each :
      Text → Text → Dict ℕ (Unit {0}) → List ℕ → StatusOr (List Violation)
  unfolding validate_one both
  validate_each field_path target validated [] = ok []
  validate_each field_path target validated (id ∷ ids) =
      let again = validate_each field_path target validated ids in
      let rest = validate_each field_path target (insert id tt validated) ids in
      if contains id validated then again else both (validate_one field_path target id) rest

  unfoldable mutual
    unfolding both validate_one validate_each check_duplicates field_path_of

    pub validate_references_on_fields : Text → Fields → StatusOr (List Violation)
    validate_references_on_fields prefix no_more = ok []
    validate_references_on_fields prefix (field name target content fields) =
        both (validate_content (field_path_of prefix name) target content)
          (validate_references_on_fields prefix fields)

    pub validate_content : Text → Option Text → Content → StatusOr (List Violation)
    validate_content path (some target) (repeated_uint64 ids) =
        both (ok (check_duplicates path [] ids)) (validate_each path target [] ids)
    validate_content path (some target) (scalar_uint64 id) = validate_one path target id
    validate_content path (some target) _ = ok []
    validate_content path none (repeated_message subs) = validate_submessages path subs
    validate_content path none (scalar_message fields) = validate_references_on_fields path fields
    validate_content path none (map_of_messages values) = ok []
    validate_content path none _ = ok []

    pub validate_submessages : Text → Submessages → StatusOr (List Violation)
    validate_submessages path last = ok []
    validate_submessages path (next fields subs) =
        both (validate_references_on_fields path fields) (validate_submessages path subs)

  -- The message is of the descriptor.
  unfoldable pub validate_references : Fields → StatusOr (List Violation)
  unfolding validate_references_on_fields
  validate_references fields = validate_references_on_fields [] fields
