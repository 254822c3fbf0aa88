-- ===== src/Artifact/Tests.antt =====
-- Two artifacts, 1 and 2, of a type that references itself: each references the other, and a removal
-- cascades. Parsers are concrete functions; an index object is the byte of the artifact in its row.
use artifact_system.Base.{
  ℕ, ◌≡◌, refl, subst, inl, inr, true, Option, none, some, List, [], ◌∷◌, map, All, if◌then◌else◌,
  Text, codes, text_key, nat_key, Dict, lookup, contains, insert, arith, Bool-cases,
}
use artifact_system.Storage.Status.{StatusCode, StatusOr, ok, failed}
use artifact_system.Encoding.Path.{artifact_path, index_path, uint64_big_endian_bytes}
use artifact_system.Encoding.Base64Url.{encode, encode_char}
use artifact_system.Encoding.Varint.{encode_varint, encode_loop}
use artifact_system.Index.Cell.{IndexRow, IndexObject}
use artifact_system.Index.Rows.{IndexDefinition}
use artifact_system.Artifact.Stored.{
  OnDelete, ReferenceDefinition, Messages, RefIntegrityContext, read_stored_artifact,
  read_stored_artifact_if_exists,
}
use artifact_system.Artifact.Referencing.{
  encode_string_key, encode_uint64_key, read_index_artifact_ids, make_index_definition, keep_active,
  live_artifact, type_definition_id, current_descriptor_set, resolve_referencing_type,
  find_active_referencing_artifacts,
}
use artifact_system.Storage.State.{is_empty}
use artifact_system.Artifact.Deletes.{
  cascade_delete, DeleteEnforcementResult, enforce_delete_integrity, subject_of, schedule,
  schedule_cascades, append_result, add_effects, restricted, cascade_loop, apply_policy,
  enforce_reference, enforce_definition, enforce_definitions, enforce_type,
}
use artifact_system.Artifact.Deletes.Terminates.{
  Settled, member, Listed, enforce_delete_integrity-Settled,
}
use artifact_system.Artifact.Deletes.Unscheduled.{
  Spares, Unscheduled, enforce_delete_integrity-Spares,
}
use artifact_system.Artifact.References.{
  Fields, no_more, field, repeated_uint64, scalar_uint64, scalar_message, map_of_messages, last,
  next, make_violation, duplicate_value, target_not_found, check_duplicates, field_path_of, both,
  to_list, validate_single_reference, validate_one, validate_each, validate_references_on_fields,
  validate_content, validate_submessages, validate_references,
}
use artifact_system.Artifact.References.Accepted.{Sound, validate_references-Sound}

abbrev universe : List ℕ
universe = 1 ∷ 2 ∷ 10 ∷ 20 ∷ []

abbrev node : Text
node = codes "Node"

abbrev link : ReferenceDefinition
link = record {
  key_type = codes "link";
  target_type_name = node;
  referencing_type_name = node;
  field_name = codes "next";
  covering_index_key_type = codes "by_next";
  on_delete = OnDelete.cascade;
}

abbrev object_of : Text → IndexObject
object_of [] = record { serialized_key = []; rows = [] }
object_of (b ∷ _) = record {
  serialized_key = [];
  rows = if member b universe then record { artifact_id = b; order_values = [] } ∷ [] else [];
}

abbrev messages : Messages (Unit {0}) (Unit {0})
messages = record {
  parse_stored_artifact = λ bytes. some (record { type_name = node; payload = bytes });
  parse_type_definition = λ bytes. some 21;
  parse_type_version_definition = λ bytes. some tt;
  parse_reference_definition = λ bytes. some link;
  type_definition_descriptor = tt;
  reference_definition_descriptor = tt;
  build_pool_and_find_message = λ files name. some tt;
  read_index_object = λ d descriptor bytes. ok (object_of bytes);
  sha256 = λ key. key;
}

abbrev ids_of : Dict Text ℕ
ids_of =
    (codes "by_next", 102)
    ∷ (codes "references_by_target_type", 100)
    ∷ (codes "type_name_unique", 101)
    ∷ []

abbrev objects : Dict Text Text
objects =
    (artifact_path 1, codes "a")
    ∷ (artifact_path 2, codes "b")
    ∷ (artifact_path 10, codes "link")
    ∷ (artifact_path 20, codes "type")
    ∷ (artifact_path 21, codes "version")
    ∷ (index_path (λ k. k) 100 (encode_string_key node), 10 ∷ [])
    ∷ (index_path (λ k. k) 101 (encode_string_key node), 20 ∷ [])
    ∷ (index_path (λ k. k) 102 (encode_uint64_key 1), 2 ∷ [])
    ∷ (index_path (λ k. k) 102 (encode_uint64_key 2), 1 ∷ [])
    ∷ []

abbrev found_or : Option Text → StatusOr Text
found_or none = failed StatusCode.not_found
found_or (some bytes) = ok bytes

abbrev ctx : RefIntegrityContext
ctx = record { get_object = λ ref path. found_or (lookup path objects); ref = codes "main" }

object_of-listed :
    (bytes : Text)
    → All
        (λ id. member id universe ≡ true)
        (map (λ (row : IndexRow). row.artifact_id) (object_of bytes).rows)
object_of-listed [] = tt
object_of-listed (b ∷ rest) = elim (Bool-cases (member b universe)) [
  | inl known ↦ rw known (known, tt)
  | inr unknown ↦ rw unknown tt
]

found_or-Settled : (o : Option Text) → Settled (found_or o)
found_or-Settled none h = cc
found_or-Settled (some bytes) h = cc

read_index-listed :
    (i : ℕ) (key : List ℕ) (ids : List ℕ) (o : Option Text)
    → lookup (index_path (λ k. k) i key) objects ≡ o
    → (d : IndexDefinition) → read_index_artifact_ids messages ctx i key d tt ≡ ok ids
    → All (λ id. member id universe ≡ true) ids
unfolding read_index_artifact_ids
read_index-listed i key ids none missing d h =
    let h' : ok [] ≡ ok ids = ground (arith, h, missing) in
    let same : [] ≡ ids = cc in subst (λ xs. All (λ id. member id universe ≡ true) xs) same tt
read_index-listed i key ids (some bytes) found d h =
    let listed_ids = map (λ (row : IndexRow). row.artifact_id) (object_of bytes).rows in
    let h' : ok listed_ids ≡ ok ids = ground (arith, h, found) in
    let same : listed_ids ≡ ids = cc in
    subst (λ xs. All (λ id. member id universe ≡ true) xs) same (object_of-listed bytes)

ctx-Listed : Listed messages ctx universe
ctx-Listed = record {
  get_object-Settled = λ ref path. found_or-Settled (lookup path objects);
  read_index_object-Settled = λ d descriptor bytes h. cc;
  listed = λ i key d descriptor ids h.
      read_index-listed i key ids (lookup (index_path (λ k. k) i key) objects) refl d h;
}

abbrev removal_of_1 : DeleteEnforcementResult
removal_of_1 = record { violations = []; side_effects = cascade_delete 2 ∷ [] }

cycle_removed :
    enforce_delete_integrity messages ctx ids_of 5 1 node ((1, tt) ∷ []) ≡ ok removal_of_1
unfolding contains insert lookup artifact_path index_path uint64_big_endian_bytes encode encode_char
    encode_varint encode_loop make_index_definition encode_uint64_key encode_string_key keep_active
    live_artifact read_index_artifact_ids type_definition_id current_descriptor_set
    resolve_referencing_type find_active_referencing_artifacts read_stored_artifact
    read_stored_artifact_if_exists subject_of schedule schedule_cascades append_result add_effects
    restricted cascade_loop apply_policy enforce_reference enforce_definition enforce_definitions
    enforce_type enforce_delete_integrity is_empty
cycle_removed = refl

enforce_delete_integrity-Settled_example :
    Settled (enforce_delete_integrity messages ctx ids_of 5 1 node ((1, tt) ∷ []))
unfolding contains
enforce_delete_integrity-Settled_example =
    enforce_delete_integrity-Settled messages ctx universe ctx-Listed ids_of 5 1 node ((1, tt) ∷ [])
      (omega arith)

enforce_delete_integrity-Spares_example : Spares ((1, tt) ∷ []) removal_of_1.side_effects
enforce_delete_integrity-Spares_example =
    enforce_delete_integrity-Spares messages ctx ids_of 5 1 node ((1, tt) ∷ []) removal_of_1
      cycle_removed

-- A scalar reference, and a repeated one in a nested message.
abbrev tree : List ℕ → Fields
tree children = field (codes "next") (some node) (scalar_uint64 1) (
    field (codes "inner") none
      (scalar_message (field (codes "children") (some node) (repeated_uint64 children) no_more))
      no_more)

tree_accepted : validate_references messages ctx (tree (1 ∷ 2 ∷ [])) ≡ ok []
unfolding contains insert lookup artifact_path uint64_big_endian_bytes encode encode_char
    read_stored_artifact read_stored_artifact_if_exists is_empty make_violation check_duplicates
    field_path_of both to_list validate_single_reference validate_one validate_each
    validate_references_on_fields validate_content validate_submessages validate_references
tree_accepted = refl

tree_refused :
    validate_references messages ctx (tree (2 ∷ 3 ∷ 2 ∷ []))
    ≡ ok (
        make_violation duplicate_value (codes "inner.children")
        ∷ make_violation target_not_found (codes "inner.children")
        ∷ [])
unfolding index_path contains insert lookup artifact_path uint64_big_endian_bytes encode encode_char
    read_stored_artifact read_stored_artifact_if_exists is_empty make_violation check_duplicates
    field_path_of both to_list validate_single_reference validate_one validate_each
    validate_references_on_fields validate_content validate_submessages validate_references
tree_refused = refl

-- A reference in the value of a map is skipped, even where it dangles.
abbrev entries : Fields
entries =
    field (codes "entries") none
      (map_of_messages
        (next (field (codes "target_id") (some node) (scalar_uint64 999) no_more) last))
      no_more

map_skipped : validate_references messages ctx entries ≡ ok []
unfolding field_path_of both validate_references_on_fields validate_content validate_references
map_skipped = refl

tree-Sound : Sound messages ctx (tree (1 ∷ 2 ∷ []))
tree-Sound = (validate_references-Sound messages ctx (tree (1 ∷ 2 ∷ []))).0 tree_accepted

abbrev nothing_yet : DeleteEnforcementResult
nothing_yet = record { violations = []; side_effects = [] }
