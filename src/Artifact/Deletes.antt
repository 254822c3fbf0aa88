-- ===== src/Artifact/Deletes.antt =====
-- artifact/referential_integrity.cpp: what the removal of an artifact does to those that reference it.
-- The recursion over cascaded artifacts runs on fuel.
pub mod Terminates
pub mod Unscheduled
use artifact_system.Base.{
  ℕ, zero, suc, Bool, true, false, not, Option, none, some, List, [], ◌∷◌, ◌++◌, map, if◌then◌else◌,
  Text, codes, text_eq, text_key, nat_key, Dict, lookup, insert,
}
use artifact_system.Storage.Status.{StatusCode, StatusOr, ok, failed}
use artifact_system.Storage.State.{is_empty}
use artifact_system.Artifact.Stored.{
  StoredArtifact, OnDelete, ReferenceDefinition, Messages, RefIntegrityContext,
  read_stored_artifact_if_exists,
}
use artifact_system.Artifact.Referencing.{
  make_index_definition, encode_string_key, live_artifact, read_index_artifact_ids,
  find_active_referencing_artifacts,
}

-- `std::variant<CascadeDelete, SetNullUpdate>`
pub data DeleteSideEffect : Type 0 where
  cascade_delete : ℕ → DeleteSideEffect
  set_null_update : ℕ → Text → ℕ → DeleteSideEffect

-- Every violation is REFERENCE_DELETE_RESTRICTED; it is given by its subject.
pub record DeleteEnforcementResult : Type 0 where
  pub violations : List Text
  pub side_effects : List DeleteSideEffect

unfoldable pub subject_of : ReferenceDefinition → Text
subject_of ref_def = codes "reference: " ++ ref_def.key_type

-- `updated_scheduled.insert(id)` for the ids of a list
unfoldable pub schedule : List ℕ → Dict ℕ (Unit {0}) → Dict ℕ (Unit {0})
schedule [] scheduled = scheduled
schedule (id ∷ ids) scheduled = schedule ids (insert id tt scheduled)

-- `updated_scheduled.insert(...)` for the cascades among the effects
unfoldable pub schedule_cascades : List DeleteSideEffect → Dict ℕ (Unit {0}) → Dict ℕ (Unit {0})
schedule_cascades [] scheduled = scheduled
schedule_cascades (cascade_delete id ∷ effects) scheduled =
    schedule_cascades effects (insert id tt scheduled)
schedule_cascades (set_null_update _ _ _ ∷ effects) scheduled = schedule_cascades effects scheduled

unfoldable pub append_result :
    DeleteEnforcementResult → DeleteEnforcementResult → DeleteEnforcementResult
append_result result more = record {
  violations = result.violations ++ more.violations;
  side_effects = result.side_effects ++ more.side_effects;
}

unfoldable pub add_effects :
    List DeleteSideEffect → DeleteEnforcementResult → DeleteEnforcementResult
add_effects effects result = record result { side_effects = result.side_effects ++ effects }

unfoldable pub restricted : ReferenceDefinition → DeleteEnforcementResult → DeleteEnforcementResult
unfolding subject_of
restricted ref_def result = record result {
  violations = result.violations ++ (subject_of ref_def ∷ []);
}

-- EnforceDeleteIntegrity of an artifact of a type, with the deletes that are scheduled.
abbrev pub Enforce : Type 0
Enforce = ℕ → Text → Dict ℕ (Unit {0}) → StatusOr DeleteEnforcementResult

module _ {Files D : Type 0} (messages : Messages Files D) (ctx : RefIntegrityContext) where
  -- The loop that recurses into each cascaded artifact.
  unfoldable pub cascade_loop :
      Enforce
      → List ℕ
      → Dict ℕ (Unit {0})
      → DeleteEnforcementResult
      → StatusOr DeleteEnforcementResult
  unfolding live_artifact schedule_cascades append_result
  cascade_loop enforce [] scheduled result = ok result
  cascade_loop enforce (id ∷ ids) scheduled result = elim (live_artifact messages ctx id) [
    | none ↦ cascade_loop enforce ids scheduled result
    | some stored ↦ elim (enforce id stored.type_name scheduled) [
      | failed e ↦ failed e
      | ok more ↦
          cascade_loop enforce ids (schedule_cascades more.side_effects scheduled)
            (append_result result more)
    ]
  ]

  -- The switch on the policy; at least one artifact references the removed one.
  unfoldable pub apply_policy :
      Enforce
      → ℕ
      → ReferenceDefinition
      → List ℕ
      → Dict ℕ (Unit {0})
      → DeleteEnforcementResult
      → StatusOr DeleteEnforcementResult
  unfolding cascade_loop schedule add_effects restricted
  apply_policy enforce artifact_id ref_def active scheduled result = elim ref_def.on_delete [
    | OnDelete.cascade ↦
        cascade_loop enforce active (schedule active scheduled)
          (add_effects (map cascade_delete active) result)
    | OnDelete.set_null ↦
        ok (
          add_effects (map (λ id. set_null_update id ref_def.field_name artifact_id) active) result)
    | _ ↦ ok (restricted ref_def result)
  ]

  module _ (index_def_ids_by_key_type : Dict Text ℕ) where
    -- Step 3 for a ReferenceDefinition of the type.
    unfoldable pub enforce_reference :
        Enforce
        → ℕ
        → ReferenceDefinition
        → Dict ℕ (Unit {0})
        → DeleteEnforcementResult
        → StatusOr DeleteEnforcementResult
    unfolding find_active_referencing_artifacts apply_policy
    enforce_reference enforce artifact_id ref_def scheduled result =
        elim (find_active_referencing_artifacts messages ctx index_def_ids_by_key_type artifact_id
          ref_def scheduled) [
            | failed e ↦ failed e
            | ok [] ↦ ok result
            | ok (first ∷ more) ↦
                apply_policy enforce artifact_id ref_def (first ∷ more) scheduled result
          ]

    -- A round of step 2: a ReferenceDefinition is read.
    unfoldable pub enforce_definition :
        Enforce
        → ℕ
        → Text
        → ℕ
        → Dict ℕ (Unit {0})
        → DeleteEnforcementResult
        → StatusOr DeleteEnforcementResult
    unfolding read_stored_artifact_if_exists enforce_reference
    enforce_definition enforce artifact_id type_name ref_def_id scheduled result =
        elim (read_stored_artifact_if_exists messages ctx ref_def_id) [
          | failed e ↦ failed e
          | ok none ↦ ok result
          | ok (some stored) ↦
              if is_empty stored.payload
              then ok result
              else (elim (messages.parse_reference_definition stored.payload) [
                | none ↦ failed StatusCode.internal
                | some ref_def ↦
                    if text_eq ref_def.target_type_name type_name
                    then enforce_reference enforce artifact_id ref_def scheduled result
                    else ok result
              ])
        ]

    unfoldable pub enforce_definitions :
        Enforce
        → ℕ
        → Text
        → List ℕ
        → Dict ℕ (Unit {0})
        → DeleteEnforcementResult
        → StatusOr DeleteEnforcementResult
    unfolding enforce_definition
    enforce_definitions enforce artifact_id type_name [] scheduled result = ok result
    enforce_definitions enforce artifact_id type_name (id ∷ ids) scheduled result =
        elim (enforce_definition enforce artifact_id type_name id scheduled result) [
          | failed e ↦ failed e
          | ok result' ↦ enforce_definitions enforce artifact_id type_name ids scheduled result'
        ]

    -- Steps 1 and 2: the ReferenceDefinitions that target the type.
    unfoldable pub enforce_type : Enforce → Enforce
    unfolding enforce_definitions read_index_artifact_ids encode_string_key make_index_definition
    enforce_type enforce artifact_id type_name scheduled =
        elim (lookup (codes "references_by_target_type") index_def_ids_by_key_type) [
          | none ↦ ok (record { violations = []; side_effects = [] })
          | some index_def_id ↦
              elim (read_index_artifact_ids messages ctx index_def_id (encode_string_key type_name)
                (make_index_definition (codes "references_by_target_type")
                  (codes "target_type_name" ∷ []) false)
                messages.reference_definition_descriptor) [
                  | failed e ↦ failed e
                  | ok ids ↦
                      enforce_definitions enforce artifact_id type_name ids scheduled
                        (record { violations = []; side_effects = [] })
                ]
        ]

    unfoldable pub enforce_delete_integrity : ℕ → Enforce
    unfolding enforce_type
    enforce_delete_integrity zero artifact_id type_name scheduled = failed StatusCode.unfinished
    enforce_delete_integrity (suc fuel) artifact_id type_name scheduled =
        enforce_type (enforce_delete_integrity fuel) artifact_id type_name scheduled
