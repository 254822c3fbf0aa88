-- ===== src/Artifact/Deletes/Terminates.antt =====
-- artifact/referential_integrity.cpp: the recursion of EnforceDeleteIntegrity, and its fuel.
use artifact_system.Base.{
  ℕ, zero, suc, ◌<◌, ◌≤◌, ◌≡◌, ◌≢◌, refl, subst, inl, inr, Bool, true, false, ◌||◌, none, some,
  List, [], ◌∷◌, map, if◌then◌else◌, ◌==◌, ==_iff, ==_refl, Text, codes, text_eq, text_key, nat_key,
  Dict, lookup, contains, insert, All, arith, Bool-cases, Option-cases,
}
use artifact_system.Storage.Status.{StatusCode, StatusOr, ok, failed, StatusOr-cases}
use artifact_system.Storage.State.{is_empty}
use artifact_system.Encoding.Path.{artifact_path, index_path}
use artifact_system.Index.Rows.{IndexDefinition}
use artifact_system.Index.Deltas.Changes.{contains-insert}
use artifact_system.Artifact.Stored.{
  OnDelete, ReferenceDefinition, Messages, RefIntegrityContext, read_stored_artifact,
  read_stored_artifact_if_exists,
}
use artifact_system.Artifact.Referencing.{
  make_index_definition, encode_string_key, keep_active, live_artifact, read_index_artifact_ids,
  find_active_referencing_artifacts,
}
use artifact_system.Artifact.Referencing.Active.{find_active-FromIndex}
use artifact_system.Artifact.Deletes.{
  DeleteSideEffect, cascade_delete, set_null_update, DeleteEnforcementResult, schedule,
  schedule_cascades, append_result, add_effects, Enforce, cascade_loop, apply_policy,
  enforce_reference, enforce_definition, enforce_definitions, enforce_type,
  enforce_delete_integrity,
}

abbrev pub Settled : {A : Type 0} → StatusOr A → Type 0
Settled r = r ≢ failed StatusCode.unfinished

abbrev pub member : ℕ → List ℕ → Bool
member id [] = false
member id (u ∷ us) = (u == id) || member id us

-- How many ids of a list are not scheduled.
abbrev pub open_ids : List ℕ → Dict ℕ (Unit {0}) → ℕ
open_ids [] scheduled = 0
open_ids (u ∷ us) scheduled =
    if contains u scheduled then open_ids us scheduled else suc (open_ids us scheduled)

abbrev pub Within : Dict ℕ (Unit {0}) → Dict ℕ (Unit {0}) → Type 0
Within s s' = (id : ℕ) → contains id s ≡ true → contains id s' ≡ true

open_ids_mono :
    (us : List ℕ) (s s' : Dict ℕ (Unit {0})) → Within s s' → open_ids us s' ≤ open_ids us s
open_ids_mono [] s s' within = omega arith
open_ids_mono (u ∷ us) s s' within = ground (arith, open_ids_mono us s s' within, within u)

open_ids_less :
    (us : List ℕ) (s s' : Dict ℕ (Unit {0})) (id : ℕ)
    → Within s s'
    → member id us ≡ true
    → contains id s ≡ false
    → contains id s' ≡ true
    → open_ids us s' < open_ids us s
open_ids_less [] s s' id within m out inside = absurd (cc)
open_ids_less (u ∷ us) s s' id within m out inside = elim (Bool-cases (u == id)) [
  | inl same ↦ ground (arith, out, inside, same, ==_iff u id, open_ids_mono us s s' within)
  | inr other ↦ ground (
    arith,
    m,
    other,
    within u,
    open_ids_less us s s' id within (ground (arith, m, other)) out inside,
  )
]

insert-Within : (id : ℕ) (s : Dict ℕ (Unit {0})) → Within s (insert id tt s)
insert-Within id s j h = ground (arith, h, contains-insert id j s)

pub schedule-Within : (ids : List ℕ) (s : Dict ℕ (Unit {0})) → Within s (schedule ids s)
unfolding schedule
schedule-Within [] s j h = h
schedule-Within (id ∷ ids) s j h = schedule-Within ids (insert id tt s) j (insert-Within id s j h)

schedule_first :
    (id : ℕ) (ids : List ℕ) (s : Dict ℕ (Unit {0})) → contains id (schedule (id ∷ ids) s) ≡ true
unfolding schedule
schedule_first id ids s =
    schedule-Within ids (insert id tt s) id (ground (arith, contains-insert id id s, ==_refl id))

pub schedule_cascades-Within :
    (effects : List DeleteSideEffect) (s : Dict ℕ (Unit {0}))
    → Within s (schedule_cascades effects s)
unfolding schedule_cascades
schedule_cascades-Within [] s j h = h
schedule_cascades-Within (cascade_delete id ∷ effects) s j h =
    schedule_cascades-Within effects (insert id tt s) j (insert-Within id s j h)
schedule_cascades-Within (set_null_update a b c ∷ effects) s j h =
    schedule_cascades-Within effects s j h

-- The ids of the first element kept: it is one of the list, and not scheduled.
keep_active_first :
    (P : ℕ → Type 0) (a : ℕ) (s : Dict ℕ (Unit {0})) (ids : List ℕ) (first : ℕ) (more : List ℕ)
    → All P ids
    → keep_active a s ids ≡ first ∷ more
    → P first × (contains first s ≡ false)
unfolding keep_active
keep_active_first P a s [] first more all h = absurd (cc)
keep_active_first P a s (id ∷ ids) first more (here, all) h =
    elim (Bool-cases (contains id s || (id == a))) [
      | inl dropped ↦ keep_active_first P a s ids first more all (ground (arith, h, dropped))
      | inr kept ↦
          let same : id ≡ first = ground (arith, h, kept) in
          (subst (λ x. P x) same here, ground (arith, kept, same))
    ]

-- What the storage and the parsers promise: no code of the model's own, and index rows only of the
-- artifacts of a list.
pub record Listed {Files D : Type 0} (messages : Messages Files D) (ctx : RefIntegrityContext)
    (universe : List ℕ) : Type 0 where
  pub get_object-Settled : (ref path : Text) → Settled (ctx.get_object ref path)
  pub read_index_object-Settled :
      (d : IndexDefinition) (descriptor : D) (bytes : Text)
      → Settled (messages.read_index_object d descriptor bytes)
  pub listed :
      (index_def_id : ℕ) (key : List ℕ) (d : IndexDefinition) (descriptor : D) (ids : List ℕ)
      → read_index_artifact_ids messages ctx index_def_id key d descriptor ≡ ok ids
      → All (λ id. member id universe ≡ true) ids

module _ {Files D : Type 0} (messages : Messages Files D) (ctx : RefIntegrityContext)
    (universe : List ℕ) (laws : Listed messages ctx universe) where
  read_stored-Settled : (id : ℕ) → Settled (read_stored_artifact messages ctx id)
  unfolding read_stored_artifact
  read_stored-Settled id h = elim (StatusOr-cases (ctx.get_object ctx.ref (artifact_path id))) [
    | inr (e, bad) ↦ laws.get_object-Settled ctx.ref (artifact_path id) (ground (arith, h, bad))
    | inl (d, good) ↦ elim (Option-cases (messages.parse_stored_artifact d)) [
      | inl garbled ↦ absurd (ground (arith, h, good, garbled))
      | inr (stored, parsed) ↦ absurd (ground (arith, h, good, parsed))
    ]
  ]

  read_if_exists-Settled : (id : ℕ) → Settled (read_stored_artifact_if_exists messages ctx id)
  unfolding read_stored_artifact_if_exists
  read_if_exists-Settled id h = elim (StatusOr-cases (read_stored_artifact messages ctx id)) [
    | inr (e, bad) ↦ read_stored-Settled id (ground (arith, h, bad))
    | inl (stored, good) ↦ absurd (ground (arith, h, good))
  ]

  read_index-Settled :
      (i : ℕ) (k : List ℕ) (d : IndexDefinition) (descriptor : D)
      → Settled (read_index_artifact_ids messages ctx i k d descriptor)
  unfolding read_index_artifact_ids
  read_index-Settled i k d descriptor h =
      let path = index_path messages.sha256 i k in
      elim (StatusOr-cases (ctx.get_object ctx.ref path)) [
        | inr (e, bad) ↦ laws.get_object-Settled ctx.ref path (ground (arith, h, bad))
        | inl (bytes, good) ↦
            elim (StatusOr-cases (messages.read_index_object d descriptor bytes)) [
              | inr (e, bad) ↦
                  laws.read_index_object-Settled d descriptor bytes (ground (arith, h, good, bad))
              | inl (object, read) ↦ absurd (ground (arith, h, good, read))
            ]
      ]

  module _ (ids_of : Dict Text ℕ) (a : ℕ) (ref_def : ReferenceDefinition)
      (s : Dict ℕ (Unit {0})) where
    find_active-Settled :
        Settled (find_active_referencing_artifacts messages ctx ids_of a ref_def s)
    find_active-Settled h =
        let (i, k, d, descriptor, fails) =
          find_active-FromIndex messages ctx ids_of a ref_def s (failed StatusCode.unfinished) h in
        read_index-Settled i k d descriptor fails

    find_active_first :
        (first : ℕ) (more : List ℕ)
        → find_active_referencing_artifacts messages ctx ids_of a ref_def s ≡ ok (first ∷ more)
        → (member first universe ≡ true) × (contains first s ≡ false)
    find_active_first first more h =
        elim (find_active-FromIndex messages ctx ids_of a ref_def s (ok (first ∷ more)) h) [
          | inl none_active ↦ absurd (cc)
          | inr (ids, (i, k, d, descriptor, good), kept) ↦
              keep_active_first (λ id. member id universe ≡ true) a s ids first more
                (laws.listed i k d descriptor ids good) kept
        ]

  module _ (enforce : Enforce) (n : ℕ)
      (settles : (id : ℕ) (type_name : Text) (s : Dict ℕ (Unit {0}))
        → open_ids universe s < n
        → Settled (enforce id type_name s)) where
    cascade_loop-Settled :
        (ids : List ℕ) (s : Dict ℕ (Unit {0})) (result : DeleteEnforcementResult)
        → open_ids universe s < n
        → Settled (cascade_loop messages ctx enforce ids s result)
    unfolding cascade_loop
    cascade_loop-Settled [] s result small h = absurd (cc)
    cascade_loop-Settled (id ∷ ids) s result small h =
        elim (Option-cases (live_artifact messages ctx id)) [
          | inl gone ↦ cascade_loop-Settled ids s result small (ground (arith, h, gone))
          | inr (stored, live) ↦ elim (StatusOr-cases (enforce id stored.type_name s)) [
            | inr (e, fails) ↦ settles id stored.type_name s small (ground (arith, h, live, fails))
            | inl (more, returns) ↦
                let within = schedule_cascades-Within more.side_effects s in
                cascade_loop-Settled ids (schedule_cascades more.side_effects s)
                  (append_result result more)
                  (ground (
                    arith,
                    small,
                    open_ids_mono universe s (schedule_cascades more.side_effects s) within,
                  ))
                  (ground (arith, h, live, returns))
          ]
        ]

    module _ (a : ℕ) (ref_def : ReferenceDefinition) (first : ℕ) (more : List ℕ)
        (s : Dict ℕ (Unit {0})) (result : DeleteEnforcementResult)
        (small : open_ids universe s < suc n) (known : member first universe ≡ true)
        (unscheduled : contains first s ≡ false) where
      policy-Settled :
          (policy : OnDelete)
          → ref_def.on_delete ≡ policy
          → Settled (apply_policy messages ctx enforce a ref_def (first ∷ more) s result)
      unfolding apply_policy
      policy-Settled OnDelete.on_delete_unspecified e h = absurd (ground (arith, h, e))
      policy-Settled OnDelete.restrict e h = absurd (ground (arith, h, e))
      policy-Settled OnDelete.set_null e h = absurd (ground (arith, h, e))
      policy-Settled OnDelete.cascade e h =
          let s' = schedule (first ∷ more) s in
          let fewer =
            open_ids_less universe s s' first (schedule-Within (first ∷ more) s) known unscheduled
              (schedule_first first more s) in
          cascade_loop-Settled (first ∷ more) s'
            (add_effects (map cascade_delete (first ∷ more)) result) (omega (arith, fewer, small))
            (ground (arith, h, e))

    module _ (ids_of : Dict Text ℕ) (a : ℕ) (s : Dict ℕ (Unit {0}))
        (small : open_ids universe s < suc n) where
      enforce_reference-Settled :
          (ref_def : ReferenceDefinition) (result : DeleteEnforcementResult)
          → Settled (enforce_reference messages ctx ids_of enforce a ref_def s result)
      unfolding enforce_reference
      enforce_reference-Settled ref_def result h =
          elim (StatusOr-cases
            (find_active_referencing_artifacts messages ctx ids_of a ref_def s)) [
              | inr (e, bad) ↦ find_active-Settled ids_of a ref_def s (ground (arith, h, bad))
              | inl ([], none_active) ↦ absurd (ground (arith, h, none_active))
              | inl (first ∷ more, found) ↦
                  let (known, unscheduled) =
                    find_active_first ids_of a ref_def s first more found in
                  policy-Settled a ref_def first more s result small known unscheduled
                    ref_def.on_delete refl (ground (arith, h, found))
            ]

      enforce_definition-Settled :
          (type_name : Text) (id : ℕ) (result : DeleteEnforcementResult)
          → Settled (enforce_definition messages ctx ids_of enforce a type_name id s result)
      unfolding enforce_definition
      enforce_definition-Settled type_name id result h =
          elim (StatusOr-cases (read_stored_artifact_if_exists messages ctx id)) [
            | inr (e, bad) ↦ read_if_exists-Settled id (ground (arith, h, bad))
            | inl (none, missing) ↦ absurd (ground (arith, h, missing))
            | inl (some stored, read) ↦ elim (Bool-cases (is_empty stored.payload)) [
              | inl gone ↦ absurd (ground (arith, h, read, gone))
              | inr live ↦
                  elim (Option-cases (messages.parse_reference_definition stored.payload)) [
                    | inl garbled ↦ absurd (ground (arith, h, read, live, garbled))
                    | inr (ref_def, parsed) ↦
                        elim (Bool-cases (text_eq ref_def.target_type_name type_name)) [
                          | inl same ↦
                              enforce_reference-Settled ref_def result
                                (ground (arith, h, read, live, parsed, same))
                          | inr other ↦ absurd (ground (arith, h, read, live, parsed, other))
                        ]
                  ]
            ]
          ]

      enforce_definitions-Settled :
          (type_name : Text) (ids : List ℕ) (result : DeleteEnforcementResult)
          → Settled (enforce_definitions messages ctx ids_of enforce a type_name ids s result)
      unfolding enforce_definitions
      enforce_definitions-Settled type_name [] result h = absurd (cc)
      enforce_definitions-Settled type_name (id ∷ ids) result h =
          elim (StatusOr-cases
            (enforce_definition messages ctx ids_of enforce a type_name id s result)) [
              | inr (e, bad) ↦
                  enforce_definition-Settled type_name id result (ground (arith, h, bad))
              | inl (result', good) ↦
                  enforce_definitions-Settled type_name ids result' (ground (arith, h, good))
            ]

      enforce_type-Settled :
          (type_name : Text) → Settled (enforce_type messages ctx ids_of enforce a type_name s)
      unfolding enforce_type
      enforce_type-Settled type_name h =
          elim (Option-cases (lookup (codes "references_by_target_type") ids_of)) [
            | inl none_there ↦ absurd (ground (arith, h, none_there))
            | inr (i, found) ↦
                let d =
                  make_index_definition (codes "references_by_target_type")
                    (codes "target_type_name" ∷ []) false in
                let k = encode_string_key type_name in
                let start : DeleteEnforcementResult = record {
                  violations = [];
                  side_effects = [];
                } in
                elim (StatusOr-cases (
                  read_index_artifact_ids messages ctx i k d
                    messages.reference_definition_descriptor)) [
                      | inr (e, bad) ↦
                          read_index-Settled i k d messages.reference_definition_descriptor
                            (ground (arith, h, found, bad))
                      | inl (ids, good) ↦
                          enforce_definitions-Settled type_name ids start
                            (ground (arith, h, found, good))
                    ]
          ]

  -- Where the index rows name only artifacts of a list, EnforceDeleteIntegrity returns with more fuel
  -- than the list has artifacts that are not scheduled: the recursion over mutual references ends.
  pub enforce_delete_integrity-Settled :
      (ids_of : Dict Text ℕ) (fuel artifact_id : ℕ) (type_name : Text)
      (scheduled : Dict ℕ (Unit {0}))
      → open_ids universe scheduled < fuel
      → Settled (enforce_delete_integrity messages ctx ids_of fuel artifact_id type_name scheduled)
  unfolding enforce_delete_integrity
  enforce_delete_integrity-Settled ids_of zero id type_name s small = absurd (omega arith)
  enforce_delete_integrity-Settled ids_of (suc fuel) id type_name s small =
      enforce_type-Settled (enforce_delete_integrity messages ctx ids_of fuel) fuel
        (λ j t s' less. enforce_delete_integrity-Settled ids_of fuel j t s' less) ids_of id s small
        type_name
