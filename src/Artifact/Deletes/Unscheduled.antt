-- ===== src/Artifact/Deletes/Unscheduled.antt =====
-- artifact/referential_integrity.cpp: the artifacts that the side effects of a removal touch.
use artifact_system.Base.{
  ℕ, zero, suc, ◌≡◌, refl, sym, subst, inl, inr, false, ◌||◌, none, some, List, [], ◌∷◌, map, ◌==◌,
  Text, codes, text_eq, text_key, nat_key, Dict, lookup, contains, All, All-map, All-append, arith,
  Bool-cases, Option-cases,
}
use artifact_system.Storage.Status.{ok, StatusOr-cases}
use artifact_system.Storage.State.{is_empty}
use artifact_system.Artifact.Stored.{
  OnDelete, ReferenceDefinition, Messages, RefIntegrityContext, read_stored_artifact_if_exists,
}
use artifact_system.Artifact.Referencing.{
  make_index_definition, encode_string_key, keep_active, live_artifact, read_index_artifact_ids,
  find_active_referencing_artifacts,
}
use artifact_system.Artifact.Referencing.Active.{find_active-FromIndex}
use artifact_system.Artifact.Deletes.{
  DeleteSideEffect, cascade_delete, set_null_update, DeleteEnforcementResult, schedule,
  schedule_cascades, append_result, add_effects, restricted, Enforce, cascade_loop, apply_policy,
  enforce_reference, enforce_definition, enforce_definitions, enforce_type,
  enforce_delete_integrity,
}
use artifact_system.Artifact.Deletes.Terminates.{Within, schedule-Within, schedule_cascades-Within}

abbrev pub affected : DeleteSideEffect → ℕ
affected (cascade_delete id) = id
affected (set_null_update id _ _) = id

abbrev pub Unscheduled : Dict ℕ (Unit {0}) → ℕ → Type 0
Unscheduled s id = contains id s ≡ false

-- No effect touches an artifact that is scheduled.
abbrev pub Spares : Dict ℕ (Unit {0}) → List DeleteSideEffect → Type 0
Spares s effects = All (λ e. contains (affected e) s ≡ false) effects

Spares-Within :
    (s s' : Dict ℕ (Unit {0})) (effects : List DeleteSideEffect)
    → Within s s'
    → Spares s' effects
    → Spares s effects
Spares-Within s s' effects within spares =
    All-map (λ e out. ground (arith, out, within (affected e))) effects spares

keep_active-Unscheduled :
    (a : ℕ) (s : Dict ℕ (Unit {0})) (ids : List ℕ) → All (Unscheduled s) (keep_active a s ids)
unfolding keep_active
keep_active-Unscheduled a s [] = tt
keep_active-Unscheduled a s (id ∷ ids) = elim (Bool-cases (contains id s || (id == a))) [
  | inl dropped ↦ rw dropped (keep_active-Unscheduled a s ids)
  | inr kept ↦ rw kept (ground (arith, kept), keep_active-Unscheduled a s ids)
]

map-Spares :
    (f : ℕ → DeleteSideEffect) (s : Dict ℕ (Unit {0})) (ids : List ℕ)
    → ((id : ℕ) → affected (f id) ≡ id)
    → All (Unscheduled s) ids
    → Spares s (map f ids)
map-Spares f s [] touches all = tt
map-Spares f s (id ∷ ids) touches (here, all) =
    (rw (touches id) here, map-Spares f s ids touches all)

module _ {Files D : Type 0} (messages : Messages Files D) (ctx : RefIntegrityContext) where
  module _ (ids_of : Dict Text ℕ) (a : ℕ) (ref_def : ReferenceDefinition)
      (s : Dict ℕ (Unit {0})) where
    find_active-Unscheduled :
        (active : List ℕ)
        → find_active_referencing_artifacts messages ctx ids_of a ref_def s ≡ ok active
        → All (Unscheduled s) active
    find_active-Unscheduled active h =
        elim (find_active-FromIndex messages ctx ids_of a ref_def s (ok active) h) [
          | inl none_active ↦ subst (λ xs. All (Unscheduled s) xs) (sym none_active) tt
          | inr (ids, read, kept) ↦
              subst (λ xs. All (Unscheduled s) xs) kept (keep_active-Unscheduled a s ids)
        ]

  module _ (enforce : Enforce)
      (spares : (id : ℕ) (t : Text) (s : Dict ℕ (Unit {0})) (r : DeleteEnforcementResult)
        → enforce id t s ≡ ok r
        → Spares s r.side_effects) where
    module _ (s : Dict ℕ (Unit {0})) (r : DeleteEnforcementResult) where
      cascade_loop-Spares :
          (ids : List ℕ) (now : Dict ℕ (Unit {0})) (result : DeleteEnforcementResult)
          → Within s now
          → Spares s result.side_effects
          → cascade_loop messages ctx enforce ids now result ≡ ok r
          → Spares s r.side_effects
      unfolding cascade_loop append_result
      cascade_loop-Spares [] now result within before h =
          let same : result ≡ r = cc in subst (λ x. Spares s x.side_effects) same before
      cascade_loop-Spares (id ∷ ids) now result within before h =
          elim (Option-cases (live_artifact messages ctx id)) [
            | inl gone ↦ cascade_loop-Spares ids now result within before (ground (arith, h, gone))
            | inr (stored, live) ↦ elim (StatusOr-cases (enforce id stored.type_name now)) [
              | inr (e, fails) ↦ absurd (ground (arith, h, live, fails))
              | inl (more, returns) ↦
                  cascade_loop-Spares ids (schedule_cascades more.side_effects now)
                    (append_result result more)
                    (λ j inside. schedule_cascades-Within more.side_effects now j (within j inside))
                    (All-append (λ e. contains (affected e) s ≡ false) result.side_effects
                      more.side_effects before
                      (Spares-Within s now more.side_effects within
                        (spares id stored.type_name now more returns)))
                    (ground (arith, h, live, returns))
            ]
          ]

      apply_policy-Spares :
          (a : ℕ) (ref_def : ReferenceDefinition) (active : List ℕ)
          (result : DeleteEnforcementResult)
          → All (Unscheduled s) active
          → Spares s result.side_effects
          → (policy : OnDelete) → ref_def.on_delete ≡ policy
          → apply_policy messages ctx enforce a ref_def active s result ≡ ok r
          → Spares s r.side_effects
      unfolding apply_policy add_effects restricted
      apply_policy-Spares a ref_def active result out before OnDelete.cascade e h =
          cascade_loop-Spares active (schedule active s)
            (add_effects (map cascade_delete active) result) (schedule-Within active s)
            (All-append (λ x. contains (affected x) s ≡ false) result.side_effects
              (map cascade_delete active) before
              (map-Spares cascade_delete s active (λ id. refl) out))
            (ground (arith, h, e))
      apply_policy-Spares a ref_def active result out before OnDelete.set_null e h =
          let nulled = map (λ id. set_null_update id ref_def.field_name a) active in
          let same : add_effects nulled result ≡ r = ground (arith, h, e) in
          subst (λ x. Spares s x.side_effects) same
            (All-append (λ x. contains (affected x) s ≡ false) result.side_effects nulled before
              (map-Spares (λ id. set_null_update id ref_def.field_name a) s active (λ id. refl)
                out))
      apply_policy-Spares a ref_def active result out before OnDelete.restrict e h =
          let same : restricted ref_def result ≡ r = ground (arith, h, e) in
          subst (λ x. Spares s x.side_effects) same before
      apply_policy-Spares a ref_def active result out before OnDelete.on_delete_unspecified e h =
          let same : restricted ref_def result ≡ r = ground (arith, h, e) in
          subst (λ x. Spares s x.side_effects) same before

    module _ (ids_of : Dict Text ℕ) (a : ℕ) (t : Text) (s : Dict ℕ (Unit {0})) where
      enforce_reference-Spares :
          (ref_def : ReferenceDefinition) (result r : DeleteEnforcementResult)
          → Spares s result.side_effects
          → enforce_reference messages ctx ids_of enforce a ref_def s result ≡ ok r
          → Spares s r.side_effects
      unfolding enforce_reference
      enforce_reference-Spares ref_def result r before h =
          elim (StatusOr-cases
            (find_active_referencing_artifacts messages ctx ids_of a ref_def s)) [
              | inr (e, bad) ↦ absurd (ground (arith, h, bad))
              | inl ([], none_active) ↦
                  let same : result ≡ r = ground (arith, h, none_active) in
                  subst (λ x. Spares s x.side_effects) same before
              | inl (first ∷ more, found) ↦
                  apply_policy-Spares s r a ref_def (first ∷ more) result
                    (find_active-Unscheduled ids_of a ref_def s (first ∷ more) found) before
                    ref_def.on_delete refl (ground (arith, h, found))
            ]

      enforce_definition-Spares :
          (id : ℕ) (result r : DeleteEnforcementResult)
          → Spares s result.side_effects
          → enforce_definition messages ctx ids_of enforce a t id s result ≡ ok r
          → Spares s r.side_effects
      unfolding enforce_definition
      enforce_definition-Spares id result r before h =
          let unmoved = λ (same : result ≡ r). subst (λ x. Spares s x.side_effects) same before in
          elim (StatusOr-cases (read_stored_artifact_if_exists messages ctx id)) [
            | inr (e, bad) ↦ absurd (ground (arith, h, bad))
            | inl (none, missing) ↦ unmoved (ground (arith, h, missing))
            | inl (some stored, read) ↦ elim (Bool-cases (is_empty stored.payload)) [
              | inl gone ↦ unmoved (ground (arith, h, read, gone))
              | inr live ↦
                  elim (Option-cases (messages.parse_reference_definition stored.payload)) [
                    | inl garbled ↦ absurd (ground (arith, h, read, live, garbled))
                    | inr (ref_def, parsed) ↦
                        elim (Bool-cases (text_eq ref_def.target_type_name t)) [
                          | inl same ↦
                              enforce_reference-Spares ref_def result r before
                                (ground (arith, h, read, live, parsed, same))
                          | inr other ↦ unmoved (ground (arith, h, read, live, parsed, other))
                        ]
                  ]
            ]
          ]

      enforce_definitions-Spares :
          (ids : List ℕ) (result r : DeleteEnforcementResult)
          → Spares s result.side_effects
          → enforce_definitions messages ctx ids_of enforce a t ids s result ≡ ok r
          → Spares s r.side_effects
      unfolding enforce_definitions
      enforce_definitions-Spares [] result r before h =
          let same : result ≡ r = cc in subst (λ x. Spares s x.side_effects) same before
      enforce_definitions-Spares (id ∷ ids) result r before h =
          elim (StatusOr-cases (enforce_definition messages ctx ids_of enforce a t id s result)) [
            | inr (e, bad) ↦ absurd (ground (arith, h, bad))
            | inl (result', good) ↦
                enforce_definitions-Spares ids result' r
                  (enforce_definition-Spares id result result' before good)
                  (ground (arith, h, good))
          ]

      enforce_type-Spares :
          (r : DeleteEnforcementResult)
          → enforce_type messages ctx ids_of enforce a t s ≡ ok r
          → Spares s r.side_effects
      unfolding enforce_type
      enforce_type-Spares r h =
          let start : DeleteEnforcementResult = record { violations = []; side_effects = [] } in
          elim (Option-cases (lookup (codes "references_by_target_type") ids_of)) [
            | inl unknown ↦
                let same : start ≡ r = ground (arith, h, unknown) in
                subst (λ x. Spares s x.side_effects) same tt
            | inr (i, found) ↦
                let d =
                  make_index_definition (codes "references_by_target_type")
                    (codes "target_type_name" ∷ []) false in
                elim (StatusOr-cases (
                  read_index_artifact_ids messages ctx i (encode_string_key t) d
                    messages.reference_definition_descriptor)) [
                      | inr (e, bad) ↦ absurd (ground (arith, h, found, bad))
                      | inl (ids, good) ↦
                          enforce_definitions-Spares ids start r tt (ground (arith, h, found, good))
                    ]
          ]

  -- Where EnforceDeleteIntegrity returns, no side effect, of the recursion either, touches an artifact
  -- of the set `scheduled` that is passed to it; DeleteArtifact passes the artifact that it removes.
  pub enforce_delete_integrity-Spares :
      (ids_of : Dict Text ℕ) (fuel artifact_id : ℕ) (type_name : Text)
      (scheduled : Dict ℕ (Unit {0})) (r : DeleteEnforcementResult)
      → enforce_delete_integrity messages ctx ids_of fuel artifact_id type_name scheduled ≡ ok r
      → Spares scheduled r.side_effects
  unfolding enforce_delete_integrity
  enforce_delete_integrity-Spares ids_of zero id t s r h = absurd (cc)
  enforce_delete_integrity-Spares ids_of (suc fuel) id t s r h =
      enforce_type-Spares (enforce_delete_integrity messages ctx ids_of fuel)
        (λ j u s' r' returns. enforce_delete_integrity-Spares ids_of fuel j u s' r' returns) ids_of
        id t s r h
