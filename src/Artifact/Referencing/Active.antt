-- ===== src/Artifact/Referencing/Active.antt =====
-- artifact/referential_integrity.cpp: where the result of FindActiveReferencingArtifacts comes from.
use artifact_system.Base.{
  ℕ, ◌≡◌, refl, ◌⊎◌, subst, inl, inr, false, List, [], ◌∷◌, Text, text_key, Dict, lookup, arith,
  Option-cases,
}
use artifact_system.Storage.Status.{StatusCode, StatusOr, ok, failed, StatusOr-cases}
use artifact_system.Index.Rows.{IndexDefinition}
use artifact_system.Artifact.Stored.{ReferenceDefinition, Messages, RefIntegrityContext}
use artifact_system.Artifact.Referencing.{
  make_index_definition, encode_uint64_key, keep_active, or_empty, read_index_artifact_ids,
  resolve_referencing_type, find_active_referencing_artifacts,
}

module _ {Files D : Type 0} (messages : Messages Files D) (ctx : RefIntegrityContext)
    (ids_of : Dict Text ℕ) (a : ℕ) (ref_def : ReferenceDefinition) (s : Dict ℕ (Unit {0})) where
  -- A read of an index, and its result.
  abbrev pub IndexRead : StatusOr (List ℕ) → Type 0
  IndexRead r =
      (i : ℕ) × (k : List ℕ) × (d : IndexDefinition) × (descriptor : D) × (read_index_artifact_ids
          messages ctx i k d descriptor
        ≡ r)

  -- The result is empty, or it comes from a read of an index, with the same code where that fails.
  abbrev pub FromIndex : StatusOr (List ℕ) → Type 0
  FromIndex (ok active) =
      (active ≡ []) ⊎ ((ids : List ℕ) × IndexRead (ok ids) × (keep_active a s ids ≡ active))
  FromIndex (failed e) = IndexRead (failed e)

  empty : (r : StatusOr (List ℕ)) → ok [] ≡ r → FromIndex r
  empty r e = subst (λ x. FromIndex x) e (inl refl)

  read_failed :
      (e : StatusCode) (r : StatusOr (List ℕ)) → IndexRead (failed e) → or_empty e ≡ r → FromIndex r
  unfolding or_empty
  read_failed StatusCode.not_found r read e = empty r e
  read_failed StatusCode.invalid_argument r read e = empty r e
  read_failed StatusCode.aborted r read e = subst (λ x. FromIndex x) e read
  read_failed StatusCode.already_exists r read e = subst (λ x. FromIndex x) e read
  read_failed StatusCode.failed_precondition r read e = subst (λ x. FromIndex x) e read
  read_failed StatusCode.internal r read e = subst (λ x. FromIndex x) e read
  read_failed StatusCode.unfinished r read e = subst (λ x. FromIndex x) e read

  pub find_active-FromIndex :
      (r : StatusOr (List ℕ))
      → find_active_referencing_artifacts messages ctx ids_of a ref_def s ≡ r
      → FromIndex r
  unfolding find_active_referencing_artifacts
  find_active-FromIndex r h = elim (Option-cases (lookup ref_def.covering_index_key_type ids_of)) [
    | inl unknown ↦ empty r (ground (arith, h, unknown))
    | inr (i, found) ↦
        elim (Option-cases
          (resolve_referencing_type messages ctx ids_of ref_def.referencing_type_name)) [
            | inl unresolved ↦ empty r (ground (arith, h, found, unresolved))
            | inr (descriptor, resolved) ↦
                let d =
                  make_index_definition ref_def.covering_index_key_type (ref_def.field_name ∷ [])
                    false in
                let k = encode_uint64_key a in
                elim (StatusOr-cases (read_index_artifact_ids messages ctx i k d descriptor)) [
                  | inl (ids, good) ↦
                      subst (λ x. FromIndex x) {x = ok (keep_active a s ids)}
                        (ground (arith, h, found, resolved, good))
                        (inr (ids, (i, k, d, descriptor, good), refl))
                  | inr (e, bad) ↦
                      read_failed e r (i, k, d, descriptor, bad)
                        (ground (arith, h, found, resolved, bad))
                ]
          ]
  ]
