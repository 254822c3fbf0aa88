-- ===== src/Index/Merge/Rows.antt =====
-- index/index_merge.cpp: the object that MergeIndexObjects returns.
use artifact_system.Base.{
  ℕ, ◌≡◌, refl, ◌∙◌, subst, insert, erase, inl, inr, false, ◌&&◌, Option, List, [], ◌∷◌, ltb,
  length, Text, text_eq, nat_key, Dict, lookup, Ordered, insert-Ordered, erase-Ordered, arith,
  Bool-cases,
}
use artifact_system.Storage.Status.{ok, StatusOr-cases}
use artifact_system.Index.Cell.{IndexRow, IndexObject}
use artifact_system.Index.Rows.{IndexDefinition}
use artifact_system.Index.Deltas.{
  RowMap, to_row_map, remove_rows, compute_delta, add_candidates, choose, put_chosen,
  merge_row_maps,
}
use artifact_system.Index.Deltas.Changes.{to_row_map-Ordered}
use artifact_system.Index.Deltas.Outcome.{picked, Merged, merge_row_maps-picked}
use artifact_system.Index.Merge.{
  artifact_id_order_index, collect_rows, compare_all, sort_rows, finish_merge, merge_index_objects,
}
use artifact_system.Index.Merge.Sorted.{
  row_with, stamped, Ascending, collect_rows-row_with, collect_rows-Apart, compare_all-Comparable,
  sort_rows-Ascending, row_with-sort_rows,
}

put_chosen-Ordered :
    (adds : Dict ℕ (List IndexRow)) (merged m : RowMap)
    → Ordered merged
    → put_chosen adds merged ≡ ok m
    → Ordered m
unfolding put_chosen
put_chosen-Ordered [] merged m ordered h =
    let same : merged ≡ m = cc in subst (λ (x : RowMap). Ordered x) same ordered
put_chosen-Ordered ((k, []) ∷ adds) merged m ordered h = put_chosen-Ordered adds merged m ordered h
put_chosen-Ordered ((k, first ∷ rows) ∷ adds) merged m ordered h =
    elim (StatusOr-cases (choose first rows)) [
      | inr (e, bad) ↦ absurd (ground (arith, h, bad))
      | inl (r, good) ↦
          put_chosen-Ordered adds (insert k r merged) m (insert-Ordered k r merged ordered)
            (ground (arith, h, good))
    ]

remove_rows-Ordered :
    (removes : Dict ℕ (Unit {0})) (m : RowMap) → Ordered m → Ordered (remove_rows removes m)
unfolding remove_rows
remove_rows-Ordered [] m ordered = ordered
remove_rows-Ordered ((k, u) ∷ removes) m ordered =
    remove_rows-Ordered removes (erase k m) (erase-Ordered k m ordered)

merge_row_maps-Ordered : (b o t m : RowMap) → Ordered b → merge_row_maps b o t ≡ ok m → Ordered m
unfolding merge_row_maps
merge_row_maps-Ordered b o t m ordered h =
    let ours = compute_delta b o in
    let theirs = compute_delta b t in
    put_chosen-Ordered (add_candidates theirs.adds (add_candidates ours.adds []))
      (remove_rows theirs.removes (remove_rows ours.removes b)) m
      (remove_rows-Ordered theirs.removes (remove_rows ours.removes b)
        (remove_rows-Ordered ours.removes b ordered))
      h

module _ (d : IndexDefinition) where
  -- What the merge returns for a map of merged rows.
  abbrev Finished : Text → RowMap → IndexObject → Type 0
  Finished serialized_key m merged =
      (merged.serialized_key ≡ serialized_key)
      × Ascending d merged.rows
      × ((d.unique && ltb 1 (length merged.rows)) ≡ false)
      × ((id : ℕ) → row_with id merged.rows ≡ stamped id (lookup id m))

  finish_merge-Finished :
      (serialized_key : Text) (index : ℕ) (m : RowMap) (merged : IndexObject)
      → Ordered m
      → finish_merge d serialized_key index m ≡ ok merged
      → Finished serialized_key m merged
  unfolding finish_merge
  finish_merge-Finished serialized_key index m merged ordered h =
      let n = length d.order in
      elim (StatusOr-cases (collect_rows n index m)) [
        | inr (e, bad) ↦ absurd (ground (arith, h, bad))
        | inl (rows, collected) ↦ elim (StatusOr-cases (compare_all d rows)) [
          | inr (e, bad) ↦ absurd (ground (arith, h, collected, bad))
          | inl (_, compared) ↦
              let apart = collect_rows-Apart n index m rows ordered collected in
              let ascending =
                sort_rows-Ascending d rows (compare_all-Comparable d rows compared) apart in
              elim (Bool-cases (d.unique && ltb 1 (length (sort_rows d rows)))) [
                | inl several ↦ absurd (ground (arith, h, collected, compared, several))
                | inr single ↦
                    let result : IndexObject = record {
                      serialized_key = serialized_key;
                      rows = sort_rows d rows;
                    } in
                    let same : result ≡ merged = ground (arith, h, collected, compared, single) in
                    subst (λ x. Finished serialized_key m x) same
                      (
                        refl,
                        ascending,
                        single,
                        (λ id.
                            row_with-sort_rows d rows id apart
                            ∙ collect_rows-row_with n index id m rows collected),
                      )
              ]
        ]
      ]

  -- The stages of a merge that returns an object.
  merge_index_objects-stages :
      (base ours theirs merged : IndexObject)
      → merge_index_objects d base ours theirs ≡ ok merged
      → (b : RowMap) × (o : RowMap) × (t : RowMap) × (m : RowMap) × (index : ℕ) × (to_row_map base
          ≡ ok b)
        × (to_row_map ours ≡ ok o)
        × (to_row_map theirs ≡ ok t)
        × (merge_row_maps b o t ≡ ok m)
        × (finish_merge d base.serialized_key index m ≡ ok merged)
  unfolding merge_index_objects
  merge_index_objects-stages base ours theirs merged h =
      elim (Bool-cases (
        text_eq base.serialized_key ours.serialized_key
        && text_eq base.serialized_key theirs.serialized_key)) [
          | inr other ↦ absurd (ground (arith, h, other))
          | inl keys ↦ elim (StatusOr-cases (artifact_id_order_index d)) [
            | inr (e, bad) ↦ absurd (ground (arith, h, keys, bad))
            | inl (index, ei) ↦ elim (StatusOr-cases (to_row_map base)) [
              | inr (e, bad) ↦ absurd (ground (arith, h, keys, ei, bad))
              | inl (b, eb) ↦ elim (StatusOr-cases (to_row_map ours)) [
                | inr (e, bad) ↦ absurd (ground (arith, h, keys, ei, eb, bad))
                | inl (o, eo) ↦ elim (StatusOr-cases (to_row_map theirs)) [
                  | inr (e, bad) ↦ absurd (ground (arith, h, keys, ei, eb, eo, bad))
                  | inl (t, et) ↦ elim (StatusOr-cases (merge_row_maps b o t)) [
                    | inr (e, bad) ↦ absurd (ground (arith, h, keys, ei, eb, eo, et, bad))
                    | inl (m, em) ↦ (
                      b,
                      o,
                      t,
                      m,
                      index,
                      eb,
                      eo,
                      et,
                      em,
                      ground (arith, h, keys, ei, eb, eo, et, em),
                    )
                  ]
                ]
              ]
            ]
          ]
        ]

  -- Where a merge of index objects returns an object, this has the base's key, its rows are ascending
  -- in the order of the index, with ties by the artifact, and under a unique index there is at most one row.
  pub merge_index_objects-Ascending :
      (base ours theirs merged : IndexObject)
      → merge_index_objects d base ours theirs ≡ ok merged
      → (merged.serialized_key ≡ base.serialized_key)
        × Ascending d merged.rows
        × ((d.unique && ltb 1 (length merged.rows)) ≡ false)
  merge_index_objects-Ascending base ours theirs merged h =
      let (b, o, t, m, index, eb, eo, et, em, ef) =
        merge_index_objects-stages base ours theirs merged h in
      let ordered = merge_row_maps-Ordered b o t m (to_row_map-Ordered base b eb).0 em in
      let (key, ascending, single, _) =
        finish_merge-Finished base.serialized_key index m merged ordered ef in
      (key, ascending, single)

  -- Where a merge of index objects returns an object, and the three objects have maps of their rows,
  -- `picked` describes for each artifact a row or none, and this is what the object has.
  pub merge_index_objects-picked :
      (base ours theirs merged : IndexObject) (b o t : RowMap)
      → merge_index_objects d base ours theirs ≡ ok merged
      → to_row_map base ≡ ok b
      → to_row_map ours ≡ ok o
      → to_row_map theirs ≡ ok t
      → (id : ℕ)
      → (r : Option IndexRow) × (picked (lookup id b) (lookup id o) (lookup id t) ≡ ok r)
        × (row_with id merged.rows ≡ stamped id r)
  merge_index_objects-picked base ours theirs merged b o t h eb eo et id =
      let (b', o', t', m, index, eb', eo', et', em', ef) =
        merge_index_objects-stages base ours theirs merged h in
      let same_b : b' ≡ b = cc in
      let same_o : o' ≡ o = cc in
      let same_t : t' ≡ t = cc in
      let em : merge_row_maps b o t ≡ ok m = cc in
      let ordered = merge_row_maps-Ordered b o t m (to_row_map-Ordered base b eb).0 em in
      let (_, _, _, rows) = finish_merge-Finished base.serialized_key index m merged ordered ef in
      let chosen =
        subst (λ x. Merged (λ i. picked (lookup i b) (lookup i o) (lookup i t)) x) em
          (merge_row_maps-picked base ours theirs b o t eb eo et) in
      (lookup id m, chosen id, rows id)
