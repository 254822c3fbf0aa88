-- ===== src/Index/Deltas/Outcome.antt =====
-- index/index_merge.cpp: what the merge makes of the rows of each artifact.
use artifact_system.Base.{
  ℕ, ◌≡◌, refl, sym, ◌∙◌, inl, inr, Bool, true, false, Option, none, some, List, [], ◌∷◌, ◌++◌,
  if◌then◌else◌, ◌==◌, ==_iff, ==_refl, nat_key, Dict, lookup, contains, insert, erase,
  lookup-insert, lookup-erase, Ordered, insert-Ordered, lookup-eq-none_of_Above, arith, Bool-cases,
}
use mathlib.Core.List.{append-nil, append_assoc}
use artifact_system.Storage.Status.{StatusCode, StatusOr, ok, failed, StatusOr-cases}
use artifact_system.Index.Cell.{IndexRow, IndexObject, Comparison, below}
use artifact_system.Index.Rows.{rows_equal, compare_rows_canonical}
use artifact_system.Index.Deltas.{
  RowMap, to_row_map, compute_delta, remove_rows, candidates_of, add_candidates, choose, put_chosen,
  merge_row_maps,
}
use artifact_system.Index.Deltas.Changes.{
  removal, addition, rows_of, to_row_map-Ordered, compute_delta-removes, compute_delta-adds,
}

-- Of two rows of one artifact, the second where it is smaller.
abbrev pub smaller : IndexRow → IndexRow → StatusOr (Option IndexRow)
smaller ours theirs = elim (compare_rows_canonical theirs ours) [
  | failed e ↦ failed e
  | ok below ↦ ok (some theirs)
  | ok _ ↦ ok (some ours)
]

abbrev pub unchanged : Option IndexRow → Option IndexRow → Bool
unchanged none none = true
unchanged none (some head_row) = false
unchanged (some base_row) none = false
unchanged (some base_row) (some head_row) = rows_equal base_row head_row

-- The row of an artifact where both sides changed it: a change wins over a removal, and the smaller
-- row over the other.
abbrev pub both_changed : Option IndexRow → Option IndexRow → StatusOr (Option IndexRow)
both_changed none theirs = ok theirs
both_changed (some ours) none = ok (some ours)
both_changed (some ours) (some theirs) = smaller ours theirs

abbrev pub picked : Option IndexRow → Option IndexRow → Option IndexRow → StatusOr (Option IndexRow)
picked base ours theirs =
    if unchanged base ours
    then (if unchanged base theirs then ok base else ok theirs)
    else (if unchanged base theirs then ok ours else both_changed ours theirs)

-- A merge has the rows that `pick` describes, or it fails as `pick` does for some artifact.
abbrev pub Merged : (ℕ → StatusOr (Option IndexRow)) → StatusOr RowMap → Type 0
Merged pick (ok m) = (id : ℕ) → pick id ≡ ok (lookup id m)
Merged pick (failed c) = (id : ℕ) × (pick id ≡ failed c)

abbrev chosen_or : Option IndexRow → List IndexRow → StatusOr (Option IndexRow)
chosen_or kept [] = ok kept
chosen_or kept (first ∷ rows) = elim (choose first rows) [
  | failed e ↦ failed e
  | ok r ↦ ok (some r)
]

candidates_of-insert :
    (k id : ℕ) (rows : List IndexRow) (adds : Dict ℕ (List IndexRow))
    → candidates_of id (insert k rows adds) ≡ (if k == id then rows else candidates_of id adds)
unfolding candidates_of
candidates_of-insert k id rows adds = ground (arith, lookup-insert k id rows adds)

candidates_of-add_candidates :
    (rows : List IndexRow) (adds : Dict ℕ (List IndexRow)) (id : ℕ)
    → candidates_of id (add_candidates rows adds) ≡ candidates_of id adds ++ rows_of id rows
unfolding add_candidates
candidates_of-add_candidates [] adds id = sym (append-nil (candidates_of id adds))
candidates_of-add_candidates (r ∷ rows) adds id =
    let k = r.artifact_id in
    let cs = candidates_of k adds ++ (r ∷ []) in
    ground (
      arith,
      candidates_of-add_candidates rows (insert k cs adds) id,
      candidates_of-insert k id cs adds,
      ==_iff k id,
      append_assoc (candidates_of id adds) (r ∷ []) (rows_of id rows),
    )

candidates_of-nil : (id : ℕ) → candidates_of id [] ≡ []
unfolding candidates_of lookup
candidates_of-nil id = refl

add_candidates-Ordered :
    (rows : List IndexRow) (adds : Dict ℕ (List IndexRow))
    → Ordered adds
    → Ordered (add_candidates rows adds)
unfolding add_candidates
add_candidates-Ordered [] adds h = h
add_candidates-Ordered (r ∷ rows) adds h =
    let k = r.artifact_id in
    let cs = candidates_of k adds ++ (r ∷ []) in
    add_candidates-Ordered rows (insert k cs adds) (insert-Ordered k cs adds h)

lookup-remove_rows :
    (removes : Dict ℕ (Unit {0})) (m : RowMap) (id : ℕ)
    → lookup id (remove_rows removes m) ≡ (if contains id removes then none else lookup id m)
unfolding remove_rows contains
lookup-remove_rows [] m id = refl
lookup-remove_rows ((k, u) ∷ removes) m id =
    ground (arith, lookup-remove_rows removes (erase k m) id, lookup-erase k id m)

lookup-put_chosen :
    (adds : Dict ℕ (List IndexRow)) (merged m : RowMap) (id : ℕ)
    → Ordered adds
    → put_chosen adds merged ≡ ok m
    → chosen_or (lookup id merged) (candidates_of id adds) ≡ ok (lookup id m)
unfolding put_chosen candidates_of lookup
lookup-put_chosen [] merged m id ordered h = cc
lookup-put_chosen ((k, []) ∷ adds) merged m id (above, ordered) h =
    ground
      (arith, lookup-put_chosen adds merged m id ordered h, lookup-eq-none_of_Above k adds above)
lookup-put_chosen ((k, first ∷ rows) ∷ adds) merged m id (above, ordered) h =
    elim (StatusOr-cases (choose first rows)) [
      | inr (e, fails) ↦ absurd (ground (arith, h, fails))
      | inl (chosen, e) ↦
          let rest =
            lookup-put_chosen adds (insert k chosen merged) m id ordered (ground (arith, h, e)) in
          let put = lookup-insert k id chosen merged in
          elim (Bool-cases (k == id)) [
            | inl same ↦
                ground
                  (arith, same, e, put, rest, ==_iff k id, lookup-eq-none_of_Above k adds above)
            | inr other ↦ ground (arith, other, put, rest)
          ]
    ]

put_chosen-fails :
    (adds : Dict ℕ (List IndexRow)) (merged : RowMap) (c : StatusCode) (kept : ℕ → Option IndexRow)
    → Ordered adds
    → put_chosen adds merged ≡ failed c
    → (id : ℕ) × (chosen_or (kept id) (candidates_of id adds) ≡ failed c)
unfolding put_chosen candidates_of lookup
put_chosen-fails [] merged c kept ordered h = absurd (cc)
put_chosen-fails ((k, []) ∷ adds) merged c kept (above, ordered) h =
    let (id, e) = put_chosen-fails adds merged c kept ordered h in
    (id, ground (arith, e, ==_iff k id, lookup-eq-none_of_Above k adds above))
put_chosen-fails ((k, first ∷ rows) ∷ adds) merged c kept (above, ordered) h =
    elim (StatusOr-cases (choose first rows)) [
      | inr (e, fails) ↦ (k, ground (arith, h, fails, ==_refl k))
      | inl (chosen, e) ↦
          let (id, e') =
            put_chosen-fails adds (insert k chosen merged) c kept ordered (ground (arith, h, e)) in
          (id, ground (arith, e', ==_iff k id, lookup-eq-none_of_Above k adds above))
    ]

chosen_by :
    (kept : Option IndexRow) (ours theirs : IndexRow) (r : StatusOr Comparison)
    → compare_rows_canonical theirs ours ≡ r
    → chosen_or kept (ours ∷ theirs ∷ []) ≡ smaller ours theirs
unfolding choose
chosen_by kept ours theirs (failed e) h = rw (h, chosen_or, choose, smaller) refl
chosen_by kept ours theirs (ok below) h = rw (h, chosen_or, choose, smaller) refl
chosen_by kept ours theirs (ok Comparison.same) h = rw (h, chosen_or, choose, smaller) refl
chosen_by kept ours theirs (ok Comparison.above) h = rw (h, chosen_or, choose, smaller) refl

chosen_of_two :
    (kept : Option IndexRow) (ours theirs : IndexRow)
    → chosen_or kept (ours ∷ theirs ∷ []) ≡ smaller ours theirs
chosen_of_two kept ours theirs =
    chosen_by kept ours theirs (compare_rows_canonical theirs ours) refl

picked_lem :
    (base ours theirs : Option IndexRow)
    → chosen_or
        (if removal base theirs then none else (if removal base ours then none else base))
        (addition base ours ++ addition base theirs)
      ≡ picked base ours theirs
unfolding choose
picked_lem none none none = refl
picked_lem none none (some t) = refl
picked_lem none (some o) none = refl
picked_lem none (some o) (some t) = chosen_of_two none o t
picked_lem (some b) none none = refl
picked_lem (some b) none (some t) = ground arith
picked_lem (some b) (some o) none = ground arith
picked_lem (some b) (some o) (some t) = ground (arith, chosen_of_two none o t)

module _ (base ours theirs : IndexObject) (b o t : RowMap) (base_rows : to_row_map base ≡ ok b)
    (ours_rows : to_row_map ours ≡ ok o) (theirs_rows : to_row_map theirs ≡ ok t) where
  kept : RowMap
  kept = remove_rows (compute_delta b t).removes (remove_rows (compute_delta b o).removes b)

  candidates : Dict ℕ (List IndexRow)
  candidates = add_candidates (compute_delta b t).adds (add_candidates (compute_delta b o).adds [])

  candidates-Ordered : Ordered candidates
  unfolding candidates
  candidates-Ordered =
      add_candidates-Ordered (compute_delta b t).adds (add_candidates (compute_delta b o).adds [])
        (add_candidates-Ordered (compute_delta b o).adds [] tt)

  merge-picked :
      (id : ℕ)
      → chosen_or (lookup id kept) (candidates_of id candidates)
        ≡ picked (lookup id b) (lookup id o) (lookup id t)
  unfolding kept candidates
  merge-picked id =
      let (b_ordered, _) = to_row_map-Ordered base b base_rows in
      let (o_ordered, o_keyed) = to_row_map-Ordered ours o ours_rows in
      let (t_ordered, t_keyed) = to_row_map-Ordered theirs t theirs_rows in
      let left : lookup id kept ≡ (
          if removal (lookup id b) (lookup id t)
          then none
          else (if removal (lookup id b) (lookup id o) then none else lookup id b)) =
        ground (
          arith,
          lookup-remove_rows (compute_delta b t).removes (remove_rows (compute_delta b o).removes b)
              id,
          lookup-remove_rows (compute_delta b o).removes b id,
          compute_delta-removes b o id b_ordered o_ordered o_keyed,
          compute_delta-removes b t id b_ordered t_ordered t_keyed,
        ) in
      let found : candidates_of id candidates
          ≡ addition (lookup id b) (lookup id o) ++ addition (lookup id b) (lookup id t) =
        candidates_of-add_candidates (compute_delta b t).adds
          (add_candidates (compute_delta b o).adds []) id
        ∙ rw
            (
              candidates_of-add_candidates (compute_delta b o).adds [] id,
              candidates_of-nil id,
              compute_delta-adds b o id b_ordered o_ordered o_keyed,
              compute_delta-adds b t id b_ordered t_ordered t_keyed,
            )
            refl in
      rw (left, found) (picked_lem (lookup id b) (lookup id o) (lookup id t))

  -- After ToRowMap of three objects, the merge of the maps fails or returns a map. Where it returns
  -- one, the map has for each artifact the row that `picked` describes: of the side that changed the
  -- row, or the smaller where both did. Where it fails, `picked` fails in this way for some artifact.
  pub merge_row_maps-picked :
      Merged (λ id. picked (lookup id b) (lookup id o) (lookup id t)) (merge_row_maps b o t)
  unfolding merge_row_maps kept candidates
  merge_row_maps-picked = elim (StatusOr-cases (put_chosen candidates kept)) [
    | inl (m, e) ↦
        rw (e, Merged)
          (λ id.
            sym (merge-picked id) ∙ lookup-put_chosen candidates kept m id candidates-Ordered e)
    | inr (c, e) ↦
        let (id, fails) =
          put_chosen-fails candidates kept c (λ i. lookup i kept) candidates-Ordered e in
        rw (e, Merged) (id, sym (merge-picked id) ∙ fails)
  ]
