-- ===== src/Index/Tests.antt =====
-- A merge of three index objects: both sides change the row of artifact 2, one side removes the row of
-- artifact 3, and the other adds one of artifact 4. The index has the higher scores first.
use artifact_system.Base.{
  ℕ, ◌≡◌, refl, true, false, ◌&&◌, Option, List, [], ◌∷◌, ltb, length, codes, nat_key, lookup,
  insert, erase, contains,
}
use artifact_system.Storage.Status.{StatusCode, ok, failed}
use artifact_system.Index.Cell.{
  int32, uint64, IndexRow, IndexObject, negated, compare_values, compare_index_cell_ascending,
  cell_eq,
}
use artifact_system.Index.Rows.{
  OrderBy, IndexDefinition, directed, compare_by_order, compare_rows_by_order, cells_eq, rows_equal,
  compare_canonical, compare_rows_canonical,
}
use artifact_system.Index.Deltas.{
  RowMap, note_change, compare_with_head, add_new_rows, compute_delta, to_row_map_onto, to_row_map,
  remove_rows, candidates_of, add_candidates, choose, put_chosen, merge_row_maps,
}
use artifact_system.Index.Deltas.Outcome.{picked, Merged, merge_row_maps-picked}
use artifact_system.Index.Merge.{
  check_order, artifact_id_order_index, cell_at, check_cells, check_row, collect_rows,
  compare_with_later, compare_all, row_less, insert_row, sort_rows, finish_merge,
  merge_index_objects,
}
use artifact_system.Index.Merge.Sorted.{row_with, stamped, Ascending}
use artifact_system.Index.Merge.Rows.{merge_index_objects-Ascending, merge_index_objects-picked}

abbrev by_score : IndexDefinition
by_score = record {
  key_type = codes "by_score";
  key = [];
  order =
      record { field = codes "score"; direction = OrderBy.descending }
      ∷ record { field = codes "artifact_id"; direction = OrderBy.ascending }
      ∷ [];
  unique = false;
}

abbrev score : ℕ → ℕ → IndexRow
score id points = record { artifact_id = id; order_values = int32 points ∷ uint64 id ∷ [] }

abbrev scores : List IndexRow → IndexObject
scores rows = record { serialized_key = codes "k"; rows = rows }

abbrev base : IndexObject
base = scores (score 1 10 ∷ score 2 20 ∷ score 3 30 ∷ [])

abbrev ours : IndexObject
ours = scores (score 1 10 ∷ score 2 25 ∷ [])

abbrev theirs : IndexObject
theirs = scores (score 1 10 ∷ score 2 21 ∷ score 3 30 ∷ score 4 5 ∷ [])

abbrev merged : IndexObject
merged = scores (score 2 21 ∷ score 1 10 ∷ score 4 5 ∷ [])

abbrev base_map : RowMap
base_map = (1, score 1 10) ∷ (2, score 2 20) ∷ (3, score 3 30) ∷ []

abbrev ours_map : RowMap
ours_map = (1, score 1 10) ∷ (2, score 2 25) ∷ []

abbrev theirs_map : RowMap
theirs_map = (1, score 1 10) ∷ (2, score 2 21) ∷ (3, score 3 30) ∷ (4, score 4 5) ∷ []

scores_merged : merge_index_objects by_score base ours theirs ≡ ok merged
unfolding lookup insert erase contains negated compare_values compare_index_cell_ascending cell_eq
    directed compare_by_order compare_rows_by_order cells_eq rows_equal compare_canonical
    compare_rows_canonical note_change compare_with_head add_new_rows compute_delta to_row_map_onto
    to_row_map remove_rows candidates_of add_candidates choose put_chosen merge_row_maps check_order
    artifact_id_order_index cell_at check_cells check_row collect_rows compare_with_later
    compare_all row_less insert_row sort_rows finish_merge merge_index_objects
scores_merged = refl

base_rows : to_row_map base ≡ ok base_map
unfolding to_row_map to_row_map_onto insert contains
base_rows = refl

ours_rows : to_row_map ours ≡ ok ours_map
unfolding to_row_map to_row_map_onto insert contains
ours_rows = refl

theirs_rows : to_row_map theirs ≡ ok theirs_map
unfolding to_row_map to_row_map_onto insert contains
theirs_rows = refl

unique_refused :
    merge_index_objects (record by_score { unique = true }) base ours theirs
    ≡ failed StatusCode.aborted
unfolding lookup insert erase contains negated compare_values compare_index_cell_ascending cell_eq
    directed compare_by_order compare_rows_by_order cells_eq rows_equal compare_canonical
    compare_rows_canonical note_change compare_with_head add_new_rows compute_delta to_row_map_onto
    to_row_map remove_rows candidates_of add_candidates choose put_chosen merge_row_maps check_order
    artifact_id_order_index cell_at check_cells check_row collect_rows compare_with_later
    compare_all row_less insert_row sort_rows finish_merge merge_index_objects
unique_refused = refl

merge_row_maps-picked_example :
    Merged
      (λ id. picked (lookup id base_map) (lookup id ours_map) (lookup id theirs_map))
      (merge_row_maps base_map ours_map theirs_map)
merge_row_maps-picked_example =
    merge_row_maps-picked base ours theirs base_map ours_map theirs_map base_rows ours_rows
      theirs_rows

merge_index_objects-Ascending_example :
    (merged.serialized_key ≡ base.serialized_key)
    × Ascending by_score merged.rows
    × ((by_score.unique && ltb 1 (length merged.rows)) ≡ false)
merge_index_objects-Ascending_example =
    merge_index_objects-Ascending by_score base ours theirs merged scores_merged

merge_index_objects-picked_example :
    (r : Option IndexRow) × (picked (lookup 2 base_map) (lookup 2 ours_map) (lookup 2 theirs_map)
      ≡ ok r)
    × (row_with 2 merged.rows ≡ stamped 2 r)
merge_index_objects-picked_example =
    merge_index_objects-picked by_score base ours theirs merged base_map ours_map theirs_map
      scores_merged base_rows ours_rows theirs_rows 2
