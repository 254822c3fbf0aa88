-- ===== src/Index/Merge.antt =====
-- index/index_merge.cpp: the three-way merge of index objects.
pub mod Sorted
pub mod Rows
use artifact_system.Base.{
  ℕ, zero, suc, Bool, true, false, ◌&&◌, Option, none, some, List, [], ◌∷◌, length, if◌then◌else◌,
  ltb, ◌==◌, Text, text_eq, codes, nat_key,
}
use artifact_system.Storage.Status.{StatusCode, StatusOr, ok, failed}
use artifact_system.Index.Cell.{
  IndexCell, IndexRow, IndexObject, uint64, below, same, above, compare_index_cell_ascending,
}
use artifact_system.Index.Rows.{OrderBy, OrderDefinition, IndexDefinition, compare_rows_by_order}
use artifact_system.Index.Deltas.{RowMap, to_row_map, merge_row_maps}

-- The loop over the order fields: how many are the artifact's ID, and where the last of them is.
unfoldable pub check_order : ℕ → List OrderDefinition → ℕ × Option ℕ → StatusOr (ℕ × Option ℕ)
check_order i [] (count, index) = ok (count, index)
check_order i (o ∷ order) (count, index) =
    let found = text_eq o.field (codes "artifact_id") in
    let rest = check_order (suc i) order (if found then (suc count, some i) else (count, index)) in
    elim o.direction [
      | OrderBy.order_by_unspecified ↦ failed StatusCode.invalid_argument
      | _ ↦ rest
    ]

unfoldable pub artifact_id_order_index : IndexDefinition → StatusOr ℕ
unfolding check_order
artifact_id_order_index index_definition = elim (check_order 0 index_definition.order (0, none)) [
  | failed e ↦ failed e
  | ok (count, none) ↦ failed StatusCode.invalid_argument
  | ok (count, some index) ↦ if count == 1 then ok index else failed StatusCode.invalid_argument
]

-- `row.order_values[index]`
unfoldable pub cell_at : ℕ → List IndexCell → Option IndexCell
cell_at _ [] = none
cell_at zero (cell ∷ cells) = some cell
cell_at (suc i) (cell ∷ cells) = cell_at i cells

-- The loop that compares each cell with itself.
unfoldable pub check_cells : List IndexCell → StatusOr (Unit {0})
check_cells [] = ok tt
check_cells (cell ∷ cells) =
    let rest = check_cells cells in
    elim (compare_index_cell_ascending cell cell) [ failed e ↦ failed e | ok _ ↦ rest ]

-- The checks of a row that is merged. The index is below the expected count.
unfoldable pub check_row : ℕ → ℕ → ℕ → IndexRow → StatusOr (Unit {0})
unfolding cell_at check_cells
check_row expected_order_count index artifact_id row =
    if length row.order_values == expected_order_count
    then elim (cell_at index row.order_values) [
      | some (uint64 value) ↦
          if value == artifact_id
          then check_cells row.order_values
          else failed StatusCode.invalid_argument
      | _ ↦ failed StatusCode.invalid_argument
    ]
    else failed StatusCode.invalid_argument

-- The loop over the merged rows.
unfoldable pub collect_rows : ℕ → ℕ → RowMap → StatusOr (List IndexRow)
unfolding check_row
collect_rows expected_order_count index [] = ok []
collect_rows expected_order_count index ((artifact_id, row) ∷ merged) =
    let rest = collect_rows expected_order_count index merged in
    elim (check_row expected_order_count index artifact_id row) [
      | failed e ↦ failed e
      | ok _ ↦ elim rest [
        | failed e ↦ failed e
        | ok rows ↦ ok (record row { artifact_id = artifact_id } ∷ rows)
      ]
    ]

module _ (index_definition : IndexDefinition) where
  -- The inner loop of the comparisons before the sort.
  unfoldable pub compare_with_later : IndexRow → List IndexRow → StatusOr (Unit {0})
  compare_with_later row [] = ok tt
  compare_with_later row (later ∷ rows) =
      let rest = compare_with_later row rows in
      elim (compare_rows_by_order index_definition row later) [ failed e ↦ failed e | ok _ ↦ rest ]

  unfoldable pub compare_all : List IndexRow → StatusOr (Unit {0})
  unfolding compare_with_later
  compare_all [] = ok tt
  compare_all (row ∷ rows) =
      let rest = compare_all rows in
      elim (compare_with_later row rows) [ failed e ↦ failed e | ok _ ↦ rest ]

  -- The order of `std::sort`. It is used on rows whose comparison has succeeded before.
  unfoldable pub row_less : IndexRow → IndexRow → Bool
  row_less lhs rhs = elim (compare_rows_by_order index_definition lhs rhs) [
    | failed e ↦ false
    | ok below ↦ true
    | ok same ↦ ltb lhs.artifact_id rhs.artifact_id
    | ok above ↦ false
  ]

  -- `std::sort`
  unfoldable pub insert_row : IndexRow → List IndexRow → List IndexRow
  insert_row row [] = row ∷ []
  insert_row row (first ∷ rows) =
      if row_less first row then first ∷ insert_row row rows else row ∷ first ∷ rows

  unfoldable pub sort_rows : List IndexRow → List IndexRow
  unfolding insert_row
  sort_rows [] = []
  sort_rows (row ∷ rows) = insert_row row (sort_rows rows)

  -- From `merged` on: the rows are checked, compared and sorted.
  unfoldable pub finish_merge : Text → ℕ → RowMap → StatusOr IndexObject
  unfolding collect_rows compare_all sort_rows
  finish_merge serialized_key index merged =
      elim (collect_rows (length index_definition.order) index merged) [
        | failed e ↦ failed e
        | ok rows ↦ elim (compare_all rows) [
          | failed e ↦ failed e
          | ok _ ↦
              if index_definition.unique && ltb 1 (length (sort_rows rows))
              then failed StatusCode.aborted
              else ok (record { serialized_key = serialized_key; rows = sort_rows rows })
        ]
      ]

  -- The result's `unique_conflict` is never set, and left out.
  unfoldable pub merge_index_objects :
      IndexObject → IndexObject → IndexObject → StatusOr IndexObject
  unfolding artifact_id_order_index to_row_map merge_row_maps finish_merge
  merge_index_objects base ours theirs =
      if text_eq base.serialized_key ours.serialized_key
        && text_eq base.serialized_key theirs.serialized_key
      then elim (artifact_id_order_index index_definition) [
        | failed e ↦ failed e
        | ok index ↦ elim (to_row_map base) [
          | failed e ↦ failed e
          | ok base_map ↦ elim (to_row_map ours) [
            | failed e ↦ failed e
            | ok ours_map ↦ elim (to_row_map theirs) [
              | failed e ↦ failed e
              | ok theirs_map ↦ elim (merge_row_maps base_map ours_map theirs_map) [
                | failed e ↦ failed e
                | ok merged ↦ finish_merge base.serialized_key index merged
              ]
            ]
          ]
        ]
      ]
      else failed StatusCode.invalid_argument
