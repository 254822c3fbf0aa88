-- ===== src/Index/Rows.antt =====
-- index/index_merge.cpp: the rows of an index, compared by their cells. Of the definition of an index
-- (proto/artifact_options.proto) the order and `unique` are used here.
pub mod Flipped
use artifact_system.Base.{Bool, true, false, ◌&&◌, List, [], ◌∷◌, length, if◌then◌else◌, ◌==◌, Text}
use artifact_system.Storage.Status.{StatusCode, StatusOr, ok, failed}
use artifact_system.Index.Cell.{
  IndexCell, IndexRow, Comparison, same, negated, compare_index_cell_ascending, cell_eq,
}

-- `enum OrderBy`
pub data OrderBy : Type 0 where
  order_by_unspecified ascending descending : OrderBy

pub record OrderDefinition : Type 0 where
  pub field : Text
  pub direction : OrderBy

pub record IndexDefinition : Type 0 where
  pub key_type : Text
  pub key : List Text
  pub order : List OrderDefinition
  pub unique : Bool

unfoldable pub directed : OrderBy → Comparison → Comparison
unfolding negated
directed descending c = negated c
directed ascending c = c
directed order_by_unspecified c = c

-- The loop of CompareRowsByOrder; `length` has been compared before it.
unfoldable pub compare_by_order :
    List OrderDefinition → List IndexCell → List IndexCell → StatusOr Comparison
unfolding directed
compare_by_order (o ∷ order) (a ∷ lhs) (b ∷ rhs) =
    let rest = compare_by_order order lhs rhs in
    elim (compare_index_cell_ascending a b) [
      | failed e ↦ failed e
      | ok same ↦ rest
      | ok c ↦ ok (directed o.direction c)
    ]
compare_by_order _ _ _ = ok same

unfoldable pub compare_rows_by_order : IndexDefinition → IndexRow → IndexRow → StatusOr Comparison
compare_rows_by_order index_definition lhs rhs =
    let expected = length index_definition.order in
    if (length lhs.order_values == expected) && (length rhs.order_values == expected)
    then compare_by_order index_definition.order lhs.order_values rhs.order_values
    else failed StatusCode.invalid_argument

-- `==` of two vectors of cells
unfoldable pub cells_eq : List IndexCell → List IndexCell → Bool
cells_eq [] [] = true
cells_eq (a ∷ lhs) (b ∷ rhs) = cell_eq a b && cells_eq lhs rhs
cells_eq _ _ = false

unfoldable pub rows_equal : IndexRow → IndexRow → Bool
rows_equal lhs rhs =
    (lhs.artifact_id == rhs.artifact_id) && cells_eq lhs.order_values rhs.order_values

-- The loop of CompareRowsCanonical
unfoldable pub compare_canonical : List IndexCell → List IndexCell → StatusOr Comparison
compare_canonical (a ∷ lhs) (b ∷ rhs) =
    let rest = compare_canonical lhs rhs in
    elim (compare_index_cell_ascending a b) [ failed e ↦ failed e | ok same ↦ rest | ok c ↦ ok c ]
compare_canonical _ _ = ok same

unfoldable pub compare_rows_canonical : IndexRow → IndexRow → StatusOr Comparison
compare_rows_canonical lhs rhs =
    if length lhs.order_values == length rhs.order_values
    then compare_canonical lhs.order_values rhs.order_values
    else failed StatusCode.invalid_argument
