-- ===== src/Index/Rows/Flipped.antt =====
-- The comparisons of index/index_object.cpp and index/index_merge.cpp, with the sides exchanged.
use artifact_system.Base.{
  ℕ, ◌^◌, ◌≡◌, refl, ap, ◌∙◌, inl, inr, true, false, List, [], ◌∷◌, length, ◌==◌, Text, text_lt,
  text_key, arith, Bool-cases,
}
use artifact_system.Storage.Status.{StatusOr, ok, failed}
use artifact_system.Index.Cell.{
  IndexCell, int32, uint32, int64, uint64, boolean, float, double, string, bytes_value, IndexRow,
  Comparison, below, same, above, negated, compare_values, compare_strings, compare_floats,
  compare_index_cell_ascending, float_infinity, double_infinity, signed_rank, bool_rank, float_rank,
  is_nan,
}
use artifact_system.Index.Rows.{
  OrderBy, OrderDefinition, IndexDefinition, directed, compare_by_order, compare_rows_by_order,
}

unfoldable pub flipped : StatusOr Comparison → StatusOr Comparison
unfolding negated
flipped (failed e) = failed e
flipped (ok c) = ok (negated c)

compare_values-flipped : (a b : ℕ) → compare_values b a ≡ negated (compare_values a b)
unfolding compare_values negated
compare_values-flipped a b = ground arith

text_lt_asymm : (s t : Text) → text_lt s t ≡ true → text_lt t s ≡ false
text_lt_asymm [] [] h = refl
text_lt_asymm [] (b ∷ t) h = refl
text_lt_asymm (a ∷ s) [] h = cc
text_lt_asymm (a ∷ s) (b ∷ t) h = ground (arith, text_lt_asymm s t)

compare_strings-flipped : (s t : Text) → compare_strings t s ≡ negated (compare_strings s t)
unfolding compare_strings negated
compare_strings-flipped s t = ground (arith, text_lt_asymm s t, text_lt_asymm t s)

compare_floats-flipped :
    (half infinity a b : ℕ)
    → compare_floats half infinity b a ≡ flipped (compare_floats half infinity a b)
unfolding compare_floats flipped
compare_floats-flipped half infinity a b = elim (Bool-cases (is_nan half infinity a)) [
  | inl nan ↦ elim (Bool-cases (is_nan half infinity b)) [
    | inl nan' ↦ rw (nan, nan') refl
    | inr number ↦ rw (nan, number) refl
  ]
  | inr number ↦ elim (Bool-cases (is_nan half infinity b)) [
    | inl nan ↦ rw (nan, number) refl
    | inr number' ↦
        rw (number, number')
          (ap (λ c. ok c) (compare_values-flipped (float_rank half a) (float_rank half b)))
  ]
]

pub compare_cells-flipped :
    (a b : IndexCell)
    → compare_index_cell_ascending b a ≡ flipped (compare_index_cell_ascending a b)
unfolding compare_index_cell_ascending flipped
compare_cells-flipped (int32 a) (int32 b) =
    ap (λ c. ok c) (compare_values-flipped (signed_rank (2 ^ 31) a) (signed_rank (2 ^ 31) b))
compare_cells-flipped (uint32 a) (uint32 b) = ap (λ c. ok c) (compare_values-flipped a b)
compare_cells-flipped (int64 a) (int64 b) =
    ap (λ c. ok c) (compare_values-flipped (signed_rank (2 ^ 63) a) (signed_rank (2 ^ 63) b))
compare_cells-flipped (uint64 a) (uint64 b) = ap (λ c. ok c) (compare_values-flipped a b)
compare_cells-flipped (boolean a) (boolean b) =
    ap (λ c. ok c) (compare_values-flipped (bool_rank a) (bool_rank b))
compare_cells-flipped (float a) (float b) = compare_floats-flipped (2 ^ 31) float_infinity a b
compare_cells-flipped (double a) (double b) = compare_floats-flipped (2 ^ 63) double_infinity a b
compare_cells-flipped (string a) (string b) = ap (λ c. ok c) (compare_strings-flipped a b)
compare_cells-flipped (bytes_value a) (bytes_value b) = ap (λ c. ok c) (compare_strings-flipped a b)
compare_cells-flipped _ _ = refl

negated-directed : (d : OrderBy) (c : Comparison) → directed d (negated c) ≡ negated (directed d c)
unfolding directed negated
negated-directed OrderBy.order_by_unspecified c = refl
negated-directed OrderBy.ascending c = refl
negated-directed OrderBy.descending c = refl

module _ (o : OrderDefinition) (order : List OrderDefinition) (a b : IndexCell)
    (lhs rhs : List IndexCell)
    (rest : compare_by_order order rhs lhs ≡ flipped (compare_by_order order lhs rhs)) where
  first_cell :
      (r : StatusOr Comparison)
      → compare_index_cell_ascending a b ≡ r
      → compare_by_order (o ∷ order) (b ∷ rhs) (a ∷ lhs)
        ≡ flipped (compare_by_order (o ∷ order) (a ∷ lhs) (b ∷ rhs))
  unfolding compare_by_order flipped negated
  first_cell (failed e) h =
      let turned : compare_index_cell_ascending b a ≡ failed e =
        compare_cells-flipped a b ∙ rw (h, flipped) refl in
      rw (h, turned, flipped, compare_by_order) refl
  first_cell (ok below) h =
      let turned : compare_index_cell_ascending b a ≡ ok above =
        compare_cells-flipped a b ∙ rw (h, flipped) refl in
      rw (h, turned, flipped, compare_by_order)
        (ap (λ c. ok c) (negated-directed o.direction below))
  first_cell (ok same) h =
      let turned : compare_index_cell_ascending b a ≡ ok same =
        compare_cells-flipped a b ∙ rw (h, flipped) refl in
      rw (h, turned, flipped, compare_by_order) rest
  first_cell (ok above) h =
      let turned : compare_index_cell_ascending b a ≡ ok below =
        compare_cells-flipped a b ∙ rw (h, flipped) refl in
      rw (h, turned, flipped, compare_by_order)
        (ap (λ c. ok c) (negated-directed o.direction above))

compare_by_order-flipped :
    (order : List OrderDefinition) (lhs rhs : List IndexCell)
    → compare_by_order order rhs lhs ≡ flipped (compare_by_order order lhs rhs)
unfolding compare_by_order flipped negated
compare_by_order-flipped (o ∷ order) (a ∷ lhs) (b ∷ rhs) =
    first_cell o order a b lhs rhs (compare_by_order-flipped order lhs rhs)
      (compare_index_cell_ascending a b) refl
compare_by_order-flipped [] lhs rhs = refl
compare_by_order-flipped (o ∷ order) [] [] = refl
compare_by_order-flipped (o ∷ order) [] (b ∷ rhs) = refl
compare_by_order-flipped (o ∷ order) (a ∷ lhs) [] = refl

pub compare_rows-flipped :
    (d : IndexDefinition) (lhs rhs : IndexRow)
    → compare_rows_by_order d rhs lhs ≡ flipped (compare_rows_by_order d lhs rhs)
unfolding compare_rows_by_order flipped
compare_rows-flipped d lhs rhs = elim (Bool-cases (length lhs.order_values == length d.order)) [
  | inl fits ↦ elim (Bool-cases (length rhs.order_values == length d.order)) [
    | inl fits' ↦
        rw (fits, fits') (compare_by_order-flipped d.order lhs.order_values rhs.order_values)
    | inr differs ↦ rw (fits, differs) refl
  ]
  | inr differs ↦ elim (Bool-cases (length rhs.order_values == length d.order)) [
    | inl fits ↦ rw (differs, fits) refl
    | inr differs' ↦ rw (differs, differs') refl
  ]
]
