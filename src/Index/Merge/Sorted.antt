-- ===== src/Index/Merge/Sorted.antt =====
-- index/index_merge.cpp: the checks of the merged rows, and the rows after the sort.
use artifact_system.Base.{
  ℕ, ◌≡◌, ◌≢◌, refl, ◌∙◌, inl, inr, true, false, Option, none, some, List, [], ◌∷◌, if◌then◌else◌,
  ◌==◌, ==_iff, nat_key, lookup, All, subst, Above, Ordered, if_both, arith, Bool-cases,
}
use artifact_system.Storage.Status.{ok, StatusOr-cases}
use artifact_system.Index.Cell.{IndexRow, Comparison, negated}
use artifact_system.Index.Rows.{IndexDefinition, compare_rows_by_order}
use artifact_system.Index.Rows.Flipped.{flipped, compare_rows-flipped}
use artifact_system.Index.Deltas.{RowMap}
use artifact_system.Index.Merge.{
  check_row, collect_rows, compare_with_later, compare_all, row_less, insert_row, sort_rows,
}

abbrev pub AllPairs : (IndexRow → IndexRow → Type 0) → List IndexRow → Type 0
AllPairs P [] = Unit {0}
AllPairs P (r ∷ rows) = All (P r) rows × AllPairs P rows

abbrev pub Apart : IndexRow → IndexRow → Type 0
Apart r s = r.artifact_id ≢ s.artifact_id

-- The row under an artifact's ID.
abbrev pub row_with : ℕ → List IndexRow → Option IndexRow
row_with id [] = none
row_with id (r ∷ rows) = if r.artifact_id == id then some r else row_with id rows

-- `merged_object.rows.back().artifact_id = artifact_id;`
abbrev pub stamped : ℕ → Option IndexRow → Option IndexRow
stamped id none = none
stamped id (some r) = some (record r { artifact_id = id })

collect_rows-nil : (n i : ℕ) (rows : List IndexRow) → collect_rows n i [] ≡ ok rows → [] ≡ rows
unfolding collect_rows
collect_rows-nil n i rows h = cc

collect_rows-cons :
    (n i id : ℕ) (r : IndexRow) (m : RowMap) (rows : List IndexRow)
    → collect_rows n i ((id, r) ∷ m) ≡ ok rows
    → (rest : List IndexRow) × (collect_rows n i m ≡ ok rest)
      × (rows ≡ record r { artifact_id = id } ∷ rest)
unfolding collect_rows
collect_rows-cons n i id r m rows h = elim (StatusOr-cases (check_row n i id r)) [
  | inr (e, bad) ↦ absurd (ground (arith, h, bad))
  | inl (u, good) ↦ elim (StatusOr-cases (collect_rows n i m)) [
    | inr (e, bad) ↦ absurd (ground (arith, h, good, bad))
    | inl (rest, eq) ↦ (rest, eq, ground (arith, h, good, eq))
  ]
]

pub collect_rows-row_with :
    (n i id : ℕ) (m : RowMap) (rows : List IndexRow)
    → collect_rows n i m ≡ ok rows
    → row_with id rows ≡ stamped id (lookup id m)
unfolding lookup collect_rows
collect_rows-row_with n i id [] rows h =
    subst (λ rs. row_with id rs ≡ none) (collect_rows-nil n i rows h) refl
collect_rows-row_with n i id ((k, r) ∷ m) rows h =
    let (rest, eq, shape) = collect_rows-cons n i k r m rows h in
    let later = collect_rows-row_with n i id m rest eq in
    rw shape (ground (arith, later, ==_iff k id))

collect_rows-Above :
    (n i k : ℕ) (m : RowMap) (rows : List IndexRow)
    → Above k m
    → collect_rows n i m ≡ ok rows
    → (x : IndexRow) → x.artifact_id ≡ k
    → All (Apart x) rows
collect_rows-Above n i k [] rows beyond h x e =
    subst (λ rs. All (Apart x) rs) (collect_rows-nil n i rows h) tt
collect_rows-Above n i k ((j, r) ∷ m) rows (first, beyond) h x e =
    let (rest, eq, shape) = collect_rows-cons n i j r m rows h in
    let later = collect_rows-Above n i k m rest beyond eq x e in
    rw shape ((λ same. absurd (ground (arith, first, e, same))), later)

pub collect_rows-Apart :
    (n i : ℕ) (m : RowMap) (rows : List IndexRow)
    → Ordered m
    → collect_rows n i m ≡ ok rows
    → AllPairs Apart rows
collect_rows-Apart n i [] rows ordered h =
    subst (λ rs. AllPairs Apart rs) (collect_rows-nil n i rows h) tt
collect_rows-Apart n i ((k, r) ∷ m) rows (beyond, ordered) h =
    let (rest, eq, shape) = collect_rows-cons n i k r m rows h in
    rw shape (
      collect_rows-Above n i k m rest beyond eq (record r { artifact_id = k }) refl,
      collect_rows-Apart n i m rest ordered eq,
    )

module _ (d : IndexDefinition) where
  abbrev pub Comparable : IndexRow → IndexRow → Type 0
  Comparable r s = (c : Comparison) × (compare_rows_by_order d r s ≡ ok c)

  compare_with_later-Comparable :
      (r : IndexRow) (rows : List IndexRow)
      → compare_with_later d r rows ≡ ok tt
      → All (Comparable r) rows
  unfolding compare_with_later
  compare_with_later-Comparable r [] h = tt
  compare_with_later-Comparable r (s ∷ rows) h =
      elim (StatusOr-cases (compare_rows_by_order d r s)) [
        | inr (e, bad) ↦ absurd (ground (arith, h, bad))
        | inl (c, good) ↦
            ((c, good), compare_with_later-Comparable r rows (ground (arith, h, good)))
      ]

  pub compare_all-Comparable :
      (rows : List IndexRow) → compare_all d rows ≡ ok tt → AllPairs Comparable rows
  unfolding compare_all
  compare_all-Comparable [] h = tt
  compare_all-Comparable (r ∷ rows) h = elim (StatusOr-cases (compare_with_later d r rows)) [
    | inr (e, bad) ↦ absurd (ground (arith, h, bad))
    | inl (u, good) ↦ (
      compare_with_later-Comparable r rows good,
      compare_all-Comparable rows (ground (arith, h, good)),
    )
  ]

  -- Each row is below the next one.
  abbrev pub Below : IndexRow → List IndexRow → Type 0
  Below r [] = Unit {0}
  Below r (s ∷ rows) = row_less d r s ≡ true

  abbrev pub Ascending : List IndexRow → Type 0
  Ascending [] = Unit {0}
  Ascending (r ∷ rows) = Below r rows × Ascending rows

  row_less-total :
      (r s : IndexRow) → Comparable r s → Apart r s → row_less d s r ≡ false → row_less d r s ≡ true
  unfolding row_less flipped negated
  row_less-total r s (Comparison.below, good) apart h = rw (good, row_less) refl
  row_less-total r s (Comparison.same, good) apart h =
      let turned : compare_rows_by_order d s r ≡ ok Comparison.same =
        compare_rows-flipped d r s ∙ rw (good, flipped) refl in
      rw (good, row_less) (ground (arith, h, turned, apart))
  row_less-total r s (Comparison.above, good) apart h =
      let turned : compare_rows_by_order d s r ≡ ok Comparison.below =
        compare_rows-flipped d r s ∙ rw (good, flipped) refl in
      absurd (ground (arith, h, turned))

  insert_row-Below :
      (x r : IndexRow) (rows : List IndexRow)
      → row_less d r x ≡ true
      → Below r rows
      → Below r (insert_row d x rows)
  unfolding insert_row
  insert_row-Below x r [] h first = h
  insert_row-Below x r (s ∷ rows) h first =
      if_both (Below r) (row_less d s x) (s ∷ insert_row d x rows) (x ∷ s ∷ rows) first h

  insert_row-Ascending :
      (x : IndexRow) (rows : List IndexRow)
      → All (Comparable x) rows
      → All (Apart x) rows
      → Ascending rows
      → Ascending (insert_row d x rows)
  unfolding insert_row
  insert_row-Ascending x [] comparable apart ascending = (tt, tt)
  insert_row-Ascending x (s ∷ rows) (c, comparable) (a, apart) (first, ascending) =
      elim (Bool-cases (row_less d s x)) [
        | inl less ↦ rw less (
          insert_row-Below x s rows less first,
          insert_row-Ascending x rows comparable apart ascending,
        )
        | inr other ↦ rw other (row_less-total x s c a other, (first, ascending))
      ]

  insert_row-All :
      (P : IndexRow → Type 0) (x : IndexRow) (rows : List IndexRow)
      → P x
      → All P rows
      → All P (insert_row d x rows)
  unfolding insert_row
  insert_row-All P x [] h all = (h, tt)
  insert_row-All P x (s ∷ rows) h (first, all) =
      if_both (All P) (row_less d s x) (s ∷ insert_row d x rows) (x ∷ s ∷ rows)
        (first, insert_row-All P x rows h all) (h, (first, all))

  sort_rows-All :
      (P : IndexRow → Type 0) (rows : List IndexRow) → All P rows → All P (sort_rows d rows)
  unfolding sort_rows
  sort_rows-All P [] all = tt
  sort_rows-All P (r ∷ rows) (first, all) =
      insert_row-All P r (sort_rows d rows) first (sort_rows-All P rows all)

  pub sort_rows-Ascending :
      (rows : List IndexRow)
      → AllPairs Comparable rows
      → AllPairs Apart rows
      → Ascending (sort_rows d rows)
  unfolding sort_rows
  sort_rows-Ascending [] comparable apart = tt
  sort_rows-Ascending (r ∷ rows) (c, comparable) (a, apart) =
      insert_row-Ascending r (sort_rows d rows) (sort_rows-All (Comparable r) rows c)
        (sort_rows-All (Apart r) rows a) (sort_rows-Ascending rows comparable apart)

  row_with-insert_row :
      (x : IndexRow) (rows : List IndexRow) (id : ℕ)
      → All (Apart x) rows
      → row_with id (insert_row d x rows) ≡ row_with id (x ∷ rows)
  unfolding insert_row
  row_with-insert_row x [] id apart = refl
  row_with-insert_row x (s ∷ rows) id (a, apart) = elim (Bool-cases (row_less d s x)) [
    | inl less ↦ rw less (ground (arith, row_with-insert_row x rows id apart, a))
    | inr other ↦ rw other refl
  ]

  pub row_with-sort_rows :
      (rows : List IndexRow) (id : ℕ)
      → AllPairs Apart rows
      → row_with id (sort_rows d rows) ≡ row_with id rows
  unfolding sort_rows
  row_with-sort_rows [] id apart = refl
  row_with-sort_rows (r ∷ rows) id (a, apart) =
      row_with-insert_row r (sort_rows d rows) id (sort_rows-All (Apart r) rows a)
      ∙ ground (arith, row_with-sort_rows rows id apart)
