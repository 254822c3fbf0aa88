-- ===== src/Index/Deltas/Changes.antt =====
-- index/index_merge.cpp: ToRowMap, and ComputeDelta by the artifact.
use artifact_system.Base.{
  ℕ, ◌≡◌, refl, sym, ap, ◌∙◌, inl, inr, Bool, true, false, ◌&&◌, ◌||◌, not, Option, none, some,
  List, [], ◌∷◌, ◌++◌, if◌then◌else◌, ◌==◌, nat_key, Dict, lookup, contains, insert, All, Ordered,
  insert-Ordered, lookup-eq-none_of_Above, contains-eq-true_of_some, contains-eq-false_of_none,
  arith, if_both, ltb, subst, Bool-cases, Option-cases,
}
use mathlib.Core.List.{append-nil}
use artifact_system.Storage.Status.{ok}
use artifact_system.Index.Cell.{IndexRow, IndexObject}
use artifact_system.Index.Rows.{rows_equal}
use artifact_system.Index.Deltas.{
  RowMap, Delta, note_change, compare_with_head, add_new_rows, compute_delta, to_row_map_onto,
  to_row_map,
}

-- Each row is under its own artifact.
abbrev pub Keyed : RowMap → Type 0
Keyed m = All (λ e. e.1.artifact_id ≡ e.0) m

insert-Keyed : (r : IndexRow) (m : RowMap) → Keyed m → Keyed (insert r.artifact_id r m)
unfolding insert
insert-Keyed r [] h = (refl, tt)
insert-Keyed r ((k, s) ∷ m) (here, there) =
    if_both Keyed (k == r.artifact_id) ((r.artifact_id, r) ∷ m)
      (if ltb r.artifact_id k
        then (r.artifact_id, r) ∷ (k, s) ∷ m
        else ((k, s) ∷ insert r.artifact_id r m))
      (refl, there)
      (if_both Keyed (ltb r.artifact_id k) ((r.artifact_id, r) ∷ (k, s) ∷ m)
        ((k, s) ∷ insert r.artifact_id r m) (refl, (here, there)) (here, insert-Keyed r m there))

pub lookup-Keyed :
    (id : ℕ) (m : RowMap) (r : IndexRow) → Keyed m → lookup id m ≡ some r → r.artifact_id ≡ id
unfolding lookup
lookup-Keyed id [] r h e = cc
lookup-Keyed id ((k, s) ∷ m) r (here, there) e = ground (arith, here, lookup-Keyed id m r there)

to_row_map_onto-Ordered :
    (rows : List IndexRow) (out m : RowMap)
    → Ordered out
    → Keyed out
    → to_row_map_onto out rows ≡ ok m
    → Ordered m × Keyed m
unfolding to_row_map_onto
to_row_map_onto-Ordered [] out m ordered keyed h =
    let same : out ≡ m = cc in
    (subst (λ (x : RowMap). Ordered x) same ordered, subst (λ x. Keyed x) same keyed)
to_row_map_onto-Ordered (r ∷ rows) out m ordered keyed h =
    elim (Bool-cases (contains r.artifact_id out)) [
      | inl twice ↦ absurd (ground (arith, h, twice))
      | inr new ↦
          to_row_map_onto-Ordered rows (insert r.artifact_id r out) m
            (insert-Ordered r.artifact_id r out ordered) (insert-Keyed r out keyed)
            (ground (arith, h, new))
    ]

pub to_row_map-Ordered :
    (object : IndexObject) (m : RowMap) → to_row_map object ≡ ok m → Ordered m × Keyed m
unfolding to_row_map
to_row_map-Ordered object m h = to_row_map_onto-Ordered object.rows [] m tt tt h

-- Of the rows of a base and a head under one artifact: whether the base's is removed, and the rows
-- that are added.
abbrev pub removal : Option IndexRow → Option IndexRow → Bool
removal none head = false
removal (some base_row) none = true
removal (some base_row) (some head_row) = not (rows_equal base_row head_row)

abbrev pub addition : Option IndexRow → Option IndexRow → List IndexRow
addition none none = []
addition none (some head_row) = head_row ∷ []
addition (some base_row) none = []
addition (some base_row) (some head_row) =
    if rows_equal base_row head_row then [] else head_row ∷ []

abbrev pub rows_of : ℕ → List IndexRow → List IndexRow
rows_of id [] = []
rows_of id (r ∷ rows) = if r.artifact_id == id then r ∷ rows_of id rows else rows_of id rows

rows_of-append :
    (id : ℕ) (xs ys : List IndexRow) → rows_of id (xs ++ ys) ≡ rows_of id xs ++ rows_of id ys
rows_of-append id [] ys = refl
rows_of-append id (r ∷ xs) ys = ground (arith, rows_of-append id xs ys)

pub contains-insert :
    (k j : ℕ) (m : Dict ℕ (Unit {0})) → contains j (insert k tt m) ≡ (k == j) || contains j m
unfolding contains insert
contains-insert k j [] = ground arith
contains-insert k j ((i, u) ∷ m) = ground (arith, contains-insert k j m)

note_change-removes :
    (k id : ℕ) (b : IndexRow) (o : Option IndexRow) (delta : Delta)
    → contains id (note_change k b o delta).removes
      ≡ contains id delta.removes || ((k == id) && removal (some b) o)
unfolding note_change
note_change-removes k id b none delta = ground (arith, contains-insert k id delta.removes)
note_change-removes k id b (some h) delta = ground (arith, contains-insert k id delta.removes)

note_change-adds :
    (k id : ℕ) (b : IndexRow) (o : Option IndexRow) (delta : Delta)
    → ((h : IndexRow) → o ≡ some h → h.artifact_id ≡ k)
    → rows_of id (note_change k b o delta).adds
      ≡ rows_of id delta.adds ++ (if k == id then addition (some b) o else [])
unfolding note_change
note_change-adds k id b none delta keyed = ground (arith, append-nil (rows_of id delta.adds))
note_change-adds k id b (some h) delta keyed =
    ground (
      arith,
      append-nil (rows_of id delta.adds),
      rows_of-append id delta.adds (h ∷ []),
      keyed h refl,
    )

compare_with_head-removes :
    (base head : RowMap) (delta : Delta) (id : ℕ)
    → Ordered base
    → contains id (compare_with_head base head delta).removes
      ≡ contains id delta.removes || removal (lookup id base) (lookup id head)
unfolding compare_with_head lookup
compare_with_head-removes [] head delta id ordered = ground arith
compare_with_head-removes ((k, b) ∷ base) head delta id (above, ordered) = ground (
  arith,
  compare_with_head-removes base head (note_change k b (lookup k head) delta) id ordered,
  note_change-removes k id b (lookup k head) delta,
  lookup-eq-none_of_Above k base above,
)

compare_with_head-adds :
    (base head : RowMap) (delta : Delta) (id : ℕ)
    → Ordered base
    → Keyed head
    → rows_of id (compare_with_head base head delta).adds
      ≡ rows_of id delta.adds
        ++ (if contains id base then addition (lookup id base) (lookup id head) else [])
unfolding compare_with_head lookup contains
compare_with_head-adds [] head delta id ordered keyed = sym (append-nil (rows_of id delta.adds))
compare_with_head-adds ((k, b) ∷ base) head delta id (above, ordered) keyed = ground (
  arith,
  compare_with_head-adds base head (note_change k b (lookup k head) delta) id ordered keyed,
  note_change-adds k id b (lookup k head) delta (λ h e. lookup-Keyed k head h keyed e),
  contains-eq-false_of_none k base (lookup-eq-none_of_Above k base above),
  append-nil (rows_of id delta.adds),
  append-nil (rows_of id delta.adds ++ addition (some b) (lookup k head)),
)

add_new_rows-removes :
    (base head : RowMap) (delta : Delta) → (add_new_rows base head delta).removes ≡ delta.removes
unfolding add_new_rows
add_new_rows-removes base [] delta = refl
add_new_rows-removes base ((k, h) ∷ head) delta = elim (Bool-cases (contains k base)) [
  | inl known ↦ rw (known, add_new_rows) (add_new_rows-removes base head delta)
  | inr new ↦
      rw (new, add_new_rows)
        (add_new_rows-removes base head (record delta { adds = delta.adds ++ (h ∷ []) }))
]

add_new_rows-adds :
    (base head : RowMap) (delta : Delta) (id : ℕ)
    → Ordered head
    → Keyed head
    → rows_of id (add_new_rows base head delta).adds
      ≡ rows_of id delta.adds ++ (if contains id base then [] else addition none (lookup id head))
unfolding add_new_rows lookup
add_new_rows-adds base [] delta id ordered keyed =
    ground (arith, append-nil (rows_of id delta.adds))
add_new_rows-adds base ((k, h) ∷ head) delta id (above, ordered) (here, keyed) = ground (
  arith,
  here,
  add_new_rows-adds base head delta id ordered keyed,
  add_new_rows-adds base head (record delta { adds = delta.adds ++ (h ∷ []) }) id ordered keyed,
  rows_of-append id delta.adds (h ∷ []),
  lookup-eq-none_of_Above k head above,
  append-nil (rows_of id delta.adds),
  append-nil (rows_of id delta.adds ++ (h ∷ [])),
)

module _ (base head : RowMap) (id : ℕ) (base_ordered : Ordered base) (head_ordered : Ordered head)
    (head_keyed : Keyed head) where
  pub compute_delta-removes :
      contains id (compute_delta base head).removes ≡ removal (lookup id base) (lookup id head)
  unfolding compute_delta contains
  compute_delta-removes =
      let empty : Delta = record { removes = []; adds = [] } in
      ap (λ ids. contains id ids)
        (add_new_rows-removes base head (compare_with_head base head empty))
      ∙ compare_with_head-removes base head empty id base_ordered

  pub compute_delta-adds :
      rows_of id (compute_delta base head).adds ≡ addition (lookup id base) (lookup id head)
  unfolding compute_delta
  compute_delta-adds =
      let empty : Delta = record { removes = []; adds = [] } in
      add_new_rows-adds base head (compare_with_head base head empty) id head_ordered head_keyed
      ∙ elim (Option-cases (lookup id base)) [
        | inl missing ↦ ground (
          arith,
          missing,
          compare_with_head-adds base head empty id base_ordered head_keyed,
          contains-eq-false_of_none id base missing,
        )
        | inr (b, found) ↦ ground (
          arith,
          found,
          append-nil (addition (some b) (lookup id head)),
          compare_with_head-adds base head empty id base_ordered head_keyed,
          contains-eq-true_of_some id base b found,
        )
      ]
