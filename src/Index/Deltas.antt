-- ===== src/Index/Deltas.antt =====
-- index/index_merge.cpp: the changes of both sides, by the artifact of a row.
pub mod Changes
pub mod Outcome
use artifact_system.Base.{
  Option, ℕ, none, some, List, [], ◌∷◌, ◌++◌, if◌then◌else◌, nat_key, Dict, lookup, contains,
  insert, erase,
}
use artifact_system.Storage.Status.{StatusCode, StatusOr, ok, failed}
use artifact_system.Index.Cell.{IndexRow, IndexObject, below}
use artifact_system.Index.Rows.{rows_equal, compare_rows_canonical}

-- `using RowMap = std::map<uint64_t, IndexRow>;`
abbrev pub RowMap : Type 0
RowMap = Dict ℕ IndexRow

-- `struct Delta`, with the set of removes as a dictionary of units
pub record Delta : Type 0 where
  pub removes : Dict ℕ (Unit {0})
  pub adds : List IndexRow

-- A round of the first loop of ComputeDelta, with what the head has for the artifact.
unfoldable pub note_change : ℕ → IndexRow → Option IndexRow → Delta → Delta
note_change artifact_id base_row none delta = record delta {
  removes = insert artifact_id tt delta.removes;
}
note_change artifact_id base_row (some head_row) delta =
    if rows_equal base_row head_row then delta else record {
      removes = insert artifact_id tt delta.removes;
      adds = delta.adds ++ (head_row ∷ []);
    }

unfoldable pub compare_with_head : RowMap → RowMap → Delta → Delta
unfolding note_change
compare_with_head [] head delta = delta
compare_with_head ((artifact_id, base_row) ∷ base) head delta =
    compare_with_head base head (note_change artifact_id base_row (lookup artifact_id head) delta)

-- The second loop of ComputeDelta.
unfoldable pub add_new_rows : RowMap → RowMap → Delta → Delta
add_new_rows base [] delta = delta
add_new_rows base ((artifact_id, head_row) ∷ head) delta = add_new_rows base head (
    if contains artifact_id base
    then delta
    else record delta { adds = delta.adds ++ (head_row ∷ []) })

unfoldable pub compute_delta : RowMap → RowMap → Delta
compute_delta base head =
    add_new_rows base head (compare_with_head base head (record { removes = []; adds = [] }))

-- The loop of ToRowMap.
unfoldable pub to_row_map_onto : RowMap → List IndexRow → StatusOr RowMap
to_row_map_onto out [] = ok out
to_row_map_onto out (row ∷ rows) =
    let rest = to_row_map_onto (insert row.artifact_id row out) rows in
    if contains row.artifact_id out then failed StatusCode.invalid_argument else rest

unfoldable pub to_row_map : IndexObject → StatusOr RowMap
unfolding to_row_map_onto
to_row_map object = to_row_map_onto [] object.rows

-- `for (uint64_t artifact_id : delta.removes) merged.erase(artifact_id);`
unfoldable pub remove_rows : Dict ℕ (Unit {0}) → RowMap → RowMap
remove_rows [] merged = merged
remove_rows ((artifact_id, _) ∷ removes) merged = remove_rows removes (erase artifact_id merged)

-- `candidate_adds[artifact_id]`, which is empty for a new key
unfoldable pub candidates_of : ℕ → Dict ℕ (List IndexRow) → List IndexRow
candidates_of artifact_id adds = elim (lookup artifact_id adds) [ none ↦ [] | some rows ↦ rows ]

unfoldable pub add_candidates : List IndexRow → Dict ℕ (List IndexRow) → Dict ℕ (List IndexRow)
unfolding candidates_of
add_candidates [] candidate_adds = candidate_adds
add_candidates (row ∷ rows) candidate_adds = add_candidates rows (
    insert row.artifact_id (candidates_of row.artifact_id candidate_adds ++ (row ∷ []))
      candidate_adds)

-- The loop over the candidates after the first.
unfoldable pub choose : IndexRow → List IndexRow → StatusOr IndexRow
choose chosen [] = ok chosen
choose chosen (candidate ∷ candidates) =
    let kept = choose chosen candidates in
    let taken = choose candidate candidates in
    elim (compare_rows_canonical candidate chosen) [
      | failed e ↦ failed e
      | ok below ↦ taken
      | ok _ ↦ kept
    ]

-- The loop over `candidate_adds`. A list of candidates is not empty.
unfoldable pub put_chosen : Dict ℕ (List IndexRow) → RowMap → StatusOr RowMap
unfolding choose
put_chosen [] merged = ok merged
put_chosen ((artifact_id, []) ∷ candidate_adds) merged = put_chosen candidate_adds merged
put_chosen ((artifact_id, first ∷ candidates) ∷ candidate_adds) merged =
    elim (choose first candidates) [
      | failed e ↦ failed e
      | ok chosen ↦ put_chosen candidate_adds (insert artifact_id chosen merged)
    ]

-- The deltas of both sides, put on the base.
unfoldable pub merge_row_maps : RowMap → RowMap → RowMap → StatusOr RowMap
unfolding compute_delta remove_rows add_candidates put_chosen
merge_row_maps base_map ours_map theirs_map =
    let ours_delta = compute_delta base_map ours_map in
    let theirs_delta = compute_delta base_map theirs_map in
    let merged = remove_rows theirs_delta.removes (remove_rows ours_delta.removes base_map) in
    let candidate_adds = add_candidates theirs_delta.adds (add_candidates ours_delta.adds []) in
    put_chosen candidate_adds merged
