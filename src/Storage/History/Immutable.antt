-- ===== src/Storage/History/Immutable.antt =====
-- The invariant and the commits of the in-memory storage over sequences of calls.
use artifact_system.Base.{
  ℕ, ◌+◌, ◌^◌, ◌<◌, ◌≡◌, refl, sym, none, some, [], ◌∷◌, List, Text, codes, text_eq, text_eq_iff,
  text_key, lookup, insert, lookup-insert, arith, Bool-cases, inl, inr, length,
}
use artifact_system.Storage.State.{
  CommitData, BranchData, MemoryStorage, is_reserved_commit_id_name, canonical_branch, starts_with,
}
use artifact_system.Storage.Memory.{
  commit_id_of, next_commit_id, initial_storage, put_object, delete_object,
}
use artifact_system.Storage.Invariant.{DecimalLaws, WellFormed}
use artifact_system.Storage.History.{
  Call, create, remove, put, unput, commit_on, merge_into, apply_call, apply_calls,
}
use artifact_system.Storage.History.Kept.{
  Kept, create_branch-Kept, delete_branch-Kept, stage-Kept, commit-Kept,
}
use artifact_system.Storage.History.Merged.{merge-Kept}

module _ (decimal : ℕ → Text) (laws : DecimalLaws decimal) where
  apply_call-Kept :
      (call : Call) (s : MemoryStorage)
      → WellFormed decimal s
      → s.next_commit_seq + 1 < 2 ^ 64
      → Kept decimal s (apply_call decimal call s)
  unfolding apply_call put_object delete_object
  apply_call-Kept (create name base) s w fits = create_branch-Kept decimal s w name base
  apply_call-Kept (remove name) s w fits = delete_branch-Kept decimal s w name
  apply_call-Kept (put branch path content) s w fits =
      stage-Kept decimal s w branch path (record { data_of = some content })
  apply_call-Kept (unput branch path) s w fits =
      stage-Kept decimal s w branch path (record { data_of = none })
  apply_call-Kept (commit_on branch message) s w fits =
      commit-Kept decimal laws s w fits branch message
  apply_call-Kept (merge_into source target) s w fits =
      merge-Kept decimal laws s w fits source target

-- Where decimal numerals have their laws, any calls that start in a well-formed storage, and that are
-- too few to reach the bound of 64 bits on commit numbers, lead to a well-formed storage in which
-- every commit of the first one stands unchanged.
pub apply_calls-WellFormed :
    (decimal : ℕ → Text) (laws : DecimalLaws decimal) (calls : List Call) (s : MemoryStorage)
    → WellFormed decimal s
    → s.next_commit_seq + length calls < 2 ^ 64
    → WellFormed decimal (apply_calls decimal calls s)
      × ((i : Text) (c : CommitData)
          → lookup i s.commits ≡ some c
          → lookup i (apply_calls decimal calls s).commits ≡ some c)
unfolding apply_calls
apply_calls-WellFormed decimal laws [] s w fits = (w, λ i c e. e)
apply_calls-WellFormed decimal laws (call ∷ calls) s w fits =
    let (w', few, keeps) = apply_call-Kept decimal laws call s w (omega arith) in
    let (w'', keeps') =
      apply_calls-WellFormed decimal laws calls (apply_call decimal call s) w' (omega arith) in
    (w'', λ i c e. keeps' i c (keeps i c e))

lookup-single :
    {V : Type 0} (k n : Text) (v w : V) → lookup n (insert k v []) ≡ some w → (k ≡ n) × (v ≡ w)
unfolding lookup
lookup-single k n v w e = elim (Bool-cases (text_eq k n)) [
  | inl same ↦ ((text_eq_iff k n).0 same, ground (arith, e, same, lookup-insert k n v []))
  | inr other ↦ absurd (ground (arith, e, other, lookup-insert k n v []))
]

-- Where decimal numerals have their laws, the storage that the constructor makes is well-formed.
pub initial_storage-WellFormed :
    (decimal : ℕ → Text) → DecimalLaws decimal → WellFormed decimal (initial_storage decimal)
unfolding initial_storage next_commit_id is_reserved_commit_id_name lookup insert starts_with
initial_storage-WellFormed decimal laws =
    let genesis : CommitData = record {
      id = commit_id_of decimal 0;
      message = codes "genesis";
      parent_ids = [];
      objects = [];
    } in
    let main : BranchData = record { head_commit_id = commit_id_of decimal 0; staging = [] } in
    record {
      head = λ n b e. rw (sym (lookup-single canonical_branch n main b e).1) (
        genesis,
        ground (
          arith,
          text_eq_iff (commit_id_of decimal 0) (commit_id_of decimal 0),
          lookup-insert (commit_id_of decimal 0) (commit_id_of decimal 0) genesis [],
        ),
      );
      staged = λ n b e. rw (sym (lookup-single canonical_branch n main b e).1) tt;
      unreserved = λ n b e. rw (sym (lookup-single canonical_branch n main b e).0) refl;
      snapshot = λ i c e. rw (sym (lookup-single (commit_id_of decimal 0) i genesis c e).1) tt;
      numbered = λ i c e. rw (sym (lookup-single (commit_id_of decimal 0) i genesis c e).1) (
        0,
        omega arith,
        sym (lookup-single (commit_id_of decimal 0) i genesis c e).0,
        tt,
        omega arith,
      );
      canonical = (main, refl);
    }
