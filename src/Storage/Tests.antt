-- ===== src/Storage/Tests.antt =====
-- Runs of the in-memory storage, and its properties at concrete inputs.
use artifact_system.Base.{
  ◌≡◌, refl, ◌⊎◌, ◌&&◌, ◌||◌, true, false, Bool, some, if◌then◌else◌, [], ◌∷◌, List, Text, codes,
  text_eq, text_key, lookup, contains, insert, arith,
}
use artifact_system.Storage.Status.{StatusCode, ok, failed}
use artifact_system.Storage.State.{
  CommitData, BranchData, MemoryStorage, canonical_branch, starts_with, is_empty,
  is_reserved_commit_id_name, apply_change, apply_staged, committed_objects, resolve_state,
}
use artifact_system.Storage.Memory.{
  commit_id_of, next_commit_id, initial_storage, base_of, create_branch, stage, put_object,
  delete_object, get_object, object_exists, list_objects, advance, commit,
}
use artifact_system.Storage.Memory.Writes.{get_object-put_object, get_object-delete_object}
use artifact_system.Storage.Memory.Commits.{get_object-commit_made}
use artifact_system.Storage.Memory.Listing.{Increasing, list_objects-object_exists}
use artifact_system.Storage.Invariant.{IsCommit, WellFormed}
use artifact_system.Storage.MergeBase.{
  find_merge_base, build_ancestor_depths, ancestor_depths_loop, visit_parents, visit_parent,
  is_closer, choose_base, best_common, consider, is_better,
}
use artifact_system.Storage.MergeBase.Found.{Ancestor, find_merge_base-Common}
use artifact_system.Storage.ThreeWay.{three_way, same_value}
use artifact_system.Storage.ThreeWay.Outcome.{mem_text, three_way-outcome}
use artifact_system.Storage.Merge.{Conflict, success, conflict, merge}
use artifact_system.Storage.Merge.Outcome.{Ready, diverges_in, read_merged, merge_outcome}
use artifact_system.Storage.History.{Call, create, put, commit_on, apply_call, apply_calls}
use artifact_system.Storage.History.Immutable.{apply_calls-WellFormed, initial_storage-WellFormed}
use artifact_system.Storage.Numerals.{tally, tally-DecimalLaws}

-- A branch beside main, with one commit on each.
abbrev dev : Text
dev = codes "dev"

abbrev calls : List Call
calls =
    create dev []
    ∷ put dev (codes "a") (codes "x")
    ∷ commit_on dev (codes "m")
    ∷ put canonical_branch (codes "b") (codes "y")
    ∷ commit_on canonical_branch (codes "m")
    ∷ []

abbrev start : MemoryStorage
start = initial_storage tally

start-WellFormed : WellFormed tally start
start-WellFormed = initial_storage-WellFormed tally tally-DecimalLaws

abbrev split : MemoryStorage
split = apply_calls tally calls start

split-WellFormed : WellFormed tally split
unfolding initial_storage next_commit_id
split-WellFormed =
    (apply_calls-WellFormed tally tally-DecimalLaws calls start start-WellFormed (omega arith)).0

abbrev main_at_start : BranchData
main_at_start = record { head_commit_id = commit_id_of tally 0; staging = [] }

main_found : lookup canonical_branch start.branches ≡ some main_at_start
unfolding initial_storage next_commit_id lookup insert
main_found = refl

initial_storage-WellFormed_example : WellFormed tally (initial_storage tally)
initial_storage-WellFormed_example = initial_storage-WellFormed tally tally-DecimalLaws

apply_calls-WellFormed_example :
    WellFormed tally (apply_calls tally calls start)
    × ((i : Text) (c : CommitData)
        → lookup i start.commits ≡ some c
        → lookup i (apply_calls tally calls start).commits ≡ some c)
unfolding initial_storage next_commit_id
apply_calls-WellFormed_example =
    apply_calls-WellFormed tally tally-DecimalLaws calls start start-WellFormed (omega arith)

get_object-put_object_example :
    get_object canonical_branch
      (codes "a")
      (put_object canonical_branch (codes "a") (codes "x") start).1
    ≡ ok (codes "x")
get_object-put_object_example =
    get_object-put_object tally start canonical_branch (codes "a") (codes "x") canonical_branch
      (codes "a") main_at_start start-WellFormed main_found

get_object-delete_object_example :
    get_object canonical_branch (codes "a") (delete_object canonical_branch (codes "a") start).1
    ≡ failed StatusCode.not_found
get_object-delete_object_example =
    get_object-delete_object tally start canonical_branch (codes "a") canonical_branch (codes "a")
      main_at_start start-WellFormed main_found

get_object-commit_made_example :
    ((commit tally canonical_branch (codes "m") start).0
      ≡ ok (commit_id_of tally start.next_commit_seq))
    × ((r q : Text)
        → get_object r q (commit tally canonical_branch (codes "m") start).1 ≡ (
            if text_eq (commit_id_of tally start.next_commit_seq) r
            then get_object canonical_branch q start
            else get_object r q start))
unfolding initial_storage next_commit_id
get_object-commit_made_example =
    get_object-commit_made tally tally-DecimalLaws start start-WellFormed (omega arith)
      canonical_branch (codes "m") main_at_start main_found

list_objects-object_exists_example :
    ((paths : List Text) × (list_objects dev [] split ≡ ok paths)
      × Increasing paths
      × ((path : Text)
          → (there : Bool) × (object_exists dev path split ≡ ok there)
            × (mem_text path paths ≡ starts_with path [] && there)))
    ⊎ ((e : StatusCode) × (list_objects dev [] split ≡ failed e)
        × ((path : Text) → object_exists dev path split ≡ failed e))
list_objects-object_exists_example = list_objects-object_exists tally split dev [] split-WellFormed

three_way-outcome_example :
    (lookup (codes "a") (three_way [] ((codes "a", codes "x") ∷ []) []).0 ≡ some (codes "x"))
    × (mem_text (codes "a") (three_way [] ((codes "a", codes "x") ∷ []) []).1 ≡ false)
unfolding lookup same_value
three_way-outcome_example = three_way-outcome [] ((codes "a", codes "x") ∷ []) [] (codes "a")

ready : Ready split dev canonical_branch
unfolding initial_storage next_commit_id lookup insert apply_calls apply_call create_branch contains
    is_reserved_commit_id_name starts_with base_of is_empty put_object stage commit advance
    commit_id_of resolve_state committed_objects apply_staged apply_change find_merge_base
    build_ancestor_depths ancestor_depths_loop visit_parents visit_parent is_closer choose_base
    best_common consider is_better
ready = record {
  src = record { head_commit_id = commit_id_of tally 1; staging = [] };
  tgt = record { head_commit_id = commit_id_of tally 2; staging = [] };
  base_id = commit_id_of tally 0;
  base = record {
    id = commit_id_of tally 0;
    message = codes "genesis";
    parent_ids = [];
    objects = [];
  };
  source_commit = record {
    id = commit_id_of tally 1;
    message = codes "m";
    parent_ids = commit_id_of tally 0 ∷ [];
    objects = (codes "a", codes "x") ∷ [];
  };
  target_commit = record {
    id = commit_id_of tally 2;
    message = codes "m";
    parent_ids = commit_id_of tally 0 ∷ [];
    objects = (codes "b", codes "y") ∷ [];
  };
  differ = refl;
  src_found = refl;
  tgt_found = refl;
  src_clean = refl;
  tgt_clean = refl;
  base_chosen = refl;
  base_found = refl;
  source_found = refl;
  target_found = refl;
}

split_number : split.next_commit_seq ≡ 3
unfolding initial_storage next_commit_id lookup insert apply_calls apply_call create_branch contains
    is_reserved_commit_id_name starts_with base_of is_empty put_object stage commit advance
split_number = refl

merge_outcome_example :
    (((q : Text) → diverges_in ready q ≡ false)
      × ((merge tally dev canonical_branch split).0
          ≡ ok (success (commit_id_of tally split.next_commit_seq)))
      × ((r q : Text)
          → get_object r q (merge tally dev canonical_branch split).1 ≡ (
              if text_eq (commit_id_of tally split.next_commit_seq) r || text_eq canonical_branch r
              then read_merged ready q
              else get_object r q split)))
    ⊎ ((k : Conflict) × (merge tally dev canonical_branch split ≡ (ok (conflict k), split))
        × ((q : Text) → mem_text q k.conflicting_paths ≡ diverges_in ready q)
        × ((q : Text) × (diverges_in ready q ≡ true)))
merge_outcome_example =
    merge_outcome tally tally-DecimalLaws split split-WellFormed (omega (arith, split_number)) dev
      canonical_branch ready

find_merge_base-Common_example :
    ((base : Text) × (find_merge_base split ready.src.head_commit_id ready.tgt.head_commit_id
        ≡ ok base)
      × Ancestor split ready.src.head_commit_id base
      × Ancestor split ready.tgt.head_commit_id base
      × IsCommit split base)
    ⊎ (find_merge_base split ready.src.head_commit_id ready.tgt.head_commit_id
        ≡ failed StatusCode.failed_precondition)
find_merge_base-Common_example =
    find_merge_base-Common tally tally-DecimalLaws split split-WellFormed ready.src.head_commit_id
      ready.tgt.head_commit_id (ready.source_commit, ready.source_found)
      (ready.target_commit, ready.target_found)
