-- ===== src/Transaction/ManagerTests.antt =====
-- Runs of the transaction manager and of the write executor, and their properties at concrete inputs.
use artifact_system.Base.{
  ◌≡◌, refl, ◌⊎◌, true, false, ◌&&◌, none, some, [], ◌∷◌, ◌++◌, if◌then◌else◌, Text, codes, text_eq,
  text_key, lookup, insert, erase, contains, arith,
}
use artifact_system.Encoding.Path.{artifact_path}
use artifact_system.Storage.Status.{StatusCode, StatusOr, ok, failed}
use artifact_system.Storage.State.{
  MemoryStorage, canonical_branch, is_reserved_commit_id_name, starts_with, is_empty, resolve_state,
  committed_objects, apply_staged, apply_change, resolve_ref_state,
}
use artifact_system.Storage.Numerals.{tally, tally-DecimalLaws}
use artifact_system.Storage.Memory.{
  initial_storage, next_commit_id, commit_id_of, create_branch, base_of, put_object, stage,
  delete_object, delete_branch, commit_exists, commit, advance, get_branch_head, get_object,
}
use artifact_system.Storage.Memory.Writes.{stage-WellFormed}
use artifact_system.Storage.Memory.Commits.{commit-WellFormed}
use artifact_system.Storage.Memory.Staged.{IsBranch}
use artifact_system.Storage.Invariant.{WellFormed}
use artifact_system.Storage.MergeBase.{
  find_merge_base, build_ancestor_depths, ancestor_depths_loop, visit_parents, visit_parent,
  is_closer, choose_base, best_common, consider, is_better,
}
use artifact_system.Storage.ThreeWay.{
  three_way, all_paths, insert_paths, merge_paths, merge_path, same_value, put_value, sorted,
  insert_sorted,
}
use artifact_system.Storage.Merge.{Conflict, merge, merge_snapshots, finish, has_no_entry}
use artifact_system.Transaction.Action.{TransactionRecord, World}
use artifact_system.Transaction.Meta.{
  txn_meta_path, print_record, value_or_empty, write_txn_meta, cleanup_txn_meta,
}
use artifact_system.Transaction.Manager.{
  TransactionMetadata, create_snapshot, snapshot_base, forget, remove_transaction_locked,
  drop_child, add_child, resolve_parent, resolve_transaction, start_branch, create_transaction,
  get_transaction_metadata, rollback_transaction,
}
use artifact_system.Transaction.Manager.Created.{create_transaction_shared}
use artifact_system.Transaction.Manager.Rollback.{
  may_roll_back, kept_record, rollback_transaction_outcome,
}
use artifact_system.Transaction.ContextRef.{ref}
use artifact_system.Transaction.Conflict.{
  ConflictType, PathConflictKind, evaluate_retry_decision, kinds_of, classify, is_retryable_kind,
  default_path_conflict_classifier, resolve_conflict_type, resolve_from,
}
use artifact_system.Transaction.ConflictDetail.{
  payload_detail, index_detail, build_commit_conflict, detail_of, payload_id,
  decode_artifact_id_from_path, after_last_slash, parse_decimal_suffix, parse_digits, unless_empty,
  decode_artifact_id_from_path-artifact_path,
}
use artifact_system.Transaction.Commit.{
  Options, construct, resolve_conflict, CommitConflictResult, CommitResult, conflicted,
  finish_commit, commit_transaction_impl, target_of, write_record, commit_loop, after_merge,
  give_up, restore_meta,
}
use artifact_system.Transaction.Commit.Attempts.{commit_loop_ends_inside}
use artifact_system.Transaction.Commit.Restored.{Between, Quiet}
use artifact_system.Transaction.Commit.Conflicted.{commit_conflict_restored}
use artifact_system.Transaction.Commit.Unharmed.{commit_conflict_unharmed}
use artifact_system.Transaction.WriteExecutor.{WriteOptions, next_child_branch_name, execute_write}
use artifact_system.Transaction.WriteExecutor.Child.{execute_write_cleans_up}
use artifact_system.Transaction.Scenario.{
  formats, formats-FormatLaws, mem, fresh, fresh-WellFormed, txn, begun, payload, contended,
}

decode_artifact_id_from_path-artifact_path_example :
    decode_artifact_id_from_path (artifact_path 77) ≡ some 77
decode_artifact_id_from_path-artifact_path_example =
    decode_artifact_id_from_path-artifact_path 77 (omega arith)

begun_ok : (create_transaction formats mem (codes "1") none none fresh).0 ≡ ok txn
unfolding initial_storage next_commit_id lookup insert erase contains create_branch
    is_reserved_commit_id_name starts_with is_empty base_of put_object stage delete_object commit
    advance commit_id_of resolve_state committed_objects apply_staged apply_change
    create_transaction resolve_parent start_branch add_child write_txn_meta print_record
    value_or_empty txn_meta_path get_branch_head
begun_ok = refl

fresh_number : fresh.storage.next_commit_seq ≡ 1
unfolding initial_storage next_commit_id
fresh_number = refl

create_transaction_shared_example :
    (txn ≡ codes "txn-" ++ codes "1")
    × WellFormed tally begun.storage
    × ((m : TransactionMetadata) × (m.parent_transaction_id ≡ none)
        × (m.parent_snapshot_id ≡ none)
        × (get_transaction_metadata formats mem txn begun ≡ ok m)
        × (get_transaction_metadata formats mem txn
              (record { storage = begun.storage; snapshot_source_cache = []; transactions = [] })
            ≡ ok m))
create_transaction_shared_example =
    create_transaction_shared formats formats-FormatLaws (codes "1") none none fresh
      fresh-WellFormed (omega (arith, fresh_number)) tt tt txn begun_ok

rollback_transaction_outcome_example :
    let r = rollback_transaction formats mem txn begun in
    ((may_roll_back formats tally txn begun ≡ true)
      × (r.0 ≡ ok tt)
      × (get_transaction_metadata formats mem txn r.1 ≡ failed StatusCode.not_found)
      × (get_branch_head txn r.1.storage ≡ failed StatusCode.not_found)
      × ((ref path : Text)
          → text_eq txn ref ≡ false
          → get_object ref path r.1.storage ≡ get_object ref path begun.storage)
      × (r.1.storage ≡ record begun.storage { branches = erase txn begun.storage.branches })
      × ((q : Text)
          → text_eq txn q ≡ false
          → lookup q r.1.transactions ≡ kept_record formats tally txn begun q)
      × (r.1.snapshot_source_cache ≡ begun.snapshot_source_cache))
    ⊎ ((may_roll_back formats tally txn begun ≡ false)
        × ((e : StatusCode) × (r ≡ (failed e, begun))))
rollback_transaction_outcome_example = rollback_transaction_outcome formats tally txn begun

abbrev options : Options MemoryStorage
options = record {
  max_attempts = 5;
  path_conflict_classifier = none;
  retry_conflict_resolver = none;
  sleep_for = λ n w. w;
  create_commit_record = none;
}

commit_loop_ends_inside_example :
    commit_loop formats mem options txn canonical_branch
      (record {
        parent_transaction_id = none;
        parent_snapshot_id = none;
        depth = 0;
        child_transaction_ids = [];
      })
      StatusCode.internal
      5
      1
      contended
    ≡ commit_loop formats mem options txn canonical_branch
        (record {
          parent_transaction_id = none;
          parent_snapshot_id = none;
          depth = 0;
          child_transaction_ids = [];
        })
        StatusCode.unfinished
        5
        1
        contended
commit_loop_ends_inside_example =
    commit_loop_ends_inside formats mem options txn canonical_branch
      (record {
        parent_transaction_id = none;
        parent_snapshot_id = none;
        depth = 0;
        child_transaction_ids = [];
      })
      StatusCode.internal StatusCode.unfinished contended refl

quiet : Quiet options
quiet = record { no_resolver = refl; no_record = refl; asleep = λ n w. refl }

abbrev txn_record : TransactionRecord
txn_record = record {
  parent_transaction_id = none;
  parent_snapshot_id = none;
  depth = 0;
  child_transaction_ids = [];
}

txn_resolved : resolve_transaction formats mem txn contended ≡ (ok txn_record, contended)
unfolding resolve_transaction initial_storage next_commit_id lookup insert erase contains
    create_branch is_reserved_commit_id_name starts_with is_empty base_of put_object stage
    delete_object commit advance commit_id_of resolve_state committed_objects apply_staged
    apply_change create_transaction resolve_parent start_branch add_child write_txn_meta
    print_record value_or_empty txn_meta_path get_branch_head
txn_resolved = refl

abbrev clash : Conflict
clash = record {
  conflicting_paths = payload ∷ [];
  base_commit_id = commit_id_of tally 0;
  source_commit_id = commit_id_of tally 3;
  target_commit_id = commit_id_of tally 2;
}

abbrev refusal : CommitConflictResult
refusal = record {
  transaction_id = txn;
  conflict_found = clash;
  detail = record {
    conflict_type = ConflictType.payload_conflict;
    retryable = false;
    attempts = 1;
    detail = payload_detail (some 1);
    base_commit_id = some (commit_id_of tally 0);
    ours_commit_id = some (commit_id_of tally 3);
    theirs_commit_id = some (commit_id_of tally 2);
  };
}

txn_refused :
    (commit_transaction_impl formats mem options true txn contended).0 ≡ ok (conflicted refusal)
unfolding initial_storage next_commit_id lookup insert erase contains create_branch
    is_reserved_commit_id_name starts_with is_empty base_of put_object stage delete_object commit
    advance commit_id_of resolve_state committed_objects apply_staged apply_change
    create_transaction resolve_parent start_branch add_child write_txn_meta print_record
    value_or_empty txn_meta_path get_branch_head commit_transaction_impl resolve_transaction
    target_of write_record cleanup_txn_meta commit_loop after_merge give_up restore_meta merge
    merge_snapshots finish has_no_entry three_way all_paths insert_paths merge_paths merge_path
    same_value put_value sorted insert_sorted find_merge_base build_ancestor_depths
    ancestor_depths_loop visit_parents visit_parent is_closer choose_base best_common consider
    is_better evaluate_retry_decision kinds_of classify is_retryable_kind
    default_path_conflict_classifier resolve_conflict_type resolve_from build_commit_conflict
    detail_of payload_id decode_artifact_id_from_path after_last_slash parse_decimal_suffix
    parse_digits unless_empty
txn_refused = refl

-- With the constructor's defaults: every path may be tried again, and the resolver writes to the branch
-- of the transaction before it declines.
abbrev constructed : Options MemoryStorage
constructed =
    construct (λ path. PathConflictKind.retryable_non_unique_index)
      (λ context s. (ok false, (put_object txn (codes "indexes/b") (codes "c") s).1)) options

abbrev declination : CommitConflictResult
declination = record {
  transaction_id = txn;
  conflict_found = clash;
  detail = record {
    conflict_type = ConflictType.index_conflict;
    retryable = false;
    attempts = 1;
    detail = index_detail (some payload);
    base_commit_id = some (commit_id_of tally 0);
    ours_commit_id = some (commit_id_of tally 3);
    theirs_commit_id = some (commit_id_of tally 2);
  };
}

declined :
    (commit_transaction_impl formats mem constructed true txn contended).0
    ≡ ok (conflicted declination)
unfolding construct resolve_conflict initial_storage next_commit_id lookup insert erase contains
    create_branch is_reserved_commit_id_name starts_with is_empty base_of put_object stage
    delete_object commit advance commit_id_of resolve_state committed_objects apply_staged
    apply_change create_transaction resolve_parent start_branch add_child write_txn_meta
    print_record value_or_empty txn_meta_path get_branch_head commit_transaction_impl
    resolve_transaction target_of write_record cleanup_txn_meta commit_loop after_merge give_up
    restore_meta merge merge_snapshots finish has_no_entry three_way all_paths insert_paths
    merge_paths merge_path same_value put_value sorted insert_sorted find_merge_base
    build_ancestor_depths ancestor_depths_loop visit_parents visit_parent is_closer choose_base
    best_common consider is_better evaluate_retry_decision kinds_of classify is_retryable_kind
    default_path_conflict_classifier resolve_conflict_type resolve_from build_commit_conflict
    detail_of payload_id decode_artifact_id_from_path after_last_slash parse_decimal_suffix
    parse_digits unless_empty
declined = refl

commit_conflict_restored_example :
    (u : World MemoryStorage) × Between constructed
      (cleanup_txn_meta formats mem txn
        (write_record formats mem constructed true txn contended).1).1
      u
    × ((commit_transaction_impl formats mem constructed true txn contended).1
        ≡ (write_txn_meta formats mem txn txn_record u).1)
commit_conflict_restored_example =
    commit_conflict_restored formats constructed true txn contended contended txn_record declination
      txn_resolved declined

begun-WellFormed : WellFormed tally begun.storage
begun-WellFormed =
    (create_transaction_shared formats formats-FormatLaws (codes "1") none none fresh
      fresh-WellFormed (omega (arith, fresh_number)) tt tt txn begun_ok).1

contended_number : contended.storage.next_commit_seq ≡ 3
unfolding initial_storage next_commit_id lookup insert erase contains create_branch
    is_reserved_commit_id_name starts_with is_empty base_of put_object stage delete_object commit
    advance commit_id_of resolve_state committed_objects apply_staged apply_change
    create_transaction resolve_parent start_branch add_child write_txn_meta print_record
    value_or_empty txn_meta_path get_branch_head
contended_number = refl

begun_number : begun.storage.next_commit_seq ≡ 2
unfolding initial_storage next_commit_id lookup insert erase contains create_branch
    is_reserved_commit_id_name starts_with is_empty base_of put_object stage delete_object commit
    advance commit_id_of resolve_state committed_objects apply_staged apply_change
    create_transaction resolve_parent start_branch add_child write_txn_meta print_record
    value_or_empty txn_meta_path get_branch_head
begun_number = refl

staged_number :
    (put_object canonical_branch payload
      (codes "b")
      (put_object txn payload (codes "a") begun.storage).1).1.next_commit_seq
    ≡ 2
unfolding initial_storage next_commit_id lookup insert erase contains create_branch
    is_reserved_commit_id_name starts_with is_empty base_of put_object stage delete_object commit
    advance commit_id_of resolve_state committed_objects apply_staged apply_change
    create_transaction resolve_parent start_branch add_child write_txn_meta print_record
    value_or_empty txn_meta_path get_branch_head
staged_number = refl

contended-WellFormed : WellFormed tally contended.storage
unfolding put_object
contended-WellFormed =
    commit-WellFormed tally tally-DecimalLaws
      (put_object canonical_branch payload (codes "b")
        (put_object txn payload (codes "a") begun.storage).1).1
      (stage-WellFormed tally (put_object txn payload (codes "a") begun.storage).1 canonical_branch
        payload (record { data_of = some (codes "b") })
        (stage-WellFormed tally begun.storage txn payload (record { data_of = some (codes "a") })
          begun-WellFormed))
      (omega (arith, staged_number)) canonical_branch (codes "m")

txn-IsBranch : IsBranch contended.storage txn
unfolding initial_storage next_commit_id lookup insert erase contains create_branch
    is_reserved_commit_id_name starts_with is_empty base_of put_object stage delete_object commit
    advance commit_id_of resolve_state committed_objects apply_staged apply_change
    create_transaction resolve_parent start_branch add_child write_txn_meta print_record
    value_or_empty txn_meta_path get_branch_head
txn-IsBranch = (
  record {
    head_commit_id = commit_id_of tally 1;
    staging = (payload, record { data_of = some (codes "a") }) ∷ [];
  },
  refl,
)

commit_conflict_unharmed_example :
    get_object txn payload
      (commit_transaction_impl formats mem options true txn contended).1.storage
    ≡ (if text_eq txn txn && text_eq (txn_meta_path txn) payload
        then ok (print_record formats txn_record)
        else get_object txn payload contended.storage)
commit_conflict_unharmed_example =
    commit_conflict_unharmed formats tally-DecimalLaws options quiet true txn contended contended
      txn_record refusal txn_resolved contended-WellFormed txn-IsBranch
      (omega (arith, contended_number)) txn_refused txn payload txn-IsBranch

abbrev write_options : WriteOptions MemoryStorage
write_options = record {
  max_attempts = 5;
  path_conflict_classifier = none;
  retry_conflict_resolver = none;
  sleep_for = λ n s. s;
}

no_child : lookup (next_child_branch_name (codes "9") txn) begun.storage.branches ≡ none
unfolding next_child_branch_name initial_storage next_commit_id lookup insert erase contains
    create_branch is_reserved_commit_id_name starts_with is_empty base_of put_object stage
    delete_object commit advance commit_id_of resolve_state committed_objects apply_staged
    apply_change create_transaction resolve_parent start_branch add_child write_txn_meta
    print_record value_or_empty txn_meta_path get_branch_head
no_child = refl

execute_write_cleans_up_example :
    lookup
      (next_child_branch_name (codes "9") txn)
      (execute_write mem write_options
        (codes "9")
        txn
        (λ child s. put_object child payload (codes "c") s)
        begun.storage).1.branches
    ≡ none
execute_write_cleans_up_example =
    execute_write_cleans_up tally write_options (codes "9") txn
      (λ child s. put_object child payload (codes "c") s) begun.storage no_child

-- A snapshot of a transaction has the metadata of the transaction, and a transaction that starts from
-- the snapshot brings it to the canonical branch.
abbrev snapshot : StatusOr Text × World MemoryStorage
snapshot = create_snapshot formats mem (some txn) begun

abbrev second : StatusOr Text × World MemoryStorage
second = create_transaction formats mem (codes "2") (some (commit_id_of tally 1)) none snapshot.1

abbrev second_committed : StatusOr CommitResult × World MemoryStorage
second_committed = commit_transaction_impl formats mem options true (codes "txn-2") second.1

snapshot_taken : snapshot.0 ≡ ok (commit_id_of tally 1)
unfolding initial_storage next_commit_id lookup insert erase contains create_branch
    is_reserved_commit_id_name starts_with is_empty base_of put_object stage delete_object commit
    advance commit_id_of resolve_state committed_objects apply_staged apply_change
    create_transaction resolve_parent start_branch add_child write_txn_meta print_record
    value_or_empty txn_meta_path get_branch_head commit_transaction_impl resolve_transaction
    target_of write_record cleanup_txn_meta commit_loop after_merge give_up restore_meta merge
    merge_snapshots finish has_no_entry three_way all_paths insert_paths merge_paths merge_path
    same_value put_value sorted insert_sorted find_merge_base build_ancestor_depths
    ancestor_depths_loop visit_parents visit_parent is_closer choose_base best_common consider
    is_better evaluate_retry_decision kinds_of classify is_retryable_kind
    default_path_conflict_classifier resolve_conflict_type resolve_from build_commit_conflict
    detail_of payload_id decode_artifact_id_from_path after_last_slash parse_decimal_suffix
    parse_digits unless_empty create_snapshot snapshot_base finish_commit forget
    remove_transaction_locked drop_child delete_branch commit_exists
snapshot_taken = refl

metadata_on_main :
    get_object canonical_branch (txn_meta_path txn) second_committed.1.storage
    ≡ ok (print_record formats txn_record)
unfolding get_object resolve_ref_state initial_storage next_commit_id lookup insert erase contains
    create_branch is_reserved_commit_id_name starts_with is_empty base_of put_object stage
    delete_object commit advance commit_id_of resolve_state committed_objects apply_staged
    apply_change create_transaction resolve_parent start_branch add_child write_txn_meta
    print_record value_or_empty txn_meta_path get_branch_head commit_transaction_impl
    resolve_transaction target_of write_record cleanup_txn_meta commit_loop after_merge give_up
    restore_meta merge merge_snapshots finish has_no_entry three_way all_paths insert_paths
    merge_paths merge_path same_value put_value sorted insert_sorted find_merge_base
    build_ancestor_depths ancestor_depths_loop visit_parents visit_parent is_closer choose_base
    best_common consider is_better evaluate_retry_decision kinds_of classify is_retryable_kind
    default_path_conflict_classifier resolve_conflict_type resolve_from build_commit_conflict
    detail_of payload_id decode_artifact_id_from_path after_last_slash parse_decimal_suffix
    parse_digits unless_empty create_snapshot snapshot_base finish_commit forget
    remove_transaction_locked drop_child delete_branch commit_exists
metadata_on_main = refl
