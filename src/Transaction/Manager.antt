-- ===== src/Transaction/Manager.antt =====
-- transaction/transaction_manager.cpp: snapshots, and transactions as branches. Each method runs under
-- the mutex, as one step; `storage_` is not null. GenerateUUID's text is an argument.
pub mod Rollback
pub mod Created
use artifact_system.Base.{
  ℕ, ◌+◌, ◌%◌, ◌^◌, Bool, true, false, not, Option, none, some, List, [], ◌∷◌, ◌++◌, if◌then◌else◌,
  Text, codes, text_key, Dict, lookup, insert, erase,
}
use artifact_system.Storage.Status.{StatusCode, StatusOr, ok, failed}
use artifact_system.Storage.Interface.{StorageInterface}
use artifact_system.Transaction.Action.{
  TransactionRecord, World, Action, ◌>>=◌, ◌>>◌, return, raise, raise_if, rewrite, asks, calls,
  attempt, ignore,
}
use artifact_system.Transaction.Meta.{Formats, write_txn_meta, load_transaction_record_from_storage}

pub record SnapshotMetadata : Type 0 where
  pub snapshot_id : Text
  pub source_transaction_id : Option Text

pub record TransactionMetadata : Type 0 where
  pub transaction_id : Text
  pub parent_transaction_id : Option Text
  pub parent_snapshot_id : Option Text
  pub depth : ℕ

-- What `CreateTransaction` finds out of the parent.
pub record Parent : Type 0 where
  pub resolved_parent_transaction_id : Option Text
  pub resolved_parent_snapshot_id : Option Text
  pub depth : ℕ
  pub base_commit_id : Text

abbrev pub metadata_of : Text → TransactionRecord → TransactionMetadata
metadata_of id r = record {
  transaction_id = id;
  parent_transaction_id = r.parent_transaction_id;
  parent_snapshot_id = r.parent_snapshot_id;
  depth = r.depth;
}

-- A child is noted in the record of its parent, where this instance knows the parent.
unfoldable pub add_child :
    Text → Option Text → Dict Text TransactionRecord → Dict Text TransactionRecord
add_child child none transactions = transactions
add_child child (some parent) transactions = elim (lookup parent transactions) [
  | none ↦ transactions
  | some r ↦
      insert parent (record r { child_transaction_ids = insert child tt r.child_transaction_ids })
        transactions
]

unfoldable pub drop_child :
    Text → Option Text → Dict Text TransactionRecord → Dict Text TransactionRecord
drop_child child none transactions = transactions
drop_child child (some parent) transactions = elim (lookup parent transactions) [
  | none ↦ transactions
  | some r ↦
      insert parent (record r { child_transaction_ids = erase child r.child_transaction_ids })
        transactions
]

abbrev pub is_empty_set : Dict Text (Unit {0}) → Bool
is_empty_set [] = true
is_empty_set (e ∷ set) = false

-- Whether the cache knows of children of the transaction.
unfoldable pub has_children : Text → Dict Text TransactionRecord → Bool
has_children transaction_id transactions = elim (lookup transaction_id transactions) [
  | none ↦ false
  | some r ↦ not (is_empty_set r.child_transaction_ids)
]

module _ (formats : Formats) {S : Type 0} (storage : StorageInterface S) where
  unfoldable pub resolve_transaction : Text → Action S TransactionRecord
  unfolding load_transaction_record_from_storage
  resolve_transaction transaction_id w = elim (lookup transaction_id w.transactions) [
    | some r ↦ (ok r, w)
    | none ↦ elim (load_transaction_record_from_storage formats storage transaction_id w.storage) [
      | failed e ↦ (failed e, w)
      | ok r ↦ (ok r, record w { transactions = insert transaction_id r w.transactions })
    ]
  ]

  -- The commit that a snapshot of a transaction is. A commit is no transaction.
  unfoldable pub snapshot_base : Option Text → S → StatusOr Text
  snapshot_base none s = storage.get_branch_head storage.get_canonical_branch s
  snapshot_base (some parent_id) s = elim (storage.get_branch_head parent_id s) [
    | ok head ↦ ok head
    | failed StatusCode.not_found ↦ elim (storage.commit_exists parent_id s) [
      | ok true ↦ failed StatusCode.invalid_argument
      | ok false ↦ failed StatusCode.not_found
      | failed e ↦ failed StatusCode.not_found
    ]
    | failed e ↦ failed e
  ]

  unfoldable pub create_snapshot : Option Text → Action S Text
  unfolding snapshot_base
  create_snapshot parent_transaction_id = do
    commit_id ← asks (snapshot_base parent_transaction_id)
    λ w. (
      ok commit_id,
      record w {
        snapshot_source_cache = insert commit_id parent_transaction_id w.snapshot_source_cache;
      },
    )

  -- Arguments: the parent snapshot and the parent transaction.
  unfoldable pub resolve_parent : Option Text → Option Text → Action S Parent
  unfolding resolve_transaction
  resolve_parent (some snapshot) (some parent_id) = raise StatusCode.invalid_argument
  resolve_parent none (some parent_id) = do
    head ← asks (λ s. rewrite StatusCode.not_found (storage.get_branch_head parent_id s))
    r ← resolve_transaction parent_id
    return (record {
      resolved_parent_transaction_id = some parent_id;
      resolved_parent_snapshot_id = none;
      depth = (r.depth + 1) % 2 ^ 32;
      base_commit_id = head;
    })
  resolve_parent (some parent_id) none = do
    exists ← asks (storage.commit_exists parent_id)
    _ ← raise_if (not exists) StatusCode.not_found
    return (record {
      resolved_parent_transaction_id = none;
      resolved_parent_snapshot_id = some parent_id;
      depth = 0;
      base_commit_id = parent_id;
    })
  resolve_parent none none = do
    head ← asks (storage.get_branch_head storage.get_canonical_branch)
    return (record {
      resolved_parent_transaction_id = none;
      resolved_parent_snapshot_id = none;
      depth = 0;
      base_commit_id = head;
    })

  abbrev pub record_of : Parent → TransactionRecord
  record_of p = record {
    parent_transaction_id = p.resolved_parent_transaction_id;
    parent_snapshot_id = p.resolved_parent_snapshot_id;
    depth = p.depth;
    child_transaction_ids = [];
  }

  -- The metadata is written; a branch that gets none is deleted again.
  unfoldable pub start_branch : Text → Parent → StatusOr (Unit {0}) → Action S Text
  unfolding add_child
  start_branch branch_name p (failed e) = do
    _ ← ignore (calls (storage.delete_branch branch_name))
    raise e
  start_branch branch_name p (ok _) = λ w. (
    ok branch_name,
    record w {
      transactions =
          add_child branch_name p.resolved_parent_transaction_id
            (insert branch_name (record_of p) w.transactions);
    },
  )

  unfoldable pub create_transaction : Text → Option Text → Option Text → Action S Text
  unfolding resolve_parent start_branch
  create_transaction uuid parent_snapshot_id parent_transaction_id = do
    p ← resolve_parent parent_snapshot_id parent_transaction_id
    _ ← calls (storage.create_branch (codes "txn-" ++ uuid) p.base_commit_id)
    written ← attempt (write_txn_meta formats storage (codes "txn-" ++ uuid) (record_of p))
    start_branch (codes "txn-" ++ uuid) p written

  unfoldable pub remove_transaction_locked : Text → Action S (Unit {0})
  unfolding drop_child
  remove_transaction_locked transaction_id w = elim (lookup transaction_id w.transactions) [
    | none ↦ (failed StatusCode.not_found, w)
    | some r ↦ (
      ok tt,
      record w {
        transactions =
            erase transaction_id (drop_child transaction_id r.parent_transaction_id w.transactions);
      },
    )
  ]

  -- A transaction that the cache does not know counts as removed.
  unfoldable pub forget : Text → Action S (Unit {0})
  unfolding remove_transaction_locked
  forget transaction_id = do
    removed ← attempt (remove_transaction_locked transaction_id)
    elim removed [ ok _ ↦ return tt | failed StatusCode.not_found ↦ return tt | failed e ↦ raise e ]

  unfoldable pub rollback_transaction : Text → Action S (Unit {0})
  unfolding forget has_children
  rollback_transaction transaction_id = do
    exists ← asks (storage.branch_exists transaction_id)
    _ ← raise_if (not exists) StatusCode.not_found
    _ ← λ w. raise_if (has_children transaction_id w.transactions) StatusCode.invalid_argument w
    _ ← calls (storage.delete_branch transaction_id)
    forget transaction_id

  unfoldable pub get_snapshot_metadata : Text → World S → StatusOr SnapshotMetadata
  get_snapshot_metadata snapshot_id w = elim (storage.commit_exists snapshot_id w.storage) [
    | failed e ↦ failed e
    | ok false ↦ failed StatusCode.not_found
    | ok true ↦ ok (record {
      snapshot_id = snapshot_id;
      source_transaction_id = elim (lookup snapshot_id w.snapshot_source_cache) [
        | none ↦ none
        | some source ↦ source
      ];
    })
  ]

  unfoldable pub get_transaction_metadata : Text → World S → StatusOr TransactionMetadata
  unfolding load_transaction_record_from_storage
  get_transaction_metadata transaction_id w = elim (lookup transaction_id w.transactions) [
    | some r ↦ ok (metadata_of transaction_id r)
    | none ↦ elim (load_transaction_record_from_storage formats storage transaction_id w.storage) [
      | failed e ↦ failed e
      | ok r ↦ ok (metadata_of transaction_id r)
    ]
  ]
