-- ===== src/Transaction/Manager/Rollback.antt =====
-- RollbackTransaction of transaction/transaction_manager.cpp, over the storage in memory.
use artifact_system.Base.{
  ℕ, ◌≡◌, refl, ◌⊎◌, inl, inr, Bool, true, false, not, ◌&&◌, Option, none, some, lookup-insert,
  Dict, if◌then◌else◌, Text, text_eq, text_eq_iff, text_key, lookup, contains, erase, lookup-erase,
  arith, Bool-cases, Option-cases,
}
use artifact_system.Storage.Status.{StatusCode, StatusOr, ok, failed}
use artifact_system.Storage.State.{
  MemoryStorage, canonical_branch, resolve_ref_state, resolve_state, committed_objects,
}
use artifact_system.Storage.Memory.{delete_branch, get_branch_head, get_object, branch_exists}
use artifact_system.Storage.Interface.{memory_storage}
use artifact_system.Transaction.Action.{TransactionRecord, World}
use artifact_system.Transaction.Meta.{Formats, load_transaction_record_from_storage}
use artifact_system.Transaction.Manager.{
  has_children, drop_child, remove_transaction_locked, forget, rollback_transaction,
  get_transaction_metadata,
}

abbrev pub is_parent : Option Text → Text → Bool
is_parent none q = false
is_parent (some parent) q = text_eq parent q

abbrev pub without_child : Text → Option TransactionRecord → Option TransactionRecord
without_child id none = none
without_child id (some r) =
    some (record r { child_transaction_ids = erase id r.child_transaction_ids })

lookup-drop_child :
    (id q : Text) (parent : Option Text) (ts : Dict Text TransactionRecord)
    → lookup q (drop_child id parent ts)
      ≡ (if is_parent parent q then without_child id (lookup q ts) else lookup q ts)
unfolding drop_child
lookup-drop_child id q none ts = refl
lookup-drop_child id q (some parent) ts = elim (Option-cases (lookup parent ts)) [
  | inl missing ↦ rw (missing, drop_child) (ground (arith, missing, text_eq_iff parent q))
  | inr (d, there) ↦
      let d' : TransactionRecord = record d {
        child_transaction_ids = erase id d.child_transaction_ids;
      } in
      rw (there, drop_child)
        (ground (arith, there, text_eq_iff parent q, lookup-insert parent q d' ts))
]

module _ (formats : Formats) (decimal : ℕ → Text) (id : Text) (w : World MemoryStorage) where
  abbrev rolled_back : StatusOr (Unit {0}) × World MemoryStorage
  rolled_back = rollback_transaction formats (memory_storage decimal) id w

  -- What the cache has for another transaction: the parent of the removed one loses this child.
  abbrev pub kept_record : Text → Option TransactionRecord
  kept_record q = elim (lookup id w.transactions) [
    | none ↦ lookup q w.transactions
    | some r ↦
        if is_parent r.parent_transaction_id q
        then without_child id (lookup q w.transactions)
        else lookup q w.transactions
  ]

  -- After `forget` the cache does not know the transaction, and the storage is as it was.
  forget_lem :
      (v : World MemoryStorage)
      → let r = forget formats (memory_storage decimal) id v in
        (r.0 ≡ ok tt) × (r.1.storage ≡ v.storage) × (lookup id r.1.transactions ≡ none)
  unfolding forget remove_transaction_locked
  forget_lem v = elim (Option-cases (lookup id v.transactions)) [
    | inl missing ↦ rw (missing, forget, remove_transaction_locked) (refl, refl, missing)
    | inr (r, found) ↦
        rw (found, forget, remove_transaction_locked)
          (
            refl,
            refl,
            ground (
              arith,
              text_eq_iff id id,
              lookup-erase id id (drop_child id r.parent_transaction_id v.transactions),
            ),
          )
  ]

  -- The branch exists, has no children in the cache, and is not the canonical one.
  abbrev pub may_roll_back : Bool
  may_roll_back =
      contains id w.storage.branches
      && (not (has_children id w.transactions) && not (text_eq id canonical_branch))

  abbrev without_branch : World MemoryStorage
  without_branch = record w {
    storage = record w.storage { branches = erase id w.storage.branches };
  }

  delete_branch_opened :
      contains id w.storage.branches ≡ true
      → delete_branch id w.storage ≡ (
          if text_eq id canonical_branch
          then (failed StatusCode.failed_precondition, w.storage)
          else (ok tt, without_branch.storage))
  unfolding delete_branch
  delete_branch_opened present = elim (Bool-cases (text_eq id canonical_branch)) [
    | inl main ↦ rw (main, delete_branch) refl
    | inr other ↦ rw (other, present, delete_branch) refl
  ]

  rollback_opened :
      ((may_roll_back ≡ true)
        × (rolled_back ≡ forget formats (memory_storage decimal) id without_branch))
      ⊎ ((may_roll_back ≡ false) × ((e : StatusCode) × (rolled_back ≡ (failed e, w))))
  unfolding rollback_transaction branch_exists
  rollback_opened = elim (Bool-cases (contains id w.storage.branches)) [
    | inr absent ↦
        inr (rw absent refl, (StatusCode.not_found, rw (absent, rollback_transaction) refl))
    | inl present ↦ elim (Bool-cases (has_children id w.transactions)) [
      | inl parent ↦ inr (
        rw (present, parent) refl,
        (StatusCode.invalid_argument, rw (present, parent, rollback_transaction) refl),
      )
      | inr childless ↦ elim (Bool-cases (text_eq id canonical_branch)) [
        | inl main ↦ inr (
          rw (present, childless, main) refl,
          (
            StatusCode.failed_precondition,
            rw (present, childless, delete_branch_opened present, main, rollback_transaction) refl,
          ),
        )
        | inr other ↦ inl (
          rw (present, childless, other) refl,
          rw (present, childless, delete_branch_opened present, other, rollback_transaction) refl,
        )
      ]
    ]
  ]

forget-record :
    (formats : Formats) (decimal : ℕ → Text) (id q : Text) (v : World MemoryStorage)
    → text_eq id q ≡ false
    → lookup q (forget formats (memory_storage decimal) id v).1.transactions
      ≡ kept_record formats decimal id v q
unfolding forget remove_transaction_locked
forget-record formats decimal id q v other = elim (Option-cases (lookup id v.transactions)) [
  | inl missing ↦ rw (missing, forget, remove_transaction_locked) (ground (arith, missing))
  | inr (r, found) ↦
      rw (found, forget, remove_transaction_locked)
        (ground (
          arith,
          found,
          other,
          lookup-erase id q (drop_child id r.parent_transaction_id v.transactions),
          lookup-drop_child id q r.parent_transaction_id v.transactions,
        ))
]

forget-snapshots :
    (formats : Formats) (decimal : ℕ → Text) (id : Text) (v : World MemoryStorage)
    → (forget formats (memory_storage decimal) id v).1.snapshot_source_cache
      ≡ v.snapshot_source_cache
unfolding forget remove_transaction_locked
forget-snapshots formats decimal id v = elim (Option-cases (lookup id v.transactions)) [
  | inl missing ↦ rw (missing, forget, remove_transaction_locked) refl
  | inr (r, found) ↦ rw (found, forget, remove_transaction_locked) refl
]

-- The removal of a branch is seen at no other ref.
get_object-erase :
    (id ref path : Text) (s : MemoryStorage)
    → text_eq id ref ≡ false
    → get_object ref path (record s { branches = erase id s.branches }) ≡ get_object ref path s
unfolding get_object resolve_ref_state resolve_state committed_objects
get_object-erase id ref path s other =
    let same : lookup ref (erase id s.branches) ≡ lookup ref s.branches =
      ground (arith, other, lookup-erase id ref s.branches) in
    rw (same, get_object, resolve_ref_state) refl

unknown_lem :
    (formats : Formats) (decimal : ℕ → Text) (id : Text) (v : World MemoryStorage)
    → lookup id v.storage.branches ≡ none
    → lookup id v.transactions ≡ none
    → (get_transaction_metadata formats (memory_storage decimal) id v ≡ failed StatusCode.not_found)
      × (get_branch_head id v.storage ≡ failed StatusCode.not_found)
unfolding get_transaction_metadata load_transaction_record_from_storage get_branch_head
unknown_lem formats decimal id v no_branch no_record = (
  rw
      (
        no_record, no_branch, get_transaction_metadata, load_transaction_record_from_storage,
        get_branch_head,
      )
      refl,
  rw (no_branch, get_branch_head) refl,
)

-- Over the storage in memory, a rollback of a branch that exists, of which the cache knows no children
-- and which is not the canonical one, succeeds: the transaction is then found neither by its metadata
-- nor by its branch; every other ref is read as before, and the storage differs in this branch alone;
-- the cache has every other transaction as before, except that the parent loses the child, and the
-- cache of snapshots is as before. Any other rollback fails and leaves storage and caches as they were.
pub rollback_transaction_outcome :
    (formats : Formats) (decimal : ℕ → Text) (id : Text) (w : World MemoryStorage)
    → let r = rollback_transaction formats (memory_storage decimal) id w in
      ((may_roll_back formats decimal id w ≡ true)
        × (r.0 ≡ ok tt)
        × (get_transaction_metadata formats (memory_storage decimal) id r.1
            ≡ failed StatusCode.not_found)
        × (get_branch_head id r.1.storage ≡ failed StatusCode.not_found)
        × ((ref path : Text)
            → text_eq id ref ≡ false
            → get_object ref path r.1.storage ≡ get_object ref path w.storage)
        × (r.1.storage ≡ record w.storage { branches = erase id w.storage.branches })
        × ((q : Text)
            → text_eq id q ≡ false
            → lookup q r.1.transactions ≡ kept_record formats decimal id w q)
        × (r.1.snapshot_source_cache ≡ w.snapshot_source_cache))
      ⊎ ((may_roll_back formats decimal id w ≡ false) × ((e : StatusCode) × (r ≡ (failed e, w))))
rollback_transaction_outcome formats decimal id w = elim (rollback_opened formats decimal id w) [
  | inr refused ↦ inr refused
  | inl (may, opened) ↦
      let v = without_branch formats decimal id w in
      let (done, kept, gone) = forget_lem formats decimal id w v in
      let no_branch : lookup id v.storage.branches ≡ none =
        ground (arith, text_eq_iff id id, lookup-erase id id w.storage.branches) in
      let f = forget formats (memory_storage decimal) id v in
      let unknown = unknown_lem formats decimal id f.1 (rw kept no_branch) gone in
      inl (
        rw opened (
          may,
          done,
          unknown.0,
          unknown.1,
          λ ref path other. rw kept (get_object-erase id ref path w.storage other),
          kept,
          λ q other. forget-record formats decimal id q v other,
          forget-snapshots formats decimal id v,
        ))
]
