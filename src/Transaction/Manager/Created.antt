-- ===== src/Transaction/Manager/Created.antt =====
-- CreateTransaction of transaction/transaction_manager.cpp, over the storage in memory.
use artifact_system.Base.{
  ◌+◌, ◌%◌, ◌^◌, ◌<◌, ◌≡◌, refl, sym, ap, ◌∙◌, inl, inr, Option, none, some, [], ◌++◌, Text, codes,
  text_eq, text_eq_iff, text_key, Dict, lookup, contains, insert, lookup-insert, arith, Bool-cases,
  Option-cases,
}
use artifact_system.Storage.Status.{StatusOr, ok, failed, StatusOr-cases}
use artifact_system.Storage.State.{MemoryStorage, BranchData}
use artifact_system.Storage.Memory.{create_branch, base_of, get_branch_head, commit_exists}
use artifact_system.Storage.Invariant.{WellFormed}
use artifact_system.Storage.Interface.{memory_storage}
use artifact_system.Storage.History.Kept.{create_branch-Kept}
use artifact_system.Transaction.Action.{TransactionRecord, World, and_then, return}
use artifact_system.Transaction.Meta.{Formats, write_txn_meta, load_transaction_record_from_storage}
use artifact_system.Transaction.Meta.Written.{FormatLaws, IsLine, childless, write_txn_meta-load}
use artifact_system.Transaction.Manager.{
  Parent, TransactionMetadata, metadata_of, record_of, add_child, resolve_transaction,
  resolve_parent, start_branch, create_transaction, get_transaction_metadata,
}

lookup-add_child :
    (id : Text) (parent : Option Text) (ts : Dict Text TransactionRecord) (r : TransactionRecord)
    → lookup id ts ≡ some r
    → (r' : TransactionRecord) × (lookup id (add_child id parent ts) ≡ some r')
      × (metadata_of id r' ≡ metadata_of id r)
unfolding add_child
lookup-add_child id none ts r found = (r, found, refl)
lookup-add_child id (some parent) ts r found = elim (Option-cases (lookup parent ts)) [
  | inl missing ↦ (r, rw (missing, add_child) found, refl)
  | inr (d, there) ↦
      let d' : TransactionRecord = record d {
        child_transaction_ids = insert id tt d.child_transaction_ids;
      } in
      elim (Bool-cases (text_eq parent id)) [
        | inl same ↦ (
          d',
          rw (there, add_child) (ground (arith, same, lookup-insert parent id d' ts)),
          ground (arith, there, found, (text_eq_iff parent id).0 same),
        )
        | inr other ↦ (
          r,
          rw (there, add_child) (ground (arith, other, found, lookup-insert parent id d' ts)),
          refl,
        )
      ]
]

storage-and_then :
    {A B : Type 0} (r : StatusOr A × World MemoryStorage) (f : A → B)
    → (and_then r (λ a. return (f a))).1.storage ≡ r.1.storage
storage-and_then (ok a, w) f = refl
storage-and_then (failed e, w) f = refl

created_branch :
    (name base x : Text) (s : MemoryStorage)
    → (create_branch name base s).0 ≡ ok x
    → ((b : BranchData) × (lookup name (create_branch name base s).1.branches ≡ some b))
      × ((create_branch name base s).1.next_commit_seq ≡ s.next_commit_seq)
unfolding create_branch
created_branch name base x s h = elim (StatusOr-cases (base_of base s)) [
  | inr (e, refused) ↦ absurd (ground (arith, h, refused))
  | inl (i, based) ↦
      let b : BranchData = record { head_commit_id = i; staging = [] } in
      (
        (b, ground (arith, h, based, text_eq_iff name name, lookup-insert name name b s.branches)),
        ground (arith, h, based),
      )
]

module _ (formats : Formats) (w : World MemoryStorage) where
  pub resolve_transaction-storage :
      (id : Text)
      → (resolve_transaction formats (memory_storage formats.decimal) id w).1.storage ≡ w.storage
  unfolding resolve_transaction
  resolve_transaction-storage id = elim (Option-cases (lookup id w.transactions)) [
    | inr (r, found) ↦ rw (found, resolve_transaction) refl
    | inl missing ↦
        elim (StatusOr-cases (
          load_transaction_record_from_storage formats (memory_storage formats.decimal) id
            w.storage)) [
              | inr (e, h) ↦ rw (missing, h, resolve_transaction) refl
              | inl (r, h) ↦ rw (missing, h, resolve_transaction) refl
            ]
  ]

  -- The parents are those that the call names, and the storage is as it was.
  resolve_parent_lem :
      (ps pt : Option Text) (p : Parent)
      → (resolve_parent formats (memory_storage formats.decimal) ps pt w).0 ≡ ok p
      → (p.resolved_parent_transaction_id ≡ pt)
        × (p.resolved_parent_snapshot_id ≡ ps)
        × (p.depth < 2 ^ 32)
        × ((resolve_parent formats (memory_storage formats.decimal) ps pt w).1.storage ≡ w.storage)
  unfolding resolve_parent commit_exists
  resolve_parent_lem (some a) (some b) p h = absurd (ground (arith, h))
  resolve_parent_lem none (some a) p h = elim (StatusOr-cases (get_branch_head a w.storage)) [
    | inr (e, refused) ↦ absurd (ground (arith, h, refused))
    | inl (head, found) ↦
        elim (StatusOr-cases (resolve_transaction formats (memory_storage formats.decimal) a w).0) [
          | inr (e, refused) ↦ absurd (ground (arith, h, found, refused))
          | inl (r, resolved) ↦
              let q : Parent = record {
                resolved_parent_transaction_id = some a;
                resolved_parent_snapshot_id = none;
                depth = (r.depth + 1) % 2 ^ 32;
                base_commit_id = head;
              } in
              let eq : q ≡ p = ground (arith, h, found, resolved) in
              (
                rw (sym eq) refl,
                rw (sym eq) refl,
                rw (sym eq) (omega arith),
                rw (found, resolve_parent)
                    (storage-and_then
                        (resolve_transaction formats (memory_storage formats.decimal) a w)
                        (λ t. record {
                          resolved_parent_transaction_id = some a;
                          resolved_parent_snapshot_id = none;
                          depth = (t.depth + 1) % 2 ^ 32;
                          base_commit_id = head;
                        })
                      ∙ resolve_transaction-storage a),
              )
        ]
  ]
  resolve_parent_lem (some a) none p h = elim (Bool-cases (contains a w.storage.commits)) [
    | inr absent ↦ absurd (ground (arith, h, absent))
    | inl there ↦
        let q : Parent = record {
          resolved_parent_transaction_id = none;
          resolved_parent_snapshot_id = some a;
          depth = 0;
          base_commit_id = a;
        } in
        let eq : q ≡ p = ground (arith, h, there) in
        (
          rw (sym eq) refl,
          rw (sym eq) refl,
          rw (sym eq) (omega arith),
          rw (there, resolve_parent, commit_exists) refl,
        )
  ]
  resolve_parent_lem none none p h =
      elim (StatusOr-cases
        (get_branch_head (memory_storage formats.decimal).get_canonical_branch w.storage)) [
          | inr (e, refused) ↦ absurd (ground (arith, h, refused))
          | inl (head, found) ↦
              let q : Parent = record {
                resolved_parent_transaction_id = none;
                resolved_parent_snapshot_id = none;
                depth = 0;
                base_commit_id = head;
              } in
              let eq : q ≡ p = ground (arith, h, found) in
              (
                rw (sym eq) refl,
                rw (sym eq) refl,
                rw (sym eq) (omega arith),
                rw (found, resolve_parent) refl,
              )
        ]

other_instance :
    (formats : Formats) (id : Text) (r : TransactionRecord) (s : MemoryStorage)
    → load_transaction_record_from_storage formats (memory_storage formats.decimal) id s ≡ ok r
    → get_transaction_metadata formats
        (memory_storage formats.decimal)
        id
        (record { storage = s; snapshot_source_cache = []; transactions = [] })
      ≡ ok (metadata_of id r)
unfolding get_transaction_metadata lookup
other_instance formats id r s loaded = rw (loaded, get_transaction_metadata) refl

-- Where the formats have their laws, over a well-formed storage in memory with a commit number below
-- the bound of 64 bits, and parents whose ids are no empty texts and have no line breaks: a transaction
-- that is created has the id `txn-` with the generated text, its metadata names exactly the parents of
-- the call, and every other instance, whose caches are empty, gets the same metadata from the storage.
pub create_transaction_shared :
    (formats : Formats) (laws : FormatLaws formats) (uuid : Text) (ps pt : Option Text)
    (w : World MemoryStorage)
    → WellFormed formats.decimal w.storage
    → w.storage.next_commit_seq + 1 < 2 ^ 64
    → IsLine ps
    → IsLine pt
    → (id : Text)
    → (create_transaction formats (memory_storage formats.decimal) uuid ps pt w).0 ≡ ok id
    → let w' = (create_transaction formats (memory_storage formats.decimal) uuid ps pt w).1 in
      (id ≡ codes "txn-" ++ uuid)
      × WellFormed formats.decimal w'.storage
      × ((m : TransactionMetadata) × (m.parent_transaction_id ≡ pt)
          × (m.parent_snapshot_id ≡ ps)
          × (get_transaction_metadata formats (memory_storage formats.decimal) id w' ≡ ok m)
          × (get_transaction_metadata formats
                (memory_storage formats.decimal)
                id
                (record { storage = w'.storage; snapshot_source_cache = []; transactions = [] })
              ≡ ok m))
unfolding create_transaction get_transaction_metadata start_branch
create_transaction_shared formats laws uuid ps pt w wf fits lps lpt id h =
    let mem = memory_storage formats.decimal in
    let name = codes "txn-" ++ uuid in
    elim (StatusOr-cases (resolve_parent formats mem ps pt w).0) [
      | inr (e, refused) ↦ absurd (ground (arith, h, refused))
      | inl (p, resolved) ↦
          let v = (resolve_parent formats mem ps pt w).1 in
          let (ept, eps, small, kept) = resolve_parent_lem formats w ps pt p resolved in
          elim (StatusOr-cases (create_branch name p.base_commit_id v.storage).0) [
            | inr (e, refused) ↦ absurd (ground (arith, h, resolved, refused))
            | inl (x, created) ↦
                let s' = (create_branch name p.base_commit_id v.storage).1 in
                let u : World MemoryStorage = record v { storage = s' } in
                let ((b, found), same_seq) =
                  created_branch name p.base_commit_id x v.storage created in
                let wfv : WellFormed formats.decimal v.storage = rw kept wf in
                let wfu =
                  (create_branch-Kept formats.decimal v.storage wfv name p.base_commit_id).0 in
                let fits' : s'.next_commit_seq + 1 < 2 ^ 64 =
                  omega (arith, same_seq, ap (λ t. t.next_commit_seq) kept) in
                let r = record_of formats mem p in
                let (written, wf', cached, loaded) =
                  write_txn_meta-load formats laws r (rw ept lpt) (rw eps lps) small name u b wfu
                    found fits' in
                let done = write_txn_meta formats mem name r u in
                let ts = insert name r done.1.transactions in
                let (r', known, same_meta) =
                  lookup-add_child name p.resolved_parent_transaction_id ts r (
                    ground (
                      arith,
                      text_eq_iff name name,
                      lookup-insert name name r done.1.transactions,
                    )) in
                let opened : create_transaction formats mem uuid ps pt w ≡ (
                  ok name,
                  record done.1 {
                    transactions = add_child name p.resolved_parent_transaction_id ts;
                  },
                ) =
                  ground (arith, resolved, created, written) in
                let eqid : id ≡ name = ground (arith, h, opened) in
                rw (eqid, opened)
                  (
                    refl,
                    wf',
                    (
                      metadata_of name r,
                      ept,
                      eps,
                      rw (known, get_transaction_metadata) (ap ok same_meta),
                      other_instance formats name (childless r) done.1.storage loaded,
                    ),
                  )
          ]
    ]
