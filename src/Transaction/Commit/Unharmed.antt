-- ===== src/Transaction/Commit/Unharmed.antt =====
-- What a conflict leaves of a transaction of transaction/transaction_manager.cpp, over the storage in
-- memory.
use artifact_system.Base.{
  ◌+◌, ◌^◌, ◌<◌, ◌≡◌, refl, sym, ap, ◌∙◌, subst, Bool, true, false, none, some, ◌&&◌, if◌then◌else◌,
  Text, codes, text_eq, text_key, arith,
}
use artifact_system.Storage.Status.{ok}
use artifact_system.Storage.State.{MemoryStorage, StagedChange}
use artifact_system.Storage.Memory.{get_object, put_object, delete_object}
use artifact_system.Storage.Memory.Staged.{
  IsBranch, staged_commit, staged_ok, staged_commit_ok, staged_commit-IsBranch,
  staged_commit-WellFormed, staged_commit-read,
}
use artifact_system.Storage.Invariant.{DecimalLaws, WellFormed}
use artifact_system.Storage.Interface.{memory_storage}
use artifact_system.Transaction.Action.{TransactionRecord, World}
use artifact_system.Transaction.Meta.{
  Formats, txn_meta_path, print_record, write_txn_meta, cleanup_txn_meta,
}
use artifact_system.Transaction.Manager.{resolve_transaction}
use artifact_system.Transaction.Manager.Created.{resolve_transaction-storage}
use artifact_system.Transaction.Commit.{
  Options, conflicted, CommitConflictResult, write_record, commit_transaction_impl,
}
use artifact_system.Transaction.Commit.Restored.{Quiet, Between-Quiet}
use artifact_system.Transaction.Commit.Conflicted.{first_attempt, commit_conflict_restored}

abbrev tombstone : StagedChange
tombstone = record { data_of = none }

abbrev text_of : Text → StagedChange
text_of t = record { data_of = some t }

module _ (formats : Formats) (laws : DecimalLaws formats.decimal) (id : Text)
    (v : World MemoryStorage) (wf : WellFormed formats.decimal v.storage)
    (found : IsBranch v.storage id) (fits : v.storage.next_commit_seq + 1 < 2 ^ 64) where
  cleanup_opened : cleanup_txn_meta formats (memory_storage formats.decimal) id v ≡ (
    ok tt,
    record v {
      storage =
          (staged_commit formats.decimal laws v.storage wf id
            (txn_meta_path id)
            (codes "cleanup txn metadata")
            tombstone
            found).1;
    },
  )
  unfolding cleanup_txn_meta delete_object
  cleanup_opened =
      rw
        (
          (staged_ok formats.decimal laws v.storage wf id (txn_meta_path id)
              (codes "cleanup txn metadata") tombstone found).0,
          (staged_commit_ok formats.decimal laws v.storage wf id (txn_meta_path id)
              (codes "cleanup txn metadata") tombstone found fits).0,
          cleanup_txn_meta,
        )
        refl

  write_opened :
      (r : TransactionRecord)
      → write_txn_meta formats (memory_storage formats.decimal) id r v ≡ (
        ok tt,
        record v {
          storage =
              (staged_commit formats.decimal laws v.storage wf id
                (txn_meta_path id)
                (codes "txn metadata")
                (text_of (print_record formats r))
                found).1;
        },
      )
  unfolding write_txn_meta put_object
  write_opened r =
      rw
        (
          (staged_ok formats.decimal laws v.storage wf id (txn_meta_path id) (codes "txn metadata")
              (text_of (print_record formats r)) found).0,
          (staged_commit_ok formats.decimal laws v.storage wf id (txn_meta_path id)
              (codes "txn metadata") (text_of (print_record formats r)) found fits).0,
          write_txn_meta,
        )
        refl

-- The world behind the cleanup and a restore of the metadata.
module _ (formats : Formats) (laws : DecimalLaws formats.decimal) (id : Text)
    (r : TransactionRecord) (v : World MemoryStorage) (wf : WellFormed formats.decimal v.storage)
    (found : IsBranch v.storage id) (fits : v.storage.next_commit_seq + 2 < 2 ^ 64) where
  restored_read :
      (ref q : Text)
      → IsBranch v.storage ref
      → get_object ref q
          (write_txn_meta formats
            (memory_storage formats.decimal)
            id
            r
            (cleanup_txn_meta formats (memory_storage formats.decimal) id v).1).1.storage
        ≡ (if text_eq id ref && text_eq (txn_meta_path id) q
            then ok (print_record formats r)
            else get_object ref q v.storage)
  restored_read ref q known =
      let mem = memory_storage formats.decimal in
      let path = txn_meta_path id in
      let note = codes "cleanup txn metadata" in
      let below : v.storage.next_commit_seq + 1 < 2 ^ 64 = omega arith in
      let first = staged_commit formats.decimal laws v.storage wf id path note tombstone found in
      let (made, seq) =
        staged_commit_ok formats.decimal laws v.storage wf id path note tombstone found below in
      let u : World MemoryStorage = record v { storage = first.1 } in
      let wf' =
        staged_commit-WellFormed formats.decimal laws v.storage wf id path note tombstone found
          below in
      let there =
        staged_commit-IsBranch formats.decimal laws v.storage wf id path note tombstone found in
      let below' : u.storage.next_commit_seq + 1 < 2 ^ 64 = omega (arith, seq) in
      ap (λ x. get_object ref q (write_txn_meta formats mem id r x.1).1.storage)
        (cleanup_opened formats laws id v wf found below)
      ∙ ap (λ x. get_object ref q x.1.storage)
          (write_opened formats laws id u wf' (there id found) below' r)
      ∙ staged_commit-read formats.decimal laws u.storage wf' id path (codes "txn metadata")
          (text_of (print_record formats r)) (there id found) below' ref q (there ref known)
      ∙ ground (
        arith,
        staged_commit-read formats.decimal laws v.storage wf id path note tombstone found below ref
            q known,
      )

write_record_opened :
    (formats : Formats) (options : Options MemoryStorage) (quiet : Quiet options) (flag : Bool)
    (id : Text) (w : World MemoryStorage)
    → write_record formats (memory_storage formats.decimal) options flag id w ≡ (ok tt, w)
unfolding write_record
write_record_opened formats options quiet false id w = refl
write_record_opened formats options quiet true id w = ground (arith, quiet.no_record)

-- Over a well-formed storage in memory with two commit numbers left below the bound of 64 bits, where
-- decimal numerals have their laws, there is no conflict resolver and no commit record, and nothing
-- else runs during a pause: a commit of a transaction that is known with a record, and that ends in a
-- conflict after any number of attempts, leaves the metadata of this record at its path on the branch
-- of the transaction, and every other read of any branch as it was.
pub commit_conflict_unharmed :
    (formats : Formats) (laws : DecimalLaws formats.decimal) (options : Options MemoryStorage)
    (quiet : Quiet options) (flag : Bool) (id : Text) (w v : World MemoryStorage)
    (r : TransactionRecord) (c : CommitConflictResult)
    (resolved : resolve_transaction formats (memory_storage formats.decimal) id w ≡ (ok r, v))
    (wf : WellFormed formats.decimal w.storage) (found : IsBranch w.storage id)
    (fits : w.storage.next_commit_seq + 2 < 2 ^ 64)
    → (commit_transaction_impl formats (memory_storage formats.decimal) options flag id w).0
      ≡ ok (conflicted c)
    → (ref q : Text) → IsBranch w.storage ref
    → get_object ref q
        (commit_transaction_impl formats
          (memory_storage formats.decimal)
          options
          flag
          id
          w).1.storage
      ≡ (if text_eq id ref && text_eq (txn_meta_path id) q
          then ok (print_record formats r)
          else get_object ref q w.storage)
commit_conflict_unharmed formats laws options quiet flag id w v r c resolved wf found fits h ref q
      known =
    let mem = memory_storage formats.decimal in
    let same : w.storage ≡ v.storage =
      sym (resolve_transaction-storage formats w id) ∙ ap (λ x. x.1.storage) resolved in
    let wf' : WellFormed formats.decimal v.storage = subst (WellFormed formats.decimal) same wf in
    let found' : IsBranch v.storage id = subst (λ s. IsBranch s id) same found in
    let known' : IsBranch v.storage ref = subst (λ s. IsBranch s ref) same known in
    let seq : w.storage.next_commit_seq ≡ v.storage.next_commit_seq =
      ap (λ s. s.next_commit_seq) same in
    let (u, between, ended) = commit_conflict_restored formats options flag id w v r c resolved h in
    let first : u ≡ (cleanup_txn_meta formats mem id v).1 =
      Between-Quiet options quiet (first_attempt formats options flag id w v r c resolved) u between
      ∙ ap (λ x. (cleanup_txn_meta formats mem id x.1).1)
          (write_record_opened formats options quiet flag id v) in
    ap (λ x. get_object ref q x.storage) ended
    ∙ ap (λ x. get_object ref q (write_txn_meta formats mem id r x).1.storage) first
    ∙ restored_read formats laws id r v wf' found' (omega (arith, seq)) ref q known'
    ∙ ap
        (λ s.
          if text_eq id ref && text_eq (txn_meta_path id) q
          then ok (print_record formats r)
          else get_object ref q s)
        (sym same)
