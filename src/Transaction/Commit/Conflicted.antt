-- ===== src/Transaction/Commit/Conflicted.antt =====
-- CommitTransactionImpl of transaction/transaction_manager.cpp, where it ends in a conflict: with any
-- resolver, any commit record and any pauses, over the storage in memory.
use artifact_system.Base.{
  ◌==◌, ◌≡◌, sym, ap, ◌∙◌, inl, inr, Bool, Text, text_key, arith, Bool-cases,
}
use artifact_system.Storage.Status.{StatusCode, ok, StatusOr-cases}
use artifact_system.Storage.State.{MemoryStorage}
use artifact_system.Storage.Interface.{memory_storage}
use artifact_system.Transaction.Action.{TransactionRecord, World}
use artifact_system.Transaction.Meta.{Formats, write_txn_meta, cleanup_txn_meta}
use artifact_system.Transaction.Manager.{is_empty_set, resolve_transaction}
use artifact_system.Transaction.Commit.{
  Options, conflicted, CommitConflictResult, commit_loop, target_of, write_record,
  commit_transaction_impl,
}
use artifact_system.Transaction.Commit.Restored.{Between, here, loop-Restores}

module _ (formats : Formats) (options : Options MemoryStorage) (flag : Bool) (id : Text)
    (w v : World MemoryStorage) (r : TransactionRecord) (c : CommitConflictResult)
    (resolved : resolve_transaction formats (memory_storage formats.decimal) id w ≡ (ok r, v)) where
  -- The world in which the first merge is tried: the commit record is written, the metadata removed.
  abbrev pub first_attempt : World MemoryStorage
  first_attempt =
      let mem = memory_storage formats.decimal in
      (cleanup_txn_meta formats mem id (write_record formats mem options flag id v).1).1

  -- A commit that ends in a conflict has passed the guards, and its result is that of the loop.
  conflict_opened :
      (commit_transaction_impl formats (memory_storage formats.decimal) options flag id w).0
        ≡ ok (conflicted c)
      → (target : Text) × (commit_transaction_impl formats
            (memory_storage formats.decimal)
            options
            flag
            id
            w
          ≡ commit_loop formats
              (memory_storage formats.decimal)
              options
              id
              target
              r
              StatusCode.internal
              options.max_attempts
              1
              first_attempt)
  unfolding commit_transaction_impl
  conflict_opened h =
      let mem = memory_storage formats.decimal in
      let recorded = write_record formats mem options flag id v in
      elim (Bool-cases (is_empty_set r.child_transaction_ids)) [
        | inr children ↦ absurd (ground (arith, h, resolved, children))
        | inl childless ↦ elim (Bool-cases (options.max_attempts == 0)) [
          | inl never ↦ absurd (ground (arith, h, resolved, childless, never))
          | inr positive ↦ elim (StatusOr-cases (target_of formats mem options r v.storage)) [
            | inr (e, refused) ↦ absurd (ground (arith, h, resolved, childless, positive, refused))
            | inl (target, known) ↦ elim (StatusOr-cases recorded.0) [
              | inr (e, unwritten) ↦
                  absurd (ground (arith, h, resolved, childless, positive, known, unwritten))
              | inl (_, written) ↦
                  elim (StatusOr-cases (cleanup_txn_meta formats mem id recorded.1).0) [
                    | inr (e, kept) ↦
                        absurd
                          (ground (arith, h, resolved, childless, positive, known, written, kept))
                    | inl (_, cleaned) ↦ (
                      target,
                      ground (arith, resolved, childless, positive, known, written, cleaned),
                    )
                  ]
            ]
          ]
        ]
      ]

  -- Over the storage in memory, with any options: where a commit of a transaction that is known with a
  -- record ends in a conflict, after any number of attempts, the merges have changed nothing. From
  -- the world of the first attempt, in which the commit record is written and the metadata removed,
  -- only the pauses between the attempts and the resolver lead on, and last the metadata of this record
  -- is written back.
  pub commit_conflict_restored :
      (commit_transaction_impl formats (memory_storage formats.decimal) options flag id w).0
        ≡ ok (conflicted c)
      → (u : World MemoryStorage) × Between options first_attempt u
        × ((commit_transaction_impl formats (memory_storage formats.decimal) options flag id w).1
            ≡ (write_txn_meta formats (memory_storage formats.decimal) id r u).1)
  commit_conflict_restored h =
      let (target, opened) = conflict_opened h in
      let (u, between, ended) =
        loop-Restores formats options id target r c first_attempt StatusCode.internal
          options.max_attempts 1 first_attempt here (sym (ap (λ x. x.0) opened) ∙ h) in
      (u, between, ap (λ x. x.1) opened ∙ ended)
