-- ===== src/Transaction/Meta.antt =====
-- transaction/transaction_manager.cpp: the metadata that a transaction keeps on its branch. absl's
-- decimal numerals, its StrSplit at a character and its SimpleAtoi are arguments.
pub mod Written
use artifact_system.Base.{ℕ, Option, none, some, List, [], ◌∷◌, ◌++◌, Text, codes}
use artifact_system.Storage.Status.{StatusCode, StatusOr, ok, failed}
use artifact_system.Storage.State.{is_empty}
use artifact_system.Storage.Interface.{StorageInterface}
use artifact_system.Transaction.Action.{
  TransactionRecord, Action, ◌>>=◌, ◌>>◌, return, raise, rewrite, asks, calls,
}

pub record Formats : Type 0 where
  pub decimal : ℕ → Text
  pub split_at : ℕ → Text → List Text
  pub parse_uint32 : Text → Option ℕ

unfoldable pub txn_meta_path : Text → Text
txn_meta_path transaction_id = codes "_txn_meta/" ++ transaction_id

unfoldable pub value_or_empty : Option Text → Text
value_or_empty none = []
value_or_empty (some t) = t

unfoldable pub non_empty : Text → Option Text
non_empty [] = none
non_empty (c ∷ t) = some (c ∷ t)

module _ (formats : Formats) where
  unfoldable pub print_record : TransactionRecord → Text
  unfolding value_or_empty
  print_record r =
      value_or_empty r.parent_transaction_id
      ++ (10 ∷ (value_or_empty r.parent_snapshot_id ++ (10 ∷ formats.decimal r.depth)))

  unfoldable pub parse_lines : List Text → StatusOr TransactionRecord
  unfolding non_empty
  parse_lines (parent_transaction ∷ parent_snapshot ∷ depth ∷ more) =
      elim (formats.parse_uint32 depth) [
        | none ↦ failed StatusCode.internal
        | some n ↦ ok (record {
          parent_transaction_id = non_empty parent_transaction;
          parent_snapshot_id = non_empty parent_snapshot;
          depth = n;
          child_transaction_ids = [];
        })
      ]
  parse_lines [] = failed StatusCode.internal
  parse_lines (a ∷ []) = failed StatusCode.internal
  parse_lines (a ∷ b ∷ []) = failed StatusCode.internal

  module _ {S : Type 0} (storage : StorageInterface S) where
    unfoldable pub write_txn_meta : Text → TransactionRecord → Action S (Unit {0})
    unfolding print_record txn_meta_path
    write_txn_meta branch r = do
      _ ← calls (storage.put_object branch (txn_meta_path branch) (print_record r))
      _ ← calls (storage.commit branch (codes "txn metadata"))
      return tt

    unfoldable pub load_txn_meta : Text → S → StatusOr TransactionRecord
    unfolding parse_lines txn_meta_path
    load_txn_meta branch s = elim (storage.get_object branch (txn_meta_path branch) s) [
      | failed e ↦ failed e
      | ok text ↦ parse_lines (formats.split_at 10 text)
    ]

    unfoldable pub cleanup_txn_meta : Text → Action S (Unit {0})
    unfolding txn_meta_path
    cleanup_txn_meta branch = do
      _ ← calls (storage.delete_object branch (txn_meta_path branch))
      _ ← calls (storage.commit branch (codes "cleanup txn metadata"))
      return tt

    unfoldable pub load_transaction_record_from_storage : Text → S → StatusOr TransactionRecord
    unfolding load_txn_meta
    load_transaction_record_from_storage transaction_id s =
        elim (storage.get_branch_head transaction_id s) [
          | failed e ↦ rewrite StatusCode.not_found (failed e)
          | ok head ↦ rewrite StatusCode.failed_precondition (load_txn_meta transaction_id s)
        ]
