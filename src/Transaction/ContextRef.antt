-- ===== src/Transaction/ContextRef.antt =====
-- transaction/context_ref_resolver.cpp: the ref of the storage that a request reads or writes. What
-- the transaction manager knows of an id is an argument; the payload of a status is its detail.
pub mod Lifecycle
use artifact_system.Base.{◌≡◌, refl, ◌⊎◌, inl, inr, Option, none, some, ◌++◌, Text, codes}
use artifact_system.Storage.Status.{StatusCode, StatusOr, ok, failed}
use artifact_system.Storage.Interface.{StorageInterface}

-- `SnapshotTransactionError::Category`
pub data Category : Type 0 where
  snapshot_not_found transaction_not_found : Category

-- `SnapshotTransactionError`
pub record Detail : Type 0 where
  pub category : Category
  pub description : Text
  pub id : Text

-- `absl::Status` of a failure: its code, and the detail in its payload.
pub record Failure : Type 0 where
  pub status_code : StatusCode
  pub payload : Option Detail

pub data Resolved : Type 0 where
  ref : Text → Resolved
  refused : Failure → Resolved

-- The calls of `TransactionManager`.
pub record TransactionManager {ℓ κ} (M : Type ℓ) (N : Type κ) : Type (ℓ ⊔ κ) where
  pub get_snapshot_metadata : Text → StatusOr M
  pub get_transaction_metadata : Text → StatusOr N

-- `ReadContext`, whose fields are a `oneof`.
pub data ReadContext : Type 0 where
  snapshot_id : Text → ReadContext
  transaction_id : Text → ReadContext
  not_set : ReadContext

unfoldable pub describe : Category → Text → Text
describe Category.snapshot_not_found id = codes "snapshot not found: " ++ id
describe Category.transaction_not_found id = codes "transaction not found: " ++ id

unfoldable pub make_not_found_status : Category → Text → Failure
unfolding describe
make_not_found_status category id = record {
  status_code = StatusCode.not_found;
  payload = some (record { category = category; description = describe category id; id = id });
}

unfoldable pub rewrite_not_found : StatusCode → Category → Text → Failure
unfolding make_not_found_status
rewrite_not_found StatusCode.not_found category id = make_not_found_status category id
rewrite_not_found code category id = record { status_code = code; payload = none }

module _ {ℓ κ} {M : Type ℓ} {N : Type κ} {S : Type 0} (storage : StorageInterface S)
    (manager : TransactionManager M N) where
  unfoldable pub resolve_read_ref : ReadContext → Resolved
  unfolding rewrite_not_found
  resolve_read_ref (snapshot_id id) = elim (manager.get_snapshot_metadata id) [
    | failed code ↦ refused (rewrite_not_found code Category.snapshot_not_found id)
    | ok metadata ↦ ref id
  ]
  resolve_read_ref (transaction_id id) = elim (manager.get_transaction_metadata id) [
    | failed code ↦ refused (rewrite_not_found code Category.transaction_not_found id)
    | ok metadata ↦ ref id
  ]
  resolve_read_ref not_set = ref storage.get_canonical_branch

  unfoldable pub resolve_write_ref : Option Text → Resolved
  unfolding rewrite_not_found
  resolve_write_ref none = ref storage.get_canonical_branch
  resolve_write_ref (some id) = elim (manager.get_transaction_metadata id) [
    | failed code ↦ refused (rewrite_not_found code Category.transaction_not_found id)
    | ok metadata ↦ ref id
  ]
