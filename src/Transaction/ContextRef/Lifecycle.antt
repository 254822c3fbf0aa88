-- ===== src/Transaction/ContextRef/Lifecycle.antt =====
-- The refs of transaction/context_ref_resolver.cpp over the manager of transaction_manager.cpp, as the
-- services of the artifact layer compose them.
use artifact_system.Base.{◌≡◌, some, Text}
use artifact_system.Storage.State.{MemoryStorage}
use artifact_system.Storage.Interface.{StorageInterface, memory_storage}
use artifact_system.Transaction.Action.{World}
use artifact_system.Transaction.Meta.{Formats}
use artifact_system.Transaction.Manager.{
  SnapshotMetadata, TransactionMetadata, get_snapshot_metadata, get_transaction_metadata,
}
use artifact_system.Transaction.ContextRef.{
  Resolved, TransactionManager, transaction_id, resolve_read_ref, resolve_write_ref,
}

-- The manager, as it is in a world.
abbrev pub manager_at :
    {S : Type 0}
    → Formats
    → StorageInterface S
    → World S
    → TransactionManager SnapshotMetadata TransactionMetadata
manager_at formats storage w = record {
  get_snapshot_metadata = λ id. get_snapshot_metadata formats storage id w;
  get_transaction_metadata = λ id. get_transaction_metadata formats storage id w;
}

module _ (formats : Formats) (id : Text) (w : World MemoryStorage) where
  -- A transaction's ref, for a read in its context and for a write.
  abbrev pub Resolves : Resolved → Type 0
  Resolves r =
      let mem = memory_storage formats.decimal in
      (resolve_read_ref mem (manager_at formats mem w) (transaction_id id) ≡ r)
      × (resolve_write_ref mem (manager_at formats mem w) (some id) ≡ r)
