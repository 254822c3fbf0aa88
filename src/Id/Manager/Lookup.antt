-- ===== src/Id/Manager/Lookup.antt =====
-- What a client of the manager sees: which partitions there are, and with which configuration.
use artifact_system.Base.{
  ℕ, ◌≡◌, List, if◌then◌else◌, Text, text_eq, text_eq_iff, text_key, lookup-insert, lookup-erase,
  arith,
}
use artifact_system.Id.Expected.{value, unexpected, StoreError}
use artifact_system.Id.Partition.{PartitionConfig}
use artifact_system.Id.Store.{BlockStore}
use artifact_system.Id.Manager.{
  Manager, create_partition, get_partition, delete_partition, new_entry,
}

module _ {S : Type 0} (store : BlockStore S) (m : Manager S) where
  -- A partition that was created is found with its configuration, and no other is touched.
  pub get-create_partition :
      (config : PartitionConfig) (rng : List ℕ) (q : Text)
      → (create_partition store config rng m).0 ≡ value tt
      → get_partition q (create_partition store config rng m).1
        ≡ (if text_eq config.partition_id q then value config else get_partition q m)
  unfolding create_partition get_partition
  get-create_partition config rng q h = ground (
    arith,
    h,
    text_eq_iff config.partition_id q,
    lookup-insert config.partition_id q (new_entry config rng) m.partitions,
  )

  -- After a deletion the partition is not found, and no other is touched.
  pub get-delete_partition :
      (p q : Text)
      → (delete_partition store p m).0 ≡ value tt
      → get_partition q (delete_partition store p m).1
        ≡ (if text_eq p q then unexpected StoreError.not_found else get_partition q m)
  unfolding delete_partition get_partition
  get-delete_partition p q h = ground (arith, h, text_eq_iff p q, lookup-erase p q m.partitions)
