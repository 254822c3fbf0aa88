-- ===== src/Id/Manager.antt =====
-- partition/partition_manager.cpp, over the interface of the store. A method holds the manager's
-- lock and runs as one step. `make_unique<SuperBlockAllocator>` seeds a generator, so what it will
-- draw is an argument. Destroying an allocator waits for its prefetch; that thread no longer finds
-- the partition in the store, and the model leaves it out.
pub mod Lookup
use artifact_system.Base.{
  ℕ, Bool, true, false, Option, none, some, List, [], ◌∷◌, if◌then◌else◌, Text, text_key, Dict,
  lookup, contains, insert, erase,
}
use artifact_system.Id.Expected.{Expected, value, unexpected, StoreError}
use artifact_system.Id.SuperBlock.{SuperBlock, empty}
use artifact_system.Id.Partition.{PartitionConfig, ConfigError, validate}
use artifact_system.Id.Store.{BlockStore}
use artifact_system.Id.Allocator
use artifact_system.Id.Allocator.Monad.{Stop, failed, undrawn, Pending, invalid, State}

-- `PartitionEntry`: the configuration, and the allocator without the store that all share.
pub record PartitionEntry : Type 0 where
  pub config : PartitionConfig
  pub active : SuperBlock
  pub background : SuperBlock
  pub pending_fetch : Pending
  pub fetch_in_progress : Bool
  pub rng : List ℕ

pub record Manager (S : Type 0) : Type 0 where
  pub store : S
  pub partitions : Dict Text PartitionEntry

unfoldable pub new_entry : PartitionConfig → List ℕ → PartitionEntry
new_entry config rng = record {
  config = config;
  active = empty;
  background = empty;
  pending_fetch = invalid;
  fetch_in_progress = false;
  rng = rng;
}

-- `unordered_map::emplace` leaves an entry that is there.
unfoldable pub emplace :
    PartitionConfig → List ℕ → Dict Text PartitionEntry → Dict Text PartitionEntry
unfolding new_entry
emplace config rng m =
    if contains config.partition_id m
    then m
    else insert config.partition_id (new_entry config rng) m

unfoldable pub emplace_all :
    (Text → List ℕ) → List PartitionConfig → Dict Text PartitionEntry → Dict Text PartitionEntry
unfolding emplace
emplace_all seed [] m = m
emplace_all seed (c ∷ cs) m = emplace_all seed cs (emplace c (seed c.partition_id) m)

unfoldable pub initialize :
    {S : Type 0}
    → BlockStore S
    → (Text → List ℕ)
    → Manager S
    → Expected StoreError (Unit {0}) × Manager S
unfolding emplace_all
initialize store seed m = elim (store.list_partitions m.store) [
  | unexpected e ↦ (unexpected e, m)
  | value configs ↦ (value tt, record m { partitions = emplace_all seed configs m.partitions })
]

saved :
    {S : Type 0}
    → PartitionConfig
    → List ℕ
    → Dict Text PartitionEntry
    → Expected StoreError (Unit {0}) × S
    → Expected StoreError (Unit {0}) × Manager S
unfolding emplace
saved config rng m (unexpected e, s) = (unexpected e, record { store = s; partitions = m })
saved config rng m (value _, s) =
    (value tt, record { store = s; partitions = emplace config rng m })

unfoldable pub create_partition :
    {S : Type 0}
    → BlockStore S
    → PartitionConfig
    → List ℕ
    → Manager S
    → Expected StoreError (Unit {0}) × Manager S
unfolding saved
create_partition store config rng m = elim (validate config) [
  | some e ↦ (unexpected StoreError.invalid_argument, m)
  | none ↦
      if contains config.partition_id m.partitions
      then (unexpected StoreError.already_exists, m)
      else saved config rng m.partitions (store.save_partition config m.store)
]

unfoldable pub get_partition : {S : Type 0} → Text → Manager S → Expected StoreError PartitionConfig
get_partition partition_id m = elim (lookup partition_id m.partitions) [
  | none ↦ unexpected StoreError.not_found
  | some entry ↦ value entry.config
]

deleted :
    {S : Type 0}
    → Text
    → Dict Text PartitionEntry
    → Expected StoreError (Unit {0}) × S
    → Expected StoreError (Unit {0}) × Manager S
deleted partition_id m (unexpected e, s) = (unexpected e, record { store = s; partitions = m })
deleted partition_id m (value _, s) =
    (value tt, record { store = s; partitions = erase partition_id m })

unfoldable pub delete_partition :
    {S : Type 0} → BlockStore S → Text → Manager S → Expected StoreError (Unit {0}) × Manager S
unfolding deleted
delete_partition store partition_id m =
    deleted partition_id m.partitions (store.delete_partition partition_id m.store)

-- The allocator of an entry, at the shared store.
unfoldable pub attach : {S : Type 0} → PartitionEntry → S → State S
attach entry s = record {
  active = entry.active;
  background = entry.background;
  pending_fetch = entry.pending_fetch;
  fetch_in_progress = entry.fetch_in_progress;
  rng = entry.rng;
  store = s;
}

unfoldable pub detach : {S : Type 0} → PartitionConfig → State S → PartitionEntry
detach config st = record {
  config = config;
  active = st.active;
  background = st.background;
  pending_fetch = st.pending_fetch;
  fetch_in_progress = st.fetch_in_progress;
  rng = st.rng;
}

put_back :
    {S : Type 0}
    → Text
    → PartitionConfig
    → Dict Text PartitionEntry
    → Expected Stop (ℕ × ℕ) × State S
    → Expected Stop (ℕ × ℕ) × Manager S
unfolding detach
put_back partition_id config m (r, st) =
    (r, record { store = st.store; partitions = insert partition_id (detach config st) m })

unfoldable pub allocate_block :
    {S : Type 0} → BlockStore S → Text → Manager S → Expected Stop (ℕ × ℕ) × Manager S
unfolding attach put_back
allocate_block store partition_id m = elim (lookup partition_id m.partitions) [
  | none ↦ (unexpected (failed StoreError.not_found), m)
  | some entry ↦
      put_back partition_id entry.config m.partitions
        (Allocator.allocate_block store entry.config (attach entry m.store))
]
