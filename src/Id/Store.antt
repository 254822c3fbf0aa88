-- ===== src/Id/Store.antt =====
-- store/block_store.h: the interface of a counter store, and what its clients rely on.
-- store/memory_store.cpp: its implementation in memory. Each method runs as one step, since it
-- holds the lock of the counters that it touches; the store is passed along explicitly.
pub mod Counters
use artifact_system.Base.{
  ℕ, ◌+◌, ◌%◌, ◌^◌, ◌≤◌, ◌<◌, ◌≡◌, Bool, false, ◌&&◌, ◌||◌, Option, none, some, List, [], ◌∷◌, map,
  ltb, ◌==◌, if◌then◌else◌, Text, text_eq, Dict, lookup, contains, insert, erase, nat_key, text_key,
}
use artifact_system.Id.Expected.{Expected, value, unexpected, StoreError}
use artifact_system.Id.Partition.{PartitionConfig}

-- `class BlockStore`, over the state `S` of the store. A read leaves the state alone.
pub record BlockStore {ℓ} (S : Type ℓ) : Type ℓ where
  pub allocate : Text → ℕ → ℕ → ℕ → S → Expected StoreError ℕ × S
  pub get_bucket_counts : Text → List ℕ → S → Expected StoreError (Dict ℕ ℕ)
  pub save_partition : PartitionConfig → S → Expected StoreError (Unit {0}) × S
  pub get_partition : Text → S → Expected StoreError (Option PartitionConfig)
  pub delete_partition : Text → S → Expected StoreError (Unit {0}) × S
  pub list_partitions : S → Expected StoreError (List PartitionConfig)

-- Whether a bucket is among those asked for.
abbrev pub listed : ℕ → List ℕ → Bool
listed b [] = false
listed b (i ∷ bs) = (i == b) || listed b bs

-- The part of the interface's promise that the allocator relies on, for a view of the counters. The
-- bound says that the sum is a `uint64_t`.
pub record CounterLaws {ℓ} {S : Type ℓ} (store : BlockStore S) (counter : S → Text → ℕ → ℕ)
    : Type ℓ where
  pub granted :
      (p : Text) (b inc limit : ℕ) (s : S) (prev : ℕ)
      → counter s p b + inc < 2 ^ 64
      → (store.allocate p b inc limit s).0 ≡ value prev
      → (prev ≡ counter s p b)
        × (prev + inc ≤ limit)
        × ((q : Text) (j : ℕ)
            → counter (store.allocate p b inc limit s).1 q j
              ≡ (if text_eq p q && (b == j) then prev + inc else counter s q j))
  pub refused :
      (p : Text) (b inc limit : ℕ) (s : S) (e : StoreError)
      → (store.allocate p b inc limit s).0 ≡ unexpected e
      → (q : Text) (j : ℕ) → counter (store.allocate p b inc limit s).1 q j ≡ counter s q j

-- What the comments of the interface promise of `allocate` and `get_bucket_counts`, for a store that
-- is always available and a partition that it has. A sum is again below the bound.
pub record BlockStoreLaws {ℓ} {S : Type ℓ} (store : BlockStore S) (counter : S → Text → ℕ → ℕ)
    : Type ℓ where
  pub counters : CounterLaws store counter
  pub served :
      (p : Text) (b inc limit : ℕ) (s : S) (config : PartitionConfig)
      → store.get_partition p s ≡ value (some config)
      → counter s p b + inc < 2 ^ 64
      → counter s p b + inc ≤ limit
      → (store.allocate p b inc limit s).0 ≡ value (counter s p b)
  pub exhausted :
      (p : Text) (b inc limit : ℕ) (s : S) (config : PartitionConfig)
      → store.get_partition p s ≡ value (some config)
      → counter s p b + inc < 2 ^ 64
      → limit < counter s p b + inc
      → (store.allocate p b inc limit s).0 ≡ unexpected StoreError.resource_exhausted
  pub unknown :
      (p : Text) (b inc limit : ℕ) (s : S)
      → store.get_partition p s ≡ value none
      → (store.allocate p b inc limit s).0 ≡ unexpected StoreError.not_found
  pub counted :
      (p : Text) (bs : List ℕ) (s : S) (counts : Dict ℕ ℕ)
      → store.get_bucket_counts p bs s ≡ value counts
      → (b : ℕ) → lookup b counts ≡ (if listed b bs then some (counter s p b) else none)

-- `MemoryStore::PartitionData`; the map `partitions_` is the whole state.
pub record PartitionData : Type 0 where
  pub config : PartitionConfig
  pub bucket_counters : Dict ℕ ℕ

abbrev pub MemoryStore : Type 0
MemoryStore = Dict Text PartitionData

abbrev pub or_zero : Option ℕ → ℕ
or_zero none = 0
or_zero (some n) = n

-- `data.bucket_counters[bucket_index]` makes an entry of a missing counter, also on the error path.
unfoldable pub allocate_in :
    PartitionData → Text → ℕ → ℕ → ℕ → MemoryStore → Expected StoreError ℕ × MemoryStore
allocate_in d partition_id bucket_index increment max_value s =
    let count = or_zero (lookup bucket_index d.bucket_counters) in
    if ltb max_value ((count + increment) % 2 ^ 64)
    then (
      unexpected StoreError.resource_exhausted,
      insert partition_id
          (record d { bucket_counters = insert bucket_index count d.bucket_counters }) s,
    )
    else (
      value count,
      insert partition_id
          (record d {
            bucket_counters = insert bucket_index ((count + increment) % 2 ^ 64) d.bucket_counters;
          })
          s,
    )

unfoldable pub allocate : Text → ℕ → ℕ → ℕ → MemoryStore → Expected StoreError ℕ × MemoryStore
unfolding allocate_in
allocate partition_id bucket_index increment max_value s = elim (lookup partition_id s) [
  | none ↦ (unexpected StoreError.not_found, s)
  | some d ↦ allocate_in d partition_id bucket_index increment max_value s
]

-- The loop over `bucket_indices`: `result[idx] = ...`.
unfoldable pub counts_of : Dict ℕ ℕ → List ℕ → Dict ℕ ℕ → Dict ℕ ℕ
counts_of counters [] result = result
counts_of counters (idx ∷ rest) result =
    counts_of counters rest (insert idx (or_zero (lookup idx counters)) result)

unfoldable pub get_bucket_counts : Text → List ℕ → MemoryStore → Expected StoreError (Dict ℕ ℕ)
unfolding counts_of
get_bucket_counts partition_id bucket_indices s = elim (lookup partition_id s) [
  | none ↦ unexpected StoreError.not_found
  | some d ↦ value (counts_of d.bucket_counters bucket_indices [])
]

unfoldable pub save_partition :
    PartitionConfig → MemoryStore → Expected StoreError (Unit {0}) × MemoryStore
save_partition config s =
    if contains config.partition_id s
    then (unexpected StoreError.already_exists, s)
    else (value tt, insert config.partition_id (record { config = config; bucket_counters = [] }) s)

unfoldable pub get_partition : Text → MemoryStore → Expected StoreError (Option PartitionConfig)
get_partition partition_id s = elim (lookup partition_id s) [
  | none ↦ value none
  | some d ↦ value (some d.config)
]

unfoldable pub delete_partition : Text → MemoryStore → Expected StoreError (Unit {0}) × MemoryStore
delete_partition partition_id s = (value tt, erase partition_id s)

unfoldable pub list_partitions : MemoryStore → Expected StoreError (List PartitionConfig)
list_partitions s = value (map (λ e. e.1.config) s)

-- `class MemoryStore final : public BlockStore`
abbrev pub memory_store : BlockStore MemoryStore
memory_store = record {
  allocate = allocate;
  get_bucket_counts = get_bucket_counts;
  save_partition = save_partition;
  get_partition = get_partition;
  delete_partition = delete_partition;
  list_partitions = list_partitions;
}
