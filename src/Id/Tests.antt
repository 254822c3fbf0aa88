-- ===== src/Id/Tests.antt =====
-- Concrete runs of the ID allocator, and its theorems at concrete inputs.
use artifact_system.Base.{
  ℕ, zero, suc, ◌<◌, ◌≡◌, refl, ◌⊎◌, ◌^◌, true, insert, none, List, [], ◌∷◌, ◌++◌, All, codes,
  text_key, nat_key, lookup, contains, arith,
}
use artifact_system.Id.Expected.{Expected, value, unexpected, StoreError}
use artifact_system.Id.Format.{compose_id, extract_bucket_index, extract_counter}
use artifact_system.Id.Partition.{
  PartitionConfig, max_bucket_value, validate, IsValid, validate-IsValid, compose_id-validate,
}
use artifact_system.Id.Store.{MemoryStore, memory_store}
use artifact_system.Id.Store
use artifact_system.Id.Store.Counters.{counter, memory_store-CounterLaws}
use artifact_system.Id.Allocator.{
  allocate_block, maybe_start_prefetch, fetch_super_block, select, fetch_super_block_from,
}
use artifact_system.Id.Allocator.Fetched.{Bounded}
use artifact_system.Id.SuperBlock
use artifact_system.Id.Manager.{Manager}
use artifact_system.Id.Manager
use artifact_system.Id.Manager.Lookup.{get-create_partition, get-delete_partition}
use artifact_system.Id.Client.Retry.{retry_with_backoff, retry_with_backoff_first}
use artifact_system.Id.Client.Buffer.{Buffer, Thread, allocate_id, prefetch_worker}
use artifact_system.Id.Client.Block.{Thrown, has_id, remaining}
use artifact_system.Id.Client.Block
use artifact_system.Id.Client.Queue
use artifact_system.Id.Client.Queue.{pending_ids, Takes, allocate_id-Takes}
use artifact_system.Id.Client.History.{Event, take, arrive, run, brought, run_fifo}
use artifact_system.Id.Allocator.Ranges.{Disjoint}
use artifact_system.Id.Allocator.History.{
  World, start, after, Step, Reach, IsBlock, blocks_distinct,
}

-- Two buckets of 16 IDs, fetched by eights and given away by fours.
abbrev small_config : PartitionConfig
small_config = record {
  partition_id = codes "p";
  num_buckets = 2;
  bucket_size_bits = 4;
  super_block_size = 8;
  block_size = 4;
}

abbrev small_store : MemoryStore
small_store = (codes "p", record { config = small_config; bucket_counters = [] }) ∷ []

abbrev draws : List ℕ
draws = 1 ∷ 1 ∷ 0 ∷ 0 ∷ 1 ∷ 0 ∷ 1 ∷ []

small_config_accepted : validate small_config ≡ none
unfolding validate
small_config_accepted = refl

small_config-IsValid : IsValid small_config
small_config-IsValid = (validate-IsValid small_config).0 small_config_accepted

validate-IsValid_example : IsValid small_config
validate-IsValid_example = (validate-IsValid small_config).0 small_config_accepted

compose_id-validate_example :
    (compose_id 1 4 7 < 2 ^ 53)
    × (extract_bucket_index (compose_id 1 4 7) 4 ≡ 1)
    × (extract_counter (compose_id 1 4 7) 4 ≡ 7)
compose_id-validate_example =
    compose_id-validate small_config 1 7 small_config_accepted (omega arith) (omega arith)
      (omega arith)

first_id : compose_id 1 4 7 ≡ 23
unfolding compose_id
first_id = refl

small_store-Bounded : Bounded counter small_config small_store
unfolding lookup
small_store-Bounded j = omega arith

-- The world after one call.
abbrev called : World MemoryStore
called = after [] (allocate_block memory_store small_config (start draws small_store).state)

first_block : called.given ≡ (16, 20) ∷ []
unfolding allocate_block maybe_start_prefetch fetch_super_block select fetch_super_block_from
    compose_id max_bucket_value SuperBlock.is_empty SuperBlock.remaining SuperBlock.allocate_block
    lookup insert Store.allocate Store.get_bucket_counts
first_block = refl

blocks_distinct_example :
    Disjoint called.given × All (IsBlock counter small_config memory_store) called.given
blocks_distinct_example =
    blocks_distinct counter small_config memory_store memory_store-CounterLaws small_config-IsValid
      (omega arith) draws small_store called (omega arith) small_store-Bounded
      (Reach.next Reach.here (Step.call (start draws small_store)))

-- The manager of an empty store.
abbrev no_partitions : Manager MemoryStore
no_partitions = record { store = []; partitions = [] }

abbrev one_partition : Manager MemoryStore
one_partition = (Manager.create_partition memory_store small_config draws no_partitions).1

get-create_partition_example : Manager.get_partition (codes "p") one_partition ≡ value small_config
unfolding Manager.create_partition validate contains Store.save_partition
get-create_partition_example =
    get-create_partition memory_store no_partitions small_config draws (codes "p") refl

get-delete_partition_example :
    Manager.get_partition
      (codes "p")
      (Manager.delete_partition memory_store (codes "p") one_partition).1
    ≡ unexpected StoreError.not_found
unfolding Manager.delete_partition Store.delete_partition
get-delete_partition_example =
    get-delete_partition memory_store one_partition (codes "p") (codes "p") refl

-- The first two attempts fail.
abbrev third_time : ℕ → Expected ℕ ℕ
third_time zero = unexpected 14
third_time (suc zero) = unexpected 8
third_time (suc (suc n)) = value n

retry_with_backoff_first_example : retry_with_backoff third_time 5 ≡ value 0
retry_with_backoff_first_example =
    (retry_with_backoff_first third_time 5 2 (omega arith) fails).0 0 refl
  where
    fails : (j : ℕ) → j < 2 → (e : ℕ) × (third_time j ≡ unexpected e)
    fails zero h = (14, refl)
    fails (suc zero) h = (8, refl)
    fails (suc (suc j)) h = absurd (omega arith)

-- A buffer with two IDs in front, whose prefetch is under way.
abbrev two_left : Buffer
two_left = record {
  high_water_mark = 4;
  front = record { range_start = 10; range_end = 12 };
  back = record { range_start = 0; range_end = 0 };
  fetch_in_progress = true;
  prefetch_thread = Thread.fetching;
}

two_left-Inv : Queue.Inv two_left
unfolding has_id
two_left-Inv = record {
  front_small = omega arith;
  back_small = omega arith;
  awaited = λ _. refl;
  noted = λ _. refl;
}

abbrev traffic : List Event
traffic = take ∷ arrive (value (40, 42)) ∷ take ∷ take ∷ []

run_fifo_example :
    (run traffic two_left).0 ++ pending_ids (run traffic two_left).1
    ≡ 10 ∷ 11 ∷ brought traffic two_left
run_fifo_example = run_fifo traffic two_left two_left-Inv (tt, (omega arith, (tt, (tt, tt))))

traffic_ids : (run traffic two_left).0 ≡ 10 ∷ 11 ∷ 40 ∷ []
unfolding run allocate_id prefetch_worker Block.allocate_id has_id remaining Block.fill
traffic_ids = refl

allocate_id-Takes_example :
    Takes two_left (allocate_id two_left)
    ⊎ ((pending_ids two_left ≡ [])
        × (allocate_id two_left ≡ (unexpected Thrown.pool_depleted, two_left)))
allocate_id-Takes_example = allocate_id-Takes two_left two_left-Inv
