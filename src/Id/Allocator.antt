-- ===== src/Id/Allocator.antt =====
-- allocator/bucket_selector.cpp and allocator/super_block_allocator.cpp: a double-buffered
-- allocator of one partition. A method runs under the mutex, as one step on the state. A fetch that
-- `std::async` has launched is `running` until its thread runs (`run_task`), between two calls or
-- within `get()`. `rng` holds the numbers that the generator will yield; `undrawn`, which is no
-- value of the program, says that they ended inside the `do` loop of the selector.
pub mod Monad
pub mod Ranges
pub mod Fetched
pub mod Invariant
pub mod Fetching
pub mod Unique
pub mod History
use artifact_system.Base.{
  ℕ, ◌+◌, ◌/◌, ◌%◌, ◌^◌, Bool, true, false, not, ◌&&◌, Option, none, some, List, [], ◌∷◌, leb, ◌==◌,
  if◌then◌else◌, Dict, lookup, nat_key,
}
use artifact_system.Id.Expected.{Expected, value, unexpected, StoreError}
use artifact_system.Id.Format.{compose_id}
use artifact_system.Id.SuperBlock.{SuperBlock, empty, remaining, is_empty}
use artifact_system.Id.SuperBlock
use artifact_system.Id.Partition.{PartitionConfig, max_bucket_value}
use artifact_system.Id.Store.{BlockStore, or_zero}
use Monad.{
  Stop, failed, undrawn, Pending, invalid, running, ready, State, M, return, throw, lift, ◌>>=◌,
  ◌>>◌,
}

-- `dist(rng_)`
draw_from : List ℕ → {S : Type 0} → M S ℕ
draw_from [] st = (unexpected undrawn, st)
draw_from (d ∷ ds) st = (value d, record st { rng = ds })

-- `do { candidates[1] = dist(rng_); } while (candidates[1] == candidates[0]);`
redraw_from : List ℕ → ℕ → {S : Type 0} → M S ℕ
redraw_from [] first st = (unexpected undrawn, st)
redraw_from (d ∷ ds) first st =
    if d == first then redraw_from ds first st else (value d, record st { rng = ds })

-- `get_count`
get_count : Dict ℕ ℕ → ℕ → ℕ
get_count counts idx = or_zero (lookup idx counts)

module _ {S : Type 0} (store : BlockStore S) (config : PartitionConfig) where
  less_loaded : ℕ → ℕ → M S ℕ
  unfolding get_count
  less_loaded a b st = elim (store.get_bucket_counts config.partition_id (a ∷ b ∷ []) st.store) [
    | unexpected e ↦ (unexpected (failed e), st)
    | value counts ↦ (value (if leb (get_count counts a) (get_count counts b) then a else b), st)
  ]

  -- `BucketSelector::select`
  unfoldable pub select : M S ℕ
  unfolding draw_from redraw_from less_loaded
  select st =
      if config.num_buckets == 1
      then (value 0, st)
      else (do
        a ← λ st1. draw_from st1.rng st1
        b ← λ st2. redraw_from st2.rng a st2
        less_loaded a b)
          st

  super_block_of : ℕ → Expected StoreError ℕ × S → Expected StoreError SuperBlock × S
  super_block_of bucket_index (unexpected e, s) = (unexpected e, s)
  super_block_of bucket_index (value previous_count, s) =
      let first = compose_id bucket_index config.bucket_size_bits previous_count in
      (
        value (record {
          range_start = first;
          range_end =
              compose_id bucket_index config.bucket_size_bits
                ((previous_count + config.super_block_size) % 2 ^ 64);
          next = first;
        }),
        s,
      )

  unfoldable pub fetch_super_block_from : ℕ → S → Expected StoreError SuperBlock × S
  unfolding super_block_of
  fetch_super_block_from bucket_index s = super_block_of bucket_index (
      store.allocate config.partition_id bucket_index config.super_block_size
        (max_bucket_value config) s)

  pub fetch_now : ℕ → M S SuperBlock
  fetch_now bucket_index st =
      let r = fetch_super_block_from bucket_index st.store in (lift r.0, record st { store = r.1 })

  unfoldable pub fetch_super_block : M S SuperBlock
  unfolding fetch_now
  fetch_super_block = do bucket_index ← select; fetch_now bucket_index

  start_prefetch : Expected Stop ℕ × State S → Expected Stop (Unit {0}) × State S
  start_prefetch (value bucket_index, st) =
      (value tt, record st { fetch_in_progress = true; pending_fetch = running bucket_index })
  start_prefetch (unexpected (failed e), st) = (value tt, st)
  start_prefetch (unexpected undrawn, st) = (unexpected undrawn, st)

  unfoldable pub maybe_start_prefetch : M S (Unit {0})
  unfolding start_prefetch
  maybe_start_prefetch st =
      if st.fetch_in_progress
      then (value tt, st)
      else if leb (remaining st.active) (config.super_block_size / 2) && is_empty st.background
      then start_prefetch (select st)
      else (value tt, st)

  harvest : Pending → State S → State S
  harvest (ready (value s)) st = record st {
    background = s;
    pending_fetch = invalid;
    fetch_in_progress = false;
  }
  harvest (ready (unexpected e)) st = record st {
    pending_fetch = invalid;
    fetch_in_progress = false;
  }
  harvest _ st = st

  unfoldable pub try_complete_prefetch : M S (Unit {0})
  unfolding harvest
  try_complete_prefetch st =
      if st.fetch_in_progress then (value tt, harvest st.pending_fetch st) else (value tt, st)

  -- `active_.allocate_block(config_.block_size)`
  carve : M S (Option (ℕ × ℕ))
  carve st =
      let r = SuperBlock.allocate_block st.active config.block_size in
      (value r.1, record st { active = r.0 })

  -- `if (auto block = ...) { maybe_start_prefetch(); return *block; }`
  after_carve : Option (ℕ × ℕ) → M S (Option (ℕ × ℕ))
  after_carve none = return none
  after_carve (some block) = do maybe_start_prefetch; return (some block)

  serve : M S (Option (ℕ × ℕ))
  unfolding carve after_carve
  serve = do block ← carve; after_carve block

  promote : M S (Option (ℕ × ℕ))
  unfolding serve
  promote st =
      if is_empty st.background
      then (value none, st)
      else serve (record st { active = st.background; background = empty })

  -- `pending_fetch_.get()`, which waits for the thread; with no valid future, a fetch at once.
  fetch_pending : Pending → M S SuperBlock
  unfolding fetch_now
  fetch_pending invalid st = fetch_super_block st
  fetch_pending (running bucket_index) st =
      fetch_now bucket_index (record st { pending_fetch = invalid; fetch_in_progress = false })
  fetch_pending (ready r) st =
      (lift r, record st { pending_fetch = invalid; fetch_in_progress = false })

  fetch : M S SuperBlock
  unfolding fetch_pending
  fetch st =
      if st.fetch_in_progress then fetch_pending st.pending_fetch st else fetch_super_block st

  or_exhausted : Option (ℕ × ℕ) → M S (ℕ × ℕ)
  or_exhausted none = throw (failed StoreError.resource_exhausted)
  or_exhausted (some block) = return block

  install : SuperBlock → M S (ℕ × ℕ)
  unfolding serve or_exhausted
  install s st = (do block ← serve; or_exhausted block) (record st { active = s })

  or_fetch : Option (ℕ × ℕ) → M S (ℕ × ℕ)
  unfolding fetch install
  or_fetch (some block) = return block
  or_fetch none = do s ← fetch; install s

  or_promote : Option (ℕ × ℕ) → M S (ℕ × ℕ)
  unfolding promote or_fetch
  or_promote (some block) = return block
  or_promote none = do block ← promote; or_fetch block

  unfoldable pub allocate_block : M S (ℕ × ℕ)
  unfolding try_complete_prefetch serve or_promote
  allocate_block = do try_complete_prefetch; block ← serve; or_promote block

  -- The thread of `std::async`.
  run_pending : Pending → State S → State S
  run_pending (running bucket_index) st =
      let r = fetch_super_block_from bucket_index st.store in
      record st { pending_fetch = ready r.0; store = r.1 }
  run_pending _ st = st

  unfoldable pub run_task : State S → State S
  unfolding run_pending
  run_task st = run_pending st.pending_fetch st
