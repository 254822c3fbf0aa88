-- ===== src/Id/Allocator/History.antt =====
-- Histories of one allocator: calls, the threads of its prefetches, and what other allocators do to
-- the counters of the same store, in any order.
use artifact_system.Base.{ℕ, ◌+◌, ◌≤◌, ◌<◌, ◌^◌, ◌≡◌, inl, List, [], ◌∷◌, All, All-map, Text, arith}
use artifact_system.Id.Expected.{Expected, value, unexpected}
use artifact_system.Id.SuperBlock.{empty}
use artifact_system.Id.Partition.{PartitionConfig, IsValid}
use artifact_system.Id.Store.{BlockStore, CounterLaws}
use artifact_system.Id.Allocator.{allocate_block, run_task}
use artifact_system.Id.Allocator.Monad.{Stop, State, invalid, Ensures}
use artifact_system.Id.Allocator.Ranges.{Range, Disjoint}
use artifact_system.Id.Allocator.Fetched.{Bounded, Behind, Grows, Behind-Grows}
use artifact_system.Id.Allocator.Invariant.{Inv, owned}
use artifact_system.Id.Allocator.Unique.{Gives, allocate_block-Gives, run_task-Inv}
use mathlib.Core.Bool.{false}

-- The allocator, with the blocks that it has returned so far.
pub record World (S : Type 0) : Type 0 where
  pub given : List Range
  pub state : State S

abbrev pub after : {S : Type 0} → List Range → Expected Stop Range × State S → World S
after given (value r, st) = record { given = r ∷ given; state = st }
after given (unexpected e, st) = record { given = given; state = st }

-- `SuperBlockAllocator(store, config)`
abbrev pub start : {S : Type 0} → List ℕ → S → World S
start rng s = record {
  given = [];
  state = record {
    active = empty;
    background = empty;
    pending_fetch = invalid;
    fetch_in_progress = false;
    rng = rng;
    store = s;
  };
}

module _ {S : Type 0} (counter : S → Text → ℕ → ℕ) (config : PartitionConfig)
    (store : BlockStore S) where
  pub data Step : World S → World S → Type 0 where
    call : (w : World S) → Step w (after w.given (allocate_block store config w.state))
    task : (w : World S) → Step w (record w { state = run_task store config w.state })
    elsewhere :
        (w : World S) (s' : S)
        → Bounded counter config s'
        → Grows counter config (w.state).store s'
        → Step w (record w { state = record (w.state) { store = s' } })

  pub data Reach (w : World S) : World S → Type 0 where
    here : Reach w w
    next : {u x : World S} → Reach w u → Step u x → Reach w x

  -- A block has the configured size and lies below 2 ^ 53.
  abbrev pub IsBlock : Range → Type 0
  IsBlock r = (r.1 ≡ r.0 + config.block_size) × (r.1 ≤ 2 ^ 53)

  record Safe (w : World S) : Type 0 where
    inv : Inv counter config w.given w.state
    blocks : All IsBlock w.given

  module _ (laws : CounterLaws store counter) (v : IsValid config)
      (small : config.super_block_size < 2 ^ 32) where
    after-Safe :
        (given : List Range) (r : Expected Stop Range × State S)
        → All IsBlock given
        → Ensures (Gives counter config store laws v small given) (Inv counter config given) r
        → Safe (after given r)
    after-Safe given (value r, st) b (i, size) = record {
      inv = i;
      blocks = ((size, ((((i.behind.1).1).1).0).0), b);
    }
    after-Safe given (unexpected e, st) b i = record { inv = i; blocks = b }

    Step-Safe : {w u : World S} → Step w u → Safe w → Safe u
    Step-Safe (call w) s =
        after-Safe w.given (allocate_block store config w.state) s.blocks
          (allocate_block-Gives counter config store laws v small w.given w.state s.inv)
    Step-Safe (task w) s = record {
      inv = run_task-Inv counter config store laws v small w.given w.state s.inv;
      blocks = s.blocks;
    }
    Step-Safe (elsewhere w s' b g) s = record {
      inv = record {
        bounded = b;
        disjoint = (s.inv).disjoint;
        behind =
            All-map (Behind-Grows counter config (w.state).store s' g) (owned w.state w.given)
              (s.inv).behind;
        draws = (s.inv).draws;
        launched = (s.inv).launched;
      };
      blocks = s.blocks;
    }

    Reach-Safe : {w u : World S} → Safe w → Reach w u → Safe u
    Reach-Safe s here = s
    Reach-Safe s (next r st) = Step-Safe st (Reach-Safe s r)

    start-Safe :
        (rng : List ℕ) (s : S)
        → All (λ d. d < config.num_buckets) rng
        → Bounded counter config s
        → Safe (start rng s)
    start-Safe rng s d b = record {
      inv = record {
        bounded = b;
        disjoint =
            ((inl (omega arith), (inl (omega arith), tt)), ((inl (omega arith), tt), (tt, tt)));
        behind = (vacant, (vacant, (vacant, tt)));
        draws = d;
        launched = tt;
      };
      blocks = tt;
    }
      where
        vacant : Behind counter config s (0, 0)
        vacant = (omega arith, λ j hj. inl (omega arith))

    -- Whatever the order of calls, prefetch threads and other clients of the store, no two blocks
    -- that the allocator has returned share an ID, and each has the configured size and lies
    -- below 2 ^ 53. It starts with no block, on a store whose counters are within their buckets,
    -- and the generator draws bucket indices.
    pub blocks_distinct :
        (rng : List ℕ) (s : S) (w : World S)
        → All (λ d. d < config.num_buckets) rng
        → Bounded counter config s
        → Reach (start rng s) w
        → Disjoint w.given × All IsBlock w.given
    blocks_distinct rng s w d b r =
        let safe = Reach-Safe (start-Safe rng s d b) r in
        ((((safe.inv).disjoint.1).1).1, safe.blocks)
