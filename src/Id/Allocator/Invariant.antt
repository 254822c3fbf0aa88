-- ===== src/Id/Allocator/Invariant.antt =====
-- The invariant of an allocator: the ranges that it holds and those it has given away do not
-- overlap, and lie in the parts of the buckets that the counters have passed.
use artifact_system.Base.{ℕ, ◌<◌, List, ◌∷◌, All, Text}
use artifact_system.Id.Expected.{value, unexpected}
use artifact_system.Id.Partition.{PartitionConfig}
use artifact_system.Id.Allocator.Monad.{State, Pending, invalid, running, ready}
use artifact_system.Id.Allocator.Ranges.{Range, Disjoint, nothing}
use artifact_system.Id.Allocator.Fetched.{rest, Bounded, Behind}

-- The range that a pending fetch has reserved.
abbrev pub pend : Pending → Range
pend (ready (value s)) = rest s
pend (ready (unexpected e)) = nothing
pend invalid = nothing
pend (running b) = nothing

module _ {S : Type 0} where
  abbrev pub owned : State S → List Range → List Range
  owned st given = rest st.active ∷ rest st.background ∷ pend st.pending_fetch ∷ given

module _ {S : Type 0} (counter : S → Text → ℕ → ℕ) (config : PartitionConfig) where
  abbrev pub Launched : Pending → Type 0
  Launched (running b) = b < config.num_buckets
  Launched invalid = Unit
  Launched (ready r) = Unit

  pub record Inv (given : List Range) (st : State S) : Type 0 where
    pub bounded : Bounded counter config st.store
    pub disjoint : Disjoint (owned st given)
    pub behind : All (Behind counter config st.store) (owned st given)
    pub draws : All (λ d. d < config.num_buckets) st.rng
    pub launched : Launched st.pending_fetch
