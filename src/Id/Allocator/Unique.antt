-- ===== src/Id/Allocator/Unique.antt =====
-- The invariant over the methods of the allocator, with the block that each returns given away.
use artifact_system.Base.{
  ℕ, ◌+◌, ◌^◌, ◌≤◌, ◌<◌, ◌≡◌, refl, subst, ◌⊎◌, inl, inr, false, Option, none, some, List, ◌∷◌, All,
  Text, arith, Bool-cases, if_both,
}
use artifact_system.Id.Expected.{value, unexpected}
use artifact_system.Id.SuperBlock.{SuperBlock, empty, remaining, is_empty}
use artifact_system.Id.SuperBlock
use artifact_system.Id.Partition.{PartitionConfig, IsValid}
use artifact_system.Id.Store.{BlockStore, CounterLaws}
use artifact_system.Id.Allocator.{
  fetch_super_block_from, fetch_super_block, maybe_start_prefetch, try_complete_prefetch, carve,
  after_carve, serve, promote, fetch_pending, fetch, or_exhausted, or_fetch, or_promote,
  allocate_block, run_pending, run_task,
}
use artifact_system.Id.Allocator.Monad.{
  Pending, invalid, running, ready, State, Ensures, Ensures-bind, Ensures-weaken,
}
use artifact_system.Id.Allocator.Ranges.{
  Range, carve-Disjoint, promote-Disjoint, forget-Disjoint, take_pending-Disjoint, drop-Disjoint,
}
use artifact_system.Id.Allocator.Fetched.{rest, Behind, fetch_super_block_from_lem}
use artifact_system.Id.Allocator.Invariant.{Inv, pend, Launched}
use artifact_system.Id.Allocator.Fetching.{
  WithActive, nothing-Behind, fetched-ready, fetch_now-WithActive, fetch_super_block-WithActive,
  maybe_start_prefetch-Inv, try_complete_prefetch-Inv,
}

-- A super block either has too few IDs and stays, or gives its next `k`.
allocate_block-cases :
    (s : SuperBlock) (k : ℕ)
    → 0 < k
    → s.range_end ≤ 2 ^ 53
    → (SuperBlock.allocate_block s k ≡ (s, none))
      ⊎ ((s.next + k ≤ s.range_end)
          × (SuperBlock.allocate_block s k
              ≡ (record s { next = s.next + k }, some (s.next, s.next + k))))
unfolding SuperBlock.allocate_block
allocate_block-cases s k pos top = ground arith

module _ {S : Type 0} (counter : S → Text → ℕ → ℕ) (config : PartitionConfig) (store : BlockStore S)
    (laws : CounterLaws store counter) (v : IsValid config)
    (small : config.super_block_size < 2 ^ 32) where
  -- The block of a call, if any, is given away, and has the configured size.
  abbrev Given : List Range → Option Range → State S → Type 0
  Given given none st = Inv counter config given st
  Given given (some r) st = Inv counter config (r ∷ given) st × (r.1 ≡ r.0 + config.block_size)

  abbrev pub Gives : List Range → Range → State S → Type 0
  Gives given r st = Inv counter config (r ∷ given) st × (r.1 ≡ r.0 + config.block_size)

  module _ (given : List Range) where
    -- An error after a block was carved loses the block, and nothing else.
    drop-Inv :
        (r : Range) (st : State S) → Inv counter config (r ∷ given) st → Inv counter config given st
    drop-Inv r st i = record {
      bounded = i.bounded;
      disjoint =
          drop-Disjoint (rest st.active) (rest st.background) (pend st.pending_fetch) r given
            i.disjoint;
      behind = (i.behind.0, ((i.behind.1).0, (((i.behind.1).1).0, (((i.behind.1).1).1).1)));
      draws = i.draws;
      launched = i.launched;
    }

    part-Behind :
        (lo hi n e : ℕ) (s : S)
        → n ≤ lo
        → hi ≤ e
        → Behind counter config s (n, e)
        → Behind counter config s (lo, hi)
    part-Behind lo hi n e s h k b = (omega arith, λ j hj. ground (arith, b.1 j hj))

    carve-Given :
        (st : State S)
        → Inv counter config given st
        → Ensures (Given given) (Inv counter config given) (carve store config st)
    unfolding carve
    carve-Given st i =
        elim (allocate_block-cases st.active config.block_size v.block_pos (i.behind.0).0) [
          | inl few ↦ rw few i
          | inr (fits, block) ↦ rw block (
            record {
              bounded = i.bounded;
              disjoint =
                  carve-Disjoint st.active.next st.active.range_end config.block_size
                    (rest st.background) (pend st.pending_fetch) given fits i.disjoint;
              behind =
                  let (a, (b, (p, g))) = i.behind in
                  (
                    part-Behind (st.active.next + config.block_size) st.active.range_end
                        st.active.next st.active.range_end st.store (omega arith) (omega arith) a,
                    (
                      b,
                      (
                        p,
                        (
                          part-Behind st.active.next (st.active.next + config.block_size)
                              st.active.next st.active.range_end st.store (omega arith) fits a,
                          g,
                        ),
                      ),
                    ),
                  );
              draws = i.draws;
              launched = i.launched;
            },
            refl,
          )
        ]

    serve-Given :
        (st : State S)
        → Inv counter config given st
        → Ensures (Given given) (Inv counter config given) (serve store config st)
    unfolding serve
    serve-Given st i =
        Ensures-bind (Given given) (Given given) (Inv counter config given) (carve store config st)
          _ (carve-Given st i) after_carve-Given
      where
        after_carve-Given :
            (block : Option Range) (st1 : State S)
            → Given given block st1
            → Ensures (Given given) (Inv counter config given) (after_carve store config block st1)
        after_carve-Given none st1 h = h
        after_carve-Given (some r) st1 h =
            Ensures-bind (λ _ st2. Given given (some r) st2) (Given given)
              (Inv counter config given) (maybe_start_prefetch store config st1) _
              (Ensures-weaken (λ _ st2. Inv counter config (r ∷ given) st2)
                (λ _ st2. Given given (some r) st2) (Inv counter config (r ∷ given))
                (Inv counter config given) (maybe_start_prefetch store config st1)
                (λ _ st2 k. (k, h.1)) (λ st2 k. drop-Inv r st2 k)
                (maybe_start_prefetch-Inv counter config store laws v small (r ∷ given) st1 h.0))
              (λ _ st2 k. k)

    promote-Given :
        (st : State S)
        → Inv counter config given st
        → Ensures (Given given) (Inv counter config given) (promote store config st)
    unfolding promote
    promote-Given st i = elim (Bool-cases (is_empty st.background)) [
      | inl vacant ↦ rw vacant i
      | inr filled ↦ rw filled (
          serve-Given (record st { active = st.background; background = empty })
            (record {
              bounded = i.bounded;
              disjoint =
                  promote-Disjoint (rest st.active) (rest st.background) (pend st.pending_fetch)
                    given i.disjoint;
              behind =
                  let (a, (b, (p, g))) = i.behind in
                  (b, (nothing-Behind counter config store laws v small given st.store, (p, g)));
              draws = i.draws;
              launched = i.launched;
            }))
    ]

    -- The pending range, or none, with the future gone.
    forget :
        (st : State S)
        → Inv counter config given st
        → Inv counter config given
            (record st { pending_fetch = invalid; fetch_in_progress = false })
    forget st i = record {
      bounded = i.bounded;
      disjoint =
          forget-Disjoint (rest st.active) (rest st.background) (pend st.pending_fetch) given
            i.disjoint;
      behind =
          let (a, (b, (p, g))) = i.behind in
          (a, (b, (nothing-Behind counter config store laws v small given st.store, g)));
      draws = i.draws;
      launched = tt;
    }

    fetch_pending-WithActive :
        (p : Pending) (st : State S)
        → st.pending_fetch ≡ p
        → Inv counter config given st
        → Ensures
            (WithActive counter config store laws v small given)
            (Inv counter config given)
            (fetch_pending store config p st)
    unfolding fetch_pending
    fetch_pending-WithActive invalid st e i =
        fetch_super_block-WithActive counter config store laws v small given st i
    fetch_pending-WithActive (running b) st e i =
        fetch_now-WithActive counter config store laws v small given b
          (record st { pending_fetch = invalid; fetch_in_progress = false })
          (subst (Launched counter config) e i.launched, forget st i)
    fetch_pending-WithActive (ready (unexpected err)) st e i = forget st i
    fetch_pending-WithActive (ready (value x)) st e i = record {
      bounded = i.bounded;
      disjoint =
          take_pending-Disjoint (rest st.active) (rest st.background) (rest x) given
            (rw e at i.disjoint);
      behind =
          let h : All (Behind counter config st.store)
              (rest st.active ∷ rest st.background ∷ rest x ∷ given) =
            rw e at i.behind in
          let (a, (b, (p, g))) = h in
          (p, (b, (nothing-Behind counter config store laws v small given st.store, g)));
      draws = i.draws;
      launched = tt;
    }

    fetch-WithActive :
        (st : State S)
        → Inv counter config given st
        → Ensures
            (WithActive counter config store laws v small given)
            (Inv counter config given)
            (fetch store config st)
    unfolding fetch
    fetch-WithActive st i =
        if_both
          (Ensures (WithActive counter config store laws v small given) (Inv counter config given))
          st.fetch_in_progress (fetch_pending store config st.pending_fetch st)
          (fetch_super_block store config st) (fetch_pending-WithActive st.pending_fetch st refl i)
          (fetch_super_block-WithActive counter config store laws v small given st i)

    or_exhausted-Gives :
        (block : Option Range) (st : State S)
        → Given given block st
        → Ensures (Gives given) (Inv counter config given) (or_exhausted store config block st)
    unfolding or_exhausted
    or_exhausted-Gives none st h = h
    or_exhausted-Gives (some r) st h = h

    or_fetch-Gives :
        (block : Option Range) (st : State S)
        → Given given block st
        → Ensures (Gives given) (Inv counter config given) (or_fetch store config block st)
    unfolding or_fetch
    or_fetch-Gives (some r) st h = h
    or_fetch-Gives none st h =
        Ensures-bind (WithActive counter config store laws v small given) (Gives given)
          (Inv counter config given) (fetch store config st) _ (fetch-WithActive st h)
          λ x st1 i.
            Ensures-bind (Given given) (Gives given) (Inv counter config given)
              (serve store config (record st1 { active = x })) _
              (serve-Given (record st1 { active = x }) i) or_exhausted-Gives

    or_promote-Gives :
        (block : Option Range) (st : State S)
        → Given given block st
        → Ensures (Gives given) (Inv counter config given) (or_promote store config block st)
    unfolding or_promote
    or_promote-Gives (some r) st h = h
    or_promote-Gives none st h =
        Ensures-bind (Given given) (Gives given) (Inv counter config given)
          (promote store config st) _ (promote-Given st h) or_fetch-Gives

    -- A call gives away a new block of the configured size, or fails and gives away nothing.
    pub allocate_block-Gives :
        (st : State S)
        → Inv counter config given st
        → Ensures (Gives given) (Inv counter config given) (allocate_block store config st)
    unfolding allocate_block
    allocate_block-Gives st i =
        Ensures-bind (λ _ st1. Inv counter config given st1) (Gives given)
          (Inv counter config given) (try_complete_prefetch store config st) _
          (try_complete_prefetch-Inv counter config store laws v small given st i)
          λ _ st1 i1.
            Ensures-bind (Given given) (Gives given) (Inv counter config given)
              (serve store config st1) _ (serve-Given st1 i1) or_promote-Gives

    run_pending-Inv :
        (p : Pending) (st : State S)
        → st.pending_fetch ≡ p
        → Inv counter config given st
        → Inv counter config given (run_pending store config p st)
    unfolding run_pending
    run_pending-Inv invalid st e i = i
    run_pending-Inv (ready r) st e i = i
    run_pending-Inv (running b) st e i =
        fetched-ready counter config store laws v small given st
          (fetch_super_block_from store config b st.store) i
          (fetch_super_block_from_lem counter config store laws v small b st.store
            (subst (Launched counter config) e i.launched) i.bounded)

    -- So does the thread of a prefetch.
    pub run_task-Inv :
        (st : State S)
        → Inv counter config given st
        → Inv counter config given (run_task store config st)
    unfolding run_task
    run_task-Inv st i = run_pending-Inv st.pending_fetch st refl i
