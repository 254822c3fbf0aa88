-- ===== src/Id/Allocator/Fetching.antt =====
-- The invariant over the selector and the fetches, at once or in the background.
use artifact_system.Base.{
  ℕ, ◌/◌, ◌&&◌, ◌^◌, ◌<◌, ◌≡◌, refl, inl, inr, Bool, List, [], ◌∷◌, All, All-map, Text, arith,
  Bool-cases, ◌==◌, leb, if◌then◌else◌, if_both,
}
use artifact_system.Id.Expected.{Expected, value, unexpected, StoreError, Expected-cases}
use artifact_system.Id.SuperBlock.{SuperBlock, remaining, is_empty}
use artifact_system.Id.Partition.{PartitionConfig, IsValid}
use artifact_system.Id.Store.{BlockStore, CounterLaws}
use artifact_system.Id.Allocator.{
  draw_from, redraw_from, less_loaded, select, fetch_super_block_from, fetch_now, fetch_super_block,
  start_prefetch, maybe_start_prefetch, harvest, try_complete_prefetch,
}
use artifact_system.Id.Allocator.Monad.{
  Stop, failed, undrawn, Pending, invalid, running, ready, State, Ensures, Ensures-bind, lift,
}
use artifact_system.Id.Allocator.Ranges.{
  Range, nothing, harvest-Disjoint, forget-Disjoint, active-Disjoint, pending-Disjoint,
}
use artifact_system.Id.Allocator.Fetched.{
  rest, Bounded, Behind, Grows, Served, Behind-Grows, fetch_super_block_from_lem,
}
use artifact_system.Id.Allocator.Invariant.{Inv, owned, pend}

module _ {S : Type 0} (counter : S → Text → ℕ → ℕ) (config : PartitionConfig) (store : BlockStore S)
    (laws : CounterLaws store counter) (v : IsValid config)
    (small : config.super_block_size < 2 ^ 32) where
  -- The invariant once `s` is the active super block.
  abbrev pub WithActive : List Range → SuperBlock → State S → Type 0
  WithActive given s st = Inv counter config given (record st { active = s })

  abbrev pub Drawn : List Range → ℕ → State S → Type 0
  Drawn given b st = (b < config.num_buckets) × Inv counter config given st

  module _ (given : List Range) where
    pub nothing-Behind : (s : S) → Behind counter config s nothing
    nothing-Behind s = (omega arith, λ j hj. inl (omega arith))

    draw_from-Drawn :
        (ds : List ℕ) (st : State S)
        → Inv counter config given st
        → All (λ d. d < config.num_buckets) ds
        → Ensures (Drawn given) (Inv counter config given) (draw_from ds st)
    unfolding draw_from
    draw_from-Drawn [] st i a = i
    draw_from-Drawn (d ∷ ds) st i a = (
      a.0,
      record {
        bounded = i.bounded;
        disjoint = i.disjoint;
        behind = i.behind;
        draws = a.1;
        launched = i.launched;
      },
    )

    redraw_from-Drawn :
        (ds : List ℕ) (first : ℕ) (st : State S)
        → Inv counter config given st
        → All (λ d. d < config.num_buckets) ds
        → Ensures (Drawn given) (Inv counter config given) (redraw_from ds first st)
    unfolding redraw_from
    redraw_from-Drawn [] first st i a = i
    redraw_from-Drawn (d ∷ ds) first st i a = elim (Bool-cases (d == first)) [
      | inl same ↦ rw same (redraw_from-Drawn ds first st i a.1)
      | inr other ↦ rw other (
        a.0,
        record {
          bounded = i.bounded;
          disjoint = i.disjoint;
          behind = i.behind;
          draws = a.1;
          launched = i.launched;
        },
      )
    ]

    less_loaded-Drawn :
        (a b : ℕ) (st : State S)
        → Drawn given a st
        → Drawn given b st
        → Ensures (Drawn given) (Inv counter config given) (less_loaded store config a b st)
    unfolding less_loaded
    less_loaded-Drawn a b st ha hb =
        elim (Expected-cases (store.get_bucket_counts config.partition_id (a ∷ b ∷ []) st.store)) [
          | inl (counts, e) ↦
              rw (e, less_loaded) (if_both (λ n. n < config.num_buckets) _ a b ha.0 hb.0, ha.1)
          | inr (err, e) ↦ rw (e, less_loaded) ha.1
        ]

    select-Drawn :
        (st : State S)
        → Inv counter config given st
        → Ensures (Drawn given) (Inv counter config given) (select store config st)
    unfolding select
    select-Drawn st i = elim (Bool-cases (config.num_buckets == 1)) [
      | inl one ↦ rw one (v.buckets_pos, i)
      | inr more ↦ rw more (
          Ensures-bind (Drawn given) (Drawn given) (Inv counter config given) (draw_from st.rng st)
            _ (draw_from-Drawn st.rng st i i.draws)
            λ a st1 ha.
              Ensures-bind (Drawn given) (Drawn given) (Inv counter config given)
                (redraw_from st1.rng a st1) _ (redraw_from-Drawn st1.rng a st1 ha.1 (ha.1).draws)
                λ b st2 hb. less_loaded-Drawn a b st2 (ha.0, hb.1) hb)
    ]

    -- What `fetch_super_block_from_lem` says of a result.
    abbrev pub Keeps : Expected Stop (Unit {0}) × State S → Type 0
    Keeps = Ensures (λ _ st'. Inv counter config given st') (Inv counter config given)

    abbrev pub Facts : S → Expected StoreError SuperBlock × S → Type 0
    Facts s r =
        Bounded counter config r.1 × Grows counter config s r.1 × Served counter config s r.1 r.0

    -- All ranges stay behind larger counters.
    grown :
        (st : State S) (s' : S)
        → Inv counter config given st
        → Grows counter config st.store s'
        → All (Behind counter config s') (owned st given)
    grown st s' i g = All-map (Behind-Grows counter config st.store s' g) (owned st given) i.behind

    fetched-WithActive :
        (st : State S) (r : Expected StoreError SuperBlock × S)
        → Inv counter config given st
        → Facts st.store r
        → Ensures
            (WithActive given)
            (Inv counter config given)
            (lift r.0, record st { store = r.1 })
    fetched-WithActive st (unexpected e, s') i (b, g, _) = record {
      bounded = b;
      disjoint = i.disjoint;
      behind = grown st s' i g;
      draws = i.draws;
      launched = i.launched;
    }
    fetched-WithActive st (value x, s') i (b, g, (new, apart)) = record {
      bounded = b;
      disjoint =
          active-Disjoint (rest x) (rest st.active) (rest st.background) (pend st.pending_fetch)
            given (All-map apart (rest st.background ∷ pend st.pending_fetch ∷ given) i.behind.1)
            i.disjoint;
      behind = (new, (grown st s' i g).1);
      draws = i.draws;
      launched = i.launched;
    }

    pub fetched-ready :
        (st : State S) (r : Expected StoreError SuperBlock × S)
        → Inv counter config given st
        → Facts st.store r
        → Inv counter config given (record st { pending_fetch = ready r.0; store = r.1 })
    fetched-ready st (unexpected e, s') i (b, g, _) = record {
      bounded = b;
      disjoint =
          forget-Disjoint (rest st.active) (rest st.background) (pend st.pending_fetch) given
            i.disjoint;
      behind = let h = grown st s' i g in (h.0, ((h.1).0, (nothing-Behind s', ((h.1).1).1)));
      draws = i.draws;
      launched = tt;
    }
    fetched-ready st (value x, s') i (b, g, (new, apart)) = record {
      bounded = b;
      disjoint =
          pending-Disjoint (rest x) (rest st.active) (rest st.background) (pend st.pending_fetch)
            given
            (
              apart (rest st.active) i.behind.0,
              (apart (rest st.background) (i.behind.1).0, All-map apart given ((i.behind.1).1).1),
            )
            i.disjoint;
      behind = let h = grown st s' i g in (h.0, ((h.1).0, (new, ((h.1).1).1)));
      draws = i.draws;
      launched = tt;
    }

    pub fetch_now-WithActive :
        (b : ℕ) (st : State S)
        → Drawn given b st
        → Ensures (WithActive given) (Inv counter config given) (fetch_now store config b st)
    unfolding fetch_now
    fetch_now-WithActive b st (hb, i) =
        fetched-WithActive st (fetch_super_block_from store config b st.store) i
          (fetch_super_block_from_lem counter config store laws v small b st.store hb i.bounded)

    pub fetch_super_block-WithActive :
        (st : State S)
        → Inv counter config given st
        → Ensures (WithActive given) (Inv counter config given) (fetch_super_block store config st)
    unfolding fetch_super_block
    fetch_super_block-WithActive st i =
        Ensures-bind (Drawn given) (WithActive given) (Inv counter config given)
          (select store config st) _ (select-Drawn st i) λ b st1 h. fetch_now-WithActive b st1 h

    start_prefetch-Inv :
        (r : Expected Stop ℕ × State S)
        → Ensures (Drawn given) (Inv counter config given) r
        → Ensures
            (λ _ st. Inv counter config given st)
            (Inv counter config given)
            (start_prefetch store config r)
    unfolding start_prefetch
    start_prefetch-Inv (value b, st) (hb, i) = record {
      bounded = i.bounded;
      disjoint =
          forget-Disjoint (rest st.active) (rest st.background) (pend st.pending_fetch) given
            i.disjoint;
      behind = (i.behind.0, ((i.behind.1).0, (nothing-Behind st.store, ((i.behind.1).1).1)));
      draws = i.draws;
      launched = hb;
    }
    start_prefetch-Inv (unexpected (failed e), st) i = i
    start_prefetch-Inv (unexpected undrawn, st) i = i

    pub maybe_start_prefetch-Inv :
        (st : State S) → Inv counter config given st → Keeps (maybe_start_prefetch store config st)
    unfolding maybe_start_prefetch
    maybe_start_prefetch-Inv st i =
        if_both Keeps st.fetch_in_progress (value tt, st)
          (if due then start_prefetch store config (select store config st) else (value tt, st)) i
          (if_both Keeps due (start_prefetch store config (select store config st)) (value tt, st)
            (start_prefetch-Inv (select store config st) (select-Drawn st i)) i)
      where
        due : Bool
        due = leb (remaining st.active) (config.super_block_size / 2) && is_empty st.background

    harvest-Inv :
        (p : Pending) (st : State S)
        → st.pending_fetch ≡ p
        → Inv counter config given st
        → Inv counter config given (harvest store config p st)
    unfolding harvest
    harvest-Inv invalid st e i = i
    harvest-Inv (running b) st e i = i
    harvest-Inv (ready (unexpected err)) st e i = record {
      bounded = i.bounded;
      disjoint = rw e at i.disjoint;
      behind = rw e at i.behind;
      draws = i.draws;
      launched = tt;
    }
    harvest-Inv (ready (value x)) st e i = record {
      bounded = i.bounded;
      disjoint =
          harvest-Disjoint (rest st.active) (rest st.background) (rest x) given
            (rw e at i.disjoint);
      behind =
          let h : All (Behind counter config st.store)
              (rest st.active ∷ rest st.background ∷ rest x ∷ given) =
            rw e at i.behind in
          (h.0, (((h.1).1).0, (nothing-Behind st.store, ((h.1).1).1)));
      draws = i.draws;
      launched = tt;
    }

    pub try_complete_prefetch-Inv :
        (st : State S) → Inv counter config given st → Keeps (try_complete_prefetch store config st)
    unfolding try_complete_prefetch
    try_complete_prefetch-Inv st i =
        if_both Keeps st.fetch_in_progress (value tt, harvest store config st.pending_fetch st)
          (value tt, st) (harvest-Inv st.pending_fetch st refl i) i
