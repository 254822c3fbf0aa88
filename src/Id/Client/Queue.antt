-- ===== src/Id/Client/Queue.antt =====
-- The double buffer of block_double_buffer.cpp, seen as a queue: the rest of the front block, then the
-- back block.
use mathlib.Core.List.{append-nil}
use artifact_system.Base.{
  ℕ, zero, suc, ◌+◌, ◌-◌, ◌^◌, ◌<◌, ◌≡◌, refl, sym, ◌∙◌, ap, ◌⊎◌, inl, inr, true, false, List, [],
  ◌∷◌, ◌++◌, leb, ◌||◌, if◌then◌else◌, arith, Bool-cases, if_both,
}
use artifact_system.Id.Expected.{Expected, value, unexpected}
use artifact_system.Id.Client.Block.{Block, Thrown, empty, has_id, remaining}
use artifact_system.Id.Client.Block
use artifact_system.Id.Client.Buffer.{
  Buffer, Thread, allocate_id, prefetch_worker, worker_done, take_front, maybe_prefetch_locked,
  swap_blocks_locked,
}

-- `n` IDs from `start` on.
abbrev pub upto : ℕ → ℕ → List ℕ
upto zero start = []
upto (suc n) start = start ∷ upto n (start + 1)

abbrev pub span : Block → List ℕ
span b = upto (b.range_end - b.range_start) b.range_start

abbrev pub pending_ids : Buffer → List ℕ
pending_ids b = span b.front ++ span b.back

-- The blocks are ranges of `uint64_t`, and nothing is in the back block while a fetch for it runs.
pub record Inv (b : Buffer) : Type 0 where
  pub front_small : b.front.range_end < 2 ^ 64
  pub back_small : b.back.range_end < 2 ^ 64
  pub awaited : b.prefetch_thread ≡ Thread.fetching → has_id b.back ≡ false
  pub noted : b.prefetch_thread ≡ Thread.fetching → b.fetch_in_progress ≡ true

suc_of : (e s : ℕ) → s < e → e - s ≡ suc (e - (s + 1))
suc_of e s h = omega arith

span-cons :
    (b : Block)
    → has_id b ≡ true
    → span b ≡ b.range_start ∷ span (record b { range_start = b.range_start + 1 })
unfolding has_id
span-cons b h = rw (suc_of b.range_end b.range_start (ground arith)) refl

span-nil : (b : Block) → has_id b ≡ false → span b ≡ []
unfolding has_id
span-nil b h =
    ap (λ (n : ℕ). upto n b.range_start) {x = b.range_end - b.range_start} {y = 0} (ground arith)

-- The block that `allocate_id` leaves, when it has an ID.
next_block : Block → Block
next_block b = record b { range_start = b.range_start + 1 }

allocate_id_lem :
    (b : Block)
    → has_id b ≡ true
    → b.range_end < 2 ^ 64
    → Block.allocate_id b ≡ (value b.range_start, next_block b)
unfolding Block.allocate_id has_id next_block
allocate_id_lem b h small = ground arith

-- The prefetch takes no ID.
pending_ids-maybe_prefetch_locked :
    (b : Buffer) → pending_ids (maybe_prefetch_locked b) ≡ pending_ids b
unfolding maybe_prefetch_locked
pending_ids-maybe_prefetch_locked b =
    if_both (λ c. pending_ids c ≡ pending_ids b) (b.fetch_in_progress || has_id b.back) b
      (record b { fetch_in_progress = true; prefetch_thread = Thread.fetching }) refl refl

maybe_prefetch_locked-Inv : (b : Buffer) → Inv b → Inv (maybe_prefetch_locked b)
unfolding maybe_prefetch_locked
maybe_prefetch_locked-Inv b i = elim (Bool-cases (b.fetch_in_progress || has_id b.back)) [
  | inl busy ↦ rw busy i
  | inr idle ↦ rw idle (record {
    front_small = i.front_small;
    back_small = i.back_small;
    awaited = λ _. ground arith;
    noted = λ _. refl;
  })
]

-- The oldest ID is taken, and nothing else changes.
abbrev pub Takes : Buffer → Expected Thrown ℕ × Buffer → Type 0
Takes b r = (id : ℕ) × (r.0 ≡ value id) × (pending_ids b ≡ id ∷ pending_ids r.1) × Inv r.1

take_front-Takes :
    (b : Buffer)
    → has_id b.front ≡ true
    → Inv b
    → Takes b (take_front b (Block.allocate_id b.front))
unfolding take_front next_block
take_front-Takes b h i =
    rw (allocate_id_lem b.front h i.front_small) (b.front.range_start, refl, ids.0, ids.1)
  where
    taken : Buffer
    taken = record b { front = next_block b.front }

    taken-Inv : Inv taken
    taken-Inv = record {
      front_small = i.front_small;
      back_small = i.back_small;
      awaited = i.awaited;
      noted = i.noted;
    }

    first : pending_ids b ≡ b.front.range_start ∷ pending_ids taken
    first = rw (span-cons b.front h)

    P : Buffer → Type 0
    P c = (pending_ids b ≡ b.front.range_start ∷ pending_ids c) × Inv c

    ids : P (
        if leb (remaining (next_block b.front)) b.high_water_mark
        then maybe_prefetch_locked taken
        else taken)
    ids =
        if_both P (leb (remaining (next_block b.front)) b.high_water_mark)
          (maybe_prefetch_locked taken) taken
          (
            rw (pending_ids-maybe_prefetch_locked taken) first,
            maybe_prefetch_locked-Inv taken taken-Inv,
          )
          (first, taken-Inv)

swap_blocks_locked-Inv : (b : Buffer) → Inv b → Inv (swap_blocks_locked b)
unfolding swap_blocks_locked has_id
swap_blocks_locked-Inv b i = record {
  front_small = i.back_small;
  back_small = omega arith;
  awaited = λ _. refl;
  noted = i.noted;
}

pending_ids-swap_blocks_locked :
    (b : Buffer) → has_id b.front ≡ false → pending_ids b ≡ pending_ids (swap_blocks_locked b)
unfolding swap_blocks_locked
pending_ids-swap_blocks_locked b spent =
    rw (span-nil b.front spent) (sym (append-nil (span b.back)))

swapped-Takes :
    (b : Buffer)
    → has_id b.back ≡ true
    → has_id b.front ≡ false
    → Inv b
    → Takes b (take_front (swap_blocks_locked b) (Block.allocate_id b.back))
unfolding swap_blocks_locked
swapped-Takes b full spent i =
    let (id, got, ids, inv) =
      take_front-Takes (swap_blocks_locked b) full (swap_blocks_locked-Inv b i) in
    (id, got, pending_ids-swap_blocks_locked b spent ∙ ids, inv)

-- A call takes the oldest ID, or fails on an empty queue and changes nothing.
pub allocate_id-Takes :
    (b : Buffer)
    → Inv b
    → Takes b (allocate_id b)
      ⊎ ((pending_ids b ≡ []) × (allocate_id b ≡ (unexpected Thrown.pool_depleted, b)))
unfolding allocate_id
allocate_id-Takes b i = elim (Bool-cases (has_id b.front)) [
  | inl full ↦ rw full (inl (take_front-Takes b full i))
  | inr spent ↦ elim (Bool-cases (has_id b.back)) [
    | inl full ↦ rw (spent, full) (inl (swapped-Takes b full spent i))
    | inr empty_too ↦
        rw (spent, empty_too) (inr (rw (span-nil b.front spent, span-nil b.back empty_too), refl))
  ]
]

-- What a worker in flight brings. A fetch that failed brings nothing.
abbrev pub arrived : Thread → Expected Thrown (ℕ × ℕ) → List ℕ
arrived Thread.fetching (value (lo, hi)) = upto (hi - lo) lo
arrived Thread.fetching (unexpected e) = []
arrived Thread.no_thread f = []
arrived Thread.ended f = []

abbrev pub IsRange : Expected Thrown (ℕ × ℕ) → Type 0
IsRange (value (lo, hi)) = hi < 2 ^ 64
IsRange (unexpected e) = Unit

worker_done_lem :
    (f : Expected Thrown (ℕ × ℕ)) (b : Buffer)
    → has_id b.back ≡ false
    → Inv b
    → IsRange f
    → (pending_ids (worker_done f b) ≡ pending_ids b ++ arrived Thread.fetching f)
      × Inv (worker_done f b)
unfolding worker_done Block.fill
worker_done_lem (unexpected e) b vacant i r = (
  sym (append-nil (pending_ids b)),
  record {
    front_small = i.front_small;
    back_small = i.back_small;
    awaited = λ h. cc;
    noted = λ h. cc;
  },
)
worker_done_lem (value (lo, hi)) b vacant i r = rw vacant (
  ap (λ (ids : List ℕ). ids ++ upto (hi - lo) lo) whole,
  record { front_small = i.front_small; back_small = r; awaited = λ h. cc; noted = λ h. cc },
)
  where
    whole : span b.front ≡ pending_ids b
    whole = rw (span-nil b.back vacant) (sym (append-nil (span b.front)))

-- The state after the worker of a thread `t`.
worker_cases :
    (t : Thread) (f : Expected Thrown (ℕ × ℕ)) (b : Buffer)
    → b.prefetch_thread ≡ t
    → Inv b
    → IsRange f
    → (pending_ids (prefetch_worker f b) ≡ pending_ids b ++ arrived t f) × Inv (prefetch_worker f b)
unfolding prefetch_worker
worker_cases Thread.no_thread f b e i r =
    rw (e, prefetch_worker) (sym (append-nil (pending_ids b)), i)
worker_cases Thread.ended f b e i r = rw (e, prefetch_worker) (sym (append-nil (pending_ids b)), i)
worker_cases Thread.fetching f b e i r =
    rw (e, prefetch_worker) (worker_done_lem f b (i.awaited e) i r)

-- What a worker brings goes to the end of the queue.
pub pending_ids-prefetch_worker :
    (f : Expected Thrown (ℕ × ℕ)) (b : Buffer)
    → Inv b
    → IsRange f
    → (pending_ids (prefetch_worker f b) ≡ pending_ids b ++ arrived b.prefetch_thread f)
      × Inv (prefetch_worker f b)
pending_ids-prefetch_worker f b i r = worker_cases b.prefetch_thread f b refl i r
