-- ===== src/Id/Allocator/Fetched.antt =====
-- The ranges that a fetch of allocator/super_block_allocator.cpp reaches.
use native.Mathlib.Nat.{mul-le-mul_right, mod-eq_of_lt}
use artifact_system.Base.{
  ℕ, ◌+◌, ◌*◌, ◌%◌, ◌^◌, ◌≤◌, ◌<◌, ◌≡◌, refl, sym, ◌⊎◌, inl, inr, text_eq_refl, arith,
}
use native.Mathlib.Decide.{dec_lt}
use artifact_system.Id.Expected.{Expected, value, unexpected, StoreError, Expected-cases}
use artifact_system.Id.Format.{compose_id_small}
use artifact_system.Id.SuperBlock.{SuperBlock}
use artifact_system.Id.Partition.{
  PartitionConfig, IsValid, bucket_bound, pow_bound, max_bucket_value,
}
use artifact_system.Id.Store.{BlockStore, CounterLaws}
use artifact_system.Id.Allocator.{fetch_super_block_from, super_block_of}
use artifact_system.Id.Allocator.Ranges.{Range, Apart}
use artifact_system.Base.{Text}

abbrev pub rest : SuperBlock → Range
rest s = (s.next, s.range_end)

-- The buckets below, one after the other.
bucket_le : (b j P : ℕ) → b < j → (b + 1) * P ≤ j * P
bucket_le b j P h = mul-le-mul_right P (omega arith)

bucket_next : (b P : ℕ) → (b + 1) * P ≡ b * P + P
bucket_next b P = omega arith

module _ {S : Type 0} (counter : S → Text → ℕ → ℕ) (config : PartitionConfig) where
  -- No counter has passed the end of its bucket.
  abbrev pub Bounded : S → Type 0
  Bounded s = (j : ℕ) → counter s config.partition_id j ≤ 2 ^ config.bucket_size_bits

  -- The range is below the counter of each bucket, or past that bucket.
  abbrev pub Behind : S → Range → Type 0
  Behind s r =
      (r.1 ≤ 2 ^ 53)
      × ((j : ℕ)
          → j < config.num_buckets
          → (r.1 ≤ j * 2 ^ config.bucket_size_bits + counter s config.partition_id j)
            ⊎ ((j + 1) * 2 ^ config.bucket_size_bits ≤ r.0))

  abbrev pub Grows : S → S → Type 0
  Grows s s' = (j : ℕ) → counter s config.partition_id j ≤ counter s' config.partition_id j

  -- What a fetch from the store `s`, which leaves `s'`, promises of its super block.
  abbrev pub Served : S → S → Expected StoreError SuperBlock → Type 0
  Served s s' (unexpected e) = Unit
  Served s s' (value b) = Behind s' (rest b) × ((t : Range) → Behind s t → Apart (rest b) t)

  pub Behind-Grows : (s s' : S) → Grows s s' → (r : Range) → Behind s r → Behind s' r
  Behind-Grows s s' g r h = (h.0, λ j hj. ground (arith, g j, h.1 j hj))

  -- The range that counts `n` to `n + size` in bucket `b`, once the counter is at its end.
  fresh-Behind :
      (b n size : ℕ) (s : S)
      → IsValid config
      → b < config.num_buckets
      → n + size ≤ 2 ^ config.bucket_size_bits
      → counter s config.partition_id b ≡ n + size
      → Behind s (b * 2 ^ config.bucket_size_bits + n, b * 2 ^ config.bucket_size_bits + (n + size))
  fresh-Behind b n size s v hb fits at = (
    bucket_bound config b (n + size) v hb fits,
    λ j hj. elim (dec_lt j b) [
      | yes below ↦ inr (omega (arith, bucket_le j b (2 ^ config.bucket_size_bits) below))
      | no not_below ↦ elim (dec_lt b j) [
        | yes above ↦ inl (
            omega (
              arith,
              bucket_le b j (2 ^ config.bucket_size_bits) above,
              bucket_next b (2 ^ config.bucket_size_bits),
            ))
        | no not_above ↦ inl (ground (arith, at))
      ]
    ],
  )

  fresh-Apart :
      (b n size : ℕ) (s : S)
      → b < config.num_buckets
      → n + size ≤ 2 ^ config.bucket_size_bits
      → counter s config.partition_id b ≡ n
      → (t : Range) → Behind s t
      → Apart (b * 2 ^ config.bucket_size_bits + n, b * 2 ^ config.bucket_size_bits + (n + size)) t
  fresh-Apart b n size s hb fits at t h =
      ground (arith, h.1 b hb, bucket_next b (2 ^ config.bucket_size_bits))

  module _ (store : BlockStore S) (laws : CounterLaws store counter) (v : IsValid config)
      (small : config.super_block_size < 2 ^ 32) where
    -- What `allocate` did, of the counters of the partition.
    abbrev Granted : ℕ → S → S → ℕ → Type 0
    Granted b s s' prev =
        (prev ≡ counter s config.partition_id b)
        × (prev + config.super_block_size ≤ 2 ^ config.bucket_size_bits)
        × (counter s' config.partition_id b ≡ prev + config.super_block_size)

    super_block_of-Served :
        (b : ℕ) (s : S) (r : Expected StoreError ℕ × S)
        → b < config.num_buckets
        → ((prev : ℕ) → r.0 ≡ value prev → Granted b s r.1 prev)
        → Served s r.1 (super_block_of store config b r).0
    unfolding super_block_of
    super_block_of-Served b s (unexpected e, s') hb g = tt
    super_block_of-Served b s (value prev, s') hb g =
        let (was, fits, now) = g prev refl in
        let n : ℕ = prev + config.super_block_size in
        let lo : prev ≤ 2 ^ config.bucket_size_bits = omega arith in
        let small_lo =
          compose_id_small b config.bucket_size_bits prev
            (omega (arith, bucket_bound config b prev v hb lo)) in
        let small_hi =
          compose_id_small b config.bucket_size_bits n
            (omega (arith, bucket_bound config b n v hb fits)) in
        let no_wrap : n % 2 ^ 64 ≡ n =
          mod-eq_of_lt
            (omega (arith, pow_bound config.bucket_size_bits (omega (arith, v.bits_le)))) in
        rw (small_lo, no_wrap, small_hi)
          (
            fresh-Behind b prev config.super_block_size s' v hb fits now,
            fresh-Apart b prev config.super_block_size s hb fits (sym was),
          )

    super_block_of_state :
        (b : ℕ) (r : Expected StoreError ℕ × S) → (super_block_of store config b r).1 ≡ r.1
    unfolding super_block_of
    super_block_of_state b (unexpected e, s') = refl
    super_block_of_state b (value prev, s') = refl

    module _ (b : ℕ) (s : S) (bounded : Bounded s) where
      call : Expected StoreError ℕ × S
      call =
          store.allocate config.partition_id b config.super_block_size (max_bucket_value config) s

      limit_lem : max_bucket_value config ≡ 2 ^ config.bucket_size_bits
      unfolding max_bucket_value
      limit_lem =
          mod-eq_of_lt (omega (arith, pow_bound config.bucket_size_bits (omega (arith, v.bits_le))))

      fits_lem : counter s config.partition_id b + config.super_block_size < 2 ^ 64
      fits_lem =
          omega
            (arith, bounded b, pow_bound config.bucket_size_bits (omega (arith, v.bits_le)), small)

      call-Granted : (prev : ℕ) → call.0 ≡ value prev → Granted b s call.1 prev
      unfolding call
      call-Granted prev e =
          let (was, fits, now) =
            laws.granted config.partition_id b config.super_block_size (max_bucket_value config) s
              prev fits_lem e in
          (
            was,
            omega (arith, limit_lem),
            ground (arith, now config.partition_id b, text_eq_refl config.partition_id),
          )

      call_counters :
          (j : ℕ)
          → (counter s config.partition_id j ≤ counter call.1 config.partition_id j)
            × (counter call.1 config.partition_id j ≤ 2 ^ config.bucket_size_bits)
      unfolding call
      call_counters j = elim (Expected-cases call.0) [
        | inl (prev, e) ↦
            let (was, fits, now) =
              laws.granted config.partition_id b config.super_block_size (max_bucket_value config) s
                prev fits_lem e in
            ground (
              arith,
              was,
              fits,
              limit_lem,
              now config.partition_id j,
              bounded j,
              text_eq_refl config.partition_id,
            )
        | inr (err, e) ↦
            let same =
              laws.refused config.partition_id b config.super_block_size (max_bucket_value config) s
                err e config.partition_id j in
            omega (arith, same, bounded j)
      ]

    -- A fetch moves counters up only, within their buckets, and what it serves is new.
    pub fetch_super_block_from_lem :
        (b : ℕ) (s : S)
        → b < config.num_buckets
        → Bounded s
        → let r = fetch_super_block_from store config b s in
          Bounded r.1 × Grows s r.1 × Served s r.1 r.0
    unfolding fetch_super_block_from call
    fetch_super_block_from_lem b s hb bounded = rw (super_block_of_state b (call b s bounded)) (
      λ j. (call_counters b s bounded j).1,
      λ j. (call_counters b s bounded j).0,
      super_block_of-Served b s (call b s bounded) hb (call-Granted b s bounded),
    )
