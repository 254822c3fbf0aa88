-- ===== src/Id/Partition.antt =====
-- partition/partition.h. Each message of `validate` is a constructor.
use native.Mathlib.Nat.{pow-le-pow_right, mul-le-mul_right}
use artifact_system.Id.Format.{
  pow-add, compose_id, extract_bucket_index, extract_counter, compose_id_small, extract-compose_id,
}
use artifact_system.Base.{
  ℕ, ◌-◌, ◌%◌, ◌^◌, ◌≤◌, ◌<◌, ◌≡◌, ◌≢◌, ◌↔◌, ◌||◌, not, ◌+◌, ◌*◌, Option, none, some, ltb, ◌==◌,
  if◌then◌else◌, Text, text_eq, text_eq_iff, [], ap, arith,
}

pub record PartitionConfig : Type 0 where
  pub partition_id : Text
  pub num_buckets : ℕ
  pub bucket_size_bits : ℕ
  pub super_block_size : ℕ
  pub block_size : ℕ

pub data ConfigError : Type 0 where
  empty_partition_id zero_buckets bad_bucket_size_bits zero_block_size : ConfigError
  zero_super_block_size not_a_multiple no_bits_left too_many_buckets : ConfigError

-- `uint64_t{1} << bucket_size_bits`
unfoldable pub max_bucket_value : PartitionConfig → ℕ
max_bucket_value c = 2 ^ c.bucket_size_bits % 2 ^ 64

-- The first error found, or none.
unfoldable pub validate : PartitionConfig → Option ConfigError
validate c =
    if text_eq c.partition_id []
    then some empty_partition_id
    else if c.num_buckets == 0
    then some zero_buckets
    else if c.bucket_size_bits == 0 || ltb 52 c.bucket_size_bits
    then some bad_bucket_size_bits
    else if c.block_size == 0
    then some zero_block_size
    else if c.super_block_size == 0
    then some zero_super_block_size
    else if not ((c.super_block_size % c.block_size) == 0)
    then some not_a_multiple
    else if (53 - c.bucket_size_bits) == 0
    then some no_bits_left
    else if ltb (2 ^ (53 - c.bucket_size_bits) % 2 ^ 64) c.num_buckets
    then some too_many_buckets
    else none

-- What a validated configuration promises.
pub record IsValid (c : PartitionConfig) : Type 0 where
  pub named : c.partition_id ≢ []
  pub buckets_pos : 0 < c.num_buckets
  pub bits_pos : 0 < c.bucket_size_bits
  pub bits_le : c.bucket_size_bits ≤ 52
  pub block_pos : 0 < c.block_size
  pub super_pos : 0 < c.super_block_size
  pub multiple : c.super_block_size % c.block_size ≡ 0
  pub buckets_le : c.num_buckets ≤ 2 ^ (53 - c.bucket_size_bits)

-- Every shift of a valid configuration fits in 53 bits, so that no shift wraps.
pub pow_bound : (k : ℕ) → k ≤ 53 → 2 ^ k ≤ 2 ^ 53
pow_bound k h = pow-le-pow_right (omega arith) h

-- `validate` accepts the configurations that keep the promise, and no others.
pub validate-IsValid : (c : PartitionConfig) → (validate c ≡ none) ↔ IsValid c
unfolding validate
validate-IsValid c = (
  λ h.
      ground
        (arith, text_eq_iff c.partition_id [], pow_bound (53 - c.bucket_size_bits) (omega arith)),
  λ v.
      ground
        (arith, text_eq_iff c.partition_id [], pow_bound (53 - c.bucket_size_bits) (omega arith)),
)

-- All counters of all buckets lie below 2 ^ 53.
pub bucket_bound :
    (c : PartitionConfig) (b n : ℕ)
    → IsValid c
    → b < c.num_buckets
    → n ≤ 2 ^ c.bucket_size_bits
    → b * 2 ^ c.bucket_size_bits + n ≤ 2 ^ 53
bucket_bound c b n v hb hn =
    omega
      (arith, mul-le-mul_right P top, split, ap (λ (k : ℕ). 2 ^ k) {x = bits + rest} {y = 53} whole)
  where
    bits : ℕ
    bits = c.bucket_size_bits

    rest : ℕ
    rest = 53 - bits

    P : ℕ
    P = 2 ^ bits

    whole : bits + rest ≡ 53
    whole = omega (arith, v.bits_le)

    split : 2 ^ (bits + rest) ≡ P * 2 ^ rest
    split = pow-add bits rest

    top : b + 1 ≤ 2 ^ rest
    top = omega (arith, v.buckets_le)

-- An ID of a bucket of a validated partition is below 2 ^ 53, and its bucket and counter are read
-- back from it. `num_buckets` is a `uint32_t`.
pub compose_id-validate :
    (c : PartitionConfig) (b n : ℕ)
    → validate c ≡ none
    → c.num_buckets < 2 ^ 32
    → b < c.num_buckets
    → n < 2 ^ c.bucket_size_bits
    → (compose_id b c.bucket_size_bits n < 2 ^ 53)
      × (extract_bucket_index (compose_id b c.bucket_size_bits n) c.bucket_size_bits ≡ b)
      × (extract_counter (compose_id b c.bucket_size_bits n) c.bucket_size_bits ≡ n)
compose_id-validate c b n h small hb hn =
    let bound = bucket_bound c b (n + 1) ((validate-IsValid c).0 h) hb (omega arith) in
    let parts = extract-compose_id b c.bucket_size_bits n (omega arith) hn (omega (arith, bound)) in
    (
      omega (arith, bound, compose_id_small b c.bucket_size_bits n (omega (arith, bound))),
      parts.0,
      parts.1,
    )
