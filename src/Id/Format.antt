-- ===== src/Id/Format.antt =====
-- id_format.h: an ID is a bucket index above a counter. `<<` on `uint64_t` drops the high bits, a
-- cast to `uint32_t` keeps the low 32, and `x & ((1 << k) - 1)` is `x % 2 ^ k`.
use native.Mathlib.Nat.{
  pow-suc, mul_assoc, mul-add-div_right, mod-eq_of_lt, one-le-pow, add-zero, add-suc, div-eq_of_lt,
}
use native.Mathlib.Nat.{mul-add-mod_self_right}
use artifact_system.Base.{ℕ, zero, suc, ◌+◌, ◌*◌, ◌/◌, ◌%◌, ◌^◌, ◌<◌, ◌≡◌, arith}

unfoldable pub compose_id : ℕ → ℕ → ℕ → ℕ
compose_id bucket_index bucket_size_bits counter =
    (bucket_index * 2 ^ bucket_size_bits % 2 ^ 64 + counter) % 2 ^ 64

unfoldable pub extract_bucket_index : ℕ → ℕ → ℕ
extract_bucket_index id bucket_size_bits = id / 2 ^ bucket_size_bits % 2 ^ 32

unfoldable pub extract_counter : ℕ → ℕ → ℕ
extract_counter id bucket_size_bits = id % 2 ^ bucket_size_bits

pub two_pow_pos : (k : ℕ) → 0 < 2 ^ k
two_pow_pos k = one-le-pow k 2 (omega arith)

pub pow-add : (a k : ℕ) → 2 ^ (a + k) ≡ 2 ^ a * 2 ^ k
pow-add a zero = simp add-zero (omega arith)
pow-add a (suc k) =
    rw (add-suc, pow-suc 2 (a + k), pow-suc 2 k, pow-add a k) (mul_assoc (2 ^ a) (2 ^ k) 2)

-- Below 2 ^ 64 nothing wraps.
pub compose_id_small :
    (b bits c : ℕ) → b * 2 ^ bits + c < 2 ^ 64 → compose_id b bits c ≡ b * 2 ^ bits + c
unfolding compose_id
compose_id_small b bits c h = omega arith

-- Both parts of an ID are read back from it.
pub extract-compose_id :
    (b bits c : ℕ)
    → b < 2 ^ 32
    → c < 2 ^ bits
    → b * 2 ^ bits + c < 2 ^ 64
    → (extract_bucket_index (compose_id b bits c) bits ≡ b)
      × (extract_counter (compose_id b bits c) bits ≡ c)
unfolding extract_bucket_index extract_counter
extract-compose_id b bits c hb hc h = rw (compose_id_small b bits c h) (
  rw (mul-add-div_right (two_pow_pos bits) b c, div-eq_of_lt hc) (omega arith),
  rw (mul-add-mod_self_right b (2 ^ bits) c) (mod-eq_of_lt hc),
)
