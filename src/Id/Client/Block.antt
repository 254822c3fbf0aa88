-- ===== src/Id/Client/Block.antt =====
-- block.cpp: a half-open range of IDs, taken from its start. `uint64_t` arithmetic wraps.
use artifact_system.Base.{ℕ, ◌+◌, ◌-◌, ◌%◌, ◌^◌, Bool, if◌then◌else◌, ltb}
use artifact_system.Id.Expected.{Expected, value, unexpected}

-- The exceptions of the client.
pub data Thrown : Type 0 where
  block_exhausted block_still_has_ids pool_depleted bad_high_water_mark : Thrown
  already_initialized not_initialized not_connected : Thrown
  no_service_address no_partition_id : Thrown
  rpc_error : ℕ → Thrown

pub record Block : Type 0 where
  pub range_start : ℕ
  pub range_end : ℕ

-- A block as it is made, and after `reset`.
abbrev pub empty : Block
empty = record { range_start = 0; range_end = 0 }

unfoldable pub remaining : Block → ℕ
remaining b = (b.range_end + 2 ^ 64 - b.range_start) % 2 ^ 64

unfoldable pub has_id : Block → Bool
has_id b = ltb b.range_start b.range_end

unfoldable pub allocate_id : Block → Expected Thrown ℕ × Block
unfolding has_id
allocate_id b =
    if has_id b
    then (value b.range_start, record b { range_start = (b.range_start + 1) % 2 ^ 64 })
    else (unexpected Thrown.block_exhausted, b)

unfoldable pub fill : ℕ × ℕ → Block → Expected Thrown (Unit {0}) × Block
unfolding has_id
fill (range_start, range_end) b =
    if has_id b
    then (unexpected Thrown.block_still_has_ids, b)
    else (value tt, record { range_start = range_start; range_end = range_end })
