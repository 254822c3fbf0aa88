-- ===== src/Id/SuperBlock.antt =====
-- allocator/super_block.h. The members hold `uint64_t` values, and `next += block_size` wraps.
use artifact_system.Base.{ℕ, ◌+◌, ◌-◌, ◌%◌, ◌^◌, Bool, Option, none, some, ltb, ◌==◌, if◌then◌else◌}

pub record SuperBlock : Type 0 where
  pub range_start : ℕ
  pub range_end : ℕ
  pub next : ℕ

-- `SuperBlock{}`
abbrev pub empty : SuperBlock
empty = record { range_start = 0; range_end = 0; next = 0 }

unfoldable pub remaining : SuperBlock → ℕ
remaining s = if ltb s.next s.range_end then s.range_end - s.next else 0

unfoldable pub allocate_block : SuperBlock → ℕ → SuperBlock × Option (ℕ × ℕ)
unfolding remaining
allocate_block s block_size = if ltb (remaining s) block_size then (s, none) else (
  record s { next = (s.next + block_size) % 2 ^ 64 },
  some (s.next, (s.next + block_size) % 2 ^ 64),
)

unfoldable pub is_exhausted : SuperBlock → Bool
unfolding remaining
is_exhausted s = remaining s == 0

unfoldable pub is_empty : SuperBlock → Bool
is_empty s = s.range_start == s.range_end
