-- ===== src/Id/Client/Buffer.antt =====
-- block_double_buffer.cpp. A method runs under the mutex, as one step. The worker thread takes the
-- mutex once, when its fetch has ended (`prefetch_worker`), at any time between two calls.
use artifact_system.Base.{ℕ, Bool, true, false, ◌||◌, if◌then◌else◌, leb}
use artifact_system.Id.Expected.{Expected, value, unexpected}
use artifact_system.Id.Client.Block.{Block, Thrown, empty, has_id, remaining}
use artifact_system.Id.Client.Block

-- `prefetch_thread_`: no thread, one that still fetches, or one that has ended.
pub data Thread : Type 0 where
  no_thread fetching ended : Thread

pub record Buffer : Type 0 where
  pub high_water_mark : ℕ
  pub front : Block
  pub back : Block
  pub fetch_in_progress : Bool
  pub prefetch_thread : Thread

abbrev pub construct : ℕ → Buffer
construct high_water_mark = record {
  high_water_mark = high_water_mark;
  front = empty;
  back = empty;
  fetch_in_progress = false;
  prefetch_thread = Thread.no_thread;
}

unfoldable pub initialize : Expected Thrown (ℕ × ℕ) → Buffer → Expected Thrown (Unit {0}) × Buffer
initialize (unexpected e) b = (unexpected e, b)
initialize (value r) b = let f = Block.fill r b.front in (f.0, record b { front = f.1 })

unfoldable pub maybe_prefetch_locked : Buffer → Buffer
maybe_prefetch_locked b =
    if b.fetch_in_progress || has_id b.back
    then b
    else record b { fetch_in_progress = true; prefetch_thread = Thread.fetching }

unfoldable pub swap_blocks_locked : Buffer → Buffer
swap_blocks_locked b = record b { front = b.back; back = empty }

-- `front_.allocate_id()`, and the prefetch when few IDs are left.
unfoldable pub take_front : Buffer → Expected Thrown ℕ × Block → Expected Thrown ℕ × Buffer
unfolding maybe_prefetch_locked
take_front b (unexpected e, front) = (unexpected e, record b { front = front })
take_front b (value id, front) = (
  value id,
  if leb (remaining front) b.high_water_mark
      then maybe_prefetch_locked (record b { front = front })
      else record b { front = front },
)

unfoldable pub allocate_id : Buffer → Expected Thrown ℕ × Buffer
unfolding take_front swap_blocks_locked
allocate_id b =
    if has_id b.front
    then take_front b (Block.allocate_id b.front)
    else if has_id b.back
    then take_front (swap_blocks_locked b) (Block.allocate_id b.back)
    else (unexpected Thrown.pool_depleted, b)

-- The worker's fetch has ended. An exception of `fill` is caught as one of the fetch is.
unfoldable pub worker_done : Expected Thrown (ℕ × ℕ) → Buffer → Buffer
worker_done (unexpected e) b = record b {
  fetch_in_progress = false;
  prefetch_thread = Thread.ended;
}
worker_done (value r) b = record b {
  back = (Block.fill r b.back).1;
  fetch_in_progress = false;
  prefetch_thread = Thread.ended;
}

unfoldable pub prefetch_worker : Expected Thrown (ℕ × ℕ) → Buffer → Buffer
unfolding worker_done
prefetch_worker fetched b = elim b.prefetch_thread [
  | Thread.fetching ↦ worker_done fetched b
  | _ ↦ b
]

-- `close` resets the state under the mutex and then joins the thread, which may still fill the back
-- block with what it fetched late.
unfoldable pub close : Expected Thrown (ℕ × ℕ) → Buffer → Buffer
unfolding prefetch_worker
close late b =
    record (prefetch_worker late
      (record b { fetch_in_progress = false; front = empty; back = empty })) {
        prefetch_thread = Thread.no_thread;
      }
