-- ===== src/Id/Client.antt =====
-- The C++ client, id-allocator-client-cpp/src/id_allocator_client: client.cpp and the connection of
-- grpc_client.cpp. The call of the service is an argument: its answer, after the retries.
pub mod Block
pub mod Buffer
pub mod Queue
pub mod History
pub mod Retry
use artifact_system.Base.{ℕ, Bool, true, false, if◌then◌else◌, Text, text_eq, [], ltb}
use artifact_system.Id.Expected.{Expected, value, unexpected}
use Block.{Thrown}

pub record Client : Type 0 where
  pub connected : Bool
  pub initialized : Bool
  pub buffer : Buffer.Buffer

-- The constructors of `IdAllocatorGrpcClient` and of `IdAllocatorClient`, with the buffer's.
unfoldable pub construct : Text → Text → ℕ → Expected Thrown Client
construct service_address partition_id high_water_mark =
    if text_eq service_address []
    then unexpected Thrown.no_service_address
    else if text_eq partition_id []
    then unexpected Thrown.no_partition_id
    else if ltb high_water_mark 1
    then unexpected Thrown.bad_high_water_mark
    else value (record {
      connected = false;
      initialized = false;
      buffer = Buffer.construct high_water_mark;
    })

-- `IdAllocatorGrpcClient::fetch_block`
unfoldable pub fetch_block : Bool → Expected Thrown (ℕ × ℕ) → Expected Thrown (ℕ × ℕ)
fetch_block connected answer = if connected then answer else unexpected Thrown.not_connected

started : Client → Expected Thrown (Unit {0}) × Buffer.Buffer → Expected Thrown (Unit {0}) × Client
started c (value _, b) = (value tt, record c { initialized = true; buffer = b })
started c (unexpected e, b) = (unexpected e, record c { buffer = b })

unfoldable pub initialize : Client → Expected Thrown (ℕ × ℕ) → Expected Thrown (Unit {0}) × Client
unfolding started fetch_block
initialize c answer =
    if c.initialized
    then (unexpected Thrown.already_initialized, c)
    else started (record c { connected = true })
        (Buffer.initialize (fetch_block true answer) c.buffer)

unfoldable pub allocate_id : Client → Expected Thrown ℕ × Client
allocate_id c =
    if c.initialized
    then (let r = Buffer.allocate_id c.buffer in (r.0, record c { buffer = r.1 }))
    else (unexpected Thrown.not_initialized, c)

-- `late` is what a worker still in flight gets from its fetch.
unfoldable pub close : Expected Thrown (ℕ × ℕ) → Client → Client
close late c = record c {
  connected = false;
  initialized = false;
  buffer = Buffer.close late c.buffer;
}
