-- ===== src/Id/Service.antt =====
-- service/id_allocator_service.cpp and service/id_allocator_admin_service.cpp: what a request gets.
-- Of a `grpc::Status` the code is kept, and the text of its message left out.
use artifact_system.Base.{ℕ, List, none, some, Text}
use artifact_system.Id.Expected.{Expected, value, unexpected, StoreError}
use artifact_system.Id.Partition.{PartitionConfig, validate}
use artifact_system.Id.Store.{BlockStore}
use artifact_system.Id.Allocator.Monad.{Stop, failed, undrawn}
use artifact_system.Id.Manager.{Manager}
use artifact_system.Id.Manager

pub data StatusCode : Type 0 where
  ok invalid_argument not_found already_exists resource_exhausted unavailable internal : StatusCode

-- The status of `AllocateBlock` and the range of its response. `undrawn` is no answer.
pub data Reply : Type 0 where
  range : ℕ → ℕ → Reply
  status : StatusCode → Reply
  no_answer : Reply

unfoldable pub block_error : StoreError → StatusCode
block_error StoreError.not_found = StatusCode.not_found
block_error StoreError.resource_exhausted = StatusCode.resource_exhausted
block_error StoreError.unavailable = StatusCode.unavailable
block_error StoreError.already_exists = StatusCode.internal
block_error StoreError.invalid_argument = StatusCode.internal

unfoldable pub reply_of : Expected Stop (ℕ × ℕ) → Reply
unfolding block_error
reply_of (value (range_start, range_end)) = range range_start range_end
reply_of (unexpected (failed e)) = status (block_error e)
reply_of (unexpected undrawn) = no_answer

unfoldable pub allocate_block : {S : Type 0} → BlockStore S → Text → Manager S → Reply × Manager S
unfolding reply_of
allocate_block store partition_id m =
    let r = Manager.allocate_block store partition_id m in (reply_of r.0, r.1)

create_error : StoreError → StatusCode
create_error StoreError.already_exists = StatusCode.already_exists
create_error StoreError.invalid_argument = StatusCode.invalid_argument
create_error StoreError.unavailable = StatusCode.unavailable
create_error StoreError.not_found = StatusCode.internal
create_error StoreError.resource_exhausted = StatusCode.internal

create_status : Expected StoreError (Unit {0}) → StatusCode
unfolding create_error
create_status (value _) = StatusCode.ok
create_status (unexpected e) = create_error e

-- The request's fields are the fields of the configuration.
unfoldable pub create_partition :
    {S : Type 0} → BlockStore S → PartitionConfig → List ℕ → Manager S → StatusCode × Manager S
unfolding create_status
create_partition store config rng m = elim (validate config) [
  | some e ↦ (StatusCode.invalid_argument, m)
  | none ↦ let r = Manager.create_partition store config rng m in (create_status r.0, r.1)
]

get_error : StoreError → StatusCode
get_error StoreError.not_found = StatusCode.not_found
get_error StoreError.unavailable = StatusCode.unavailable
get_error StoreError.already_exists = StatusCode.internal
get_error StoreError.invalid_argument = StatusCode.internal
get_error StoreError.resource_exhausted = StatusCode.internal

unfoldable pub get_partition : {S : Type 0} → Text → Manager S → Expected StatusCode PartitionConfig
unfolding get_error
get_partition partition_id m = elim (Manager.get_partition partition_id m) [
  | value config ↦ value config
  | unexpected e ↦ unexpected (get_error e)
]

-- Only an unavailable store is an error; `not_found` is none.
delete_status : Expected StoreError (Unit {0}) → StatusCode
delete_status (unexpected StoreError.unavailable) = StatusCode.unavailable
delete_status _ = StatusCode.ok

unfoldable pub delete_partition :
    {S : Type 0} → BlockStore S → Text → Manager S → StatusCode × Manager S
unfolding delete_status
delete_partition store partition_id m =
    let r = Manager.delete_partition store partition_id m in (delete_status r.0, r.1)
