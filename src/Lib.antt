-- ===== src/Lib.antt =====
-- A verification library of the artifact system: of its ID allocator, of the encodings of the
-- artifact layer, and of the artifact layer's in-memory storage. Paths are from the repository's root.
--
-- The parts of the program, and the modules that model them.
--
-- The ID allocator's service (id-allocator/id-allocator-service/src) hands out blocks of 53-bit IDs.
-- An ID is a bucket index above a counter (id_format.h: Id.Format). A partition fixes the number of
-- buckets and the sizes of blocks (partition/partition.h: Id.Partition). The counters of the buckets
-- are in a store behind an interface (store/block_store.h and store/memory_store.cpp: Id.Store, with
-- the interface as the record `BlockStore` and its promise as `BlockStoreLaws`). For each partition an
-- allocator (allocator/super_block.h, allocator/bucket_selector.cpp and
-- allocator/super_block_allocator.cpp: Id.SuperBlock and Id.Allocator) draws a bucket, takes a super
-- block from its counter and cuts it into blocks; a second super block is fetched by a thread. The
-- manager (partition/partition_manager.cpp: Id.Manager) keeps a map of the allocators and calls the
-- store; the gRPC handlers (service/*.cpp: Id.Service) call the manager.
--
-- The C++ client (id-allocator/id-allocator-client-cpp/src/id_allocator_client) keeps two blocks of
-- IDs, and a thread refills the second (block.cpp, block_double_buffer.cpp, client.cpp,
-- grpc_client.cpp and retry.h: Id.Client).
--
-- The encodings (artifact-layer/src/encoding) make the paths of the objects that the artifact layer
-- stores: base64url.cpp (Encoding.Base64Url), the varints of index_key_encoder.cpp (Encoding.Varint)
-- and artifact_path.cpp (Encoding.Path).
--
-- The in-memory storage (artifact-layer/src/storage/memory_storage.cpp and memory_storage.h, with the
-- interface and MergeResult of storage_interface.h) keeps branches with staged changes above commits
-- with full snapshots. Storage.State has the data, ResolveState and ResolveRefState; Storage.Memory
-- the operations on branches and objects and Commit; Storage.MergeBase FindMergeBase;
-- Storage.ThreeWay the loop of Merge over the paths; Storage.Merge the whole of Merge.
-- Storage.History has the calls as data, and what a sequence of them makes of a storage.
--
-- The refs that a request reads and writes (artifact-layer/src/transaction/context_ref_resolver.cpp:
-- Transaction.ContextRef) come from the ids of snapshots and transactions, by the interfaces of the
-- storage and of the transaction manager; Transaction.ContextRef.Lifecycle puts the manager below in.
--
-- The decision to try a conflicting commit again (transaction/conflict_resolver.cpp beside it:
-- Transaction.Conflict) reads the conflict that a merge reports.
-- Transaction.ConflictDetail has the part of a conflict's report that names the artifact: the path
-- that conflict_resolver.cpp decodes.
--
-- The transaction manager (artifact-layer/src/transaction/transaction_manager.cpp) keeps a transaction as a branch of the storage with a `_txn_meta` object
-- on it. Transaction.Meta prints and reads that object; Transaction.Manager has the creation, the
-- snapshot and the rollback of a transaction and the guards of its state; Transaction.Commit the
-- commit with its merges, the metadata that is taken away and restored around each, and the loop of
-- attempts. Transaction.WriteExecutor (transaction/write_executor.cpp) runs a write in a child
-- transaction and commits it. These are actions on a world (Transaction.Action): the storage, and
-- the supply of UUIDs. They call the storage through its interface (storage/storage_interface.h: Storage.Interface), which
-- the storage in memory implements.
--
-- The merge of index objects (artifact-layer/src/index/index_merge.cpp, with the cells of
-- index_object.h and index_object.cpp beside it) is a three-way merge of rows by their artifact.
-- Index.Cell has the cells and their order, Index.Rows the comparisons of rows, Index.Deltas the
-- changes of the two sides put on the base, and Index.Merge the whole merge with its checks and the
-- sort. A floating-point cell is the bits of its IEEE 754 format.
--
-- The integrity of references (artifact-layer/src/artifact/referential_integrity.cpp, with
-- proto_utils.h beside it) is checked when an artifact is written, and when one is removed. Artifact.Stored has the stored
-- envelopes and protobuf's parsers as arguments, Artifact.References the check of a message's
-- references at a write (ValidateReferences), Artifact.Referencing the search by the covering
-- indexes, and Artifact.Deletes EnforceDeleteIntegrity with its policies and its recursion.
--
-- How the code is rendered. Each C++ function is a function of the same name in snake case; a method
-- takes the object's state and returns it with the result, and a method that runs under a mutex is one
-- step. Threads are steps of their own: a history is a list of events in any order. Unsigned
-- arithmetic is written with its wrap-around, `% 2 ^ 64`. A `std::map` is an association list in the
-- order of its keys (Base.Dicts), a `std::string` the list of its bytes (Base.Keys). Texts of error
-- messages, logging and metrics are left out. Random draws, the clock, UUIDs, OpenSSL's SHA-256, and
-- absl's decimal numerals, StrSplit and SimpleAtoi are arguments of the definitions that use them; so
-- are the classifier and the resolver of the index layer, which the constructor of the transaction manager
-- takes by default, and the write of a write executor.
--
-- Bounds and fuel. DecodeVarint reads at most ten bytes, and its loop is recursion on the text.
-- The loop of `build_ancestor_depths` runs on fuel: a commit of number `n` weighs `3 ^ n`, since it
-- has at most two parents and they have lower numbers, so the weight of the next commit number covers
-- every walk. Commit numbers are `uint64_t`; theorems that add commits say that they do not wrap.
-- The loop of attempts of a commit is recursion on the attempts that are left.
-- EnforceDeleteIntegrity runs on fuel: each level of the recursion schedules an artifact that was
-- not scheduled before, so the number of artifacts that the indexes name is enough.
--
-- Not modelled: the Datastore store and the LakeFS client (calls of external services), the
-- derivation of indexes and their conflict resolver, the
-- artifact store and the type registry of the artifact layer, the start-up of the servers, the
-- JavaScript clients, and the generated code of protobuf and gRPC.
pub mod Base
pub mod Id
pub mod Encoding
pub mod Storage
pub mod Transaction
pub mod Index
pub mod Artifact
