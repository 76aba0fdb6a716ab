-- ===== src/Lib.antt =====
-- The world core of the voxel engine: the codecs, registries and stores under src/ of the
-- repository that the other parts rest on.
--
-- Parts, and the file that models each:
--   Base      shared names, Boolean tests, lists over native numbers, bit laws, option chains,
--             association lists for a std::map whose order is not looked at, signed integers
--   Bytes     the little-endian put and get helpers of the codecs, and the order of byte strings
--   Morton    src/voxel/morton.hpp: mortonEncode, mortonDecode and their bit spreading
--   Blob      src/world/voxel_blob.hpp: packVoxelBlob, unpackVoxelBlob, blobCellAt, readHeader
--   Identity  src/world/identity.hpp: isValidContentName, makeHandle, makeUuidV7, uuidLess,
--             formatUuid, parseUuid
--   Registry  src/world/registry.hpp: Slots for EntitySlotAllocator, Bindings for UuidIndex, which
--             asks the allocator whether a handle is alive; Content for ContentRegistry and its
--             manifest, whose names Identity checks and whose words Bytes writes
--   Store     src/store/store.hpp and src/store/memory_store.hpp: MemoryStore, on byte keys in the
--             order of Bytes/Order
--   ChunkKey  src/world/chunk_key.hpp: chunkStoreKey, the keys of the store's chunks
--   Capability  src/script/capability.hpp: splitValidate, wildcardLabelMatch,
--             capabilityGrantCovers; it stands apart from the others
--   Jobs      src/jobs/jobs.cpp: parallelFor over a scheduler, which is a parameter: the ranges of
--             indices that enkiTS hands out, in the order in which they complete
--   Mesh      src/mesh/greedy.{hpp,cpp}: Vertex, CellGrid, Mask, Emitter and Sweep, put together by
--             meshImpl, on the chunks of Blob; src/mesh/parallel.cpp: Parallel, on Jobs
--   Gen       src/gen/minigen.{hpp,cpp}: Hash, Structure (the trees), Chunk (the three stages),
--             Region (gathering and scattering, the hashes) and Stats
--   Belt      src/world/belt.hpp: loadOrGenerateRegion over a store interface, which Store fills in
--             Belt/Memory, with the chunks of Gen and the blobs of Blob; remapSlotsToContent on Mesh
--   Stream    src/world/stream.hpp: ChunkKey, the Streamer and its window; Pump: pump and quiescent,
--             over the load of one chunk, which Belt fills in Stream/OnBelt, and with Mesh
--   Solidity  src/world/solidity.hpp: SolidityWorld on chunks of Blob; Solidity/OnBelt puts the
--             chunks of Belt into it
--   Lod       src/world/lod_pyramid.hpp: the node keys, lodParent, lodChild, lodOctantOf and
--             lodDirtyChain, whose loop is given 29 rounds: enough, since each round climbs one of
--             28 levels; Storage, Hash and Payload: lodStorageKey with the bytes of ChunkKey, the
--             hashes, and the payload with the words of Bytes
--
-- Not modelled: the simulation; the SQLite backend (calls of SQLite, with the
-- contract of the in-memory one); the renderer under src/vk, the tools and main.cpp (calls of
-- Vulkan and of the window system, with I/O).
--
-- Conventions: a machine word is a native number with its range in the hypotheses, an int of the
-- generator and of the streamer is its 32-bit pattern (Base/Int32), elsewhere a signed number
-- (Base/Int), whose overflow, undefined in the source, is left out: a loop of the belt that ends
-- at 2 ^ 31 - 1, the child of a node at 2 ^ 30 or beyond; a byte vector is a list of numbers, a
-- loop is a recursion on the rounds that are left or on the list it walks, and std::nullopt is
-- `none`. Only the loop of lodDirtyChain needs fuel: the others count or walk a list.
pub mod Base
pub mod Bytes
pub mod Morton
pub mod Blob
pub mod Identity
pub mod Registry
pub mod Store
pub mod ChunkKey
pub mod Capability
pub mod Jobs
pub mod Mesh
pub mod Gen
pub mod Lod
pub mod Belt
pub mod Stream
pub mod Solidity
