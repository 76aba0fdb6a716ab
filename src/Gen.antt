-- ===== src/Gen.antt =====
-- src/gen/minigen.{hpp,cpp}: the staged chunk generator. An int is its 32-bit pattern; the hashes
-- are numbers below 2 ^ 64 and wrap.
pub mod Hash
pub mod Structure
pub mod Chunk
pub mod Region
pub mod Stats
mod Examples
