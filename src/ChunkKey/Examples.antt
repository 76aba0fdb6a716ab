-- ===== src/ChunkKey/Examples.antt =====
-- The keys of two chunks: a test.
use voxel.Base.{◌≡◌, arith}
use voxel.Base.Int.{pos, negsuc}
use voxel.Bytes.Order.{bytes_less}
use voxel.ChunkKey.{chunk_store_key}
use voxel.ChunkKey.Order.{before_chunk, bytes_less-chunk_store_key}

key_example :
    bytes_less
      (chunk_store_key (negsuc 0) (pos 7) (pos 0))
      (chunk_store_key (pos 0) (negsuc 4) (pos 0))
    ≡ before_chunk (negsuc 0) (pos 7) (pos 0) (pos 0) (negsuc 4) (pos 0)
key_example =
    bytes_less-chunk_store_key (negsuc 0) (pos 7) (pos 0) (pos 0) (negsuc 4) (pos 0) (omega arith)
      (omega arith) (omega arith) (omega arith) (omega arith) (omega arith)
