-- ===== src/Lod/Storage.antt =====
-- src/world/lod_pyramid.hpp: lodStorageKey, the storage key of a node, and its order. A part of Lod.
use voxel.Base.{ℕ, ◌≡◌, ap, Bool, List, ◌∷◌, ◌++◌, ltb, ◌==◌, if◌then◌else◌}
use voxel.Base.Int.{IsInt32}
use voxel.Bytes.Order.{bytes_less}
use voxel.ChunkKey.{chunk_store_key, put_axis}
use voxel.ChunkKey.Order.{before_chunk, bytes_less-chunk_store_key}
use voxel.Lod.{LodNodeKey}

-- The level, then `put` on x, y and z.
unfoldable pub lod_storage_key : LodNodeKey → List ℕ
lod_storage_key k = k.level ∷ (put_axis k.x ++ (put_axis k.y ++ put_axis k.z))

-- By level, then by x, by y and by z.
unfoldable pub before_node : LodNodeKey → LodNodeKey → Bool
before_node k l =
    if k.level == l.level then before_chunk k.x k.y k.z l.x l.y l.z else ltb k.level l.level

abbrev pub IsInRange : LodNodeKey → Type 0
IsInRange k = IsInt32 k.x × IsInt32 k.y × IsInt32 k.z

-- For coordinates of 32 bits the byte order of the storage keys is the order of the nodes: level by
-- level, and in a level by x, then y, then z, negative ones first.
pub bytes_less-lod_storage_key :
    (k l : LodNodeKey)
    → IsInRange k
    → IsInRange l
    → bytes_less (lod_storage_key k) (lod_storage_key l) ≡ before_node k l
unfolding lod_storage_key before_node bytes_less chunk_store_key
bytes_less-lod_storage_key k l (kx, ky, kz) (lx, ly, lz) =
    ap (λ t. if k.level == l.level then t else ltb k.level l.level)
      (bytes_less-chunk_store_key k.x k.y k.z l.x l.y l.z kx ky kz lx ly lz)
