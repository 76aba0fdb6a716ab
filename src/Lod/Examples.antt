-- ===== src/Lod/Examples.antt =====
-- The node of the chunk at (-1, 5, 0) and its parent: tests.
use voxel.Base.{◌+◌, ◌≡◌, ◌≢◌, ◌^◌, refl, some, List, [], ◌∷◌, arith, length, ℕ}
use voxel.Base.Int.{pos, negsuc, IsInt32}
use voxel.Lod.{
  LodNodeKey, lod_top_level, lod_key_for_chunk, lod_parent, lod_child, lod_octant_of,
  lod_dirty_chain, lod_floor_half, double_add,
}
use voxel.Lod.Hash.{
  lod_chunk_hash, lod_parent_hash, lod_fnv1a64, lod_fnv_offset, present_bytes, eat,
  lod_chunk_hash_one_byte, lod_parent_hash-lod_fnv1a64,
}
use voxel.Lod.Payload.{
  LodPayloadV1, lod_payload_serialize, lod_payload_deserialize,
  lod_payload_deserialize-lod_payload_serialize,
}
use voxel.Lod.Storage.{lod_storage_key, before_node, bytes_less-lod_storage_key}
use voxel.Bytes.Order.{bytes_less}
use voxel.Lod.Family.{lod_parent-lod_child}
use voxel.Lod.Chain.{Climbs, lod_dirty_chain-Climbs}

abbrev node : LodNodeKey
node = record { level = 0; x = negsuc 0; y = pos 5; z = pos 0 }

abbrev above_node : LodNodeKey
above_node = record { level = 1; x = negsuc 0; y = pos 2; z = pos 0 }

node_parent : lod_parent node ≡ some above_node
unfolding lod_parent lod_floor_half
node_parent = refl

node_child : lod_child above_node 3 ≡ some node
unfolding lod_child double_add
node_child = refl

child_example :
    (lod_parent node ≡ some above_node)
    × (lod_octant_of node ≡ 3)
    × IsInt32 (negsuc 0)
    × IsInt32 (pos 5)
    × IsInt32 (pos 0)
child_example =
    lod_parent-lod_child above_node node 3 (omega arith) (omega arith) (omega arith) (omega arith)
      node_child

chain_example :
    (length (lod_dirty_chain (negsuc 0) (pos 5) (pos 0)) ≡ lod_top_level + 1)
    × ((above : List LodNodeKey) × (lod_dirty_chain (negsuc 0) (pos 5) (pos 0)
          ≡ lod_key_for_chunk (negsuc 0) (pos 5) (pos 0) ∷ above)
        × Climbs (lod_key_for_chunk (negsuc 0) (pos 5) (pos 0)) above)
chain_example = lod_dirty_chain-Climbs (negsuc 0) (pos 5) (pos 0)

-- The published value of FNV-1a for the letter a.
fnv_of_a : lod_chunk_hash (97 ∷ []) ≡ 0xAF63DC4C8601EC8C
unfolding lod_chunk_hash lod_fnv1a64 eat
fnv_of_a = refl

one_byte_example : lod_chunk_hash (1 ∷ 2 ∷ 3 ∷ []) ≢ lod_chunk_hash (1 ∷ 9 ∷ 3 ∷ [])
one_byte_example =
    lod_chunk_hash_one_byte (1 ∷ []) (3 ∷ []) 2 9 (omega arith, tt) (omega arith) (omega arith)
      (λ e. omega arith)

abbrev two_children : List ℕ
two_children = 7 ∷ 0 ∷ 8 ∷ 0 ∷ 0 ∷ 0 ∷ 0 ∷ 0 ∷ []

parent_hash_example :
    lod_parent_hash 1 5 two_children
    ≡ lod_fnv1a64 (1 ∷ 5 ∷ present_bytes 5 0 two_children) lod_fnv_offset
parent_hash_example = lod_parent_hash-lod_fnv1a64 1 5 two_children

storage_key_example :
    bytes_less (lod_storage_key node) (lod_storage_key above_node) ≡ before_node node above_node
storage_key_example =
    bytes_less-lod_storage_key node above_node (omega arith, omega arith, omega arith)
      (omega arith, omega arith, omega arith)

abbrev payload : LodPayloadV1
payload = record {
  content_hash = 2 ^ 63 + 5;
  occupancy4 = 0xFF;
  dominant_content = 70_003;
  solid_cells = 12;
}

payload_example : lod_payload_deserialize (lod_payload_serialize payload) ≡ some payload
payload_example =
    lod_payload_deserialize-lod_payload_serialize payload
      (omega arith, omega arith, omega arith, omega arith)
