-- ===== src/Gen/Region.antt =====
-- src/gen/minigen.cpp: the standard region of 8 x 4 x 8 chunks, generated by gathering and by
-- scattering, and the hashes.
pub mod Gather
use voxel.Base.{
  ℕ, zero, suc, ◌+◌, ◌-◌, ◌*◌, ◌/◌, ◌%◌, ◌^◌, ◌≤◌, ◌<◌, bit_and, bit_or, bit_xor, ◌≡◌, refl, sym,
  ap, ◌∙◌, subst, ◌≢◌, ◌↔◌, ◌⊎◌, inl, inr, Bool, true, false, not, ◌&&◌, ◌||◌, Option, none, some,
  List, [], ◌∷◌, ◌++◌, map, append_assoc, append-nil, arith, dec_lt, dec_le, ℕ_discrete, ltb, leb,
  ◌==◌, if◌then◌else◌, ltb→lt, lt→ltb, ltb-false→le, ==_iff, ==_refl, Bool-cases, Bool-agree,
  Option-cases, length, get_elem?, get_or, set, replicate, All, length-append, length-set,
  length-replicate, get_or-append_right, get_or-append_left, get_or-append_last, get_or-set_self,
  get_or-set_ne, get_or-replicate, eq_of_get_or, All-get_or, All-append, All-set, take, drop,
  take-append, drop-append, set-append, eq_tabulate, ◌>>=◌, ◌>>◌, reject, >>=-eq-some, reject->>,
  some_inj, get_or-map, length-map,
}
use voxel.Base.Int32.{int_add, int_lt}
use voxel.Base.Loops.{for_below}
use voxel.Gen.Chunk.{
  GenChunk, GenChunkPos, gen_edge, chunk_set, blank_chunk, base_of, terrain_fill_chunk,
  decorate_chunk, generate_chunk,
}
use voxel.Gen.Hash.{surface_height, is_anchor}
use voxel.Gen.Structure.{Callback, for_each_structure_cell}

abbrev pub region_cx : ℕ
region_cx = 8

abbrev pub region_cy : ℕ
region_cy = 4

abbrev pub region_cz : ℕ
region_cz = 8

abbrev pub standard_seed : ℕ
standard_seed = 0x5350494B45312031

abbrev pub world_extent_x : ℕ
world_extent_x = region_cx * gen_edge

abbrev pub world_extent_y : ℕ
world_extent_y = region_cy * gen_edge

abbrev pub world_extent_z : ℕ
world_extent_z = region_cz * gen_edge

-- The chunks, cx fastest, then cy, then cz.
abbrev pub GenRegion : Type 0
GenRegion = List GenChunk

unfoldable pub blank_region : GenRegion
blank_region = replicate (region_cx * region_cy * region_cz) blank_chunk

abbrev pub region_index : ℕ → ℕ → ℕ → ℕ
region_index cx cy cz = cx + region_cx * (cy + region_cy * cz)

unfoldable pub region_at : GenRegion → ℕ → ℕ → ℕ → GenChunk
region_at region cx cy cz = get_or region (region_index cx cy cz) []

-- `out.chunkAt(cx, cy, cz)` after `f` has changed it.
unfoldable pub region_update : GenRegion → ℕ → ℕ → ℕ → (GenChunk → GenChunk) → GenRegion
region_update region cx cy cz f = set region (region_index cx cy cz) (f (region_at region cx cy cz))

unfoldable pub generate_at : ℕ → ℕ → ℕ → ℕ → GenRegion → GenRegion
generate_at seed cx cy cz out =
    region_update out cx cy cz (generate_chunk seed (record { cx = cx; cy = cy; cz = cz }))

unfoldable pub generate_region_gather : ℕ → GenRegion → GenRegion
generate_region_gather seed =
    for_below region_cz
      (λ cz. for_below region_cy (λ cy. for_below region_cx (λ cx. generate_at seed cx cy cz)))

-- `v < 0 || v >= extent`
abbrev pub off_world : ℕ → ℕ → Bool
off_world v extent = int_lt v 0 || not (int_lt v extent)

unfoldable pub write_cell_into_region : Callback GenRegion
write_cell_into_region wx wy wz c region =
    if off_world wx world_extent_x || (off_world wy world_extent_y || off_world wz world_extent_z)
    then region
    else region_update region (wx / gen_edge) (wy / gen_edge) (wz / gen_edge)
        (λ chunk. chunk_set chunk (wx % gen_edge) (wy % gen_edge) (wz % gen_edge) c)

-- The anchors that the chunk owns push their structures into the region.
unfoldable pub scatter_anchors : ℕ → GenChunkPos → GenRegion → GenRegion
scatter_anchors seed cp = for_below gen_edge (λ j. for_below gen_edge (λ i region.
    let wz = int_add (base_of cp.cz) j in
    let wx = int_add (base_of cp.cx) i in
    if is_anchor seed wx wz && surface_height seed wx wz / gen_edge == cp.cy
    then for_each_structure_cell seed wx wz write_cell_into_region region
    else region))

unfoldable pub scatter_chunk : ℕ → GenChunkPos → GenRegion → GenRegion
scatter_chunk seed cp out =
    let filled = region_update out cp.cx cp.cy cp.cz (terrain_fill_chunk seed cp) in
    region_update (scatter_anchors seed cp filled) cp.cx cp.cy cp.cz (decorate_chunk seed cp)

unfoldable pub generate_region_scatter : ℕ → List GenChunkPos → GenRegion → GenRegion
generate_region_scatter seed [] out = out
generate_region_scatter seed (cp ∷ order) out =
    generate_region_scatter seed order (scatter_chunk seed cp out)

abbrev pub fnv_offset : ℕ
fnv_offset = 0xCBF29CE484222325

abbrev pub fnv_prime : ℕ
fnv_prime = 0x100000001B3

-- `(h ^ byte) * 0x100000001B3ull`
unfoldable pub fnv_step : ℕ → ℕ → ℕ
fnv_step h byte = bit_xor h byte * fnv_prime % 2 ^ 64

unfoldable pub hash_cells : ℕ → GenChunk → ℕ
hash_cells h [] = h
hash_cells h (c ∷ cells) = hash_cells (fnv_step (fnv_step h (bit_and c 0xFF)) (c / 2 ^ 8)) cells

unfoldable pub hash_chunk : GenChunk → ℕ
hash_chunk chunk = hash_cells fnv_offset chunk

-- The eight bytes of a chunk hash, the lowest first.
unfoldable pub hash_word : ℕ → ℕ → ℕ → ℕ
hash_word zero ch h = h
hash_word (suc i) ch h = hash_word i (ch / 2 ^ 8) (fnv_step h (bit_and ch 0xFF))

unfoldable pub hash_chunks : ℕ → GenRegion → ℕ
hash_chunks h [] = h
hash_chunks h (chunk ∷ chunks) = hash_chunks (hash_word 8 (hash_chunk chunk) h) chunks

unfoldable pub hash_region : GenRegion → ℕ
hash_region region = hash_chunks fnv_offset region
