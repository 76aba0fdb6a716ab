-- ===== src/Gen/Chunk.antt =====
-- src/gen/minigen.cpp: the three stages that generate one chunk. A chunk is the list of its 4096
-- cells, x fastest, then y, then z.
pub mod Acts
pub mod Stages
pub mod Decoration
pub mod Window
pub mod Pure
pub mod Contents
use voxel.Base.{
  ℕ, zero, suc, ◌+◌, ◌-◌, ◌*◌, ◌/◌, ◌%◌, ◌^◌, ◌≤◌, ◌<◌, bit_and, bit_or, bit_xor, ◌≡◌, refl, sym,
  ap, ◌∙◌, subst, ◌≢◌, ◌↔◌, ◌⊎◌, inl, inr, Bool, true, false, not, ◌&&◌, ◌||◌, Option, none, some,
  List, [], ◌∷◌, ◌++◌, map, append_assoc, append-nil, arith, dec_lt, dec_le, ℕ_discrete, ltb, leb,
  ◌==◌, if◌then◌else◌, ltb→lt, lt→ltb, ltb-false→le, ==_iff, ==_refl, Bool-cases, Bool-agree,
  Option-cases, length, get_elem?, get_or, set, replicate, All, length-append, length-set,
  length-replicate, get_or-append_right, get_or-append_left, get_or-append_last, get_or-set_self,
  get_or-set_ne, get_or-replicate, eq_of_get_or, All-get_or, All-append, All-set, take, drop,
  take-append, drop-append, set-append, eq_tabulate, ◌>>=◌, ◌>>◌, reject, >>=-eq-some, reject->>,
  some_inj, get_or-map, length-map,
}
use voxel.Base.Int32.{int_add, int_sub, int_mul, int_lt}
use voxel.Base.Loops.{for_below}
use voxel.Gen.Hash.{surface_height, is_anchor, hash_coords, salt_deco}
use voxel.Gen.Structure.{
  Callback, for_each_structure_cell, reach_xz, air, stone, dirt, grass, flower,
}

abbrev pub gen_edge : ℕ
gen_edge = 16

pub record GenChunkPos : Type 0 where
  pub cx : ℕ
  pub cy : ℕ
  pub cz : ℕ

abbrev pub GenChunk : Type 0
GenChunk = List ℕ

abbrev pub gen_index : ℕ → ℕ → ℕ → ℕ
gen_index x y z = x + gen_edge * (y + gen_edge * z)

abbrev pub chunk_at : GenChunk → ℕ → ℕ → ℕ → ℕ
chunk_at chunk x y z = get_or chunk (gen_index x y z) air

abbrev pub chunk_set : GenChunk → ℕ → ℕ → ℕ → ℕ → GenChunk
chunk_set chunk x y z c = set chunk (gen_index x y z) c

unfoldable pub blank_chunk : GenChunk
blank_chunk = replicate (gen_edge * gen_edge * gen_edge) air

-- `cp.cx * kGenChunk`
abbrev pub base_of : ℕ → ℕ
base_of c = int_mul c gen_edge

-- The content that the height of the column gives.
unfoldable pub terrain_content : ℕ → ℕ → ℕ
terrain_content h wy =
    if int_lt wy (int_sub h 3)
    then stone
    else if int_lt wy h
    then dirt
    else if wy == h
    then grass
    else air

unfoldable pub terrain_fill_chunk : ℕ → GenChunkPos → GenChunk → GenChunk
terrain_fill_chunk seed cp = for_below gen_edge (λ z. for_below gen_edge (λ x.
    let h = surface_height seed (int_add (base_of cp.cx) x) (int_add (base_of cp.cz) z) in
    for_below gen_edge
      (λ y out. chunk_set out x y z (terrain_content h (int_add (base_of cp.cy) y)))))

-- `x >= 0 && x < kGenChunk`
abbrev pub on_edge : ℕ → Bool
on_edge x = not (int_lt x 0) && int_lt x gen_edge

unfoldable pub write_cell_into_chunk : ℕ → ℕ → ℕ → Callback GenChunk
write_cell_into_chunk bx by bz wx wy wz c chunk =
    let x = int_sub wx bx in
    let y = int_sub wy by in
    let z = int_sub wz bz in
    if on_edge x && (on_edge y && on_edge z) then chunk_set chunk x y z c else chunk

-- The structures anchored in the columns that lie up to `margin` outside of the chunk's, z outermost.
unfoldable pub gather_anchors : ℕ → ℕ → GenChunkPos → GenChunk → GenChunk
gather_anchors margin seed cp =
    let bx = base_of cp.cx in
    let by = base_of cp.cy in
    let bz = base_of cp.cz in
    for_below (margin + gen_edge + margin) (λ j. for_below (margin + gen_edge + margin) (λ i chunk.
      let wz = int_add (int_sub bz margin) j in
      let wx = int_add (int_sub bx margin) i in
      if is_anchor seed wx wz
      then for_each_structure_cell seed wx wz (write_cell_into_chunk bx by bz) chunk
      else chunk))

unfoldable pub decorate_chunk : ℕ → GenChunkPos → GenChunk → GenChunk
decorate_chunk seed cp = for_below gen_edge (λ z. for_below gen_edge (λ y.
    for_below gen_edge (λ x inout.
      let wx = int_add (base_of cp.cx) x in
      let wy = int_add (base_of cp.cy) y in
      let wz = int_add (base_of cp.cz) z in
      if chunk_at inout x y z == grass && hash_coords seed wx wy wz salt_deco % 7 == 0
      then chunk_set inout x y z flower
      else inout)))

unfoldable pub generate_chunk : ℕ → GenChunkPos → GenChunk → GenChunk
generate_chunk seed cp out =
    decorate_chunk seed cp (gather_anchors reach_xz seed cp (terrain_fill_chunk seed cp out))
