-- ===== src/Belt.antt =====
-- src/world/belt.hpp: the conveyor belt, which loads a region of chunks from a store and generates
-- what is missing, and the renderer's slot adapter. The store is a parameter: its two operations on
-- the chunk space.
pub mod Contents
pub mod Passes
pub mod Memory
pub mod Remap
mod Examples
use voxel.Base.{
  ℕ, zero, suc, ◌+◌, ◌-◌, ◌*◌, ◌/◌, ◌%◌, ◌^◌, ◌≤◌, ◌<◌, bit_and, bit_or, bit_xor, ◌≡◌, refl, sym,
  ap, ◌∙◌, subst, ◌≢◌, ◌↔◌, ◌⊎◌, inl, inr, Bool, true, false, not, ◌&&◌, ◌||◌, Option, none, some,
  List, [], ◌∷◌, ◌++◌, map, append_assoc, append-nil, arith, dec_lt, dec_le, ℕ_discrete, ltb, leb,
  ◌==◌, if◌then◌else◌, ltb→lt, lt→ltb, ltb-false→le, ==_iff, ==_refl, Bool-cases, Bool-agree,
  Option-cases, length, get_elem?, get_or, set, replicate, All, length-append, length-set,
  length-replicate, get_or-append_right, get_or-append_left, get_or-append_last, get_or-set_self,
  get_or-set_ne, get_or-replicate, eq_of_get_or, All-get_or, All-append, All-set, take, drop,
  take-append, drop-append, set-append, eq_tabulate, ◌>>=◌, ◌>>◌, reject, >>=-eq-some, reject->>,
  some_inj, get_or-map, length-map,
}
use voxel.Base.Int.{ℤ, pos, negsuc, to_u32}
use voxel.Base.Loops.{for_below}
use voxel.Blob.{CellValue, no_cell, UnpackedChunk, pack_voxel_blob, unpack_voxel_blob}
use voxel.ChunkKey.{chunk_store_key}
use voxel.Gen.Chunk.{GenChunk, GenChunkPos, gen_edge, chunk_at, blank_chunk, generate_chunk}
use voxel.Mesh.Emitter.{ChunkMesh}
use voxel.Mesh.Vertex.{PackedVertex}
use voxel.Morton.{LocalPos, morton_encode}
use voxel.Store.{Bytes}

-- `get` and `put` of a KvStore on StoreSpace::kChunks.
pub record ChunkStore (S : Type 0) : Type 0 where
  pub get : S → Bytes → Option Bytes
  pub put : S → Bytes → Bytes → S × Bool

pub record BeltChunk : Type 0 where
  pub x : ℤ
  pub y : ℤ
  pub z : ℤ
  pub chunk : UnpackedChunk
  pub from_store : Bool
  pub persisted : Bool

-- `++c`, which overflows in the source when a box ends at 2 ^ 31 - 1: such boxes are left out.
unfoldable pub next_int : ℤ → ℤ
next_int (pos n) = pos (n + 1)
next_int (negsuc zero) = pos 0
next_int (negsuc (suc n)) = negsuc n

-- How often `for (c = a; c <= b; ++c)` runs.
unfoldable pub rounds : ℤ → ℤ → ℕ
rounds (pos a) (pos b) = b + 1 - a
rounds (pos a) (negsuc b) = 0
rounds (negsuc a) (pos b) = a + 1 + (b + 1)
rounds (negsuc a) (negsuc b) = a + 1 - b

unfoldable pub ints_from : ℤ → ℕ → List ℤ
ints_from a zero = []
ints_from a (suc n) = a ∷ ints_from (next_int a) n

-- The counter's values.
abbrev pub ints : ℤ → ℤ → List ℤ
ints a b = ints_from a (rounds a b)

pub record BoxPos : Type 0 where
  pub x : ℤ
  pub y : ℤ
  pub z : ℤ

-- The positions that the loops over cz, cy and cx meet, cx innermost.
unfoldable pub row_positions : ℤ → ℤ → List ℤ → List BoxPos
row_positions cz cy [] = []
row_positions cz cy (cx ∷ xs) = record { x = cx; y = cy; z = cz } ∷ row_positions cz cy xs

unfoldable pub slice_positions : ℤ → List ℤ → List ℤ → List BoxPos
slice_positions cz [] xs = []
slice_positions cz (cy ∷ ys) xs = row_positions cz cy xs ++ slice_positions cz ys xs

unfoldable pub box_positions : List ℤ → List ℤ → List ℤ → List BoxPos
box_positions [] ys xs = []
box_positions (cz ∷ zs) ys xs = slice_positions cz ys xs ++ box_positions zs ys xs

-- The three loops that copy the cells into Morton order.
unfoldable pub morton_cells : GenChunk → List CellValue
morton_cells g =
    for_below gen_edge
      (λ z. for_below gen_edge (λ y. for_below gen_edge (λ x cells.
        set cells (morton_encode (record { x = x; y = y; z = z }))
          (record { content = chunk_at g x y z; state = 0 }))))
      (replicate 4096 no_cell)

-- `packVoxelBlob(cells, 4)` of the generated chunk.
unfoldable pub generated_blob : ℕ → ℤ → ℤ → ℤ → Bytes
generated_blob seed cx cy cz =
    let at : GenChunkPos = record { cx = to_u32 cx; cy = to_u32 cy; cz = to_u32 cz } in
    pack_voxel_blob (morton_cells (generate_chunk seed at blank_chunk)) 4

-- Dereferencing the empty optional would be undefined; `Contents` shows that it is not empty.
abbrev pub no_chunk : UnpackedChunk
no_chunk = record { log2_extent = 0; palette = []; cells = [] }

unfoldable pub value_of : Option UnpackedChunk → UnpackedChunk
value_of none = no_chunk
value_of (some chunk) = chunk

module _ {S : Type 0} (store : ChunkStore S) (seed : ℕ) where
  -- The rest of the body after a miss.
  unfoldable pub generate_and_put : S → ℤ → ℤ → ℤ → S × BeltChunk
  generate_and_put s cx cy cz =
      let blob = generated_blob seed cx cy cz in
      let (s', persisted) = store.put s (chunk_store_key cx cy cz) blob in
      (
        s',
        record {
          x = cx;
          y = cy;
          z = cz;
          chunk = value_of (unpack_voxel_blob blob);
          from_store = false;
          persisted = persisted;
        },
      )

  -- The body of the loops.
  unfoldable pub load_or_generate : S → ℤ → ℤ → ℤ → S × BeltChunk
  load_or_generate s cx cy cz =
      elim (store.get s (chunk_store_key cx cy cz) >>= unpack_voxel_blob) [
        | none ↦ generate_and_put s cx cy cz
        | some chunk ↦ (
          s,
          record { x = cx; y = cy; z = cz; chunk = chunk; from_store = true; persisted = true },
        )
      ]

  -- The loops, over the positions in their order.
  unfoldable pub load_each : S → List BoxPos → S × List BeltChunk
  load_each s [] = (s, [])
  load_each s (at ∷ more) =
      let (s1, chunk) = load_or_generate s at.x at.y at.z in
      let (s2, chunks) = load_each s1 more in (s2, chunk ∷ chunks)

  unfoldable pub load_or_generate_region : S → ℤ → ℤ → ℤ → ℤ → ℤ → ℤ → S × List BeltChunk
  load_or_generate_region s x0 y0 z0 x1 y1 z1 =
      load_each s (box_positions (ints z0 z1) (ints y0 y1) (ints x0 x1))

-- One vertex of the adapter's loop.
unfoldable pub remap_vertex : UnpackedChunk → PackedVertex → PackedVertex
remap_vertex chunk v = if leb (length chunk.palette) v.slot then v else record {
  pos_face = v.pos_face;
  slot = bit_and (get_or chunk.palette v.slot no_cell).content 0xFFFF;
}

unfoldable pub remap_slots_to_content : ChunkMesh → UnpackedChunk → ChunkMesh
remap_slots_to_content m chunk = record {
  vertices = map (remap_vertex chunk) m.vertices;
  indices = m.indices;
  quad_count = m.quad_count;
}
