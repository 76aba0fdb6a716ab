-- ===== src/Belt/Examples.antt =====
-- The belt on an empty store, and the adapter on a quad.
use voxel.Base.{◌≡◌, refl, true, [], ◌∷◌, map}
use voxel.Base.Int.{pos, negsuc}
use voxel.Belt.{load_or_generate_region, remap_slots_to_content, next_int, rounds, ints, ints_from}
use voxel.Belt.Memory.{memory_chunks, second_pass}
use voxel.Belt.Passes.{reloaded}
use voxel.Belt.Remap.{content_of_slot, painted-remap_slots_to_content}
use voxel.Blob.{no_cell, UnpackedChunk}
use voxel.Mesh.Emitter.{Rect, quad, empty_mesh}
use voxel.Mesh.Emitter.Painted.{UnitFace, painted}
use voxel.Mesh.Emitter.Quads.{quad-IsWhole}
use voxel.Store.{empty_store}
use voxel.Store.Laws.{empty_store-Inv}

ints_runs : ints (negsuc 1) (pos 1) ≡ negsuc 1 ∷ negsuc 0 ∷ pos 0 ∷ pos 1 ∷ []
unfolding ints_from rounds next_int
ints_runs = refl

second_pass_example :
    load_or_generate_region memory_chunks 5
      (load_or_generate_region memory_chunks 5 empty_store
        (negsuc 0)
        (pos 0)
        (pos 0)
        (pos 0)
        (pos 1)
        (pos 0)).0
      (negsuc 0)
      (pos 0)
      (pos 0)
      (pos 0)
      (pos 1)
      (pos 0)
    ≡ (
      (load_or_generate_region memory_chunks 5 empty_store
          (negsuc 0)
          (pos 0)
          (pos 0)
          (pos 0)
          (pos 1)
          (pos 0)).0,
      map reloaded
          (load_or_generate_region memory_chunks 5 empty_store
            (negsuc 0)
            (pos 0)
            (pos 0)
            (pos 0)
            (pos 1)
            (pos 0)).1,
    )
second_pass_example =
    second_pass 5 empty_store (negsuc 0) (pos 0) (pos 0) (pos 0) (pos 1) (pos 0) empty_store-Inv

abbrev slab : Rect
slab = record { d = 0; positive = true; p = 1; u0 = 0; v0 = 0; du = 2; dv = 1; slot = 1 }

abbrev palette_chunk : UnpackedChunk
palette_chunk = record {
  log2_extent = 4;
  palette = no_cell ∷ record { content = 70_003; state = 0 } ∷ [];
  cells = [];
}

abbrev face_there : UnitFace
face_there = record { d = 0; positive = true; plane = 1; a = 1; b = 0 }

remap_example :
    painted (remap_slots_to_content (quad slab empty_mesh) palette_chunk) face_there
    ≡ map (content_of_slot palette_chunk) (painted (quad slab empty_mesh) face_there)
remap_example =
    painted-remap_slots_to_content (quad slab empty_mesh) palette_chunk face_there
      (quad-IsWhole slab empty_mesh (refl, refl))
