-- ===== src/Solidity/Examples.antt =====
-- A chunk at negative coordinates, and the cells at its corners.
use voxel.Base.{◌≡◌, refl, not, ◌&&◌, [], ◌∷◌, arith, ◌==◌, if◌then◌else◌}
use voxel.Base.Int.{pos, negsuc, eqb_int}
use voxel.Belt.Contents.{generated_chunk}
use voxel.Blob.{UnpackedChunk}
use voxel.Solidity.{add_chunk, chunk_of, local_of, solid_at}
use voxel.Solidity.Laws.{world_coord, has_content, solid_at-add_chunk}
use voxel.Solidity.OnBelt.{generated_content, solid_at-generated_chunk}

abbrev corner_chunk : UnpackedChunk
corner_chunk = record {
  log2_extent = 4;
  palette = [];
  cells = record { content = 3; state = 0 } ∷ [];
}

low_corner : (chunk_of (negsuc 15) ≡ negsuc 0) × (local_of (negsuc 15) ≡ 0)
unfolding chunk_of local_of
low_corner = (refl, refl)

high_corner : (chunk_of (negsuc 0) ≡ negsuc 0) × (local_of (negsuc 0) ≡ 15)
unfolding chunk_of local_of
high_corner = (refl, refl)

solid_at-add_chunk_example :
    solid_at
      (add_chunk [] (negsuc 0) (pos 0) (pos 2) corner_chunk)
      (world_coord (negsuc 0) 0)
      (world_coord (pos 0) 0)
      (world_coord (pos 2) 0)
    ≡ (if eqb_int (negsuc 0) (negsuc 0) && (eqb_int (pos 0) (pos 0) && eqb_int (pos 2) (pos 2))
        then has_content corner_chunk 0 0 0
        else solid_at [] (world_coord (negsuc 0) 0) (world_coord (pos 0) 0) (world_coord (pos 2) 0))
solid_at-add_chunk_example =
    solid_at-add_chunk [] (negsuc 0) (pos 0) (pos 2) corner_chunk (negsuc 0) (pos 0) (pos 2) 0 0 0
      (omega arith) (omega arith) (omega arith) (omega arith) (omega arith) (omega arith)
      (omega arith) (omega arith) (omega arith)

solid_at-generated_chunk_example :
    solid_at
      (add_chunk [] (negsuc 0) (pos 0) (pos 2) (generated_chunk 5 (negsuc 0) (pos 0) (pos 2)))
      (world_coord (negsuc 0) 3)
      (world_coord (pos 0) 7)
      (world_coord (pos 2) 15)
    ≡ not (generated_content 5 (negsuc 0) (pos 0) (pos 2) 3 7 15 == 0)
solid_at-generated_chunk_example =
    solid_at-generated_chunk [] 5 (negsuc 0) (pos 0) (pos 2) 3 7 15 (omega arith) (omega arith)
      (omega arith) (omega arith) (omega arith) (omega arith)
