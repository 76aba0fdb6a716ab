-- ===== src/Solidity/OnBelt.antt =====
-- The solidity of the chunks that the belt generates.
use voxel.Base.{ℕ, ◌<◌, ◌≡◌, sym, ap, ◌∙◌, true, not, ◌==◌, ==_refl}
use voxel.Base.Int.{ℤ, pos, negsuc, eqb_int, to_u32}
use voxel.Belt.Contents.{generated_chunk, get_or-morton_cells}
use voxel.Gen.Chunk.{GenChunkPos, chunk_at, blank_chunk, generate_chunk}
use voxel.Solidity.{SolidityWorld, add_chunk, solid_at}
use voxel.Solidity.Laws.{InDomain, world_coord, has_content, positive, solid_at-add_chunk}

eqb_int_refl : (v : ℤ) → eqb_int v v ≡ true
eqb_int_refl (pos n) = ==_refl n
eqb_int_refl (negsuc n) = ==_refl n

-- The content that the generator gives to a place of a chunk.
unfoldable pub generated_content : ℕ → ℤ → ℤ → ℤ → ℕ → ℕ → ℕ → ℕ
generated_content seed cx cy cz x y z =
    let at : GenChunkPos = record { cx = to_u32 cx; cy = to_u32 cy; cz = to_u32 cz } in
    chunk_at (generate_chunk seed at blank_chunk) x y z

-- When a chunk of the asserted domain is added as the belt generates it, the world cell at 16 times
-- the chunk's coordinates plus a place in the chunk is solid exactly when the generator gives that
-- place a content other than air, at negative coordinates as well.
pub solid_at-generated_chunk :
    (m : SolidityWorld) (seed : ℕ) (cx cy cz : ℤ) (x y z : ℕ)
    → InDomain cx
    → InDomain cy
    → InDomain cz
    → x < 16
    → y < 16
    → z < 16
    → solid_at
        (add_chunk m cx cy cz (generated_chunk seed cx cy cz))
        (world_coord cx x)
        (world_coord cy y)
        (world_coord cz z)
      ≡ not (generated_content seed cx cy cz x y z == 0)
unfolding generated_content has_content
solid_at-generated_chunk m seed cx cy cz x y z dx dy dz hx hy hz =
    solid_at-add_chunk m cx cy cz (generated_chunk seed cx cy cz) cx cy cz x y z dx dy dz dx dy dz
      hx hy hz
    ∙ rw (eqb_int_refl cx, eqb_int_refl cy, eqb_int_refl cz)
        (sym (positive _) ∙ ap (λ c. not (c.content == 0)) (get_or-morton_cells _ x y z hx hy hz))
