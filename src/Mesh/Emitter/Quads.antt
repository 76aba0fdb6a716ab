-- ===== src/Mesh/Emitter/Quads.antt =====
-- One more quad on a mesh.
use voxel.Base.{
  ℕ, zero, suc, ◌+◌, ◌*◌, ◌≤◌, ◌≡◌, refl, inl, inr, List, [], ◌∷◌, ◌++◌, map, arith, if◌then◌else◌,
  Bool-cases, length, get_or, length-append, get_or-append_right, get_or-append_left,
}
use voxel.Mesh.Emitter.{ChunkMesh, Rect, corner, corners, quad, quad_pattern}
use voxel.Mesh.Emitter.Painted.{
  UnitFace, blank_vertex, painted_below, painted, covers, IsWhole, Fits, corner_lem, paints-corner,
}
use voxel.Mesh.Vertex.{PackedVertex}

length-corners : (r : Rect) → length (corners r) ≡ 4
unfolding corners
length-corners r = elim (Bool-cases r.positive) [ inl e ↦ rw e refl | inr e ↦ rw e refl ]

pub quad-IsWhole : (r : Rect) (mesh : ChunkMesh) → IsWhole mesh → IsWhole (quad r mesh)
unfolding quad
quad-IsWhole r mesh h =
    let four : length (corners r) ≡ 4 = length-corners r in
    (
      omega (arith, length-append mesh.vertices (corners r)),
      omega (arith, length-append mesh.indices (map (λ i. length mesh.vertices + i) quad_pattern)),
    )

painted_below-append :
    (n : ℕ) (vs ws : List PackedVertex) (f : UnitFace)
    → n * 4 ≤ length vs
    → painted_below n (vs ++ ws) f ≡ painted_below n vs f
unfolding painted_below
painted_below-append zero vs ws f h = refl
painted_below-append (suc n) vs ws f h =
    rw
      (
        painted_below-append n vs ws f (omega arith),
        get_or-append_left vs ws (n * 4) blank_vertex (omega arith),
        get_or-append_left vs ws (n * 4 + 2) blank_vertex (omega arith),
      )
      refl

-- The opposite corners stand first and third in either winding.
corners_lem :
    (r : Rect)
    → (get_or (corners r) 0 blank_vertex ≡ corner r 0 0)
      × (get_or (corners r) 2 blank_vertex ≡ corner r r.du r.dv)
unfolding corners corner
corners_lem r = elim (Bool-cases r.positive) [
  | inl e ↦ rw e (refl, refl)
  | inr e ↦ rw e (refl, refl)
]

-- Reading back a mesh after one more quad finds the quad's slot on the unit faces that its rectangle
-- covers, behind what was there.
pub painted-quad :
    (r : Rect) (mesh : ChunkMesh) (f : UnitFace)
    → IsWhole mesh
    → Fits r
    → painted (quad r mesh) f ≡ painted mesh f ++ (if covers r f then r.slot ∷ [] else [])
unfolding painted quad painted_below
painted-quad r mesh f h (hd, hp, hu, hv) =
    let n = mesh.quad_count in
    let vs = mesh.vertices in
    let more : mesh.quad_count + 1 ≡ suc mesh.quad_count = omega arith in
    let first = corner_lem r 0 0 hd (omega arith) (omega arith) (omega arith) in
    let third = corner_lem r r.du r.dv hd (omega arith) (omega arith) (omega arith) in
    let old = painted_below-append n vs (corners r) f (omega arith) in
    let v : get_or (vs ++ corners r) (n * 4) blank_vertex ≡ corner r 0 0 =
      let at : n * 4 ≡ length vs + 0 = omega arith in
      rw (at, get_or-append_right vs (corners r) 0 blank_vertex) (corners_lem r).0 in
    let w : get_or (vs ++ corners r) (n * 4 + 2) blank_vertex ≡ corner r r.du r.dv =
      let at : n * 4 + 2 ≡ length vs + 2 = omega arith in
      rw (at, get_or-append_right vs (corners r) 2 blank_vertex) (corners_lem r).1 in
    rw (more, old, v, w, paints-corner r _ _ f hd first third, first.2) refl
