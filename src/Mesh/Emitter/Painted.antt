-- ===== src/Mesh/Emitter/Painted.antt =====
-- Reading a mesh back: which slots its quads paint on one unit face.
use voxel.Base.{
  ℕ, zero, suc, ◌+◌, ◌*◌, ◌<◌, ◌≡◌, refl, ap, ◌∙◌, inl, inr, Bool, true, false, ◌&&◌, List, [], ◌∷◌,
  ◌++◌, arith, ltb, leb, ◌==◌, if◌then◌else◌, Bool-cases, length, get_or, set,
}
use voxel.Mesh.Emitter.{ChunkMesh, Rect, corner}
use voxel.Mesh.Mask.{on_axes, coord, axis_u, axis_v, side}
use voxel.Mesh.Vertex.{
  face_value, PackedVertex, vertex_x, vertex_y, vertex_z, vertex_face, pack_vertex-Reads,
  face_value-face_cast,
}

-- A unit face: the axis and the direction it shows to, its plane, and its place (a, b) in the slice.
pub record UnitFace : Type 0 where
  pub d : ℕ
  pub positive : Bool
  pub plane : ℕ
  pub a : ℕ
  pub b : ℕ

abbrev pub blank_vertex : PackedVertex
blank_vertex = record { pos_face = 0; slot = 0 }

abbrev pub vertex_coords : PackedVertex → List ℕ
vertex_coords v = vertex_x v ∷ vertex_y v ∷ vertex_z v ∷ []

-- A box test on the coordinates of two opposite corners.
unfoldable pub spans : List ℕ → List ℕ → UnitFace → Bool
spans c e f =
    coord c f.d == f.plane
    && (leb (coord c (axis_u f.d)) f.a
        && (ltb f.a (coord e (axis_u f.d))
            && (leb (coord c (axis_v f.d)) f.b && ltb f.b (coord e (axis_v f.d)))))

-- Whether the quad between the corners v and w covers the unit face.
unfoldable pub paints : PackedVertex → PackedVertex → UnitFace → Bool
paints v w f =
    face_value (vertex_face v) == side f.d f.positive && spans (vertex_coords v) (vertex_coords w) f

unfoldable pub painted_below : ℕ → List PackedVertex → UnitFace → List ℕ
painted_below zero vertices f = []
painted_below (suc n) vertices f =
    let v = get_or vertices (n * 4) blank_vertex in
    let w = get_or vertices (n * 4 + 2) blank_vertex in
    painted_below n vertices f ++ (if paints v w f then v.slot ∷ [] else [])

-- The slots of the quads that cover the unit face, in emission order, read from the packed vertices.
unfoldable pub painted : ChunkMesh → UnitFace → List ℕ
painted mesh f = painted_below mesh.quad_count mesh.vertices f

-- Whether a rectangle covers a unit face.
unfoldable pub covers : Rect → UnitFace → Bool
covers r f =
    side r.d r.positive == side f.d f.positive
    && (r.p == f.plane
        && (leb r.u0 f.a && (ltb f.a (r.u0 + r.du) && (leb r.v0 f.b && ltb f.b (r.v0 + r.dv)))))

-- Four vertices and six indices for every quad.
abbrev pub IsWhole : ChunkMesh → Type 0
IsWhole mesh =
    (length mesh.vertices ≡ mesh.quad_count * 4) × (length mesh.indices ≡ mesh.quad_count * 6)

abbrev pub Fits : Rect → Type 0
Fits r = (r.d < 3) × (r.p < 17) × (r.u0 + r.du < 17) × (r.v0 + r.dv < 17)

on_axes_moved :
    (d p a b au av : ℕ)
    → d < 3
    → set (set (on_axes d p a b) (axis_u d) (coord (on_axes d p a b) (axis_u d) + au)) (axis_v d) (
        coord
          (set (on_axes d p a b) (axis_u d) (coord (on_axes d p a b) (axis_u d) + au))
          (axis_v d)
        + av)
      ≡ on_axes d p (a + au) (b + av)
unfolding on_axes
on_axes_moved zero p a b au av h = refl
on_axes_moved (suc zero) p a b au av h = refl
on_axes_moved (suc (suc zero)) p a b au av h = refl
on_axes_moved (suc (suc (suc d))) p a b au av h = absurd (omega arith)

AxesAre : ℕ → ℕ → ℕ → ℕ → List ℕ → Type 0
AxesAre d p a b c = (coord c d ≡ p) × (coord c (axis_u d) ≡ a) × (coord c (axis_v d) ≡ b)

on_axes-AxesAre : (d p a b : ℕ) → d < 3 → AxesAre d p a b (on_axes d p a b)
unfolding on_axes AxesAre
on_axes-AxesAre zero p a b h = (refl, refl, refl)
on_axes-AxesAre (suc zero) p a b h = (refl, refl, refl)
on_axes-AxesAre (suc (suc zero)) p a b h = (refl, refl, refl)
on_axes-AxesAre (suc (suc (suc d))) p a b h = absurd (omega arith)

abbrev Small : List ℕ → Type 0
Small c = (coord c 0 < 32) × (coord c 1 < 32) × (coord c 2 < 32)

on_axes-Small : (d p a b : ℕ) → d < 3 → p < 32 → a < 32 → b < 32 → Small (on_axes d p a b)
unfolding on_axes
on_axes-Small zero p a b h hp ha hb = (hp, ha, hb)
on_axes-Small (suc zero) p a b h hp ha hb = (hb, hp, ha)
on_axes-Small (suc (suc zero)) p a b h hp ha hb = (ha, hb, hp)
on_axes-Small (suc (suc (suc d))) p a b h hp ha hb = absurd (omega arith)

on_axes_triple :
    (d p a b : ℕ)
    → d < 3
    → coord (on_axes d p a b) 0 ∷ coord (on_axes d p a b) 1 ∷ coord (on_axes d p a b) 2 ∷ []
      ≡ on_axes d p a b
unfolding on_axes
on_axes_triple zero p a b h = refl
on_axes_triple (suc zero) p a b h = refl
on_axes_triple (suc (suc zero)) p a b h = refl
on_axes_triple (suc (suc (suc d))) p a b h = absurd (omega arith)

side_small : (d : ℕ) (positive : Bool) → d < 3 → side d positive < 8
side_small d true h = omega arith
side_small d false h = omega arith

-- What the three readers make of a corner.
abbrev pub ShowsCorner : Rect → ℕ → ℕ → PackedVertex → Type 0
ShowsCorner r au av v =
    (face_value (vertex_face v) ≡ side r.d r.positive)
    × (vertex_coords v ≡ on_axes r.d r.p (r.u0 + au) (r.v0 + av))
    × (v.slot ≡ r.slot)

pub corner_lem :
    (r : Rect) (au av : ℕ)
    → r.d < 3
    → r.p < 32
    → r.u0 + au < 32
    → r.v0 + av < 32
    → ShowsCorner r au av (corner r au av)
unfolding corner
corner_lem r au av hd hp hu hv =
    let c = on_axes r.d r.p (r.u0 + au) (r.v0 + av) in
    let small = on_axes-Small r.d r.p (r.u0 + au) (r.v0 + av) hd hp hu hv in
    let n = side r.d r.positive in
    let reads =
      pack_vertex-Reads (coord c 0) (coord c 1) (coord c 2) n r.slot small.0 small.1 small.2
        (side_small r.d r.positive hd) in
    rw (on_axes_moved r.d r.p r.u0 r.v0 au av hd) (
      ap face_value reads.3 ∙ face_value-face_cast n,
      rw (reads.0, reads.1, reads.2) (on_axes_triple r.d r.p (r.u0 + au) (r.v0 + av) hd),
      reads.4,
    )

side_inj : (d e : ℕ) (p q : Bool) → (side d p == side e q) ≡ true → d ≡ e
side_inj d e true true h = ground arith
side_inj d e true false h = ground arith
side_inj d e false true h = ground arith
side_inj d e false false h = ground arith

spans-on_axes :
    (r : Rect) (f : UnitFace)
    → r.d < 3
    → r.d ≡ f.d
    → spans (on_axes r.d r.p (r.u0 + 0) (r.v0 + 0)) (on_axes r.d r.p (r.u0 + r.du) (r.v0 + r.dv)) f
      ≡ (r.p == f.plane
          && (leb r.u0 f.a && (ltb f.a (r.u0 + r.du) && (leb r.v0 f.b && ltb f.b (r.v0 + r.dv)))))
unfolding spans AxesAre
spans-on_axes r f hd same =
    let low = on_axes-AxesAre r.d r.p (r.u0 + 0) (r.v0 + 0) hd in
    let high = on_axes-AxesAre r.d r.p (r.u0 + r.du) (r.v0 + r.dv) hd in
    let u0 : r.u0 + 0 ≡ r.u0 = omega arith in
    let v0 : r.v0 + 0 ≡ r.v0 = omega arith in
    rw (← same, low.0, low.1, low.2, high.1, high.2, u0, v0) refl

-- The two corners that the reader takes tell which faces the rectangle covers.
pub paints-corner :
    (r : Rect) (v w : PackedVertex) (f : UnitFace)
    → r.d < 3
    → ShowsCorner r 0 0 v
    → ShowsCorner r r.du r.dv w
    → paints v w f ≡ covers r f
unfolding paints covers AxesAre
paints-corner r v w f hd hv hw = elim (Bool-cases (side r.d r.positive == side f.d f.positive)) [
  | inl e ↦
      let same = side_inj r.d f.d r.positive f.positive e in
      rw (hv.0, hv.1, hw.1, e) (spans-on_axes r f hd same)
  | inr e ↦ rw (hv.0, e) refl
]
