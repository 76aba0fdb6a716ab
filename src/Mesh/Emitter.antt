-- ===== src/Mesh/Emitter.antt =====
-- src/mesh/greedy.cpp, Emitter: a rectangle becomes four vertices and six indices.
pub mod Painted
pub mod Quads
use voxel.Base.{
  ℕ, zero, suc, ◌+◌, ◌-◌, ◌*◌, ◌/◌, ◌%◌, ◌^◌, ◌≤◌, ◌<◌, bit_and, bit_or, bit_xor, ◌≡◌, refl, sym,
  ap, ◌∙◌, subst, ◌≢◌, ◌↔◌, ◌⊎◌, inl, inr, Bool, true, false, not, ◌&&◌, ◌||◌, Option, none, some,
  List, [], ◌∷◌, ◌++◌, map, append_assoc, append-nil, arith, dec_lt, dec_le, ℕ_discrete, ltb, leb,
  ◌==◌, if◌then◌else◌, ltb→lt, lt→ltb, ltb-false→le, ==_iff, ==_refl, Bool-cases, Bool-agree,
  Option-cases, length, get_elem?, get_or, set, replicate, All, length-append, length-set,
  length-replicate, get_or-append_right, get_or-append_left, get_or-append_last, get_or-set_self,
  get_or-set_ne, get_or-replicate, eq_of_get_or, All-get_or, All-append, All-set, take, drop,
  take-append, drop-append, set-append, eq_tabulate, ◌>>=◌, ◌>>◌, reject, >>=-eq-some, reject->>,
  some_inj,
}
use voxel.Mesh.Mask.{on_axes, coord, axis_u, axis_v, side}
use voxel.Mesh.Vertex.{Face, face_cast, PackedVertex, pack_vertex}

pub record ChunkMesh : Type 0 where
  pub vertices : List PackedVertex
  pub indices : List ℕ
  pub quad_count : ℕ

abbrev pub empty_mesh : ChunkMesh
empty_mesh = record { vertices = []; indices = []; quad_count = 0 }

-- A merged rectangle: the arguments of `quad`.
pub record Rect : Type 0 where
  pub d : ℕ
  pub positive : Bool
  pub p : ℕ
  pub u0 : ℕ
  pub v0 : ℕ
  pub du : ℕ
  pub dv : ℕ
  pub slot : ℕ

-- The lambda `corner`.
unfoldable pub corner : Rect → ℕ → ℕ → PackedVertex
corner r au av =
    let base = on_axes r.d r.p r.u0 r.v0 in
    let c = set base (axis_u r.d) (coord base (axis_u r.d) + au) in
    let c = set c (axis_v r.d) (coord c (axis_v r.d) + av) in
    pack_vertex (coord c 0) (coord c 1) (coord c 2) (face_cast (side r.d r.positive)) r.slot

-- The corners in winding order.
unfoldable pub corners : Rect → List PackedVertex
corners r =
    if r.positive
    then corner r 0 0 ∷ corner r r.du 0 ∷ corner r r.du r.dv ∷ corner r 0 r.dv ∷ []
    else corner r 0 0 ∷ corner r 0 r.dv ∷ corner r r.du r.dv ∷ corner r r.du 0 ∷ []

abbrev pub quad_pattern : List ℕ
quad_pattern = 0 ∷ 1 ∷ 2 ∷ 0 ∷ 2 ∷ 3 ∷ []

unfoldable pub quad : Rect → ChunkMesh → ChunkMesh
quad r mesh = record {
  vertices = mesh.vertices ++ corners r;
  indices = mesh.indices ++ map (λ i. length mesh.vertices + i) quad_pattern;
  quad_count = mesh.quad_count + 1;
}
