-- ===== src/Mesh/Sweep.antt =====
-- src/mesh/greedy.cpp, meshImpl: the sweep over one slice, with merging and without.
pub mod Rectangles
pub mod Claims
pub mod Cover
use voxel.Base.{
  ℕ, zero, suc, ◌+◌, ◌-◌, ◌*◌, ◌/◌, ◌%◌, ◌^◌, ◌≤◌, ◌<◌, bit_and, bit_or, bit_xor, ◌≡◌, refl, sym,
  ap, ◌∙◌, subst, ◌≢◌, ◌↔◌, ◌⊎◌, inl, inr, Bool, true, false, not, ◌&&◌, ◌||◌, Option, none, some,
  List, [], ◌∷◌, ◌++◌, map, append_assoc, append-nil, arith, dec_lt, dec_le, ℕ_discrete, ltb, leb,
  ◌==◌, if◌then◌else◌, ltb→lt, lt→ltb, ltb-false→le, ==_iff, ==_refl, Bool-cases, Bool-agree,
  Option-cases, length, get_elem?, get_or, set, replicate, All, length-append, length-set,
  length-replicate, get_or-append_right, get_or-append_left, get_or-append_last, get_or-set_self,
  get_or-set_ne, get_or-replicate, eq_of_get_or, All-get_or, All-append, All-set, take, drop,
  take-append, drop-append, set-append, eq_tabulate, ◌>>=◌, ◌>>◌, reject, >>=-eq-some, reject->>,
  some_inj,
}
use voxel.Base.Loops.{for_below}
use voxel.Mesh.Emitter.{ChunkMesh, Rect, quad}
use voxel.Mesh.CellGrid.{edge}
use voxel.Mesh.Mask.{no_face}

-- A face that the rectangle may take: of the slot, and not claimed yet.
unfoldable pub free_face : List ℕ → List Bool → ℕ → ℕ → Bool
free_face mask claimed slot i = get_or mask i no_face == slot && not (get_or claimed i false)

-- How far `while (test(k)) ++k;` runs from `k`, with `room` rounds left to the edge.
unfoldable pub extend : (ℕ → Bool) → ℕ → ℕ → ℕ
extend test k zero = 0
extend test k (suc room) = if test k then suc (extend test (suc k) room) else 0

-- `for (k = 0; k < n; ++k) if (!test(k)) { ok = false; break; }`
unfoldable pub all_below : ℕ → (ℕ → Bool) → Bool
all_below zero test = true
all_below (suc n) test = all_below n test && test n

-- `dv`, the extent along v.
unfoldable pub extent_v : List ℕ → List Bool → ℕ → ℕ → ℕ → ℕ
extent_v mask claimed slot uu vv =
    1 + extend (λ k. free_face mask claimed slot (uu * edge + vv + k)) 1 (edge - (vv + 1))

unfoldable pub row_ok : List ℕ → List Bool → ℕ → ℕ → ℕ → ℕ → Bool
row_ok mask claimed slot uu vv dv =
    all_below dv (λ k. free_face mask claimed slot (uu * edge + vv + k))

-- `du`, the extent along u.
unfoldable pub extent_u : List ℕ → List Bool → ℕ → ℕ → ℕ → ℕ → ℕ
extent_u mask claimed slot uu vv dv =
    1 + extend (λ a. row_ok mask claimed slot (uu + a) vv dv) 1 (edge - (uu + 1))

unfoldable pub claim : ℕ → ℕ → ℕ → ℕ → List Bool → List Bool
claim uu vv du dv claimed =
    for_below du (λ a. for_below dv (λ k c. set c ((uu + a) * edge + vv + k) true)) claimed

pub record Sweep : Type 0 where
  pub claimed : List Bool
  pub mesh : ChunkMesh

unfoldable pub greedy_cell : ℕ → Bool → ℕ → List ℕ → ℕ → ℕ → Sweep → Sweep
greedy_cell d positive p mask uu vv s =
    let slot = get_or mask (uu * edge + vv) no_face in
    let dv = extent_v mask s.claimed slot uu vv in
    let du = extent_u mask s.claimed slot uu vv dv in
    if slot == no_face || get_or s.claimed (uu * edge + vv) false then s else record {
      claimed = claim uu vv du dv s.claimed;
      mesh =
          quad
            (record {
              d = d;
              positive = positive;
              p = p;
              u0 = uu;
              v0 = vv;
              du = du;
              dv = dv;
              slot = slot;
            })
            s.mesh;
    }

unfoldable pub greedy_slice : ℕ → Bool → ℕ → List ℕ → ChunkMesh → ChunkMesh
greedy_slice d positive p mask mesh =
    let start : Sweep = record { claimed = replicate (edge * edge) false; mesh = mesh } in
    let end =
      for_below edge (λ uu. for_below edge (λ vv. greedy_cell d positive p mask uu vv)) start in
    end.mesh

unfoldable pub naive_cell : ℕ → Bool → ℕ → List ℕ → ℕ → ℕ → ChunkMesh → ChunkMesh
naive_cell d positive p mask uu vv mesh =
    let slot = get_or mask (uu * edge + vv) no_face in
    if slot == no_face
    then mesh
    else quad
        (record {
          d = d;
          positive = positive;
          p = p;
          u0 = uu;
          v0 = vv;
          du = 1;
          dv = 1;
          slot = slot;
        })
        mesh

unfoldable pub naive_slice : ℕ → Bool → ℕ → List ℕ → ChunkMesh → ChunkMesh
naive_slice d positive p mask mesh =
    for_below edge (λ uu. for_below edge (λ vv. naive_cell d positive p mask uu vv)) mesh
