-- ===== src/Mesh/Sweep/Cover/Progress.antt =====
-- The state of the greedy sweep, and the rectangle that it takes.
use voxel.Base.{
  ℕ, ◌+◌, ◌-◌, ◌*◌, ◌<◌, ◌≡◌, refl, ◌⊎◌, inl, inr, Bool, true, false, not, ◌&&◌, ◌||◌, List, [],
  ◌∷◌, ◌++◌, append-nil, arith, ◌==◌, if◌then◌else◌, ==_refl, Bool-cases, length, get_or,
}
use voxel.Mesh.Emitter.{ChunkMesh}
use voxel.Mesh.Emitter.Painted.{UnitFace, painted, IsWhole}
use voxel.Mesh.CellGrid.{edge}
use voxel.Mesh.Mask.{no_face}
use voxel.Mesh.Sweep.{free_face, extent_v, extent_u, Sweep}
use voxel.Mesh.Sweep.Claims.{in_box, claimed_at}
use voxel.Mesh.Sweep.Cover.{mask_at, in_slice, through}
use voxel.Mesh.Sweep.Rectangles.{rectangle_free}

-- The claimed faces are visible and painted over what the mesh had, and every visible face that the
-- sweep is through with is claimed.
pub record Progress (d : ℕ) (positive : Bool) (p : ℕ) (mask : List ℕ) (mesh0 : ChunkMesh)
    (uu vv : ℕ) (s : Sweep) : Type 0 where
  pub claims : length s.claimed ≡ 256
  pub whole : IsWhole s.mesh
  pub visible :
      (a b : ℕ)
      → a < edge
      → b < edge
      → claimed_at s.claimed a b ≡ true
      → (mask_at mask a b == no_face) ≡ false
  pub finished :
      (a b : ℕ)
      → a < edge
      → b < edge
      → through uu vv a b ≡ true
      → claimed_at s.claimed a b ≡ false
      → (mask_at mask a b == no_face) ≡ true
  pub paints :
      (f : UnitFace)
      → f.a < edge
      → f.b < edge
      → painted s.mesh f
        ≡ painted mesh0 f
          ++ (if in_slice d positive p f && claimed_at s.claimed f.a f.b
              then mask_at mask f.a f.b ∷ []
              else [])

-- A box of faces that were free and have one slot.
pub join :
    (pre : List ℕ) (here done box : Bool) (slot m : ℕ)
    → (box ≡ true → (m ≡ slot) × (done ≡ false))
    → (pre ++ (if here && done then m ∷ [] else [])) ++ (if here && box then slot ∷ [] else [])
      ≡ pre ++ (if here && (done || box) then m ∷ [] else [])
join pre false done box slot m h = append-nil (pre ++ [])
join pre true true true slot m h = ground (arith, h refl)
join pre true true false slot m h = append-nil (pre ++ m ∷ [])
join pre true false true slot m h = rw (append-nil pre, (h refl).0) refl
join pre true false false slot m h = append-nil (pre ++ [])

free_parts :
    (mask : List ℕ) (claimed : List Bool) (slot i : ℕ)
    → free_face mask claimed slot i ≡ true
    → (get_or mask i no_face ≡ slot) × (get_or claimed i false ≡ false)
unfolding free_face
free_parts mask claimed slot i h = elim (Bool-cases (get_or claimed i false)) [
  | inl e ↦ ground arith
  | inr e ↦ ground arith
]

module _ (mask : List ℕ) (claimed : List Bool) (uu vv : ℕ) (hu : uu < edge) (hv : vv < edge) where
  -- The arguments of the rectangle that starts at (uu, vv).
  abbrev slot_here : ℕ
  slot_here = mask_at mask uu vv

  abbrev dv_here : ℕ
  dv_here = extent_v mask claimed slot_here uu vv

  abbrev du_here : ℕ
  du_here = extent_u mask claimed slot_here uu vv dv_here

  starts_free :
      claimed_at claimed uu vv ≡ false → free_face mask claimed slot_here (uu * edge + vv) ≡ true
  unfolding free_face
  starts_free h = rw (==_refl slot_here, h) refl

  pub box_free :
      (a b : ℕ)
      → claimed_at claimed uu vv ≡ false
      → in_box uu du_here vv dv_here a b ≡ true
      → (mask_at mask a b ≡ slot_here) × (claimed_at claimed a b ≡ false)
  unfolding in_box
  box_free a b h box =
      let i = a - uu in
      let k = b - vv in
      let same : (uu + i) * edge + vv + k ≡ a * edge + b = ground arith in
      let free =
        rectangle_free mask claimed slot_here uu vv hu hv i k (starts_free h) (ground arith)
          (ground arith) in
      rw (← same) (free_parts mask claimed slot_here ((uu + i) * edge + vv + k) free)

  pub box_starts : in_box uu du_here vv dv_here uu vv ≡ true
  unfolding in_box extent_v extent_u
  box_starts = ground arith

pub or_cases : (p q : Bool) → (p || q) ≡ true → (p ≡ true) ⊎ (q ≡ true)
or_cases true q h = inl refl
or_cases false q h = inr h

pub opposite : (c n : Bool) → (c ≡ true → n ≡ false) → (c ≡ false → n ≡ true) → c ≡ not n
opposite true n h g = rw (h refl) refl
opposite false n h g = rw (g refl) refl

pub or_false : (p q : Bool) → (p || q) ≡ false → (p ≡ false) × (q ≡ false)
or_false true q h = ground arith
or_false false q h = (refl, h)
