-- ===== src/Mesh/Sweep/Cover/Naive.antt =====
-- The sweep without merging.
use voxel.Base.{
  ℕ, suc, ◌<◌, ◌≡◌, refl, sym, ◌∙◌, inl, inr, Bool, true, false, not, ◌&&◌, ◌||◌, List, [], ◌∷◌,
  ◌++◌, append-nil, arith, ◌==◌, if◌then◌else◌, Bool-cases,
}
use voxel.Base.Loops.{for_below, for_below_inv}
use voxel.Mesh.Emitter.{ChunkMesh, Rect}
use voxel.Mesh.Emitter.Painted.{UnitFace, painted, IsWhole}
use voxel.Mesh.Emitter.Quads.{quad-IsWhole, painted-quad}
use voxel.Mesh.CellGrid.{edge}
use voxel.Mesh.Mask.{no_face}
use voxel.Mesh.Sweep.{naive_cell, naive_slice}
use voxel.Mesh.Sweep.Claims.{in_box}
use voxel.Mesh.Sweep.Cover.{
  mask_at, in_slice, shown, through, through_start, through_end, through_row, through_next,
  covers-in_slice, PaintsSlice,
}

-- The box of one face.
unit_box : (u v a b : ℕ) → in_box u 1 v 1 a b ≡ (u == a && v == b)
unfolding in_box
unit_box u v a b = ground arith

-- The unit faces that the sweep is through with are painted, over what the mesh had.
abbrev Progress : ℕ → Bool → ℕ → List ℕ → ChunkMesh → ℕ → ℕ → ChunkMesh → Type 0
Progress d positive p mask mesh0 uu vv mesh =
    IsWhole mesh
    × ((f : UnitFace)
        → f.a < edge
        → f.b < edge
        → painted mesh f
          ≡ painted mesh0 f ++ (if through uu vv f.a f.b then shown d positive p mask f else []))

-- What one place adds, as the mask shows it.
adds :
    (here there : Bool) (slot m : ℕ)
    → (there ≡ true → slot ≡ m)
    → (slot == no_face) ≡ false
    → (if here && there then slot ∷ [] else [])
      ≡ (if there then (if here && not (m == no_face) then m ∷ [] else []) else [])
adds true true slot m h ne = rw (← h refl, ne) refl
adds true false slot m h ne = refl
adds false true slot m h ne = refl
adds false false slot m h ne = refl

one_more :
    (pre xs : List ℕ) (done here : Bool)
    → (done ≡ true → here ≡ false)
    → (pre ++ (if done then xs else [])) ++ (if here then xs else [])
      ≡ pre ++ (if done || here then xs else [])
one_more pre xs true true h = ground arith
one_more pre xs true false h = append-nil (pre ++ xs)
one_more pre xs false here h = rw (append-nil pre) refl

skip :
    (pre xs : List ℕ) (done here : Bool)
    → (here ≡ true → xs ≡ [])
    → pre ++ (if done then xs else []) ≡ pre ++ (if done || here then xs else [])
skip pre xs true here h = refl
skip pre xs false true h = rw (h refl) refl
skip pre xs false false h = refl

not_through : (uu vv a b : ℕ) → through uu vv a b ≡ true → (uu == a && vv == b) ≡ false
unfolding through
not_through uu vv a b h = ground arith

module _ (d : ℕ) (positive : Bool) (p : ℕ) (mask : List ℕ) (mesh0 : ChunkMesh) (hd : d < 3)
    (hp : p < 17) where
  -- The mask at the place where the loops stand.
  here_mask :
      (uu vv : ℕ) (f : UnitFace)
      → (uu == f.a && vv == f.b) ≡ true
      → mask_at mask uu vv ≡ mask_at mask f.a f.b
  here_mask uu vv f h =
      let eu : uu ≡ f.a = ground arith in let ev : vv ≡ f.b = ground arith in rw (eu, ev) refl

  shown_empty :
      (uu vv : ℕ) (f : UnitFace)
      → (mask_at mask uu vv == no_face) ≡ true
      → (uu == f.a && vv == f.b) ≡ true
      → shown d positive p mask f ≡ []
  unfolding shown
  shown_empty uu vv f e h =
      let e' : (mask_at mask f.a f.b == no_face) ≡ true = rw (← here_mask uu vv f h) e in
      rw e' (never (in_slice d positive p f))
    where
      never : (g : Bool) → (if g && false then mask_at mask f.a f.b ∷ [] else []) ≡ []
      never true = refl
      never false = refl

  naive_step :
      (uu vv : ℕ) (mesh : ChunkMesh)
      → uu < edge
      → vv < edge
      → Progress d positive p mask mesh0 uu vv mesh
      → Progress d positive p mask mesh0 uu (suc vv) (naive_cell d positive p mask uu vv mesh)
  unfolding naive_cell shown
  naive_step uu vv mesh hu hv (whole, h) = elim (Bool-cases (mask_at mask uu vv == no_face)) [
    | inl e ↦ rw e (
      whole,
      λ f ha hb.
          h f ha hb
          ∙ rw (through_next uu vv f.a f.b) (
              skip (painted mesh0 f) (shown d positive p mask f) (through uu vv f.a f.b)
                (uu == f.a && vv == f.b) (shown_empty uu vv f e)),
    )
    | inr e ↦
        let r : Rect = record {
          d = d;
          positive = positive;
          p = p;
          u0 = uu;
          v0 = vv;
          du = 1;
          dv = 1;
          slot = mask_at mask uu vv;
        } in
        rw e (
          quad-IsWhole r mesh whole,
          λ f ha hb.
              painted-quad r mesh f whole (hd, hp, omega arith, omega arith)
              ∙ rw
                  (
                    h f ha hb,
                    covers-in_slice r f,
                    unit_box uu vv f.a f.b,
                    adds (in_slice d positive p f) (uu == f.a && vv == f.b) (mask_at mask uu vv)
                        (mask_at mask f.a f.b) (here_mask uu vv f) e,
                    through_next uu vv f.a f.b,
                  )
                  (one_more (painted mesh0 f) (shown d positive p mask f) (through uu vv f.a f.b)
                    (uu == f.a && vv == f.b) (not_through uu vv f.a f.b)),
        )
  ]

  naive_row :
      (uu : ℕ) (mesh : ChunkMesh)
      → uu < edge
      → Progress d positive p mask mesh0 uu 0 mesh
      → Progress d positive p mask mesh0
          (suc uu)
          0
          (for_below edge (λ vv. naive_cell d positive p mask uu vv) mesh)
  naive_row uu mesh hu h =
      let (whole, end) =
        for_below_inv (Progress d positive p mask mesh0 uu) _ edge
          (λ vv m hv. naive_step uu vv m hu hv) mesh h in
      (whole, λ f ha hb. end f ha hb ∙ rw (through_row uu f.a f.b hb) refl)

  -- Without merging, every unit face that the mask of a slice shows is painted once, with the slot
  -- that the mask has there, and the mesh stays whole.
  pub naive_slice-PaintsSlice :
      IsWhole mesh0 → PaintsSlice d positive p mask mesh0 (naive_slice d positive p mask mesh0)
  unfolding naive_slice
  naive_slice-PaintsSlice whole =
      let (whole', h) =
        for_below_inv (λ uu. Progress d positive p mask mesh0 uu 0) _ edge
          (λ uu m hu. naive_row uu m hu) mesh0
          (whole, λ f ha hb. rw (through_start f.a f.b) (sym (append-nil (painted mesh0 f)))) in
      (whole', λ f ha hb. h f ha hb ∙ rw (through_end f.a f.b ha) refl)
