-- ===== src/Mesh/Sweep/Cover/Greedy.antt =====
-- The greedy sweep.
use voxel.Base.{
  ℕ, suc, ◌+◌, ◌*◌, ◌<◌, ◌≡◌, refl, sym, ◌∙◌, inl, inr, Bool, true, false, ◌&&◌, ◌||◌, List, [],
  ◌∷◌, ◌++◌, append-nil, arith, ◌==◌, if◌then◌else◌, Bool-cases, replicate, length-replicate,
  get_or-replicate,
}
use voxel.Base.Loops.{for_below, for_below_inv}
use voxel.Mesh.Emitter.{ChunkMesh, Rect, quad}
use voxel.Mesh.Emitter.Painted.{UnitFace, painted, IsWhole}
use voxel.Mesh.Emitter.Quads.{quad-IsWhole, painted-quad}
use voxel.Mesh.CellGrid.{edge}
use voxel.Mesh.Mask.{no_face}
use voxel.Mesh.Sweep.{extent_v, extent_u, claim, Sweep, greedy_cell, greedy_slice}
use voxel.Mesh.Sweep.Claims.{in_box, claimed_at, claim-Claimed}
use voxel.Mesh.Sweep.Cover.{
  mask_at, in_slice, shown, through, through_start, through_end, through_row, through_next,
  covers-in_slice, PaintsSlice,
}
use voxel.Mesh.Sweep.Rectangles.{width_fits, height_fits}
use voxel.Mesh.Sweep.Cover.Progress.{
  Progress, join, box_free, box_starts, opposite, or_cases, or_false,
}

module _ (d : ℕ) (positive : Bool) (p : ℕ) (mask : List ℕ) (mesh0 : ChunkMesh) (hd : d < 3)
    (hp : p < 17) where
  abbrev rect_at : ℕ → ℕ → ℕ → ℕ → ℕ → Rect
  rect_at uu vv du dv slot = record {
    d = d;
    positive = positive;
    p = p;
    u0 = uu;
    v0 = vv;
    du = du;
    dv = dv;
    slot = slot;
  }

  keeps :
      (uu vv : ℕ) (s : Sweep)
      → uu < edge
      → vv < edge
      → ((mask_at mask uu vv == no_face) || claimed_at s.claimed uu vv) ≡ true
      → Progress d positive p mask mesh0 uu vv s
      → Progress d positive p mask mesh0 uu (suc vv) s
  keeps uu vv s hu hv skips h = record {
    claims = h.claims;
    whole = h.whole;
    visible = h.visible;
    finished = λ a b ha hb t c.
        elim (or_cases (through uu vv a b) (uu == a && vv == b)
          (sym (through_next uu vv a b) ∙ t)) [
            | inl before ↦ h.finished a b ha hb before c
            | inr at ↦
                let eu : uu ≡ a = ground arith in
                let ev : vv ≡ b = ground arith in
                elim (or_cases (mask_at mask uu vv == no_face) (claimed_at s.claimed uu vv) skips) [
                  | inl e ↦ rw (← eu, ← ev) e
                  | inr e ↦
                      let c' : claimed_at s.claimed uu vv ≡ false = rw (eu, ev) c in
                      absurd (ground arith)
                ]
          ];
    paints = h.paints;
  }

  -- The state after a rectangle is taken.
  abbrev taken : ℕ → ℕ → Sweep → Sweep
  taken uu vv s =
      let slot = mask_at mask uu vv in
      let dv = extent_v mask s.claimed slot uu vv in
      let du = extent_u mask s.claimed slot uu vv dv in
      record {
        claimed = claim uu vv du dv s.claimed;
        mesh = quad (rect_at uu vv du dv slot) s.mesh;
      }

  takes :
      (uu vv : ℕ) (s : Sweep)
      → uu < edge
      → vv < edge
      → (mask_at mask uu vv == no_face) ≡ false
      → claimed_at s.claimed uu vv ≡ false
      → Progress d positive p mask mesh0 uu vv s
      → Progress d positive p mask mesh0 uu (suc vv) (taken uu vv s)
  takes uu vv s hu hv seen free h =
      let slot = mask_at mask uu vv in
      let c = s.claimed in
      let dv = extent_v mask c slot uu vv in
      let du = extent_u mask c slot uu vv dv in
      let fits_v = width_fits mask c slot uu vv hu hv in
      let fits_u = height_fits mask c slot uu vv hu hv dv in
      let (claims', now) = claim-Claimed c uu vv du dv (omega arith) (omega arith) h.claims in
      let box = box_free mask c uu vv hu hv in
      record {
        claims = claims';
        whole = quad-IsWhole (rect_at uu vv du dv slot) s.mesh h.whole;
        visible = λ a b ha hb e.
            elim (or_cases (claimed_at c a b) (in_box uu du vv dv a b) (sym (now a b ha hb) ∙ e)) [
              | inl before ↦ h.visible a b ha hb before
              | inr inside ↦ rw ((box a b free inside).0) seen
            ];
        finished = λ a b ha hb t e.
            let (before, outside) =
              or_false (claimed_at c a b) (in_box uu du vv dv a b) (sym (now a b ha hb) ∙ e) in
            elim (or_cases (through uu vv a b) (uu == a && vv == b)
              (sym (through_next uu vv a b) ∙ t)) [
                | inl past ↦ h.finished a b ha hb past before
                | inr at ↦
                    let eu : uu ≡ a = ground arith in
                    let ev : vv ≡ b = ground arith in
                    let inside : in_box uu du vv dv a b ≡ true =
                      rw (← eu, ← ev) (box_starts mask c uu vv hu hv) in
                    absurd (ground arith)
              ];
        paints = λ f ha hb.
            painted-quad (rect_at uu vv du dv slot) s.mesh f h.whole (hd, hp, fits_u, fits_v)
            ∙ rw (h.paints f ha hb, covers-in_slice (rect_at uu vv du dv slot) f, now f.a f.b ha hb)
                (join (painted mesh0 f) (in_slice d positive p f) (claimed_at c f.a f.b)
                  (in_box uu du vv dv f.a f.b) slot (mask_at mask f.a f.b) (box f.a f.b free));
      }

  greedy_step :
      (uu vv : ℕ) (s : Sweep)
      → uu < edge
      → vv < edge
      → Progress d positive p mask mesh0 uu vv s
      → Progress d positive p mask mesh0 uu (suc vv) (greedy_cell d positive p mask uu vv s)
  unfolding greedy_cell
  greedy_step uu vv s hu hv h =
      elim (Bool-cases ((mask_at mask uu vv == no_face) || claimed_at s.claimed uu vv)) [
        | inl e ↦ rw e (keeps uu vv s hu hv e h)
        | inr e ↦
            let (seen, free) =
              or_false (mask_at mask uu vv == no_face) (claimed_at s.claimed uu vv) e in
            rw e (takes uu vv s hu hv seen free h)
      ]

  greedy_row :
      (uu : ℕ) (s : Sweep)
      → uu < edge
      → Progress d positive p mask mesh0 uu 0 s
      → Progress d positive p mask mesh0
          (suc uu)
          0
          (for_below edge (λ vv. greedy_cell d positive p mask uu vv) s)
  greedy_row uu s hu h =
      let end =
        for_below_inv (Progress d positive p mask mesh0 uu) _ edge
          (λ vv t hv. greedy_step uu vv t hu hv) s h in
      record {
        claims = end.claims;
        whole = end.whole;
        visible = end.visible;
        finished = λ a b ha hb t. end.finished a b ha hb (through_row uu a b hb ∙ t);
        paints = end.paints;
      }

  none_yet :
      (f : UnitFace)
      → painted mesh0 f
        ≡ painted mesh0 f
          ++ (if in_slice d positive p f && claimed_at (replicate 256 false) f.a f.b
              then mask_at mask f.a f.b ∷ []
              else [])
  none_yet f =
      rw (get_or-replicate 256 (f.a * edge + f.b) false) (nothing (in_slice d positive p f))
    where
      nothing :
          (here : Bool)
          → painted mesh0 f
            ≡ painted mesh0 f ++ (if here && false then mask_at mask f.a f.b ∷ [] else [])
      nothing true = sym (append-nil (painted mesh0 f))
      nothing false = sym (append-nil (painted mesh0 f))

  -- With merging, every unit face that the mask of a slice shows is painted exactly once, with the
  -- slot that the mask has there, no other face of the slice is painted, and the mesh stays whole.
  pub greedy_slice-PaintsSlice :
      IsWhole mesh0 → PaintsSlice d positive p mask mesh0 (greedy_slice d positive p mask mesh0)
  unfolding greedy_slice shown
  greedy_slice-PaintsSlice whole =
      let start : Progress d positive p mask mesh0 0 0
          (record { claimed = replicate 256 false; mesh = mesh0 }) =
        record {
          claims = length-replicate 256 false;
          whole = whole;
          visible = λ a b ha hb e.
              let none = get_or-replicate 256 (a * edge + b) false in absurd (ground arith);
          finished = λ a b ha hb t e. let not_yet = through_start a b in absurd (ground arith);
          paints = λ f ha hb. none_yet f;
        } in
      let end =
        for_below_inv (λ uu. Progress d positive p mask mesh0 uu 0) _ edge
          (λ uu s hu. greedy_row uu s hu) _ start in
      (
        end.whole,
        λ f ha hb.
            end.paints f ha hb
            ∙ rw
                (opposite _ (mask_at mask f.a f.b == no_face) (end.visible f.a f.b ha hb)
                  (end.finished f.a f.b ha hb (through_end f.a f.b ha)))
                refl,
      )
