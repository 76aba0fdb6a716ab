-- ===== src/Belt/Remap.antt =====
-- The slot adapter on what a mesh paints.
use voxel.Base.{
  ℕ, zero, suc, ◌+◌, ◌*◌, ◌%◌, ◌^◌, ◌≤◌, ◌≡◌, refl, sym, ap, inl, inr, Bool, true, false, List, [],
  ◌∷◌, ◌++◌, map, arith, leb, if◌then◌else◌, Bool-cases, length, get_or, get_or-map,
}
use voxel.Base.Bits.{bit_and_mask}
use voxel.Belt.{remap_vertex, remap_slots_to_content}
use voxel.Blob.{no_cell, UnpackedChunk}
use voxel.Mesh.Emitter.{ChunkMesh}
use voxel.Mesh.Emitter.Painted.{UnitFace, blank_vertex, paints, painted_below, painted, IsWhole}
use voxel.Mesh.Vertex.{PackedVertex, vertex_x, vertex_y, vertex_z, vertex_face}

-- The low 16 bits of the content that the palette has in the slot; a slot behind the palette stays.
unfoldable pub content_of_slot : UnpackedChunk → ℕ → ℕ
content_of_slot chunk s =
    if leb (length chunk.palette) s then s else (get_or chunk.palette s no_cell).content % 2 ^ 16

remap_vertex_lem :
    (chunk : UnpackedChunk) (v : PackedVertex)
    → remap_vertex chunk v ≡ record { pos_face = v.pos_face; slot = content_of_slot chunk v.slot }
unfolding remap_vertex content_of_slot
remap_vertex_lem chunk v = elim (Bool-cases (leb (length chunk.palette) v.slot)) [
  | inl e ↦ rw e refl
  | inr e ↦ rw (e, bit_and_mask 16 (get_or chunk.palette v.slot no_cell).content) refl
]

paints-remap :
    (v w : PackedVertex) (a b : ℕ) (f : UnitFace)
    → paints
        (record { pos_face = v.pos_face; slot = a })
        (record { pos_face = w.pos_face; slot = b })
        f
      ≡ paints v w f
unfolding paints vertex_x vertex_y vertex_z vertex_face
paints-remap v w a b f = refl

map-append : (f : ℕ → ℕ) (xs ys : List ℕ) → map f (xs ++ ys) ≡ map f xs ++ map f ys
map-append f [] ys = refl
map-append f (x ∷ xs) ys = ap (◌∷◌ (f x)) (map-append f xs ys)

one_face :
    (g : ℕ → ℕ) (p : Bool) (s : ℕ) → (if p then g s ∷ [] else []) ≡ map g (if p then s ∷ [] else [])
one_face g true s = refl
one_face g false s = refl

painted_below-remap :
    (chunk : UnpackedChunk) (n : ℕ) (vs : List PackedVertex) (f : UnitFace)
    → n * 4 ≤ length vs
    → painted_below n (map (remap_vertex chunk) vs) f
      ≡ map (content_of_slot chunk) (painted_below n vs f)
unfolding painted_below
painted_below-remap chunk zero vs f h = refl
painted_below-remap chunk (suc n) vs f h =
    let v = get_or vs (n * 4) blank_vertex in
    let w = get_or vs (n * 4 + 2) blank_vertex in
    let at_v = get_or-map (remap_vertex chunk) vs (n * 4) blank_vertex blank_vertex (omega arith) in
    let at_w =
      get_or-map (remap_vertex chunk) vs (n * 4 + 2) blank_vertex blank_vertex (omega arith) in
    rw
      (
        painted_below-remap chunk n vs f (omega arith),
        at_v,
        at_w,
        remap_vertex_lem chunk v,
        remap_vertex_lem chunk w,
        paints-remap v w (content_of_slot chunk v.slot) (content_of_slot chunk w.slot) f,
        one_face (content_of_slot chunk) (paints v w f) v.slot,
      )
      (sym (
        map-append (content_of_slot chunk) (painted_below n vs f)
          (if paints v w f then v.slot ∷ [] else [])))

-- After the adapter a whole mesh paints the same unit faces, each with the content of its palette
-- slot, cut to 16 bits.
pub painted-remap_slots_to_content :
    (m : ChunkMesh) (chunk : UnpackedChunk) (f : UnitFace)
    → IsWhole m
    → painted (remap_slots_to_content m chunk) f ≡ map (content_of_slot chunk) (painted m f)
unfolding painted remap_slots_to_content
painted-remap_slots_to_content m chunk f whole =
    painted_below-remap chunk m.quad_count m.vertices f (omega arith)
