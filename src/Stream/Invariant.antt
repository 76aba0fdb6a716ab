-- ===== src/Stream/Invariant.antt =====
-- What every pump keeps: the residents are the chunks that the loads give, and a mesh is a function
-- of those chunks and of the mask it was built with.
use voxel.Base.{
  ℕ, zero, suc, ◌+◌, ◌≡◌, refl, inl, inr, Bool, true, false, not, ◌&&◌, some, List, [], ◌∷◌, arith,
  if◌then◌else◌, Bool-cases, Option-cases, All, some_inj,
}
use voxel.Base.Assoc.{find, contains, emplace}
use voxel.Base.Int32.{int_add, int_sub}
use voxel.Belt.{remap_slots_to_content}
use voxel.Blob.{CellValue, UnpackedChunk}
use voxel.Mesh.{greedy_mesh}
use voxel.Mesh.Emitter.{ChunkMesh}
use voxel.Mesh.Mask.{NeighborViews}
use voxel.Stream.{
  ChunkKey, key_eq, StreamConfig, ResidentChunk, Residents, resident, has_resident, Streamer,
  neighbor_keys, has_bit, in_window, window_mask, evict,
}
use voxel.Stream.Pump.{
  all_resident, neighbors_resident, cells_at, neighbor_views, Admission, admit_one, admit,
  needs_mesh, build_one, build_all, pump,
}

pub key_eq→eq : (a b : ChunkKey) → key_eq a b ≡ true → a ≡ b
key_eq→eq a b h = ground arith

pub key_eq_refl : (a : ChunkKey) → key_eq a a ≡ true
key_eq_refl a = ground arith

pub and_right : (p q : Bool) → (p && q) ≡ true → q ≡ true
and_right true q h = h
and_right false q h = absurd cc

-- What a load gives, whatever the store went through: `world` of the key.
pub record LoadLaws {S : Type 0} (load : S → ChunkKey → S × (UnpackedChunk × Bool))
    (Valid : S → Type 0) (world : ChunkKey → UnpackedChunk) : Type 0 where
  pub load_valid : (s : S) (k : ChunkKey) → Valid s → Valid (load s k).0
  pub load_world : (s : S) (k : ChunkKey) → Valid s → (load s k).1.0 ≡ world k

module _ (world : ChunkKey → UnpackedChunk) (is_opaque : CellValue → Bool) where
  world_cells : ℕ → ℕ → ChunkKey → List CellValue
  world_cells mask bit n = if not (has_bit mask bit) then [] else (world n).cells

  -- The cells of the neighbours that the mask names.
  unfoldable pub world_views : ChunkKey → ℕ → NeighborViews
  unfolding world_cells
  world_views k mask = record {
    neg_x = world_cells mask 1 (record { cx = int_sub k.cx 1; cy = k.cy; cz = k.cz });
    pos_x = world_cells mask 0 (record { cx = int_add k.cx 1; cy = k.cy; cz = k.cz });
    neg_y = world_cells mask 3 (record { cx = k.cx; cy = int_sub k.cy 1; cz = k.cz });
    pos_y = world_cells mask 2 (record { cx = k.cx; cy = int_add k.cy 1; cz = k.cz });
    neg_z = world_cells mask 5 (record { cx = k.cx; cy = k.cy; cz = int_sub k.cz 1 });
    pos_z = world_cells mask 4 (record { cx = k.cx; cy = k.cy; cz = int_add k.cz 1 });
  }

  -- The mesh of a chunk as a function of the world and of the mask alone.
  unfoldable pub world_mesh : ChunkKey → ℕ → ChunkMesh
  world_mesh k mask =
      remap_slots_to_content (greedy_mesh (world k) (world_views k mask) is_opaque) (world k)

  abbrev pub IsTrue : ChunkKey → ResidentChunk → Type 0
  IsTrue k r = (r.chunk ≡ world k) × (r.meshed ≡ true → r.mesh ≡ world_mesh k r.meshed_mask)

  abbrev pub AllTrue : Residents → Type 0
  AllTrue = All (λ e. IsTrue e.0 e.1)

  pub IsTrue-resident :
      (m : Residents) (k : ChunkKey) (r : ResidentChunk)
      → AllTrue m
      → resident k m ≡ some r
      → IsTrue k r
  unfolding find
  IsTrue-resident [] k r h e = absurd cc
  IsTrue-resident ((k', r') ∷ m) k r h e = elim (Bool-cases (key_eq k' k)) [
    | inl same ↦
        let at = key_eq→eq k' k same in
        let found : r' ≡ r = some_inj r' r (rw same at e) in rw (← at, ← found) h.0
    | inr other ↦ IsTrue-resident m k r h.1 (rw other at e)
  ]

  -- A neighbour that the mask names is resident, so that its cells are the world's.
  cells_at-world :
      (m : Residents) (mask bit : ℕ) (n : ChunkKey)
      → AllTrue m
      → (has_bit mask bit && not (has_resident n m)) ≡ false
      → cells_at m mask bit n ≡ world_cells mask bit n
  unfolding cells_at world_cells contains
  cells_at-world m mask bit n h ready = elim (Option-cases (resident n m)) [
    | inl e ↦ elim (Bool-cases (has_bit mask bit)) [
      | inl b ↦
          let no_one : has_resident n m ≡ false = rw (contains, e) refl in absurd (ground arith)
      | inr b ↦ rw b refl
    ]
    | inr (r, e) ↦ let true_chunk = (IsTrue-resident m n r h e).0 in rw (e, true_chunk) refl
  ]

  ready_step :
      (m : Residents) (mask f : ℕ) (n : ChunkKey) (keys : List ChunkKey)
      → all_resident m mask f (n ∷ keys) ≡ true
      → ((has_bit mask f && not (has_resident n m)) ≡ false)
        × (all_resident m mask (f + 1) keys ≡ true)
  unfolding all_resident
  ready_step m mask f n keys h = elim (Bool-cases (has_bit mask f && not (has_resident n m))) [
    | inl bad ↦ let stop : false ≡ true = rw bad at h in absurd cc
    | inr ok ↦ (ok, rw ok at h)
  ]

  neighbor_views-world :
      (m : Residents) (k : ChunkKey) (mask : ℕ)
      → AllTrue m
      → neighbors_resident m k mask ≡ true
      → neighbor_views m k mask ≡ world_views k mask
  unfolding neighbor_views world_views neighbors_resident neighbor_keys
  neighbor_views-world m k mask h ready =
      let (r0, s0) = ready_step m mask 0 _ _ ready in
      let (r1, s1) = ready_step m mask 1 _ _ s0 in
      let (r2, s2) = ready_step m mask 2 _ _ s1 in
      let (r3, s3) = ready_step m mask 3 _ _ s2 in
      let (r4, s4) = ready_step m mask 4 _ _ s3 in
      let (r5, s5) = ready_step m mask 5 _ _ s4 in
      let e0 = cells_at-world m mask 0 _ h r0 in
      let e1 = cells_at-world m mask 1 _ h r1 in
      let e2 = cells_at-world m mask 2 _ h r2 in
      let e3 = cells_at-world m mask 3 _ h r3 in
      let e4 = cells_at-world m mask 4 _ h r4 in
      let e5 = cells_at-world m mask 5 _ h r5 in
      λ i. record {
        neg_x = e1 i;
        pos_x = e0 i;
        neg_y = e3 i;
        pos_y = e2 i;
        neg_z = e5 i;
        pos_z = e4 i;
      }

  module _ (cfg : StreamConfig) (cx cz : ℕ) where
    build_one-IsTrue :
        (m : Residents) (k : ChunkKey) (r : ResidentChunk)
        → AllTrue m
        → r.chunk ≡ world k
        → neighbors_resident m k (window_mask cfg cx cz k) ≡ true
        → IsTrue k (build_one cfg is_opaque cx cz m k r)
    unfolding build_one world_mesh
    build_one-IsTrue m k r h e ready =
        (e, λ _. rw (neighbor_views-world m k (window_mask cfg cx cz k) h ready, e) refl)

    needs_mesh-ready :
        (m : Residents) (k : ChunkKey) (r : ResidentChunk)
        → needs_mesh cfg is_opaque cx cz m k r ≡ true
        → neighbors_resident m k (window_mask cfg cx cz k) ≡ true
    unfolding needs_mesh
    needs_mesh-ready m k r h = and_right _ (neighbors_resident m k (window_mask cfg cx cz k)) h

    built :
        (m : Residents) (k : ChunkKey) (r : ResidentChunk)
        → AllTrue m
        → IsTrue k r
        → IsTrue k (
            if needs_mesh cfg is_opaque cx cz m k r then build_one cfg is_opaque cx cz m k r else r)
    built m k r h g = elim (Bool-cases (needs_mesh cfg is_opaque cx cz m k r)) [
      | inl e ↦ rw e (build_one-IsTrue m k r h g.0 (needs_mesh-ready m k r e))
      | inr e ↦ rw e g
    ]

    build_all-AllTrue :
        (m rest : Residents)
        → AllTrue m
        → AllTrue rest
        → AllTrue (build_all cfg is_opaque cx cz m rest)
    unfolding build_all
    build_all-AllTrue m [] h g = tt
    build_all-AllTrue m ((k, r) ∷ rest) h g = (built m k r h g.0, build_all-AllTrue m rest h g.1)

    evict-AllTrue : (m : Residents) → AllTrue m → AllTrue (evict cfg cx cz m)
    unfolding evict
    evict-AllTrue [] h = tt
    evict-AllTrue ((k, r) ∷ m) h = elim (Bool-cases (in_window cfg cx cz k)) [
      | inl e ↦ rw e (h.0, evict-AllTrue m h.1)
      | inr e ↦ rw e (evict-AllTrue m h.1)
    ]

  module _ {S : Type 0} (load : S → ChunkKey → S × (UnpackedChunk × Bool)) (Valid : S → Type 0)
      (laws : LoadLaws load Valid world) where
    abbrev Sound : Admission S → Type 0
    Sound a = Valid a.store × AllTrue a.residents

    admit_one-Sound : (k : ChunkKey) (a : Admission S) → Sound a → Sound (admit_one load k a)
    unfolding admit_one emplace
    admit_one-Sound k a (v, h) = (
      laws.load_valid a.store k v,
      elim (Bool-cases (has_resident k a.residents)) [
        | inl e ↦ rw e h
        | inr e ↦ rw e ((laws.load_world a.store k v, λ no_mesh. absurd cc), h)
      ],
    )

    admit-Sound :
        (n : ℕ) (keys : List ChunkKey) (a : Admission S) → Sound a → Sound (admit load n keys a)
    unfolding admit
    admit-Sound zero keys a h = h
    admit-Sound (suc n) [] a h = h
    admit-Sound (suc n) (k ∷ keys) a h =
        admit-Sound n keys (admit_one load k a) (admit_one-Sound k a h)

    -- Every pump keeps it that each resident is the chunk that a load of its key gives, and that each
    -- mesh is the one of the loaded chunks and of the neighbour mask it was built with.
    pub pump-IsTrue :
        (cfg : StreamConfig) (st : Streamer S)
        → Valid st.store × AllTrue st.residents
        → Valid (pump load cfg is_opaque st).0.store
          × AllTrue (pump load cfg is_opaque st).0.residents
    unfolding pump
    pump-IsTrue cfg st (v, h) =
        let (v', h') =
          admit-Sound cfg.budget _ _
            (v, evict-AllTrue cfg st.center_x st.center_z st.residents h) in
        (v', build_all-AllTrue cfg st.center_x st.center_z _ _ h' h')
