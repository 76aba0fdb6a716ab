-- ===== src/Stream/Pump.antt =====
-- src/world/stream.hpp: the pump, which evicts, admits and meshes, and the test for quiescence.
use voxel.Base.{
  ℕ, zero, suc, ◌+◌, ◌-◌, Bool, true, false, not, ◌&&◌, ◌||◌, none, some, List, [], ◌∷◌, ◌==◌,
  if◌then◌else◌, length,
}
use voxel.Base.Assoc.{emplace}
use voxel.Base.Int32.{int_add, int_sub}
use voxel.Belt.{remap_slots_to_content}
use voxel.Blob.{CellValue, UnpackedChunk}
use voxel.Mesh.{greedy_mesh}
use voxel.Mesh.Emitter.{empty_mesh}
use voxel.Mesh.Mask.{NeighborViews}
use voxel.Stream.{
  ChunkKey, key_eq, StreamConfig, ResidentChunk, PumpStats, Residents, resident, has_resident,
  Streamer, neighbor_keys, has_bit, window_mask, desired, sort_keys, missing, evict,
}

-- `neighborsResident`, from the face `f` on.
unfoldable pub all_resident : Residents → ℕ → ℕ → List ChunkKey → Bool
all_resident m mask f [] = true
all_resident m mask f (n ∷ keys) =
    let rest = all_resident m mask (f + 1) keys in
    if has_bit mask f && not (has_resident n m) then false else rest

unfoldable pub neighbors_resident : Residents → ChunkKey → ℕ → Bool
neighbors_resident m k mask = all_resident m mask 0 (neighbor_keys k)

-- The lambda `cells`; the iterator is not at the end, as the neighbours are resident.
unfoldable pub cells_at : Residents → ℕ → ℕ → ChunkKey → List CellValue
cells_at m mask bit n =
    if not (has_bit mask bit)
    then []
    else elim (resident n m) [ none ↦ [] | some r ↦ r.chunk.cells ]

unfoldable pub neighbor_views : Residents → ChunkKey → ℕ → NeighborViews
neighbor_views m k mask = record {
  neg_x = cells_at m mask 1 (record { cx = int_sub k.cx 1; cy = k.cy; cz = k.cz });
  pos_x = cells_at m mask 0 (record { cx = int_add k.cx 1; cy = k.cy; cz = k.cz });
  neg_y = cells_at m mask 3 (record { cx = k.cx; cy = int_sub k.cy 1; cz = k.cz });
  pos_y = cells_at m mask 2 (record { cx = k.cx; cy = int_add k.cy 1; cz = k.cz });
  neg_z = cells_at m mask 5 (record { cx = k.cx; cy = k.cy; cz = int_sub k.cz 1 });
  pos_z = cells_at m mask 4 (record { cx = k.cx; cy = k.cy; cz = int_add k.cz 1 });
}

-- What the admission loop carries.
pub record Admission (S : Type 0) : Type 0 where
  pub store : S
  pub residents : Residents
  pub loaded : ℕ
  pub loaded_from_store : ℕ

module _ {S : Type 0} (load : S → ChunkKey → S × (UnpackedChunk × Bool)) where
  unfoldable pub admit_one : ChunkKey → Admission S → Admission S
  admit_one k a =
      let (store, (chunk, from_store)) = load a.store k in
      record {
        store = store;
        residents =
            emplace key_eq k
              (record {
                chunk = chunk;
                mesh = empty_mesh;
                from_store = from_store;
                meshed = false;
                meshed_mask = 0;
              })
              a.residents;
        loaded = a.loaded + 1;
        loaded_from_store = a.loaded_from_store + (if from_store then 1 else 0);
      }

  -- `for (i = 0; i < admit; ++i)` over the sorted keys.
  unfoldable pub admit : ℕ → List ChunkKey → Admission S → Admission S
  admit zero keys a = a
  admit (suc n) [] a = a
  admit (suc n) (k ∷ keys) a = admit n keys (admit_one k a)

module _ (cfg : StreamConfig) (is_opaque : CellValue → Bool) (center_x center_z : ℕ) where
  -- Whether the chunk is put on the work list.
  unfoldable pub needs_mesh : Residents → ChunkKey → ResidentChunk → Bool
  needs_mesh m k r =
      let mask = window_mask cfg center_x center_z k in
      (not r.meshed || not (r.meshed_mask == mask)) && neighbors_resident m k mask

  -- `buildOne`
  unfoldable pub build_one : Residents → ChunkKey → ResidentChunk → ResidentChunk
  build_one m k r =
      let mask = window_mask cfg center_x center_z k in
      record {
        chunk = r.chunk;
        mesh =
            remap_slots_to_content (greedy_mesh r.chunk (neighbor_views m k mask) is_opaque)
              r.chunk;
        from_store = r.from_store;
        meshed = true;
        meshed_mask = mask;
      }

  -- The chunks on the work list are built, each from the cells in `m`, which no build changes.
  unfoldable pub build_all : Residents → Residents → Residents
  build_all m [] = []
  build_all m ((k, r) ∷ rest) =
      (k, if needs_mesh m k r then build_one m k r else r) ∷ build_all m rest

  unfoldable pub work_size : Residents → Residents → ℕ
  work_size m [] = 0
  work_size m ((k, r) ∷ rest) = (if needs_mesh m k r then 1 else 0) + work_size m rest

unfoldable pub pump :
    {S : Type 0}
    → (S → ChunkKey → S × (UnpackedChunk × Bool))
    → StreamConfig
    → (CellValue → Bool)
    → Streamer S
    → Streamer S × PumpStats
pump load cfg is_opaque st =
    let kept = evict cfg st.center_x st.center_z st.residents in
    let keys = missing cfg st.center_x st.center_z kept (desired cfg st.center_x st.center_z) in
    let a =
      admit load cfg.budget (sort_keys cfg st.center_x st.center_z keys)
        (record { store = st.store; residents = kept; loaded = 0; loaded_from_store = 0 }) in
    (
      record {
        store = a.store;
        center_x = st.center_x;
        center_z = st.center_z;
        residents = build_all cfg is_opaque st.center_x st.center_z a.residents a.residents;
      },
      record {
        loaded = a.loaded;
        loaded_from_store = a.loaded_from_store;
        meshed = work_size cfg is_opaque st.center_x st.center_z a.residents a.residents;
        evicted = length st.residents - length kept;
      },
    )

-- The lambda of `quiescent` on one desired key.
unfoldable pub is_settled : StreamConfig → ℕ → ℕ → Residents → ChunkKey → Bool
is_settled cfg cx cz m k = elim (resident k m) [
  | none ↦ false
  | some r ↦ r.meshed && r.meshed_mask == window_mask cfg cx cz k
]

unfoldable pub all_settled : StreamConfig → ℕ → ℕ → Residents → List ChunkKey → Bool
all_settled cfg cx cz m [] = true
all_settled cfg cx cz m (k ∷ keys) = all_settled cfg cx cz m keys && is_settled cfg cx cz m k

unfoldable pub quiescent : {S : Type 0} → StreamConfig → Streamer S → Bool
quiescent cfg st =
    let keys = desired cfg st.center_x st.center_z in
    all_settled cfg st.center_x st.center_z st.residents keys && length keys == length st.residents
