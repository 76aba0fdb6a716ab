-- ===== src/Stream.antt =====
-- src/world/stream.hpp: the streaming window. An int is its 32-bit pattern. The resident map is an
-- association list, so the order in which `residents` hands it out is left open; the store and the
-- belt are one parameter, the load of a single chunk.
pub mod Window
pub mod Pump
pub mod Invariant
pub mod Distinct
pub mod Count
pub mod Quiet
pub mod Same
pub mod OnBelt
mod Examples
use voxel.Base.{
  ℕ, zero, suc, ◌+◌, ◌-◌, ◌*◌, ◌/◌, ◌%◌, ◌^◌, ◌≤◌, ◌<◌, bit_and, bit_or, bit_xor, ◌≡◌, refl, sym,
  ap, ◌∙◌, subst, ◌≢◌, ◌↔◌, ◌⊎◌, inl, inr, Bool, true, false, not, ◌&&◌, ◌||◌, Option, none, some,
  List, [], ◌∷◌, ◌++◌, map, append_assoc, append-nil, arith, dec_lt, dec_le, ℕ_discrete, ltb, leb,
  ◌==◌, if◌then◌else◌, ltb→lt, lt→ltb, ltb-false→le, ==_iff, ==_refl, Bool-cases, Bool-agree,
  Option-cases, length, get_elem?, get_or, set, replicate, All, length-append, length-set,
  length-replicate, get_or-append_right, get_or-append_left, get_or-append_last, get_or-set_self,
  get_or-set_ne, get_or-replicate, eq_of_get_or, All-get_or, All-append, All-set, take, drop,
  take-append, drop-append, set-append, eq_tabulate, ◌>>=◌, ◌>>◌, reject, >>=-eq-some, reject->>,
  some_inj, get_or-map, length-map,
}
use voxel.Base.Assoc.{find, contains, emplace}
use voxel.Base.Int32.{int_add, int_sub, int_lt, int_le, int_rank, int_rounds}
use voxel.Belt.{remap_slots_to_content}
use voxel.Blob.{CellValue, UnpackedChunk}
use voxel.Mesh.{greedy_mesh}
use voxel.Mesh.Emitter.{ChunkMesh, empty_mesh}
use voxel.Mesh.Mask.{NeighborViews}

pub record ChunkKey : Type 0 where
  pub cx : ℕ
  pub cy : ℕ
  pub cz : ℕ

-- The defaulted comparison: equality, and the lexicographic order.
abbrev pub key_eq : ChunkKey → ChunkKey → Bool
key_eq a b = a.cx == b.cx && (a.cy == b.cy && a.cz == b.cz)

abbrev pub key_less : ChunkKey → ChunkKey → Bool
key_less a b =
    int_lt a.cx b.cx || (a.cx == b.cx && (int_lt a.cy b.cy || (a.cy == b.cy && int_lt a.cz b.cz)))

pub record StreamConfig : Type 0 where
  pub radius : ℕ
  pub cy_min : ℕ
  pub cy_max : ℕ
  pub budget : ℕ

pub record ResidentChunk : Type 0 where
  pub chunk : UnpackedChunk
  pub mesh : ChunkMesh
  pub from_store : Bool
  pub meshed : Bool
  pub meshed_mask : ℕ

pub record PumpStats : Type 0 where
  pub loaded : ℕ
  pub loaded_from_store : ℕ
  pub meshed : ℕ
  pub evicted : ℕ

unfoldable pub changed : PumpStats → Bool
changed stats = ltb 0 (stats.loaded + stats.meshed + stats.evicted)

abbrev pub Residents : Type 0
Residents = List (ChunkKey × ResidentChunk)

-- `m_resident.find(k)`
abbrev pub resident : ChunkKey → Residents → Option ResidentChunk
resident k m = find key_eq k m

abbrev pub has_resident : ChunkKey → Residents → Bool
has_resident k m = contains key_eq k m

pub record Streamer (S : Type 0) : Type 0 where
  pub store : S
  pub center_x : ℕ
  pub center_z : ℕ
  pub residents : Residents

unfoldable pub set_center : {S : Type 0} → Streamer S → ℕ → ℕ → Streamer S
set_center st cx cz = record {
  store = st.store;
  center_x = cx;
  center_z = cz;
  residents = st.residents;
}

-- `{k.cx + 1, k.cy, k.cz}, …`, in the order of the faces.
unfoldable pub neighbor_keys : ChunkKey → List ChunkKey
neighbor_keys k =
    record { cx = int_add k.cx 1; cy = k.cy; cz = k.cz }
    ∷ record { cx = int_sub k.cx 1; cy = k.cy; cz = k.cz }
    ∷ record { cx = k.cx; cy = int_add k.cy 1; cz = k.cz }
    ∷ record { cx = k.cx; cy = int_sub k.cy 1; cz = k.cz }
    ∷ record { cx = k.cx; cy = k.cy; cz = int_add k.cz 1 }
    ∷ record { cx = k.cx; cy = k.cy; cz = int_sub k.cz 1 }
    ∷ []

-- `mask & (1u << f)`
abbrev pub has_bit : ℕ → ℕ → Bool
has_bit mask f = not (bit_and mask (2 ^ f) == 0)

module _ (cfg : StreamConfig) (center_x center_z : ℕ) where
  unfoldable pub chebyshev : ChunkKey → ℕ
  chebyshev k =
      let dx = if int_le center_x k.cx then int_sub k.cx center_x else int_sub center_x k.cx in
      let dz = if int_le center_z k.cz then int_sub k.cz center_z else int_sub center_z k.cz in
      if int_lt dz dx then dx else dz

  unfoldable pub in_window : ChunkKey → Bool
  in_window k =
      if int_lt k.cy cfg.cy_min || int_lt cfg.cy_max k.cy
      then false
      else int_le (chebyshev k) cfg.radius

  -- The loop over the faces, from `f` on.
  unfoldable pub mask_from : ℕ → ℕ → List ChunkKey → ℕ
  mask_from f mask [] = mask
  mask_from f mask (n ∷ keys) =
      mask_from (f + 1) (if in_window n then bit_or mask (2 ^ f) % 256 else mask) keys

  unfoldable pub window_mask : ChunkKey → ℕ
  window_mask k = mask_from 0 0 (neighbor_keys k)

  -- The keys that `forEachDesired` calls on, in its order: cz, cy, and cx innermost.
  unfoldable pub desired_row : ℕ → ℕ → ℕ → ℕ → List ChunkKey
  desired_row cz cy cx zero = []
  desired_row cz cy cx (suc n) =
      record { cx = cx; cy = cy; cz = cz } ∷ desired_row cz cy (int_add cx 1) n

  unfoldable pub desired_rows : ℕ → ℕ → ℕ → List ChunkKey
  desired_rows cz cy zero = []
  desired_rows cz cy (suc n) =
      let low = int_sub center_x cfg.radius in
      let high = int_add center_x cfg.radius in
      desired_row cz cy low (int_rounds low high) ++ desired_rows cz (int_add cy 1) n

  unfoldable pub desired_slices : ℕ → ℕ → List ChunkKey
  desired_slices cz zero = []
  desired_slices cz (suc n) =
      desired_rows cz cfg.cy_min (int_rounds cfg.cy_min cfg.cy_max)
      ++ desired_slices (int_add cz 1) n

  unfoldable pub desired : List ChunkKey
  desired =
      let low = int_sub center_z cfg.radius in
      let high = int_add center_z cfg.radius in desired_slices low (int_rounds low high)

  -- The order of `std::sort`: nearest first, then by key.
  unfoldable pub nearer : ChunkKey → ChunkKey → Bool
  nearer a b =
      if not (chebyshev a == chebyshev b) then int_lt (chebyshev a) (chebyshev b) else key_less a b

  unfoldable pub insert_key : ChunkKey → List ChunkKey → List ChunkKey
  insert_key k [] = k ∷ []
  insert_key k (m ∷ keys) =
      let rest = insert_key k keys in if nearer k m then k ∷ m ∷ keys else m ∷ rest

  unfoldable pub sort_keys : List ChunkKey → List ChunkKey
  sort_keys [] = []
  sort_keys (k ∷ keys) = insert_key k (sort_keys keys)

  unfoldable pub missing : Residents → List ChunkKey → List ChunkKey
  missing m [] = []
  missing m (k ∷ keys) = let rest = missing m keys in if has_resident k m then rest else k ∷ rest

  -- The eviction loop: what stays.
  unfoldable pub evict : Residents → Residents
  evict [] = []
  evict ((k, r) ∷ m) = let rest = evict m in if in_window k then (k, r) ∷ rest else rest
