-- ===== src/Belt/Memory.antt =====
-- The belt on the in-memory store.
use voxel.Base.{ℕ, ◌≡◌, refl, inl, inr, true, false, List, [], ◌∷◌, map, Option-cases, All, ◌>>=◌}
use voxel.Base.Int.{ℤ}
use voxel.Belt.{
  ChunkStore, BoxPos, load_or_generate, load_each, load_or_generate_region, generated_blob,
  box_positions, ints,
}
use voxel.Blob.{unpack_voxel_blob}
use voxel.Belt.Passes.{
  StoreLaws, IsPersisted, reloaded, load_or_generate_region_again, load_or_generate_miss, load_hit,
}
use voxel.ChunkKey.{chunk_store_key, put_axis}
use voxel.Store.{MemoryStore, chunks, put, get, space_index, Bytes}
use voxel.Store.Laws.{Inv, get-put, put-Inv, same_place}

-- The chunk space of a MemoryStore.
abbrev pub memory_chunks : ChunkStore MemoryStore
memory_chunks = record { get = λ s k. get s chunks k; put = λ s k v. put s chunks k v }

refused_same :
    (s : MemoryStore) (k v j : Bytes)
    → (put s chunks k v).1 ≡ false
    → get (put s chunks k v).0 chunks j ≡ get s chunks j
unfolding put
refused_same s [] v j refused = refl
refused_same s (b ∷ k) v j refused = absurd cc

-- The in-memory store keeps the promise that the belt relies on.
pub memory_chunks-StoreLaws : StoreLaws memory_chunks Inv
unfolding same_place space_index
memory_chunks-StoreLaws = record {
  put_valid = λ s k v h. put-Inv s chunks k v h;
  get_accepted = λ s k v j h ok. get-put s chunks chunks k v j h ok;
  get_refused = λ s k v j h refused. refused_same s k v j refused;
}

pub put_accepted :
    (s : MemoryStore) (x y z : ℤ) (v : Bytes) → (put s chunks (chunk_store_key x y z) v).1 ≡ true
unfolding put chunk_store_key put_axis
put_accepted s x y z v = refl

load-IsPersisted :
    (seed : ℕ) (s : MemoryStore) (x y z : ℤ)
    → IsPersisted (load_or_generate memory_chunks seed s x y z).1
load-IsPersisted seed s x y z =
    elim (Option-cases (get s chunks (chunk_store_key x y z) >>= unpack_voxel_blob)) [
      | inl miss ↦
          rw (load_or_generate_miss memory_chunks seed Inv memory_chunks-StoreLaws s x y z miss)
            (put_accepted s x y z (generated_blob seed x y z))
      | inr (c, hit) ↦
          rw (load_hit memory_chunks seed Inv memory_chunks-StoreLaws s x y z c hit) refl
    ]

load_each-all :
    (seed : ℕ) (s : MemoryStore) (ps : List BoxPos)
    → All IsPersisted (load_each memory_chunks seed s ps).1
unfolding load_each
load_each-all seed s [] = tt
load_each-all seed s (p ∷ ps) = (
  load-IsPersisted seed s p.x p.y p.z,
  load_each-all seed (load_or_generate memory_chunks seed s p.x p.y p.z).0 ps,
)

region_all :
    (seed : ℕ) (s : MemoryStore) (x0 y0 z0 x1 y1 z1 : ℤ)
    → All IsPersisted (load_or_generate_region memory_chunks seed s x0 y0 z0 x1 y1 z1).1
unfolding load_or_generate_region
region_all seed s x0 y0 z0 x1 y1 z1 =
    load_each-all seed s (box_positions (ints z0 z1) (ints y0 y1) (ints x0 x1))

-- On an in-memory store, the belt's second pass over a box loads every chunk from the store, each
-- equal to the one of the first pass, and leaves the store as it is.
pub second_pass :
    (seed : ℕ) (s : MemoryStore) (x0 y0 z0 x1 y1 z1 : ℤ)
    → Inv s
    → load_or_generate_region memory_chunks seed
        (load_or_generate_region memory_chunks seed s x0 y0 z0 x1 y1 z1).0
        x0
        y0
        z0
        x1
        y1
        z1
      ≡ (
        (load_or_generate_region memory_chunks seed s x0 y0 z0 x1 y1 z1).0,
        map reloaded (load_or_generate_region memory_chunks seed s x0 y0 z0 x1 y1 z1).1,
      )
second_pass seed s x0 y0 z0 x1 y1 z1 v =
    load_or_generate_region_again memory_chunks seed Inv memory_chunks-StoreLaws s x0 y0 z0 x1 y1 z1
      v (region_all seed s x0 y0 z0 x1 y1 z1)
