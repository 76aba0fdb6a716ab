-- ===== src/Stream/OnBelt.antt =====
-- The streamer's load on the belt over the in-memory store gives every key the same chunk each time.
use voxel.Base.{
  ℕ, ◌+◌, ◌*◌, ◌^◌, ◌≡◌, refl, sym, ap, ◌∙◌, inl, inr, Bool, Option, none, some, List, arith, ltb,
  ltb→lt, Bool-cases, Option-cases, get_or, ◌>>=◌,
}
use voxel.Base.Assoc.{text_eq, text_eq-Decides}
use voxel.Base.Int.{ℤ, pos, negsuc, IsInt32}
use voxel.Base.Int32.{int_value}
use voxel.Belt.{load_or_generate, generate_and_put, generated_blob}
use voxel.Belt.Contents.{unpack-generated_blob, generated_chunk}
use voxel.Belt.Memory.{memory_chunks, memory_chunks-StoreLaws, put_accepted}
use voxel.Belt.Passes.{load_hit, load_miss, load_or_generate_miss}
use voxel.Blob.{UnpackedChunk, unpack_voxel_blob}
use voxel.ChunkKey.{chunk_store_key, put_axis}
use voxel.ChunkKey.Order.{flipped-eq_biased, biased, biased-lt}
use voxel.Store.{MemoryStore, Bytes, chunks, put, get}
use voxel.Store.Laws.{Inv}
use voxel.Stream.{ChunkKey}
use voxel.Stream.Invariant.{LoadLaws}

int_value-IsInt32 : (a : ℕ) → IsInt32 (int_value a)
unfolding int_value
int_value-IsInt32 a = elim (Bool-cases (ltb a (2 ^ 31))) [
  | inl e ↦ rw e (ltb→lt a (2 ^ 31) e)
  | inr e ↦ rw e (ground arith)
]

biased_inj : (v w : ℤ) → IsInt32 v → IsInt32 w → biased v ≡ biased w → v ≡ w
unfolding biased
biased_inj (pos m) (pos n) h g e = ap pos (omega arith)
biased_inj (pos m) (negsuc n) h g e = absurd (omega arith)
biased_inj (negsuc m) (pos n) h g e = absurd (omega arith)
biased_inj (negsuc m) (negsuc n) h g e = ap negsuc (omega arith)

-- The four bytes of a coordinate at a place of the key.
axis_at : List ℕ → ℕ → ℕ
axis_at key i =
    get_or key i 0 * 2 ^ 24
    + get_or key (i + 1) 0 * 2 ^ 16
    + get_or key (i + 2) 0 * 2 ^ 8
    + get_or key (i + 3) 0

axes :
    (x y z : ℤ)
    → IsInt32 x
    → IsInt32 y
    → IsInt32 z
    → (axis_at (chunk_store_key x y z) 0 ≡ biased x)
      × (axis_at (chunk_store_key x y z) 4 ≡ biased y)
      × (axis_at (chunk_store_key x y z) 8 ≡ biased z)
unfolding axis_at chunk_store_key put_axis
axes x y z hx hy hz =
    let bx = biased-lt x hx in
    let by = biased-lt y hy in
    let bz = biased-lt z hz in
    rw (flipped-eq_biased x hx, flipped-eq_biased y hy, flipped-eq_biased z hz)
      (omega arith, omega arith, omega arith)

chunk_store_key_inj :
    (x y z a b c : ℤ)
    → IsInt32 x
    → IsInt32 y
    → IsInt32 z
    → IsInt32 a
    → IsInt32 b
    → IsInt32 c
    → chunk_store_key x y z ≡ chunk_store_key a b c
    → (x ≡ a) × (y ≡ b) × (z ≡ c)
chunk_store_key_inj x y z a b c hx hy hz ha hb hc e =
    let (px, py, pz) = axes x y z hx hy hz in
    let (qx, qy, qz) = axes a b c ha hb hc in
    (
      biased_inj x a hx ha (sym px ∙ ap (λ k. axis_at k 0) e ∙ qx),
      biased_inj y b hy hb (sym py ∙ ap (λ k. axis_at k 4) e ∙ qy),
      biased_inj z c hz hc (sym pz ∙ ap (λ k. axis_at k 8) e ∙ qz),
    )

-- The chunk that a load finds, or else `generated`.
unfoldable pub content_of : Option Bytes → UnpackedChunk → UnpackedChunk
content_of o generated = elim (o >>= unpack_voxel_blob) [ none ↦ generated | some chunk ↦ chunk ]

content_of-some :
    (o : Option Bytes) (d c : UnpackedChunk)
    → (o >>= unpack_voxel_blob) ≡ some c
    → content_of o d ≡ c
unfolding content_of
content_of-some o d c e = rw (content_of, e) refl

content_of-none :
    (o : Option Bytes) (d : UnpackedChunk) → (o >>= unpack_voxel_blob) ≡ none → content_of o d ≡ d
unfolding content_of
content_of-none o d e = rw (content_of, e) refl

module _ (seed : ℕ) where
  -- `loadOrGenerateRegion(m_store, m_seed, k.cx, k.cy, k.cz, k.cx, k.cy, k.cz)` and its only chunk.
  unfoldable pub belt_load : MemoryStore → ChunkKey → MemoryStore × (UnpackedChunk × Bool)
  belt_load s k =
      let (s', chunk) =
        load_or_generate memory_chunks seed s (int_value k.cx) (int_value k.cy) (int_value k.cz) in
      (s', (chunk.chunk, chunk.from_store))

  -- The chunk of a key: the store's, when it holds a valid blob, or else the generated one.
  unfoldable pub content_at : MemoryStore → ℤ → ℤ → ℤ → UnpackedChunk
  content_at s x y z =
      content_of (get s chunks (chunk_store_key x y z)) (generated_chunk seed x y z)

  content_hit :
      (s : MemoryStore) (x y z : ℤ) (c : UnpackedChunk)
      → (get s chunks (chunk_store_key x y z) >>= unpack_voxel_blob) ≡ some c
      → content_at s x y z ≡ c
  unfolding content_at
  content_hit s x y z c e =
      content_of-some (get s chunks (chunk_store_key x y z)) (generated_chunk seed x y z) c e

  content_miss :
      (s : MemoryStore) (x y z : ℤ)
      → (get s chunks (chunk_store_key x y z) >>= unpack_voxel_blob) ≡ none
      → content_at s x y z ≡ generated_chunk seed x y z
  unfolding content_at
  content_miss s x y z e =
      content_of-none (get s chunks (chunk_store_key x y z)) (generated_chunk seed x y z) e

  -- A load gives the content, and keeps that of every position.
  load-content :
      (s : MemoryStore) (x y z : ℤ)
      → (load_or_generate memory_chunks seed s x y z).1.chunk ≡ content_at s x y z
  load-content s x y z =
      elim (Option-cases (get s chunks (chunk_store_key x y z) >>= unpack_voxel_blob)) [
        | inl miss ↦
            rw (load_or_generate_miss memory_chunks seed Inv memory_chunks-StoreLaws s x y z miss)
              (sym (content_miss s x y z miss))
        | inr (c, hit) ↦
            rw (load_hit memory_chunks seed Inv memory_chunks-StoreLaws s x y z c hit)
              (sym (content_hit s x y z c hit))
      ]

  put-content :
      (s : MemoryStore) (x y z a b c : ℤ)
      → Inv s
      → IsInt32 x
      → IsInt32 y
      → IsInt32 z
      → IsInt32 a
      → IsInt32 b
      → IsInt32 c
      → (get s chunks (chunk_store_key x y z) >>= unpack_voxel_blob) ≡ none
      → content_at (put s chunks (chunk_store_key x y z) (generated_blob seed x y z)).0 a b c
        ≡ content_at s a b c
  unfolding content_at
  put-content s x y z a b c v hx hy hz ha hb hc miss =
      let key = chunk_store_key x y z in
      let blob = generated_blob seed x y z in
      let accepted = put_accepted s x y z blob in
      let after =
        memory_chunks-StoreLaws.get_accepted s key blob (chunk_store_key a b c) v accepted in
      ap (λ o. content_of o (generated_chunk seed a b c)) after
      ∙ elim (Bool-cases (text_eq key (chunk_store_key a b c))) [
        | inl e ↦
            let (ex, ey, ez) =
              chunk_store_key_inj x y z a b c hx hy hz ha hb hc
                ((text_eq-Decides key (chunk_store_key a b c)).0 e) in
            rw e (
              rw (← ex, ← ey, ← ez)
                (content_of-some (some blob) (generated_chunk seed x y z)
                    (generated_chunk seed x y z) (unpack-generated_blob seed x y z)
                  ∙ sym (content_miss s x y z miss)))
        | inr e ↦ rw e refl
      ]

  load-keeps_content :
      (s : MemoryStore) (x y z a b c : ℤ)
      → Inv s
      → IsInt32 x
      → IsInt32 y
      → IsInt32 z
      → IsInt32 a
      → IsInt32 b
      → IsInt32 c
      → Inv (load_or_generate memory_chunks seed s x y z).0
        × (content_at (load_or_generate memory_chunks seed s x y z).0 a b c ≡ content_at s a b c)
  unfolding generate_and_put
  load-keeps_content s x y z a b c v hx hy hz ha hb hc =
      elim (Option-cases (get s chunks (chunk_store_key x y z) >>= unpack_voxel_blob)) [
        | inl miss ↦ rw (load_miss memory_chunks seed Inv memory_chunks-StoreLaws s x y z miss) (
          memory_chunks-StoreLaws.put_valid s (chunk_store_key x y z) (generated_blob seed x y z) v,
          put-content s x y z a b c v hx hy hz ha hb hc miss,
        )
        | inr (found, hit) ↦
            rw (load_hit memory_chunks seed Inv memory_chunks-StoreLaws s x y z found hit) (v, refl)
      ]

  -- The content of a key's position in the store that streaming began with.
  abbrev pub world_of : MemoryStore → ChunkKey → UnpackedChunk
  world_of s k = content_at s (int_value k.cx) (int_value k.cy) (int_value k.cz)

  -- The stores that loads lead to from `s0`.
  abbrev pub IsAfter : MemoryStore → MemoryStore → Type 0
  IsAfter s0 s = Inv s × ((k : ChunkKey) → world_of s k ≡ world_of s0 k)

  -- Loads of the belt over the in-memory store give every key one chunk, the stored one or else the
  -- generated one, in whatever order the keys are loaded.
  pub belt_load-LoadLaws : (s0 : MemoryStore) → LoadLaws belt_load (IsAfter s0) (world_of s0)
  unfolding belt_load
  belt_load-LoadLaws s0 = record {
    load_valid = λ s k (v, same). (
      (load-keeps_content s (int_value k.cx) (int_value k.cy) (int_value k.cz) (int_value k.cx)
          (int_value k.cy) (int_value k.cz) v (int_value-IsInt32 k.cx) (int_value-IsInt32 k.cy)
          (int_value-IsInt32 k.cz) (int_value-IsInt32 k.cx) (int_value-IsInt32 k.cy)
          (int_value-IsInt32 k.cz)).0,
      λ j.
          (load-keeps_content s (int_value k.cx) (int_value k.cy) (int_value k.cz) (int_value j.cx)
            (int_value j.cy) (int_value j.cz) v (int_value-IsInt32 k.cx) (int_value-IsInt32 k.cy)
            (int_value-IsInt32 k.cz) (int_value-IsInt32 j.cx) (int_value-IsInt32 j.cy)
            (int_value-IsInt32 j.cz)).1
          ∙ same j,
    );
    load_world =
        λ s k (v, same). load-content s (int_value k.cx) (int_value k.cy) (int_value k.cz) ∙ same k;
  }
