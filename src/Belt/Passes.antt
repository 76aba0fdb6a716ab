-- ===== src/Belt/Passes.antt =====
-- A second pass of the belt over the same box.
use voxel.Base.{
  ℕ, ◌≡◌, refl, inl, inr, true, false, none, some, List, [], ◌∷◌, map, if◌then◌else◌, Bool-cases,
  Option-cases, All, ◌>>=◌,
}
use voxel.Base.Assoc.{text_eq, text_eq-Decides}
use voxel.Base.Int.{ℤ}
use voxel.Belt.{
  ChunkStore, BeltChunk, BoxPos, generated_blob, value_of, generate_and_put, load_or_generate,
  load_each, load_or_generate_region, box_positions, ints,
}
use voxel.Belt.Contents.{unpack-generated_blob, generated_chunk}
use voxel.Blob.{UnpackedChunk, unpack_voxel_blob}
use voxel.ChunkKey.{chunk_store_key}
use voxel.Store.{Bytes}

-- What the belt relies on: a put that is accepted sets one key and no other, and a put that is
-- refused sets none.
pub record StoreLaws {S : Type 0} (store : ChunkStore S) (Valid : S → Type 0) : Type 0 where
  pub put_valid : (s : S) (k v : Bytes) → Valid s → Valid (store.put s k v).0
  pub get_accepted :
      (s : S) (k v j : Bytes)
      → Valid s
      → (store.put s k v).1 ≡ true
      → store.get (store.put s k v).0 j ≡ (if text_eq k j then some v else store.get s j)
  pub get_refused :
      (s : S) (k v j : Bytes)
      → Valid s
      → (store.put s k v).1 ≡ false
      → store.get (store.put s k v).0 j ≡ store.get s j

abbrev pub IsPersisted : BeltChunk → Type 0
IsPersisted b = b.persisted ≡ true

-- The chunk as a pass finds it that loads it.
abbrev pub reloaded : BeltChunk → BeltChunk
reloaded b = record {
  x = b.x;
  y = b.y;
  z = b.z;
  chunk = b.chunk;
  from_store = true;
  persisted = true;
}

module _ {S : Type 0} (store : ChunkStore S) (seed : ℕ) (Valid : S → Type 0)
    (laws : StoreLaws store Valid) where
  -- The key of the position has a valid blob, of that chunk.
  abbrev Holds : S → ℤ → ℤ → ℤ → UnpackedChunk → Type 0
  Holds s x y z chunk = (store.get s (chunk_store_key x y z) >>= unpack_voxel_blob) ≡ some chunk

  pub load_hit :
      (s : S) (x y z : ℤ) (c : UnpackedChunk)
      → Holds s x y z c
      → load_or_generate store seed s x y z
        ≡ (s, record { x = x; y = y; z = z; chunk = c; from_store = true; persisted = true })
  unfolding load_or_generate
  load_hit s x y z c h = rw (load_or_generate, h) refl

  pub load_miss :
      (s : S) (x y z : ℤ)
      → (store.get s (chunk_store_key x y z) >>= unpack_voxel_blob) ≡ none
      → load_or_generate store seed s x y z ≡ generate_and_put store seed s x y z
  unfolding load_or_generate
  load_miss s x y z h = rw (load_or_generate, h) refl

  -- What one load leaves: the state is valid, the valid blobs that were there are kept, and a chunk
  -- that is persisted is there.
  record Loaded (s : S) (x y z : ℤ) (r : S × BeltChunk) : Type 0 where
    valid : Valid r.0
    kept : (a b c : ℤ) (chunk : UnpackedChunk) → Holds s a b c chunk → Holds r.0 a b c chunk
    there : IsPersisted r.1 → Holds r.0 r.1.x r.1.y r.1.z r.1.chunk
    same : (r.1.x ≡ x) × (r.1.y ≡ y) × (r.1.z ≡ z)

  generate_and_put-Loaded :
      (s : S) (x y z : ℤ)
      → Valid s
      → (store.get s (chunk_store_key x y z) >>= unpack_voxel_blob) ≡ none
      → Loaded s x y z (generate_and_put store seed s x y z)
  unfolding generate_and_put value_of
  generate_and_put-Loaded s x y z v miss =
      let key = chunk_store_key x y z in
      let blob = generated_blob seed x y z in
      let unpacks = unpack-generated_blob seed x y z in
      record {
        valid = laws.put_valid s key blob v;
        kept = λ a b c chunk h. elim (Bool-cases (store.put s key blob).1) [
          | inl ok ↦
              rw (laws.get_accepted s key blob (chunk_store_key a b c) v ok)
                (elim (Bool-cases (text_eq key (chunk_store_key a b c))) [
                  | inl e ↦
                      let same = (text_eq-Decides key (chunk_store_key a b c)).0 e in
                      let found : (store.get s key >>= unpack_voxel_blob) ≡ some chunk =
                        rw same h in
                      absurd cc
                  | inr e ↦ rw e h
                ])
          | inr refused ↦ rw (laws.get_refused s key blob (chunk_store_key a b c) v refused) h
        ];
        there = λ ok.
            rw (laws.get_accepted s key blob key v ok, (text_eq-Decides key key).1 refl, unpacks)
              refl;
        same = (refl, refl, refl);
      }

  load_or_generate-Loaded :
      (s : S) (x y z : ℤ) → Valid s → Loaded s x y z (load_or_generate store seed s x y z)
  load_or_generate-Loaded s x y z v =
      elim (Option-cases (store.get s (chunk_store_key x y z) >>= unpack_voxel_blob)) [
        | inl miss ↦ rw (load_miss s x y z miss) (generate_and_put-Loaded s x y z v miss)
        | inr (c, hit) ↦ rw (load_hit s x y z c hit) (record {
          valid = v;
          kept = λ a b c chunk h. h;
          there = λ _. hit;
          same = (refl, refl, refl);
        })
      ]

  abbrev AllHeld : S → List BeltChunk → Type 0
  AllHeld s = All (λ b. Holds s b.x b.y b.z b.chunk)

  load_each-Kept :
      (s : S) (ps : List BoxPos)
      → Valid s
      → Valid (load_each store seed s ps).0
        × ((a b c : ℤ) (chunk : UnpackedChunk)
            → Holds s a b c chunk
            → Holds (load_each store seed s ps).0 a b c chunk)
  unfolding load_each
  load_each-Kept s [] v = (v, λ a b c chunk h. h)
  load_each-Kept s (p ∷ ps) v =
      let one = load_or_generate-Loaded s p.x p.y p.z v in
      let (v', kept') = load_each-Kept (load_or_generate store seed s p.x p.y p.z).0 ps one.valid in
      (v', λ a b c chunk h. kept' a b c chunk (one.kept a b c chunk h))

  load_each-AllHeld :
      (s : S) (ps : List BoxPos)
      → Valid s
      → All IsPersisted (load_each store seed s ps).1
      → AllHeld (load_each store seed s ps).0 (load_each store seed s ps).1
  unfolding load_each
  load_each-AllHeld s [] v ok = tt
  load_each-AllHeld s (p ∷ ps) v ok =
      let one = load_or_generate-Loaded s p.x p.y p.z v in
      let s' = (load_or_generate store seed s p.x p.y p.z).0 in
      let (v', kept') = load_each-Kept s' ps one.valid in
      (kept' _ _ _ _ (one.there ok.0), load_each-AllHeld s' ps one.valid ok.1)

  hit_again :
      (t : S) (b : BeltChunk) (x y z : ℤ)
      → (b.x ≡ x) × (b.y ≡ y) × (b.z ≡ z)
      → Holds t b.x b.y b.z b.chunk
      → load_or_generate store seed t x y z ≡ (t, reloaded b)
  hit_again t b x y z (ex, ey, ez) h = rw (← ex, ← ey, ← ez) (load_hit t b.x b.y b.z b.chunk h)

  -- Loading again, from any state that holds what the first pass gave.
  load_each_again :
      (s t : S) (ps : List BoxPos)
      → Valid s
      → AllHeld t (load_each store seed s ps).1
      → load_each store seed t ps ≡ (t, map reloaded (load_each store seed s ps).1)
  unfolding load_each
  load_each_again s t [] v held = refl
  load_each_again s t (p ∷ ps) v held =
      let one = load_or_generate-Loaded s p.x p.y p.z v in
      let (s', b) = load_or_generate store seed s p.x p.y p.z in
      rw (hit_again t b p.x p.y p.z one.same held.0, load_each_again s' t ps one.valid held.1) refl

  -- When every chunk of the first pass is persisted, a second pass over the box finds every chunk in
  -- the store, equal to the first pass's, and changes nothing.
  pub load_or_generate_region_again :
      (s : S) (x0 y0 z0 x1 y1 z1 : ℤ)
      → Valid s
      → All IsPersisted (load_or_generate_region store seed s x0 y0 z0 x1 y1 z1).1
      → load_or_generate_region store seed
          (load_or_generate_region store seed s x0 y0 z0 x1 y1 z1).0
          x0
          y0
          z0
          x1
          y1
          z1
        ≡ (
          (load_or_generate_region store seed s x0 y0 z0 x1 y1 z1).0,
          map reloaded (load_or_generate_region store seed s x0 y0 z0 x1 y1 z1).1,
        )
  unfolding load_or_generate_region
  load_or_generate_region_again s x0 y0 z0 x1 y1 z1 v ok =
      let ps = box_positions (ints z0 z1) (ints y0 y1) (ints x0 x1) in
      load_each_again s _ ps v (load_each-AllHeld s ps v ok)

  -- A chunk that is not found comes back as the generated one, whether the put is accepted or not.
  pub load_or_generate_miss :
      (s : S) (x y z : ℤ)
      → (store.get s (chunk_store_key x y z) >>= unpack_voxel_blob) ≡ none
      → (load_or_generate store seed s x y z).1 ≡ record {
        x = x;
        y = y;
        z = z;
        chunk = generated_chunk seed x y z;
        from_store = false;
        persisted = (store.put s (chunk_store_key x y z) (generated_blob seed x y z)).1;
      }
  unfolding generate_and_put value_of
  load_or_generate_miss s x y z miss =
      rw (load_miss s x y z miss, unpack-generated_blob seed x y z) refl
