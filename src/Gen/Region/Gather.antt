-- ===== src/Gen/Region/Gather.antt =====
-- The gathered region is made of the chunks that are generated alone.
use voxel.Base.{
  ℕ, ◌<◌, ◌≡◌, refl, ◌∙◌, ◌≢◌, inl, inr, Bool, true, false, ◌||◌, [], arith, if◌then◌else◌,
  Bool-cases, length, length-set, get_or-set_self, get_or-set_ne,
}
use voxel.Base.Nest.{
  is_at, is_at_parts, before, before_next, before_row, before_slice, before_all, before_none,
  nest_inv,
}
use voxel.Gen.Chunk.{GenChunk, blank_chunk, generate_chunk}
use voxel.Gen.Chunk.Acts.{IsChunk}
use voxel.Gen.Chunk.Pure.{generate_chunk_pure, blank_chunk-IsChunk, generate_chunk-IsChunk}
use voxel.Gen.Region.{
  GenRegion, region_index, region_at, region_update, generate_at, generate_region_gather, region_cx,
  region_cy, region_cz,
}

-- The chunk that the seed gives at a position.
abbrev pub alone : ℕ → ℕ → ℕ → ℕ → GenChunk
alone seed cx cy cz = generate_chunk seed (record { cx = cx; cy = cy; cz = cz }) blank_chunk

abbrev pub IsRegion : GenRegion → Type 0
IsRegion region =
    (length region ≡ 256)
    × ((x y z : ℕ)
        → x < region_cx
        → y < region_cy
        → z < region_cz
        → IsChunk (region_at region x y z))

-- The region is whole, and the chunks of the test are generated.
abbrev Generated : ℕ → (ℕ → ℕ → ℕ → Bool) → GenRegion → Type 0
Generated seed done region =
    IsRegion region
    × ((x y z : ℕ)
        → x < region_cx
        → y < region_cy
        → z < region_cz
        → done x y z ≡ true
        → region_at region x y z ≡ alone seed x y z)

region_at-update :
    (region : GenRegion) (f : GenChunk → GenChunk) (a b c x y z : ℕ)
    → length region ≡ 256
    → a < region_cx
    → b < region_cy
    → c < region_cz
    → x < region_cx
    → y < region_cy
    → z < region_cz
    → region_at (region_update region a b c f) x y z
      ≡ (if is_at a b c x y z then f (region_at region a b c) else region_at region x y z)
unfolding region_at region_update is_at
region_at-update region f a b c x y z whole ha hb hc hx hy hz =
    elim (Bool-cases (is_at a b c x y z)) [
      | inl e ↦
          let same : region_index a b c ≡ region_index x y z = ground arith in
          rw (e, same) (get_or-set_self region (region_index x y z) _ [] (omega arith))
      | inr e ↦
          let other : region_index a b c ≢ region_index x y z = λ same. ground arith in
          rw e (get_or-set_ne region (region_index a b c) (region_index x y z) _ [] other)
    ]

length-region_update :
    (region : GenRegion) (a b c : ℕ) (f : GenChunk → GenChunk)
    → length (region_update region a b c f) ≡ length region
unfolding region_update
length-region_update region a b c f =
    length-set region (region_index a b c) (f (region_at region a b c))

generate_at-Generated :
    (seed a b c : ℕ) (done : ℕ → ℕ → ℕ → Bool) (region : GenRegion)
    → a < region_cx
    → b < region_cy
    → c < region_cz
    → Generated seed done region
    → Generated seed (λ x y z. is_at a b c x y z || done x y z) (generate_at seed a b c region)
unfolding generate_at
generate_at-Generated seed a b c done region ha hb hc ((size, whole), h) =
    let f = generate_chunk seed (record { cx = a; cy = b; cz = c }) in
    let made : f (region_at region a b c) ≡ alone seed a b c =
      generate_chunk_pure seed _ (region_at region a b c) blank_chunk (whole a b c ha hb hc)
        blank_chunk-IsChunk in
    (
      (
        length-region_update region a b c f ∙ size,
        λ x y z hx hy hz.
            rw (region_at-update region f a b c x y z size ha hb hc hx hy hz)
              (either (is_at a b c x y z) x y z hx hy hz),
      ),
      λ x y z hx hy hz e.
          region_at-update region f a b c x y z size ha hb hc hx hy hz
          ∙ elim (Bool-cases (is_at a b c x y z)) [
            | inl at ↦ rw at (made ∙ moved x y z at)
            | inr off ↦ rw off (h x y z hx hy hz (rw off at e))
          ],
    )
  where
    either :
        (p : Bool) (x y z : ℕ)
        → x < region_cx
        → y < region_cy
        → z < region_cz
        → IsChunk (
            if p
            then generate_chunk seed (record { cx = a; cy = b; cz = c }) (region_at region a b c)
            else region_at region x y z)
    either true x y z hx hy hz =
        generate_chunk-IsChunk seed _ (region_at region a b c) (whole a b c ha hb hc)
    either false x y z hx hy hz = whole x y z hx hy hz

    moved : (x y z : ℕ) → is_at a b c x y z ≡ true → alone seed a b c ≡ alone seed x y z
    moved x y z e = let (ex, ey, ez) = is_at_parts a b c x y z e in rw (ex, ey, ez) refl

generate_region_gather-Generated :
    (seed : ℕ) (out : GenRegion)
    → IsRegion out
    → Generated seed (before 0 0 region_cz) (generate_region_gather seed out)
unfolding generate_region_gather
generate_region_gather-Generated seed out whole =
    nest_inv (λ a b c. Generated seed (before a b c)) (λ c b a. generate_at seed a b c) region_cx
      region_cy region_cz
      (λ a b c t ha hb hc g.
        let (w, h) = generate_at-Generated seed a b c (before a b c) t ha hb hc g in
        (w, λ x y z hx hy hz e. h x y z hx hy hz (before_next a b c x y z ∙ e)))
      (λ b c t (w, h).
        (w, λ x y z hx hy hz e. h x y z hx hy hz (before_row region_cx b c x y z hx ∙ e)))
      (λ c t (w, h).
        (w, λ x y z hx hy hz e. h x y z hx hy hz (before_slice region_cy c x y z hy ∙ e)))
      out (whole, λ x y z hx hy hz e. let no = before_none x y z in absurd (ground arith))

-- Every chunk of a gathered region is the chunk that the seed gives alone at its position, whatever
-- the region held before.
pub region_at-generate_region_gather :
    (seed : ℕ) (out : GenRegion) (x y z : ℕ)
    → IsRegion out
    → x < region_cx
    → y < region_cy
    → z < region_cz
    → region_at (generate_region_gather seed out) x y z ≡ alone seed x y z
region_at-generate_region_gather seed out x y z whole hx hy hz =
    (generate_region_gather-Generated seed out whole).1 x y z hx hy hz
      (before_all region_cz x y z hz)
