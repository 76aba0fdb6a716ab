-- ===== src/Gen/Chunk/Acts.antt =====
-- Loops over a chunk whose rounds each change cells of their own.
use voxel.Base.{
  ℕ, suc, ◌<◌, ◌≡◌, refl, ◌∙◌, ◌≢◌, inl, inr, Bool, true, false, ◌&&◌, ◌||◌, arith, ◌==◌,
  if◌then◌else◌, Bool-cases, length, get_or-set_self, get_or-set_ne,
}
use voxel.Base.Loops.{for_below, for_below_inv}
use voxel.Gen.Chunk.{GenChunk, gen_edge, gen_index, chunk_at, chunk_set, air}

abbrev pub IsChunk : GenChunk → Type 0
IsChunk c = length c ≡ 4096

-- The body gives each cell of the test the value that `f` makes of the old one, and leaves the rest.
abbrev pub Acts : (ℕ → ℕ → ℕ → Bool) → (ℕ → ℕ → ℕ → ℕ → ℕ) → (GenChunk → GenChunk) → Type 0
Acts test f body =
    (c : GenChunk)
    → IsChunk c
    → IsChunk (body c)
      × ((x y z : ℕ)
          → x < gen_edge
          → y < gen_edge
          → z < gen_edge
          → chunk_at (body c) x y z
            ≡ (if test x y z then f x y z (chunk_at c x y z) else chunk_at c x y z))

abbrev pub is_cell : ℕ → ℕ → ℕ → ℕ → ℕ → ℕ → Bool
is_cell a b c x y z = a == x && (b == y && c == z)

pub chunk_at-chunk_set :
    (chunk : GenChunk) (a b c v x y z : ℕ)
    → IsChunk chunk
    → a < gen_edge
    → b < gen_edge
    → c < gen_edge
    → x < gen_edge
    → y < gen_edge
    → z < gen_edge
    → chunk_at (chunk_set chunk a b c v) x y z
      ≡ (if is_cell a b c x y z then v else chunk_at chunk x y z)
chunk_at-chunk_set chunk a b c v x y z whole ha hb hc hx hy hz =
    elim (Bool-cases (is_cell a b c x y z)) [
      | inl e ↦
          let same : gen_index a b c ≡ gen_index x y z = ground arith in
          rw (e, same) (get_or-set_self chunk (gen_index x y z) v air (omega arith))
      | inr e ↦
          let other : gen_index a b c ≢ gen_index x y z = λ same. ground arith in
          rw e (get_or-set_ne chunk (gen_index a b c) (gen_index x y z) v air other)
    ]

module _ (f : ℕ → ℕ → ℕ → ℕ → ℕ) where
  then_also :
      (p q : Bool) (x y z v : ℕ)
      → (p ≡ true → q ≡ false)
      → (if q then f x y z (if p then f x y z v else v) else (if p then f x y z v else v))
        ≡ (if p || q then f x y z v else v)
  then_also true q x y z v h = rw (h refl) refl
  then_also false q x y z v h = refl

  -- Rounds with tests that exclude each other act together, on what some test has.
  pub Acts-for_below :
      (so_far test : ℕ → ℕ → ℕ → ℕ → Bool) (body : ℕ → GenChunk → GenChunk) (n : ℕ)
      → ((x y z : ℕ) → so_far 0 x y z ≡ false)
      → ((i x y z : ℕ)
          → i < n
          → x < gen_edge
          → y < gen_edge
          → z < gen_edge
          → so_far (suc i) x y z ≡ (so_far i x y z || test i x y z))
      → ((i x y z : ℕ) → so_far i x y z ≡ true → test i x y z ≡ false)
      → ((i : ℕ) → i < n → Acts (test i) f (body i))
      → Acts (so_far n) f (for_below n body)
  Acts-for_below so_far test body n nothing more apart acts c whole =
      for_below_inv
        (λ k now.
          IsChunk now
          × ((x y z : ℕ)
              → x < gen_edge
              → y < gen_edge
              → z < gen_edge
              → chunk_at now x y z
                ≡ (if so_far k x y z then f x y z (chunk_at c x y z) else chunk_at c x y z)))
        body n
        (λ i now hi (whole', h).
          let (whole'', h') = acts i hi now whole' in
          (
            whole'',
            λ x y z hx hy hz.
                h' x y z hx hy hz
                ∙ rw (h x y z hx hy hz, more i x y z hi hx hy hz)
                    (then_also (so_far i x y z) (test i x y z) x y z (chunk_at c x y z)
                      (apart i x y z)),
          ))
        c (whole, λ x y z hx hy hz. rw (nothing x y z) refl)
