-- ===== src/Stream/Distinct.antt =====
-- The keys that the streamer wants are distinct and in its window, and as many residents that have them
-- all are no others.
use voxel.Base.{
  ℕ, zero, suc, ◌-◌, ◌^◌, ◌<◌, ◌≡◌, refl, sym, ◌∙◌, Bool, true, false, ◌&&◌, ◌||◌, List, [], ◌∷◌,
  ◌++◌, arith, ltb, ◌==◌, if◌then◌else◌, All, All-append,
}
use voxel.Base.Int32.{IsInt, int_add, int_sub, int_lt, int_le, int_rounds}
use voxel.Stream.{
  ChunkKey, StreamConfig, chebyshev, in_window, desired_row, desired_rows, desired_slices, desired,
}
use voxel.Stream.Window.{
  is_listed, is_listed-append, row_lem, rows_lem, slices_lem, InDomain, IsSane,
}

abbrev pub IsKey : ChunkKey → Type 0
IsKey k = IsInt k.cx × IsInt k.cy × IsInt k.cz

abbrev pub Distinct : List ChunkKey → Type 0
Distinct [] = Unit
Distinct (k ∷ keys) = (is_listed k keys ≡ false) × Distinct keys

Distinct-append :
    (xs ys : List ChunkKey)
    → Distinct xs
    → Distinct ys
    → All (λ k. is_listed k ys ≡ false) xs
    → Distinct (xs ++ ys)
Distinct-append [] ys dx dy apart = dy
Distinct-append (x ∷ xs) ys (new, dx) dy (far, apart) =
    (rw (is_listed-append x xs ys, new, far) refl, Distinct-append xs ys dx dy apart)

-- A counter does not come back to its start.
no_return : (a n : ℕ) → IsInt a → n < 2 ^ 32 - 1 → ltb (int_sub a (int_add a 1)) n ≡ false
no_return a n ha hn = ground arith

and_false : (p q : Bool) → q ≡ false → (p && q) ≡ false
and_false true q e = e
and_false false q e = refl

module _ (cfg : StreamConfig) (cx cz : ℕ) where
  All_row :
      (P : ChunkKey → Type 0) (z y a n : ℕ)
      → ((x : ℕ) → IsInt x → P (record { cx = x; cy = y; cz = z }))
      → IsInt a
      → All P (desired_row cfg cx cz z y a n)
  unfolding desired_row
  All_row P z y a zero each ha = tt
  All_row P z y a (suc n) each ha = (each a ha, All_row P z y (int_add a 1) n each (omega arith))

  row-Distinct :
      (z y a n : ℕ)
      → IsInt z
      → IsInt y
      → IsInt a
      → n < 2 ^ 32
      → Distinct (desired_row cfg cx cz z y a n)
  unfolding desired_row
  row-Distinct z y a zero hz hy ha hn = tt
  row-Distinct z y a (suc n) hz hy ha hn = (
    row_lem cfg cx cz (record { cx = a; cy = y; cz = z }) ha hy hz z y (int_add a 1) n (omega arith)
          (omega arith)
        ∙ and_false (z == z) _ (and_false (y == y) _ (no_return a n ha (omega arith))),
    row-Distinct z y (int_add a 1) n hz hy (omega arith) (omega arith),
  )

  All_rows :
      (P : ChunkKey → Type 0) (z y n : ℕ)
      → ((x v : ℕ) → IsInt x → IsInt v → P (record { cx = x; cy = v; cz = z }))
      → IsInt y
      → All P (desired_rows cfg cx cz z y n)
  unfolding desired_rows
  All_rows P z y zero each hy = tt
  All_rows P z y (suc n) each hy =
      All-append P _ _
        (All_row P z y (int_sub cx cfg.radius) _ (λ x hx. each x y hx hy) (omega arith))
        (All_rows P z (int_add y 1) n each (omega arith))

  rows-Distinct :
      (z y n : ℕ)
      → int_rounds (int_sub cx cfg.radius) (int_add cx cfg.radius) < 2 ^ 32
      → IsInt z
      → IsInt y
      → n < 2 ^ 32
      → Distinct (desired_rows cfg cx cz z y n)
  unfolding desired_rows
  rows-Distinct z y zero wide hz hy hn = tt
  rows-Distinct z y (suc n) wide hz hy hn =
      Distinct-append _ _ (row-Distinct z y (int_sub cx cfg.radius) _ hz hy (omega arith) wide)
        (rows-Distinct z (int_add y 1) n wide hz (omega arith) (omega arith))
        (All_row _ z y (int_sub cx cfg.radius) _
          (λ x hx.
            rows_lem cfg cx cz (record { cx = x; cy = y; cz = z }) hx hy hz z (int_add y 1) n
              (int_rounds (int_sub cx cfg.radius) (int_add cx cfg.radius)) (omega arith)
              (omega arith) wide refl
            ∙ and_false (z == z) _ (rw (no_return y n hy (omega arith)) refl))
          (omega arith))

  slices-Distinct :
      (z n : ℕ)
      → int_rounds (int_sub cx cfg.radius) (int_add cx cfg.radius) < 2 ^ 32
      → int_rounds cfg.cy_min cfg.cy_max < 2 ^ 32
      → IsInt z
      → IsInt cfg.cy_min
      → n < 2 ^ 32
      → Distinct (desired_slices cfg cx cz z n)
  unfolding desired_slices
  slices-Distinct z zero wide tall hz hy hn = tt
  slices-Distinct z (suc n) wide tall hz hy hn =
      Distinct-append _ _ (rows-Distinct z cfg.cy_min _ wide hz hy tall)
        (slices-Distinct (int_add z 1) n wide tall (omega arith) hy (omega arith))
        (All_rows _ z cfg.cy_min _
          (λ x v hx hv.
            slices_lem cfg cx cz (record { cx = x; cy = v; cz = z }) hx hv hz (int_add z 1) n
              (int_rounds (int_sub cx cfg.radius) (int_add cx cfg.radius))
              (int_rounds cfg.cy_min cfg.cy_max) (omega arith) hy (omega arith) wide tall refl refl
            ∙ rw (no_return z n hz (omega arith)) refl)
          hy)

  pub desired-Distinct : IsSane cfg cx cz → Distinct (desired cfg cx cz)
  unfolding desired
  desired-Distinct sane =
      let (icx, lcx, ucx) = sane.center_x in
      let (icz, lcz, ucz) = sane.center_z in
      let (imin, lmin, umin) = sane.low in
      let (imax, lmax, umax) = sane.high in
      let small = sane.radius in
      slices-Distinct (int_sub cz cfg.radius) _ (omega arith) (omega arith) (omega arith) imin
        (omega arith)

-- The near side of `around`: a value that the counter meets is at most `r` away.
met :
    (c r v : ℕ)
    → InDomain c
    → IsInt v
    → r < 2 ^ 29
    → ltb (int_sub v (int_sub c r)) (int_rounds (int_sub c r) (int_add c r)) ≡ true
    → (int_le (if int_le c v then int_sub v c else int_sub c v) r ≡ true)
      × ((if int_le c v then int_sub v c else int_sub c v) < 2 ^ 31)
met c r v (hc, lc, uc) hv hr h = (ground arith, ground arith)

met_between :
    (a b v : ℕ)
    → InDomain a
    → InDomain b
    → IsInt v
    → ltb (int_sub v a) (int_rounds a b) ≡ true
    → (int_lt v a || int_lt b v) ≡ false
met_between a b v ha hb hv h = ground arith

and_both : (p q : Bool) → (p && q) ≡ true → (p ≡ true) × (q ≡ true)
and_both true true h = (refl, refl)
and_both true false h = absurd cc
and_both false q h = absurd cc

farthest :
    (p q r : ℕ)
    → p < 2 ^ 31
    → q < 2 ^ 31
    → r < 2 ^ 31
    → int_le p r ≡ true
    → int_le q r ≡ true
    → int_le (if int_lt q p then p else q) r ≡ true
farthest p q r hp hq hr h g = ground arith

-- A wanted key is in the window, however close to overflow it is.
pub listed-in_window :
    (cfg : StreamConfig) (cx cz : ℕ) (k : ChunkKey)
    → IsSane cfg cx cz
    → IsKey k
    → is_listed k (desired cfg cx cz) ≡ true
    → in_window cfg cx cz k ≡ true
unfolding desired in_window chebyshev
listed-in_window cfg cx cz k sane (hx, hy, hz) h =
    let r = cfg.radius in
    let (icx, lcx, ucx) = sane.center_x in
    let (icz, lcz, ucz) = sane.center_z in
    let (imin, lmin, umin) = sane.low in
    let (imax, lmax, umax) = sane.high in
    let small = sane.radius in
    let parts =
      sym (
        slices_lem cfg cx cz k hx hy hz (int_sub cz r) (int_rounds (int_sub cz r) (int_add cz r))
          (int_rounds (int_sub cx r) (int_add cx r)) (int_rounds cfg.cy_min cfg.cy_max)
          (omega arith) imin (omega arith) (omega arith) (omega arith) refl refl)
      ∙ h in
    let (in_z, rest) = and_both _ _ parts in
    let (in_y, in_x) = and_both _ _ rest in
    let (near_z, small_z) = met cz r k.cz sane.center_z hz small in_z in
    let (near_x, small_x) = met cx r k.cx sane.center_x hx small in_x in
    rw (met_between cfg.cy_min cfg.cy_max k.cy sane.low sane.high hy in_y)
      (farthest _ _ r small_x small_z (omega arith) near_x near_z)
