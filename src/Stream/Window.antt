-- ===== src/Stream/Window.antt =====
-- The keys that the streamer wants are those of its window.
use voxel.Base.{
  ℕ, zero, suc, ◌-◌, ◌*◌, ◌^◌, ◌≤◌, ◌<◌, ◌≡◌, refl, ◌∙◌, Bool, true, false, not, ◌&&◌, ◌||◌, List,
  [], ◌∷◌, ◌++◌, arith, ltb, ◌==◌, if◌then◌else◌,
}
use voxel.Base.Int32.{IsInt, int_add, int_sub, int_lt, int_le, int_rank, int_rounds}
use voxel.Stream.{
  ChunkKey, key_eq, StreamConfig, chebyshev, in_window, desired_row, desired_rows, desired_slices,
  desired,
}

unfoldable pub is_listed : ChunkKey → List ChunkKey → Bool
is_listed k [] = false
is_listed k (n ∷ keys) = key_eq n k || is_listed k keys

pub is_listed-append :
    (k : ChunkKey) (xs ys : List ChunkKey)
    → is_listed k (xs ++ ys) ≡ (is_listed k xs || is_listed k ys)
unfolding is_listed
is_listed-append k [] ys = refl
is_listed-append k (x ∷ xs) ys =
    rw (is_listed-append k xs ys) (or_assoc (key_eq x k) (is_listed k xs) (is_listed k ys))
  where
    or_assoc : (p q r : Bool) → (p || (q || r)) ≡ ((p || q) || r)
    or_assoc true q r = refl
    or_assoc false q r = refl

-- A coordinate far from overflow.
abbrev pub InDomain : ℕ → Type 0
InDomain v = IsInt v × (2 ^ 30 ≤ int_rank v) × (int_rank v < 3 * 2 ^ 30)

-- One more value of a counter that runs from `a`.
counts :
    (a n v : ℕ)
    → IsInt a
    → IsInt v
    → n < 2 ^ 32 - 1
    → (a == v || ltb (int_sub v (int_add a 1)) n) ≡ ltb (int_sub v a) (suc n)
counts a n v ha hv hn = ground arith

no_count : (a v : ℕ) → ltb (int_sub v a) 0 ≡ false
no_count a v = ground arith

module _ (cfg : StreamConfig) (cx cz : ℕ) (k : ChunkKey) (hx : IsInt k.cx) (hy : IsInt k.cy)
    (hz : IsInt k.cz) where
  pub row_lem :
      (z y a n : ℕ)
      → IsInt a
      → n < 2 ^ 32
      → is_listed k (desired_row cfg cx cz z y a n)
        ≡ (z == k.cz && (y == k.cy && ltb (int_sub k.cx a) n))
  unfolding is_listed desired_row
  row_lem z y a zero ha hn = ground arith
  row_lem z y a (suc n) ha hn =
      rw
        (
          row_lem z y (int_add a 1) n (omega arith) (omega arith),
          ← counts a n k.cx ha hx (omega arith),
        )
        (join (a == k.cx) (y == k.cy) (z == k.cz) (ltb (int_sub k.cx (int_add a 1)) n))
    where
      join : (p q r s : Bool) → (p && (q && r) || r && (q && s)) ≡ (r && (q && (p || s)))
      join true true true s = refl
      join true true false s = refl
      join true false true s = refl
      join true false false s = refl
      join false q r s = refl

  -- Of the rows along x, all alike, one for each y.
  pub rows_lem :
      (z y n rounds : ℕ)
      → IsInt y
      → n < 2 ^ 32
      → rounds < 2 ^ 32
      → int_rounds (int_sub cx cfg.radius) (int_add cx cfg.radius) ≡ rounds
      → is_listed k (desired_rows cfg cx cz z y n) ≡ (
          z == k.cz
          && (ltb (int_sub k.cy y) n && ltb (int_sub k.cx (int_sub cx cfg.radius)) rounds))
  unfolding is_listed desired_rows
  rows_lem z y zero rounds ha hn hr e = rw (no_count y k.cy) (never (z == k.cz))
    where
      never : (p : Bool) → false ≡ (p && false)
      never true = refl
      never false = refl
  rows_lem z y (suc n) rounds ha hn hr e =
      rw
        (
          e,
          is_listed-append k (desired_row cfg cx cz z y (int_sub cx cfg.radius) rounds)
              (desired_rows cfg cx cz z (int_add y 1) n),
          row_lem z y (int_sub cx cfg.radius) rounds (omega arith) hr,
          rows_lem z (int_add y 1) n rounds (omega arith) (omega arith) hr e,
          ← counts y n k.cy ha hy (omega arith),
        )
        (join (y == k.cy) (ltb (int_sub k.cx (int_sub cx cfg.radius)) rounds) (z == k.cz)
          (ltb (int_sub k.cy (int_add y 1)) n))
    where
      join : (p q r s : Bool) → (r && (p && q) || r && (s && q)) ≡ (r && ((p || s) && q))
      join true true true s = refl
      join true false true true = refl
      join true false true false = refl
      join false q true s = refl
      join p q false s = refl

  pub slices_lem :
      (z n rounds heights : ℕ)
      → IsInt z
      → IsInt cfg.cy_min
      → n < 2 ^ 32
      → rounds < 2 ^ 32
      → heights < 2 ^ 32
      → int_rounds (int_sub cx cfg.radius) (int_add cx cfg.radius) ≡ rounds
      → int_rounds cfg.cy_min cfg.cy_max ≡ heights
      → is_listed k (desired_slices cfg cx cz z n) ≡ (
          ltb (int_sub k.cz z) n
          && (ltb (int_sub k.cy cfg.cy_min) heights
              && ltb (int_sub k.cx (int_sub cx cfg.radius)) rounds))
  unfolding is_listed desired_slices
  slices_lem z zero rounds heights hz' hmin hn hr hh e eh = rw (no_count z k.cz) refl
  slices_lem z (suc n) rounds heights hz' hmin hn hr hh e eh =
      rw
        (
          eh,
          is_listed-append k (desired_rows cfg cx cz z cfg.cy_min heights)
              (desired_slices cfg cx cz (int_add z 1) n),
          rows_lem z cfg.cy_min heights rounds hmin hh hr e,
          slices_lem (int_add z 1) n rounds heights (omega arith) hmin (omega arith) hr hh e eh,
          ← counts z n k.cz hz' hz (omega arith),
        )
        (join (z == k.cz)
          (ltb (int_sub k.cy cfg.cy_min) heights
            && ltb (int_sub k.cx (int_sub cx cfg.radius)) rounds)
          (ltb (int_sub k.cz (int_add z 1)) n))
    where
      join : (p q s : Bool) → (p && q || s && q) ≡ ((p || s) && q)
      join true true s = refl
      join true false true = refl
      join true false false = refl
      join false q s = refl

-- The configuration and the center keep the arithmetic away from overflow.
pub record IsSane (cfg : StreamConfig) (cx cz : ℕ) : Type 0 where
  pub center_x : InDomain cx
  pub center_z : InDomain cz
  pub low : InDomain cfg.cy_min
  pub high : InDomain cfg.cy_max
  pub radius : cfg.radius < 2 ^ 29

-- A counter from `c - r` to `c + r` meets the numbers at most `r` away from `c`.
around :
    (c r v : ℕ)
    → InDomain c
    → InDomain v
    → r < 2 ^ 29
    → ltb (int_sub v (int_sub c r)) (int_rounds (int_sub c r) (int_add c r))
      ≡ int_le (if int_le c v then int_sub v c else int_sub c v) r
around c r v (hc, lc, uc) (hv, lv, uv) hr = ground arith

between :
    (a b v : ℕ)
    → InDomain a
    → InDomain b
    → InDomain v
    → ltb (int_sub v a) (int_rounds a b) ≡ not (int_lt v a || int_lt b v)
between a b v ha hb hv = ground arith

-- The larger of two distances.
farther :
    (p q r : ℕ)
    → p < 2 ^ 31
    → q < 2 ^ 31
    → r < 2 ^ 31
    → int_le (if int_lt q p then p else q) r ≡ (int_le q r && int_le p r)
farther p q r hp hq hr = ground arith

distance :
    (c v : ℕ) → InDomain c → InDomain v → (if int_le c v then int_sub v c else int_sub c v) < 2 ^ 31
distance c v hc hv = ground arith

-- The loops of forEachDesired meet a key exactly when it is in the window, for a center, a band and a
-- key whose coordinates are below 2 ^ 30 in size and a radius below 2 ^ 29.
pub is_listed-desired :
    (cfg : StreamConfig) (cx cz : ℕ) (k : ChunkKey)
    → IsSane cfg cx cz
    → InDomain k.cx
    → InDomain k.cy
    → InDomain k.cz
    → is_listed k (desired cfg cx cz) ≡ in_window cfg cx cz k
unfolding desired in_window chebyshev
is_listed-desired cfg cx cz k sane hx hy hz =
    let r = cfg.radius in
    let (icx, lcx, ucx) = sane.center_x in
    let (icz, lcz, ucz) = sane.center_z in
    let (imin, lmin, umin) = sane.low in
    let (imax, lmax, umax) = sane.high in
    let small = sane.radius in
    slices_lem cfg cx cz k hx.0 hy.0 hz.0 (int_sub cz r) (int_rounds (int_sub cz r) (int_add cz r))
      (int_rounds (int_sub cx r) (int_add cx r)) (int_rounds cfg.cy_min cfg.cy_max) (omega arith)
      imin (omega arith) (omega arith) (omega arith) refl refl
    ∙ rw
        (
          around cz r k.cz sane.center_z hz small,
          around cx r k.cx sane.center_x hx small,
          between cfg.cy_min cfg.cy_max k.cy sane.low sane.high hy,
          farther (distance_of cx k.cx) (distance_of cz k.cz) r (distance cx k.cx sane.center_x hx)
              (distance cz k.cz sane.center_z hz) (omega arith),
        )
        (join (int_lt k.cy cfg.cy_min || int_lt cfg.cy_max k.cy) (int_le (distance_of cz k.cz) r)
          (int_le (distance_of cx k.cx) r))
  where
    distance_of : ℕ → ℕ → ℕ
    distance_of c v = if int_le c v then int_sub v c else int_sub c v

    join : (b p q : Bool) → (p && (not b && q)) ≡ (if b then false else p && q)
    join true true q = refl
    join true false q = refl
    join false p q = refl
