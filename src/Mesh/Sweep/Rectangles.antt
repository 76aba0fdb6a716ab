-- ===== src/Mesh/Sweep/Rectangles.antt =====
-- The rectangle that the two extents span holds free faces only.
use voxel.Base.{
  ℕ, zero, suc, ◌+◌, ◌-◌, ◌*◌, ◌≤◌, ◌<◌, ◌≡◌, subst, inl, inr, Bool, true, List, arith, ℕ_discrete,
  ◌==◌, if◌then◌else◌, Bool-cases,
}
use voxel.Mesh.CellGrid.{edge}
use voxel.Mesh.Sweep.{free_face, extend, all_below, extent_v, row_ok, extent_u}

all_below_at : (n : ℕ) (test : ℕ → Bool) (k : ℕ) → all_below n test ≡ true → k < n → test k ≡ true
unfolding all_below
all_below_at zero test k h lt = absurd (omega arith)
all_below_at (suc n) test k h lt = elim (Bool-cases (k == n)) [
  | inl e ↦ let same : k ≡ n = ground arith in rw same (ground arith)
  | inr e ↦ all_below_at n test k (ground arith) (ground arith)
]

run_at : (test : ℕ → Bool) (k room i : ℕ) → k ≤ i → i < k + extend test k room → test i ≡ true
unfolding extend
run_at test k zero i low h = absurd (omega arith)
run_at test k (suc room) i low h = elim (Bool-cases (test k)) [
  | inl e ↦
      let more : i < k + suc (extend test (suc k) room) =
        subst (λ t. i < k + (if t then suc (extend test (suc k) room) else 0)) e h in
      elim (ℕ_discrete i k) [
        | yes same ↦ rw same e
        | no ne ↦ run_at test (suc k) room i (omega arith) (omega arith)
      ]
  | inr e ↦
      let stop : i < k + 0 =
        subst (λ t. i < k + (if t then suc (extend test (suc k) room) else 0)) e h in
      absurd (omega arith)
]

run_le : (test : ℕ → Bool) (k room : ℕ) → extend test k room ≤ room
unfolding extend
run_le test k zero = omega arith
run_le test k (suc room) =
    let rest = run_le test (suc k) room in
    elim (Bool-cases (test k)) [ inl e ↦ rw e (omega arith) | inr e ↦ rw e (omega arith) ]

module _ (mask : List ℕ) (claimed : List Bool) (slot uu vv : ℕ) (hu : uu < edge)
    (hv : vv < edge) where
  pub width_fits : vv + extent_v mask claimed slot uu vv < 17
  unfolding extent_v
  width_fits =
      omega
        (arith, run_le (λ k. free_face mask claimed slot (uu * edge + vv + k)) 1 (edge - (vv + 1)))

  pub height_fits : (dv : ℕ) → uu + extent_u mask claimed slot uu vv dv < 17
  unfolding extent_u
  height_fits dv =
      omega (arith, run_le (λ a. row_ok mask claimed slot (uu + a) vv dv) 1 (edge - (uu + 1)))

  first_row :
      (k : ℕ)
      → free_face mask claimed slot (uu * edge + vv) ≡ true
      → k < extent_v mask claimed slot uu vv
      → free_face mask claimed slot (uu * edge + vv + k) ≡ true
  unfolding extent_v
  first_row zero start lt =
      let same : uu * edge + vv + 0 ≡ uu * edge + vv = omega arith in rw same start
  first_row (suc k) start lt =
      run_at (λ k. free_face mask claimed slot (uu * edge + vv + k)) 1 (edge - (vv + 1)) (suc k)
        (omega arith) (omega arith)

  next_row :
      (dv a : ℕ)
      → suc a < extent_u mask claimed slot uu vv dv
      → row_ok mask claimed slot (uu + suc a) vv dv ≡ true
  unfolding extent_u
  next_row dv a lt =
      run_at (λ a. row_ok mask claimed slot (uu + a) vv dv) 1 (edge - (uu + 1)) (suc a)
        (omega arith) (omega arith)

  -- From a free face on, every face of the rectangle is free.
  pub rectangle_free :
      (a k : ℕ)
      → free_face mask claimed slot (uu * edge + vv) ≡ true
      → k < extent_v mask claimed slot uu vv
      → a < extent_u mask claimed slot uu vv (extent_v mask claimed slot uu vv)
      → free_face mask claimed slot ((uu + a) * edge + vv + k) ≡ true
  unfolding row_ok
  rectangle_free zero k start lk la =
      let same : (uu + 0) * edge + vv + k ≡ uu * edge + vv + k = omega arith in
      rw same (first_row k start lk)
  rectangle_free (suc a) k start lk la =
      all_below_at (extent_v mask claimed slot uu vv)
        (λ k. free_face mask claimed slot ((uu + suc a) * edge + vv + k)) k
        (next_row (extent_v mask claimed slot uu vv) a la) lk
