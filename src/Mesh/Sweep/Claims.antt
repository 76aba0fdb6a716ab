-- ===== src/Mesh/Sweep/Claims.antt =====
-- What the two loops that claim a rectangle change.
use voxel.Base.{
  ℕ, suc, ◌+◌, ◌*◌, ◌≤◌, ◌<◌, ◌≡◌, refl, ◌∙◌, Bool, true, false, ◌&&◌, ◌||◌, List, arith,
  ℕ_discrete, ltb, leb, ◌==◌, ==_refl, length, get_or, set, length-set, get_or-set_self,
  get_or-set_ne,
}
use voxel.Base.Loops.{for_below, for_below_inv}
use voxel.Mesh.CellGrid.{edge}
use voxel.Mesh.Sweep.{claim}

unfoldable pub in_box : ℕ → ℕ → ℕ → ℕ → ℕ → ℕ → Bool
in_box u0 du v0 dv a b = leb u0 a && (ltb a (u0 + du) && (leb v0 b && ltb b (v0 + dv)))

abbrev pub claimed_at : List Bool → ℕ → ℕ → Bool
claimed_at claimed a b = get_or claimed (a * edge + b) false

set-true :
    (c : List Bool) (i j : ℕ)
    → i < length c
    → get_or (set c i true) j false ≡ (get_or c j false || i == j)
set-true c i j h = elim (ℕ_discrete i j) [
  | yes e ↦ rw (← e, get_or-set_self c i true false h, ==_refl i) (ground arith)
  | no ne ↦ rw (get_or-set_ne c i j true false ne) (ground arith)
]

-- After `i` rounds over `c0`: the faces of the box are claimed and the others are as before.
abbrev Claimed : List Bool → ℕ → ℕ → ℕ → ℕ → List Bool → Type 0
Claimed c0 u0 du v0 dv c =
    (length c ≡ 256)
    × ((a b : ℕ)
        → a < edge
        → b < edge
        → claimed_at c a b ≡ (claimed_at c0 a b || in_box u0 du v0 dv a b))

one_more :
    (g : Bool) (u v k a b : ℕ)
    → u < edge
    → v + k < edge
    → a < edge
    → b < edge
    → ((g || in_box u 1 v k a b) || (u * edge + v + k == a * edge + b))
      ≡ (g || in_box u 1 v (suc k) a b)
unfolding in_box
one_more true u v k a b hu hv ha hb = refl
one_more false u v k a b hu hv ha hb = ground arith

no_column : (g : Bool) (u v a b : ℕ) → g ≡ (g || in_box u 1 v 0 a b)
unfolding in_box
no_column true u v a b = refl
no_column false u v a b = ground arith

no_row : (g : Bool) (u v dv a b : ℕ) → g ≡ (g || in_box u 0 v dv a b)
unfolding in_box
no_row true u v dv a b = refl
no_row false u v dv a b = ground arith

next_row :
    (g : Bool) (u i v dv a b : ℕ)
    → ((g || in_box u i v dv a b) || in_box (u + i) 1 v dv a b) ≡ (g || in_box u (suc i) v dv a b)
unfolding in_box
next_row true u i v dv a b = refl
next_row false u i v dv a b = ground arith

module _ (c0 : List Bool) (uu vv du dv : ℕ) (hu : uu + du ≤ edge) (hv : vv + dv ≤ edge) where
  claim_cell :
      (i k : ℕ) (c : List Bool) (base : List Bool)
      → i < du
      → k < dv
      → Claimed base (uu + i) 1 vv k c
      → Claimed base (uu + i) 1 vv (suc k) (set c ((uu + i) * edge + vv + k) true)
  claim_cell i k c base hi hk (e, h) = (
    length-set c ((uu + i) * edge + vv + k) true ∙ e,
    λ a b ha hb.
        set-true c ((uu + i) * edge + vv + k) (a * edge + b) (omega arith)
        ∙ rw (h a b ha hb)
            (one_more (claimed_at base a b) (uu + i) vv k a b (omega arith) (omega arith) ha hb),
  )

  claim_row :
      (i : ℕ) (base : List Bool)
      → i < du
      → length base ≡ 256
      → Claimed base
          (uu + i)
          1
          vv
          dv
          (for_below dv (λ k c. set c ((uu + i) * edge + vv + k) true) base)
  claim_row i base hi e =
      for_below_inv (Claimed base (uu + i) 1 vv) _ dv (λ k c hk. claim_cell i k c base hi hk) base
        (e, λ a b ha hb. no_column (claimed_at base a b) (uu + i) vv a b)

  pub claim-Claimed : length c0 ≡ 256 → Claimed c0 uu du vv dv (claim uu vv du dv c0)
  unfolding claim
  claim-Claimed e =
      for_below_inv (λ i. Claimed c0 uu i vv dv) _ du
        (λ i c hi (e, h).
          let (e', h') = claim_row i c hi e in
          (
            e',
            λ a b ha hb.
                h' a b ha hb ∙ rw (h a b ha hb) (next_row (claimed_at c0 a b) uu i vv dv a b),
          ))
        c0 (e, λ a b ha hb. no_row (claimed_at c0 a b) uu vv dv a b)
