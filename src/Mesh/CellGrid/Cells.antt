-- ===== src/Mesh/CellGrid/Cells.antt =====
-- The Morton codes below 16 ^ 3 and the cells of the grid correspond one to one.
use voxel.Base.{ℕ, ◌/◌, ◌<◌, ◌≡◌, refl, sym, ap, ◌∙◌, arith, ltb, ltb→lt}
use voxel.Base.Bits.{holds_below, holds_below_at, bit_or-lt}
use voxel.Mesh.CellGrid.{cell_index, cell_total, edge}
use voxel.Morton.{LocalPos, morton_encode, morton_decode, spread3, gather3}
use voxel.Morton.RoundTrip.{morton_decode-morton_encode, morton_encode-morton_decode}

abbrev pub InGrid : LocalPos → Type 0
InGrid p = (p.x < edge) × (p.y < edge) × (p.z < edge)

gather3_small : (c : ℕ) → c < 4096 → gather3 c < 16
unfolding holds_below gather3
gather3_small c h = ltb→lt (gather3 c) 16 (holds_below_at (λ c. ltb (gather3 c) 16) 4096 c refl h)

spread3_small : (v : ℕ) → v < 16 → spread3 v < 1024
unfolding holds_below spread3
spread3_small v h = ltb→lt (spread3 v) 1024 (holds_below_at (λ v. ltb (spread3 v) 1024) 16 v refl h)

pub morton_decode-InGrid : (m : ℕ) → m < cell_total → InGrid (morton_decode m)
unfolding morton_decode
morton_decode-InGrid m h =
    (gather3_small m h, gather3_small (m / 2) (omega arith), gather3_small (m / 4) (omega arith))

pub morton_encode_small : (p : LocalPos) → InGrid p → morton_encode p < cell_total
unfolding morton_encode
morton_encode_small p (hx, hy, hz) =
    let x = spread3_small p.x hx in
    let y = spread3_small p.y hy in
    let z = spread3_small p.z hz in
    bit_or-lt 12 _ _ (bit_or-lt 12 _ _ (omega arith) (omega arith)) (omega arith)

pub decode_encode : (p : LocalPos) → InGrid p → morton_decode (morton_encode p) ≡ p
decode_encode p (hx, hy, hz) = morton_decode-morton_encode p (omega arith, omega arith, omega arith)

abbrev pub index_of : LocalPos → ℕ
index_of p = cell_index p.x p.y p.z

-- Two codes with one cell are equal.
pub index_of_inj :
    (m n : ℕ)
    → m < cell_total
    → n < cell_total
    → index_of (morton_decode m) ≡ index_of (morton_decode n)
    → m ≡ n
index_of_inj m n hm hn e =
    let p = morton_decode m in
    let q = morton_decode n in
    let (px, py, pz) = morton_decode-InGrid m hm in
    let (qx, qy, qz) = morton_decode-InGrid n hn in
    let ex : p.x ≡ q.x = omega arith in
    let ey : p.y ≡ q.y = omega arith in
    let ez : p.z ≡ q.z = omega arith in
    let same : p ≡ q = λ i. record { x = ex i; y = ey i; z = ez i } in
    sym (morton_encode-morton_decode m (omega arith))
    ∙ ap morton_encode same
    ∙ morton_encode-morton_decode n (omega arith)
