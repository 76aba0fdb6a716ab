-- ===== src/Mesh/Vertex.antt =====
-- src/mesh/greedy.hpp: the packed vertex. A u32 is a number below 2 ^ 32.
use voxel.Base.Bits.{bit_or_disjoint, bit_and_mask}
use voxel.Base.{
  ℕ, zero, suc, ◌+◌, ◌*◌, ◌/◌, ◌%◌, ◌^◌, ◌<◌, bit_and, bit_or, ◌≡◌, refl, ap, ◌∙◌, arith,
}

-- `enum class Face : std::uint8_t`; a cast can give a value that no enumerator names.
pub data Face : Type 0 where
  pos_x : Face
  neg_x : Face
  pos_y : Face
  neg_y : Face
  pos_z : Face
  neg_z : Face
  unnamed : ℕ → Face

unfoldable pub face_value : Face → ℕ
face_value pos_x = 0
face_value neg_x = 1
face_value pos_y = 2
face_value neg_y = 3
face_value pos_z = 4
face_value neg_z = 5
face_value (unnamed value) = value

-- `static_cast<Face>(n)`
unfoldable pub face_cast : ℕ → Face
face_cast zero = pos_x
face_cast (suc zero) = neg_x
face_cast (suc (suc zero)) = pos_y
face_cast (suc (suc (suc zero))) = neg_y
face_cast (suc (suc (suc (suc zero)))) = pos_z
face_cast (suc (suc (suc (suc (suc zero))))) = neg_z
face_cast n = unnamed n

pub record PackedVertex : Type 0 where
  pub pos_face : ℕ
  pub slot : ℕ

unfoldable pub pack_vertex : ℕ → ℕ → ℕ → Face → ℕ → PackedVertex
pack_vertex x y z face slot = record {
  pos_face =
      bit_or (bit_or (bit_or x (y * 2 ^ 5 % 2 ^ 32)) (z * 2 ^ 10 % 2 ^ 32))
        (face_value face * 2 ^ 15 % 2 ^ 32);
  slot = slot;
}

unfoldable pub vertex_x : PackedVertex → ℕ
vertex_x v = bit_and v.pos_face 0x1F

unfoldable pub vertex_y : PackedVertex → ℕ
vertex_y v = bit_and (v.pos_face / 2 ^ 5) 0x1F

unfoldable pub vertex_z : PackedVertex → ℕ
vertex_z v = bit_and (v.pos_face / 2 ^ 10) 0x1F

unfoldable pub vertex_face : PackedVertex → Face
vertex_face v = face_cast (bit_and (v.pos_face / 2 ^ 15) 0x7)

pub face_value-face_cast : (n : ℕ) → face_value (face_cast n) ≡ n
unfolding face_cast face_value
face_value-face_cast zero = refl
face_value-face_cast (suc zero) = refl
face_value-face_cast (suc (suc zero)) = refl
face_value-face_cast (suc (suc (suc zero))) = refl
face_value-face_cast (suc (suc (suc (suc zero)))) = refl
face_value-face_cast (suc (suc (suc (suc (suc zero))))) = refl
face_value-face_cast (suc (suc (suc (suc (suc (suc n)))))) = refl

pos_face_sum :
    (x y z : ℕ) (face : Face) (slot : ℕ)
    → x < 32
    → y < 32
    → z < 32
    → face_value face < 8
    → (pack_vertex x y z face slot).pos_face ≡ x + y * 2 ^ 5 + z * 2 ^ 10 + face_value face * 2 ^ 15
unfolding pack_vertex
pos_face_sum x y z face slot hx hy hz hf =
    let f = face_value face in
    let ey : y * 2 ^ 5 % 2 ^ 32 ≡ y * 2 ^ 5 = omega arith in
    let ez : z * 2 ^ 10 % 2 ^ 32 ≡ z * 2 ^ 10 = omega arith in
    let ef : f * 2 ^ 15 % 2 ^ 32 ≡ f * 2 ^ 15 = omega arith in
    rw
      (
        ey,
        ez,
        ef,
        bit_or_disjoint 5 x y hx,
        bit_or_disjoint 10 (x + y * 2 ^ 5) z (omega arith),
        bit_or_disjoint 15 (x + y * 2 ^ 5 + z * 2 ^ 10) f (omega arith),
      )
      refl

-- What the four readers give back.
abbrev pub Reads : PackedVertex → ℕ → ℕ → ℕ → Face → ℕ → Type 0
Reads v x y z face slot =
    (vertex_x v ≡ x)
    × (vertex_y v ≡ y)
    × (vertex_z v ≡ z)
    × (vertex_face v ≡ face)
    × (v.slot ≡ slot)

-- Corner coordinates below 32, a face given by its three-bit code and the slot come back from the
-- packed vertex.
pub pack_vertex-Reads :
    (x y z n : ℕ) (slot : ℕ)
    → x < 32
    → y < 32
    → z < 32
    → n < 8
    → Reads (pack_vertex x y z (face_cast n) slot) x y z (face_cast n) slot
unfolding vertex_x vertex_y vertex_z vertex_face pack_vertex
pack_vertex-Reads x y z n slot hx hy hz hn =
    let e : (pack_vertex x y z (face_cast n) slot).pos_face
        ≡ x + y * 2 ^ 5 + z * 2 ^ 10 + n * 2 ^ 15 =
      pos_face_sum x y z (face_cast n) slot hx hy hz (rw (face_value-face_cast n) hn)
      ∙ rw (face_value-face_cast n) refl in
    let low : (k : ℕ) → bit_and k 0x1F ≡ k % 2 ^ 5 = λ k. bit_and_mask 5 k in
    let three : (k : ℕ) → bit_and k 0x7 ≡ k % 2 ^ 3 = λ k. bit_and_mask 3 k in
    (
      rw (e, low) (omega arith),
      rw (e, low) (omega arith),
      rw (e, low) (omega arith),
      rw (e, three) (ap face_cast (omega arith)),
      refl,
    )
