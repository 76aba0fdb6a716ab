-- ===== src/Identity/Handles.antt =====
-- The fields of an entity handle: makeHandle, handleIndex, handleGeneration and handleValid.
use voxel.Base.{ℕ, ◌+◌, ◌*◌, ◌%◌, ◌^◌, ◌<◌, ◌≡◌, ap, not, arith, ◌==◌}
use voxel.Base.Bits.{bit_or_high, bit_and_mask}
use voxel.Identity.{EntityHandle, make_handle, handle_index, handle_generation, handle_valid}

pub make_handle-eq_add :
    (index generation : ℕ)
    → index < 2 ^ 32
    → generation < 2 ^ 32
    → (make_handle index generation).bits ≡ generation * 2 ^ 32 + index
unfolding make_handle
make_handle-eq_add index generation h g =
    let fits : generation * 2 ^ 32 % 2 ^ 64 ≡ generation * 2 ^ 32 = omega arith in
    rw fits (bit_or_high 32 generation index h)

pub handle_index-eq_mod : (h : EntityHandle) → handle_index h ≡ h.bits % 2 ^ 32
unfolding handle_index
handle_index-eq_mod h = omega (arith, bit_and_mask 32 h.bits)

-- A handle made of two 32-bit numbers gives both back, and it is valid exactly when its index is
-- not the reserved all-ones index, whatever its generation.
pub handle_fields-make_handle :
    (index generation : ℕ)
    → index < 2 ^ 32
    → generation < 2 ^ 32
    → (handle_index (make_handle index generation) ≡ index)
      × (handle_generation (make_handle index generation) ≡ generation)
      × (handle_valid (make_handle index generation) ≡ not (index == 0xFFFFFFFF))
unfolding handle_generation handle_valid
handle_fields-make_handle index generation h g =
    let made = make_handle-eq_add index generation h g in
    let low : handle_index (make_handle index generation) ≡ index =
      omega (arith, made, handle_index-eq_mod (make_handle index generation)) in
    (low, omega (arith, made), ap (λ (i : ℕ). not (i == 0xFFFFFFFF)) low)

-- A 64-bit handle is the handle made of its index and its generation.
pub make_handle-handle_fields :
    (h : EntityHandle) → h.bits < 2 ^ 64 → make_handle (handle_index h) (handle_generation h) ≡ h
unfolding handle_generation
make_handle-handle_fields h fits =
    let low = handle_index-eq_mod h in
    let made =
      make_handle-eq_add (handle_index h) (handle_generation h) (omega (arith, low))
        (omega arith) in
    ground (arith, made, low)
