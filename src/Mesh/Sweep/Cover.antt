-- ===== src/Mesh/Sweep/Cover.antt =====
-- The greedy sweep of one slice, and the sweep without merging, paint every visible face exactly
-- once, with the face's own slot.
pub mod Progress
pub mod Greedy
pub mod Naive
use voxel.Base.{
  ℕ, zero, suc, ◌+◌, ◌-◌, ◌*◌, ◌/◌, ◌%◌, ◌^◌, ◌≤◌, ◌<◌, bit_and, bit_or, bit_xor, ◌≡◌, refl, sym,
  ap, ◌∙◌, subst, ◌≢◌, ◌↔◌, ◌⊎◌, inl, inr, Bool, true, false, not, ◌&&◌, ◌||◌, Option, none, some,
  List, [], ◌∷◌, ◌++◌, map, append_assoc, append-nil, arith, dec_lt, dec_le, ℕ_discrete, ltb, leb,
  ◌==◌, if◌then◌else◌, ltb→lt, lt→ltb, ltb-false→le, ==_iff, ==_refl, Bool-cases, Bool-agree,
  Option-cases, length, get_elem?, get_or, set, replicate, All, length-append, length-set,
  length-replicate, get_or-append_right, get_or-append_left, get_or-append_last, get_or-set_self,
  get_or-set_ne, get_or-replicate, eq_of_get_or, All-get_or, All-append, All-set, take, drop,
  take-append, drop-append, set-append, eq_tabulate, ◌>>=◌, ◌>>◌, reject, >>=-eq-some, reject->>,
  some_inj,
}
use voxel.Mesh.Emitter.{ChunkMesh, Rect}
use voxel.Mesh.Emitter.Painted.{UnitFace, painted, covers, IsWhole}
use voxel.Mesh.CellGrid.{edge}
use voxel.Mesh.Mask.{no_face, side}
use voxel.Mesh.Sweep.Claims.{in_box, claimed_at}

abbrev pub mask_at : List ℕ → ℕ → ℕ → ℕ
mask_at mask a b = get_or mask (a * edge + b) no_face

-- Whether the unit face lies in the slice that is swept.
unfoldable pub in_slice : ℕ → Bool → ℕ → UnitFace → Bool
in_slice d positive p f = side d positive == side f.d f.positive && p == f.plane

-- What the mask shows on a unit face.
unfoldable pub shown : ℕ → Bool → ℕ → List ℕ → UnitFace → List ℕ
shown d positive p mask f =
    if in_slice d positive p f && not (mask_at mask f.a f.b == no_face)
    then mask_at mask f.a f.b ∷ []
    else []

-- Behind what a whole mesh painted, the slice is painted as the mask shows it.
abbrev pub PaintsSlice : ℕ → Bool → ℕ → List ℕ → ChunkMesh → ChunkMesh → Type 0
PaintsSlice d positive p mask mesh0 mesh =
    IsWhole mesh
    × ((f : UnitFace)
        → f.a < edge
        → f.b < edge
        → painted mesh f ≡ painted mesh0 f ++ shown d positive p mask f)

-- The places that the two loops are through with when they stand at (uu, vv).
unfoldable pub through : ℕ → ℕ → ℕ → ℕ → Bool
through uu vv a b = ltb a uu || (a == uu && ltb b vv)

pub through_self : (uu vv : ℕ) → through uu (suc vv) uu vv ≡ true
unfolding through
through_self uu vv = ground arith

pub through_start : (a b : ℕ) → through 0 0 a b ≡ false
unfolding through
through_start a b = ground arith

pub through_end : (a b : ℕ) → a < edge → through edge 0 a b ≡ true
unfolding through
through_end a b h = ground arith

pub through_row : (uu a b : ℕ) → b < edge → through uu edge a b ≡ through (suc uu) 0 a b
unfolding through
through_row uu a b h = ground arith

-- One more place.
pub through_next :
    (uu vv a b : ℕ) → through uu (suc vv) a b ≡ (through uu vv a b || (uu == a && vv == b))
unfolding through
through_next uu vv a b = ground arith

pub covers-in_slice :
    (r : Rect) (f : UnitFace)
    → covers r f ≡ (in_slice r.d r.positive r.p f && in_box r.u0 r.du r.v0 r.dv f.a f.b)
unfolding covers in_slice in_box
covers-in_slice r f = and_assoc (side r.d r.positive == side f.d f.positive) (r.p == f.plane) _
  where
    and_assoc : (a b c : Bool) → (a && (b && c)) ≡ ((a && b) && c)
    and_assoc true b c = refl
    and_assoc false b c = refl
