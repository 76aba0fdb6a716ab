-- ===== src/Lod/Payload.antt =====
-- src/world/lod_pyramid.hpp: the version 1 payload of a node, lodPayloadSerialize and
-- lodPayloadDeserialize. A part of Lod.
use voxel.Base.{
  ℕ, ◌^◌, ◌<◌, ◌≡◌, refl, false, not, ◌||◌, Option, none, some, List, [], ◌∷◌, ◌++◌, ◌==◌,
  if◌then◌else◌, length,
}
use voxel.Bytes.{byte_at, put_le, get_u32, get_u64}
use voxel.Bytes.Laws.{get_u32-put_le, get_u64-put_le}

abbrev pub lod_payload_version : ℕ
lod_payload_version = 1

abbrev pub lod_payload_bytes : ℕ
lod_payload_bytes = 25

pub record LodPayloadV1 : Type 0 where
  pub content_hash : ℕ
  pub occupancy4 : ℕ
  pub dominant_content : ℕ
  pub solid_cells : ℕ

-- The places 0, 1, 9, 17 and 21 are written one after the other.
unfoldable pub lod_payload_serialize : LodPayloadV1 → List ℕ
lod_payload_serialize p =
    lod_payload_version
    ∷ (put_le 8 0 p.content_hash
        ++ (put_le 8 0 p.occupancy4 ++ (put_le 4 0 p.dominant_content ++ put_le 4 0 p.solid_cells)))

unfoldable pub lod_payload_deserialize : List ℕ → Option LodPayloadV1
lod_payload_deserialize bytes =
    if not (length bytes == lod_payload_bytes) || not (byte_at bytes 0 == lod_payload_version)
    then none
    else some record {
      content_hash = get_u64 bytes 1;
      occupancy4 = get_u64 bytes 9;
      dominant_content = get_u32 bytes 17;
      solid_cells = get_u32 bytes 21;
    }

-- The fields fit their words.
abbrev pub IsWords : LodPayloadV1 → Type 0
IsWords p =
    (p.content_hash < 2 ^ 64)
    × (p.occupancy4 < 2 ^ 64)
    × (p.dominant_content < 2 ^ 32)
    × (p.solid_cells < 2 ^ 32)

module _ (p : LodPayloadV1) (h : IsWords p) where
  content_hash_lem : get_u64 (lod_payload_serialize p) 1 ≡ p.content_hash
  unfolding lod_payload_serialize put_le
  content_hash_lem =
      get_u64-put_le p.content_hash (lod_payload_version ∷ [])
        (put_le 8 0 p.occupancy4 ++ (put_le 4 0 p.dominant_content ++ put_le 4 0 p.solid_cells)) 1
        refl h.0

  occupancy4_lem : get_u64 (lod_payload_serialize p) 9 ≡ p.occupancy4
  unfolding lod_payload_serialize put_le
  occupancy4_lem =
      get_u64-put_le p.occupancy4 (lod_payload_version ∷ put_le 8 0 p.content_hash)
        (put_le 4 0 p.dominant_content ++ put_le 4 0 p.solid_cells) 9 refl h.1

  dominant_content_lem : get_u32 (lod_payload_serialize p) 17 ≡ p.dominant_content
  unfolding lod_payload_serialize put_le
  dominant_content_lem =
      get_u32-put_le p.dominant_content
        (lod_payload_version ∷ (put_le 8 0 p.content_hash ++ put_le 8 0 p.occupancy4))
        (put_le 4 0 p.solid_cells) 17 refl h.2

  solid_cells_lem : get_u32 (lod_payload_serialize p) 21 ≡ p.solid_cells
  unfolding lod_payload_serialize put_le
  solid_cells_lem =
      get_u32-put_le p.solid_cells
        (lod_payload_version
          ∷ (put_le 8 0 p.content_hash
              ++ (put_le 8 0 p.occupancy4 ++ put_le 4 0 p.dominant_content)))
        [] 21 refl h.3

  accepted :
      not (length (lod_payload_serialize p) == lod_payload_bytes)
        || not (byte_at (lod_payload_serialize p) 0 == lod_payload_version)
      ≡ false
  unfolding lod_payload_serialize put_le
  accepted = refl

-- A payload whose fields fit their words is read back from the bytes that it was written to.
pub lod_payload_deserialize-lod_payload_serialize :
    (p : LodPayloadV1) → IsWords p → lod_payload_deserialize (lod_payload_serialize p) ≡ some p
unfolding lod_payload_deserialize
lod_payload_deserialize-lod_payload_serialize p h =
    rw
      (
        accepted p h,
        content_hash_lem p h,
        occupancy4_lem p h,
        dominant_content_lem p h,
        solid_cells_lem p h,
      )
      refl
