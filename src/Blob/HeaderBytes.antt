-- ===== src/Blob/HeaderBytes.antt =====
-- The 16 header bytes that the packer writes, and what the reader finds in them.
use native.Mathlib.Nat.{mod-eq_of_lt}
use voxel.Base.{
  ℕ, ◌^◌, ◌<◌, ◌≡◌, refl, sym, ◌∙◌, List, [], ◌∷◌, ◌++◌, append_assoc, length, length-append,
}
use voxel.Bytes.{byte_at, put_le, put_u32, get_le, get_u32}
use voxel.Bytes.Laws.{length-put_le, get_u32-put_le}
use voxel.Blob.{put_header, blob_magic, blob_version}

pub length-put_header : (k bits n : ℕ) → length (put_header k bits n) ≡ 16
unfolding put_header put_u32
length-put_header k bits n = simp (length-append, length-put_le)

pub header_reads :
    (k bits n : ℕ) (rest : List ℕ)
    → (get_u32 (put_header k bits n ++ rest) 0 ≡ blob_magic)
      × (byte_at (put_header k bits n ++ rest) 4 ≡ blob_version)
      × (byte_at (put_header k bits n ++ rest) 5 ≡ k)
      × (byte_at (put_header k bits n ++ rest) 6 ≡ bits)
unfolding put_header put_u32 put_le get_u32 get_le
header_reads k bits n rest = (refl, refl, refl, refl)

pub header_count :
    (k bits n : ℕ) (rest : List ℕ) → n < 2 ^ 32 → get_u32 (put_header k bits n ++ rest) 8 ≡ n
unfolding put_header put_u32
header_count k bits n rest h =
    rw (mod-eq_of_lt h, shape)
      (get_u32-put_le n (put_le 4 0 blob_magic ++ (blob_version ∷ k ∷ bits ∷ 0 ∷ []))
        (put_le 4 0 0 ++ rest) 8
        (sym (
          length-append (put_le 4 0 blob_magic) (blob_version ∷ k ∷ bits ∷ 0 ∷ [])
          ∙ rw (length-put_le 4 0 blob_magic)))
        h)
  where
    shape :
        put_u32 (put_u32 (put_u32 [] blob_magic ++ (blob_version ∷ k ∷ bits ∷ 0 ∷ [])) n) 0 ++ rest
        ≡ (put_le 4 0 blob_magic ++ (blob_version ∷ k ∷ bits ∷ 0 ∷ []))
          ++ (put_le 4 0 n ++ (put_le 4 0 0 ++ rest))
    shape = simp append_assoc
