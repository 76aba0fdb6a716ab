-- ===== src/Stream/Quiet.antt =====
-- The pump's budget, and the pump in a quiescent state.
use voxel.Base.{
  ℕ, zero, suc, ◌≡◌, refl, sym, ap, ◌∙◌, Bool, true, false, some, List, [], ◌∷◌, arith, ==_iff,
  ==_refl, length, All, some_inj,
}
use voxel.Base.Assoc.{contains}
use voxel.Blob.{CellValue, UnpackedChunk}
use voxel.Stream.{
  ChunkKey, StreamConfig, ResidentChunk, Residents, resident, has_resident, Streamer, in_window,
  window_mask, desired, sort_keys, missing, evict,
}
use voxel.Stream.Invariant.{and_right}
use voxel.Stream.Pump.{
  Admission, admit, needs_mesh, build_all, work_size, pump, is_settled, all_settled, quiescent,
}
use voxel.Stream.Same.{IsSettled, is_settled-IsSettled, and_left, all_settled-listed}
use voxel.Stream.Window.{is_listed, IsSane}
use voxel.Stream.Distinct.{IsKey, desired-Distinct, listed-in_window}
use voxel.Stream.Count.{residents-listed}

-- The wanted keys that no resident of the window has.
abbrev pub wanted : {S : Type 0} → StreamConfig → Streamer S → List ChunkKey
wanted cfg st =
    missing cfg st.center_x st.center_z (evict cfg st.center_x st.center_z st.residents)
      (desired cfg st.center_x st.center_z)

-- A std::map, whose entries are found under their keys, and these have 32-bit coordinates.
abbrev pub IsMap : Residents → Type 0
IsMap m = All (λ e. (resident e.0 m ≡ some e.1) × IsKey e.0) m

module _ (cfg : StreamConfig) (cx cz : ℕ) where
  evict_none : (m : Residents) → All (λ e. in_window cfg cx cz e.0 ≡ true) m → evict cfg cx cz m ≡ m
  unfolding evict
  evict_none [] h = refl
  evict_none ((k, r) ∷ m) h = rw (h.0, evict_none m h.1) refl

  missing_none :
      (m : Residents) (keys : List ChunkKey)
      → all_settled cfg cx cz m keys ≡ true
      → missing cfg cx cz m keys ≡ []
  unfolding missing all_settled contains
  missing_none m [] h = refl
  missing_none m (k ∷ keys) h =
      let settled =
        is_settled-IsSettled cfg cx cz m k (and_right (all_settled cfg cx cz m keys) _ h) in
      let there : has_resident k m ≡ true = rw (contains, settled.1) refl in
      rw (there, missing_none m keys (and_left _ (is_settled cfg cx cz m k) h)) refl

  -- A resident that was meshed for the window needs no mesh.
  needs_none :
      (is_opaque : CellValue → Bool) (m : Residents) (k : ChunkKey) (r : ResidentChunk)
      → resident k m ≡ some r
      → IsSettled cfg cx cz m k
      → needs_mesh cfg is_opaque cx cz m k r ≡ false
  unfolding needs_mesh
  needs_none is_opaque m k r e (s, es, ms, bs) =
      let same : s ≡ r = some_inj s r (sym es ∙ e) in
      let mr : r.meshed ≡ true = rw (← same) ms in
      let br : r.meshed_mask ≡ window_mask cfg cx cz k = rw (← same) bs in
      rw (mr, br, ==_refl (window_mask cfg cx cz k)) refl

  builds_none :
      (is_opaque : CellValue → Bool) (m rest : Residents)
      → All (λ e. needs_mesh cfg is_opaque cx cz m e.0 e.1 ≡ false) rest
      → (build_all cfg is_opaque cx cz m rest ≡ rest) × (work_size cfg is_opaque cx cz m rest ≡ 0)
  unfolding build_all work_size
  builds_none is_opaque m [] h = (refl, refl)
  builds_none is_opaque m ((k, r) ∷ rest) h =
      let (e, z) = builds_none is_opaque m rest h.1 in (rw (h.0, e) refl, rw (h.0, z) refl)

  -- Entries that are wanted, and settled, are in the window and need no mesh.
  all_need_none :
      (is_opaque : CellValue → Bool) (m rest : Residents)
      → IsSane cfg cx cz
      → all_settled cfg cx cz m (desired cfg cx cz) ≡ true
      → All (λ e. (resident e.0 m ≡ some e.1) × IsKey e.0) rest
      → All (λ e. is_listed e.0 (desired cfg cx cz) ≡ true) rest
      → All (λ e. needs_mesh cfg is_opaque cx cz m e.0 e.1 ≡ false) rest
        × All (λ e. in_window cfg cx cz e.0 ≡ true) rest
  all_need_none is_opaque m [] sane settled h listed = (tt, tt)
  all_need_none is_opaque m ((k, r) ∷ rest) sane settled ((e, key), h) (here, listed) =
      let (more, in_too) = all_need_none is_opaque m rest sane settled h listed in
      (
        (
          needs_none is_opaque m k r e
              (all_settled-listed cfg cx cz m (desired cfg cx cz) k settled here),
          more,
        ),
        (listed-in_window cfg cx cz k sane key here, in_too),
      )

quiescent-parts :
    {S : Type 0} (cfg : StreamConfig) (st : Streamer S)
    → quiescent cfg st ≡ true
    → (all_settled cfg st.center_x st.center_z st.residents (desired cfg st.center_x st.center_z)
        ≡ true)
      × (length (desired cfg st.center_x st.center_z) ≡ length st.residents)
unfolding quiescent
quiescent-parts cfg st quiet = (
  and_left _ _ quiet,
  (==_iff _ _).0 (
      and_right
        (all_settled cfg st.center_x st.center_z st.residents (desired cfg st.center_x st.center_z))
        _ quiet),
)

admits_none :
    {S : Type 0} (load : S → ChunkKey → S × (UnpackedChunk × Bool)) (n : ℕ) (a : Admission S)
    → admit load n [] a ≡ a
unfolding admit
admits_none load zero a = refl
admits_none load (suc n) a = refl

-- In a quiescent state a pump changes nothing and counts nothing. The residents are a map with 32-bit
-- keys, wherever these lie; the center and the band are below 2 ^ 30 in size, and the radius is below
-- 2 ^ 29.
pub pump-quiescent :
    {S : Type 0} (load : S → ChunkKey → S × (UnpackedChunk × Bool)) (cfg : StreamConfig)
    (is_opaque : CellValue → Bool) (st : Streamer S)
    → IsSane cfg st.center_x st.center_z
    → IsMap st.residents
    → quiescent cfg st ≡ true
    → pump load cfg is_opaque st
      ≡ (st, record { loaded = 0; loaded_from_store = 0; meshed = 0; evicted = 0 })
unfolding pump sort_keys
pump-quiescent load cfg is_opaque st sane keyed quiet =
    let m = st.residents in
    let (settled, count) = quiescent-parts cfg st quiet in
    let listed =
      residents-listed cfg st.center_x st.center_z m (desired cfg st.center_x st.center_z)
        (desired-Distinct cfg st.center_x st.center_z sane) settled count in
    let (idle, inside) =
      all_need_none cfg st.center_x st.center_z is_opaque m m sane settled keyed listed in
    let (built, nothing) = builds_none cfg st.center_x st.center_z is_opaque m m idle in
    rw
      (
        evict_none cfg st.center_x st.center_z m inside,
        missing_none cfg st.center_x st.center_z m (desired cfg st.center_x st.center_z) settled,
        admits_none load cfg.budget _,
        built,
        nothing,
      )
      (ap (λ n. (st, record { loaded = 0; loaded_from_store = 0; meshed = 0; evicted = n }))
        (omega arith))
