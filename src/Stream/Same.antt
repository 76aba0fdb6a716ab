-- ===== src/Stream/Same.antt =====
-- Quiescent states do not show the way that led to them.
use voxel.Base.{
  ℕ, ◌≡◌, refl, sym, ◌∙◌, inl, inr, Bool, true, false, ◌&&◌, some, List, [], ◌∷◌, ◌==◌, ==_iff,
  Bool-cases, Option-cases,
}
use voxel.Blob.{CellValue, UnpackedChunk}
use voxel.Stream.{
  ChunkKey, key_eq, StreamConfig, ResidentChunk, Residents, resident, Streamer, set_center,
  in_window, window_mask, desired,
}
use voxel.Stream.Invariant.{key_eq→eq, LoadLaws, AllTrue, IsTrue-resident, pump-IsTrue, and_right}
use voxel.Stream.Pump.{pump, is_settled, all_settled, quiescent}
use voxel.Stream.Window.{is_listed, InDomain, IsSane, is_listed-desired}

-- A resident whose mesh was built with the mask of the window.
abbrev pub IsSettled : StreamConfig → ℕ → ℕ → Residents → ChunkKey → Type 0
IsSettled cfg cx cz m k =
    (r : ResidentChunk) × (resident k m ≡ some r)
    × (r.meshed ≡ true)
    × (r.meshed_mask ≡ window_mask cfg cx cz k)

pub and_left : (p q : Bool) → (p && q) ≡ true → p ≡ true
and_left true q h = refl
and_left false q h = absurd cc

module _ (cfg : StreamConfig) (cx cz : ℕ) (m : Residents) where
  pub is_settled-IsSettled :
      (k : ChunkKey) → is_settled cfg cx cz m k ≡ true → IsSettled cfg cx cz m k
  unfolding is_settled
  is_settled-IsSettled k h = elim (Option-cases (resident k m)) [
    | inl e ↦ let stop : false ≡ true = rw (is_settled, e) at h in absurd cc
    | inr (r, e) ↦
        let both : (r.meshed && r.meshed_mask == window_mask cfg cx cz k) ≡ true =
          rw (is_settled, e) at h in
        (
          r,
          e,
          and_left r.meshed _ both,
          (==_iff r.meshed_mask (window_mask cfg cx cz k)).0 (and_right r.meshed _ both),
        )
  ]

  pub all_settled-listed :
      (keys : List ChunkKey) (k : ChunkKey)
      → all_settled cfg cx cz m keys ≡ true
      → is_listed k keys ≡ true
      → IsSettled cfg cx cz m k
  unfolding all_settled is_listed
  all_settled-listed [] k h l = absurd cc
  all_settled-listed (n ∷ keys) k h l = elim (Bool-cases (key_eq n k)) [
    | inl e ↦
        rw (← key_eq→eq n k e)
          (is_settled-IsSettled n (and_right (all_settled cfg cx cz m keys) _ h))
    | inr e ↦ all_settled-listed keys k (and_left _ (is_settled cfg cx cz m n) h) (rw e at l)
  ]

  -- In a quiescent state every key of the window has a resident that is meshed for the window.
  pub in_window-IsSettled :
      {S : Type 0} (store : S) (k : ChunkKey)
      → IsSane cfg cx cz
      → InDomain k.cx
      → InDomain k.cy
      → InDomain k.cz
      → quiescent cfg (record { store = store; center_x = cx; center_z = cz; residents = m }) ≡ true
      → in_window cfg cx cz k ≡ true
      → IsSettled cfg cx cz m k
  unfolding quiescent
  in_window-IsSettled store k sane hx hy hz quiet inside =
      all_settled-listed (desired cfg cx cz) k (and_left _ _ quiet)
        (is_listed-desired cfg cx cz k sane hx hy hz ∙ inside)

-- What a caller does with a streamer.
pub data Move : Type 0 where
  moves_to : ℕ → ℕ → Move
  pumps : ℕ → Move

unfoldable pub with_budget : StreamConfig → ℕ → StreamConfig
with_budget cfg budget = record {
  radius = cfg.radius;
  cy_min = cfg.cy_min;
  cy_max = cfg.cy_max;
  budget = budget;
}

module _ {S : Type 0} (load : S → ChunkKey → S × (UnpackedChunk × Bool)) (cfg : StreamConfig)
    (is_opaque : CellValue → Bool) where
  unfoldable pub step : Streamer S → Move → Streamer S
  step st (moves_to cx cz) = set_center st cx cz
  step st (pumps budget) = (pump load (with_budget cfg budget) is_opaque st).0

  unfoldable pub walk : Streamer S → List Move → Streamer S
  walk st [] = st
  walk st (move ∷ moves) = walk (step st move) moves

unfoldable pub new_streamer : {S : Type 0} → S → Streamer S
new_streamer store = record { store = store; center_x = 0; center_z = 0; residents = [] }

module _ {S : Type 0} (load : S → ChunkKey → S × (UnpackedChunk × Bool)) (Valid : S → Type 0)
    (world : ChunkKey → UnpackedChunk) (laws : LoadLaws load Valid world) (cfg : StreamConfig)
    (is_opaque : CellValue → Bool) where
  abbrev Sound : Streamer S → Type 0
  Sound st = Valid st.store × AllTrue world is_opaque st.residents

  step-Sound : (st : Streamer S) (move : Move) → Sound st → Sound (step load cfg is_opaque st move)
  unfolding step set_center
  step-Sound st (moves_to cx cz) h = h
  step-Sound st (pumps budget) h =
      pump-IsTrue world is_opaque load Valid laws (with_budget cfg budget) st h

  pub walk-Sound :
      (st : Streamer S) (moves : List Move) → Sound st → Sound (walk load cfg is_opaque st moves)
  unfolding walk
  walk-Sound st [] h = h
  walk-Sound st (move ∷ moves) h =
      walk-Sound (step load cfg is_opaque st move) moves (step-Sound st move h)

-- Chunk and mesh of a key, in two resident maps.
abbrev pub Agree : Residents → Residents → ChunkKey → Type 0
Agree m n k =
    (r : ResidentChunk) × (s : ResidentChunk) × (resident k m ≡ some r)
    × (resident k n ≡ some s)
    × (r.chunk ≡ s.chunk)
    × (r.mesh ≡ s.mesh)

settled-Agree :
    (world : ChunkKey → UnpackedChunk) (is_opaque : CellValue → Bool) (cfg : StreamConfig)
    (cx cz : ℕ) (m n : Residents) (k : ChunkKey)
    → AllTrue world is_opaque m
    → AllTrue world is_opaque n
    → IsSettled cfg cx cz m k
    → IsSettled cfg cx cz n k
    → Agree m n k
settled-Agree world is_opaque cfg cx cz m n k hm hn (r, er, mr, br) (s, es, ms, bs) =
    let (cr, gr) = IsTrue-resident world is_opaque m k r hm er in
    let (cs, gs) = IsTrue-resident world is_opaque n k s hn es in
    (r, s, er, es, cr ∙ sym cs, gr mr ∙ rw (br, ← bs) (sym (gs ms)))

-- Two streamers that start empty over stores whose loads give the same chunks, and that take any moves
-- and pump with any budgets, agree on the chunk and the mesh of every key of the window once both are
-- quiescent at one center, for coordinates far from overflow.
pub quiescent-Agree :
    {S T : Type 0} (load : S → ChunkKey → S × (UnpackedChunk × Bool))
    (load' : T → ChunkKey → T × (UnpackedChunk × Bool)) (Valid : S → Type 0) (Valid' : T → Type 0)
    (world : ChunkKey → UnpackedChunk) (cfg : StreamConfig) (is_opaque : CellValue → Bool) (s : S)
    (t : T) (moves moves' : List Move) (k : ChunkKey)
    → LoadLaws load Valid world
    → LoadLaws load' Valid' world
    → Valid s
    → Valid' t
    → (walk load cfg is_opaque (new_streamer s) moves).center_x
      ≡ (walk load' cfg is_opaque (new_streamer t) moves').center_x
    → (walk load cfg is_opaque (new_streamer s) moves).center_z
      ≡ (walk load' cfg is_opaque (new_streamer t) moves').center_z
    → quiescent cfg (walk load cfg is_opaque (new_streamer s) moves) ≡ true
    → quiescent cfg (walk load' cfg is_opaque (new_streamer t) moves') ≡ true
    → IsSane cfg
        (walk load cfg is_opaque (new_streamer s) moves).center_x
        (walk load cfg is_opaque (new_streamer s) moves).center_z
    → InDomain k.cx
    → InDomain k.cy
    → InDomain k.cz
    → in_window cfg
        (walk load cfg is_opaque (new_streamer s) moves).center_x
        (walk load cfg is_opaque (new_streamer s) moves).center_z
        k
      ≡ true
    → Agree
        (walk load cfg is_opaque (new_streamer s) moves).residents
        (walk load' cfg is_opaque (new_streamer t) moves').residents
        k
unfolding new_streamer
quiescent-Agree load load' Valid Valid' world cfg is_opaque s t moves moves' k laws laws' vs vt ex
      ez quiet quiet' sane hx hy hz inside =
    let a = walk load cfg is_opaque (new_streamer s) moves in
    let b = walk load' cfg is_opaque (new_streamer t) moves' in
    let (va, ha) = walk-Sound load Valid world laws cfg is_opaque (new_streamer s) moves (vs, tt) in
    let (vb, hb) =
      walk-Sound load' Valid' world laws' cfg is_opaque (new_streamer t) moves' (vt, tt) in
    let sane' : IsSane cfg b.center_x b.center_z = rw (← ex, ← ez) sane in
    let inside' : in_window cfg b.center_x b.center_z k ≡ true = rw (← ex, ← ez) inside in
    let at_b =
      in_window-IsSettled cfg b.center_x b.center_z b.residents b.store k sane' hx hy hz quiet'
        inside' in
    let at_b' : IsSettled cfg a.center_x a.center_z b.residents k = rw (ex, ez) at_b in
    settled-Agree world is_opaque cfg a.center_x a.center_z a.residents b.residents k ha hb
      (in_window-IsSettled cfg a.center_x a.center_z a.residents a.store k sane hx hy hz quiet
        inside)
      at_b'
