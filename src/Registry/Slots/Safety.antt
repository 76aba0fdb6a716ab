-- ===== src/Registry/Slots/Safety.antt =====
-- What a caller of an allocator relies on: a handle is alive from its allocation to its release and
-- at no other time, and no call touches the handles of others.
use voxel.Base.{
  ℕ, ◌+◌, ◌-◌, ◌^◌, ◌<◌, ◌≡◌, refl, sym, ap, ◌∙◌, subst, ◌≢◌, true, false, List, [], ◌∷◌, arith,
  length, get_or, All, length-append, get_or-append_last, get_or-set_self, All-get_or,
}
use voxel.Identity.{EntityHandle, handle_index, handle_generation}
use voxel.Identity.Handles.{handle_fields-make_handle, make_handle-handle_fields}
use voxel.Registry.Slots.{Slots, reuse_slot, fresh_slot, is_live}
use voxel.Registry.Slots.Laws.{IsFreed, IsWord, Inv, Live, is_live-Live}

-- No two live handles share an index.
pub live_once :
    (a : Slots) (g h : EntityHandle)
    → g.bits < 2 ^ 64
    → h.bits < 2 ^ 64
    → is_live a g ≡ true
    → is_live a h ≡ true
    → handle_index g ≡ handle_index h
    → g ≡ h
live_once a g h wg wh lg lh e =
    let p = is_live-Live a g lg in
    let q = is_live-Live a h lh in
    let same : handle_generation g ≡ handle_generation h =
      sym p.recent ∙ ap (λ i. get_or a.generation (i - a.first_index) 0) e ∙ q.recent in
    sym (make_handle-handle_fields g wg) ∙ rw (e, same) (make_handle-handle_fields h wh)

pub reused-Live :
    (a : Slots) (index : ℕ) (rest : List ℕ)
    → Inv a
    → a.free ≡ index ∷ rest
    → Live (reuse_slot a index rest).0 (reuse_slot a index rest).1
unfolding reuse_slot
reused-Live a index rest v e =
    let p : IsFreed a index = (subst (All (IsFreed a)) e v.freed).0 in
    let inside : index - a.first_index < length a.generation = omega (arith, p.0, p.1, v.counted) in
    let g = get_or a.generation (index - a.first_index) 0 in
    let word : g < 2 ^ 32 =
      All-get_or IsWord a.generation (index - a.first_index) 0 v.words inside in
    let f = handle_fields-make_handle index g (omega (arith, p.1, v.bounded)) word in
    record {
      above = rw f.0 p.0;
      below = rw f.0 (omega (arith, p.1, v.counted));
      proper = ground (arith, f.0, p.1, v.bounded);
      alive = rw f.0 (
          get_or-set_self a.live (index - a.first_index) true false
            (omega (arith, v.paired, inside)));
      recent = rw (f.0, f.1) refl;
    }

pub fresh-Live :
    (a : Slots) → Inv a → a.next_index ≢ 0xFFFFFFFF → Live (fresh_slot a).0 (fresh_slot a).1
unfolding fresh_slot
fresh-Live a v ne =
    let f = handle_fields-make_handle a.next_index 0 (omega (arith, v.bounded)) (omega arith) in
    let at : a.next_index - a.first_index ≡ length a.generation = omega (arith, v.counted) in
    let same : length a.generation ≡ length a.live = sym v.paired in
    record {
      above = rw f.0 (omega (arith, v.counted));
      below = rw f.0 (omega (arith, v.counted, length-append a.generation (0 ∷ [])));
      proper = ground (arith, f.0, v.bounded);
      alive = rw (f.0, at, same) (get_or-append_last a.live true false);
      recent = rw (f.0, f.1, at) (get_or-append_last a.generation 0 0);
    }

-- Slots that agree at the slot of a handle agree about its life.
pub carry :
    (a b : Slots) (h : EntityHandle)
    → a.first_index ≡ b.first_index
    → (handle_index h < a.first_index + length a.generation
        → handle_index h < b.first_index + length b.generation)
    → get_or a.live (handle_index h - a.first_index) false
      ≡ get_or b.live (handle_index h - a.first_index) false
    → get_or a.generation (handle_index h - a.first_index) 0
      ≡ get_or b.generation (handle_index h - a.first_index) 0
    → Live a h
    → Live b h
carry a b h f l al ge v = record {
  above = rw (sym f) v.above;
  below = l v.below;
  proper = v.proper;
  alive = rw (sym f) (sym al ∙ v.alive);
  recent = rw (sym f) (sym ge ∙ v.recent);
}
