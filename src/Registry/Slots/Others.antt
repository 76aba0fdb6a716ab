-- ===== src/Registry/Slots/Others.antt =====
-- What one call of an allocator does to the life of each handle, outcome by outcome.
use voxel.Base.{
  ℕ, ◌+◌, ◌-◌, ◌%◌, ◌^◌, ◌≤◌, ◌<◌, ◌≡◌, refl, sym, ap, ◌∙◌, subst, ◌≢◌, inl, inr, true, false, List,
  [], ◌∷◌, ◌++◌, arith, Bool-cases, Bool-agree, length, get_or, set, length-append, length-set,
  get_or-append_left, get_or-append_last, get_or-set_self, get_or-set_ne,
}
use voxel.Identity.{EntityHandle, make_handle, handle_index, handle_generation}
use voxel.Identity.Handles.{make_handle-handle_fields}
use voxel.Registry.Slots.{Slots, reuse_slot, fresh_slot, is_live, free_slot}
use voxel.Registry.Slots.Laws.{IsFreed, Inv, Live, is_live-Live, is_live-of_Live}
use voxel.Registry.Slots.Safety.{carry, live_once}

pub no_slot : (a : Slots) (h : EntityHandle) → (Live a h → ⊥) → is_live a h ≡ false
no_slot a h n = elim (Bool-cases (is_live a h)) [
  | inl y ↦ absurd (n (is_live-Live a h y))
  | inr f ↦ f
]

agree :
    (a b : Slots) (h : EntityHandle)
    → (Live a h → Live b h)
    → (Live b h → Live a h)
    → is_live a h ≡ is_live b h
agree a b h f g =
    Bool-agree (is_live a h) (is_live b h) (λ l. is_live-of_Live b h (f (is_live-Live a h l)))
      (λ l. is_live-of_Live a h (g (is_live-Live b h l)))

-- A freed index is not that of a live handle.
pub IsFreed-dead : (a : Slots) (h : EntityHandle) → IsFreed a (handle_index h) → Live a h → ⊥
IsFreed-dead a h p v = let t = v.alive in let f = p.2 in cc

slots_differ : (i j f : ℕ) → f ≤ i → f ≤ j → i ≢ j → i - f ≢ j - f
slots_differ i j f h g ne = ground arith

pub reused-others :
    (a : Slots) (index : ℕ) (rest : List ℕ) (h : EntityHandle)
    → IsFreed a index
    → h.bits < 2 ^ 64
    → h ≢ (reuse_slot a index rest).1
    → is_live (reuse_slot a index rest).0 h ≡ is_live a h
unfolding reuse_slot
reused-others a index rest h p w ne =
    let s = index - a.first_index in
    let i = handle_index h in
    let b = (reuse_slot a index rest).0 in
    let same : a.first_index ≤ i
        → i ≢ index
        → get_or (set a.live s true) (i - a.first_index) false
          ≡ get_or a.live (i - a.first_index) false =
      λ above d.
        get_or-set_ne a.live s (i - a.first_index) true false
          (slots_differ index i a.first_index p.0 above (λ e. d (sym e))) in
    let apart : Live b h → i ≢ index = λ v e. ne (
      sym (make_handle-handle_fields h w)
      ∙ rw (e, sym v.recent)
          (ap (λ k. make_handle index (get_or a.generation (k - a.first_index) 0)) e)) in
    agree b a h (λ v. carry b a h refl (λ l. l) (same v.above (apart v)) refl v)
      (λ v.
        carry a b h refl (λ l. l)
          (sym (same v.above (λ e. IsFreed-dead a h (subst (IsFreed a) (sym e) p) v))) refl v)

-- A handle that reads the new slot's generation at the new index is the new handle.
fresh_handle :
    (a : Slots) (h : EntityHandle)
    → Inv a
    → h.bits < 2 ^ 64
    → handle_generation h ≡ get_or (a.generation ++ 0 ∷ []) (handle_index h - a.first_index) 0
    → handle_index h ≡ a.next_index
    → h ≡ make_handle a.next_index 0
fresh_handle a h v w g e =
    let at : handle_index h - a.first_index ≡ length a.generation = omega (arith, e, v.counted) in
    let new : handle_generation h ≡ 0 = g ∙ rw at (get_or-append_last a.generation 0 0) in
    sym (make_handle-handle_fields h w) ∙ rw (e, new) refl

pub fresh-others :
    (a : Slots) (h : EntityHandle)
    → Inv a
    → h.bits < 2 ^ 64
    → h ≢ (fresh_slot a).1
    → is_live (fresh_slot a).0 h ≡ is_live a h
unfolding fresh_slot
fresh-others a h v w ne =
    let i = handle_index h in
    let b = (fresh_slot a).0 in
    let grown = length-append a.generation (0 ∷ []) in
    let inside : a.first_index ≤ i
        → i < a.first_index + length a.generation
        → i - a.first_index < length a.generation =
      λ x y. omega arith in
    let flags : i - a.first_index < length a.generation
        → get_or (a.live ++ true ∷ []) (i - a.first_index) false
          ≡ get_or a.live (i - a.first_index) false =
      λ x.
        get_or-append_left a.live (true ∷ []) (i - a.first_index) false
          (omega (arith, v.paired, x)) in
    let gens : i - a.first_index < length a.generation
        → get_or (a.generation ++ 0 ∷ []) (i - a.first_index) 0
          ≡ get_or a.generation (i - a.first_index) 0 =
      λ x. get_or-append_left a.generation (0 ∷ []) (i - a.first_index) 0 x in
    let apart : Live b h → i ≢ a.next_index = λ l e. ne (fresh_handle a h v w (sym l.recent) e) in
    let older : Live b h → i < a.first_index + length a.generation =
      λ l. ground (arith, l.below, grown, apart l, v.counted) in
    agree b a h
      (λ l.
        let within = inside l.above (older l) in
        carry b a h refl (λ x. older l) (flags within) (gens within) l)
      (λ l.
        let within = inside l.above l.below in
        carry a b h refl (λ x. omega (arith, x, grown)) (sym (flags within)) (sym (gens within)) l)

-- The freed slot reads as dead.
not_dead :
    (a : Slots) (h g : EntityHandle) (s : ℕ)
    → Inv a
    → s ≡ handle_index h - a.first_index
    → Live a h
    → handle_index h ≡ handle_index g
    → get_or (set a.live s false) (handle_index g - a.first_index) false ≡ true
    → ⊥
not_dead a h g s v e l q alive =
    let inside : s < length a.live = omega (arith, e, l.above, l.below, v.paired) in
    let dead : get_or (set a.live s false) (handle_index g - a.first_index) false ≡ false =
      subst (λ t. get_or (set a.live s false) t false ≡ false) (e ∙ ap (λ i. i - a.first_index) q)
        (get_or-set_self a.live s false false inside) in
    cc

pub freed-dead :
    (a : Slots) (h : EntityHandle) (s : ℕ)
    → Inv a
    → s ≡ handle_index h - a.first_index
    → Live a h
    → is_live (free_slot a h s) h ≡ false
unfolding free_slot
freed-dead a h s v e l =
    no_slot (free_slot a h s) h λ after. not_dead a h h s v e l refl after.alive

pub freed-others :
    (a : Slots) (h g : EntityHandle) (s : ℕ)
    → Inv a
    → s ≡ handle_index h - a.first_index
    → Live a h
    → h.bits < 2 ^ 64
    → g.bits < 2 ^ 64
    → g ≢ h
    → is_live (free_slot a h s) g ≡ is_live a g
unfolding free_slot
freed-others a h g s v e l wh wg ne =
    let b = free_slot a h s in
    let t = handle_index g - a.first_index in
    let bumped = (get_or a.generation s 0 + 1) % 2 ^ 32 in
    let sized = length-set a.generation s bumped in
    let apart_after : Live b g → handle_index h ≢ handle_index g =
      λ m q. not_dead a h g s v e l q m.alive in
    let apart_before : Live a g → handle_index h ≢ handle_index g =
      λ m q. ne (live_once a g h wg wh (is_live-of_Live a g m) (is_live-of_Live a h l) (sym q)) in
    let slots : a.first_index ≤ handle_index g → handle_index h ≢ handle_index g → s ≢ t =
      λ x y. rw e (slots_differ (handle_index h) (handle_index g) a.first_index l.above x y) in
    agree b a g
      (λ m.
        let d = slots m.above (apart_after m) in
        carry b a g refl (λ x. omega (arith, x, sized)) (get_or-set_ne a.live s t false false d)
          (get_or-set_ne a.generation s t bumped 0 d) m)
      (λ m.
        let d = slots m.above (apart_before m) in
        carry a b g refl (λ x. omega (arith, x, sized))
          (sym (get_or-set_ne a.live s t false false d))
          (sym (get_or-set_ne a.generation s t bumped 0 d)) m)
