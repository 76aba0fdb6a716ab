-- ===== src/Registry/Slots/Lifetime.antt =====
-- The life of a handle over calls of allocate and release.
use voxel.Base.{
  ℕ, ◌-◌, ◌^◌, ◌≤◌, ◌<◌, ◌≡◌, refl, sym, ◌∙◌, subst, ◌≢◌, true, false, List, [], ◌∷◌, arith, length,
  get_or, All, All-get_or,
}
use voxel.Identity.{EntityHandle, invalid_handle, handle_index, handle_valid}
use voxel.Identity.Handles.{handle_fields-make_handle}
use voxel.Registry.Slots.{Slots, new_slots, reuse_slot, fresh_slot, allocate, is_live, release}
use voxel.Registry.Slots.Laws.{IsFreed, Inv, is_live-of_Live, new_slots-Inv}
use voxel.Registry.Slots.Steps.{
  exhausted, fresh, reused, outcome, refused, freed, released, allocate-Inv, release-Inv,
}
use voxel.Registry.Slots.Safety.{reused-Live, fresh-Live}
use voxel.Registry.Slots.Others.{
  IsFreed-dead, no_slot, reused-others, fresh-others, freed-dead, freed-others,
}

-- The handle's life before and after an allocation.
abbrev pub IsBorn : Slots → EntityHandle → Slots → Type 0
IsBorn a h b = (is_live a h ≡ false) × (is_live b h ≡ true)

head-IsFreed :
    (a : Slots) (index : ℕ) (rest : List ℕ) → Inv a → a.free ≡ index ∷ rest → IsFreed a index
head-IsFreed a index rest v e = (subst (All (IsFreed a)) e v.freed).0

reused-IsBorn :
    (a : Slots) (index : ℕ) (rest : List ℕ)
    → Inv a
    → a.free ≡ index ∷ rest
    → IsBorn a (reuse_slot a index rest).1 (reuse_slot a index rest).0
unfolding reuse_slot
reused-IsBorn a index rest v e =
    let h = (reuse_slot a index rest).1 in
    let freed = head-IsFreed a index rest v e in
    let live = reused-Live a index rest v e in
    let inside : index - a.first_index < length a.generation =
      omega (arith, freed.0, freed.1, v.counted) in
    let word = All-get_or (λ g. g < 2 ^ 32) a.generation (index - a.first_index) 0 v.words inside in
    let f =
      handle_fields-make_handle index (get_or a.generation (index - a.first_index) 0)
        (omega (arith, freed.1, v.bounded)) word in
    (
      no_slot a h (IsFreed-dead a h (subst (IsFreed a) (sym f.0) freed)),
      is_live-of_Live (reuse_slot a index rest).0 h live,
    )

fresh-IsBorn :
    (a : Slots) → Inv a → a.next_index ≢ 0xFFFFFFFF → IsBorn a (fresh_slot a).1 (fresh_slot a).0
unfolding fresh_slot
fresh-IsBorn a v ne =
    let f = handle_fields-make_handle a.next_index 0 (omega (arith, v.bounded)) (omega arith) in
    (
      no_slot a (fresh_slot a).1 (λ l. absurd (omega (arith, l.below, f.0, v.counted))),
      is_live-of_Live (fresh_slot a).0 (fresh_slot a).1 (fresh-Live a v ne),
    )

no_invalid : (a : Slots) → handle_valid invalid_handle ≡ true → IsBorn a invalid_handle a
unfolding handle_valid handle_index
no_invalid a h = cc

-- A valid handle that an allocation returns was dead before and is alive after.
pub allocate-IsBorn :
    (a : Slots)
    → Inv a
    → handle_valid (allocate a).1 ≡ true
    → IsBorn a (allocate a).1 (allocate a).0
allocate-IsBorn a v h = elim (outcome a) [
  | exhausted e m q ↦ rw q (no_invalid a (subst (λ t. handle_valid t.1 ≡ true) q h))
  | fresh e m q ↦ rw q (fresh-IsBorn a v m)
  | reused index rest e q ↦ rw q (reused-IsBorn a index rest v e)
]

-- An allocation changes the life of no handle but the one that it returns.
pub allocate-others :
    (a : Slots) (h : EntityHandle)
    → Inv a
    → h.bits < 2 ^ 64
    → h ≢ (allocate a).1
    → is_live (allocate a).0 h ≡ is_live a h
allocate-others a h v w ne = elim (outcome a) [
  | exhausted e m q ↦ rw q refl
  | fresh e m q ↦ rw q (fresh-others a h v w (subst (λ t. h ≢ t.1) q ne))
  | reused index rest e q ↦
      rw q
        (reused-others a index rest h (head-IsFreed a index rest v e) w (subst (λ t. h ≢ t.1) q ne))
]

-- A release answers whether the handle was alive, and the handle is dead after it.
pub release-ends :
    (a : Slots) (h : EntityHandle)
    → Inv a
    → ((release a h).1 ≡ is_live a h) × (is_live (release a h).0 h ≡ false)
release-ends a h v = elim (released a h) [
  | refused n q ↦ rw (q, n) (refl, refl)
  | freed s e l q ↦ rw (q, is_live-of_Live a h l) (refl, freed-dead a h s v e l)
]

-- A release changes the life of no handle but the released one: a later owner of the same slot, or
-- an earlier one, keeps its state.
pub release-others :
    (a : Slots) (h g : EntityHandle)
    → Inv a
    → h.bits < 2 ^ 64
    → g.bits < 2 ^ 64
    → g ≢ h
    → is_live (release a h).0 g ≡ is_live a g
release-others a h g v wh wg ne = elim (released a h) [
  | refused n q ↦ rw q refl
  | freed s e l q ↦ rw q (freed-others a h g s v e l wh wg ne)
]

pub data Call : Type 0 where
  allocates : Call
  releases : EntityHandle → Call

unfoldable pub step : Slots → Call → Slots
step a allocates = (allocate a).0
step a (releases h) = (release a h).0

unfoldable pub run : Slots → List Call → Slots
run a [] = a
run a (c ∷ cs) = run (step a c) cs

run-Inv : (a : Slots) (cs : List Call) → Inv a → Inv (run a cs)
unfolding run step
run-Inv a [] v = v
run-Inv a (allocates ∷ cs) v = run-Inv (allocate a).0 cs (allocate-Inv a v)
run-Inv a (releases h ∷ cs) v = run-Inv (release a h).0 cs (release-Inv a h v)

-- From a new allocator on, any history of calls keeps the bookkeeping: one generation and one flag
-- for each index handed out, none of them reserved, and a free list of dead slots without repeats.
pub run-new_slots-Inv :
    (first : ℕ) (cs : List Call) → first ≤ 0xFFFFFFFF → Inv (run (new_slots first) cs)
run-new_slots-Inv first cs h = run-Inv (new_slots first) cs (new_slots-Inv first h)

-- A call that releases another handle, or allocates.
abbrev pub Spares : EntityHandle → Call → Type 0
Spares h allocates = Unit
Spares h (releases g) = (g.bits < 2 ^ 64) × (h ≢ g)

live-ne : (a : Slots) (h g : EntityHandle) → is_live a h ≡ true → is_live a g ≡ false → h ≢ g
live-ne a h g l n e = cc

stays-allocate :
    (a : Slots) (h : EntityHandle)
    → Inv a
    → h.bits < 2 ^ 64
    → is_live a h ≡ true
    → is_live (allocate a).0 h ≡ true
stays-allocate a h v w l = elim (outcome a) [
  | exhausted e m q ↦ rw q l
  | fresh e m q ↦ rw q (fresh-others a h v w (live-ne a h _ l (fresh-IsBorn a v m).0) ∙ l)
  | reused index rest e q ↦ rw q (
      reused-others a index rest h (head-IsFreed a index rest v e) w
        (live-ne a h _ l (reused-IsBorn a index rest v e).0)
      ∙ l)
]

-- A live handle stays alive through any history that does not release it.
pub run-live :
    (a : Slots) (h : EntityHandle) (cs : List Call)
    → Inv a
    → h.bits < 2 ^ 64
    → is_live a h ≡ true
    → All (Spares h) cs
    → is_live (run a cs) h ≡ true
unfolding run step
run-live a h [] v w l p = l
run-live a h (allocates ∷ cs) v w l p =
    run-live (allocate a).0 h cs (allocate-Inv a v) w (stays-allocate a h v w l) p.1
run-live a h (releases g ∷ cs) v w l p =
    run-live (release a g).0 h cs (release-Inv a g v) w (release-others a g h v p.0.0 w p.0.1 ∙ l)
      p.1
