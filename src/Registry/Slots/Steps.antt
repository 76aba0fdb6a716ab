-- ===== src/Registry/Slots/Steps.antt =====
-- The three outcomes of an allocation, and that allocation and release keep the invariant.
use voxel.Base.{
  ℕ, zero, suc, ◌+◌, ◌-◌, ◌%◌, ◌^◌, ◌≤◌, ◌<◌, ◌≡◌, refl, sym, ◌∙◌, subst, ◌≢◌, inl, inr, Bool, true,
  false, Option, none, some, List, [], ◌∷◌, arith, ◌==◌, ==_iff, Bool-cases, length, get_or, set,
  All, length-append, length-set, get_or-append_left, get_or-set_self, get_or-set_ne, All-append,
  All-set,
}
use voxel.Identity.{EntityHandle, invalid_handle, handle_index}
use voxel.Registry.Slots.{
  Slots, reuse_slot, fresh_slot, allocate, live_slot, is_live, free_slot, release,
}
use voxel.Registry.Slots.Laws.{IsFreed, AllDifferent, IsWord, Inv, Live, live_slot-Live}

pub data Outcome (a : Slots) : Type 0 where
  exhausted : a.free ≡ [] → a.next_index ≡ 0xFFFFFFFF → allocate a ≡ (a, invalid_handle) → Outcome a
  fresh : a.free ≡ [] → a.next_index ≢ 0xFFFFFFFF → allocate a ≡ fresh_slot a → Outcome a
  reused :
      (index : ℕ) (rest : List ℕ)
      → a.free ≡ index ∷ rest
      → allocate a ≡ reuse_slot a index rest
      → Outcome a

allocate_cases : (a : Slots) (l : List ℕ) → l ≡ a.free → Outcome a
unfolding allocate
allocate_cases a [] e = elim (Bool-cases (a.next_index == 0xFFFFFFFF)) [
  | inl y ↦ exhausted (sym e) ((==_iff a.next_index 0xFFFFFFFF).0 y) (rw (sym e, y) refl)
  | inr n ↦ fresh (sym e) (ground arith) (rw (sym e, n) refl)
]
allocate_cases a (index ∷ rest) e = reused index rest (sym e) (rw (sym e) refl)

pub outcome : (a : Slots) → Outcome a
outcome a = allocate_cases a a.free refl

-- Freed indices stay freed when another slot is taken.
IsFreed-reuse_slot :
    (a : Slots) (index : ℕ) (rest js : List ℕ)
    → a.first_index ≤ index
    → All (λ j. index ≢ j) js
    → All (IsFreed a) js
    → All (IsFreed (reuse_slot a index rest).0) js
unfolding reuse_slot
IsFreed-reuse_slot a index rest [] h d p = tt
IsFreed-reuse_slot a index rest (j ∷ js) h d p =
    let other : index - a.first_index ≢ j - a.first_index = ground (arith, d.0, p.0) in
    let same = get_or-set_ne a.live (index - a.first_index) (j - a.first_index) true false other in
    ((p.0.0, p.0.1, same ∙ p.0.2), IsFreed-reuse_slot a index rest js h d.1 p.1)

IsFreed-fresh_slot :
    (a : Slots) (js : List ℕ) → Inv a → All (IsFreed a) js → All (IsFreed (fresh_slot a).0) js
unfolding fresh_slot
IsFreed-fresh_slot a [] v p = tt
IsFreed-fresh_slot a (j ∷ js) v p =
    let inside : j - a.first_index < length a.live =
      omega (arith, p.0.0, p.0.1, v.counted, v.paired) in
    let same = get_or-append_left a.live (true ∷ []) (j - a.first_index) false inside in
    ((p.0.0, omega (arith, p.0.1), same ∙ p.0.2), IsFreed-fresh_slot a js v p.1)

set_dead :
    (xs : List Bool) (i j : ℕ) → get_or xs j false ≡ false → get_or (set xs i false) j false ≡ false
set_dead [] i j h = h
set_dead (x ∷ xs) zero zero h = refl
set_dead (x ∷ xs) zero (suc j) h = h
set_dead (x ∷ xs) (suc i) zero h = h
set_dead (x ∷ xs) (suc i) (suc j) h = set_dead xs i j h

IsFreed-free_slot :
    (a : Slots) (h : EntityHandle) (s : ℕ) (js : List ℕ)
    → All (IsFreed a) js
    → All (IsFreed (free_slot a h s)) js
unfolding free_slot
IsFreed-free_slot a h s [] p = tt
IsFreed-free_slot a h s (j ∷ js) p =
    ((p.0.0, p.0.1, set_dead a.live s (j - a.first_index) p.0.2), IsFreed-free_slot a h s js p.1)

clash : {b : Bool} → b ≡ true → b ≡ false → ⊥
clash {b} t f = cc

-- A live index is not among the freed ones.
Live-disjoint :
    (a : Slots) (h : EntityHandle) (js : List ℕ)
    → Live a h
    → All (IsFreed a) js
    → All (λ j. handle_index h ≢ j) js
Live-disjoint a h [] v p = tt
Live-disjoint a h (j ∷ js) v p = (λ e. clash v.alive (rw e p.0.2), Live-disjoint a h js v p.1)

reuse_slot-Inv :
    (a : Slots) (index : ℕ) (rest : List ℕ)
    → Inv a
    → a.free ≡ index ∷ rest
    → Inv (reuse_slot a index rest).0
unfolding reuse_slot
reuse_slot-Inv a index rest v e =
    let freed = subst (All (IsFreed a)) e v.freed in
    let different = subst AllDifferent e v.different in
    record {
      counted = v.counted;
      paired = length-set a.live (index - a.first_index) true ∙ v.paired;
      bounded = v.bounded;
      words = v.words;
      freed = IsFreed-reuse_slot a index rest rest freed.0.0 different.0 freed.1;
      different = different.1;
    }

fresh_slot-Inv : (a : Slots) → Inv a → a.next_index ≢ 0xFFFFFFFF → Inv (fresh_slot a).0
unfolding fresh_slot
fresh_slot-Inv a v h = record {
  counted = omega (arith, v.counted, length-append a.generation (0 ∷ []));
  paired =
      omega
        (arith, v.paired, length-append a.generation (0 ∷ []), length-append a.live (true ∷ []));
  bounded = ground (arith, v.bounded);
  words = All-append IsWord a.generation (0 ∷ []) v.words (omega arith, tt);
  freed = IsFreed-fresh_slot a a.free v v.freed;
  different = v.different;
}

free_slot-Inv :
    (a : Slots) (h : EntityHandle) (s : ℕ)
    → Inv a
    → s ≡ handle_index h - a.first_index
    → Live a h
    → Inv (free_slot a h s)
unfolding free_slot
free_slot-Inv a h s v e l = record {
  counted =
      ground (arith, v.counted, length-set a.generation s ((get_or a.generation s 0 + 1) % 2 ^ 32));
  paired =
      length-set a.live s false
      ∙ v.paired
      ∙ sym (length-set a.generation s ((get_or a.generation s 0 + 1) % 2 ^ 32));
  bounded = v.bounded;
  words =
      All-set IsWord a.generation s ((get_or a.generation s 0 + 1) % 2 ^ 32) v.words (omega arith);
  freed = (
    (l.above, omega (arith, l.below, v.counted), dead_now),
    IsFreed-free_slot a h s a.free v.freed,
  );
  different = (Live-disjoint a h a.free l v.freed, v.different);
}
  where
    inside : s < length a.live
    inside = omega (arith, e, l.above, l.below, v.paired)

    dead_now : get_or (set a.live s false) (handle_index h - a.first_index) false ≡ false
    dead_now = rw (sym e) (get_or-set_self a.live s false false inside)

-- An allocation keeps the bookkeeping of the slots.
pub allocate-Inv : (a : Slots) → Inv a → Inv (allocate a).0
allocate-Inv a v = elim (outcome a) [
  | exhausted e m q ↦ rw q v
  | fresh e m q ↦ rw q (fresh_slot-Inv a v m)
  | reused index rest e q ↦ rw q (reuse_slot-Inv a index rest v e)
]

-- A release is refused, or it frees the live slot of the handle.
pub data Released (a : Slots) (h : EntityHandle) : Type 0 where
  refused : is_live a h ≡ false → release a h ≡ (a, false) → Released a h
  freed :
      (s : ℕ)
      → s ≡ handle_index h - a.first_index
      → Live a h
      → release a h ≡ (free_slot a h s, true)
      → Released a h

release_cases : (a : Slots) (h : EntityHandle) (o : Option ℕ) → live_slot a h ≡ o → Released a h
unfolding release is_live
release_cases a h none e = refused (rw (is_live, e) refl) (rw (release, e) refl)
release_cases a h (some s) e =
    let found = live_slot-Live a h s e in freed s found.0 found.1 (rw (release, e) refl)

pub released : (a : Slots) (h : EntityHandle) → Released a h
released a h = release_cases a h (live_slot a h) refl

-- A release keeps the bookkeeping of the slots, whatever handle it is given.
pub release-Inv : (a : Slots) (h : EntityHandle) → Inv a → Inv (release a h).0
release-Inv a h v = elim (released a h) [
  | refused n q ↦ rw q v
  | freed s e l q ↦ rw q (free_slot-Inv a h s v e l)
]
