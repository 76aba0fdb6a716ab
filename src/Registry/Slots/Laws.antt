-- ===== src/Registry/Slots/Laws.antt =====
-- What the slots of an allocator hold between two calls, and that every call keeps it.
use voxel.Base.{
  ℕ, ◌+◌, ◌-◌, ◌^◌, ◌≤◌, ◌<◌, ◌≡◌, refl, ◌≢◌, true, false, some, List, [], ◌∷◌, arith, length,
  get_or, All,
}
use voxel.Identity.{EntityHandle, handle_index, handle_generation, handle_valid}
use voxel.Registry.Slots.{Slots, new_slots, live_slot, is_live}

-- A freed index: an allocated slot that is dead.
abbrev pub IsFreed : Slots → ℕ → Type 0
IsFreed a index =
    (a.first_index ≤ index)
    × (index < a.next_index)
    × (get_or a.live (index - a.first_index) false ≡ false)

abbrev pub AllDifferent : List ℕ → Type 0
AllDifferent [] = Unit
AllDifferent (x ∷ xs) = All (λ y. x ≢ y) xs × AllDifferent xs

abbrev pub IsWord : ℕ → Type 0
IsWord g = g < 2 ^ 32

pub record Inv (a : Slots) : Type 0 where
  pub counted : a.next_index ≡ a.first_index + length a.generation
  pub paired : length a.live ≡ length a.generation
  pub bounded : a.next_index ≤ 0xFFFFFFFF
  pub words : All IsWord a.generation
  pub freed : All (IsFreed a) a.free
  pub different : AllDifferent a.free

-- A slot that is alive is an allocated one whose generation is the handle's.
pub record Live (a : Slots) (h : EntityHandle) : Type 0 where
  pub above : a.first_index ≤ handle_index h
  pub below : handle_index h < a.first_index + length a.generation
  pub proper : handle_index h ≢ 0xFFFFFFFF
  pub alive : get_or a.live (handle_index h - a.first_index) false ≡ true
  pub recent : get_or a.generation (handle_index h - a.first_index) 0 ≡ handle_generation h

pub is_live-Live : (a : Slots) (h : EntityHandle) → is_live a h ≡ true → Live a h
unfolding is_live live_slot handle_valid
is_live-Live a h e = ground arith

pub is_live-of_Live : (a : Slots) (h : EntityHandle) → Live a h → is_live a h ≡ true
unfolding is_live live_slot handle_valid
is_live-of_Live a h v = ground arith

pub live_slot-Live :
    (a : Slots) (h : EntityHandle) (s : ℕ)
    → live_slot a h ≡ some s
    → (s ≡ handle_index h - a.first_index) × Live a h
unfolding live_slot handle_valid
live_slot-Live a h s e = ground arith

pub new_slots-Inv : (first : ℕ) → first ≤ 0xFFFFFFFF → Inv (new_slots first)
unfolding new_slots
new_slots-Inv first h = record {
  counted = omega arith;
  paired = refl;
  bounded = h;
  words = tt;
  freed = tt;
  different = tt;
}
